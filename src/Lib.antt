-- ===== src/Lib.antt =====
-- Verification library of the visit backend: the route planning of internal/tsp, the segments and
-- groups of visits, their times, the settings of routes and the users in api, and what stands in
-- front of the handlers in middleware.
--
-- The parts and how they interact. A client asks for the visits of a group to be driven in a good
-- order. `SolveWaypoints` has Valhalla make a matrix of costs (`BuildMatrix`), `solveOrder` finds an
-- order, exactly by `heldKarp` up to 25 stops and by `nearestNeighbor` and `twoOpt` above, and
-- `RouteGeometry` fetches the legs of the result. A group is cut into segments, numbered along the
-- route from 0, which `SplitSegment` and `JoinSegment` change in a transaction. The routes of main.go
-- stand behind the block by country and one of the four guards of middleware/auth.go, and logins behind
-- the limit of `LoginAttemptLog`.
--
-- Base: shared names, lists and tests over native numbers, loops, the bits of a mask.
-- Tsp/Float: float64, as an interface with the laws of IEEE 754 that the proofs use (values other
--   than NaN and -Inf; no associativity). Tsp/Exact is an instance, for the tests.
-- Tsp/Cost: the matrix, the length of an order, routes. Tsp/Items: rearrangements.
-- Tsp/HeldKarp: `heldKarp`, its table as a function of a mask and an end, -1 as `none`. Its children
--   follow the proof: a walk over a set of stops, one relaxation, the filling in the order of the
--   masks, the table, tours, the trace back, the choice of the end.
-- Tsp/TwoOpt: `twoOpt`, on fuel. Tsp/Nearest: `nearestNeighbor`. Tsp/Solve: `solveOrder`,
--   `reverseMatrix` and `reverseOrder`.
-- Tsp/Valhalla: the matrix of `getMatrixFromValhalla` from the service's answer,
--   `hasUnreachablePair` and `BuildMatrix`. Tsp/Waypoints: `SolveWaypoints`.
-- Tsp/Legs: `coLocated`, `collapseConsecutive`, `expandLegs` and `RouteGeometry`.
--   All of these are in internal/tsp/tsp_solver.go.
-- Api/Result, Api/Visits: the result of a transaction's body, the rows of models/structs.go and the
--   database as an interface: a record of queries and updates with the laws relied on.
-- Api/Segments: `SplitSegment`, `JoinSegment` and `assertSegmentsValid` of api/v1_routing.go, with
--   `UpdateVisitValue` of internal/internal.go. Api/Reorder: `ReorderVisit` and `fixRouteOrder`.
-- Api/Optimise: `groupSegments` and `optimizeSegmented` of the same file. Its child Solver has the calls
--   of `SolveWaypoints`, and Tsp/Waypoints/Same what they need to know of it.
-- Api/Steps: sequences of calls of `SplitSegment`, `JoinSegment` and `ReorderVisit` as a step relation.
-- Api/Rows, Api/Places: the rows of a query, and rows that are put at the places of a list of ids.
-- Api/Groups: `AssignVisitsToGroup`, `ChangeGroupDate`, `RemoveFromGroup`, `ChangeKonsulent` and
--   `nextVacantGroupId` of api/v1_groups.go, with `UpdateVisitStatus` of internal/internal.go.
--   Api/Move: `ChangeGroupId` of the same file.
-- Api/Accounts, Api/Users: `CreateUser`, `Patch`, `DeleteUser`, `ChangePassword` and `Login` of
--   api/v1_user.go over the table of users.
-- Api/Planning: `mergeByGeocode` of api/v1_visitCreationPlanning.go, on texts of code points.
-- Api/Names: `sanitizeAndDeduplicateNames` of api/v1_visitReview.go.
-- Api/Schedule: `computeArrivalTimes` of api/v1_route.go, on moments in nanoseconds. Api/Interval:
--   `visitIntervalRange` of api/v1_visitPlan.go, on whole hours.
-- Api/Settings: `getRouteSetting` and `PatchRouteSettings` of api/v1_route.go.
-- Middleware/Auth: `RequireAuthUser`, `RequireAuthOfficeWorker`, `RequireAuthAuditor` and
--   `RequireAuthAdmin` of middleware/auth.go. The four share the code from the claims on.
-- Middleware/Security: `LoginAttemptLog` and `isRateLimited`, and Middleware/GeoBlock:
--   `GeoIPBlocker`, `isLocalIP` and `isBannedIP`, of middleware/security.go. The guards record the
--   attempts that the blocker reads.
-- Tests: runs on small inputs, and the theorems at concrete inputs.
--
-- Bounds and fuel. `twoOpt` loops while a pass has found a shorter tour. Each such pass leaves a
-- shorter list of the same stops, so more fuel than there are lists of that length over the stops
-- (`k ^ n` for `n` stops below `k`) is enough, and the theorems say so. The other loops have fixed
-- bounds. Masks are natural numbers: the code has at most 25 stops where it uses them, which fits in
-- a word.
--
-- What is taken as given, as parameters: Valhalla (its matrix for a snap radius, its trip for a list of
-- places), the database, the row that gorm finds for a nil condition, the JWT library, bcrypt, the net
-- package and the country database, the tables of unicode, the regular expression that splits a name,
-- the parsing and printing of times and of numbers, the differences of coordinates. In Api a query
-- that the database cannot answer, a missing row and a nil pointer are results of the model's own;
-- in a transaction each of them rolls back. Middleware does not read the errors of its queries: one
-- that fails leaves a count 0 or a row empty, and which of them fail is part of a request.
--
-- Not modelled: the HTTP encoding of requests and answers and the logging; the handlers that only
-- query (lists, excel sheets, PDF reports, letters); the clients of Advopro and Penneo; the migrations.
-- The free optimisation of a group, the storing of a new order and of arrival times, and the planning of
-- visits apart from `mergeByGeocode` are not part of the library.
pub mod Base
pub mod Tsp
pub mod Tests
pub mod Api
pub mod Middleware
