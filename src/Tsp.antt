-- ===== src/Tsp.antt =====
-- internal/tsp
pub mod Float
pub mod Exact
pub mod Cost
pub mod HeldKarp
pub mod Items
pub mod TwoOpt
pub mod Nearest
pub mod Solve
pub mod Valhalla
pub mod Legs
pub mod Waypoints
