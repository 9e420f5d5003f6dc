-- ===== src/Api/Result.antt =====
-- What the body of a transaction returns, and the transaction itself.
use mop_backend_api.Base.{
  ◌≡◌, refl, Bool, true, false, List, [], ◌∷◌, Option, none, some, arith, ◌⊎◌, inl, inr,
}

-- the errors of the transactions of api/v1_routing.go and api/v1_groups.go; `database` is one of gorm's, `nil_index` the
-- panic on a nil pointer, after which gorm rolls back as well
pub data Failure : Type 0 where
  database not_found no_stop first_stop end_of_route boundary not_first invalid : Failure
  nil_index no_visits letter_sent missing_ids same_status not_in_group : Failure

pub data Result (A : Type 0) : Type 0 where
  ok : A → Result A
  err : Failure → Result A

infixl 5 ◌>>=◌ ◌>>◌
unfoldable pub ◌>>=◌ : {A B : Type 0} → Result A → (A → Result B) → Result B
err reason >>= next = err reason
ok a >>= next = next a

unfoldable pub ◌>>◌ : {B : Type 0} → Result (Unit {0}) → Result B → Result B
first >> second = first >>= λ _. second

-- a check that a transaction makes, and the error where it fails
unfoldable pub guard : Bool → Failure → Result (Unit {0})
guard false reason = err reason
guard true reason = ok tt

unfoldable pub or_fail : {A : Type 0} → Option A → Failure → Result A
or_fail none e = err e
or_fail (some a) e = ok a

unfoldable pub head_or_fail : {A : Type 0} → List A → Failure → Result A
head_or_fail [] e = err e
head_or_fail (x ∷ xs) e = ok x

-- an error rolls back what the body wrote
unfoldable pub transaction : {S : Type 0} → (S → Result S) → S → Result (Unit {0}) × S
transaction body s = elim (body s) [ ok s' ↦ (ok tt, s') | err e ↦ (err e, s) ]

-- what a step that did not fail had before it
pub >>=-eq-ok :
    {A B : Type 0} (next : A → Result B) (step : Result A) {b : B}
    → (step >>= next) ≡ ok b
    → (mid : A) × (step ≡ ok mid) × (next mid ≡ ok b)
unfolding ◌>>=◌
>>=-eq-ok next (err reason) e = absurd (ground arith)
>>=-eq-ok next (ok mid) e = (mid, refl, e)

pub >>-eq-ok :
    {B : Type 0} (m : Result (Unit {0})) (k : Result B) {b : B}
    → (m >> k) ≡ ok b
    → (m ≡ ok tt) × (k ≡ ok b)
unfolding ◌>>◌ ◌>>=◌
>>-eq-ok (ok tt) k h = (refl, h)
>>-eq-ok (err e) k h = absurd (ground arith)

pub or_fail-eq-ok :
    {A : Type 0} (o : Option A) (e : Failure) {a : A} → or_fail o e ≡ ok a → o ≡ some a
unfolding or_fail
or_fail-eq-ok none e h = absurd (ground arith)
or_fail-eq-ok (some a) e h = ground arith

pub guard-eq-ok : (b : Bool) (e : Failure) {u : Unit {0}} → guard b e ≡ ok u → b ≡ true
unfolding guard
guard-eq-ok true e h = refl
guard-eq-ok false e h = absurd (ground arith)

pub head_or_fail-eq-ok :
    {A : Type 0} (l : List A) (e : Failure) {a : A}
    → head_or_fail l e ≡ ok a
    → (r : List A) × (l ≡ a ∷ r)
unfolding head_or_fail
head_or_fail-eq-ok [] e h = absurd (ground arith)
head_or_fail-eq-ok (x ∷ r) e h = (r, ground arith)

pub Result-cases :
    {A : Type 0} (m : Result A) → ((a : A) × (m ≡ ok a)) ⊎ ((e : Failure) × (m ≡ err e))
Result-cases (ok a) = inl (a, refl)
Result-cases (err e) = inr (e, refl)
