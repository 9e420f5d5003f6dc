-- ===== src/Base/Loop.antt =====
-- Counted loops, and the do-notation of results that may be missing.
use Prim.Native.Nat.{ℕ, zero, suc, ◌+◌, ◌<◌}
use mathlib.Core.Path.{◌≡◌, subst}
use mathlib.Core.Option.{Option, none, some}
use native.Mathlib.Omega.{arith}

infixl 5 ◌>>=◌
abbrev pub ◌>>=◌ {ℓ κ} : {A : Type ℓ} {B : Type κ} → Option A → (A → Option B) → Option B
none >>= f = none
some a >>= f = f a

-- `for k := i; k < i + rounds; k++ { s = body(k, s) }`
unfoldable pub for_range {ℓ} : {S : Type ℓ} (rounds i : ℕ) → (ℕ → S → S) → S → S
for_range zero i body s = s
for_range (suc n) i body s = for_range n (suc i) body (body i s)

-- What each round keeps holds at the end of the loop.
pub for_range_inv {ℓ κ} :
    {S : Type ℓ} (P : ℕ → S → Type κ) (stop : ℕ) (body : ℕ → S → S) (n i : ℕ) (s : S)
    → i + n ≡ stop
    → ((k : ℕ) (t : S) → k < stop → P k t → P (suc k) (body k t))
    → P i s
    → P stop (for_range n i body s)
unfolding for_range
for_range_inv P stop body zero i s e keep p = subst (λ k. P k s) (omega arith) p
for_range_inv P stop body (suc n) i s e keep p =
    for_range_inv P stop body n (suc i) (body i s) (omega arith) keep (keep i s (omega arith) p)
