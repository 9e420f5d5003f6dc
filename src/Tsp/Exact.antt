-- ===== src/Tsp/Exact.antt =====
-- Numbers with the laws of `Float`: exact integers with -0 and +Inf. The theorems are tried on them.
use mop_backend_api.Base.{ℕ, suc, ◌-◌, ◌≡◌, refl, Bool, true, false, arith, ltb, if◌then◌else◌}
use mop_backend_api.Base.Int.{ℤ, pos, negsuc, ◌+ℤ◌, ltb_ℤ}
use mop_backend_api.Tsp.Float.{Float}

pub data Exact : Type 0 where
  fin : ℤ → Exact
  neg_zero : Exact
  infinite : Exact

abbrev pub num : ℕ → Exact
num n = fin (pos n)

abbrev value : Exact → ℤ
value (fin a) = a
value neg_zero = pos 0
value infinite = pos 0

abbrev below : Exact → Exact → Bool
below infinite b = false
below (fin a) infinite = true
below (fin a) (fin b) = ltb_ℤ a b
below (fin a) neg_zero = ltb_ℤ a (pos 0)
below neg_zero infinite = true
below neg_zero (fin b) = ltb_ℤ (pos 0) b
below neg_zero neg_zero = false

unfoldable pub sum : Exact → Exact → Exact
unfolding ◌+ℤ◌
sum infinite b = infinite
sum (fin a) infinite = infinite
sum (fin a) (fin b) = fin (a +ℤ b)
sum (fin a) neg_zero = fin a
sum neg_zero infinite = infinite
sum neg_zero (fin b) = fin b
sum neg_zero neg_zero = neg_zero

abbrev negate : Exact → Exact
negate (fin (pos n)) = if ltb 0 n then fin (negsuc (n - 1)) else neg_zero
negate (fin (negsuc n)) = num (suc n)
negate neg_zero = num 0
negate infinite = infinite

abbrev sign : Exact → Bool
sign (fin (pos n)) = false
sign (fin (negsuc n)) = true
sign neg_zero = true
sign infinite = false

pub below_asymm : (a b : Exact) → below a b ≡ true → below b a ≡ false
below_asymm a b h = ground arith

pub below_trans : (a b c : Exact) → below b a ≡ false → below c b ≡ false → below c a ≡ false
below_trans a b c h k = ground arith

pub below_infinite : (a : Exact) → below infinite a ≡ false
below_infinite a = refl

pub sum_mono : (a b c : Exact) → below b a ≡ false → below (sum b c) (sum a c) ≡ false
unfolding sum
sum_mono infinite b c h = ground arith
sum_mono neg_zero b c h = ground arith
sum_mono (fin a) infinite c h = ground arith
sum_mono (fin a) neg_zero c h = ground arith
sum_mono (fin a) (fin b) c h = ground arith

pub infinite-sum : (c : Exact) → below (sum infinite c) infinite ≡ false
unfolding sum
infinite-sum c = refl

pub negate_pos :
    (a : Exact) → below (num 0) a ≡ true → below a infinite ≡ true → below (negate a) (num 0) ≡ true
negate_pos a h k = ground arith

instance abbrev pub exact_float : Float Exact
exact_float = record {
  zero_f = num 0;
  inf = infinite;
  add = sum;
  lt = below;
  neg = negate;
  signbit = sign;
  lt_asymm = below_asymm;
  le_trans_f = below_trans;
  le_inf = below_infinite;
  add_mono = sum_mono;
  inf_add = infinite-sum;
  neg_pos = negate_pos;
  signbit_neg_zero = refl;
  neg_zero_f = (refl, refl);
}
