-- ===== src/Tsp/Float.antt =====
-- float64 as internal/tsp uses it: an interface, since the numbers are the machine's.
use mop_backend_api.Base.{◌≡◌, Bool, true, false, not, ◌&&◌, arith, Bool-cases, inl, inr}

-- The values of float64 other than NaN and -Inf, with the laws that IEEE 754 gives them: `<` is a
-- strict weak order (-0 and +0 are equal), +Inf is on top, and rounding keeps `+` monotone.
-- Nothing is assumed of associativity, which floats lack.
pub record Float (F : Type 0) : Type 0 where
  pub zero_f : F
  pub inf : F
  pub add : F → F → F
  pub lt : F → F → Bool
  -- `x * -1`, and the sign bit, which -0 has
  pub neg : F → F
  pub signbit : F → Bool
  pub lt_asymm : (a b : F) → lt a b ≡ true → lt b a ≡ false
  pub le_trans_f : (a b c : F) → lt b a ≡ false → lt c b ≡ false → lt c a ≡ false
  pub le_inf : (a : F) → lt inf a ≡ false
  pub add_mono : (a b c : F) → lt b a ≡ false → lt (add b c) (add a c) ≡ false
  pub inf_add : (c : F) → lt (add inf c) inf ≡ false
  pub neg_pos : (a : F) → lt zero_f a ≡ true → lt a inf ≡ true → lt (neg a) zero_f ≡ true
  pub signbit_neg_zero : signbit (neg zero_f) ≡ true
  pub neg_zero_f : (lt (neg zero_f) zero_f ≡ false) × (lt zero_f (neg zero_f) ≡ false)

module _ {F : Type 0} ⦃o : Float F⦄ where
  infix 50 ◌<f◌
  infixl 65 ◌+f◌
  abbrev pub ◌<f◌ : F → F → Bool
  a <f b = o.lt a b

  abbrev pub ◌+f◌ : F → F → F
  a +f b = o.add a b

  -- `a == b` on values that are not NaN
  abbrev pub eq_f : F → F → Bool
  eq_f a b = not (a <f b) && not (b <f a)

  -- `a <= b`
  abbrev pub Le : F → F → Type 0
  Le a b = (b <f a) ≡ false

  pub Le_refl : (a : F) → Le a a
  Le_refl a = ground (arith, o.lt_asymm a a)

  pub lt_of_le : (a b : F) {c : F} → Le a b → (b <f c) ≡ true → (a <f c) ≡ true
  lt_of_le a b {c} h k = elim (Bool-cases (a <f c)) [
    | inl below ↦ below
    | inr above ↦ ground (arith, o.le_trans_f c a b above h)
  ]

  pub lt_trans_f : (a b c : F) → (a <f b) ≡ true → (b <f c) ≡ true → (a <f c) ≡ true
  lt_trans_f a b c h k = lt_of_le a b (o.lt_asymm a b h) k
