-- ===== src/Base/Bits.antt =====
-- Sets of small numbers as the bits of a machine word.
use Prim.Native.Nat.{ℕ, zero, suc, ◌+◌, ◌-◌, ◌*◌, ◌/◌, ◌%◌, ◌≤◌, ◌<◌}
use mathlib.Core.Path.{◌≡◌, refl}
use mathlib.Core.Logic.{◌≢◌}
use mathlib.Core.Bool.{Bool, true, false}
use native.Mathlib.Omega.{arith}
use mop_backend_api.Base.Tests.{◌==◌, if◌then◌else◌}

-- `1 << i`
unfoldable pub one_shl : ℕ → ℕ
one_shl zero = 1
one_shl (suc i) = 2 * one_shl i

-- `mask & (1 << i) != 0`
unfoldable pub bit : ℕ → ℕ → Bool
bit mask zero = mask % 2 == 1
bit mask (suc i) = bit (mask / 2) i

-- `mask ^ (1 << i)`
unfoldable pub flip : ℕ → ℕ → ℕ
flip mask i = if bit mask i then mask - one_shl i else mask + one_shl i

pub one_shl_pos : (i : ℕ) → 0 < one_shl i
unfolding one_shl
one_shl_pos zero = omega arith
one_shl_pos (suc i) = omega (arith, one_shl_pos i)

pub bit-le : (mask i : ℕ) → bit mask i ≡ true → one_shl i ≤ mask
unfolding one_shl bit
bit-le mask zero h = ground arith
bit-le mask (suc i) h = omega (arith, bit-le (mask / 2) i h)

pub bit-add_self : (mask i : ℕ) → bit mask i ≡ false → bit (one_shl i + mask) i ≡ true
unfolding one_shl bit
bit-add_self mask zero h = ground arith
bit-add_self mask (suc i) h =
    let e : (2 * one_shl i + mask) / 2 ≡ one_shl i + mask / 2 = omega arith in
    ground (arith, bit-add_self (mask / 2) i h, e)

pub bit-add_other :
    (mask i j : ℕ) → bit mask i ≡ false → j ≢ i → bit (one_shl i + mask) j ≡ bit mask j
unfolding one_shl bit
bit-add_other mask zero zero h ne = absurd (ne refl)
bit-add_other mask zero (suc j) h ne =
    let e : (1 + mask) / 2 ≡ mask / 2 = ground arith in ground (arith, e)
bit-add_other mask (suc i) zero h ne =
    let e : (2 * one_shl i + mask) % 2 ≡ mask % 2 = omega arith in ground (arith, e)
bit-add_other mask (suc i) (suc j) h ne =
    let e : (2 * one_shl i + mask) / 2 ≡ one_shl i + mask / 2 = omega arith in
    ground (arith, bit-add_other (mask / 2) i j h (omega arith), e)

pub bit-sub_self : (mask i : ℕ) → bit mask i ≡ true → bit (mask - one_shl i) i ≡ false
unfolding one_shl bit
bit-sub_self mask zero h = ground arith
bit-sub_self mask (suc i) h =
    let e : (mask - 2 * one_shl i) / 2 ≡ mask / 2 - one_shl i = omega arith in
    ground (arith, bit-sub_self (mask / 2) i h, e)

pub flip-add : (mask i : ℕ) → bit mask i ≡ false → flip (one_shl i + mask) i ≡ mask
unfolding flip
flip-add mask i h = ground (arith, bit-add_self mask i h)

pub flip-sub : (mask i : ℕ) → bit mask i ≡ true → one_shl i + flip mask i ≡ mask
unfolding flip
flip-sub mask i h = ground (arith, bit-le mask i h)

pub bit-flip : (mask i : ℕ) → bit mask i ≡ true → bit (flip mask i) i ≡ false
unfolding flip
bit-flip mask i h = ground (arith, bit-sub_self mask i h)

pub flip-lt : (mask i : ℕ) → bit mask i ≡ true → flip mask i < mask
flip-lt mask i h = omega (arith, flip-sub mask i h, one_shl_pos i)

pub bit-zero : (i : ℕ) → bit 0 i ≡ false
unfolding bit
bit-zero zero = refl
bit-zero (suc i) = bit-zero i

-- how many of the bits below `n` are set
pub count_bits : ℕ → ℕ → ℕ
count_bits zero mask = 0
count_bits (suc n) mask = mask % 2 + count_bits n (mask / 2)

pub count_bits-le : (n mask : ℕ) → count_bits n mask ≤ n
unfolding count_bits
count_bits-le zero mask = omega arith
count_bits-le (suc n) mask = omega (arith, count_bits-le n (mask / 2))

pub count_bits-zero : (n : ℕ) → count_bits n 0 ≡ 0
unfolding count_bits
count_bits-zero zero = refl
count_bits-zero (suc n) = omega (arith, count_bits-zero n)

pub count_bits-add :
    (n mask i : ℕ)
    → i < n
    → bit mask i ≡ false
    → count_bits n (one_shl i + mask) ≡ suc (count_bits n mask)
unfolding count_bits one_shl bit
count_bits-add zero mask i lt h = absurd (omega arith)
count_bits-add (suc n) mask zero lt h =
    let e : (1 + mask) / 2 ≡ mask / 2 = ground arith in ground (arith, e)
count_bits-add (suc n) mask (suc i) lt h =
    let e : (2 * one_shl i + mask) / 2 ≡ one_shl i + mask / 2 = omega arith in
    ground (arith, e, count_bits-add n (mask / 2) i (omega arith) h)

-- a word of `n` bits with `n` bits set is full
pub full_of_count : (n mask : ℕ) → mask < one_shl n → count_bits n mask ≡ n → mask ≡ one_shl n - 1
unfolding count_bits one_shl
full_of_count zero mask lt h = omega arith
full_of_count (suc n) mask lt h =
    let e = full_of_count n (mask / 2) (omega arith) (omega (arith, count_bits-le n (mask / 2))) in
    omega (arith, one_shl_pos n, count_bits-le n (mask / 2))

pub count_bits-full : (n : ℕ) → count_bits n (one_shl n - 1) ≡ n
unfolding count_bits one_shl
count_bits-full zero = refl
count_bits-full (suc n) =
    let e : (2 * one_shl n - 1) / 2 ≡ one_shl n - 1 = omega (arith, one_shl_pos n) in
    rw e (omega (arith, count_bits-full n, one_shl_pos n))

-- adding an unset bit below `n` to a word of `n` bits keeps it one
pub add-lt :
    (n mask i : ℕ) → i < n → bit mask i ≡ false → mask < one_shl n → one_shl i + mask < one_shl n
unfolding one_shl bit
add-lt zero mask i lt h m = absurd (omega arith)
add-lt (suc n) mask zero lt h m = ground arith
add-lt (suc n) mask (suc i) lt h m =
    omega (arith, add-lt n (mask / 2) i (omega arith) h (omega arith))
