-- ===== src/Base/Bits.antt =====
-- Masks as arithmetic, at every width: `a & (2 ^ k - 1)` is a remainder, and the test
-- `n & (n - 1)` is passed by the powers of two alone.
use Prim.Native.Nat.{
  ℕ, zero, suc, ◌+◌, ◌-◌, ◌*◌, ◌/◌, ◌%◌, ◌^◌, ◌≤◌, ◌<◌, min, max, bit_and, bit_or, digits,
  bit_and-bitwise, bit_or-bitwise,
}
use mathlib.Core.Path.{◌≡◌, refl, sym, ap, ◌∙◌}
use mathlib.Core.Logic.{◌⊎◌, inl, inr}
use mathlib.Core.WellFounded.{Acc, WellFounded, induction}
use native.Mathlib.Nat.{pow-suc, one-le-pow}
use native.Mathlib.Decide.{dec_le}
use native.Mathlib.Omega.{arith}

Acc-below : (k n : ℕ) → n < k → Acc ◌<◌ n
Acc-below zero n h = elim h [ ]
Acc-below (suc k) n h = Acc.intro n (λ m hm. Acc-below k m (omega arith))

unfoldable pub lt_wf : WellFounded ◌<◌
unfolding Acc-below
lt_wf = record { apply = λ n. Acc-below (suc n) n (omega arith) }

-- Induction from `a / 2` to `a`.
pub halving {ℓ} : (P : ℕ → Type ℓ) → P 0 → ((a : ℕ) → 0 < a → P (a / 2) → P a) → (a : ℕ) → P a
halving P base up a = induction lt_wf {C = P} a go
  where
    go : (n : ℕ) → ((m : ℕ) → m < n → P m) → P n
    go zero ih = base
    go (suc n) ih = up (suc n) (omega arith) (ih (suc n / 2) (omega arith))

-- The digit recursion that the native operations stand for: any fuel from the number on will do.
module _ (z : ℕ → ℕ) (f : ℕ → ℕ → ℕ) where
  of_zero : (m b : ℕ) → digits z f m 0 b ≡ z b
  of_zero zero b = refl
  of_zero (suc m) b = refl

  -- Two amounts of fuel that are enough.
  abbrev FuelFree : ℕ → Type 0
  FuelFree a = (b m n : ℕ) → a ≤ m → a ≤ n → digits z f m a b ≡ digits z f n a b

  one_digit : (a : ℕ) → 0 < a → FuelFree (a / 2) → FuelFree a
  one_digit zero h half b m n p q = absurd (omega arith)
  one_digit (suc a) h half b zero n p q = absurd (omega arith)
  one_digit (suc a) h half b (suc m) zero p q = absurd (omega arith)
  one_digit (suc a) h half b (suc m) (suc n) p q =
      ap (λ (rest : ℕ). rest * 2 + f (suc a % 2) (b % 2))
        (half (b / 2) m n (omega arith) (omega arith))

  fuel_free : (a : ℕ) → FuelFree a
  fuel_free = halving FuelFree (λ b m n p q. of_zero m b ∙ sym (of_zero n b)) one_digit

  -- The lowest digit, where it is right at 0.
  pub digits_step :
      ((b : ℕ) → z b ≡ z (b / 2) * 2 + f 0 (b % 2))
      → (a b : ℕ) → digits z f a a b ≡ digits z f (a / 2) (a / 2) (b / 2) * 2 + f (a % 2) (b % 2)
  digits_step base zero b = base b
  digits_step base (suc a) b =
      ap (λ (rest : ℕ). rest * 2 + f (suc a % 2) (b % 2))
        (fuel_free (suc a / 2) (b / 2) a (suc a / 2) (omega arith) (omega arith))

pub bit_and_step : (a b : ℕ) → bit_and a b ≡ bit_and (a / 2) (b / 2) * 2 + min (a % 2) (b % 2)
bit_and_step a b = simp bit_and-bitwise (digits_step (λ _. 0) min (λ _. omega arith) a b)

pub bit_or_step : (a b : ℕ) → bit_or a b ≡ bit_or (a / 2) (b / 2) * 2 + max (a % 2) (b % 2)
bit_or_step a b = simp bit_or-bitwise (digits_step (λ y. y) max (λ _. omega arith) a b)

pub bit_and-zero : (a : ℕ) → bit_and a 0 ≡ 0
bit_and-zero = halving (λ a. bit_and a 0 ≡ 0) refl (λ a h ih. omega (arith, bit_and_step a 0))

pub zero-bit_and : (b : ℕ) → bit_and 0 b ≡ 0
zero-bit_and b = simp bit_and-bitwise

pub bit_and_self : (a : ℕ) → bit_and a a ≡ a
bit_and_self = halving (λ a. bit_and a a ≡ a) refl (λ a h ih. omega (arith, bit_and_step a a))

pub bit_or-zero : (a : ℕ) → bit_or a 0 ≡ a
bit_or-zero = halving (λ a. bit_or a 0 ≡ a) refl (λ a h ih. omega (arith, bit_or_step a 0))

pub bit_and-one : (a : ℕ) → bit_and a 1 ≡ a % 2
bit_and-one a = omega (arith, bit_and_step a 1, bit_and-zero (a / 2))

-- Clearing bit 0 leaves it clear, whatever the rest of the mask.
pub bit_and_even : (a m : ℕ) → bit_and (bit_and a (2 * m)) 1 ≡ 0
bit_and_even a m = omega (arith, bit_and-one (bit_and a (2 * m)), bit_and_step a (2 * m))

pub bit_and-le : (a b : ℕ) → bit_and a b ≤ a
bit_and-le a b = go a b
  where
    go : (a b : ℕ) → bit_and a b ≤ a
    go =
        halving (λ a. (b : ℕ) → bit_and a b ≤ a) (λ b. omega (arith, zero-bit_and b))
          (λ a h ih b. omega (arith, bit_and_step a b, ih (b / 2)))

-- `a & (2 ^ k - 1)` is the remainder of `a` by `2 ^ k`.
mask_fields : (k q r : ℕ) → r < 2 ^ k → bit_and (q * 2 ^ k + r) (2 ^ k - 1) ≡ r
mask_fields zero q r h = rw bit_and-zero (omega arith)
mask_fields (suc k) q r h = ground (
  arith,
  bit_and_step (q * 2 ^ suc k + r) (2 ^ suc k - 1),
  pow-suc 2 k,
  one-le-pow k 2,
  ap (λ (t : ℕ). q * t) (pow-suc 2 k),
  mask_fields k q (r / 2) (omega (arith, pow-suc 2 k)),
)

pub bit_and_mask : (k a : ℕ) → bit_and a (2 ^ k - 1) ≡ a % 2 ^ k
bit_and_mask k a = ground (arith, one-le-pow k 2, mask_fields k (a / 2 ^ k) (a % 2 ^ k))

-- `(q << k) | r` is a sum when `r` fits `k` bits.
pub bit_or_fields : (k q r : ℕ) → r < 2 ^ k → bit_or (q * 2 ^ k) r ≡ q * 2 ^ k + r
bit_or_fields zero q r h = ground (arith, bit_or-zero q)
bit_or_fields (suc k) q r h = ground (
  arith,
  bit_or_step (q * 2 ^ suc k) r,
  pow-suc 2 k,
  ap (λ (t : ℕ). q * t) (pow-suc 2 k),
  bit_or_fields k q (r / 2) (omega (arith, pow-suc 2 k)),
)

-- One step of the power-of-two test: an even number passes on its half, an odd one is 1.
pow_step :
    (n : ℕ)
    → 0 < n
    → (0 < n / 2 → bit_and (n / 2) (n / 2 - 1) ≡ 0 → (k : ℕ) × (n / 2 ≡ 2 ^ k))
    → bit_and n (n - 1) ≡ 0
    → (n % 2 ≡ 0) ⊎ (n % 2 ≡ 1)
    → (k : ℕ) × (n ≡ 2 ^ k)
pow_step n p ih e (inl even) =
    let half : (n - 1) / 2 ≡ n / 2 - 1 = omega arith in
    let (k, q) =
      ih (omega arith) (omega (arith, bit_and_step n (n - 1), ap (bit_and (n / 2)) half)) in
    (suc k, omega (arith, pow-suc 2 k))
pow_step n p ih e (inr odd) =
    let half : (n - 1) / 2 ≡ n / 2 = omega arith in
    (0, omega (arith, bit_and_step n (n - 1), ap (bit_and (n / 2)) half, bit_and_self (n / 2)))

-- `n & (n - 1) == 0` holds of the powers of two alone, at every width.
pub pow_of_mask : (n : ℕ) → 0 < n → bit_and n (n - 1) ≡ 0 → (k : ℕ) × (n ≡ 2 ^ k)
pow_of_mask =
    halving (λ n. 0 < n → bit_and n (n - 1) ≡ 0 → (k : ℕ) × (n ≡ 2 ^ k))
      (λ h e. absurd (omega arith)) λ n p ih q e. pow_step n p ih e (omega arith)

-- A smaller power of two divides a larger one.
pub two-pow_split : (k j : ℕ) → k ≤ j → (c : ℕ) × (2 ^ j ≡ 2 ^ k * c)
two-pow_split k zero h = (1, omega (arith, ap (λ (t : ℕ). 2 ^ t) k_zero))
  where
    k_zero : k ≡ 0
    k_zero = omega arith
two-pow_split k (suc j) h = elim (dec_le k j) [
  | yes le ↦ let (c, e) = two-pow_split k j le in (c * 2, omega (arith, pow-suc 2 j))
  | no gt ↦ let same : k ≡ suc j = omega arith in (1, omega (arith, ap (λ (t : ℕ). 2 ^ t) same))
]
