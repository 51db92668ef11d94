-- ===== src/Base/Xor.antt =====
-- Exclusive or on binary digits of any number: `a ^ b` in the C code.
use Prim.Native.Nat.{ℕ, zero, suc, ◌+◌, ◌*◌, ◌/◌, ◌%◌, ◌^◌, ◌<◌, differ, bit_xor, bit_xor-bitwise}
use mathlib.Core.Path.{◌≡◌, refl, sym, ap, ◌∙◌}
use native.Mathlib.Omega.{arith}
use native.Mathlib.Nat.{pow-suc, div-div-eq-div-mul}
use phantom_fpga_final_embed.Base.Bits.{halving, digits_step}

-- On two digits, exclusive or is the sum without its carry.
differ_digits : (a b : ℕ) → a < 2 → b < 2 → differ a b ≡ (a + b) % 2
differ_digits zero b p q = omega arith
differ_digits (suc zero) zero p q = refl
differ_digits (suc zero) (suc zero) p q = refl
differ_digits (suc zero) (suc (suc b)) p q = absurd (omega arith)
differ_digits (suc (suc a)) b p q = absurd (omega arith)

pub shift_suc : (c k : ℕ) → c / 2 ^ suc k ≡ c / 2 / 2 ^ k
shift_suc c k =
    let e : 2 ^ suc k ≡ 2 * 2 ^ k = omega (arith, pow-suc 2 k) in
    ap (λ t. c / t) e ∙ sym (div-div-eq-div-mul c 2 (2 ^ k))

pub bit_xor_step : (a b : ℕ) → bit_xor a b ≡ bit_xor (a / 2) (b / 2) * 2 + (a + b) % 2
bit_xor_step a b =
    let lowest : differ (a % 2) (b % 2) ≡ (a + b) % 2 =
      differ_digits (a % 2) (b % 2) (omega arith) (omega arith) ∙ omega arith in
    omega (arith, steps, lowest)
  where
    steps : bit_xor a b ≡ bit_xor (a / 2) (b / 2) * 2 + differ (a % 2) (b % 2)
    steps = simp bit_xor-bitwise (digits_step (λ y. y) differ (λ y. omega arith) a b)

pub bit_xor-zero : (a : ℕ) → bit_xor a 0 ≡ a
bit_xor-zero = halving (λ a. bit_xor a 0 ≡ a) refl (λ a h ih. omega (arith, bit_xor_step a 0))

pub zero-bit_xor : (b : ℕ) → bit_xor 0 b ≡ b
zero-bit_xor b = simp bit_xor-bitwise

pub bit_xor_self : (a : ℕ) → bit_xor a a ≡ 0
bit_xor_self = halving (λ a. bit_xor a a ≡ 0) refl (λ a h ih. omega (arith, bit_xor_step a a))

pub bit_xor_comm : (a b : ℕ) → bit_xor a b ≡ bit_xor b a
bit_xor_comm =
    halving (λ a. (b : ℕ) → bit_xor a b ≡ bit_xor b a) (λ b. zero-bit_xor b ∙ sym (bit_xor-zero b))
      (λ a h ih b. omega (arith, bit_xor_step a b, bit_xor_step b a, ih (b / 2)))

-- The two parts of an exclusive or.
pub bit_xor-half : (a b : ℕ) → bit_xor a b / 2 ≡ bit_xor (a / 2) (b / 2)
bit_xor-half a b = omega (arith, bit_xor_step a b)

pub bit_xor-odd : (a b : ℕ) → bit_xor a b % 2 ≡ (a + b) % 2
bit_xor-odd a b = omega (arith, bit_xor_step a b)

pub bit_xor_assoc : (a b c : ℕ) → bit_xor (bit_xor a b) c ≡ bit_xor a (bit_xor b c)
bit_xor_assoc =
    halving (λ a. (b c : ℕ) → bit_xor (bit_xor a b) c ≡ bit_xor a (bit_xor b c))
      (λ b c. ap (λ t. bit_xor t c) (zero-bit_xor b) ∙ sym (zero-bit_xor (bit_xor b c))) step
  where
    step :
        (a : ℕ)
        → 0 < a
        → ((b c : ℕ) → bit_xor (bit_xor (a / 2) b) c ≡ bit_xor (a / 2) (bit_xor b c))
        → (b c : ℕ) → bit_xor (bit_xor a b) c ≡ bit_xor a (bit_xor b c)
    step a h ih b c =
        let left : bit_xor (bit_xor a b / 2) (c / 2) ≡ bit_xor (bit_xor (a / 2) (b / 2)) (c / 2) =
          ap (λ t. bit_xor t (c / 2)) (bit_xor-half a b) in
        let right : bit_xor (a / 2) (bit_xor b c / 2) ≡ bit_xor (a / 2) (bit_xor (b / 2) (c / 2)) =
          ap (bit_xor (a / 2)) (bit_xor-half b c) in
        omega (
          arith,
          bit_xor_step (bit_xor a b) c,
          bit_xor_step a (bit_xor b c),
          bit_xor-odd a b,
          bit_xor-odd b c,
          left,
          right,
          ih (b / 2) (c / 2),
        )

pub bit_xor_swap : (a b c : ℕ) → bit_xor (bit_xor a b) c ≡ bit_xor (bit_xor a c) b
bit_xor_swap a b c =
    bit_xor_assoc a b c ∙ ap (bit_xor a) (bit_xor_comm b c) ∙ sym (bit_xor_assoc a c b)

-- The same number twice cancels.
pub bit_xor_cancel : (a b : ℕ) → bit_xor (bit_xor a b) b ≡ a
bit_xor_cancel a b = bit_xor_assoc a b b ∙ ap (bit_xor a) (bit_xor_self b) ∙ bit_xor-zero a

pub bit_xor_injective : (a b c : ℕ) → bit_xor a c ≡ bit_xor b c → a ≡ b
bit_xor_injective a b c e = sym (bit_xor_cancel a c) ∙ ap (λ t. bit_xor t c) e ∙ bit_xor_cancel b c

pub bit_xor-shift : (k a b : ℕ) → bit_xor a b / 2 ^ k ≡ bit_xor (a / 2 ^ k) (b / 2 ^ k)
bit_xor-shift zero a b =
    let one : (c : ℕ) → c / 2 ^ 0 ≡ c = (λ c. omega arith) in
    one (bit_xor a b) ∙ sym (ap (λ t. bit_xor t (b / 2 ^ 0)) (one a) ∙ ap (bit_xor a) (one b))
bit_xor-shift (suc k) a b =
    higher (bit_xor a b)
    ∙ ap (λ t. t / 2 ^ k) (bit_xor-half a b)
    ∙ bit_xor-shift k (a / 2) (b / 2)
    ∙ sym (ap (λ t. bit_xor t (b / 2 ^ suc k)) (higher a) ∙ ap (bit_xor (a / 2 / 2 ^ k)) (higher b))
  where
    higher : (c : ℕ) → c / 2 ^ suc k ≡ c / 2 / 2 ^ k
    higher c = shift_suc c k

-- Digits that do not overlap add up.
pub bit_xor_fields : (k q r : ℕ) → r < 2 ^ k → bit_xor r (q * 2 ^ k) ≡ q * 2 ^ k + r
bit_xor_fields zero q r h =
    let e : r ≡ 0 = omega arith in
    ap (λ t. bit_xor t (q * 2 ^ 0)) e ∙ zero-bit_xor (q * 2 ^ 0) ∙ omega arith
bit_xor_fields (suc k) q r h =
    let twice : q * 2 ^ suc k ≡ q * 2 ^ k * 2 =
      omega (arith, pow-suc 2 k, ap (λ (t : ℕ). q * t) (pow-suc 2 k)) in
    let half : q * 2 ^ suc k / 2 ≡ q * 2 ^ k = omega arith in
    omega (
      arith,
      bit_xor_step r (q * 2 ^ suc k),
      ap (bit_xor (r / 2)) half,
      bit_xor_fields k q (r / 2) (omega (arith, pow-suc 2 k)),
    )

-- No wider than its operands.
pub bit_xor-lt : (k a b : ℕ) → a < 2 ^ k → b < 2 ^ k → bit_xor a b < 2 ^ k
bit_xor-lt zero a b p q =
    let e : a ≡ 0 = omega arith in omega (arith, ap (λ t. bit_xor t b) e, zero-bit_xor b)
bit_xor-lt (suc k) a b p q = omega (
  arith,
  pow-suc 2 k,
  bit_xor_step a b,
  bit_xor-lt k (a / 2) (b / 2) (omega (arith, pow-suc 2 k)) (omega (arith, pow-suc 2 k)),
)
