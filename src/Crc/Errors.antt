-- ===== src/Crc/Errors.antt =====
-- Which errors in a message CRC32::compute finds.
use phantom_fpga_final_embed.Base.{
  ℕ, zero, suc, ◌/◌, ◌%◌, ◌^◌, ◌<◌, bit_xor, ◌⊎◌, inl, inr, ◌≢◌, List, [], ◌∷◌, ◌++◌, ◌≡◌, refl,
  sym, ap, ◌∙◌, arith, bit_xor-shift, bit_xor-lt, bit_xor_injective, bit_and-one,
}
use phantom_fpga_final_embed.Crc.{polynomial, shift, shifts, lookup, lookups, compute}
use phantom_fpga_final_embed.Crc.Serial.{IsBytes, lookup-shifts}

shift_even : (a : ℕ) → a % 2 ≡ 0 → shift a ≡ a / 2
unfolding shift
shift_even a h = rw (bit_and-one a, h) refl

shift_odd : (a : ℕ) → a % 2 ≡ 1 → shift a ≡ bit_xor (a / 2) polynomial
unfolding shift
shift_odd a h = rw (bit_and-one a, h) refl

-- The polynomial has the top bit, and half a register has not.
top_bit : (a : ℕ) → a < 2 ^ 31 → bit_xor a polynomial / 2 ^ 31 ≡ 1
top_bit a h =
    let no_top : a / 2 ^ 31 ≡ 0 = omega arith in
    bit_xor-shift 31 a polynomial ∙ ap (λ t. bit_xor t 1) no_top

digit : (a : ℕ) → (a % 2 ≡ 0) ⊎ (a % 2 ≡ 1)
digit a = omega arith

shift-lt : (a : ℕ) → a < 2 ^ 32 → shift a < 2 ^ 32
shift-lt a h = elim (digit a) [
  | inl even ↦ omega (arith, shift_even a even)
  | inr odd ↦
      omega (arith, shift_odd a odd, bit_xor-lt 32 (a / 2) polynomial (omega arith) (omega arith))
]

-- An even register and an odd one part at the top bit.
apart : (a c : ℕ) → a < 2 ^ 32 → c < 2 ^ 32 → a % 2 ≡ 0 → c % 2 ≡ 1 → shift a ≢ shift c
apart a c ha hc even odd e =
    let top = top_bit (c / 2) (omega arith) in
    let same : a / 2 ≡ bit_xor (c / 2) polynomial = sym (shift_even a even) ∙ e ∙ shift_odd c odd in
    omega arith

shift_injective : (a c : ℕ) → a < 2 ^ 32 → c < 2 ^ 32 → shift a ≡ shift c → a ≡ c
shift_injective a c ha hc e = go (digit a) (digit c)
  where
    go : (a % 2 ≡ 0) ⊎ (a % 2 ≡ 1) → (c % 2 ≡ 0) ⊎ (c % 2 ≡ 1) → a ≡ c
    go (inl p) (inl q) = omega (arith, shift_even a p, shift_even c q)
    go (inl p) (inr q) = absurd (apart a c ha hc p q e)
    go (inr p) (inl q) = absurd (apart c a hc ha q p (sym e))
    go (inr p) (inr q) =
        let halves =
          bit_xor_injective (a / 2) (c / 2) polynomial (sym (shift_odd a p) ∙ e ∙ shift_odd c q) in
        omega arith

-- So no number of shifts makes two registers the same.
pub shifts_injective : (n a c : ℕ) → a < 2 ^ 32 → c < 2 ^ 32 → shifts n a ≡ shifts n c → a ≡ c
unfolding shifts
shifts_injective zero a c ha hc e = e
shifts_injective (suc n) a c ha hc e =
    shift_injective a c ha hc
      (shifts_injective n (shift a) (shift c) (shift-lt a ha) (shift-lt c hc) e)

shifts-lt : (n a : ℕ) → a < 2 ^ 32 → shifts n a < 2 ^ 32
unfolding shifts
shifts-lt zero a h = h
shifts-lt (suc n) a h = shifts-lt n (shift a) (shift-lt a h)

lookup-lt : (a b : ℕ) → a < 2 ^ 32 → b < 256 → lookup a b < 2 ^ 32
lookup-lt a b ha hb =
    let inner = bit_xor-lt 32 a b ha (omega arith) in
    omega (arith, lookup-shifts a b hb, shifts-lt 8 (bit_xor a b) inner)

pub lookups-lt : (bs : List ℕ) (a : ℕ) → a < 2 ^ 32 → IsBytes bs → lookups a bs < 2 ^ 32
unfolding lookups
lookups-lt [] a ha h = ha
lookups-lt (b ∷ bs) a ha (h, hs) = lookups-lt bs (lookup a b) (lookup-lt a b ha h) hs

-- The same bytes after two different registers leave different ones.
pub lookups_injective :
    (bs : List ℕ) (a c : ℕ)
    → a < 2 ^ 32
    → c < 2 ^ 32
    → IsBytes bs
    → lookups a bs ≡ lookups c bs
    → a ≡ c
unfolding lookups
lookups_injective [] a c ha hc h e = e
lookups_injective (b ∷ bs) a c ha hc (h, hs) e =
    let same =
      lookups_injective bs (lookup a b) (lookup c b) (lookup-lt a b ha h) (lookup-lt c b hc h) hs
        e in
    let inner =
      shifts_injective 8 (bit_xor a b) (bit_xor c b) (bit_xor-lt 32 a b ha (omega arith))
        (bit_xor-lt 32 c b hc (omega arith))
        (sym (lookup-shifts a b h) ∙ same ∙ lookup-shifts c b h) in
    bit_xor_injective a c b inner

pub lookups-++ : (a : ℕ) (xs ys : List ℕ) → lookups a (xs ++ ys) ≡ lookups (lookups a xs) ys
unfolding lookups
lookups-++ a [] ys = refl
lookups-++ a (x ∷ xs) ys = lookups-++ (lookup a x) xs ys

pub compute-lt : (bs : List ℕ) → IsBytes bs → compute bs < 2 ^ 32
unfolding compute
compute-lt bs h =
    bit_xor-lt 32 (lookups 0xFFFFFFFF bs) 0xFFFFFFFF (lookups-lt bs 0xFFFFFFFF (omega arith) h)
      (omega arith)
