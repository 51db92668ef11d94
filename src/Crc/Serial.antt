-- ===== src/Crc/Serial.antt =====
-- CRC32::compute against the definition of CRC-32 by a shift register that takes one bit at a time.
use native.Mathlib.Nat.{pow-suc}
use phantom_fpga_final_embed.Base.{
  ℕ, zero, suc, ◌+◌, ◌*◌, ◌/◌, ◌%◌, ◌^◌, ◌<◌, bit_and, bit_xor, List, [], ◌∷◌, ◌++◌, ◌==◌, ◌≡◌,
  refl, sym, ap, ◌∙◌, if◌then◌else◌, Bool, true, false, arith, tabulate, get_or, get_or-tabulate,
  bit_xor-odd, bit_xor-half, bit_xor_comm, bit_xor-zero, bit_and_mask, bit_xor_swap, bit_and-one,
  shift_suc, bit_xor-shift, bit_xor_fields,
}
use phantom_fpga_final_embed.Crc.{
  polynomial, shift, shifts, build_crc32_table, lookup, lookups, compute,
}

-- The register after one more bit of the message.
unfoldable pub feed_bit : ℕ → ℕ → ℕ
feed_bit crc bit = if (crc + bit) % 2 == 1 then bit_xor (crc / 2) polynomial else crc / 2

unfoldable pub feed : ℕ → List ℕ → ℕ
feed crc [] = crc
feed crc (bit ∷ bits) = feed (feed_bit crc bit) bits

-- The lowest n bits of a number, the lowest first.
unfoldable pub low_bits : ℕ → ℕ → List ℕ
low_bits zero b = []
low_bits (suc n) b = b % 2 ∷ low_bits n (b / 2)

-- A message as the bits that go over the line: bytes in order, the lowest bit first.
unfoldable pub wire_bits : List ℕ → List ℕ
wire_bits [] = []
wire_bits (b ∷ bs) = low_bits 8 b ++ wire_bits bs

-- The register starts with all bits set, and the result is inverted.
unfoldable pub serial_crc : List ℕ → ℕ
serial_crc bytes = bit_xor (feed 0xFFFFFFFF (wire_bits bytes)) 0xFFFFFFFF

-- All bytes are below 256.
abbrev pub IsBytes : List ℕ → Type 0
IsBytes [] = Unit
IsBytes (b ∷ bs) = (b < 256) × IsBytes bs

pub feed-++ : (crc : ℕ) (xs ys : List ℕ) → feed crc (xs ++ ys) ≡ feed (feed crc xs) ys
unfolding feed
feed-++ crc [] ys = refl
feed-++ crc (x ∷ xs) ys = feed-++ (feed_bit crc x) xs ys

-- The polynomial under a test, and another term, in either order.
tested_poly :
    (t : Bool) (a b : ℕ)
    → (if t then bit_xor (bit_xor a b) polynomial else bit_xor a b)
      ≡ bit_xor (if t then bit_xor a polynomial else a) b
tested_poly true a b = bit_xor_swap a b polynomial
tested_poly false a b = refl

-- A shift of the register with the rest of the byte in it is one with the rest put in after.
shift-bit_xor : (crc b : ℕ) → shift (bit_xor crc b) ≡ bit_xor (feed_bit crc b) (b / 2)
unfolding shift feed_bit
shift-bit_xor crc b =
    let bit : bit_and (bit_xor crc b) 1 ≡ (crc + b) % 2 =
      bit_and-one (bit_xor crc b) ∙ bit_xor-odd crc b in
    rw (bit, bit_xor-half crc b) (tested_poly ((crc + b) % 2 == 1) (crc / 2) (b / 2))

-- Only the lowest bit of the byte matters for one shift.
feed_bit-odd : (crc b : ℕ) → feed_bit crc b ≡ feed_bit crc (b % 2)
unfolding feed_bit
feed_bit-odd crc b = let same : (crc + b) % 2 ≡ (crc + b % 2) % 2 = omega arith in rw same refl

pub shifts-bit_xor :
    (n crc b : ℕ) → shifts n (bit_xor crc b) ≡ bit_xor (feed crc (low_bits n b)) (b / 2 ^ n)
unfolding shifts feed low_bits
shifts-bit_xor zero crc b = ap (bit_xor crc) (omega arith)
shifts-bit_xor (suc n) crc b =
    ap (shifts n) (shift-bit_xor crc b)
    ∙ shifts-bit_xor n (feed_bit crc b) (b / 2)
    ∙ ap (λ t. bit_xor (feed t (low_bits n (b / 2))) (b / 2 / 2 ^ n)) (feed_bit-odd crc b)
    ∙ ap (bit_xor (feed (feed_bit crc (b % 2)) (low_bits n (b / 2)))) (sym (shift_suc b n))

-- Eight rounds on the register with a byte in it are the eight bits of the byte.
pub shifts-byte : (crc b : ℕ) → b < 256 → shifts 8 (bit_xor crc b) ≡ feed crc (low_bits 8 b)
shifts-byte crc b h =
    let none_left : b / 2 ^ 8 ≡ 0 = omega arith in
    shifts-bit_xor 8 crc b ∙ ap (bit_xor (feed crc (low_bits 8 b))) none_left ∙ bit_xor-zero _

-- An even number leaves the test of the register as it is.
feed_bit-even : (crc b : ℕ) → b % 2 ≡ 0 → feed_bit crc b ≡ shift crc
unfolding feed_bit shift
feed_bit-even crc b h =
    let same : (crc + b) % 2 ≡ bit_and crc 1 = omega (arith, bit_and-one crc) in rw same refl

-- Higher bytes of the register only move down.
shifts-fields : (n q r : ℕ) → shifts n (bit_xor r (q * 2 ^ n)) ≡ bit_xor (shifts n r) q
unfolding shifts
shifts-fields zero q r = ap (bit_xor r) (omega arith)
shifts-fields (suc n) q r =
    let twice : q * 2 ^ suc n ≡ q * 2 ^ n * 2 =
      omega (arith, pow-suc 2 n, ap (λ (t : ℕ). q * t) (pow-suc 2 n)) in
    let half : q * 2 ^ suc n / 2 ≡ q * 2 ^ n = omega arith in
    let even : q * 2 ^ suc n % 2 ≡ 0 = omega arith in
    ap (shifts n) (
      shift-bit_xor r (q * 2 ^ suc n)
      ∙ ap (λ t. bit_xor (feed_bit r (q * 2 ^ suc n)) t) half
      ∙ ap (λ t. bit_xor t (q * 2 ^ n)) (feed_bit-even r (q * 2 ^ suc n) even))
    ∙ shifts-fields n q (shift r)

-- A look-up in the table stands for eight shifts.
pub lookup-shifts : (crc b : ℕ) → b < 256 → lookup crc b ≡ shifts 8 (bit_xor crc b)
unfolding lookup build_crc32_table
lookup-shifts crc b h =
    let x = bit_xor crc b in
    let index : bit_and x 0xFF ≡ x % 256 = bit_and_mask 8 x in
    let entry : get_or (tabulate 256 0 (shifts 8)) (x % 256) 0 ≡ shifts 8 (x % 256) =
      get_or-tabulate 256 0 (x % 256) (shifts 8) 0 (omega arith) ∙ ap (shifts 8) (omega arith) in
    let gone : b / 2 ^ 8 ≡ 0 = omega arith in
    let moved : x / 256 ≡ crc / 256 =
      bit_xor-shift 8 crc b ∙ ap (bit_xor (crc / 2 ^ 8)) gone ∙ bit_xor-zero (crc / 256) in
    let whole : bit_xor (x % 256) (x / 256 * 2 ^ 8) ≡ x =
      bit_xor_fields 8 (x / 256) (x % 256) (omega arith) ∙ omega arith in
    rw (index, entry, ← moved)
      (bit_xor_comm (x / 256) (shifts 8 (x % 256))
        ∙ sym (shifts-fields 8 (x / 256) (x % 256))
        ∙ ap (shifts 8) whole)

pub lookups-feed :
    (bytes : List ℕ) (crc : ℕ) → IsBytes bytes → lookups crc bytes ≡ feed crc (wire_bits bytes)
unfolding lookups feed wire_bits
lookups-feed [] crc h = refl
lookups-feed (b ∷ bs) crc (h, hs) =
    lookups-feed bs (lookup crc b) hs
    ∙ ap (λ t. feed t (wire_bits bs)) (lookup-shifts crc b h ∙ shifts-byte crc b h)
    ∙ sym (feed-++ crc (low_bits 8 b) (wire_bits bs))

-- The table-driven CRC of any message of bytes is the one that a shift register computes from its
-- bits, one at a time, the lowest bit of each byte first.
pub compute_is_serial : (bytes : List ℕ) → IsBytes bytes → compute bytes ≡ serial_crc bytes
unfolding compute serial_crc
compute_is_serial bytes h = ap (λ t. bit_xor t 0xFFFFFFFF) (lookups-feed bytes 0xFFFFFFFF h)
