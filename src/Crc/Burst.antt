-- ===== src/Crc/Burst.antt =====
-- An error that stays within four bytes in a row.
use native.Mathlib.Nat.{pow-suc, pow-le-pow_right, div-eq_of_lt}
use phantom_fpga_final_embed.Base.{
  ℕ, zero, suc, ◌+◌, ◌*◌, ◌/◌, ◌%◌, ◌^◌, ◌<◌, ◌≤◌, bit_xor, List, [], ◌∷◌, ◌++◌, ◌≡◌, ◌≢◌, refl,
  sym, ap, ◌∙◌, arith, length, bit_xor-lt, bit_xor_comm, bit_xor_injective, bit_xor-zero, shift_suc,
}
use phantom_fpga_final_embed.Crc.{shifts, lookups, compute}
use phantom_fpga_final_embed.Crc.Serial.{
  feed, low_bits, wire_bits, IsBytes, lookups-feed, shifts-bit_xor,
}
use phantom_fpga_final_embed.Crc.Errors.{
  shifts_injective, lookups_injective, lookups-++, lookups-lt,
}

-- Bytes as a number, the first byte the lowest.
value : List ℕ → ℕ
value [] = 0
value (b ∷ bs) = value bs * 2 ^ 8 + b

low_bits-+ : (m n c : ℕ) → low_bits (m + n) c ≡ low_bits m c ++ low_bits n (c / 2 ^ m)
unfolding low_bits
low_bits-+ zero n c =
    let no_more : 0 + n ≡ n = omega arith in
    let whole : c / 2 ^ 0 ≡ c = omega arith in rw (no_more, whole) refl
low_bits-+ (suc m) n c =
    let more : suc m + n ≡ suc (m + n) = omega arith in
    rw (more, shift_suc c m) (ap (λ t. c % 2 ∷ t) (low_bits-+ m n (c / 2)))

low_bits-mod : (m v b : ℕ) → low_bits m (v * 2 ^ m + b) ≡ low_bits m b
unfolding low_bits
low_bits-mod zero v b = refl
low_bits-mod (suc m) v b =
    let twice : v * 2 ^ suc m ≡ v * 2 ^ m * 2 =
      omega (arith, pow-suc 2 m, ap (λ (t : ℕ). v * t) (pow-suc 2 m)) in
    let half : (v * 2 ^ suc m + b) / 2 ≡ v * 2 ^ m + b / 2 = omega arith in
    let same : (v * 2 ^ suc m + b) % 2 ≡ b % 2 = omega arith in
    rw (half, same) (ap (λ t. b % 2 ∷ t) (low_bits-mod m v (b / 2)))

empty_bits : (c : ℕ) → [] ≡ low_bits 0 c
unfolding low_bits
empty_bits c = refl

wire_bits-value : (ws : List ℕ) → IsBytes ws → wire_bits ws ≡ low_bits (8 * length ws) (value ws)
unfolding wire_bits value
wire_bits-value [] h = empty_bits 0
wire_bits-value (b ∷ bs) (h, hs) =
    let more : 8 * length (b ∷ bs) ≡ 8 + 8 * length bs = omega arith in
    let up : value (b ∷ bs) / 2 ^ 8 ≡ value bs = omega arith in
    rw (more, low_bits-+ 8 (8 * length bs) (value (b ∷ bs)), up, low_bits-mod 8 (value bs) b)
      (ap (λ t. low_bits 8 b ++ t) (wire_bits-value bs hs))

eight_more : (n : ℕ) → 2 ^ (8 * suc n) ≡ 2 ^ (8 * n) * 256
eight_more n =
    let more : 8 * suc n ≡ suc (suc (suc (suc (suc (suc (suc (suc (8 * n)))))))) = omega arith in
    rw (more, pow-suc, pow-suc, pow-suc, pow-suc, pow-suc, pow-suc, pow-suc, pow-suc) (omega arith)

value-lt : (ws : List ℕ) → IsBytes ws → value ws < 2 ^ (8 * length ws)
unfolding value
value-lt [] h = omega arith
value-lt (b ∷ bs) (h, hs) = omega (arith, value-lt bs hs, eight_more (length bs))

value_injective :
    (ws vs : List ℕ)
    → IsBytes ws
    → IsBytes vs
    → length ws ≡ length vs
    → value ws ≡ value vs
    → ws ≡ vs
unfolding value
value_injective [] [] h k l e = refl
value_injective [] (v ∷ vs) h k l e = absurd (omega arith)
value_injective (w ∷ ws) [] h k l e = absurd (omega arith)
value_injective (w ∷ ws) (v ∷ vs) (h, hs) (k, ks) l e =
    let first : w ≡ v = omega arith in
    ap (λ t. t ∷ ws) first
    ∙ ap (λ t. v ∷ t) (value_injective ws vs hs ks (omega arith) (omega arith))

-- At most four bytes fit the register.
value_fits : (ws : List ℕ) → IsBytes ws → length ws ≤ 4 → value ws < 2 ^ 32
value_fits ws h short = omega (
  arith,
  value-lt ws h,
  pow-le-pow_right {n = 2} (omega arith) {i = 8 * length ws} {j = 32} (omega arith),
)

-- A message in three parts.
split :
    (xs ws ys : List ℕ)
    → lookups 0xFFFFFFFF (xs ++ (ws ++ ys)) ≡ lookups (lookups (lookups 0xFFFFFFFF xs) ws) ys
split xs ws ys = lookups-++ 0xFFFFFFFF xs (ws ++ ys) ∙ lookups-++ (lookups 0xFFFFFFFF xs) ws ys

-- The register after a few bytes is that many shifts of the register with the bytes in it.
lookups-value :
    (a : ℕ) (ws : List ℕ)
    → IsBytes ws
    → lookups a ws ≡ shifts (8 * length ws) (bit_xor a (value ws))
lookups-value a ws h =
    lookups-feed ws a h
    ∙ ap (feed a) (wire_bits-value ws h)
    ∙ sym (
        shifts-bit_xor n a (value ws)
        ∙ ap (bit_xor (feed a (low_bits n (value ws)))) (div-eq_of_lt (value-lt ws h))
        ∙ bit_xor-zero (feed a (low_bits n (value ws))))
  where
    n : ℕ
    n = 8 * length ws

window_injective :
    (a : ℕ) (ws vs : List ℕ)
    → a < 2 ^ 32
    → IsBytes ws
    → IsBytes vs
    → length ws ≡ length vs
    → length ws ≤ 4
    → lookups a ws ≡ lookups a vs
    → ws ≡ vs
window_injective a ws vs ha h k l short e =
    let w_lt = value_fits ws h short in
    let v_lt = value_fits vs k (omega arith) in
    let same_count : 8 * length ws ≡ 8 * length vs = omega arith in
    let shifted =
      sym (lookups-value a ws h)
      ∙ e
      ∙ lookups-value a vs k
      ∙ ap (λ n. shifts n (bit_xor a (value vs))) (sym same_count) in
    let registers =
      shifts_injective (8 * length ws) (bit_xor a (value ws)) (bit_xor a (value vs))
        (bit_xor-lt 32 a (value ws) ha w_lt) (bit_xor-lt 32 a (value vs) ha v_lt) shifted in
    let values =
      bit_xor_injective (value ws) (value vs) a
        (bit_xor_comm (value ws) a ∙ registers ∙ bit_xor_comm a (value vs)) in
    value_injective ws vs h k l values

-- Two messages that differ only within four bytes in a row, of which the second has as many, have
-- different CRCs: an error burst of at most 32 bits never goes unnoticed.
pub burst_detected :
    (xs ws vs ys : List ℕ)
    → IsBytes xs
    → IsBytes ws
    → IsBytes vs
    → IsBytes ys
    → length ws ≡ length vs
    → length ws ≤ 4
    → ws ≢ vs
    → compute (xs ++ (ws ++ ys)) ≢ compute (xs ++ (vs ++ ys))
unfolding compute
burst_detected xs ws vs ys hx hw hv hy l short ne e =
    let start = lookups-lt xs 0xFFFFFFFF (omega arith) hx in
    let a = lookups 0xFFFFFFFF xs in
    let all =
      bit_xor_injective (lookups 0xFFFFFFFF (xs ++ (ws ++ ys)))
        (lookups 0xFFFFFFFF (xs ++ (vs ++ ys))) 0xFFFFFFFF e in
    let tails = sym (split xs ws ys) ∙ all ∙ split xs vs ys in
    let windows =
      lookups_injective ys (lookups a ws) (lookups a vs) (lookups-lt ws a start hw)
        (lookups-lt vs a start hv) hy tails in
    ne (window_injective a ws vs start hw hv l short windows)
