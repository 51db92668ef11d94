-- ===== src/Regs/Ring.antt =====
-- The ring helpers of driver/phantomfpga_regs.h, and the arithmetic of a power-of-two ring: masks
-- by `ring_size - 1` in 32-bit words are remainders, also where the subtraction wraps.
use native.Mathlib.Nat.{
  add-mul-mod_self_left, mod-mod_of_dvd, mod-eq_of_lt, mod-eq-sub-mod, mod-lt, mul-suc,
  pow-le-pow_right,
}
use phantom_fpga_final_embed.Base.{
  ℕ, zero, suc, ◌+◌, ◌-◌, ◌*◌, ◌%◌, ◌^◌, ◌≤◌, ◌<◌, bit_and, ◌≡◌, ap, sym, ◌∙◌, ◌↔◌, ◌⊎◌, inl, inr,
  Bool, true, arith, ◌==◌, dec_lt, add32, sub32, u32_mod, bit_and_mask, two-pow_split,
}

-- phantomfpga_desc_pending
pub desc_pending : ℕ → ℕ → ℕ → ℕ
desc_pending head tail ring_size = bit_and (sub32 head tail) (sub32 ring_size 1)

-- phantomfpga_desc_free
pub desc_free : ℕ → ℕ → ℕ → ℕ
desc_free head tail ring_size = sub32 (sub32 ring_size 1) (desc_pending head tail ring_size)

-- phantomfpga_desc_ring_empty
pub desc_ring_empty : ℕ → ℕ → Bool
desc_ring_empty head tail = head == tail

-- phantomfpga_desc_ring_full
pub desc_ring_full : ℕ → ℕ → ℕ → Bool
desc_ring_full head tail ring_size = bit_and (add32 head 1) (sub32 ring_size 1) == tail

-- "Ring size must be a power of 2", that fits a u32 and leaves room for the slot kept empty.
pub record IsRingSize (n : ℕ) : Type 0 where
  pub log : ℕ
  pub log_le : log ≤ 31
  pub pow : n ≡ 2 ^ log
  pub two : 2 ≤ n

turns :
    (n a b c : ℕ)
    → n ≤ 2 ^ 31
    → b < n
    → u32_mod ≡ n * c
    → a + u32_mod - b ≡ a + (n - b) + n * (c - 1)
turns n a b zero s h e = absurd (omega arith)
turns n a b (suc c) s h e =
    let back : suc c - 1 ≡ c = omega arith in omega (arith, mul-suc n c, ap (λ (t : ℕ). n * t) back)

module _ {n : ℕ} (r : IsRingSize n) where
  open r use {log, log_le, pow, two}

  -- The ring size divides 2 ^ 32, so that a wrapped index has the same remainder.
  split : (c : ℕ) × (u32_mod ≡ n * c)
  split =
      let (c, e) = two-pow_split log 32 (omega arith) in (c, e ∙ ap (λ (t : ℕ). t * c) (sym pow))

  pub ring-le : n ≤ 2 ^ 31
  ring-le = rw pow (pow-le-pow_right {n = 2} (omega arith) log_le)

  pub mask_lem : (a : ℕ) → bit_and a (sub32 n 1) ≡ a % n
  mask_lem a =
      let minus_one : sub32 n 1 ≡ 2 ^ log - 1 = omega (arith, ring-le) in
      ap (bit_and a) minus_one ∙ bit_and_mask log a ∙ ap (λ (t : ℕ). a % t) (sym pow)

  wrap_lem : (a : ℕ) → a % u32_mod % n ≡ a % n
  wrap_lem a = mod-mod_of_dvd n a ∣ split ∣₁

  pub add_mask : (a b : ℕ) → bit_and (add32 a b) (sub32 n 1) ≡ (a + b) % n
  add_mask a b = mask_lem (add32 a b) ∙ wrap_lem (a + b)

  pub sub_mask : (a b : ℕ) → b < n → bit_and (sub32 a b) (sub32 n 1) ≡ (a + (n - b)) % n
  sub_mask a b h = mask_lem (sub32 a b) ∙ wrap_lem (a + u32_mod - b) ∙ shift
    where
      shift : (a + u32_mod - b) % n ≡ (a + (n - b)) % n
      shift =
          ap (λ (t : ℕ). t % n) (turns n a b split.0 ring-le h split.1)
          ∙ add-mul-mod_self_left (a + (n - b)) n (split.0 - 1)

-- A step round the ring, without `%`.
pub mod_once : (a n : ℕ) → a < n + n → ((a < n) × (a % n ≡ a)) ⊎ ((n ≤ a) × (a % n ≡ a - n))
mod_once a n h = elim (dec_lt a n) [
  | yes p ↦ inl (p, mod-eq_of_lt p)
  | no p ↦
      inr (omega arith, mod-eq-sub-mod {n = a} {m = n} (omega arith) ∙ mod-eq_of_lt (omega arith))
]

-- For indices inside the ring the helpers count: the pending descriptors are the way from the tail
-- to the head, the free ones make up all but one slot, and the two tests name the extremes.
pub desc_counts :
    {n head tail : ℕ}
    → IsRingSize n
    → head < n
    → tail < n
    → (desc_pending head tail n < n)
      × ((tail + desc_pending head tail n) % n ≡ head)
      × (desc_pending head tail n + desc_free head tail n ≡ n - 1)
      × ((desc_ring_empty head tail ≡ true) ↔ (desc_pending head tail n ≡ 0))
      × ((desc_ring_full head tail n ≡ true) ↔ (desc_free head tail n ≡ 0))
unfolding desc_pending desc_free desc_ring_empty desc_ring_full
desc_counts {n} {head} {tail} r hh ht = ground (
  arith,
  sub_mask r head tail ht,
  add_mask r head 1,
  ring-le r,
  r.two,
  mod_once (head + (n - tail)) n (omega arith),
  mod_once (head + 1) n (omega (arith, r.two)),
  mod_once (tail + (head + (n - tail)) % n) n
      (omega (arith, mod-lt (head + (n - tail)) {m = n} (omega arith))),
)
