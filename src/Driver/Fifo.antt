-- ===== src/Driver/Fifo.antt =====
-- The ring as a queue. Frames are numbered as the device produces them: `consumed` of them have been
-- handed out, `produced` have been completed, and the ring holds those between. The device completes
-- descriptors in order, up to the head, and sets their COMPLETED bits; that is what
-- driver/phantomfpga_regs.h says of it.
pub mod Read
pub mod Start
pub mod Reach
use native.Mathlib.Nat.{mod-mod, add-mod_right, mod-lt, mod-add-mod, mod_self}
use phantom_fpga_final_embed.Base.{
  ℕ, zero, suc, ◌+◌, ◌-◌, ◌%◌, ◌≡◌, ◌≢◌, ◌≤◌, ◌<◌, refl, sym, ap, ◌∙◌, ◌⊎◌, inl, inr, Bool, true,
  false, not, some, none, List, length, ltb, ◌==◌, bit_and, sub32, dec_lt, ℕ_discrete, arith,
}
use phantom_fpga_final_embed.Regs.{frame_size, reg_desc_tail, desc_ctrl_completed}
use phantom_fpga_final_embed.Regs.Ring.{IsRingSize, mask_lem, sub_mask, mod_once}
use phantom_fpga_final_embed.Driver.State.{
  Dev, Env, Result, ok, err, eagain, failure, desc_control, buffer_at, set_control,
}
use phantom_fpga_final_embed.Driver.Frames.{
  snapshot, has_frame, is_completed, frame_length, load, pfpga_read,
}
use phantom_fpga_final_embed.Driver.Frames.GiveBack.{
  control_at, with_control_self, with_control_ne, GivenBack, read_gives_back,
}
use phantom_fpga_final_embed.Driver.Inv.Frames.{length-with_control}
use phantom_fpga_final_embed.Driver.Inv.{
  Inv, IsAllocated, Same, Same-IsAllocated, configured-IsAllocated,
}

-- The device state `d` stands for the queue of the frames from `consumed` to `produced`.
pub record Represents (produced consumed : ℕ) (d : Dev) : Type 0 where
  pub allocated : IsAllocated d
  pub consumer : d.consumer ≡ consumed % d.desc_count
  pub head : d.desc_head ≡ (consumed + (d.desc_count - 1)) % d.desc_count
  pub order : consumed ≤ produced
  pub window : produced ≤ consumed + (d.desc_count - 1)
  pub completed :
      (i : ℕ)
      → consumed ≤ i
      → i < consumed + d.desc_count
      → is_completed d (i % d.desc_count) ≡ ltb i produced

-- The way round the ring from one index to a later one, less than a turn ahead.
gap_lem : (n a k : ℕ) → 0 < n → k < n → ((a + k) % n + (n - a % n)) % n ≡ k
gap_lem n a k h b = ground (
  arith,
  mod-lt a {m = n} h,
  mod-add-mod a n k,
  mod_once (a % n + k) n (omega (arith, mod-lt a {m = n} h)),
  mod_once ((a + k) % n + (n - a % n)) n
      (omega (arith, mod-lt a {m = n} h, mod-lt (a + k) {m = n} h)),
)

-- Two numbers less than a turn apart have different indices.
pub apart : (n a i : ℕ) → 0 < n → a < i → i < a + n → a % n ≢ i % n
apart n a i h lo hi e = absurd (omega (arith, lo, gap, wrapped))
  where
    shift : a + (i - a) ≡ i
    shift = omega arith

    gap : (i % n + (n - a % n)) % n ≡ i - a
    gap =
        ap (λ (x : ℕ). (x % n + (n - a % n)) % n) (sym shift) ∙ gap_lem n a (i - a) h (omega arith)

    full : i % n + (n - a % n) ≡ n
    full = omega (arith, e, mod-lt a {m = n} h)

    wrapped : (i % n + (n - a % n)) % n ≡ 0
    wrapped = ap (λ (x : ℕ). x % n) full ∙ mod_self n

pub turn : (n a : ℕ) → (a + n) % n ≡ a % n
turn n a = add-mod_right a n

-- The descriptors pending, for a tail register that says how far the device has come.
pending_lem :
    (env : Env) (p c : ℕ) (d : Dev)
    → Represents p c d
    → env.regs reg_desc_tail ≡ p % d.desc_count
    → (snapshot env d).pending ≡ p - c
unfolding snapshot
pending_lem env p c d r t = ground (
  arith,
  mask_lem a.size (env.regs reg_desc_tail),
  sub_mask a.size (bit_and (env.regs reg_desc_tail) (sub32 d.desc_count 1)) d.consumer
      a.consumer_in,
  mod-mod p d.desc_count,
  r.consumer,
  gap,
)
  where
    a : IsAllocated d
    a = r.allocated

    shift : c + (p - c) ≡ p
    shift = omega (arith, r.order)

    gap : (p % d.desc_count + (d.desc_count - c % d.desc_count)) % d.desc_count ≡ p - c
    gap =
        ap (λ (x : ℕ). (x % d.desc_count + (d.desc_count - c % d.desc_count)) % d.desc_count)
          (sym shift)
        ∙ gap_lem d.desc_count c (p - c) (omega (arith, a.count_ge))
            (omega (arith, r.window, a.count_ge))

pub has_frame_lem :
    (env : Env) (p c : ℕ) (d : Dev)
    → Represents p c d
    → env.regs reg_desc_tail ≡ p % d.desc_count
    → has_frame (snapshot env d) ≡ ltb c p
unfolding has_frame snapshot
has_frame_lem env p c d r t = ground (
  arith,
  pending_lem env p c d r t,
  ap (is_completed d) r.consumer
      ∙ r.completed c (omega arith) (omega (arith, r.allocated.count_ge)),
  r.order,
)

-- A control word tells whether its descriptor is completed.
pub completed_of :
    (d e : Dev) (i j : ℕ)
    → desc_control e j ≡ desc_control d i
    → is_completed e j ≡ is_completed d i
completed_of d e i j h = ap (λ (x : ℕ). not (bit_and x desc_ctrl_completed == 0)) h

-- Inside a window of one turn only one number has a given index.
index_apart : (n c i p : ℕ) → 0 < n → c ≤ i → i < c + n → c ≤ p → p < c + n → i ≢ p → p % n ≢ i % n
index_apart n c i p h a b x y ne e = elim (dec_lt p i) [
  | yes lt ↦ absurd (apart n p i h lt (omega arith) e)
  | no ge ↦ absurd (apart n i p h (omega arith) (omega arith) (sym e))
]

module _ (p c control : ℕ) (d : Dev) (r : Represents p c d) where
  open r use {allocated, window, order, completed, head}

  -- The window leaves room for one more frame if its descriptor is not at the head.
  room : p % d.desc_count ≢ d.desc_head → p < c + (d.desc_count - 1)
  room h = elim (ℕ_discrete p (c + (d.desc_count - 1))) [
    | yes e ↦ absurd (h (ap (λ (x : ℕ). x % d.desc_count) e ∙ sym head))
    | no ne ↦ omega (arith, window)
  ]

  produce_completed :
      p < c + (d.desc_count - 1)
      → not (bit_and control desc_ctrl_completed == 0) ≡ true
      → (i : ℕ) → c ≤ i
      → i < c + d.desc_count
      → is_completed (set_control d (p % d.desc_count) control) (i % d.desc_count) ≡ ltb i (p + 1)
  unfolding control_at
  produce_completed h b i lo hi = elim (ℕ_discrete i p) [
    | yes e ↦
        ap (λ (x : ℕ). is_completed (set_control d (p % d.desc_count) control) (x % d.desc_count)) e
        ∙ ap (λ (x : ℕ). not (bit_and x desc_ctrl_completed == 0))
            (with_control_self d.desc_ring (p % d.desc_count) control (
              omega (
                arith,
                allocated.ring_length,
                mod-lt p {m = d.desc_count} (omega (arith, allocated.count_ge)),
              )))
        ∙ b
        ∙ ground arith
    | no ne ↦
        completed_of d (set_control d (p % d.desc_count) control) (i % d.desc_count)
          (i % d.desc_count)
          (with_control_ne d.desc_ring (p % d.desc_count) (i % d.desc_count) control (
            index_apart d.desc_count c i p (omega (arith, allocated.count_ge)) lo hi order
              (omega arith) ne))
        ∙ completed i lo hi
        ∙ ground arith
  ]

  -- The device completes the next descriptor, if that is not the one at the head: it writes a control
  -- word with the COMPLETED bit set. The queue then holds one frame more.
  pub produce-Represents :
      p % d.desc_count ≢ d.desc_head
      → not (bit_and control desc_ctrl_completed == 0) ≡ true
      → Represents (p + 1) c (set_control d (p % d.desc_count) control)
  produce-Represents h b = record {
    allocated =
        Same-IsAllocated
          (ground (arith, length-with_control d.desc_ring (p % d.desc_count) control)) allocated
          allocated.consumer_in;
    consumer = r.consumer;
    head = head;
    order = omega (arith, order);
    window = omega (arith, room h);
    completed = produce_completed (room h) b;
  }
