-- ===== src/Driver/Fifo/Reach.antt =====
-- The states that a device reaches from START on, as a step relation: the device completes
-- descriptors in order, reads take frames, and interrupts, polls and mappings come in any order.
use phantom_fpga_final_embed.Base.{
  ℕ, ◌+◌, ◌-◌, ◌⊎◌, ◌%◌, ◌≡◌, ◌≢◌, ◌≤◌, ◌<◌, refl, sym, ap, ◌∙◌, inl, inr, Bool, true, false, not,
  List, ◌==◌, bit_and, arith,
}
use phantom_fpga_final_embed.Regs.{frame_size, reg_desc_tail, desc_ctrl_completed}
use phantom_fpga_final_embed.Driver.State.{Dev, Env, Errno, ok, err, eagain, buffer_at, set_control}
use phantom_fpga_final_embed.Driver.Irq.{pfpga_irq_complete, pfpga_irq_error, pfpga_irq_no_desc}
use phantom_fpga_final_embed.Driver.Poll.{pfpga_poll}
use phantom_fpga_final_embed.Driver.Mmap.{pfpga_mmap}
use phantom_fpga_final_embed.Driver.Control.{begin_streaming}
use phantom_fpga_final_embed.Driver.Frames.{load, pfpga_read}
use phantom_fpga_final_embed.Driver.System.{
  Call, ioctl, read, poll, mmap, irq_complete, irq_error, irq_no_desc, complete, step,
}
use phantom_fpga_final_embed.Driver.Inv.{Inv, Alike, Same-IsAllocated}
use phantom_fpga_final_embed.Driver.Inv.Control.{begin-Inv}
use phantom_fpga_final_embed.Driver.Inv.Frames.{read-Inv}
use phantom_fpga_final_embed.Driver.Inv.Step.{step-Inv, complete-Inv}
use phantom_fpga_final_embed.Driver.Fifo.{Represents, produce-Represents}
use phantom_fpga_final_embed.Driver.Fifo.Read.{read_takes_first, read_streaming}
use phantom_fpga_final_embed.Driver.Fifo.Start.{start-Represents}

-- Calls that leave the queue and the flag `streaming` alone.
abbrev pub watches : Call → Bool
watches (poll env) = true
watches (mmap answer vma) = true
watches (irq_complete env) = true
watches (irq_error env) = true
watches (irq_no_desc env) = true
watches _ = false

-- A read of a whole frame, whose tail register says how far the device has come.
pub record IsFair (env : Env) (count produced : ℕ) (d : Dev) : Type 0 where
  pub tail : env.regs reg_desc_tail ≡ produced % d.desc_count
  pub large : frame_size ≤ count
  pub writable : env.user_writable ≡ true

module _ (crc32_le : ℕ → List ℕ → ℕ) (start : Dev) where
  -- `Reach p c d`: from START on, the device has completed p frames and c reads have succeeded.
  pub data Reach : ℕ → ℕ → Dev → Type 0 where
    started : Reach 0 0 (begin_streaming start)
    produced :
        {p c : ℕ} {d : Dev} (control : ℕ)
        → Reach p c d
        → p % d.desc_count ≢ d.desc_head
        → not (bit_and control desc_ctrl_completed == 0) ≡ true
        → Reach (p + 1) c (set_control d (p % d.desc_count) control)
    taken :
        {p c : ℕ} {d : Dev} (env : Env) (count n : ℕ) (bytes : List ℕ)
        → Reach p c d
        → IsFair env count p d
        → (pfpga_read crc32_le env count d).0 ≡ ok (n, bytes)
        → Reach p (c + 1) (pfpga_read crc32_le env count d).1
    refused :
        {p c : ℕ} {d : Dev} (env : Env) (count : ℕ) (e : Errno)
        → Reach p c d
        → IsFair env count p d
        → (pfpga_read crc32_le env count d).0 ≡ err e
        → Reach p c (pfpga_read crc32_le env count d).1
    watched :
        {p c : ℕ} {d : Dev} (call : Call)
        → Reach p c d
        → watches call ≡ true
        → Reach p c (step crc32_le d call)

-- The queue does not depend on what `Alike` leaves out.
pub Alike-Represents : (p c : ℕ) (d e : Dev) → Alike d e → Represents p c d → Represents p c e
Alike-Represents p c d e s r = record {
  allocated =
      Same-IsAllocated {d = d} (ground (arith, s)) r.allocated
        (omega (arith, s.consumer, r.allocated.consumer_in));
  consumer = s.consumer ∙ r.consumer ∙ ap (λ (n : ℕ). c % n) (sym s.count);
  head = s.head ∙ r.head ∙ ap (λ (n : ℕ). (c + (n - 1)) % n) (sym s.count);
  order = r.order;
  window = omega (arith, s.count, r.window);
  completed = rw (s.count, s.ring) r.completed;
}

module _ (crc32_le : ℕ → List ℕ → ℕ) where
  pub watched_lem :
      (d : Dev) (call : Call)
      → watches call ≡ true
      → Alike d (step crc32_le d call) × ((step crc32_le d call).streaming ≡ d.streaming)
  unfolding step pfpga_poll pfpga_mmap pfpga_irq_complete pfpga_irq_error pfpga_irq_no_desc
  watched_lem d (ioctl env cmd) w = cc
  watched_lem d (read env count) w = cc
  watched_lem d (complete i control) w = cc
  watched_lem d (poll env) w = ground arith
  watched_lem d (mmap answer vma) w = ground arith
  watched_lem d (irq_complete env) w = ground arith
  watched_lem d (irq_error env) w = ground arith
  watched_lem d (irq_no_desc env) w = ground arith

-- What holds of a reachable state.
abbrev pub IsQueue : ℕ → ℕ → Dev → Type 0
IsQueue p c d = Represents p c d × Inv d × (d.streaming ≡ true)

module _ (crc32_le : ℕ → List ℕ → ℕ) (start : Dev) where
  -- A successful read of a queue has taken its first frame, and one that fails has found it empty.
  pub read-IsQueue :
      (p c : ℕ) (d : Dev) (env : Env) (count : ℕ)
      → IsQueue p c d
      → IsFair env count p d
      → ((p ≡ c)
          × ((pfpga_read crc32_le env count d).0 ≡ err eagain)
          × IsQueue p c (pfpga_read crc32_le env count d).1)
        ⊎ ((c < p)
            × ((n : ℕ) × ((pfpga_read crc32_le env count d).0
                  ≡ ok (n, load env.mem (buffer_at d (c % d.desc_count)).vaddr n)))
            × IsQueue p (c + 1) (pfpga_read crc32_le env count d).1)
  read-IsQueue p c d env count (r, v, on) f =
      let w = read-Inv crc32_le env count v in
      let still = read_streaming crc32_le env count d ∙ on in
      elim (read_takes_first crc32_le env count d p c v r on f.tail f.large f.writable) [
        | inl (e, a, q) ↦ inl (e, a, (q, w, still))
        | inr (lt, a, q) ↦ inr (lt, a, (q, w, still))
      ]

  pub Reach-IsQueue :
      {p c : ℕ} {d : Dev}
      → Inv start
      → start.configured ≡ true
      → Reach crc32_le start p c d
      → IsQueue p c d
  Reach-IsQueue v conf started =
      (start-Represents start v conf, begin-Inv v conf, unfold begin_streaming in refl)
  Reach-IsQueue v conf (produced {p} {c} {d} control h room bit) =
      let (r, w, on) = Reach-IsQueue v conf h in
      (produce-Represents p c control d r room bit, complete-Inv (p % d.desc_count) control w, on)
  Reach-IsQueue v conf (taken {p} {c} {d} env count n bytes h f e) =
      elim (read-IsQueue p c d env count (Reach-IsQueue v conf h) f) [
        | inl (_, a, q) ↦ cc
        | inr (_, a, q) ↦ q
      ]
  Reach-IsQueue v conf (refused {p} {c} {d} env count x h f e) =
      elim (read-IsQueue p c d env count (Reach-IsQueue v conf h) f) [
        | inl (_, a, q) ↦ q
        | inr (_, (n, a), q) ↦ cc
      ]
  Reach-IsQueue v conf (watched {p} {c} {d} call h w) =
      let (r, u, on) = Reach-IsQueue v conf h in
      let (s, same) = watched_lem crc32_le d call w in
      (Alike-Represents p c d _ s r, step-Inv crc32_le d call u, same ∙ on)

  -- From START on, frames come out in the order in which they went in. In any state that is reached
  -- when the device has completed p frames and c reads have succeeded, a read of a whole frame whose
  -- tail register shows p delivers the buffer at index c round the ring, that of the frame numbered
  -- c, if c < p; otherwise p = c, and it returns EAGAIN.
  pub reads_in_order :
      (p c : ℕ) (d : Dev) (env : Env) (count : ℕ)
      → Inv start
      → start.configured ≡ true
      → Reach crc32_le start p c d
      → IsFair env count p d
      → ((p ≡ c) × ((pfpga_read crc32_le env count d).0 ≡ err eagain))
        ⊎ ((c < p)
            × ((n : ℕ) × ((pfpga_read crc32_le env count d).0
                  ≡ ok (n, load env.mem (buffer_at d (c % d.desc_count)).vaddr n))))
  reads_in_order p c d env count v conf h f =
      elim (read-IsQueue p c d env count (Reach-IsQueue v conf h) f) [
        | inl (e, a, _) ↦ inl (e, a)
        | inr (lt, a, _) ↦ inr (lt, a)
      ]
