-- ===== src/Driver/Interrupted.antt =====
-- A read between whose two locked regions other things happen that take no part in the handing out of
-- frames: interrupts, polls, mappings and DMA writes of the device.
use phantom_fpga_final_embed.Base.{
  ℕ, ◌+◌, ◌%◌, ◌≡◌, refl, ◌∙◌, subst, Bool, true, false, not, ◌&&◌, List, [], ◌∷◌, if_cases, add32,
  if◌then◌else◌, arith,
}
use phantom_fpga_final_embed.Driver.State.{Dev, Env, Result, ok, buffer_at}
use phantom_fpga_final_embed.Regs.Ring.{IsRingSize}
use phantom_fpga_final_embed.Driver.Irq.{pfpga_irq_complete, pfpga_irq_error, pfpga_irq_no_desc}
use phantom_fpga_final_embed.Driver.Poll.{pfpga_poll}
use phantom_fpga_final_embed.Driver.Mmap.{pfpga_mmap}
use phantom_fpga_final_embed.Driver.Frames.{
  snapshot, load, frame_length, copy_frame, pfpga_validate_frame_crc,
}
use phantom_fpga_final_embed.Driver.System.{
  Call, ioctl, read, poll, mmap, irq_complete, irq_error, irq_no_desc, complete, step, run,
}
use phantom_fpga_final_embed.Driver.Inv.{Inv, Leaves, Alike-Inv, configured-IsAllocated}
use phantom_fpga_final_embed.Driver.Inv.Frames.{snapshot-Inv, advance-Inv, advance_lem}
use phantom_fpga_final_embed.Driver.Inv.Step.{run-Inv}

abbrev pub is_quiet : Call → Bool
is_quiet (ioctl env cmd) = false
is_quiet (read env count) = false
is_quiet _ = true

abbrev pub all_quiet : List Call → Bool
all_quiet [] = true
all_quiet (c ∷ cs) = is_quiet c && all_quiet cs

-- What the second region relies on, and a reader of the mapped pool.
abbrev Still : Dev → Dev → Type 0
Still d e =
    (e.consumer ≡ d.consumer)
    × (e.desc_count ≡ d.desc_count)
    × (e.configured ≡ d.configured)
    × (e.buffers ≡ d.buffers)
    × (e.buffer_pool ≡ d.buffer_pool)
    × (e.buffer_pool_size ≡ d.buffer_pool_size)
    × (e.buffer_size ≡ d.buffer_size)
    × (e.streaming ≡ d.streaming)

module _ (crc32_le : ℕ → List ℕ → ℕ) where
  pub step-Still : (d : Dev) (c : Call) → is_quiet c ≡ true → Still d (step crc32_le d c)
  unfolding step pfpga_poll pfpga_mmap pfpga_irq_complete pfpga_irq_error pfpga_irq_no_desc
  step-Still d (ioctl env cmd) q = cc
  step-Still d (read env count) q = cc
  step-Still d (poll env) q = ground arith
  step-Still d (mmap answer vma) q = ground arith
  step-Still d (irq_complete env) q = ground arith
  step-Still d (irq_error env) q = ground arith
  step-Still d (irq_no_desc env) q = ground arith
  step-Still d (complete i control) q = (refl, refl, refl, refl, refl, refl, refl, refl)

  run-Still : (d : Dev) (cs : List Call) → all_quiet cs ≡ true → Still d (run crc32_le d cs)
  unfolding run
  run-Still d [] q = (refl, refl, refl, refl, refl, refl, refl, refl)
  run-Still d (c ∷ cs) q =
      ground (arith, step-Still d c (ground arith), run-Still (step crc32_le d c) cs (ground arith))

  -- The second part of a read, in the state that the first one finds later.
  abbrev pub resumed : Env → Env → Dev → List Call → Result (ℕ × List ℕ) × Dev
  resumed before after d cs =
      copy_frame crc32_le after
        (record (snapshot before d) { dev = run crc32_le (snapshot before d).dev cs })

  resumed-Inv :
      (env : Env) (pending : ℕ) (d : Dev)
      → Inv d
      → d.configured ≡ true
      → Leaves (copy_frame crc32_le env (record { head = d.consumer; pending = pending; dev = d }))
  unfolding copy_frame
  resumed-Inv env pending d v conf =
      if_cases Leaves (not env.user_writable) (λ _. v)
        λ _. advance-Inv _ (Alike-Inv (ground arith) v v.running) conf

  -- The same where the head has another name.
  resumed_at-Inv :
      (env : Env) (head pending : ℕ) (d : Dev)
      → Inv d
      → d.configured ≡ true
      → d.consumer ≡ head
      → Leaves (copy_frame crc32_le env (record { head = head; pending = pending; dev = d }))
  resumed_at-Inv env head pending d v conf h =
      subst
        (λ (i : ℕ).
          Leaves (copy_frame crc32_le env (record { head = i; pending = pending; dev = d })))
        h (resumed-Inv env pending d v conf)

  -- What a read delivers, and where it leaves the consumer.
  copy_frame_lem :
      (env : Env) (head pending : ℕ) (d : Dev)
      → IsRingSize d.desc_count
      → env.user_writable ≡ true
      → let r = copy_frame crc32_le env (record { head = head; pending = pending; dev = d }) in
        let n = frame_length env d head in
        (r.0 ≡ ok (n, load env.mem (buffer_at d head).vaddr n))
        × (r.1.consumer ≡ (head + 1) % d.desc_count)
  unfolding copy_frame
  copy_frame_lem env head pending d a w = ground (
    arith,
    advance_lem head (frame_length env d head)
        (record d {
          crc_errors =
              add32 d.crc_errors (
                if pfpga_validate_frame_crc crc32_le env.mem (buffer_at d head).vaddr
                then 0
                else 1);
        })
        a,
  )

  -- Interrupts, polls, mappings and DMA writes between the two locked regions of a read do no harm: it
  -- still delivers the buffer that the consumer pointed at when it looked at the ring, moves the
  -- consumer on by one, and leaves a state that satisfies the invariant.
  pub interrupted_read :
      (before after : Env) (d : Dev) (cs : List Call)
      → Inv d
      → d.configured ≡ true
      → all_quiet cs ≡ true
      → after.user_writable ≡ true
      → let r = resumed before after d cs in
        let n = frame_length after (run crc32_le (snapshot before d).dev cs) d.consumer in
        (r.0 ≡ ok (n, load after.mem (buffer_at d d.consumer).vaddr n))
        × (r.1.consumer ≡ (d.consumer + 1) % d.desc_count)
        × Inv r.1
  unfolding snapshot
  interrupted_read before after d cs v conf q w =
      let seen : Dev = (snapshot before d).dev in
      let later : Dev = run crc32_le seen cs in
      let still = run-Still seen cs q in
      let u : Inv later = run-Inv crc32_le seen cs (snapshot-Inv before v) in
      let ready : later.configured ≡ true = still.2 ∙ conf in
      let (out, moved) =
        copy_frame_lem after d.consumer (snapshot before d).pending later
          (configured-IsAllocated u ready).size w in
      (
        ground (arith, out, still),
        ground (arith, moved, still),
        resumed_at-Inv after d.consumer (snapshot before d).pending later u ready still.0,
      )
