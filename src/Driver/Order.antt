-- ===== src/Driver/Order.antt =====
-- The order in which frames reach userspace: round the ring, one buffer after the other, whatever
-- else happens between two of them.
use phantom_fpga_final_embed.Base.{
  ℕ, zero, suc, ◌+◌, ◌%◌, ◌≡◌, refl, ap, ◌∙◌, inl, inr, Bool, true, false, none, some, Option, List,
  [], ◌∷◌, length, if◌then◌else◌, add32, subst, Bool-cases, arith,
}
use phantom_fpga_final_embed.Driver.State.{Dev, Env, Result, ok, err, enotty, buffer_at}
use phantom_fpga_final_embed.Driver.Irq.{pfpga_irq_complete, pfpga_irq_error, pfpga_irq_no_desc}
use phantom_fpga_final_embed.Driver.Control.{pfpga_stop_streaming}
use phantom_fpga_final_embed.Driver.Frames.{
  snapshot, frame_length, pfpga_validate_frame_crc, pfpga_read, consume_frame,
}
use phantom_fpga_final_embed.Driver.Poll.{pfpga_poll}
use phantom_fpga_final_embed.Driver.Mmap.{pfpga_mmap}
use phantom_fpga_final_embed.Driver.Ioctl.{
  Reply, Command, silent, set_cfg, get_cfg, start, stop, get_stats, reset_stats, get_buffer_info,
  consume, set_fault, decode, run_command, pfpga_ioctl, ioctl_get_cfg, ioctl_get_stats,
  ioctl_reset_stats, ioctl_get_buffer_info, ioctl_set_fault,
}
use phantom_fpga_final_embed.Driver.System.{
  Call, ioctl, read, poll, mmap, irq_complete, irq_error, irq_no_desc, complete, step,
}
use phantom_fpga_final_embed.Driver.Inv.{Inv, configured-IsAllocated}
use phantom_fpga_final_embed.Driver.Inv.Frames.{advance_lem}
use phantom_fpga_final_embed.Driver.Inv.Step.{step-Inv}

-- The commands that start the ring anew.
abbrev pub restarts : Option Command → Bool
restarts (some set_cfg) = true
restarts (some start) = true
restarts _ = false

-- Calls that leave the ring in place.
abbrev pub Continues : List Call → Type 0
Continues [] = Unit
Continues (ioctl env cmd ∷ cs) = (restarts (decode cmd) ≡ false) × Continues cs
Continues (_ ∷ cs) = Continues cs

-- `n` indices of a ring of `size`, from `i` on.
abbrev pub round : ℕ → ℕ → ℕ → List ℕ
round size i zero = []
round size i (suc n) = i ∷ round size ((i + 1) % size) n

-- The ring is as it was, or its consumer has gone one further, over the index given.
abbrev Moved : Option ℕ → Dev → Dev → Type 0
Moved none d e = (e.desc_count ≡ d.desc_count) × (e.consumer ≡ d.consumer)
Moved (some i) d e =
    (e.desc_count ≡ d.desc_count)
    × (i ≡ d.consumer)
    × (e.consumer ≡ (d.consumer + 1) % d.desc_count)

-- The buffer that a call hands to userspace: the consumer's, if the call succeeds.
unfoldable pub taken {ℓ} : {A : Type ℓ} → Dev → Result A → Option ℕ
taken d (ok _) = some d.consumer
taken d (err _) = none

abbrev pub by_command : Env → Dev → Command → Option ℕ
by_command env d consume = taken d (consume_frame env d).0
by_command env d _ = none

abbrev pub by_ioctl : Env → Dev → Option Command → Option ℕ
by_ioctl env d none = none
by_ioctl env d (some c) = by_command env d c

abbrev pub prepend : Option ℕ → List ℕ → List ℕ
prepend none rest = rest
prepend (some i) rest = i ∷ rest

module _ (crc32_le : ℕ → List ℕ → ℕ) where
  unfoldable pub delivered : Dev → Call → Option ℕ
  unfolding taken
  delivered d (read env count) = taken d (pfpga_read crc32_le env count d).0
  delivered d (ioctl env cmd) = by_ioctl env d (decode cmd)
  delivered d _ = none

  -- The buffers that a sequence of calls hands to userspace, in order.
  unfoldable pub deliveries : Dev → List Call → List ℕ
  unfolding delivered
  deliveries d [] = []
  deliveries d (c ∷ cs) = prepend (delivered d c) (deliveries (step crc32_le d c) cs)

consume-Moved :
    (env : Env) (d : Dev)
    → Inv d
    → Moved (taken d (consume_frame env d).0) d (consume_frame env d).1
unfolding taken consume_frame snapshot
consume-Moved env d v = elim (Bool-cases d.streaming) [
  | inl on ↦
      let a = configured-IsAllocated v (v.running on) in
      ground (
        arith,
        advance_lem d.consumer (frame_length env (snapshot env d).dev d.consumer)
            (snapshot env d).dev a.size,
      )
  | inr off ↦ ground arith
]

read-Moved :
    (crc32_le : ℕ → List ℕ → ℕ) (env : Env) (count : ℕ) (d : Dev)
    → Inv d
    → Moved (taken d (pfpga_read crc32_le env count d).0) d (pfpga_read crc32_le env count d).1
unfolding taken pfpga_read snapshot
read-Moved crc32_le env count d v = elim (Bool-cases d.streaming) [
  | inl on ↦
      let a = configured-IsAllocated v (v.running on) in
      ground (
        arith,
        advance_lem d.consumer (frame_length env (snapshot env d).dev d.consumer)
            (record ((snapshot env d).dev) {
              crc_errors = add32 d.crc_errors (
                  if pfpga_validate_frame_crc crc32_le env.mem (buffer_at d d.consumer).vaddr
                  then 0
                  else 1);
            })
            a.size,
      )
  | inr off ↦ ground arith
]

silent_dev : (r : Result (Unit {0}) × Dev) → r.1 ≡ (silent r).1
silent_dev (ok _, d) = refl
silent_dev (err e, d) = refl

command-Moved :
    (env : Env) (c : Command) (d : Dev)
    → Inv d
    → restarts (some c) ≡ false
    → Moved (by_command env d c) d (run_command env c d).1
unfolding run_command ioctl_get_cfg ioctl_get_stats ioctl_reset_stats ioctl_get_buffer_info
    ioctl_set_fault pfpga_stop_streaming
command-Moved env set_cfg d v h = cc
command-Moved env get_cfg d v h = (refl, refl)
command-Moved env start d v h = cc
command-Moved env stop d v h = (refl, refl)
command-Moved env get_stats d v h = (refl, refl)
command-Moved env reset_stats d v h = (refl, refl)
command-Moved env get_buffer_info d v h = ground arith
command-Moved env consume d v h =
    subst (Moved (by_command env d consume) d) (silent_dev (consume_frame env d))
      (consume-Moved env d v)
command-Moved env set_fault d v h = ground arith

ioctl-Moved :
    (env : Env) (o : Option Command) (d : Dev)
    → Inv d
    → restarts o ≡ false
    → Moved (by_ioctl env d o) d (
        let r : Result Reply × Dev = elim o [
          | none ↦ (err enotty, d)
          | some c ↦ run_command env c d
        ] in
        r.1)
ioctl-Moved env none d v h = (refl, refl)
ioctl-Moved env (some c) d v h = command-Moved env c d v h

-- Deliveries go on from where the first call leaves the consumer.
in_order_cons :
    (o : Option ℕ) (d e : Dev) (rest : List ℕ)
    → Moved o d e
    → rest ≡ round e.desc_count e.consumer (length rest)
    → prepend o rest ≡ round d.desc_count d.consumer (length (prepend o rest))
in_order_cons none d e rest m h = cc
in_order_cons (some i) d e rest m h =
    let next : rest ≡ round d.desc_count ((d.consumer + 1) % d.desc_count) (length rest) = cc in
    ap (λ (j : ℕ). j ∷ rest) m.1 ∙ ap (λ (r : List ℕ). d.consumer ∷ r) next

Continues-split :
    (c : Call) (cs : List Call) → Continues (c ∷ cs) → Continues (c ∷ []) × Continues cs
Continues-split (ioctl env cmd) cs h = ((h.0, tt), h.1)
Continues-split (read env count) cs h = (tt, h)
Continues-split (poll env) cs h = (tt, h)
Continues-split (mmap answer vma) cs h = (tt, h)
Continues-split (irq_complete env) cs h = (tt, h)
Continues-split (irq_error env) cs h = (tt, h)
Continues-split (irq_no_desc env) cs h = (tt, h)
Continues-split (complete i control) cs h = (tt, h)

module _ (crc32_le : ℕ → List ℕ → ℕ) where
  step-Moved :
      (d : Dev) (c : Call)
      → Inv d
      → Continues (c ∷ [])
      → Moved (delivered crc32_le d c) d (step crc32_le d c)
  unfolding delivered step pfpga_ioctl pfpga_poll pfpga_mmap pfpga_irq_complete pfpga_irq_error
      pfpga_irq_no_desc
  step-Moved d (ioctl env cmd) v h = ioctl-Moved env (decode cmd) d v h.0
  step-Moved d (read env count) v h = read-Moved crc32_le env count d v
  step-Moved d (poll env) v h = ground arith
  step-Moved d (mmap answer vma) v h = ground arith
  step-Moved d (irq_complete env) v h = ground arith
  step-Moved d (irq_error env) v h = ground arith
  step-Moved d (irq_no_desc env) v h = ground arith
  step-Moved d (complete i control) v h = (refl, refl)

  -- Until the ring is started anew, the buffers that read and CONSUME_FRAME hand to userspace follow
  -- one another round the ring from the consumer on: none is skipped and none is handed out twice in
  -- a round, whatever polls, mappings, interrupts, DMA writes and other commands stand between.
  pub deliveries_in_order :
      (d : Dev) (cs : List Call)
      → Inv d
      → Continues cs
      → deliveries crc32_le d cs ≡ round d.desc_count d.consumer (length (deliveries crc32_le d cs))
  unfolding deliveries
  deliveries_in_order d [] v h = refl
  deliveries_in_order d (c ∷ cs) v h =
      let split = Continues-split c cs h in
      in_order_cons (delivered crc32_le d c) d (step crc32_le d c)
        (deliveries crc32_le (step crc32_le d c) cs) (step-Moved d c v split.0)
        (deliveries_in_order (step crc32_le d c) cs (step-Inv crc32_le d c v) split.1)
