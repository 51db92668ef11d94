-- ===== src/Driver/Counts.antt =====
-- The count of consumed frames against the frames that read and CONSUME_FRAME hand out.
use phantom_fpga_final_embed.Base.{
  ℕ, ◌+◌, ◌%◌, ◌≡◌, refl, Bool, true, false, none, some, Option, List, [], ◌∷◌, length,
  if◌then◌else◌, add32, add64, u64_mod, arith,
}
use phantom_fpga_final_embed.Driver.State.{Dev, Env, Result, ok, err, enotty, buffer_at}
use phantom_fpga_final_embed.Driver.Setup.{pfpga_init_descriptors, pfpga_submit_descriptors}
use phantom_fpga_final_embed.Driver.Irq.{pfpga_irq_complete, pfpga_irq_error, pfpga_irq_no_desc}
use phantom_fpga_final_embed.Driver.Control.{
  begin_streaming, pfpga_start_streaming, pfpga_stop_streaming,
}
use phantom_fpga_final_embed.Driver.Frames.{
  snapshot, advance, frame_length, pfpga_validate_frame_crc, pfpga_read, consume_frame,
}
use phantom_fpga_final_embed.Driver.Poll.{pfpga_poll}
use phantom_fpga_final_embed.Driver.Mmap.{pfpga_mmap}
use phantom_fpga_final_embed.Driver.Ioctl.{
  Reply, Command, silent, set_cfg, get_cfg, start, stop, get_stats, reset_stats, get_buffer_info,
  consume, set_fault, decode, run_command, pfpga_ioctl, ioctl_get_cfg, ioctl_get_stats,
  ioctl_reset_stats, ioctl_get_buffer_info, ioctl_set_fault,
}
use phantom_fpga_final_embed.Driver.System.{
  Call, ioctl, read, poll, mmap, irq_complete, irq_error, irq_no_desc, complete, step, run,
}
use phantom_fpga_final_embed.Driver.Order.{
  taken, by_command, by_ioctl, prepend, delivered, deliveries,
}

-- How many frames a call hands out.
abbrev how_many : Option ℕ → ℕ
how_many none = 0
how_many (some i) = 1

-- No RESET_STATS among the calls, and no SET_CFG.
abbrev pub keeps_count : Option Command → Bool
keeps_count (some reset_stats) = false
keeps_count (some set_cfg) = false
keeps_count _ = true

abbrev pub Counting : List Call → Type 0
Counting [] = Unit
Counting (ioctl env cmd ∷ cs) = (keeps_count (decode cmd) ≡ true) × Counting cs
Counting (_ ∷ cs) = Counting cs

abbrev Counted : Option ℕ → Dev → Dev → Type 0
Counted o d e = e.frames_consumed % u64_mod ≡ (d.frames_consumed + how_many o) % u64_mod

advance-count :
    (head len : ℕ) (d : Dev) → (advance head len d).frames_consumed ≡ add64 d.frames_consumed 1
unfolding advance pfpga_submit_descriptors
advance-count head len d = ground arith

consume-Counted :
    (env : Env) (d : Dev) → Counted (taken d (consume_frame env d).0) d (consume_frame env d).1
unfolding taken consume_frame snapshot
consume-Counted env d = ground (
  arith,
  advance-count d.consumer (frame_length env (snapshot env d).dev d.consumer) (snapshot env d).dev,
)

read-Counted :
    (crc32_le : ℕ → List ℕ → ℕ) (env : Env) (count : ℕ) (d : Dev)
    → Counted (taken d (pfpga_read crc32_le env count d).0) d (pfpga_read crc32_le env count d).1
unfolding taken pfpga_read snapshot
read-Counted crc32_le env count d = ground (
  arith,
  advance-count d.consumer (frame_length env (snapshot env d).dev d.consumer)
      (record ((snapshot env d).dev) {
        crc_errors = add32 d.crc_errors (
            if pfpga_validate_frame_crc crc32_le env.mem (buffer_at d d.consumer).vaddr
            then 0
            else 1);
      }),
)

start-Counted : (d : Dev) → (pfpga_start_streaming d).1.frames_consumed ≡ d.frames_consumed
unfolding pfpga_start_streaming begin_streaming pfpga_init_descriptors pfpga_submit_descriptors
start-Counted d = ground arith

silent_dev : (r : Result (Unit {0}) × Dev) → (silent r).1 ≡ r.1
silent_dev (ok _, d) = refl
silent_dev (err e, d) = refl

command-Counted :
    (env : Env) (c : Command) (d : Dev)
    → keeps_count (some c) ≡ true
    → Counted (by_command env d c) d (run_command env c d).1
unfolding run_command ioctl_get_cfg ioctl_get_stats ioctl_reset_stats ioctl_get_buffer_info
    ioctl_set_fault pfpga_stop_streaming
command-Counted env set_cfg d h = cc
command-Counted env get_cfg d h = omega arith
command-Counted env start d h =
    ground (arith, silent_dev (pfpga_start_streaming d), start-Counted d)
command-Counted env stop d h = omega arith
command-Counted env get_stats d h = omega arith
command-Counted env reset_stats d h = cc
command-Counted env get_buffer_info d h = ground arith
command-Counted env consume d h =
    ground (arith, silent_dev (consume_frame env d), consume-Counted env d)
command-Counted env set_fault d h = ground arith

ioctl-Counted :
    (env : Env) (o : Option Command) (d : Dev)
    → keeps_count o ≡ true
    → Counted (by_ioctl env d o) d (
        let r : Result Reply × Dev = elim o [
          | none ↦ (err enotty, d)
          | some c ↦ run_command env c d
        ] in
        r.1)
ioctl-Counted env none d h = omega arith
ioctl-Counted env (some c) d h = command-Counted env c d h

module _ (crc32_le : ℕ → List ℕ → ℕ) where
  step-Counted :
      (d : Dev) (c : Call)
      → Counting (c ∷ [])
      → Counted (delivered crc32_le d c) d (step crc32_le d c)
  unfolding delivered step pfpga_ioctl pfpga_poll pfpga_mmap pfpga_irq_complete pfpga_irq_error
      pfpga_irq_no_desc
  step-Counted d (ioctl env cmd) h = ioctl-Counted env (decode cmd) d h.0
  step-Counted d (read env count) h = read-Counted crc32_le env count d
  step-Counted d (poll env) h = ground arith
  step-Counted d (mmap answer vma) h = ground arith
  step-Counted d (irq_complete env) h = ground arith
  step-Counted d (irq_error env) h = ground arith
  step-Counted d (irq_no_desc env) h = ground arith
  step-Counted d (complete i control) h = omega arith

Counting-split : (c : Call) (cs : List Call) → Counting (c ∷ cs) → Counting (c ∷ []) × Counting cs
Counting-split (ioctl env cmd) cs h = ((h.0, tt), h.1)
Counting-split (read env count) cs h = (tt, h)
Counting-split (poll env) cs h = (tt, h)
Counting-split (mmap answer vma) cs h = (tt, h)
Counting-split (irq_complete env) cs h = (tt, h)
Counting-split (irq_error env) cs h = (tt, h)
Counting-split (irq_no_desc env) cs h = (tt, h)
Counting-split (complete i control) cs h = (tt, h)

length-prepend : (o : Option ℕ) (rest : List ℕ) → length (prepend o rest) ≡ how_many o + length rest
length-prepend none rest = omega arith
length-prepend (some i) rest = omega arith

module _ (crc32_le : ℕ → List ℕ → ℕ) where
  -- Without SET_CFG and RESET_STATS, the count of consumed frames grows by the number of frames that
  -- the calls hand to userspace, modulo 2 ^ 64: a call that fails is not counted, and none is counted
  -- twice.
  pub frames_consumed_counts :
      (d : Dev) (cs : List Call)
      → Counting cs
      → (run crc32_le d cs).frames_consumed % u64_mod
        ≡ (d.frames_consumed + length (deliveries crc32_le d cs)) % u64_mod
  unfolding run deliveries
  frames_consumed_counts d [] h = ground arith
  frames_consumed_counts d (c ∷ cs) h =
      let split = Counting-split c cs h in
      omega (
        arith,
        step-Counted crc32_le d c split.0,
        frames_consumed_counts (step crc32_le d c) cs split.1,
        length-prepend (delivered crc32_le d c) (deliveries crc32_le (step crc32_le d c) cs),
      )
