-- ===== src/Driver/Balance.antt =====
-- No resource of the driver leaks, and none is given back twice.
use phantom_fpga_final_embed.Base.{
  ℕ, ◌≡◌, inl, inr, Bool, Option, none, some, List, [], ◌∷◌, if_cases, add32, Bool-cases,
  Option-cases, arith, if◌then◌else◌,
}
use phantom_fpga_final_embed.Regs.{Config}
use phantom_fpga_final_embed.Driver.State.{
  Dev, Env, Result, ok, err, enotty, Resource, set_control, buffer_at,
}
use phantom_fpga_final_embed.Driver.Setup.{pfpga_submit_descriptors}
use phantom_fpga_final_embed.Driver.Irq.{pfpga_irq_complete, pfpga_irq_error, pfpga_irq_no_desc}
use phantom_fpga_final_embed.Driver.Control.{pfpga_start_streaming, pfpga_stop_streaming}
use phantom_fpga_final_embed.Driver.Frames.{
  snapshot, advance, frame_length, pfpga_validate_frame_crc, pfpga_read, consume_frame,
}
use phantom_fpga_final_embed.Driver.Poll.{pfpga_poll}
use phantom_fpga_final_embed.Driver.Mmap.{pfpga_mmap}
use phantom_fpga_final_embed.Driver.Alloc.Resources.{Outcome, alloc-Outcome}
use phantom_fpga_final_embed.Driver.Alloc.Balance.{IsPooled, alloc-Balanced}
use phantom_fpga_final_embed.Driver.Ioctl.{
  Reply, Command, set_cfg, get_cfg, start, stop, get_stats, reset_stats, get_buffer_info, consume,
  set_fault, decode, run_command, pfpga_ioctl, ioctl_get_cfg, ioctl_get_stats, ioctl_reset_stats,
  ioctl_get_buffer_info, ioctl_set_fault, ioctl_set_cfg, apply, finish, program, bad_desc_count,
  bad_frame_rate, phantomfpga_buffer_size,
}
use phantom_fpga_final_embed.Driver.System.{
  Call, ioctl, read, poll, mmap, irq_complete, irq_error, irq_no_desc, complete, step, run,
}
use phantom_fpga_final_embed.Driver.Inv.{Inv, IsAllocated, configured-IsAllocated}
use phantom_fpga_final_embed.Driver.Inv.Control.{begin_lem, program_lem}
use phantom_fpga_final_embed.Driver.Inv.Step.{step-Inv}
use phantom_fpga_final_embed.Driver.Ledger.{memory, fixture, in_hand, held, Balanced}

pub Inv-IsPooled : {d : Dev} → Inv d → IsPooled d
Inv-IsPooled {d} v h = elim v.resources [
  | inl e ↦ ground (arith, e)
  | inr a ↦ ground (arith, a.has_pool)
]

-- A state with the same holdings and a ledger that comes to the same.
abbrev Kept : Dev → Dev → Type 0
Kept d e =
    (held e ≡ held d)
    × (in_hand memory e.io ≡ in_hand memory d.io)
    × (in_hand fixture e.io ≡ in_hand fixture d.io)

held-set_control : (d : Dev) (i v : ℕ) → held (set_control d i v) ≡ held d
held-set_control d i v = ground arith

advance-Kept : (head len : ℕ) (d : Dev) → Kept d (advance head len d)
unfolding advance pfpga_submit_descriptors
advance-Kept head len d = ground arith

read-Kept :
    (crc32_le : ℕ → List ℕ → ℕ) (env : Env) (count : ℕ) (d : Dev)
    → Kept d (pfpga_read crc32_le env count d).1
unfolding pfpga_read snapshot
read-Kept crc32_le env count d = ground (
  arith,
  advance-Kept d.consumer (frame_length env (snapshot env d).dev d.consumer)
      (record ((snapshot env d).dev) {
        crc_errors = add32 d.crc_errors (
            if pfpga_validate_frame_crc crc32_le env.mem (buffer_at d d.consumer).vaddr
            then 0
            else 1);
      }),
)

consume-Kept : (env : Env) (d : Dev) → Kept d (consume_frame env d).1
unfolding consume_frame snapshot
consume-Kept env d = ground (
  arith,
  advance-Kept d.consumer (frame_length env (snapshot env d).dev d.consumer) (snapshot env d).dev,
)

start-Kept : {d : Dev} → Inv d → Kept d (pfpga_start_streaming d).1
unfolding pfpga_start_streaming
start-Kept {d} v = elim (Bool-cases d.configured) [
  | inl conf ↦ ground (arith, begin_lem d (configured-IsAllocated v conf))
  | inr out ↦ ground arith
]

program-Kept : (cfg : Config) (d : Dev) → IsAllocated d → Kept d (program cfg d)
program-Kept cfg d a = ground (arith, program_lem cfg d a)

module _ (fixtures : List Resource) where
  finish-Balanced :
      (cfg : Config) (n : ℕ) (streaming : Bool) (r : Result (Unit {0}) × Dev)
      → Outcome n streaming r
      → Balanced fixtures r.1
      → Balanced fixtures (finish cfg r).1
  unfolding finish
  finish-Balanced cfg n streaming (ok _, d) (s, c, inl (_, a, _)) b =
      ground (arith, program-Kept cfg d a)
  finish-Balanced cfg n streaming (ok _, d) (s, c, inr (e, _)) b = cc
  finish-Balanced cfg n streaming (err x, d) o b = b

  apply-Balanced :
      (env : Env) (cfg : Config) (d : Dev)
      → Inv d
      → Balanced fixtures d
      → Balanced fixtures (apply env cfg d).1
  unfolding apply
  apply-Balanced env cfg d v b =
      if_cases (λ (r : Result Reply × Dev). Balanced fixtures r.1) (bad_desc_count cfg.desc_count)
        (λ _. b)
        λ good.
          if_cases (λ (r : Result Reply × Dev). Balanced fixtures r.1)
            (bad_frame_rate cfg.frame_rate) (λ _. b)
            λ _.
              finish-Balanced cfg cfg.desc_count d.streaming _
                (alloc-Outcome env cfg.desc_count d good)
                (alloc-Balanced fixtures env cfg.desc_count phantomfpga_buffer_size d
                  (Inv-IsPooled v) b)

  command-Balanced :
      (env : Env) (c : Command) (d : Dev)
      → Inv d
      → Balanced fixtures d
      → Balanced fixtures (run_command env c d).1
  unfolding run_command ioctl_set_cfg ioctl_get_cfg ioctl_get_stats ioctl_reset_stats
      ioctl_get_buffer_info ioctl_set_fault pfpga_stop_streaming
  command-Balanced env set_cfg d v b = elim (Option-cases env.user_config) [
    | inl missing ↦ ground (arith, missing)
    | inr (cfg, e) ↦ ground (arith, e, apply-Balanced env cfg d v b)
  ]
  command-Balanced env get_cfg d v b = b
  command-Balanced env start d v b = ground (arith, start-Kept v)
  command-Balanced env stop d v b = ground arith
  command-Balanced env get_stats d v b = b
  command-Balanced env reset_stats d v b = b
  command-Balanced env get_buffer_info d v b = ground arith
  command-Balanced env consume d v b = ground (arith, consume-Kept env d)
  command-Balanced env set_fault d v b = ground arith

  ioctl-Balanced :
      (env : Env) (o : Option Command) (d : Dev)
      → Inv d
      → Balanced fixtures d
      → Balanced fixtures (
          let r : Result Reply × Dev = elim o [
            | none ↦ (err enotty, d)
            | some c ↦ run_command env c d
          ] in
          r.1)
  ioctl-Balanced env none d v b = b
  ioctl-Balanced env (some c) d v b = command-Balanced env c d v b

  module _ (crc32_le : ℕ → List ℕ → ℕ) where
    step-Balanced :
        (d : Dev) (c : Call) → Inv d → Balanced fixtures d → Balanced fixtures (step crc32_le d c)
    unfolding step pfpga_ioctl pfpga_poll pfpga_mmap pfpga_irq_complete pfpga_irq_error
        pfpga_irq_no_desc
    step-Balanced d (ioctl env cmd) v b = ioctl-Balanced env (decode cmd) d v b
    step-Balanced d (read env count) v b = ground (arith, read-Kept crc32_le env count d)
    step-Balanced d (poll env) v b = ground arith
    step-Balanced d (mmap answer vma) v b = ground arith
    step-Balanced d (irq_complete env) v b = ground arith
    step-Balanced d (irq_error env) v b = ground arith
    step-Balanced d (irq_no_desc env) v b = ground arith
    step-Balanced d (complete i control) v b = ground (arith, held-set_control d i control)

    -- From a balanced state, any sequence of calls ends in one: the DMA blocks and the array that the
    -- driver has obtained and not given back are those that its fields record, and it never gives back
    -- what it does not have.
    pub run-Balanced :
        (d : Dev) (cs : List Call)
        → Inv d
        → Balanced fixtures d
        → Balanced fixtures (run crc32_le d cs)
    unfolding run
    run-Balanced d [] v b = b
    run-Balanced d (c ∷ cs) v b =
        run-Balanced (step crc32_le d c) cs (step-Inv crc32_le d c v) (step-Balanced d c v b)
