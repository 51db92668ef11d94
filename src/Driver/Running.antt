-- ===== src/Driver/Running.antt =====
-- The RUN bit of the device and the flag `streaming` of the driver.
use phantom_fpga_final_embed.Base.{
  ℕ, ◌≡◌, ◌∙◌, sym, inl, inr, Bool, Option, none, some, List, [], ◌∷◌, bit_and_even, if_cases,
  add32, Bool-cases, Option-cases, arith, if◌then◌else◌,
}
use phantom_fpga_final_embed.Regs.{Config, reg_ctrl}
use phantom_fpga_final_embed.Driver.State.{Dev, Env, Result, ok, err, enotty, buffer_at}
use phantom_fpga_final_embed.Driver.Setup.{pfpga_submit_descriptors}
use phantom_fpga_final_embed.Driver.Irq.{pfpga_irq_complete, pfpga_irq_error, pfpga_irq_no_desc}
use phantom_fpga_final_embed.Driver.Control.{runs, pfpga_start_streaming, pfpga_stop_streaming}
use phantom_fpga_final_embed.Driver.Frames.{
  snapshot, advance, frame_length, pfpga_validate_frame_crc, pfpga_read, consume_frame,
}
use phantom_fpga_final_embed.Driver.Poll.{pfpga_poll}
use phantom_fpga_final_embed.Driver.Mmap.{pfpga_mmap}
use phantom_fpga_final_embed.Driver.Alloc.Quiet.{alloc-runs}
use phantom_fpga_final_embed.Driver.Alloc.Resources.{Outcome, alloc-Outcome}
use phantom_fpga_final_embed.Driver.Ioctl.{
  Reply, Command, set_cfg, get_cfg, start, stop, get_stats, reset_stats, get_buffer_info, consume,
  set_fault, decode, run_command, pfpga_ioctl, ioctl_get_cfg, ioctl_get_stats, ioctl_reset_stats,
  ioctl_get_buffer_info, ioctl_set_fault, ioctl_set_cfg, apply, finish, bad_desc_count,
  bad_frame_rate, phantomfpga_buffer_size,
}
use phantom_fpga_final_embed.Driver.System.{
  Call, ioctl, read, poll, mmap, irq_complete, irq_error, irq_no_desc, complete, step, run,
}
use phantom_fpga_final_embed.Driver.Inv.{Inv, configured-IsAllocated}
use phantom_fpga_final_embed.Driver.Inv.Control.{begin_lem, program_lem}
use phantom_fpga_final_embed.Driver.Inv.Step.{step-Inv}

-- The device runs when, and only when, the driver says that it streams.
abbrev pub InStep : Dev → Type 0
InStep d = runs d.io ≡ d.streaming

-- The same flag, and the same bit.
abbrev Unmoved : Dev → Dev → Type 0
Unmoved d e = (runs e.io ≡ runs d.io) × (e.streaming ≡ d.streaming)

advance-Unmoved : (head len : ℕ) (d : Dev) → Unmoved d (advance head len d)
unfolding advance pfpga_submit_descriptors
advance-Unmoved head len d = ground arith

read-Unmoved :
    (crc32_le : ℕ → List ℕ → ℕ) (env : Env) (count : ℕ) (d : Dev)
    → Unmoved d (pfpga_read crc32_le env count d).1
unfolding pfpga_read snapshot
read-Unmoved crc32_le env count d = ground (
  arith,
  advance-Unmoved d.consumer (frame_length env (snapshot env d).dev d.consumer)
      (record ((snapshot env d).dev) {
        crc_errors = add32 d.crc_errors (
            if pfpga_validate_frame_crc crc32_le env.mem (buffer_at d d.consumer).vaddr
            then 0
            else 1);
      }),
)

consume-Unmoved : (env : Env) (d : Dev) → Unmoved d (consume_frame env d).1
unfolding consume_frame snapshot
consume-Unmoved env d = ground (
  arith,
  advance-Unmoved d.consumer (frame_length env (snapshot env d).dev d.consumer)
      (snapshot env d).dev,
)

start-InStep : {d : Dev} → Inv d → InStep d → InStep (pfpga_start_streaming d).1
unfolding pfpga_start_streaming
start-InStep {d} v s = elim (Bool-cases d.configured) [
  | inl conf ↦ ground (arith, begin_lem d (configured-IsAllocated v conf))
  | inr out ↦ ground arith
]

stop-InStep : (env : Env) (d : Dev) → InStep (pfpga_stop_streaming env d).1
unfolding pfpga_stop_streaming
stop-InStep env d = ground (arith, bit_and_even (env.regs reg_ctrl) 0x7fff_ffff)

finish-InStep :
    (cfg : Config) (n : ℕ) (streaming : Bool) (r : Result (Unit {0}) × Dev)
    → Outcome n streaming r
    → InStep r.1
    → InStep (finish cfg r).1
unfolding finish
finish-InStep cfg n streaming (ok _, d) (s, c, inl (_, a, _)) b =
    ground (arith, program_lem cfg d a)
finish-InStep cfg n streaming (ok _, d) (s, c, inr (e, _)) b = cc
finish-InStep cfg n streaming (err x, d) o b = b

apply-InStep : (env : Env) (cfg : Config) (d : Dev) → InStep d → InStep (apply env cfg d).1
unfolding apply
apply-InStep env cfg d b =
    if_cases (λ (r : Result Reply × Dev). InStep r.1) (bad_desc_count cfg.desc_count) (λ _. b)
      λ good.
        if_cases (λ (r : Result Reply × Dev). InStep r.1) (bad_frame_rate cfg.frame_rate) (λ _. b)
          λ _.
            let o = alloc-Outcome env cfg.desc_count d good in
            finish-InStep cfg cfg.desc_count d.streaming _ o
              (alloc-runs env cfg.desc_count phantomfpga_buffer_size d ∙ b ∙ sym (o.0))

command-InStep :
    (env : Env) (c : Command) (d : Dev) → Inv d → InStep d → InStep (run_command env c d).1
unfolding run_command ioctl_set_cfg ioctl_get_cfg ioctl_get_stats ioctl_reset_stats
    ioctl_get_buffer_info ioctl_set_fault
command-InStep env set_cfg d v b = elim (Option-cases env.user_config) [
  | inl missing ↦ ground (arith, missing)
  | inr (cfg, e) ↦ ground (arith, e, apply-InStep env cfg d b)
]
command-InStep env get_cfg d v b = b
command-InStep env start d v b = ground (arith, start-InStep v b)
command-InStep env stop d v b = ground (arith, stop-InStep env d)
command-InStep env get_stats d v b = b
command-InStep env reset_stats d v b = b
command-InStep env get_buffer_info d v b = ground arith
command-InStep env consume d v b = ground (arith, consume-Unmoved env d)
command-InStep env set_fault d v b = ground arith

ioctl-InStep :
    (env : Env) (o : Option Command) (d : Dev)
    → Inv d
    → InStep d
    → InStep (
        let r : Result Reply × Dev = elim o [
          | none ↦ (err enotty, d)
          | some c ↦ run_command env c d
        ] in
        r.1)
ioctl-InStep env none d v b = b
ioctl-InStep env (some c) d v b = command-InStep env c d v b

module _ (crc32_le : ℕ → List ℕ → ℕ) where
  step-InStep : (d : Dev) (c : Call) → Inv d → InStep d → InStep (step crc32_le d c)
  unfolding step pfpga_ioctl pfpga_poll pfpga_mmap pfpga_irq_complete pfpga_irq_error
      pfpga_irq_no_desc
  step-InStep d (ioctl env cmd) v b = ioctl-InStep env (decode cmd) d v b
  step-InStep d (read env count) v b = ground (arith, read-Unmoved crc32_le env count d)
  step-InStep d (poll env) v b = ground arith
  step-InStep d (mmap answer vma) v b = ground arith
  step-InStep d (irq_complete env) v b = ground arith
  step-InStep d (irq_error env) v b = ground arith
  step-InStep d (irq_no_desc env) v b = ground arith
  step-InStep d (complete i control) v b = b

  -- From a state that satisfies the invariant and where the RUN bit that the driver wrote last agrees
  -- with its flag `streaming`, any sequence of calls ends in one where they agree.
  pub run-InStep : (d : Dev) (cs : List Call) → Inv d → InStep d → InStep (run crc32_le d cs)
  unfolding run
  run-InStep d [] v b = b
  run-InStep d (c ∷ cs) v b =
      run-InStep (step crc32_le d c) cs (step-Inv crc32_le d c v) (step-InStep d c v b)
