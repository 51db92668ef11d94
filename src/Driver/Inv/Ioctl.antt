-- ===== src/Driver/Inv/Ioctl.antt =====
-- Every ioctl command keeps the invariant of the device.
use phantom_fpga_final_embed.Base.{
  ℕ, ◌≡◌, refl, inl, inr, Bool, false, none, some, not, if_cases, Option, ◌∙◌, arith,
}
use phantom_fpga_final_embed.Regs.{Config, FaultCfg}
use phantom_fpga_final_embed.Driver.State.{Dev, Env, Result, ok, err, efault, enotty}
use phantom_fpga_final_embed.Driver.Alloc.Resources.{Outcome, alloc-Outcome}
use phantom_fpga_final_embed.Driver.Ioctl.{
  Command, Reply, set_cfg, get_cfg, start, stop, get_stats, reset_stats, get_buffer_info, consume,
  set_fault, bad_desc_count, bad_frame_rate, program, finish, decode, apply, ioctl_set_cfg,
  ioctl_get_buffer_info, ioctl_get_stats, ioctl_get_cfg, ioctl_reset_stats, ioctl_set_fault,
  run_command, silent, pfpga_ioctl,
}
use phantom_fpga_final_embed.Driver.Inv.{IsEmpty, IsAllocated, Inv, Leaves, Alike-Inv}
use phantom_fpga_final_embed.Driver.Inv.Control.{
  length-fresh_ring, fresh-Inv, program_lem, start-Inv, stop-Inv,
}
use phantom_fpga_final_embed.Driver.Inv.Frames.{consume-Inv}

pub program-Inv : {d : Dev} (cfg : Config) → IsAllocated d → Inv (program cfg d)
program-Inv {d} cfg a =
    rw (program_lem cfg d a) (fresh-Inv d _ a (ground (arith, length-fresh_ring d)) refl refl refl)

-- An idle device without its resources is in a valid state.
pub empty-Inv : {d : Dev} → IsEmpty d → d.streaming ≡ false → Inv d
empty-Inv e idle = record { resources = inl e; one_free = λ c. cc; running = λ s. cc }

finish-Inv :
    (cfg : Config) (n : ℕ) {streaming : Bool} (r : Result (Unit {0}) × Dev)
    → streaming ≡ false
    → Outcome n streaming r
    → Leaves (finish cfg r)
unfolding finish
finish-Inv cfg n (ok _, d) idle (s, c, inl (_, a, _)) = program-Inv cfg a
finish-Inv cfg n (ok _, d) idle (s, c, inr (e, _)) = cc
finish-Inv cfg n (err x, d) idle (s, c, inl (e, _, _)) = cc
finish-Inv cfg n (err x, d) idle (s, c, inr (_, e)) = empty-Inv e (s ∙ idle)

apply-Inv :
    {d : Dev} (env : Env) (cfg : Config) → Inv d → d.streaming ≡ false → Leaves (apply env cfg d)
unfolding apply
apply-Inv {d} env cfg v idle =
    if_cases Leaves (bad_desc_count cfg.desc_count) (λ _. v)
      λ good.
        if_cases Leaves (bad_frame_rate cfg.frame_rate) (λ _. v)
          λ _. finish-Inv cfg cfg.desc_count _ idle (alloc-Outcome env cfg.desc_count d good)

set_cfg-Inv : {d : Dev} (env : Env) → Inv d → Leaves (ioctl_set_cfg env d)
unfolding ioctl_set_cfg
set_cfg-Inv {d} env v = if_cases Leaves d.streaming (λ _. v) λ idle. chosen env.user_config idle
  where
    chosen :
        (o : Option Config)
        → d.streaming ≡ false
        → Inv (
            let r : Result Reply × Dev = elim o [
              | none ↦ (err efault, d)
              | some cfg ↦ apply env cfg d
            ] in
            r.1)
    chosen none idle = v
    chosen (some cfg) idle = apply-Inv env cfg v idle

silent-Inv : (r : Result (Unit {0}) × Dev) → Leaves r → Leaves (silent r)
silent-Inv (ok _, d) v = v
silent-Inv (err e, d) v = v

set_fault-Inv :
    {d : Dev} (env : Env) (o : Option FaultCfg)
    → Inv d
    → env.user_fault ≡ o
    → Leaves (ioctl_set_fault env d)
unfolding ioctl_set_fault
set_fault-Inv env none v e = rw (e, ioctl_set_fault) v
set_fault-Inv env (some f) v e = rw (e, ioctl_set_fault) (Alike-Inv (ground arith) v v.running)

run_command-Inv : {d : Dev} (env : Env) (c : Command) → Inv d → Leaves (run_command env c d)
unfolding run_command ioctl_get_cfg ioctl_get_stats ioctl_reset_stats ioctl_get_buffer_info
run_command-Inv env set_cfg v = set_cfg-Inv env v
run_command-Inv env get_cfg v = v
run_command-Inv env start v = silent-Inv _ (start-Inv v)
run_command-Inv env stop v = silent-Inv _ (stop-Inv env v)
run_command-Inv env get_stats v = v
run_command-Inv env reset_stats v = Alike-Inv (ground arith) v v.running
run_command-Inv {d} env get_buffer_info v = if_cases Leaves (not d.configured) (λ _. v) (λ _. v)
run_command-Inv env consume v = silent-Inv _ (consume-Inv env v)
run_command-Inv env set_fault v = set_fault-Inv env env.user_fault v refl

-- Any command code, known or not.
pub ioctl-Inv : {d : Dev} (env : Env) (cmd : ℕ) → Inv d → Leaves (pfpga_ioctl env cmd d)
unfolding pfpga_ioctl
ioctl-Inv {d} env cmd v = chosen (decode cmd)
  where
    chosen :
        (o : Option Command)
        → Inv (
            let r : Result Reply × Dev = elim o [
              | none ↦ (err enotty, d)
              | some c ↦ run_command env c d
            ] in
            r.1)
    chosen none = v
    chosen (some c) = run_command-Inv env c v
