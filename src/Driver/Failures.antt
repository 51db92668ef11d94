-- ===== src/Driver/Failures.antt =====
-- A call that fails changes nothing.
use phantom_fpga_final_embed.Base.{
  ℕ, ◌≡◌, ◌≢◌, refl, inl, inr, Option, none, some, List, Option-cases, arith,
}
use phantom_fpga_final_embed.Driver.State.{Dev, Env, Errno, Result, err, enomem, enotty}
use phantom_fpga_final_embed.Driver.Control.{pfpga_start_streaming, pfpga_stop_streaming}
use phantom_fpga_final_embed.Driver.Frames.{snapshot, copy_frame, pfpga_read, consume_frame}
use phantom_fpga_final_embed.Driver.Ioctl.{
  Reply, Command, set_cfg, get_cfg, start, stop, get_stats, reset_stats, get_buffer_info, consume,
  set_fault, decode, run_command, pfpga_ioctl, ioctl_get_cfg, ioctl_get_stats, ioctl_reset_stats,
  ioctl_get_buffer_info, ioctl_set_fault, ioctl_set_cfg,
}
use phantom_fpga_final_embed.Driver.Ioctl.SetCfg.{set_cfg-Answer}

-- The state is as it was, but for the copy of the tail register.
abbrev pub Unchanged : Dev → Dev → Type 0
Unchanged d e = e ≡ record d { shadow_tail = e.shadow_tail }

-- A read that fails, for any reason, leaves the device as it was, but for the copy of the tail
-- register.
pub read_failure :
    (crc32_le : ℕ → List ℕ → ℕ) (env : Env) (count : ℕ) (d : Dev) {x : Errno}
    → (pfpga_read crc32_le env count d).0 ≡ err x
    → Unchanged d (pfpga_read crc32_le env count d).1
unfolding pfpga_read copy_frame snapshot
read_failure crc32_le env count d e = ground arith

command_failure :
    (env : Env) (c : Command) (d : Dev) {x : Errno}
    → (run_command env c d).0 ≡ err x
    → x ≢ enomem
    → Unchanged d (run_command env c d).1
unfolding run_command ioctl_set_cfg ioctl_get_cfg ioctl_get_stats ioctl_reset_stats
    ioctl_get_buffer_info ioctl_set_fault pfpga_start_streaming pfpga_stop_streaming consume_frame
    snapshot
command_failure env set_cfg d e n = elim (Option-cases env.user_config) [
  | inl missing ↦ ground (arith, missing)
  | inr (cfg, q) ↦ ground (arith, set_cfg-Answer env cfg d q)
]
command_failure env get_cfg d e n = ground arith
command_failure env start d e n = ground arith
command_failure env stop d e n = ground arith
command_failure env get_stats d e n = ground arith
command_failure env reset_stats d e n = ground arith
command_failure env get_buffer_info d e n = ground arith
command_failure env consume d e n = ground arith
command_failure env set_fault d e n = ground arith

-- An ioctl with any code and any argument that fails, with another error than ENOMEM, leaves the
-- device as it was, registers and resources included; only the copy of the tail register may be new.
pub ioctl_failure :
    (env : Env) (cmd : ℕ) (d : Dev) (x : Errno)
    → (pfpga_ioctl env cmd d).0 ≡ err x
    → x ≢ enomem
    → Unchanged d (pfpga_ioctl env cmd d).1
unfolding pfpga_ioctl
ioctl_failure env cmd d x e n = by_code (decode cmd) e
  where
    answer : Option Command → Result Reply × Dev
    answer o = elim o [ none ↦ (err enotty, d) | some c ↦ run_command env c d ]

    by_code : (o : Option Command) → (answer o).0 ≡ err x → Unchanged d (answer o).1
    by_code none q = refl
    by_code (some c) q = command_failure env c d q n
