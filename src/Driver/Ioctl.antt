-- ===== src/Driver/Ioctl.antt =====
-- pfpga_ioctl: the command codes of driver/phantomfpga_uapi.h, and a handler for each of the nine.
-- The two handlers that other parts share stand in Control and Frames. All of it runs under the
-- mutex `ioctl_lock`.
pub mod Codes
pub mod SetCfg
pub mod GetCfg
use phantom_fpga_final_embed.Base.{
  ℕ, ◌+◌, ◌*◌, ◌/◌, ◌%◌, ◌^◌, bit_and, Bool, true, not, ◌||◌, Option, none, some, ◌==◌, ltb,
  if◌then◌else◌, sub32, u64_mod,
}
use phantom_fpga_final_embed.Regs.{
  Config, Stats, BufferInfo, FaultCfg, frame_size, compl_size, min_desc_count, max_desc_count,
  min_frame_rate, max_frame_rate, reg_stat_frames_tx, reg_stat_frames_drop, reg_stat_desc_compl,
  reg_stat_errors, reg_current_frame, reg_status, reg_fault_inject, reg_fault_rate, fault_all,
}
use phantom_fpga_final_embed.Driver.State.{
  Dev, Env, Result, ok, err, einval, ebusy, efault, enotty, pfpga_read32, pfpga_write32,
}
use phantom_fpga_final_embed.Driver.Setup.{
  pfpga_configure_desc_ring, pfpga_apply_config, pfpga_init_descriptors,
}
use phantom_fpga_final_embed.Driver.Control.{
  pfpga_start_streaming, pfpga_stop_streaming, pfpga_soft_reset,
}
use phantom_fpga_final_embed.Driver.Frames.{consume_frame}
use phantom_fpga_final_embed.Driver.Alloc.{pfpga_alloc_descriptors}

-- PHANTOMFPGA_BUFFER_SIZE
abbrev pub phantomfpga_buffer_size : ℕ
phantomfpga_buffer_size = frame_size + compl_size

pub data Command : Type 0 where
  set_cfg get_cfg start stop get_stats reset_stats get_buffer_info consume set_fault : Command

-- _IOC of linux/ioctl.h: the direction, the magic 'P', the number and the size of the argument.
abbrev pub ioc : ℕ → ℕ → ℕ → ℕ
ioc dir nr size = dir * 2 ^ 30 + size * 2 ^ 16 + b'P' * 2 ^ 8 + nr

-- The codes PHANTOMFPGA_IOCTL_*.
pub ioctl_code : Command → ℕ
ioctl_code set_cfg = ioc 1 1 28
ioctl_code get_cfg = ioc 2 2 28
ioctl_code start = ioc 0 3 0
ioctl_code stop = ioc 0 4 0
ioctl_code get_stats = ioc 2 5 88
ioctl_code reset_stats = ioc 0 6 0
ioctl_code get_buffer_info = ioc 2 7 48
ioctl_code consume = ioc 0 8 0
ioctl_code set_fault = ioc 1 9 24

abbrev pub ioc_maxnr : ℕ
ioc_maxnr = 9

-- The `switch` of pfpga_ioctl.
select : ℕ → Option Command
unfolding ioctl_code
select cmd =
    if cmd == ioctl_code set_cfg
    then some set_cfg
    else if cmd == ioctl_code get_cfg
    then some get_cfg
    else if cmd == ioctl_code start
    then some start
    else if cmd == ioctl_code stop
    then some stop
    else if cmd == ioctl_code get_stats
    then some get_stats
    else if cmd == ioctl_code reset_stats
    then some reset_stats
    else if cmd == ioctl_code get_buffer_info
    then some get_buffer_info
    else if cmd == ioctl_code consume
    then some consume
    else if cmd == ioctl_code set_fault
    then some set_fault
    else none

-- Both tests of the magic and the number, then the `switch`; `none` is -ENOTTY.
unfoldable pub decode : ℕ → Option Command
unfolding select
decode cmd =
    if not (bit_and (cmd / 2 ^ 8) 0xff == b'P')
    then none
    else if ltb ioc_maxnr (bit_and cmd 0xff)
    then none
    else select cmd

-- What an ioctl copies to userspace.
pub data Reply : Type 0 where
  nothing : Reply
  config : Config → Reply
  stats : Stats → Reply
  buffer_info : BufferInfo → Reply

abbrev pub bad_desc_count : ℕ → Bool
bad_desc_count n = ltb n min_desc_count || ltb max_desc_count n || not (bit_and n (sub32 n 1) == 0)

abbrev pub bad_frame_rate : ℕ → Bool
bad_frame_rate r = ltb r min_frame_rate || ltb max_frame_rate r

-- PHANTOMFPGA_IOCTL_SET_CFG, once the resources are there.
unfoldable pub program : Config → Dev → Dev
program cfg d =
    let d = record d {
      frame_rate = cfg.frame_rate;
      irq_coalesce_count = cfg.irq_coalesce_count;
      irq_coalesce_timeout = cfg.irq_coalesce_timeout;
    } in
    let d = pfpga_soft_reset d in
    let d = pfpga_apply_config d in
    let d = pfpga_configure_desc_ring d in
    let d = pfpga_init_descriptors d in record d { configured = true }

-- SET_CFG from the answer of pfpga_alloc_descriptors on.
unfoldable pub finish : Config → Result (Unit {0}) × Dev → Result Reply × Dev
finish cfg (ok _, d) = (ok nothing, program cfg d)
finish cfg (err e, d) = (err e, d)

unfoldable pub apply : Env → Config → Dev → Result Reply × Dev
apply env cfg d =
    if bad_desc_count cfg.desc_count
    then (err einval, d)
    else if bad_frame_rate cfg.frame_rate
    then (err einval, d)
    else finish cfg (pfpga_alloc_descriptors env cfg.desc_count phantomfpga_buffer_size d)

unfoldable pub ioctl_set_cfg : Env → Dev → Result Reply × Dev
unfolding apply
ioctl_set_cfg env d =
    if d.streaming
    then (err ebusy, d)
    else elim env.user_config [ none ↦ (err efault, d) | some cfg ↦ apply env cfg d ]

-- `copy_to_user` of a structure that the handler has filled.
abbrev copy_out : Env → Reply → Dev → Result Reply × Dev
copy_out env r d = (if env.user_writable then ok r else err efault, d)

unfoldable pub ioctl_get_cfg : Env → Dev → Result Reply × Dev
ioctl_get_cfg env d = copy_out env (config cfg) d
  where
    cfg : Config
    cfg = record {
      desc_count = d.desc_count;
      frame_rate = d.frame_rate;
      irq_coalesce_count = d.irq_coalesce_count;
      irq_coalesce_timeout = d.irq_coalesce_timeout;
    }

unfoldable pub ioctl_get_stats : Env → Dev → Result Reply × Dev
ioctl_get_stats env d = copy_out env (stats s) d
  where
    s : Stats
    s = record {
      frames_produced = pfpga_read32 env reg_stat_frames_tx;
      frames_dropped = pfpga_read32 env reg_stat_frames_drop;
      frames_consumed = d.frames_consumed;
      bytes_produced = 0;
      bytes_consumed = d.bytes_consumed;
      desc_completed = pfpga_read32 env reg_stat_desc_compl;
      errors = pfpga_read32 env reg_stat_errors;
      crc_errors = d.crc_errors;
      irq_count = d.irq_count;
      desc_head = 0;
      desc_tail = 0;
      current_frame = pfpga_read32 env reg_current_frame;
      status = pfpga_read32 env reg_status;
    }

unfoldable pub ioctl_reset_stats : Dev → Result Reply × Dev
ioctl_reset_stats d = (
  ok nothing,
  record d { frames_consumed = 0; bytes_consumed = 0; irq_count = 0; crc_errors = 0 },
)

unfoldable pub ioctl_get_buffer_info : Env → Dev → Result Reply × Dev
ioctl_get_buffer_info env d =
    if not d.configured then (err einval, d) else copy_out env (buffer_info info) d
  where
    info : BufferInfo
    info = record {
      buffer_size = d.buffer_size;
      buffer_count = d.desc_count;
      total_size = d.buffer_size * d.desc_count % u64_mod;
      frame_size = frame_size;
    }

unfoldable pub ioctl_set_fault : Env → Dev → Result Reply × Dev
ioctl_set_fault env d = elim env.user_fault [
  | none ↦ (err efault, d)
  | some fault ↦
      let d = pfpga_write32 reg_fault_inject (bit_and fault.inject_flags fault_all) d in
      (ok nothing, pfpga_write32 reg_fault_rate fault.fault_rate d)
]

-- A handler that copies nothing out.
abbrev pub silent : Result (Unit {0}) × Dev → Result Reply × Dev
silent (ok _, d) = (ok nothing, d)
silent (err e, d) = (err e, d)

unfoldable pub run_command : Env → Command → Dev → Result Reply × Dev
run_command env set_cfg d = ioctl_set_cfg env d
run_command env get_cfg d = ioctl_get_cfg env d
run_command env start d = silent (pfpga_start_streaming d)
run_command env stop d = silent (pfpga_stop_streaming env d)
run_command env get_stats d = ioctl_get_stats env d
run_command env reset_stats d = ioctl_reset_stats d
run_command env get_buffer_info d = ioctl_get_buffer_info env d
run_command env consume d = silent (consume_frame env d)
run_command env set_fault d = ioctl_set_fault env d

unfoldable pub pfpga_ioctl : Env → ℕ → Dev → Result Reply × Dev
unfolding decode
pfpga_ioctl env cmd d = elim (decode cmd) [ none ↦ (err enotty, d) | some c ↦ run_command env c d ]
