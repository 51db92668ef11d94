-- ===== src/Driver/Poll.antt =====
-- pfpga_poll: which events the device file reports.
use phantom_fpga_final_embed.Base.{
  ℕ, bit_and, bit_or, not, ◌&&◌, ◌||◌, ◌==◌, ◌!=◌, if◌then◌else◌, is_none, sub32,
}
use phantom_fpga_final_embed.Regs.{reg_desc_tail}
use phantom_fpga_final_embed.Driver.State.{Dev, Env, pfpga_read32}
use phantom_fpga_final_embed.Driver.Frames.{is_completed}

abbrev pub epollin : ℕ
epollin = 0x001

abbrev pub epollhup : ℕ
epollhup = 0x010

abbrev pub epollrdnorm : ℕ
epollrdnorm = 0x040

unfoldable pub pfpga_poll : Env → Dev → ℕ × Dev
pfpga_poll env d =
    if not d.streaming
    then (epollhup, d)
    else if d.desc_count == 0
    then (0, d)
    else let head = d.consumer in
      let tail = bit_and (pfpga_read32 env reg_desc_tail) (sub32 d.desc_count 1) in
      let ready = head != tail || not (is_none d.desc_ring) && is_completed d head in
      (if ready then bit_or epollin epollrdnorm else 0, record d { shadow_tail = tail })
