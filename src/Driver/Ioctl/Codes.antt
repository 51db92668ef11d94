-- ===== src/Driver/Ioctl/Codes.antt =====
-- Which ioctl codes the driver knows.
use phantom_fpga_final_embed.Base.{ℕ, ◌≡◌, refl, ◌↔◌, some, arith}
use phantom_fpga_final_embed.Driver.Ioctl.{
  Command, set_cfg, get_cfg, start, stop, get_stats, reset_stats, get_buffer_info, consume,
  set_fault, ioctl_code, select, decode,
}

pub decode-ioctl_code : (c : Command) → decode (ioctl_code c) ≡ some c
unfolding decode select ioctl_code
decode-ioctl_code set_cfg = refl
decode-ioctl_code get_cfg = refl
decode-ioctl_code start = refl
decode-ioctl_code stop = refl
decode-ioctl_code get_stats = refl
decode-ioctl_code reset_stats = refl
decode-ioctl_code get_buffer_info = refl
decode-ioctl_code consume = refl
decode-ioctl_code set_fault = refl

select_only : (cmd : ℕ) (c : Command) → select cmd ≡ some c → cmd ≡ ioctl_code c
unfolding select
select_only cmd c e = ground arith

-- The tests of the magic, of the number and the `switch` together accept the nine codes of
-- phantomfpga_uapi.h, each as its own command, and no other number.
pub decode_iff : (cmd : ℕ) (c : Command) → (decode cmd ≡ some c) ↔ (cmd ≡ ioctl_code c)
unfolding decode
decode_iff cmd c = ground (arith, select_only cmd c, decode-ioctl_code c)
