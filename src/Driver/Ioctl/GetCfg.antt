-- ===== src/Driver/Ioctl/GetCfg.antt =====
-- GET_CFG and GET_BUFFER_INFO after SET_CFG.
use phantom_fpga_final_embed.Base.{◌≡◌, inl, inr, true, some, arith}
use phantom_fpga_final_embed.Regs.{Config, frame_size}
use phantom_fpga_final_embed.Driver.State.{Dev, Env, Result, ok}
use phantom_fpga_final_embed.Driver.Ioctl.{
  Reply, nothing, config, buffer_info, phantomfpga_buffer_size, ioctl_set_cfg, ioctl_get_cfg,
  ioctl_get_buffer_info,
}
use phantom_fpga_final_embed.Driver.Ioctl.SetCfg.{IsConfigured, Answer, set_cfg-Answer}

pub configured_lem :
    (env : Env) (cfg : Config) (d : Dev) (r : Result Reply × Dev)
    → Answer env cfg d r
    → r.0 ≡ ok nothing
    → IsConfigured cfg r.1
configured_lem env cfg d (r, e) (inl (_, x, _)) h = cc
configured_lem env cfg d (r, e) (inr (inl (_, _, x, _))) h = cc
configured_lem env cfg d (r, e) (inr (inr (inl (_, _, _, x, _)))) h = cc
configured_lem env cfg d (r, e) (inr (inr (inr (_, _, _, _, c)))) h = c

-- After a SET_CFG that succeeds, GET_CFG gives the same configuration back, and GET_BUFFER_INFO
-- reports as many buffers as descriptors, each large enough for a frame, and the size of them all,
-- which is that of the pool to be mapped.
pub get-set_cfg :
    (env : Env) (cfg : Config) (d : Dev)
    → env.user_config ≡ some cfg
    → env.user_writable ≡ true
    → (ioctl_set_cfg env d).0 ≡ ok nothing
    → let e = (ioctl_set_cfg env d).1 in
      ((ioctl_get_cfg env e).0 ≡ ok (config cfg))
      × ((ioctl_get_buffer_info env e).0
          ≡ ok (
              buffer_info (record {
                buffer_size = phantomfpga_buffer_size;
                buffer_count = cfg.desc_count;
                total_size = e.buffer_pool_size;
                frame_size = frame_size;
              })))
unfolding ioctl_get_cfg ioctl_get_buffer_info
get-set_cfg env cfg d u w h =
    let c = configured_lem env cfg d (ioctl_set_cfg env d) (set_cfg-Answer env cfg d u) h in
    ground (arith, c, c.allocated, w)
