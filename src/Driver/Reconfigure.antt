-- ===== src/Driver/Reconfigure.antt =====
-- A read beside STOP and SET_CFG. pfpga_read does not take the mutex of the ioctls, so a
-- reconfiguration may come between the region that looks at the ring (`snapshot`) and the rest.
use native.Mathlib.Nat.{mod_self}
use phantom_fpga_final_embed.Base.{
  ℕ, ◌+◌, ◌-◌, ◌%◌, ◌≡◌, ◌≤◌, sym, ap, ◌∙◌, true, false, none, some, List, length, add32, add64,
  if◌then◌else◌, arith,
}
use phantom_fpga_final_embed.Regs.{Config, frame_size}
use phantom_fpga_final_embed.Regs.Ring.{IsRingSize}
use phantom_fpga_final_embed.Driver.State.{Dev, Env, Result, ok, elems, failure, buffer_at}
use phantom_fpga_final_embed.Driver.Control.{pfpga_stop_streaming}
use phantom_fpga_final_embed.Driver.Frames.{
  snapshot, has_frame, copy_frame, frame_length, pfpga_validate_frame_crc, pfpga_read,
}
use phantom_fpga_final_embed.Driver.Frames.Take.{resources_there}
use phantom_fpga_final_embed.Driver.Inv.{Inv, IsAllocated, configured-IsAllocated}
use phantom_fpga_final_embed.Driver.Inv.Frames.{advance_lem}
use phantom_fpga_final_embed.Driver.Ioctl.{Reply, nothing, ioctl_set_cfg}
use phantom_fpga_final_embed.Driver.Ioctl.SetCfg.{set_cfg-Answer}
use phantom_fpga_final_embed.Driver.Ioctl.GetCfg.{configured_lem}

-- STOP and SET_CFG.
abbrev pub reconfigured : Env → Dev → Result Reply × Dev
reconfigured env d = ioctl_set_cfg env (pfpga_stop_streaming env d).1

module _ (crc32_le : ℕ → List ℕ → ℕ) where
  -- The rest of a read, on the device that STOP and SET_CFG have left, with the index of before.
  abbrev pub overtaken : (env1 env2 env3 : Env) → Dev → Result (ℕ × List ℕ) × Dev
  overtaken env1 env2 env3 d =
      copy_frame crc32_le env3
        (record (snapshot env1 d) { dev = (reconfigured env2 (snapshot env1 d).dev).1 })

  -- A read that finds a frame there goes on with `copy_frame`.
  goes_on :
      (env : Env) (count : ℕ) (d : Dev)
      → IsAllocated d
      → d.streaming ≡ true
      → has_frame (snapshot env d) ≡ true
      → frame_size ≤ count
      → pfpga_read crc32_le env count d ≡ copy_frame crc32_le env (snapshot env d)
  unfolding pfpga_read
  goes_on env count d a on there large = ground (arith, resources_there d a)

  -- On any ring that is idle it counts a frame, moves the consumer past the index, and the head on.
  copy_frame_idle :
      (env : Env) (head pending : ℕ) (e : Dev)
      → IsRingSize e.desc_count
      → e.streaming ≡ false
      → e.desc_head ≡ e.desc_count - 1
      → env.user_writable ≡ true
      → let (r, f) = copy_frame crc32_le env (record { head = head; pending = pending; dev = e }) in
        (failure r ≡ none)
        × (f.streaming ≡ false)
        × (f.frames_consumed ≡ add64 e.frames_consumed 1)
        × (f.consumer ≡ (head + 1) % e.desc_count)
        × (f.desc_head ≡ (e.desc_count - 1 + 1) % e.desc_count)
  unfolding copy_frame
  copy_frame_idle env head pending e size idle h w = ground (
    arith,
    advance_lem head (frame_length env e head)
        (record e {
          crc_errors =
              add32 e.crc_errors (
                if pfpga_validate_frame_crc crc32_le env.mem (buffer_at e head).vaddr
                then 0
                else 1);
        })
        size,
  )

  -- A read that has found a frame, and would have gone on to copy it, is overtaken between its two locked
  -- regions by STOP and a SET_CFG for fewer descriptors than its index. It does not notice: the index is
  -- outside the new ring and outside the new array of buffers, which it goes on to use, and if userspace
  -- can be written it succeeds on a device that no longer streams. It counts a frame there, moves the
  -- consumer on from the old index, and the head to 0. (Where C reads outside its arrays, the model has
  -- null entries.)
  pub reconfigured_under_read :
      (env1 env2 env3 : Env) (count : ℕ) (cfg : Config) (d : Dev)
      → Inv d
      → d.streaming ≡ true
      → has_frame (snapshot env1 d) ≡ true
      → frame_size ≤ count
      → env2.user_config ≡ some cfg
      → cfg.desc_count ≤ d.consumer
      → (reconfigured env2 (snapshot env1 d).dev).0 ≡ ok nothing
      → env3.user_writable ≡ true
      → let e = (reconfigured env2 (snapshot env1 d).dev).1 in
        let (r, f) = overtaken env1 env2 env3 d in
        (pfpga_read crc32_le env1 count d ≡ copy_frame crc32_le env1 (snapshot env1 d))
        × (length (elems e.desc_ring) ≤ (snapshot env1 d).head)
        × (length (elems e.buffers) ≤ (snapshot env1 d).head)
        × (failure r ≡ none)
        × (f.streaming ≡ false)
        × (f.frames_consumed ≡ add64 e.frames_consumed 1)
        × (f.consumer ≡ (d.consumer + 1) % cfg.desc_count)
        × (f.desc_head ≡ 0)
  unfolding snapshot
  reconfigured_under_read env1 env2 env3 count cfg d v on there large u h r w =
      let seen : Dev = (pfpga_stop_streaming env2 (snapshot env1 d).dev).1 in
      let c =
        configured_lem env2 cfg seen (ioctl_set_cfg env2 seen) (set_cfg-Answer env2 cfg seen u) r in
      let (fine, idle, counted, consumer, head) =
        copy_frame_idle env3 d.consumer (snapshot env1 d).pending (ioctl_set_cfg env2 seen).1
          c.allocated.size c.idle (c.head ∙ ap (λ n. n - 1) (sym c.count)) w in
      (
        goes_on env1 count d (configured-IsAllocated v (v.running on)) on there large,
        omega (arith, c.allocated.ring_length, c.count, h),
        omega (arith, c.allocated.buffers_length, c.count, h),
        fine,
        idle,
        counted,
        consumer ∙ ap (λ n. (d.consumer + 1) % n) c.count,
        head ∙ full _ c.allocated.count_ge,
      )
    where
      full : (n : ℕ) → 4 ≤ n → (n - 1 + 1) % n ≡ 0
      full n lo =
          let whole : n - 1 + 1 ≡ n = omega arith in ap (λ (m : ℕ). m % n) whole ∙ mod_self n
