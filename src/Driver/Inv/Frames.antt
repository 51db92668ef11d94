-- ===== src/Driver/Inv/Frames.antt =====
-- Taking a frame, by read or by CONSUME_FRAME, keeps the invariant of the device.
use native.Mathlib.Nat.{mod-lt}
use phantom_fpga_final_embed.Base.{
  ℕ, ◌+◌, ◌%◌, ◌≡◌, refl, ap, inr, true, none, some, Option, List, ◌∷◌, length, length-set, not,
  ltb, if_cases, add64, arith,
}
use phantom_fpga_final_embed.Regs.{SgDesc, reg_desc_head, frame_size}
use phantom_fpga_final_embed.Regs.Ring.{IsRingSize, add_mask}
use phantom_fpga_final_embed.Driver.State.{
  Dev, Env, iowrite32, wmb, elems, set_control, with_control,
}
use phantom_fpga_final_embed.Driver.Frames.{
  snapshot, has_frame, no_resources, advance, copy_frame, pfpga_read, consume_frame,
}
use phantom_fpga_final_embed.Driver.Inv.{
  Inv, Leaves, Same-IsAllocated, Alike-Inv, submit_lem, configured-IsAllocated,
}

pub length-with_control :
    (ring : Option (List SgDesc)) (i v : ℕ)
    → length (elems (with_control ring i v)) ≡ length (elems ring)
length-with_control none i v = refl
length-with_control (some ring) i v = length-set ring i _

-- The state after `advance`, with the masks as remainders.
pub advance_lem :
    (head len : ℕ) (d : Dev)
    → IsRingSize d.desc_count
    → advance head len d ≡ record d {
      desc_ring = with_control d.desc_ring head 0;
      desc_head = (d.desc_head + 1) % d.desc_count;
      consumer = (head + 1) % d.desc_count;
      frames_consumed = add64 d.frames_consumed 1;
      bytes_consumed = add64 d.bytes_consumed len;
      io = iowrite32 reg_desc_head ((d.desc_head + 1) % d.desc_count) ∷ wmb ∷ d.io;
    }
unfolding advance
advance_lem head len d r = ground (arith, add_mask r head 1, submit_lem moved 1 r (omega arith))
  where
    moved : Dev
    moved = record (set_control d head 0) {
      consumer = (head + 1) % d.desc_count;
      frames_consumed = add64 d.frames_consumed 1;
      bytes_consumed = add64 d.bytes_consumed len;
    }

pub advance-Inv : {d : Dev} (len : ℕ) → Inv d → d.configured ≡ true → Inv (advance d.consumer len d)
advance-Inv {d} len v conf =
    let a = configured-IsAllocated v conf in
    rw (advance_lem d.consumer len d a.size) (record {
      resources = inr (
          Same-IsAllocated (ground (arith, length-with_control d.desc_ring d.consumer 0)) a
            (mod-lt (d.consumer + 1) (omega (arith, a.count_ge))));
      one_free = λ _. ap (λ (t : ℕ). (t + 1) % d.desc_count) (v.one_free conf);
      running = λ _. conf;
    })

-- The first locked region changes the shadow of the tail only.
pub snapshot-Inv : {d : Dev} (env : Env) → Inv d → Inv (snapshot env d).dev
unfolding snapshot
snapshot-Inv env v = Alike-Inv (ground arith) v v.running

module _ (crc32_le : ℕ → List ℕ → ℕ) where
  copy_frame-Inv :
      {d : Dev} (env : Env)
      → Inv d
      → d.configured ≡ true
      → Leaves (copy_frame crc32_le env (snapshot env d))
  unfolding copy_frame snapshot
  copy_frame-Inv {d} env v conf =
      if_cases Leaves (not env.user_writable) (λ _. snapshot-Inv env v)
        λ _. advance-Inv _ (Alike-Inv (ground arith) v v.running) conf

  pub read-Inv :
      {d : Dev} (env : Env) (count : ℕ) → Inv d → Leaves (pfpga_read crc32_le env count d)
  unfolding pfpga_read
  read-Inv {d} env count v =
      if_cases Leaves (not d.streaming) (λ _. v)
        λ on.
          if_cases Leaves (no_resources d) (λ _. v)
            λ _.
              if_cases Leaves (ltb count frame_size) (λ _. v)
                λ _.
                  if_cases Leaves (has_frame (snapshot env d))
                    (λ _. copy_frame-Inv env v (v.running (ground arith))) λ _. snapshot-Inv env v

pub consume-Inv : {d : Dev} (env : Env) → Inv d → Leaves (consume_frame env d)
unfolding consume_frame snapshot
consume-Inv {d} env v =
    if_cases Leaves (not d.streaming) (λ _. v)
      λ on.
        if_cases Leaves (no_resources d) (λ _. v)
          λ _.
            if_cases Leaves (has_frame (snapshot env d))
              (λ _. advance-Inv _ (snapshot-Inv env v) (v.running (ground arith)))
              λ _. snapshot-Inv env v
