-- ===== src/Driver/Frames/GiveBack.antt =====
-- What a read that succeeds does to the ring.
use phantom_fpga_final_embed.Base.{
  ℕ, ◌+◌, ◌%◌, ◌≡◌, ◌≢◌, ◌<◌, refl, true, Option, none, some, List, get_or, length, get_or-set_self,
  get_or-set_ne, add32, add64, if◌then◌else◌, arith,
}
use phantom_fpga_final_embed.Regs.{SgDesc}
use phantom_fpga_final_embed.Driver.State.{
  Dev, Env, ok, elems, null_desc, desc_control, with_control, buffer_at,
}
use phantom_fpga_final_embed.Driver.Frames.{
  snapshot, advance, copy_frame, pfpga_read, pfpga_validate_frame_crc,
}
use phantom_fpga_final_embed.Driver.Inv.{Inv, IsAllocated, Same-IsAllocated, configured-IsAllocated}
use phantom_fpga_final_embed.Driver.Inv.Frames.{advance_lem}

unfoldable pub control_at : Option (List SgDesc) → ℕ → ℕ
control_at ring i = (get_or (elems ring) i null_desc).control

pub with_control_self :
    (ring : Option (List SgDesc)) (i v : ℕ)
    → i < length (elems ring)
    → control_at (with_control ring i v) i ≡ v
unfolding control_at
with_control_self none i v h = absurd (omega arith)
with_control_self (some ring) i v h =
    ground
      (arith, get_or-set_self ring i (record (get_or ring i null_desc) { control = v }) null_desc h)

pub with_control_ne :
    (ring : Option (List SgDesc)) (i j v : ℕ)
    → i ≢ j
    → control_at (with_control ring i v) j ≡ control_at ring j
unfolding control_at
with_control_ne none i j v h = refl
with_control_ne (some ring) i j v h =
    ground
      (arith, get_or-set_ne ring (record (get_or ring i null_desc) { control = v }) null_desc h)

-- What `advance` does over the descriptor of the consumer.
abbrev pub GivenBack : ℕ → Dev → Dev → Type 0
GivenBack n d e =
    (desc_control e d.consumer ≡ 0)
    × ((j : ℕ) → d.consumer ≢ j → desc_control e j ≡ desc_control d j)
    × (e.desc_head ≡ (d.desc_head + 1) % d.desc_count)
    × (e.bytes_consumed ≡ add64 d.bytes_consumed n)

advance-GivenBack : (n : ℕ) (d : Dev) → IsAllocated d → GivenBack n d (advance d.consumer n d)
unfolding control_at
advance-GivenBack n d a =
    let p = advance_lem d.consumer n d a.size in
    (
      ground (
        arith,
        p,
        with_control_self d.desc_ring d.consumer 0 (omega (arith, a.ring_length, a.consumer_in)),
      ),
      λ j ne. ground (arith, p, with_control_ne d.desc_ring d.consumer j 0 ne),
      ground (arith, p),
      ground (arith, p),
    )

module _ (crc32_le : ℕ → List ℕ → ℕ) where
  -- The state in which a read that succeeds calls `advance`.
  unfoldable pub checked : Env → Dev → Dev
  checked env d = record ((snapshot env d).dev) {
    crc_errors =
        add32 d.crc_errors (
          if pfpga_validate_frame_crc crc32_le env.mem (buffer_at d d.consumer).vaddr
          then 0
          else 1);
  }

  pub read_ends :
      (env : Env) (count : ℕ) (d : Dev) {n : ℕ} {bytes : List ℕ}
      → (pfpga_read crc32_le env count d).0 ≡ ok (n, bytes)
      → (d.streaming ≡ true)
        × ((pfpga_read crc32_le env count d).1 ≡ advance d.consumer n (checked env d))
  unfolding pfpga_read copy_frame snapshot checked
  read_ends env count d h = ground arith

  -- A read that succeeds gives its descriptor back: the control word of the consumer's descriptor is
  -- cleared and no other one changes, the head that the device sees goes one further round the ring,
  -- and the bytes delivered are added to the count.
  pub read_gives_back :
      (env : Env) (count : ℕ) (d : Dev) {n : ℕ} {bytes : List ℕ}
      → Inv d
      → (pfpga_read crc32_le env count d).0 ≡ ok (n, bytes)
      → GivenBack n d (pfpga_read crc32_le env count d).1
  unfolding checked snapshot
  read_gives_back env count d {n} v h =
      let (on, e) = read_ends env count d h in
      let a = configured-IsAllocated v (v.running on) in
      rw e (advance-GivenBack n (checked env d) (Same-IsAllocated (ground arith) a a.consumer_in))
