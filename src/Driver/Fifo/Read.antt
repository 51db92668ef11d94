-- ===== src/Driver/Fifo/Read.antt =====
-- A read takes the first frame of the queue, or finds it empty.
use native.Mathlib.Nat.{mod-lt, mod-add-mod}
use phantom_fpga_final_embed.Base.{
  ℕ, ◌+◌, ◌-◌, ◌%◌, ◌≡◌, ◌≤◌, ◌<◌, sym, ap, ◌∙◌, ◌⊎◌, inl, inr, true, false, not, List, ltb, ◌==◌,
  bit_and, dec_lt, arith,
}
use phantom_fpga_final_embed.Regs.{frame_size, reg_desc_tail, desc_ctrl_completed}
use phantom_fpga_final_embed.Driver.State.{
  Result-cases, Dev, Env, Result, ok, err, eagain, desc_control, buffer_at,
}
use phantom_fpga_final_embed.Driver.Frames.{
  snapshot, has_frame, is_completed, frame_length, load, pfpga_read, copy_frame,
}
use phantom_fpga_final_embed.Driver.Frames.GiveBack.{GivenBack, checked, read_ends, read_gives_back}
use phantom_fpga_final_embed.Driver.Frames.Take.{resources_there}
use phantom_fpga_final_embed.Driver.Inv.{Inv, IsAllocated, Same, Same-IsAllocated}
use phantom_fpga_final_embed.Driver.Frames.{advance}
use phantom_fpga_final_embed.Driver.Setup.{pfpga_submit_descriptors}
use phantom_fpga_final_embed.Driver.Failures.{read_failure}
use phantom_fpga_final_embed.Driver.Inv.Frames.{advance_lem, length-with_control}
use phantom_fpga_final_embed.Driver.Fifo.{Represents, apart, turn, completed_of, has_frame_lem}

module _ (p c n : ℕ) (d e : Dev) (r : Represents p c d) (h : c < p) (g : GivenBack n d e)
    (s : Same d e) where
  open r use {allocated, window, order, completed, head, consumer}

  taken_completed :
      (i : ℕ) → c + 1 ≤ i → i < c + 1 + d.desc_count → is_completed e (i % d.desc_count) ≡ ltb i p
  taken_completed i lo hi = elim (dec_lt i (c + d.desc_count)) [
    | yes lt ↦
        completed_of d e (i % d.desc_count) (i % d.desc_count) (
          g.1 (i % d.desc_count) (λ q.
            apart d.desc_count c i (omega (arith, allocated.count_ge)) (omega arith) lt
              (sym consumer ∙ q)))
        ∙ completed i (omega arith) lt
    | no ge ↦
        let last : i ≡ c + d.desc_count = omega arith in
        let index : i % d.desc_count ≡ d.consumer =
          ap (λ (x : ℕ). x % d.desc_count) last ∙ turn d.desc_count c ∙ sym consumer in
        ap (λ (x : ℕ). not (bit_and x desc_ctrl_completed == 0)) (ap (desc_control e) index ∙ g.0)
        ∙ ground (arith, last, window, allocated.count_ge)
  ]

  taken-Represents : e.consumer ≡ (d.consumer + 1) % d.desc_count → Represents p (c + 1) e
  taken-Represents m = record {
    allocated = Same-IsAllocated s allocated (
        omega (
          arith,
          m,
          mod-lt (d.consumer + 1) {m = d.desc_count} (omega (arith, allocated.count_ge)),
        ));
    consumer =
        m
        ∙ ap (λ (x : ℕ). (x + 1) % d.desc_count) consumer
        ∙ mod-add-mod c d.desc_count 1
        ∙ ap (λ (t : ℕ). (c + 1) % t) (sym s.count);
    head =
        g.2
        ∙ ap (λ (x : ℕ). (x + 1) % d.desc_count) head
        ∙ mod-add-mod (c + (d.desc_count - 1)) d.desc_count 1
        ∙ ap (λ (t : ℕ). t % d.desc_count) swap
        ∙ ap (λ (t : ℕ). (c + 1 + (t - 1)) % t) (sym s.count);
    order = omega arith;
    window = omega (arith, s.count, window);
    completed = rw s.count taken_completed;
  }
    where
      swap : c + (d.desc_count - 1) + 1 ≡ c + 1 + (d.desc_count - 1)
      swap = omega arith

-- A read that finds no frame sees the tail register only.
seen-Represents :
    (p c : ℕ) (env : Env) (d : Dev) → Represents p c d → Represents p c (snapshot env d).dev
unfolding snapshot
seen-Represents p c env d r = record {
  allocated = Same-IsAllocated (ground arith) r.allocated r.allocated.consumer_in;
  consumer = r.consumer;
  head = r.head;
  order = r.order;
  window = r.window;
  completed = r.completed;
}

module _ (crc32_le : ℕ → List ℕ → ℕ) (env : Env) (count : ℕ) (d : Dev) where
  -- A read past its guards.
  read_of_frame :
      IsAllocated d
      → d.streaming ≡ true
      → frame_size ≤ count
      → env.user_writable ≡ true
      → (has_frame (snapshot env d) ≡ false
          → pfpga_read crc32_le env count d ≡ (err eagain, (snapshot env d).dev))
        × (has_frame (snapshot env d) ≡ true
            → (pfpga_read crc32_le env count d).0
              ≡ ok (
                frame_length env (snapshot env d).dev d.consumer,
                load env.mem
                    (buffer_at d d.consumer).vaddr
                    (frame_length env (snapshot env d).dev d.consumer),
              ))
  unfolding pfpga_read copy_frame snapshot
  read_of_frame a on h w = let there = resources_there d a in (λ q. ground arith, λ q. ground arith)

  moved_lem :
      {n : ℕ} {bytes : List ℕ}
      → IsAllocated d
      → (pfpga_read crc32_le env count d).0 ≡ ok (n, bytes)
      → Same d (pfpga_read crc32_le env count d).1
        × ((pfpga_read crc32_le env count d).1.consumer ≡ (d.consumer + 1) % d.desc_count)
  unfolding checked snapshot
  moved_lem {n} a h =
      let (on, e) = read_ends crc32_le env count d h in
      let p = advance_lem d.consumer n (checked crc32_le env d) a.size in
      (ground (arith, e, p, length-with_control d.desc_ring d.consumer 0), ground (arith, e, p))

  -- A read takes frames in the order in which the device has completed them. If the tail register says
  -- how far the device has come, a read of a whole frame returns EAGAIN, and changes nothing in the
  -- queue, exactly when the queue is empty; otherwise it delivers the buffer of the first frame of
  -- the queue and takes that frame off it.
  pub read_takes_first :
      (p c : ℕ)
      → Inv d
      → Represents p c d
      → d.streaming ≡ true
      → env.regs reg_desc_tail ≡ p % d.desc_count
      → frame_size ≤ count
      → env.user_writable ≡ true
      → let r = pfpga_read crc32_le env count d in
        ((p ≡ c) × (r.0 ≡ err eagain) × Represents p c r.1)
        ⊎ ((c < p)
            × ((n : ℕ) × (r.0 ≡ ok (n, load env.mem (buffer_at d (c % d.desc_count)).vaddr n)))
            × Represents p (c + 1) r.1)
  read_takes_first p c v r on t h w =
      let a = r.allocated in
      let (empty, full) = read_of_frame a on h w in
      elim (dec_lt c p) [
        | yes lt ↦
            let out = full (has_frame_lem env p c d r t ∙ ground arith) in
            let (same, moved) = moved_lem a out in
            inr (
              lt,
              (
                frame_length env (snapshot env d).dev d.consumer,
                out
                    ∙ ap
                        (λ (i : ℕ). ok (
                          frame_length env (snapshot env d).dev d.consumer,
                          load env.mem (buffer_at d i).vaddr
                              (frame_length env (snapshot env d).dev d.consumer),
                        ))
                        r.consumer,
              ),
              taken-Represents p c _ d _ r lt (read_gives_back crc32_le env count d v out) same
                  moved,
            )
        | no ge ↦
            let none_left = empty (has_frame_lem env p c d r t ∙ ground arith) in
            inl (
              omega (arith, r.order),
              ap (λ (x : Result (ℕ × List ℕ) × Dev). x.0) none_left,
              rw none_left (seen-Represents p c env d r),
            )
      ]

advance_streaming : (head len : ℕ) (d : Dev) → (advance head len d).streaming ≡ d.streaming
unfolding advance pfpga_submit_descriptors
advance_streaming head len d = ground arith

-- A read leaves the flag `streaming` alone.
pub read_streaming :
    (crc32_le : ℕ → List ℕ → ℕ) (env : Env) (count : ℕ) (d : Dev)
    → (pfpga_read crc32_le env count d).1.streaming ≡ d.streaming
unfolding checked snapshot
read_streaming crc32_le env count d = elim (Result-cases (pfpga_read crc32_le env count d).0) [
  | inl (x, e) ↦ ap (λ (x : Dev). x.streaming) (read_failure crc32_le env count d e)
  | inr (out, e) ↦
      ap (λ (x : Dev). x.streaming) (read_ends crc32_le env count d {n = out.0} {bytes = out.1} e).1
      ∙ advance_streaming d.consumer out.0 (checked crc32_le env d)
]
