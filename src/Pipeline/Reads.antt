-- ===== src/Pipeline/Reads.antt =====
-- One iteration of main_loop that reads from the driver.
use phantom_fpga_final_embed.Base.{
  ℕ, ◌+◌, ◌-◌, ◌%◌, ◌≤◌, ◌<◌, ◌≡◌, ◌≢◌, refl, sym, ap, subst, ◌∙◌, inl, inr, Bool, true, false,
  Option, none, some, List, ◌∷◌, ◌==◌, if◌then◌else◌, ltb, length, arith,
}
use phantom_fpga_final_embed.Regs.{frame_size, reg_desc_tail}
use phantom_fpga_final_embed.Driver.State.{Dev, Env, Result, ok, err, eagain}
use phantom_fpga_final_embed.Driver.Frames.{frame_length, snapshot, pfpga_read}
use phantom_fpga_final_embed.Driver.Frames.Take.{read_bounds, consume_as_read}
use phantom_fpga_final_embed.Driver.Frames.Consume.{consume_frame-Consumes}
use phantom_fpga_final_embed.Driver.Fifo.{Represents, apart}
use phantom_fpga_final_embed.Driver.Fifo.Reach.{IsFair, IsQueue, read-IsQueue}
use phantom_fpga_final_embed.App.Loop.{Turn}
use phantom_fpga_final_embed.App.Reach.{Peaceful, frames_of}
use phantom_fpga_final_embed.Pipeline.{turn_with, Calm, frame_in}

-- The buffers stay where they are.
pub record Fixed (s d : Dev) : Type 0 where
  pub buffers : d.buffers ≡ s.buffers
  pub each : d.buffer_size ≡ s.buffer_size
  pub count : d.desc_count ≡ s.desc_count

Fixed-frame_in : (env : Env) (s d : Dev) (i : ℕ) → Fixed s d → frame_in env d i ≡ frame_in env s i
unfolding frame_length
Fixed-frame_in env s d i f = simp (f.buffers, f.each) refl

module _ (crc32_le : ℕ → List ℕ → ℕ) where
  read-frame_in :
      (env : Env) (d : Dev) {n : ℕ} {bytes : List ℕ}
      → (pfpga_read crc32_le env frame_size d).0 ≡ ok (n, bytes)
      → bytes ≡ frame_in env d d.consumer
  unfolding pfpga_read snapshot frame_length
  read-frame_in env d e = ground arith

  pub read-Fixed :
      (env : Env) (p c : ℕ) (s d : Dev)
      → IsQueue p c d
      → env.user_writable ≡ true
      → Fixed s d
      → Fixed s (pfpga_read crc32_le env frame_size d).1
  read-Fixed env p c s d (r, v, on) w f =
      let x = consume_frame-Consumes env d r.allocated on in
      let same = (consume_as_read crc32_le env frame_size d (omega arith) w).1 in
      record {
        buffers = ap (λ x. x.buffers) (sym same) ∙ x.buffers ∙ f.buffers;
        each = ap (λ x. x.buffer_size) (sym same) ∙ x.each ∙ f.each;
        count = ap (λ x. x.desc_count) (sym same) ∙ x.count ∙ f.count;
      }

-- The slot of the next frame is not the head's.
pub not_head :
    (s : Dev) (p c : ℕ) (d : Dev)
    → Represents p c d
    → Fixed s d
    → p < c + (s.desc_count - 1)
    → p % d.desc_count ≢ d.desc_head
not_head s p c d r f room h =
    apart d.desc_count p (c + (d.desc_count - 1)) (omega (arith, r.allocated.count_ge))
      (omega (arith, f.count, room)) (omega (arith, r.order, r.allocated.count_ge)) (h ∙ r.head)

-- An iteration that gets a frame, and one that comes too early.
got_frame :
    (r : Result (ℕ × List ℕ)) (t : Turn) (ts : List Turn) {n : ℕ} {bytes : List ℕ}
    → r ≡ ok (n, bytes)
    → 1 ≤ length bytes
    → frames_of (turn_with r t ∷ ts) ≡ bytes ∷ frames_of ts
got_frame r t ts {n} {bytes} e some_bytes =
    subst (λ x. frames_of (turn_with x t ∷ ts) ≡ bytes ∷ frames_of ts) (sym e) (by_count _ refl)
  where
    by_count :
        (z : Bool)
        → (length bytes == 0) ≡ z
        → frames_of (turn_with (ok (n, bytes)) t ∷ ts) ≡ bytes ∷ frames_of ts
    by_count true h = absurd (ground arith)
    by_count false h =
        ap
          (λ (z : Bool).
            let o : Option (List ℕ) = if z then none else some bytes in
            elim o [ none ↦ frames_of ts | some f ↦ f ∷ frames_of ts ])
          h

got_none :
    (r : Result (ℕ × List ℕ)) (t : Turn) (ts : List Turn)
    → r ≡ err eagain
    → frames_of (turn_with r t ∷ ts) ≡ frames_of ts
got_none r t ts e = subst (λ x. frames_of (turn_with x t ∷ ts) ≡ frames_of ts) (sym e) refl

Calm-Peaceful :
    (r : Result (ℕ × List ℕ)) (t : Turn) {n : ℕ} {bytes : List ℕ}
    → Calm t
    → r ≡ ok (n, bytes)
    → length bytes ≤ frame_size
    → Peaceful (turn_with r t)
Calm-Peaceful r t {n} {bytes} (first, (m, g, k), quiet) e short =
    subst (λ x. Peaceful (turn_with x t)) (sym e)
      (record { poll = refl; read = (first, (m, g, omega (arith, k, short))); signal = quiet })

early-Peaceful :
    (r : Result (ℕ × List ℕ)) (t : Turn) → Calm t → r ≡ err eagain → Peaceful (turn_with r t)
early-Peaceful r t (first, second, quiet) e =
    subst (λ x. Peaceful (turn_with x t)) (sym e)
      (record { poll = refl; read = refl; signal = quiet })

module _ (crc32_le : ℕ → List ℕ → ℕ) where
  -- What a read does to the queue, the iteration and the frames, with one there or none.
  abbrev pub ReadsOne : Bool → Dev → ℕ → ℕ → Env → Turn → Dev → Type 0
  ReadsOne there s p c env t d =
      let r = pfpga_read crc32_le env frame_size d in
      IsQueue p (if there then c + 1 else c) r.1
      × Peaceful (turn_with r.0 t)
      × ((ts : List Turn)
          → frames_of (turn_with r.0 t ∷ ts)
            ≡ (if there then frame_in env s (c % s.desc_count) ∷ frames_of ts else frames_of ts))

  taken_frame :
      (s d : Dev) (p c : ℕ) (env : Env) {n : ℕ} {bytes : List ℕ}
      → IsQueue p c d
      → Fixed s d
      → (pfpga_read crc32_le env frame_size d).0 ≡ ok (n, bytes)
      → bytes ≡ frame_in env s (c % s.desc_count)
  taken_frame s d p c env q f ans =
      read-frame_in crc32_le env d ans
      ∙ Fixed-frame_in env s d d.consumer f
      ∙ ap (λ i. frame_in env s i) (q.0.consumer ∙ ap (λ n. c % n) f.count)

  pub read-ReadsOne :
      (s d : Dev) (p c : ℕ) (env : Env) (t : Turn)
      → IsQueue p c d
      → Fixed s d
      → env.regs reg_desc_tail ≡ p % s.desc_count
      → env.user_writable ≡ true
      → Calm t
      → ReadsOne (ltb c p) s p c env t d
  read-ReadsOne s d p c env t q f tail w calm =
      let r = pfpga_read crc32_le env frame_size d in
      elim (read-IsQueue crc32_le d p c d env frame_size q fair) [
        | inl (e, ans, next) ↦
            let no : false ≡ ltb c p = ground (arith, e) in
            subst (λ z. ReadsOne z s p c env t d) no
              (next, early-Peaceful r.0 t calm ans, λ ts. got_none r.0 t ts ans)
        | inr (lt, (n, ans), next) ↦
            let (least, most, _, len, _) = read_bounds crc32_le env frame_size d ans in
            let yes : true ≡ ltb c p = ground (arith, lt) in
            subst (λ z. ReadsOne z s p c env t d) yes
              (
                next,
                Calm-Peaceful r.0 t calm ans (omega (arith, most, len)),
                λ ts.
                    got_frame r.0 t ts ans (omega (arith, least, len))
                    ∙ ap (λ g. g ∷ frames_of ts) (taken_frame s d p c env q f ans),
              )
      ]
    where
      fair : IsFair env frame_size p d
      fair = record {
        tail = tail ∙ ap (λ n. p % n) (sym f.count);
        large = omega arith;
        writable = w;
      }
