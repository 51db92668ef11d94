-- ===== src/Viewer/Sequence.antt =====
-- What check_sequence makes of frames that are missing.
use phantom_fpga_final_embed.Base.{
  ℕ, ◌+◌, ◌-◌, ◌%◌, ◌≤◌, ◌<◌, ◌≡◌, refl, sym, ap, ◌==◌, ◌∙◌, false, List, [], ◌∷◌, length, u64_mod,
  arith,
}
use phantom_fpga_final_embed.Viewer.{ViewerStats, no_frame_yet}
use phantom_fpga_final_embed.Viewer.Constants
use phantom_fpga_final_embed.Viewer.Methods.{dropped, follow}

-- After frame s of a round of 250, with k frames missing.
dropped_lem :
    (s k : ℕ)
    → s < Constants.count
    → k < Constants.count
    → dropped s ((s + 1 + k) % Constants.count) ≡ k
unfolding dropped
dropped_lem s k p q = ground arith

-- Frames by their number since START: each comes after the one before, with fewer than 250 missing.
abbrev pub Follow : ℕ → List ℕ → Type 0
Follow p [] = Unit
Follow p (q ∷ qs) = (p < q) × (q ≤ p + Constants.count) × Follow q qs

-- check_sequence on good frames with these numbers, which they carry modulo 250.
abbrev pub follow_all : List ℕ → ViewerStats → ViewerStats
follow_all [] s = s
follow_all (q ∷ qs) s = follow_all qs (follow (q % Constants.count) s)

abbrev pub last_of : ℕ → List ℕ → ℕ
last_of p [] = p
last_of p (q ∷ qs) = last_of q qs

follow-next :
    (p q : ℕ) (s : ViewerStats)
    → s.last_sequence ≡ p % Constants.count
    → p < q
    → q ≤ p + Constants.count
    → (follow (q % Constants.count) s).frames_dropped % u64_mod
      ≡ (s.frames_dropped + (q - p - 1)) % u64_mod
unfolding follow
follow-next p q s e lo hi =
    let not_first : (s.last_sequence == no_frame_yet) ≡ false = ground arith in
    let position : (p % Constants.count + 1 + (q - p - 1)) % Constants.count ≡ q % Constants.count =
      omega arith in
    let lost : dropped s.last_sequence (q % Constants.count) ≡ q - p - 1 =
      ap (λ t. dropped t (q % Constants.count)) e
      ∙ ap (dropped (p % Constants.count)) (sym position)
      ∙ dropped_lem (p % Constants.count) (q - p - 1) (omega arith) (omega arith) in
    rw (not_first, lost) (omega arith)

follow-last : (q : ℕ) (s : ViewerStats) → (follow q s).last_sequence ≡ q
unfolding follow
follow-last q s = refl

-- The first frame is not compared with anything.
follow-first :
    (q : ℕ) (s : ViewerStats)
    → s.last_sequence ≡ no_frame_yet
    → (follow q s).frames_dropped % u64_mod ≡ s.frames_dropped % u64_mod
unfolding follow
follow-first q s e = rw e (omega arith)

follow_all-dropped :
    (p : ℕ) (qs : List ℕ) (s : ViewerStats)
    → Follow p qs
    → s.last_sequence ≡ p % Constants.count
    → ((follow_all qs s).frames_dropped + (p + length qs)) % u64_mod
      ≡ (s.frames_dropped + last_of p qs) % u64_mod
follow_all-dropped p [] s h e = omega arith
follow_all-dropped p (q ∷ qs) s (lo, hi, h) e =
    let t = follow (q % Constants.count) s in
    omega (
      arith,
      follow-next p q s e lo hi,
      follow_all-dropped q qs t h (follow-last (q % Constants.count) s),
    )

-- A viewer that has seen no frame yet, and then good frames with growing numbers, fewer than 250
-- missing between one and the next: frames_dropped has grown by the number of frames that are missing
-- between the first and the last, however often the sequence has wrapped round.
pub frames_dropped_counts :
    (p : ℕ) (qs : List ℕ) (s : ViewerStats)
    → Follow p qs
    → s.last_sequence ≡ no_frame_yet
    → ((follow_all (p ∷ qs) s).frames_dropped + (p + length qs)) % u64_mod
      ≡ (s.frames_dropped + last_of p qs) % u64_mod
frames_dropped_counts p qs s h e =
    let t = follow (p % Constants.count) s in
    omega (
      arith,
      follow-first (p % Constants.count) s e,
      follow_all-dropped p qs t h (follow-last (p % Constants.count) s),
    )
