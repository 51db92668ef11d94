-- ===== src/Viewer/Stream.antt =====
-- What receive_frame does with a stream that nothing disturbs: no signal comes.
use phantom_fpga_final_embed.Base.{
  ℕ, zero, suc, ◌+◌, ◌-◌, ◌≤◌, ◌≡◌, refl, Bool, true, false, not, List, [], ◌∷◌, if_cases, leb,
  length, drop, arith, length-drop, length-++,
}
use phantom_fpga_final_embed.Viewer.Client.{
  Arrival, arrived, interrupted, failed, ReadExact, read_exact, leave,
}
use phantom_fpga_final_embed.Viewer.Client.Exact.{incoming}
use phantom_fpga_final_embed.Viewer.Loop.{volume}

abbrev pub Calm : List Arrival → Type 0
Calm [] = Unit
Calm (arrived stop _ ∷ s) = (stop ≡ false) × Calm s
Calm (interrupted stop ∷ s) = (stop ≡ false) × Calm s
Calm (failed ∷ s) = Calm s

leave-Calm : (bs : List ℕ) (s : List Arrival) → Calm s → Calm (leave bs s)
leave-Calm [] s h = h
leave-Calm (b ∷ bs) s h = (refl, h)

abbrev StaysCalm : ReadExact → Type 0
StaysCalm r = (r.running ≡ true) × Calm r.socket

pub read_exact-StaysCalm : (n : ℕ) (s : List Arrival) → Calm s → StaysCalm (read_exact n true s)
unfolding read_exact
read_exact-StaysCalm zero s h = (refl, h)
read_exact-StaysCalm (suc n) [] h = (refl, h)
read_exact-StaysCalm (suc n) (failed ∷ s) h = (refl, h)
read_exact-StaysCalm (suc n) (interrupted true ∷ s) (e, h) = ground arith
read_exact-StaysCalm (suc n) (interrupted false ∷ s) (e, h) = read_exact-StaysCalm (suc n) s h
read_exact-StaysCalm (suc n) (arrived true bs ∷ s) (e, h) = ground arith
read_exact-StaysCalm (suc n) (arrived false [] ∷ s) (e, h) = (refl, h)
read_exact-StaysCalm (suc n) (arrived false (b ∷ bs) ∷ s) (e, h) =
    if_cases StaysCalm (leb (suc n) (suc (length bs))) (λ _. (refl, leave-Calm (drop n bs) s h))
      (λ _. read_exact-StaysCalm (suc n - suc (length bs)) s h)

volume-leave : (bs : List ℕ) (s : List Arrival) → volume (leave bs s) ≡ length bs + volume s
volume-leave [] s = omega arith
volume-leave (b ∷ bs) s = refl

-- A complete read has used up as many bytes.
abbrev Spent : ℕ → ℕ → ReadExact → Type 0
Spent n total r = r.complete ≡ true → volume r.socket + n ≤ total

pub read_exact-volume :
    (n : ℕ) (running : Bool) (s : List Arrival)
    → (read_exact n running s).complete ≡ true
    → volume (read_exact n running s).socket + n ≤ volume s
unfolding read_exact
read_exact-volume zero running s c = omega arith
read_exact-volume (suc n) false s c = ground arith
read_exact-volume (suc n) true [] c = ground arith
read_exact-volume (suc n) true (failed ∷ s) c = ground arith
read_exact-volume (suc n) true (interrupted stop ∷ s) c = read_exact-volume (suc n) (not stop) s c
read_exact-volume (suc n) true (arrived stop [] ∷ s) c = ground arith
read_exact-volume (suc n) true (arrived stop (b ∷ bs) ∷ s) c =
    let got = b ∷ bs in
    if_cases (Spent (suc n) (length got + volume s)) (leb (suc n) (length got))
      (λ h _. omega (arith, volume-leave (drop n bs) s, length-drop n bs, ltb_fits h))
      (λ h d. ground (arith, read_exact-volume (suc n - length got) (not stop) s d)) c
  where
    ltb_fits : leb (suc n) (suc (length bs)) ≡ true → suc n ≤ suc (length bs)
    ltb_fits h = ground arith

-- Not more comes in than there is.
pub length-incoming : (s : List Arrival) → length (incoming s) ≤ volume s
length-incoming [] = omega arith
length-incoming (failed ∷ s) = omega arith
length-incoming (interrupted true ∷ s) = omega arith
length-incoming (interrupted false ∷ s) = length-incoming s
length-incoming (arrived stop [] ∷ s) = omega arith
length-incoming (arrived true (b ∷ bs) ∷ s) = omega arith
length-incoming (arrived false (b ∷ bs) ∷ s) =
    omega (arith, length-++ (b ∷ bs) (incoming s), length-incoming s)
