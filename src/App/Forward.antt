-- ===== src/App/Forward.antt =====
-- Which frames the application forwards: validate_frame against a test of a frame and the one before.
use phantom_fpga_final_embed.Base.{
  ℕ, ◌%◌, ◌≡◌, refl, ap, ◌∙◌, Bool, true, false, not, ◌&&◌, List, [], ◌∷◌, ◌++◌, Option, none, some,
  if◌then◌else◌, if_cases, ◌==◌, ◌!=◌, length, add32,
}
use phantom_fpga_final_embed.Regs.{frame_size, frame_count}
use phantom_fpga_final_embed.Frame.{sequence_of}
use phantom_fpga_final_embed.App.{AppStats}
use phantom_fpga_final_embed.App.Server.{htonl}
use phantom_fpga_final_embed.App.Frames.{wrong_magic, wrong_sequence, wrong_crc, validate_frame}

-- The sequence of the last frame of the right size, if there was one.
abbrev pub next_seen : Option ℕ → List ℕ → Option ℕ
next_seen seen f = if length f == frame_size then some (sequence_of f) else seen

abbrev pub in_sequence : Option ℕ → List ℕ → Bool
in_sequence none f = true
in_sequence (some s) f = sequence_of f == add32 s 1 % frame_count

-- A frame is forwarded if it has the right size, magic and sequence, and the right CRC if that counts.
abbrev pub passes : Bool → Option ℕ → List ℕ → Bool
passes crc seen f =
    length f == frame_size && (not (wrong_magic f) && in_sequence seen f && not (wrong_crc crc f))

-- Those that are, of a list.
abbrev pub forwarded : Bool → Option ℕ → List (List ℕ) → List (List ℕ)
forwarded crc seen [] = []
forwarded crc seen (f ∷ fs) =
    let rest = forwarded crc (next_seen seen f) fs in if passes crc seen f then f ∷ rest else rest

-- Frames as they go over the wire, each after its length.
abbrev pub on_the_wire : List (List ℕ) → List ℕ
on_the_wire [] = []
on_the_wire (f ∷ fs) = htonl frame_size ++ (f ++ on_the_wire fs)

abbrev pub seen_by : AppStats → Option ℕ
seen_by s = if s.seq_initialized then some s.last_seq else none

not-not : (b : Bool) → not (not b) ≡ b
not-not true = refl
not-not false = refl

-- A test of the sequence is one of the sequence seen.
wrong_sequence_lem :
    (s : AppStats) (f : List ℕ) → not (wrong_sequence s f) ≡ in_sequence (seen_by s) f
wrong_sequence_lem s f = go s.seq_initialized s.last_seq
  where
    go :
        (b : Bool) (n : ℕ)
        → not (b && sequence_of f != add32 n 1 % frame_count)
          ≡ in_sequence (if b then some n else none) f
    go true n = not-not (sequence_of f == add32 n 1 % frame_count)
    go false n = refl

-- A frame of the wrong size, and one of the right size.
refused_size {ℓ} :
    {A : Type ℓ} (z x : Bool) (a b : A)
    → not z ≡ true
    → (false ≡ (z && x)) × (b ≡ (if z then a else b))
refused_size true x a b e = cc
refused_size false x a b e = (refl, refl)

taken_size {ℓ} :
    {A : Type ℓ} (z x : Bool) (a b : A)
    → not z ≡ false
    → (x ≡ (z && x)) × (a ≡ (if z then a else b))
taken_size true x a b e = (refl, refl)
taken_size false x a b e = cc

-- The verdict of validate_frame, and the sequence it goes on with.
abbrev Judges : Bool → List ℕ → AppStats → Bool × AppStats → Type 0
Judges crc f s (ok, t) = (ok ≡ passes crc (seen_by s) f) × (seen_by t ≡ next_seen (seen_by s) f)

pub validate_frame-Judges :
    (crc : Bool) (f : List ℕ) (s : AppStats) → Judges crc f s (validate_frame crc f s)
unfolding validate_frame
validate_frame-Judges crc f s =
    let z = length f == frame_size in
    let x = not (wrong_magic f) && in_sequence (seen_by s) f && not (wrong_crc crc f) in
    let same : (not (wrong_magic f) && not (wrong_sequence s f) && not (wrong_crc crc f)) ≡ x =
      ap (λ q. not (wrong_magic f) && q && not (wrong_crc crc f)) (wrong_sequence_lem s f) in
    if_cases (Judges crc f s) (length f != frame_size)
      (λ bad. refused_size z x (some (sequence_of f)) (seen_by s) bad)
      (λ good. let (p, q) = taken_size z x (some (sequence_of f)) (seen_by s) good in (same ∙ p, q))
