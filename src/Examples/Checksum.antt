-- ===== src/Examples/Checksum.antt =====
-- The theorems on the CRC, and a frame that has the right one.
use phantom_fpga_final_embed.Base.{
  ℕ, zero, suc, ◌+◌, ◌/◌, ◌%◌, ◌^◌, ◌<◌, ◌≡◌, ◌≢◌, refl, sym, ◌∙◌, true, false, List, [], ◌∷◌, ◌++◌,
  length, arith, tabulate, length-tabulate, length-++, ◌!=◌,
}
use phantom_fpga_final_embed.Regs.{frame_crc_offset}
use phantom_fpga_final_embed.Frame.{word}
use phantom_fpga_final_embed.Crc.{compute}
use phantom_fpga_final_embed.Crc.Serial.{IsBytes, serial_crc, compute_is_serial}
use phantom_fpga_final_embed.Crc.Errors.{compute-lt}
use phantom_fpga_final_embed.Viewer.Methods.{bad_crc}
use phantom_fpga_final_embed.Viewer.Corrupted.{bad_crc-parts, corrupted_frame_refused}

abbrev digits_text : List ℕ
digits_text = 0x31 ∷ 0x32 ∷ 0x33 ∷ 0x34 ∷ []

digits_text-IsBytes : IsBytes digits_text
digits_text-IsBytes = (omega arith, (omega arith, (omega arith, (omega arith, tt))))

compute_is_serial_example : compute digits_text ≡ serial_crc digits_text
compute_is_serial_example = compute_is_serial digits_text digits_text-IsBytes

-- A frame of zeros with the magic and the sequence 0, and one where a byte has changed.
abbrev header : List ℕ
header = 0xCE ∷ 0xFA ∷ 0x0D ∷ 0xF0 ∷ []

abbrev body : List ℕ
body = tabulate 5111 0 (λ _. 0)

abbrev good_byte : List ℕ
good_byte = 0 ∷ []

abbrev bad_byte : List ℕ
bad_byte = 1 ∷ []

header-IsBytes : IsBytes header
header-IsBytes = (omega arith, (omega arith, (omega arith, (omega arith, tt))))

tabulate-IsBytes : (n i : ℕ) → IsBytes (tabulate n i (λ _. 0))
tabulate-IsBytes zero i = tt
tabulate-IsBytes (suc n) i = (omega arith, tabulate-IsBytes n (i + 1))

abbrev pub checked : List ℕ
checked = header ++ (good_byte ++ body)

-- The four bytes of a CRC, the lowest first.
abbrev stored_bytes : ℕ → List ℕ
stored_bytes n = n % 256 ∷ n / 256 % 256 ∷ n / 2 ^ 16 % 256 ∷ n / 2 ^ 24 ∷ []

abbrev pub stored : List ℕ
stored = stored_bytes (compute checked)

pub length-checked : length checked ≡ frame_crc_offset
length-checked = omega (
  arith,
  length-++ header (good_byte ++ body),
  length-++ good_byte body,
  length-tabulate {A = ℕ} 5111 0 (λ _. 0),
)

checked-IsBytes : IsBytes checked
checked-IsBytes = (
  omega arith,
  (omega arith, (omega arith, (omega arith, (omega arith, tabulate-IsBytes 5111 0)))),
)

word-stored_bytes : (n : ℕ) → n < 2 ^ 32 → word (stored_bytes n) 0 ≡ n
word-stored_bytes n h = omega arith

same_ne : (a b : ℕ) → a ≡ b → (a != b) ≡ false
same_ne a b e = ground arith

checked-good : bad_crc (checked ++ stored) ≡ false
checked-good =
    bad_crc-parts checked stored length-checked
    ∙ same_ne (compute checked) (word stored 0)
        (sym (word-stored_bytes (compute checked) (compute-lt checked checked-IsBytes)))

bytes_differ : good_byte ≢ bad_byte
bytes_differ e = cc

corrupted_frame_refused_example : bad_crc ((header ++ (bad_byte ++ body)) ++ stored) ≡ true
corrupted_frame_refused_example =
    corrupted_frame_refused header good_byte bad_byte body stored header-IsBytes (omega arith, tt)
      (omega arith, tt) (tabulate-IsBytes 5111 0) refl (omega arith) bytes_differ length-checked
      checked-good
