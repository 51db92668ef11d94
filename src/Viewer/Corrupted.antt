-- ===== src/Viewer/Corrupted.antt =====
-- A frame that has been damaged on its way.
use phantom_fpga_final_embed.Base.{
  ℕ, ◌+◌, ◌≤◌, ◌≡◌, ◌≢◌, sym, ap, ◌∙◌, true, false, List, ◌++◌, ◌!=◌, inl, inr, Bool-cases, length,
  take, get_or, arith, get_or-past, take-++, take_all, length-++,
}
use phantom_fpga_final_embed.Regs.{frame_crc_offset}
use phantom_fpga_final_embed.Frame.{word, crc_of}
use phantom_fpga_final_embed.Crc.{compute}
use phantom_fpga_final_embed.Crc.Serial.{IsBytes}
use phantom_fpga_final_embed.Crc.Burst.{burst_detected}
use phantom_fpga_final_embed.Viewer.Constants
use phantom_fpga_final_embed.Viewer.Methods.{bad_crc}

-- The stored CRC of a frame is read from what follows the checked part.
crc_of-past :
    (checked stored : List ℕ)
    → length checked ≡ frame_crc_offset
    → crc_of (checked ++ stored) ≡ word stored 0
crc_of-past checked stored l = omega (arith, byte 0, byte 1, byte 2, byte 3)
  where
    byte : (i : ℕ) → get_or (checked ++ stored) (frame_crc_offset + i) 0 ≡ get_or stored i 0
    byte i = ap (λ n. get_or (checked ++ stored) (n + i) 0) (sym l) ∙ get_or-past checked stored i 0

-- bad_crc on a frame in these two parts.
pub bad_crc-parts :
    (checked stored : List ℕ)
    → length checked ≡ frame_crc_offset
    → bad_crc (checked ++ stored) ≡ (compute checked != word stored 0)
bad_crc-parts checked stored l =
    let whole : take Constants.crc_offset (checked ++ stored) ≡ checked =
      take-++ Constants.crc_offset checked stored (omega arith)
      ∙ take_all Constants.crc_offset checked (omega arith) in
    ap (λ t. compute t != crc_of (checked ++ stored)) whole
    ∙ ap (λ n. compute checked != n) (crc_of-past checked stored l)

unequal : (a b c : ℕ) → (a != c) ≡ false → a ≢ b → (b != c) ≡ true
unequal a b c e ne = elim (Bool-cases (b != c)) [ inl t ↦ t | inr f ↦ absurd (ne (ground arith)) ]

-- If a frame has the right CRC, and another one differs from it within four bytes in a row of the part
-- that the CRC covers, validate_frame finds the other one's CRC wrong, so that it is not displayed.
pub corrupted_frame_refused :
    (xs ws vs ys stored : List ℕ)
    → IsBytes xs
    → IsBytes ws
    → IsBytes vs
    → IsBytes ys
    → length ws ≡ length vs
    → length ws ≤ 4
    → ws ≢ vs
    → length (xs ++ (ws ++ ys)) ≡ frame_crc_offset
    → bad_crc ((xs ++ (ws ++ ys)) ++ stored) ≡ false
    → bad_crc ((xs ++ (vs ++ ys)) ++ stored) ≡ true
corrupted_frame_refused xs ws vs ys stored hx hw hv hy l short ne size good =
    let as_long : length (xs ++ (vs ++ ys)) ≡ frame_crc_offset = omega (
      arith,
      size,
      length-++ xs (ws ++ ys),
      length-++ ws ys,
      length-++ xs (vs ++ ys),
      length-++ vs ys,
    ) in
    bad_crc-parts (xs ++ (vs ++ ys)) stored as_long
    ∙ unequal (compute (xs ++ (ws ++ ys))) (compute (xs ++ (vs ++ ys))) (word stored 0)
        (sym (bad_crc-parts (xs ++ (ws ++ ys)) stored size) ∙ good)
        (burst_detected xs ws vs ys hx hw hv hy l short ne)
