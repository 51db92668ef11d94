-- ===== src/Crc/Tests.antt =====
-- Known values of CRC32::compute.
use phantom_fpga_final_embed.Base.{[], ◌∷◌, ◌≡◌, refl}
use phantom_fpga_final_embed.Crc.{shift, shifts, build_crc32_table, lookup, lookups, compute}

-- The check value of CRC-32: the digits 1 to 9 in ASCII.
check_value :
    compute (0x31 ∷ 0x32 ∷ 0x33 ∷ 0x34 ∷ 0x35 ∷ 0x36 ∷ 0x37 ∷ 0x38 ∷ 0x39 ∷ []) ≡ 0xCBF43926
unfolding compute lookups lookup build_crc32_table shifts shift
check_value = refl

empty_message : compute [] ≡ 0
unfolding compute lookups
empty_message = refl
