-- ===== src/Crc.antt =====
-- class CRC32 of app/phantomfpga_app.cpp, of which viewer/phantomfpga_view.cpp has a copy: IEEE 802.3
-- CRC-32 with a table of 256 entries.
pub mod Serial
pub mod Errors
pub mod Burst
pub mod Tests
use phantom_fpga_final_embed.Base.{
  ℕ, zero, suc, ◌+◌, ◌/◌, bit_and, bit_xor, List, [], ◌∷◌, ◌==◌, if◌then◌else◌, u32_mod, tabulate,
  get_or,
}

abbrev pub polynomial : ℕ
polynomial = 0xEDB88320

-- The body of the inner loop of build_crc32_table.
unfoldable pub shift : ℕ → ℕ
shift crc = if bit_and crc 1 == 1 then bit_xor (crc / 2) polynomial else crc / 2

-- So many rounds of it.
unfoldable pub shifts : ℕ → ℕ → ℕ
shifts zero crc = crc
shifts (suc n) crc = shifts n (shift crc)

unfoldable pub build_crc32_table : List ℕ
build_crc32_table = tabulate 256 0 (shifts 8)

-- The body of the loop of CRC32::compute; `crc >> 8` is a quotient by 256.
unfoldable pub lookup : ℕ → ℕ → ℕ
lookup crc byte = bit_xor (crc / 256) (get_or build_crc32_table (bit_and (bit_xor crc byte) 0xFF) 0)

unfoldable pub lookups : ℕ → List ℕ → ℕ
lookups crc [] = crc
lookups crc (byte ∷ bytes) = lookups (lookup crc byte) bytes

-- CRC32::compute
unfoldable pub compute : List ℕ → ℕ
compute bytes = bit_xor (lookups 0xFFFFFFFF bytes) 0xFFFFFFFF
