-- ===== src/App/Options.antt =====
-- parse_arguments of app/phantomfpga_app.cpp. The options are the answers of getopt_long, one after the
-- other; `strtoul` reads a decimal number as the C library does.
use phantom_fpga_final_embed.Base.{
  ℕ, ◌+◌, ◌-◌, ◌*◌, ◌%◌, Bool, true, false, not, ◌&&◌, ◌||◌, List, [], ◌∷◌, Option, none, some,
  if◌then◌else◌, ◌==◌, ltb, leb, bit_and, sub32, u16_mod, u32_mod, u64_mod,
}
use phantom_fpga_final_embed.App.{AppConfig}

-- The values that getopt_long returns, with optarg. Whatever else it returns is `unknown`.
pub data Opt : Type 0 where
  frame_rate desc_count : List ℕ → Opt
  no_crc stats verbose zero_copy version help unknown : Opt
  tcp_server : Option (List ℕ) → Opt

abbrev pub is_space : ℕ → Bool
is_space c = c == 32 || leb 9 c && leb c 13

-- Digits up to the first other character.
abbrev pub digits : ℕ → List ℕ → ℕ
digits n [] = n
digits n (c ∷ cs) =
    let rest = digits (n * 10 + (c - 48)) cs in if leb 48 c && leb c 57 then rest else n

-- A value that is too large becomes ULONG_MAX.
abbrev pub saturate : ℕ → ℕ
saturate n = if ltb n u64_mod then n else u64_mod - 1

abbrev pub magnitude : List ℕ → ℕ
magnitude cs = digits 0 cs

-- A sign, and then the digits. A minus negates modulo 2 ^ 64.
abbrev pub signed : List ℕ → ℕ
signed [] = 0
signed (c ∷ cs) =
    if c == 45
    then (if ltb (magnitude cs) u64_mod then (u64_mod - magnitude cs) % u64_mod else u64_mod - 1)
    else saturate (if c == 43 then magnitude cs else magnitude (c ∷ cs))

abbrev pub strtoul : List ℕ → ℕ
strtoul [] = 0
strtoul (c ∷ cs) = let rest = strtoul cs in if is_space c then rest else signed (c ∷ cs)

abbrev pub default_tcp_port : ℕ
default_tcp_port = 5000

-- struct AppConfig as it is initialised.
abbrev pub default_config : AppConfig
default_config = record {
  desc_count = 256;
  frame_rate = 25;
  buffer_size = 0;
  tcp_port = default_tcp_port;
  verbose = false;
  stats_only = false;
  validate_crc = true;
  zero_copy = false;
}

-- 0, 1 or -1.
pub data Verdict : Type 0 where
  proceed exit_cleanly usage_error : Verdict

abbrev pub bad_rate : ℕ → Bool
bad_rate n = ltb n 1 || ltb 60 n

abbrev pub bad_count : ℕ → Bool
bad_count n = ltb n 4 || ltb 4096 n || not (bit_and n (sub32 n 1) == 0)

-- One option: the verdict that ends the loop, if it does, and the settings.
unfoldable pub apply_option : Opt → AppConfig → Option Verdict × AppConfig
apply_option (frame_rate text) c =
    let n = strtoul text % u32_mod in
    (if bad_rate n then some usage_error else none, record c { frame_rate = n })
apply_option (desc_count text) c =
    let n = strtoul text % u32_mod in
    (if bad_count n then some usage_error else none, record c { desc_count = n })
apply_option no_crc c = (none, record c { validate_crc = false })
apply_option stats c = (none, record c { stats_only = true })
apply_option verbose c = (none, record c { verbose = true })
apply_option (tcp_server none) c = (none, record c { tcp_port = default_tcp_port })
apply_option (tcp_server (some text)) c = (none, record c { tcp_port = strtoul text % u16_mod })
apply_option zero_copy c = (none, record c { zero_copy = true })
apply_option version c = (some exit_cleanly, c)
apply_option help c = (some exit_cleanly, c)
apply_option unknown c = (some usage_error, c)

-- The loop goes on, or returns.
abbrev pub finish_option :
    Option Verdict × AppConfig → (AppConfig → Verdict × AppConfig) → Verdict × AppConfig
finish_option (none, c) next = next c
finish_option (some verdict, c) next = (verdict, c)

unfoldable pub parse_arguments : List Opt → AppConfig → Verdict × AppConfig
parse_arguments [] c = (proceed, c)
parse_arguments (o ∷ os) c = finish_option (apply_option o c) (parse_arguments os)
