-- ===== src/Viewer/Options.antt =====
-- parse_arguments and run of viewer/phantomfpga_view.cpp. Arguments are lists of character codes, those
-- after the name of the program.
use phantom_fpga_final_embed.Base.{
  ℕ, ◌+◌, ◌-◌, ◌%◌, ◌^◌, Bool, true, false, ◌&&◌, ◌||◌, List, [], ◌∷◌, Option, none, some,
  if◌then◌else◌, ◌==◌, ltb, leb, is_none, u32_mod, u64_mod,
}
use phantom_fpga_final_embed.App.Options.{is_space, digits}
use phantom_fpga_final_embed.Viewer.{Viewer}
use phantom_fpga_final_embed.Viewer.Client.{Address, try_addresses}
use phantom_fpga_final_embed.Viewer.Loop.{run_viewer}

-- `strcmp(a, b) == 0`
abbrev pub same_text : List ℕ → List ℕ → Bool
same_text [] [] = true
same_text [] (d ∷ ds) = false
same_text (c ∷ cs) [] = false
same_text (c ∷ cs) (d ∷ ds) = c == d && same_text cs ds

-- "-h", "--help" and "--record"
abbrev pub dash_h : List ℕ
dash_h = 45 ∷ 104 ∷ []

abbrev pub dash_help : List ℕ
dash_help = 45 ∷ 45 ∷ 104 ∷ 101 ∷ 108 ∷ 112 ∷ []

abbrev pub dash_record : List ℕ
dash_record = 45 ∷ 45 ∷ 114 ∷ 101 ∷ 99 ∷ 111 ∷ 114 ∷ 100 ∷ []

abbrev pub localhost : List ℕ
localhost = 108 ∷ 111 ∷ 99 ∷ 97 ∷ 108 ∷ 104 ∷ 111 ∷ 115 ∷ 116 ∷ []

-- 1, -1, or 0 with what the options say. `port` is an int as its 32 bits.
pub data Parsed : Type 0 where
  show_usage usage_error : Parsed
  options : (host : List ℕ) → (port : ℕ) → (record_path : List ℕ) → Parsed

-- The first pass: the file of the last --record.
pub data Flags : Type 0 where
  help no_filename : Flags
  record_to : List ℕ → Flags

unfoldable pub first_pass : List (List ℕ) → List ℕ → Flags
first_pass [] path = record_to path
first_pass (a ∷ []) path =
    if same_text a dash_h || same_text a dash_help
    then help
    else if same_text a dash_record
    then no_filename
    else record_to path
first_pass (a ∷ b ∷ rest) path =
    let skipped = first_pass rest b in
    let next = first_pass (b ∷ rest) path in
    if same_text a dash_h || same_text a dash_help
    then help
    else if same_text a dash_record
    then skipped
    else next

-- atoi: strtol in base 10, which stops at LONG_MAX and LONG_MIN, cut to an int.
abbrev pub negative : ℕ → ℕ
negative n = (u64_mod - (if ltb (2 ^ 63) n then 2 ^ 63 else n)) % u32_mod

abbrev pub positive : ℕ → ℕ
positive n = (if ltb n (2 ^ 63) then n else 2 ^ 63 - 1) % u32_mod

abbrev pub signed_int : List ℕ → ℕ
signed_int [] = 0
signed_int (c ∷ cs) =
    if c == 45
    then negative (digits 0 cs)
    else positive (if c == 43 then digits 0 cs else digits 0 (c ∷ cs))

abbrev pub atoi : List ℕ → ℕ
atoi [] = 0
atoi (c ∷ cs) = let rest = atoi cs in if is_space c then rest else signed_int (c ∷ cs)

-- `port < 1 || port > 65535`, on an int that is negative from 2 ^ 31 on.
abbrev pub bad_port : ℕ → Bool
bad_port n = ltb n 1 || leb (2 ^ 31) n || ltb 65535 n

abbrev pub starts_with_dash : List ℕ → Bool
starts_with_dash [] = false
starts_with_dash (c ∷ cs) = c == 45

-- One argument of the second pass, and how it goes on.
abbrev pub positional :
    List ℕ → ℕ → List ℕ → ℕ → (ℕ → List ℕ → ℕ → Option (List ℕ × ℕ)) → Option (List ℕ × ℕ)
positional a pos host port next =
    if starts_with_dash a
    then next pos host port
    else if pos == 0
    then next (pos + 1) a port
    else if pos == 1
    then (if bad_port (atoi a) then none else next (pos + 1) host (atoi a))
    else next (pos + 1) host port

-- The second pass: `pos` counts the arguments that are neither flags nor the file of --record.
unfoldable pub second_pass : List (List ℕ) → ℕ → List ℕ → ℕ → Option (List ℕ × ℕ)
second_pass [] pos host port = some (host, port)
second_pass (a ∷ []) pos host port = positional a pos host port (λ pos host port. some (host, port))
second_pass (a ∷ b ∷ rest) pos host port =
    let skipped = second_pass rest pos host port in
    if same_text a dash_record then skipped else positional a pos host port (second_pass (b ∷ rest))

abbrev pub with_path : List ℕ → Option (List ℕ × ℕ) → Parsed
with_path path none = usage_error
with_path path (some (host, port)) = options host port path

-- After the first pass.
abbrev pub with_flags : Flags → List (List ℕ) → Parsed
with_flags help args = show_usage
with_flags no_filename args = usage_error
with_flags (record_to path) args = with_path path (second_pass args 0 localhost 5000)

unfoldable pub parse_arguments : List (List ℕ) → Parsed
parse_arguments args = with_flags (first_pass args []) args

-- The exit code, with the viewer at the end if there has been one. `lookup` is the answer of
-- getaddrinfo, `viewer` the viewer that the connection and the file will be for.
module _ (lookup : List ℕ → ℕ → List Address) (viewer : List ℕ → Viewer) where
  unfoldable pub run_parsed : Parsed → ℕ × Option Viewer
  run_parsed show_usage = (0, none)
  run_parsed usage_error = (1, none)
  run_parsed (options host port path) =
      if is_none (try_addresses (lookup host port)).0
      then (1, none)
      else (0, run_viewer (viewer path))

  unfoldable pub run : List (List ℕ) → ℕ × Option Viewer
  run args = run_parsed (parse_arguments args)
