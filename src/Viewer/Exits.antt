-- ===== src/Viewer/Exits.antt =====
-- The viewer as a process, for streams that end: its exits, and what it has done then.
use phantom_fpga_final_embed.Base.{
  ℕ, ◌+◌, ◌≤◌, ◌≡◌, ◌⊎◌, inl, inr, refl, ap, ◌∙◌, false, List, [], ◌∷◌, ◌++◌, Option, none, some,
  if◌then◌else◌, if_cases, ◌==◌, is_none, arith, Option-cases,
}
use phantom_fpga_final_embed.Viewer.{Viewer, Output, statistics, newline, show_cursor}
use phantom_fpga_final_embed.Viewer.Client.{Address, try_addresses}
use phantom_fpga_final_embed.Viewer.Loop.{run_viewer}
use phantom_fpga_final_embed.Viewer.Options.{
  Parsed, show_usage, usage_error, options, Flags, help, no_filename, record_to, first_pass,
  positional, second_pass, bad_port, atoi, starts_with_dash, same_text, dash_record, localhost,
  parse_arguments, with_path, with_flags, run_parsed, run,
}
use phantom_fpga_final_embed.Viewer.Termination.{run_viewer_ends}

-- A port that the second pass gives has passed the test.
abbrev Fits : Option (List ℕ × ℕ) → Type 0
Fits none = Unit
Fits (some (host, port)) = bad_port port ≡ false

positional-Fits :
    (a : List ℕ) (pos : ℕ) (host : List ℕ) (port : ℕ) (next : ℕ → List ℕ → ℕ → Option (List ℕ × ℕ))
    → ((pos : ℕ) (host : List ℕ) (port : ℕ) → bad_port port ≡ false → Fits (next pos host port))
    → bad_port port ≡ false
    → Fits (positional a pos host port next)
positional-Fits a pos host port next rest h =
    if_cases Fits (starts_with_dash a) (λ _. rest pos host port h)
      (λ _.
        if_cases Fits (pos == 0) (λ _. rest (pos + 1) a port h)
          (λ _.
            if_cases Fits (pos == 1)
              (λ _.
                if_cases Fits (bad_port (atoi a)) (λ _. tt)
                  (λ fine. rest (pos + 1) host (atoi a) fine))
              (λ _. rest (pos + 1) host port h)))

second_pass-Fits :
    (args : List (List ℕ)) (pos : ℕ) (host : List ℕ) (port : ℕ)
    → bad_port port ≡ false
    → Fits (second_pass args pos host port)
unfolding second_pass
second_pass-Fits [] pos host port h = h
second_pass-Fits (a ∷ []) pos host port h =
    positional-Fits a pos host port (λ pos host port. some (host, port)) (λ _ _ _ fine. fine) h
second_pass-Fits (a ∷ b ∷ rest) pos host port h =
    if_cases Fits (same_text a dash_record) (λ _. second_pass-Fits rest pos host port h)
      (λ _.
        positional-Fits a pos host port (second_pass (b ∷ rest)) (second_pass-Fits (b ∷ rest)) h)

abbrev Parses : Parsed → Type 0
Parses (options host port path) = (1 ≤ port) × (port ≤ 65535)
Parses _ = Unit

parse_arguments-Parses : (args : List (List ℕ)) → Parses (parse_arguments args)
unfolding parse_arguments
parse_arguments-Parses args = by_flags (first_pass args [])
  where
    by_port : (path : List ℕ) (o : Option (List ℕ × ℕ)) → Fits o → Parses (with_path path o)
    by_port path none h = tt
    by_port path (some (host, port)) h = ground arith

    by_flags : (f : Flags) → Parses (with_flags f args)
    by_flags help = tt
    by_flags no_filename = tt
    by_flags (record_to path) =
        by_port path (second_pass args 0 localhost 5000)
          (second_pass-Fits args 0 localhost 5000 refl)

-- A viewer that has ended: the cursor is shown, the statistics are printed, the recording is closed.
abbrev pub Ended : Viewer → Type 0
Ended w =
    (w.record_file ≡ false)
    × ((t : List Output) × (w.terminal ≡ statistics ∷ newline ∷ show_cursor ∷ t))

-- The sockets that connect makes, one after the other up to the first that can be connected.
abbrev pub sockets : List Address → List ℕ
sockets [] = []
sockets (a ∷ rest) = elim a.socket [
  | none ↦ sockets rest
  | some fd ↦ if a.connects then fd ∷ [] else fd ∷ sockets rest
]

abbrev pub to_list : Option ℕ → List ℕ
to_list none = []
to_list (some fd) = fd ∷ []

try_addresses-sockets :
    (list : List Address) → sockets list ≡ (try_addresses list).1 ++ to_list (try_addresses list).0
unfolding try_addresses
try_addresses-sockets [] = refl
try_addresses-sockets (a ∷ rest) = ground (arith, try_addresses-sockets rest)

-- How the process ends, by what the arguments say.
abbrev pub Exits : (List ℕ → ℕ → List Address) → Parsed → ℕ × Option Viewer → Type 0
Exits lookup show_usage r = r ≡ (0, none)
Exits lookup usage_error r = r ≡ (1, none)
Exits lookup (options host port path) r =
    (1 ≤ port)
    × (port ≤ 65535)
    × (sockets (lookup host port)
        ≡ (try_addresses (lookup host port)).1 ++ to_list (try_addresses (lookup host port)).0)
    × ((((try_addresses (lookup host port)).0 ≡ none) × (r ≡ (1, none)))
        ⊎ ((fd : ℕ) × ((try_addresses (lookup host port)).0 ≡ some fd)
            × ((w : Viewer) × (r ≡ (0, some w)) × Ended w)))

module _ (lookup : List ℕ → ℕ → List Address) (viewer : List ℕ → Viewer) where
  connected-Exits :
      (host : List ℕ) (port : ℕ) (path : List ℕ)
      → Parses (options host port path)
      → Exits lookup (options host port path) (run_parsed lookup viewer (options host port path))
  unfolding run_parsed
  connected-Exits host port path (lo, hi) =
      (lo, hi, try_addresses-sockets (lookup host port), by_socket (Option-cases found))
    where
      found : Option ℕ
      found = (try_addresses (lookup host port)).0

      by_socket :
          (found ≡ none) ⊎ ((fd : ℕ) × (found ≡ some fd))
          → ((found ≡ none) × (run_parsed lookup viewer (options host port path) ≡ (1, none)))
            ⊎ ((fd : ℕ) × (found ≡ some fd)
                × ((w : Viewer) × (run_parsed lookup viewer (options host port path) ≡ (0, some w))
                    × Ended w))
      by_socket (inl e) =
          inl (e, ap (λ o. if is_none o then (1, none) else (0, run_viewer (viewer path))) e)
      by_socket (inr (fd, e)) =
          let (w, run, closed, shown) = run_viewer_ends (viewer path) in
          inr (
            fd,
            e,
            (
              w,
              ap (λ o. if is_none o then (1, none) else (0, run_viewer (viewer path))) e
                  ∙ ap (λ o. (0, o)) run,
              (closed, shown),
            ),
          )

-- If the stream of the server ends, by its close, an error or a signal, after finitely many reads of which
-- none blocks for ever, the viewer ends, whatever its arguments and the addresses are and whatever has
-- come in: with exit code 0 and its usage, with 1 if the arguments are wrong or no address can be
-- connected, or else with 0, after run_viewer has shown the cursor again, printed the statistics and
-- closed the recording. The port that it looks up is from 1 to 65535, and of the sockets that it makes all
-- are closed again but the one it keeps.
pub run-Exits :
    (lookup : List ℕ → ℕ → List Address) (viewer : List ℕ → Viewer) (args : List (List ℕ))
    → Exits lookup (parse_arguments args) (run lookup viewer args)
unfolding run run_parsed
run-Exits lookup viewer args = by_parse (parse_arguments args) (parse_arguments-Parses args)
  where
    by_parse : (p : Parsed) → Parses p → Exits lookup p (run_parsed lookup viewer p)
    by_parse show_usage h = refl
    by_parse usage_error h = refl
    by_parse (options host port path) h = connected-Exits lookup viewer host port path h
