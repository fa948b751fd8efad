-- ===== src/Exporter/Playlist.antt =====
-- `readLastSegmentNumber` and `BaseHlsString`: how the playlist is read and how it begins.
use streaming_gateway.Prelude.{
  ℕ, ◌+◌, ◌-◌, ◌^◌, Option, none, some, List, [], ◌∷◌, ◌++◌, Bytes, codes, take, drop, bytes_eq,
  ltb, ◌==◌, if◌then◌else◌,
}
use streaming_gateway.Prelude.Run.{undefined, Cmd, pure, ◌>>=◌}
use streaming_gateway.Prelude.Decimal.{is_digit, sto}

abbrev put_front : ℕ → List Bytes → List Bytes
put_front c [] = (c ∷ []) ∷ []
put_front c (line ∷ lines) = (c ∷ line) ∷ lines

-- The lines that `std::getline` gives one after another
unfoldable pub lines : Bytes → List Bytes
lines [] = []
lines (c ∷ cs) = let rest = lines cs in if c == 10 then [] ∷ rest else put_front c rest

-- `\d+` from here on, and what is behind it
unfoldable pub span_digits : Bytes → Bytes × Bytes
span_digits [] = ([], [])
span_digits (c ∷ cs) =
    let rest = span_digits cs in if is_digit c then (c ∷ rest.0, rest.1) else ([], c ∷ cs)

unfoldable pub match_end : Bytes × Bytes → Option Bytes
match_end ([], rest) = none
match_end (d ∷ ds, rest) = if bytes_eq (take 3 rest) (codes ".ts") then some (d ∷ ds) else none

-- `output(\d+)\.ts` at this place: the digits of the match
unfoldable pub match_here : Bytes → Option Bytes
match_here text =
    if bytes_eq (take 6 text) (codes "output") then match_end (span_digits (drop 6 text)) else none

-- `std::regex_search`: the first place that fits
unfoldable pub regex_search : Bytes → Option Bytes
regex_search [] = none
regex_search (c ∷ cs) = elim (match_here (c ∷ cs)) [ some ds ↦ some ds | none ↦ regex_search cs ]

-- `std::max(lastSegment, n)`, where `none` is -1
unfoldable pub max_segment : Option ℕ → ℕ → Option ℕ
max_segment none n = some n
max_segment (some m) n = if ltb m n then some n else some m

module _ {S : Type 0} where
  -- A round of the loop
  unfoldable pub read_line : Option ℕ → Bytes → Cmd S (Option ℕ)
  read_line last_segment line = elim (regex_search line) [
    | none ↦ pure last_segment
    | some ds ↦ (do n ← sto 32 ds; pure (max_segment last_segment n))
  ]

  unfoldable pub read_lines : Option ℕ → List Bytes → Cmd S (Option ℕ)
  read_lines last_segment [] = pure last_segment
  read_lines last_segment (line ∷ rest) = do
    segment ← read_line last_segment line
    read_lines segment rest

  -- `readLastSegmentNumber`, for the content of the file, if it can be opened
  unfoldable pub read_last_segment_number : Option Bytes → Cmd S (Option ℕ)
  read_last_segment_number none = pure none
  read_last_segment_number (some content) = read_lines none (lines content)

  -- One more than an `int`; to go past the greatest is undefined.
  unfoldable pub next_segment : Option ℕ → Cmd S ℕ
  next_segment none = pure 0
  next_segment (some n) = if ltb n (2 ^ 31 - 1) then pure (n + 1) else (λ s. undefined)

-- `BaseHlsString`
abbrev pub base_hls_string : Bytes
base_hls_string =
    codes "#EXTM3U\n" ++ (codes "#EXT-X-VERSION:3\n" ++ codes "#EXT-X-MEDIA-SEQUENCE:0\n")

-- The file name of a segment
abbrev pub file_name : Bytes → Bytes
file_name number = codes "output" ++ (number ++ codes ".ts")

-- The lines of a segment
abbrev pub entry : (duration number : Bytes) → Bytes
entry duration number =
    codes "#EXTINF:" ++ (duration ++ (codes ",\n" ++ (file_name number ++ codes "\n")))
