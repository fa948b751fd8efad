-- ===== src/Exporter/Numbers.antt =====
-- The playlist as a list of segments, and the number that `readLastSegmentNumber` finds in it.
use streaming_gateway.Prelude.{
  ℕ, zero, suc, ◌+◌, ◌-◌, ◌^◌, ◌<◌, ◌≤◌, ◌≡◌, refl, sym, ap, ◌∙◌, true, not, Option, none, some,
  List, [], ◌∷◌, ◌++◌, Bytes, codes, length, ltb, ◌==◌, append_assoc, append-nil, arith,
}
use streaming_gateway.Prelude.Run.{ok, ◌>>=◌}
use streaming_gateway.Prelude.Decimal.{to_string, sto-to_string}
use streaming_gateway.Exporter.Playlist.{
  lines, match_here, regex_search, max_segment, read_line, read_lines, read_last_segment_number,
  next_segment, base_hls_string, file_name, entry,
}
use streaming_gateway.Exporter.Segment.{begun}
use streaming_gateway.Exporter.Texts.{
  All-append, Without, to_string-Without, lines-line, regex_search-Without, regex_search-file_name,
}

-- The lines of segments with some durations, from a number on
unfoldable pub entries : ℕ → List Bytes → Bytes
entries i [] = []
entries i (duration ∷ durations) = entry duration (to_string i) ++ entries (i + 1) durations

-- The playlist of the segments `output0.ts`, `output1.ts` and so on
unfoldable pub rendered : List Bytes → Bytes
rendered durations = base_hls_string ++ entries 0 durations

-- Texts that have no newline and no `o`, as printed numbers have none
unfoldable pub ArePlain : List Bytes → Type 0
ArePlain [] = Unit
ArePlain (d ∷ ds) = Without 10 d × Without 111 d × ArePlain ds

-- The last number before one
unfoldable pub before : ℕ → Option ℕ
before zero = none
before (suc n) = some n

entries-snoc :
    (i : ℕ) (ds : List Bytes) (d : Bytes)
    → entries i (ds ++ (d ∷ [])) ≡ entries i ds ++ entry d (to_string (i + length ds))
unfolding entries
entries-snoc i [] d =
    append-nil (entry d (to_string i))
    ∙ ap (λ n. entry d (to_string n)) {x = i} {y = i + 0} (omega arith)
entries-snoc i (x ∷ ds) d =
    ap (◌++◌ (entry x (to_string i))) (
      entries-snoc (i + 1) ds d
      ∙ ap (λ n. entries (i + 1) ds ++ entry d (to_string n)) {x = i + 1 + length ds}
          {y = i + suc (length ds)} (omega arith))
    ∙ sym (
        append_assoc (entry x (to_string i)) (entries (i + 1) ds)
          (entry d (to_string (i + suc (length ds)))))

-- A segment more stands at the end.
pub rendered-snoc :
    (ds : List Bytes) (d : Bytes)
    → rendered (ds ++ (d ∷ [])) ≡ rendered ds ++ entry d (to_string (length ds))
unfolding rendered
rendered-snoc ds d =
    ap (◌++◌ base_hls_string) (
      entries-snoc 0 ds d
      ∙ ap (λ n. entries 0 ds ++ entry d (to_string n)) {x = 0 + length ds} {y = length ds}
          (omega arith))
    ∙ sym (append_assoc base_hls_string (entries 0 ds) (entry d (to_string (length ds))))

pub ArePlain-snoc :
    (ds : List Bytes) (d : Bytes)
    → ArePlain ds
    → Without 10 d
    → Without 111 d
    → ArePlain (ds ++ (d ∷ []))
unfolding ArePlain
ArePlain-snoc [] d a h k = (h, k, tt)
ArePlain-snoc (x ∷ ds) d (h', k', a) h k = (h', k', ArePlain-snoc ds d a h k)

-- The first line of a segment
abbrev duration_line : Bytes → Bytes
duration_line d = codes "#EXTINF:" ++ (d ++ codes ",")

lines-entry :
    (d : Bytes) (i : ℕ) (rest : Bytes)
    → Without 10 d
    → lines (entry d (to_string i) ++ rest) ≡ duration_line d ∷ file_name (to_string i) ∷ lines rest
lines-entry d i rest h =
    let number = to_string i in
    let whole : Without 10 (duration_line d) =
      All-append (λ x. not (x == 10)) (codes "#EXTINF:") (d ++ codes ",") (ground arith)
        (All-append (λ x. not (x == 10)) d (codes ",") h (ground arith)) in
    let name : Without 10 (file_name number) =
      All-append (λ x. not (x == 10)) (codes "output") (number ++ codes ".ts") (ground arith)
        (All-append (λ x. not (x == 10)) number (codes ".ts") (to_string-Without 10 i refl)
          (ground arith)) in
    let split : entry d number ++ rest
        ≡ duration_line d ++ (10 ∷ (file_name number ++ (10 ∷ rest))) =
      simp append_assoc in
    ap lines split
    ∙ lines-line (duration_line d) (file_name number ++ (10 ∷ rest)) whole
    ∙ ap (◌∷◌ (duration_line d)) (lines-line (file_name number) rest name)

max_segment-before : (i : ℕ) → max_segment (before i) i ≡ before (i + 1)
unfolding max_segment before
max_segment-before zero = refl
max_segment-before (suc i) = ground arith

none_before : ◌≡◌ {A = Option ℕ} none (before 0)
unfolding before
none_before = refl

module _ {S : Type 0} (s : S) where
  read_line-duration :
      (last : Option ℕ) (d : Bytes) → Without 111 d → read_line last (duration_line d) s ≡ ok last s
  unfolding read_line
  read_line-duration last d h =
      let whole : Without 111 (duration_line d) =
        All-append (λ x. not (x == 111)) (codes "#EXTINF:") (d ++ codes ",") (ground arith)
          (All-append (λ x. not (x == 111)) d (codes ",") h (ground arith)) in
      rw (read_line, regex_search-Without (duration_line d) whole) refl

  read_line-file_name :
      (i : ℕ)
      → i < 2 ^ 31
      → read_line (before i) (file_name (to_string i)) s ≡ ok (before (i + 1)) s
  unfolding read_line
  read_line-file_name i h =
      rw (read_line, regex_search-file_name i, sto-to_string {S = S} 32 i s (ground (arith, h)))
        (ap (λ m. ok m s) (max_segment-before i))

  read_lines-entries :
      (ds : List Bytes) (i : ℕ)
      → ArePlain ds
      → i + length ds ≤ 2 ^ 31
      → read_lines (before i) (lines (entries i ds)) s ≡ ok (before (i + length ds)) s
  unfolding read_lines entries ArePlain lines
  read_lines-entries [] i a h = ap (λ n. ok (before n) s) {x = i} {y = i + 0} (omega arith)
  read_lines-entries (d ∷ ds) i (ten, o, a) h =
      rw
        (
          lines-entry d i (entries (i + 1) ds) ten,
          read_line-duration (before i) d o,
          read_line-file_name i (omega (arith, h)),
        )
        (read_lines-entries ds (i + 1) a (omega (arith, h))
          ∙ ap (λ n. ok (before n) s) {x = i + 1 + length ds} {y = i + suc (length ds)}
              (omega arith))

  -- The file is read as if it had been begun.
  read_last_segment_number-begun :
      (file : Option Bytes)
      → read_last_segment_number file s ≡ read_lines none (lines (begun file)) s
  unfolding read_last_segment_number read_lines read_line lines regex_search match_here
  read_last_segment_number-begun none = refl
  read_last_segment_number-begun (some []) = refl
  read_last_segment_number-begun (some (c ∷ cs)) = refl

  read_lines-rendered :
      (ds : List Bytes)
      → read_lines none (lines (rendered ds)) s ≡ read_lines none (lines (entries 0 ds)) s
  unfolding rendered read_lines read_line lines regex_search match_here
  read_lines-rendered ds = refl

  next_segment-before : (n : ℕ) → n < 2 ^ 31 → next_segment (before n) s ≡ ok n s
  unfolding next_segment before
  next_segment-before zero h = refl
  next_segment-before (suc n) h =
      let small : ltb n (2 ^ 31 - 1) ≡ true = ground (arith, h) in
      rw (small) (ap (λ m. ok m s) {x = n + 1} {y = suc n} (omega arith))

  -- In the playlist of fewer than 2^31 segments, whose texts are plain, or a file that is empty or
  -- not there for none, `readLastSegmentNumber` finds the number of the last, so that the next
  -- segment has the number of those that there are.
  pub next_number :
      (file : Option Bytes) (ds : List Bytes)
      → begun file ≡ rendered ds
      → ArePlain ds
      → length ds < 2 ^ 31
      → (read_last_segment_number file >>= next_segment) s ≡ ok (length ds) s
  next_number file ds e a h =
      let last : read_last_segment_number file s ≡ ok (before (length ds)) s =
        read_last_segment_number-begun file
        ∙ ap (λ text. read_lines none (lines text) s) e
        ∙ read_lines-rendered ds
        ∙ ap (λ m. read_lines m (lines (entries 0 ds)) s) none_before
        ∙ read_lines-entries ds 0 a (omega (arith, h))
        ∙ ap (λ n. ok (before n) s) {x = 0 + length ds} {y = length ds} (omega arith) in
      rw last (next_segment-before (length ds) h)
