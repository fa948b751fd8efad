-- ===== src/Cli/Options.antt =====
-- What `parseArgs` makes of `--key=value`.
use streaming_gateway.Prelude.{
  ℕ, suc, ◌+◌, ◌-◌, ◌≡◌, refl, sym, ap, ap₂, ◌∙◌, false, Option, none, some, List, [], ◌∷◌, ◌++◌,
  map, Bytes, codes, length, take, drop, drop_all, take_front, length-append, append_assoc,
  bytes_eq, ◌==◌, if◌then◌else◌, arith,
}
use streaming_gateway.Dict.{lookup, assign}
use streaming_gateway.Dict.Laws.{lookup-assign}
use streaming_gateway.Cli.{find_equals, parse_arg, parse_from, parse_args}

-- `--key=value`, as core/src/main.cpp writes it for its children
abbrev pub option : Bytes × Bytes → Bytes
option (key, value) = codes "--" ++ (key ++ (61 ∷ value))

-- No `=` stands in a key.
unfoldable pub IsKey : Bytes → Type 0
IsKey [] = Unit
IsKey (x ∷ xs) = ((x == 61) ≡ false) × IsKey xs

unfoldable pub AreKeys : List (Bytes × Bytes) → Type 0
AreKeys [] = Unit
AreKeys (o ∷ options) = IsKey o.0 × AreKeys options

-- The value that is given last for a key, if any
unfoldable pub last_given : Bytes → List (Bytes × Bytes) → Option Bytes → Option Bytes
last_given k [] found = found
last_given k ((key, value) ∷ options) found =
    last_given k options (if bytes_eq key k then some value else found)

find_equals-key :
    (n : ℕ) (key value : Bytes)
    → IsKey key
    → find_equals n (key ++ (61 ∷ value)) ≡ some (n + length key)
unfolding find_equals IsKey
find_equals-key n [] value h = ap some {y = n + 0} (omega arith)
find_equals-key n (x ∷ xs) value h = rw h.0 (
    find_equals-key (suc n) xs value h.1
    ∙ ap some {x = suc n + length xs} {y = n + suc (length xs)} (omega arith))

parse_arg-option :
    (i : ℕ) (key value : Bytes) (m : List (Bytes × Bytes))
    → IsKey key
    → parse_arg i (option (key, value)) m ≡ assign key value m
unfolding parse_arg find_equals
parse_arg-option i key value m h = rw (find_equals-key 2 key value h) (
    ap₂ (λ a b. assign a b m)
      (ap (λ n. take n (key ++ (61 ∷ value))) {x = 2 + length key - 2} {y = length key}
          (omega arith)
        ∙ take_front key (61 ∷ value))
      (ap (λ n. drop n (option (key, value))) {x = 2 + length key + 1}
          {y = suc (suc (length (key ++ (61 ∷ []))))} (omega (arith, length-append key (61 ∷ [])))
        ∙ ap (drop (length (key ++ (61 ∷ [])))) (sym (append_assoc key (61 ∷ []) value))
        ∙ drop_all (key ++ (61 ∷ [])) value))

parse_from-options :
    (i : ℕ) (options : List (Bytes × Bytes)) (m : List (Bytes × Bytes)) (k : Bytes)
    → AreKeys options
    → lookup k (parse_from i (map option options) m) ≡ last_given k options (lookup k m)
unfolding parse_from last_given AreKeys
parse_from-options i [] m k h = refl
parse_from-options i ((key, value) ∷ options) m k h =
    ap (λ n. lookup k (parse_from (suc i) (map option options) n))
      (parse_arg-option i key value m h.0)
    ∙ (parse_from-options (suc i) options (assign key value m) k h.1
        ∙ ap (last_given k options) (lookup-assign k key value m))

-- Of arguments `--key=value`, whose keys have no `=`, `parseArgs` makes a map with the value that
-- is given last for each key, and no other.
pub parse_args-options :
    (options : List (Bytes × Bytes)) (k : Bytes)
    → AreKeys options
    → lookup k (parse_args (map option options)) ≡ last_given k options none
unfolding parse_args lookup
parse_args-options options k h = parse_from-options 1 options [] k h
