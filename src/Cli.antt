-- ===== src/Cli.antt =====
-- core/common/src/cli.{h,cpp}: `parseArgs`, over the arguments behind the program's name. The
-- complaint about a short option is left out.
pub mod Options
mod Tests
use streaming_gateway.Prelude.{
  ℕ, suc, ◌+◌, ◌-◌, Option, none, some, List, [], ◌∷◌, ◌++◌, Bytes, codes, take, drop, bytes_eq,
  ◌==◌, if◌then◌else◌,
}
use streaming_gateway.Prelude.Decimal.{to_string}
use streaming_gateway.Dict.{assign}

-- `arg.find('=')`, counted from `n`
unfoldable pub find_equals : ℕ → Bytes → Option ℕ
find_equals n [] = none
find_equals n (x ∷ xs) = let rest = find_equals (suc n) xs in if x == 61 then some n else rest

-- The body of the loop
unfoldable pub parse_arg : ℕ → Bytes → List (Bytes × Bytes) → List (Bytes × Bytes)
parse_arg i arg parsed_args =
    if bytes_eq (take 2 arg) (codes "--")
    then elim (find_equals 0 arg) [
      | some pos ↦ assign (take (pos - 2) (drop 2 arg)) (drop (pos + 1) arg) parsed_args
      | none ↦ assign (drop 2 arg) [] parsed_args
    ]
    else (if bytes_eq (take 1 arg) (codes "-")
        then parsed_args
        else assign (codes "arg" ++ to_string i) arg parsed_args)

-- The loop from the argument `i` on
unfoldable pub parse_from : ℕ → List Bytes → List (Bytes × Bytes) → List (Bytes × Bytes)
parse_from i [] parsed_args = parsed_args
parse_from i (arg ∷ argv) parsed_args = parse_from (suc i) argv (parse_arg i arg parsed_args)

unfoldable pub parse_args : List Bytes → List (Bytes × Bytes)
parse_args argv = parse_from 1 argv []
