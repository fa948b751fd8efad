-- ===== src/Cli/Tests.antt =====
-- A run of `parseArgs`, and the theorem at a concrete input.
use streaming_gateway.Prelude.{◌≡◌, refl, none, some, List, [], ◌∷◌, Bytes, codes, map}
use streaming_gateway.Prelude.Decimal.{to_string, digits}
use streaming_gateway.Dict.{lookup, assign}
use streaming_gateway.Cli.{find_equals, parse_arg, parse_from, parse_args}
use streaming_gateway.Cli.Options.{option, IsKey, AreKeys, last_given, parse_args-options}

run :
    lookup
      (codes "arg3")
      (parse_args (codes "-v" ∷ codes "--fast" ∷ codes "in" ∷ codes "--k=a=b" ∷ []))
    ≡ some (codes "in")
unfolding lookup assign to_string digits find_equals parse_arg parse_from parse_args
run = refl

abbrev options : List (Bytes × Bytes)
options = (codes "k", codes "a") ∷ (codes "n", codes "96") ∷ (codes "k", codes "b") ∷ []

options-AreKeys : AreKeys options
unfolding AreKeys IsKey
options-AreKeys = ((refl, tt), ((refl, tt), ((refl, tt), tt)))

parse_args-options_example :
    lookup (codes "k") (parse_args (map option options)) ≡ last_given (codes "k") options none
parse_args-options_example = parse_args-options options (codes "k") options-AreKeys
