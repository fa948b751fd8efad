-- ===== src/Dict.antt =====
-- `std::map<std::string, V>`: an association list in ascending order of its keys.
pub mod Laws
use streaming_gateway.Prelude.{
  Bool, Option, none, some, List, [], ◌∷◌, Bytes, bytes_eq, bytes_lt, if◌then◌else◌, ◌≡◌, ◌++◌,
}

module _ {V : Type 0} where
  -- `find`
  unfoldable pub lookup : Bytes → List (Bytes × V) → Option V
  lookup k [] = none
  lookup k ((j, v) ∷ m) = if bytes_eq j k then some v else lookup k m

  -- `insert`, which leaves an entry that is there
  unfoldable pub insert : Bytes → V → List (Bytes × V) → List (Bytes × V)
  insert k v [] = (k, v) ∷ []
  insert k v ((j, w) ∷ m) =
      let rest = insert k v m in
      if bytes_eq j k
      then (j, w) ∷ m
      else (if bytes_lt k j then (k, v) ∷ (j, w) ∷ m else (j, w) ∷ rest)

  -- `m[k] = v`
  unfoldable pub assign : Bytes → V → List (Bytes × V) → List (Bytes × V)
  assign k v [] = (k, v) ∷ []
  assign k v ((j, w) ∷ m) =
      let rest = assign k v m in
      if bytes_eq j k
      then (j, v) ∷ m
      else (if bytes_lt k j then (k, v) ∷ (j, w) ∷ m else (j, w) ∷ rest)

  -- `erase` of the entry that `find` gives
  unfoldable pub erase : Bytes → List (Bytes × V) → List (Bytes × V)
  erase k [] = []
  erase k ((j, w) ∷ m) = let rest = erase k m in if bytes_eq j k then m else (j, w) ∷ rest

  -- No key stands twice.
  abbrev pub IsUnique : List (Bytes × V) → Type 0
  IsUnique [] = Unit
  IsUnique ((j, v) ∷ m) = (lookup j m ≡ none) × IsUnique m
