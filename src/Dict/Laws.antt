-- ===== src/Dict/Laws.antt =====
-- Looking up after an update, and the keys staying unique.
use streaming_gateway.Prelude.{
  none, some, List, [], ◌∷◌, Bytes, bytes_eq, if◌then◌else◌, ◌≡◌, refl, arith, bytes_eq_refl,
  bytes_eq→eq,
}
use streaming_gateway.Dict.{lookup, insert, assign, erase, IsUnique}

bytes_eq_comm : (a b : Bytes) → bytes_eq a b ≡ bytes_eq b a
bytes_eq_comm [] [] = refl
bytes_eq_comm [] (y ∷ ys) = refl
bytes_eq_comm (x ∷ xs) [] = refl
bytes_eq_comm (x ∷ xs) (y ∷ ys) = ground (arith, bytes_eq_comm xs ys)

module _ {V : Type 0} where
  -- `find` after `m[k] = v`
  pub lookup-assign :
      (j k : Bytes) (v : V) (m : List (Bytes × V))
      → lookup j (assign k v m) ≡ (if bytes_eq k j then some v else lookup j m)
  unfolding lookup assign
  lookup-assign j k v [] = refl
  lookup-assign j k v ((i, w) ∷ m) = ground (
    arith,
    bytes_eq→eq i k,
    bytes_eq→eq i j,
    bytes_eq→eq k j,
    bytes_eq_refl k,
    bytes_eq_refl j,
    lookup-assign j k v m,
  )

  -- `find` after `insert` of a new key
  pub lookup-insert :
      (j k : Bytes) (v : V) (m : List (Bytes × V))
      → lookup k m ≡ none
      → lookup j (insert k v m) ≡ (if bytes_eq k j then some v else lookup j m)
  unfolding lookup insert
  lookup-insert j k v [] h = refl
  lookup-insert j k v ((i, w) ∷ m) h = ground (
    arith,
    bytes_eq→eq i k,
    bytes_eq→eq i j,
    bytes_eq→eq k j,
    bytes_eq_refl k,
    bytes_eq_refl j,
    lookup-insert j k v m,
  )

  pub insert-IsUnique :
      (k : Bytes) (v : V) (m : List (Bytes × V))
      → lookup k m ≡ none
      → IsUnique m
      → IsUnique (insert k v m)
  unfolding lookup insert
  insert-IsUnique k v [] h u = (refl, tt)
  insert-IsUnique k v ((i, w) ∷ m) h u =
      ground (arith, bytes_eq_comm i k, insert-IsUnique k v m, lookup-insert i k v m)

  -- `find` after `erase`
  pub lookup-erase :
      (j k : Bytes) (m : List (Bytes × V))
      → IsUnique m
      → lookup j (erase k m) ≡ (if bytes_eq k j then none else lookup j m)
  unfolding lookup erase
  lookup-erase j k [] u = ground arith
  lookup-erase j k ((i, w) ∷ m) u = ground (
    arith,
    bytes_eq→eq i k,
    bytes_eq→eq i j,
    bytes_eq→eq k j,
    bytes_eq_refl k,
    bytes_eq_refl j,
    lookup-erase j k m u.1,
  )

  pub erase-IsUnique : (k : Bytes) (m : List (Bytes × V)) → IsUnique m → IsUnique (erase k m)
  unfolding lookup erase
  erase-IsUnique k [] u = tt
  erase-IsUnique k ((i, w) ∷ m) u =
      ground (arith, erase-IsUnique k m u.1, lookup-erase i k m u.1, bytes_eq_comm i k)
