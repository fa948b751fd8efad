-- ===== src/Queue/Join.antt =====
-- `TraversalQueue`, `AnyMessageInProgress` and `JoinListener`: the wait for the listener before the
-- queue starts over at the front of the region.
use streaming_gateway.Prelude.{
  ℕ, zero, suc, ◌+◌, Bool, true, false, List, [], ◌∷◌, ◌++◌, Bytes, ltb, ◌==◌,
}
use streaming_gateway.Prelude.Run.{Run, ok, throw, undefined, blocked, Cmd, pure, ◌>>=◌}
use streaming_gateway.Memory.{Cells}
use streaming_gateway.Manager.{add_size}
use streaming_gateway.Queue.{
  World, Message, from_relational_pointer, ptr_on_processed, ptr_on_data_length, ptr_on_next,
  message_size_on_shm, message_size_without_data,
}
use streaming_gateway.Queue.Access.{load, load64}

-- The loop of `TraversalQueue`, with the addresses found so far. A round adds a message's size, 17
-- at least, to the distance.
unfoldable pub traversal_loop :
    (fuel max_offset current traversal_distance : ℕ) → List ℕ → Cmd World (List ℕ)
traversal_loop zero max_offset current traversal_distance addresses = λ _. blocked
traversal_loop (suc fuel) max_offset current traversal_distance addresses = do
  message_data_length ← load64 (ptr_on_data_length current)
  next ← load64 (ptr_on_next current)
  let distance =
      add_size traversal_distance (add_size message_size_without_data message_data_length)
  let found = addresses ++ (current ∷ [])
  elim (ltb distance max_offset) [
    | true ↦ traversal_loop fuel max_offset (from_relational_pointer current next) distance found
    | false ↦ pure found
  ]

-- `TraversalQueue`
unfoldable pub traversal_queue : (start max_offset : ℕ) → Cmd World (List ℕ)
traversal_queue start max_offset = traversal_loop (max_offset + 1) max_offset start 0 []

abbrev is_clear : Bytes → Bool
is_clear [] = true
is_clear (b ∷ _) = b == 0

-- `AnyMessageInProgress`
unfoldable pub any_message_in_progress : List ℕ → Cmd World Bool
any_message_in_progress [] = pure false
any_message_in_progress (address ∷ addresses) = do
  processed ← load (ptr_on_processed address) 1
  elim (is_clear processed) [ true ↦ pure true | false ↦ any_message_in_progress addresses ]

-- The loop of `JoinListener`: sleep, in which a peer may step, then test.
unfoldable pub wait_processed : List ℕ → List (Cells → Cells) → World → Run World (Unit {0})
wait_processed addresses [] w = elim (any_message_in_progress addresses w) [
  | ok false w' ↦ ok tt w'
  | ok true w' ↦ blocked
  | throw e w' ↦ throw e w'
  | undefined ↦ undefined
  | blocked ↦ blocked
]
wait_processed addresses (p ∷ ps) w =
    let w₁ : World = record w { cells = p w.cells; peers = ps } in
    elim (any_message_in_progress addresses w₁) [
      | ok false w' ↦ ok tt w'
      | ok true w' ↦ wait_processed addresses ps w₁
      | throw e w' ↦ throw e w'
      | undefined ↦ undefined
      | blocked ↦ blocked
    ]

-- `JoinListener`
unfoldable pub join_listener : ℕ → Message → Cmd World (Unit {0})
join_listener head msg = do
  neighbour_addresses ← traversal_queue head (message_size_on_shm msg)
  λ w. wait_processed neighbour_addresses w.peers w
