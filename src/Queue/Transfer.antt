-- ===== src/Queue/Transfer.antt =====
-- `PutOnSHM` and `GetFromSHM`: one message written to and read from the region.
use streaming_gateway.Prelude.{ℕ, [], ◌∷◌, ◌==◌, ltb, length, take, if◌then◌else◌}
use streaming_gateway.Prelude.Run.{undefined, Cmd, pure, raise, ◌>>=◌, ◌>>◌, runtime_error}
use streaming_gateway.Manager.{add_size}
use streaming_gateway.Queue.{
  World, Message, from_relational_pointer, to_relational_pointer, ptr_on_processed,
  ptr_on_data_length, ptr_on_next, ptr_on_data, message_size_on_shm,
}
use streaming_gateway.Queue.Access.{load, load64, store, store64}

-- The last `memcpy` of `PutOnSHM`, of `dataLength` bytes; to read past `msg->data` is undefined.
unfoldable pub copy_data : Message → ℕ → Cmd World (Unit {0})
copy_data msg to =
    if ltb (length msg.bytes) msg.data_length
    then (λ _. undefined)
    else store to (take msg.data_length msg.bytes)

-- `PutOnSHM`, with its null test
unfoldable pub put_on_shm : Message → (message_start low_bound : ℕ) → Cmd World (Unit {0})
put_on_shm msg message_start low_bound = if message_start == 0 then raise runtime_error else do
  store (ptr_on_processed message_start) (0 ∷ [])
  store64 (ptr_on_data_length message_start) msg.data_length
  store64 (ptr_on_next message_start) (add_size message_start (message_size_on_shm msg))
  pos ← load64 (ptr_on_next message_start)
  store64 (ptr_on_next message_start) (to_relational_pointer low_bound pos)
  copy_data msg (ptr_on_data message_start)

-- `GetFromSHM` with `ack=true`, the only way it is called. Memory for the copy is always there.
unfoldable pub get_from_shm : (message_start low_bound : ℕ) → Cmd World Message
get_from_shm message_start low_bound = do
  data_length ← load64 (ptr_on_data_length message_start)
  position ← load64 (ptr_on_next message_start)
  bytes ← load (ptr_on_data message_start) data_length
  store (ptr_on_processed message_start) (1 ∷ [])
  pure (record {
    data_length = data_length;
    next_message_start = from_relational_pointer low_bound position;
    processed = ptr_on_processed message_start;
    bytes = bytes;
  })
