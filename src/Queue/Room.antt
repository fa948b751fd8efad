-- ===== src/Queue/Room.antt =====
-- The branch of `Enqueue` under `// queue overflow`: the wait for the message at the front.
use streaming_gateway.Prelude.{
  ℕ, ◌+◌, ◌^◌, ◌≤◌, ◌<◌, ◌≡◌, ◌⊎◌, ◌∙◌, refl, sym, inl, inr, ap, true, false, List, [], ◌∷◌, Bytes,
  arith, length,
}
use mathlib.Core.Path.{subst}
use native.Mathlib.Numerals.{add-one}
use streaming_gateway.Prelude.Run.{ok}
use streaming_gateway.Memory.{Cells, write_bytes, get64, read_bytes}
use streaming_gateway.Memory.Laws.{get64-write_bytes, get64_same}
use streaming_gateway.Manager.{SharedMemoryInfo}
use streaming_gateway.Queue.{World, Message, message_size_on_shm, ptr_on_data_length, ptr_on_next}
use streaming_gateway.Queue.Access.{load, load64, store}
use streaming_gateway.Queue.Metric.{message_cnt, head_position, unlock, head_pos_local}
use streaming_gateway.Queue.Join.{
  traversal_loop, traversal_queue, any_message_in_progress, wait_processed, join_listener,
}
use streaming_gateway.Queue.Enqueue.{is_overflow, make_room, enqueue}
use streaming_gateway.Queue.Ready.{IsReady, mapped, acquire_free}
use streaming_gateway.Queue.Publish.{publish_lem}
use streaming_gateway.Queue.Published.{published}
use streaming_gateway.Queue.Shape.{Holds}
use streaming_gateway.Queue.Append.{enqueue_opened, taken, locked_cells, locked-same}

-- The world after a sleep: the next peer, if there is one, has made its step.
abbrev pub after_sleep : List (Cells → Cells) → World → World
after_sleep [] w = w
after_sleep (p ∷ ps) w = record w { cells = p w.cells; peers = ps }

abbrev pub slept : World → World
slept w = after_sleep w.peers w

-- The wait ends after the first sleep if all messages are processed then.
wait_over :
    (addresses : List ℕ) (ps : List (Cells → Cells)) (w : World)
    → any_message_in_progress addresses (after_sleep ps w) ≡ ok false (after_sleep ps w)
    → wait_processed addresses ps w ≡ ok tt (after_sleep ps w)
unfolding wait_processed
wait_over addresses [] w e = rw (wait_processed, e) refl
wait_over addresses (p ∷ ps) w e = rw (wait_processed, e) refl

after_sleep-manager :
    (ps : List (Cells → Cells)) (w : World) → (after_sleep ps w).manager ≡ w.manager
after_sleep-manager [] w = refl
after_sleep-manager (p ∷ ps) w = refl

module _ {region_name : Bytes} {info : SharedMemoryInfo} (w : World)
    (r : IsReady w.manager region_name info) where
  open info use {mapped_addr as base, byte_size as size}

  -- The message at the front alone covers the distance.
  pub traversal_front :
      (max_offset : ℕ)
      → max_offset ≤ 17 + get64 w.cells (base + 33)
      → 17 + get64 w.cells (base + 33) < 2 ^ 63
      → 49 ≤ size
      → traversal_queue (base + 32) max_offset w ≡ ok ((base + 32) ∷ []) w
  unfolding traversal_queue traversal_loop load64
  traversal_front max_offset covers small room = rw add-one (
      ground (
        arith,
        r.high,
        ap (get64 w.cells) (same),
        mapped r (ptr_on_data_length (base + 32)) 8,
        mapped r (ptr_on_next (base + 32)) 8,
      ))
    where
      same : ptr_on_data_length (base + 32) ≡ base + 33
      same = omega (arith, r.high)

  -- A front message that was taken is not waited for.
  any_message_taken :
      0 < w.cells (base + 32)
      → 49 ≤ size
      → any_message_in_progress ((base + 32) ∷ []) w ≡ ok false w
  unfolding any_message_in_progress load read_bytes
  any_message_taken h room = ground (arith, mapped r (base + 32) 1)

  unlock_lem : unlock base w ≡ ok tt (record w { cells = write_bytes w.cells base (0 ∷ []) })
  unfolding unlock store
  unlock_lem = ground (arith, r.room, mapped r base 1)

module _ {region_name : Bytes} {info : SharedMemoryInfo} (w : World)
    (r : IsReady w.manager region_name info) where
  open info use {mapped_addr as base, byte_size as size}

  -- the lock is given back for the wait
  abbrev pub opened : World
  opened = record w { cells = write_bytes w.cells base (0 ∷ []) }

  front_only :
      (msg : Message)
      → msg.data_length ≤ get64 w.cells (base + 33)
      → 17 + get64 w.cells (base + 33) < 2 ^ 63
      → 49 ≤ size
      → traversal_queue (base + 32) (message_size_on_shm msg) opened ≡ ok ((base + 32) ∷ []) opened
  front_only msg covers small room =
      let same : get64 opened.cells (base + 33) ≡ get64 w.cells (base + 33) =
        get64-write_bytes w.cells base (0 ∷ []) (base + 33) (omega arith) in
      traversal_front opened r (message_size_on_shm msg) (omega (arith, same)) (omega (arith, same))
        room

  pub make_room_lem :
      (msg : Message)
      → (0 < get64 w.cells (base + 8)) ⊎ (get64 w.cells (base + 16) ≡ 0)
      → msg.data_length ≤ get64 w.cells (base + 33)
      → 17 + get64 w.cells (base + 33) < 2 ^ 63
      → 49 ≤ size
      → IsReady (slept opened).manager region_name info
      → (slept opened).cells base ≡ 0
      → 0 < (slept opened).cells (base + 32)
      → make_room base (base + 32) msg w
        ≡ ok tt (record (slept opened) { cells = locked_cells base (slept opened).cells })
  unfolding make_room join_listener load64 head_pos_local
  make_room_lem msg needed covers small room ready free processed = ground (
    arith,
    r.high,
    r.low,
    unlock_lem w r,
    mapped r (message_cnt base) 8,
    mapped r (head_position base) 8,
    front_only msg covers small room,
    wait_over ((base + 32) ∷ []) w.peers opened
        (any_message_taken (slept opened) ready processed room),
    acquire_free (slept opened) ready free,
  )

module _ {region_name : Bytes} {info : SharedMemoryInfo} (w : World)
    (r : IsReady w.manager region_name info) where
  open info use {mapped_addr as base, byte_size as size}

  -- the world after the first sleep of the wait
  abbrev pub meanwhile : World
  meanwhile = slept (opened (taken w r) r)

  -- Where the message at the front is as large as the new one, and was taken by the end of the
  -- first sleep, `Enqueue` puts the new one at the front.
  pub enqueue_over :
      {live : List Bytes} {stop : ℕ} (msg : Message)
      → Holds w.cells info live stop
      → base + size + 32 ≤ stop + 17 + msg.data_length
      → 49 + msg.data_length ≤ size
      → (0 < length live) ⊎ (get64 w.cells (base + 16) ≡ 0)
      → msg.data_length ≤ get64 w.cells (base + 33)
      → get64 w.cells (base + 33) ≤ size
      → msg.data_length ≡ length msg.bytes
      → meanwhile.cells base ≡ 0
      → 0 < meanwhile.cells (base + 32)
      → enqueue region_name msg w
        ≡ ok tt (record meanwhile {
          cells = published base (base + 32) msg (locked_cells base meanwhile.cells);
        })
  unfolding is_overflow published
  enqueue_over {stop} msg h over fits needed covers front full free processed =
      let overflow : is_overflow (base + 32) size stop (message_size_on_shm msg) ≡ true =
        ground (arith, r.high, h.inside) in
      let ready : IsReady meanwhile.manager region_name info =
        subst (λ g. IsReady g region_name info)
          (sym (after_sleep-manager w.peers (opened (taken w r) r))) r in
      let room =
        make_room_lem (taken w r) r msg waits (omega (arith, word (base + 33) (omega arith)))
          (omega (arith, r.high, word (base + 33) (omega arith))) (omega arith) ready free
          processed in
      let again : World = record meanwhile { cells = locked_cells base meanwhile.cells } in
      let put =
        publish_lem again ready (base + 32) (base + 32) msg (omega arith) (omega arith) full in
      enqueue_opened w r msg h ∙ rw overflow (ground (arith, room, put))
    where
      word : (a : ℕ) → base + 8 ≤ a → get64 (locked_cells base w.cells) a ≡ get64 w.cells a
      word a lo =
          get64_same (locked_cells base w.cells) w.cells a
            (λ b l u. locked-same base (a + 8) w.cells b (omega arith) u)

      waits : (0 < get64 (taken w r).cells (base + 8)) ⊎ (get64 (taken w r).cells (base + 16) ≡ 0)
      waits = elim needed [
        | inl e ↦ inl (omega (arith, word (base + 8) (omega arith), h.count))
        | inr e ↦ inr (word (base + 16) (omega arith) ∙ e)
      ]
