-- ===== src/Queue/Remove.antt =====
-- `Deque` of the oldest message.
use streaming_gateway.Prelude.{
  ℕ, ◌+◌, ◌-◌, ◌^◌, ◌≤◌, ◌<◌, ◌≡◌, ◌≢◌, ◌∙◌, [], ◌∷◌, Bytes, arith, length, ◌==◌, if◌then◌else◌,
}
use streaming_gateway.Prelude.Run.{ok}
use streaming_gateway.Memory.{Cells, write_bytes, get64, put64}
use streaming_gateway.Memory.Laws.{
  write_bytes_outside, get64-write_bytes, get64-put64, get64-put64-Apart, put64_outside,
  write_bytes_one,
}
use streaming_gateway.Manager.{SharedMemoryInfo}
use streaming_gateway.Queue.{
  World, Message, ptr_on_next, ptr_on_data, ptr_on_data_length, ptr_on_processed, sub_size,
}
use streaming_gateway.Queue.Access.{load, load64, store, store64}
use streaming_gateway.Queue.Metric.{
  head_position, rear_position, head_pos_local, rear_pos_local, set_head,
}
use streaming_gateway.Queue.Transfer.{get_from_shm}
use streaming_gateway.Queue.Deque.{advance_head}
use streaming_gateway.Queue.Ready.{IsReady, mapped}
use streaming_gateway.Queue.Shape.{IsMessage, SameOn}

-- What `Deque` returns for the message with these bytes at `start`
abbrev pub message_at : ℕ → Bytes → Message
message_at start bytes = record {
  data_length = length bytes;
  next_message_start = start + 17 + length bytes;
  processed = start;
  bytes = bytes;
}

abbrev pub acknowledged : ℕ → Cells → Cells
acknowledged start c = write_bytes c start (1 ∷ [])

module _ {region_name : Bytes} {info : SharedMemoryInfo} (w : World)
    (r : IsReady w.manager region_name info) (start : ℕ) (bytes : Bytes)
    (m : IsMessage w.cells (info.mapped_addr + 32) start bytes)
    (low : info.mapped_addr + 32 ≤ start)
    (high : start + 17 + length bytes ≤ info.mapped_addr + info.byte_size) where
  open info use {mapped_addr as base, byte_size as size}

  pub get_from_shm_lem :
      get_from_shm start (base + 32) w
      ≡ ok (message_at start bytes) (record w { cells = acknowledged start w.cells })
  unfolding get_from_shm load load64 store
  get_from_shm_lem = ground (
    arith,
    r.high,
    m.size,
    m.link,
    m.content,
    mapped r (ptr_on_data_length start) 8,
    mapped r (ptr_on_next start) 8,
    mapped r (ptr_on_data start) (length bytes),
    mapped r (ptr_on_processed start) 1,
  )

  -- the new head position
  abbrev pub new_head : ℕ
  new_head =
      if base + get64 w.cells (base + 24) == start then 0 else start + 17 + length bytes - base

  pub advance_head_lem :
      base + get64 w.cells (base + 16) ≡ start
      → base + get64 w.cells (base + 24) ≤ base + size
      → 32 ≤ get64 w.cells (base + 24)
      → advance_head base (base + 32) start w
        ≡ ok tt (record w { cells = put64 w.cells (base + 16) new_head })
  unfolding advance_head load64 store64 head_pos_local rear_pos_local set_head
  advance_head_lem e u o = ground (
    arith,
    r.high,
    r.room,
    m.link,
    mapped r (head_position base) 8,
    mapped r (rear_position base) 8,
    mapped r (ptr_on_next start) 8,
  )

-- The bytes after `take_message`
unfoldable pub removed : (base start new : ℕ) → Cells → Cells
removed base start new c =
    let c₁ : Cells = acknowledged start (put64 (acknowledged start c) (base + 16) new) in
    let c₂ : Cells = put64 c₁ (base + 8) (sub_size (get64 c₁ (base + 8)) 1) in
    write_bytes c₂ base (0 ∷ [])

module _ (base start new : ℕ) (c : Cells) (low : base + 32 ≤ start) where
  -- Behind the metric only the flag of the message changes.
  pub removed-outside : (b : ℕ) → base + 32 ≤ b → b ≢ start → removed base start new c b ≡ c b
  unfolding removed
  removed-outside b lo other =
      write_bytes_outside _ _ _ b (omega arith)
      ∙ put64_outside _ _ _ b (omega arith)
      ∙ write_bytes_outside _ _ _ b (omega arith)
      ∙ put64_outside _ _ _ b (omega arith)
      ∙ write_bytes_outside _ _ _ b (omega arith)

  pub removed-same : SameOn (removed base start new c) c (start + 1) (2 ^ 64)
  removed-same b lo hi = removed-outside b (omega arith) (omega arith)

  pub removed-processed : removed base start new c start ≡ 1
  unfolding removed
  removed-processed =
      write_bytes_outside _ _ _ _ (omega arith)
      ∙ put64_outside _ _ _ _ (omega arith)
      ∙ write_bytes_one _ start 1

  pub removed-unlocked : removed base start new c base ≡ 0
  unfolding removed
  removed-unlocked = write_bytes_one _ base 0

  pub removed-head : new < 2 ^ 64 → get64 (removed base start new c) (base + 16) ≡ new
  unfolding removed
  removed-head h =
      get64-write_bytes _ _ _ _ (omega arith)
      ∙ get64-put64-Apart _ _ _ _ (omega arith)
      ∙ get64-write_bytes _ _ _ _ (omega arith)
      ∙ get64-put64 _ _ _ h

  pub removed-rear : get64 (removed base start new c) (base + 24) ≡ get64 c (base + 24)
  unfolding removed
  removed-rear =
      get64-write_bytes _ _ _ _ (omega arith)
      ∙ get64-put64-Apart _ _ _ _ (omega arith)
      ∙ get64-write_bytes _ _ _ _ (omega arith)
      ∙ get64-put64-Apart _ _ _ _ (omega arith)
      ∙ get64-write_bytes _ _ _ _ (omega arith)

  pub removed-count :
      0 < get64 c (base + 8)
      → get64 c (base + 8) < 2 ^ 63
      → get64 (removed base start new c) (base + 8) + 1 ≡ get64 c (base + 8)
  unfolding removed
  removed-count p h = omega (
    arith,
    kept,
    get64-write_bytes (put64 c₁ (base + 8) (sub_size (get64 c₁ (base + 8)) 1)) base (0 ∷ [])
        (base + 8) (omega arith),
    get64-put64 c₁ (base + 8) (sub_size (get64 c₁ (base + 8)) 1) (omega arith),
  )
    where
      c₁ : Cells
      c₁ = acknowledged start (put64 (acknowledged start c) (base + 16) new)

      kept : get64 c₁ (base + 8) ≡ get64 c (base + 8)
      kept =
          get64-write_bytes _ _ _ _ (omega arith)
          ∙ get64-put64-Apart _ _ _ _ (omega arith)
          ∙ get64-write_bytes _ _ _ _ (omega arith)
