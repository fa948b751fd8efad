-- ===== src/Queue/Effect.antt =====
-- The bytes after `publish`: the new message, the new positions, and all else as it was.
use streaming_gateway.Prelude.{
  ℕ, ◌+◌, ◌-◌, ◌%◌, ◌^◌, ◌≤◌, ◌<◌, ◌≡◌, ◌⊎◌, ◌∙◌, [], ◌∷◌, arith, ◌==◌, length, length-take, take,
  take_all, if◌then◌else◌,
}
use streaming_gateway.Memory.{Cells, write_bytes, get64, put64}
use streaming_gateway.Memory.Laws.{
  write_bytes_outside, put64_outside, get64-put64, get64-put64-Apart, get64-write_bytes,
  read_bytes-write_bytes, write_bytes_one,
}
use streaming_gateway.Queue.{Message}
use streaming_gateway.Queue.Publish.{message_cells, head_cells, metric_cells}
use streaming_gateway.Queue.Shape.{IsMessage}

module _ (q start : ℕ) (msg : Message) (c : Cells) (order : q ≤ start)
    (high : start + 17 + msg.data_length < 2 ^ 63) (full : msg.data_length ≡ length msg.bytes) where
  pub message_cells_outside :
      (b : ℕ)
      → (b < start) ⊎ (start + 17 + msg.data_length ≤ b)
      → message_cells q start msg c b ≡ c b
  unfolding message_cells
  message_cells_outside b h =
      write_bytes_outside _ _ (take msg.data_length msg.bytes) b
        (omega (arith, length-take msg.data_length msg.bytes))
      ∙ put64_outside _ _ _ b (omega arith)
      ∙ put64_outside _ _ _ b (omega arith)
      ∙ put64_outside _ _ _ b (omega arith)
      ∙ write_bytes_outside _ _ _ b (omega arith)

  -- the bytes with every address and value computed
  abbrev header : Cells
  header =
      put64 (put64 (write_bytes c start (0 ∷ [])) (start + 1) msg.data_length) (start + 9)
        (start + 17 + msg.data_length)

  abbrev linked : Cells
  linked = put64 header (start + 9) (start + 17 + msg.data_length - q)

  message_cells_plain : message_cells q start msg c ≡ write_bytes linked (start + 17) msg.bytes
  unfolding message_cells
  message_cells_plain = simp (at_length, at_next, at_data, behind, whole) (rw value)
    where
      at_length : (start + 1) % 2 ^ 64 ≡ start + 1
      at_length = omega arith

      at_next : (start + 9) % 2 ^ 64 ≡ start + 9
      at_next = omega arith

      at_data : (start + 9 + 8) % 2 ^ 64 ≡ start + 17
      at_data = omega arith

      behind :
          (start + (((8 + msg.data_length) % 2 ^ 64 + 8) % 2 ^ 64 + 1) % 2 ^ 64) % 2 ^ 64
          ≡ start + 17 + msg.data_length
      behind = omega arith

      whole : take msg.data_length msg.bytes ≡ msg.bytes
      whole = rw full (take_all msg.bytes)

      value : (get64 header (start + 9) + 2 ^ 64 - q) % 2 ^ 64 ≡ start + 17 + msg.data_length - q
      value = omega (
        arith,
        get64-put64 (put64 (write_bytes c start (0 ∷ [])) (start + 1) msg.data_length) (start + 9)
            (start + 17 + msg.data_length) (omega arith),
      )

  pub message_cells-IsMessage : IsMessage (message_cells q start msg c) q start msg.bytes
  message_cells-IsMessage = rw message_cells_plain (record {
    size =
        get64-write_bytes linked (start + 17) msg.bytes (start + 1) (omega arith)
        ∙ get64-put64-Apart _ _ _ _ (omega arith)
        ∙ get64-put64-Apart _ _ _ _ (omega arith)
        ∙ get64-put64 _ _ _ (omega arith)
        ∙ full;
    link = omega (
      arith,
      get64-write_bytes linked (start + 17) msg.bytes (start + 9) (omega arith),
      get64-put64 header (start + 9) (start + 17 + msg.data_length - q) (omega arith),
    );
    content = read_bytes-write_bytes linked (start + 17) msg.bytes;
  })

module _ (metric start : ℕ) (c : Cells) (order : metric ≤ start) (high : start < 2 ^ 63) where
  pub metric_cells_outside : (b : ℕ) → metric + 32 ≤ b → metric_cells metric start c b ≡ c b
  unfolding metric_cells
  metric_cells_outside b h =
      write_bytes_outside _ _ _ b (omega arith)
      ∙ put64_outside _ _ _ b (omega arith)
      ∙ put64_outside _ _ _ b (omega arith)
      ∙ ground (arith, put64_outside c (metric + 16) ((start + 2 ^ 64 - metric) % 2 ^ 64) b)

  pub metric_cells-unlocked : metric_cells metric start c metric ≡ 0
  unfolding metric_cells
  metric_cells-unlocked = write_bytes_one _ metric 0

  pub metric_cells-head :
      get64 (metric_cells metric start c) (metric + 16)
      ≡ (if get64 c (metric + 16) == 0 then start - metric else get64 c (metric + 16))
  unfolding metric_cells
  metric_cells-head =
      get64-write_bytes _ _ _ _ (omega arith)
      ∙ get64-put64-Apart _ _ _ _ (omega arith)
      ∙ get64-put64-Apart _ _ _ _ (omega arith)
      ∙ ground (arith, get64-put64 c (metric + 16) ((start + 2 ^ 64 - metric) % 2 ^ 64))

  pub metric_cells-rear : get64 (metric_cells metric start c) (metric + 24) ≡ start - metric
  unfolding metric_cells
  metric_cells-rear =
      get64-write_bytes _ _ _ _ (omega arith)
      ∙ get64-put64-Apart _ _ _ _ (omega arith)
      ∙ get64-put64 _ _ _ (omega arith)
      ∙ omega arith

  pub metric_cells-count :
      get64 c (metric + 8) < 2 ^ 63
      → get64 (metric_cells metric start c) (metric + 8) ≡ get64 c (metric + 8) + 1
  unfolding metric_cells
  metric_cells-count small =
      get64-write_bytes _ _ _ _ (omega arith)
      ∙ get64-put64 _ _ _ (omega arith)
      ∙ omega (arith, kept)
    where
      with_head : Cells
      with_head = head_cells metric start c

      kept :
          get64 (put64 with_head (metric + 24) ((start + 2 ^ 64 - metric) % 2 ^ 64)) (metric + 8)
          ≡ get64 c (metric + 8)
      kept =
          get64-put64-Apart with_head (metric + 24) _ (metric + 8) (omega arith)
          ∙ ground (
            arith,
            get64-put64-Apart c (metric + 16) ((start + 2 ^ 64 - metric) % 2 ^ 64) (metric + 8),
          )
