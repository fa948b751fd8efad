-- ===== src/Queue/Published.antt =====
-- After `publish` the region holds the queue with the new message at its end.
use streaming_gateway.Prelude.{
  ℕ, ◌+◌, ◌-◌, ◌^◌, ◌≤◌, ◌<◌, ◌≡◌, refl, sym, ap, ◌∙◌, ◌⊎◌, inl, List, [], ◌∷◌, ◌++◌, Bytes, arith,
  length, ◌==◌, if◌then◌else◌,
}
use mathlib.Core.Path.{subst}
use streaming_gateway.Memory.{Cells, get64}
use streaming_gateway.Queue.{Message}
use streaming_gateway.Queue.Publish.{message_cells, metric_cells}
use streaming_gateway.Queue.Shape.{
  IsMessage, Laid, Laid-append, Laid-le, Laid-same, IsMessage-same, Shape, fresh, drained, busy,
  SameOn,
}
use streaming_gateway.Memory.Laws.{get64_same}
use streaming_gateway.Queue.Effect.{
  message_cells_outside, message_cells-IsMessage, metric_cells_outside, metric_cells-unlocked,
  metric_cells-head, metric_cells-rear, metric_cells-count,
}

unfoldable pub published : (base start : ℕ) → Message → Cells → Cells
published base start msg c = metric_cells base start (message_cells (base + 32) start msg c)

module _ (base start : ℕ) (msg : Message) (c : Cells) (order : base + 32 ≤ start)
    (high : start + 17 + msg.data_length ≤ 2 ^ 62) (full : msg.data_length ≡ length msg.bytes) where
  abbrev stored : Cells
  stored = message_cells (base + 32) start msg c

  word : (a : ℕ) → a + 8 ≤ start → get64 stored a ≡ get64 c a
  word a h = get64_same stored c a (λ b lo hi.
      message_cells_outside (base + 32) start msg c order (omega arith) full b (inl (omega arith)))

  -- Behind the metric only the new message's bytes change.
  pub published-outside :
      (b : ℕ)
      → base + 32 ≤ b
      → (b < start) ⊎ (start + 17 + msg.data_length ≤ b)
      → published base start msg c b ≡ c b
  unfolding published
  published-outside b lo side =
      metric_cells_outside base start stored (omega arith) (omega arith) b lo
      ∙ message_cells_outside (base + 32) start msg c order (omega arith) full b side

  pub published-same : SameOn (published base start msg c) c (base + 32) start
  published-same b lo hi = published-outside b lo (inl hi)

  pub published-IsMessage : IsMessage (published base start msg c) (base + 32) start msg.bytes
  unfolding published
  published-IsMessage =
      IsMessage-same {lo = base + 32} {hi = start + 17 + length msg.bytes} msg.bytes
        (λ b lo hi. metric_cells_outside base start stored (omega arith) (omega arith) b lo)
        (omega arith) (omega arith)
        (message_cells-IsMessage (base + 32) start msg c order (omega arith) full)

  pub published-head :
      get64 (published base start msg c) (base + 16)
      ≡ (if get64 c (base + 16) == 0 then start - base else get64 c (base + 16))
  unfolding published
  published-head =
      metric_cells-head base start stored (omega arith) (omega arith)
      ∙ ap (λ n. if n == 0 then start - base else n) (word (base + 16) (omega arith))

  pub published-rear : get64 (published base start msg c) (base + 24) ≡ start - base
  unfolding published
  published-rear = metric_cells-rear base start stored (omega arith) (omega arith)

  pub published-count :
      get64 c (base + 8) < 2 ^ 63
      → get64 (published base start msg c) (base + 8) ≡ get64 c (base + 8) + 1
  unfolding published
  published-count small =
      metric_cells-count base start stored (omega arith) (omega arith)
        (omega (arith, word (base + 8) (omega arith)))
      ∙ ap (λ n. n + 1) (word (base + 8) (omega arith))

  pub published-unlocked : published base start msg c base ≡ 0
  unfolding published
  published-unlocked = metric_cells-unlocked base start stored (omega arith) (omega arith)

  -- Where the head position is 0, the new message is the only one.
  pub published_first :
      get64 c (base + 16) ≡ 0
      → Shape (published base start msg c) base (msg.bytes ∷ []) (start + 17 + length msg.bytes)
  published_first h =
      busy [] msg.bytes start start refl (ground (arith, published-head)) order
        (omega (arith, published-rear)) refl published-IsMessage refl

module _ (base stop : ℕ) (msg : Message) (c : Cells) (high : stop + 17 + msg.data_length ≤ 2 ^ 62)
    (full : msg.data_length ≡ length msg.bytes) where
  pub published_append :
      {live : List Bytes}
      → Shape c base live stop
      → Shape
          (published base stop msg c)
          base
          (live ++ (msg.bytes ∷ []))
          (stop + 17 + length msg.bytes)
  published_append (fresh e h r s) =
      busy [] msg.bytes stop stop (ap (λ l. l ++ (msg.bytes ∷ [])) e)
        (ground (arith, published-head base stop msg c (omega arith) high full)) (omega arith)
        (omega (arith, published-rear base stop msg c (omega arith) high full)) refl
        (published-IsMessage base stop msg c (omega arith) high full) refl
  published_append (drained rear e h r l s t) =
      rw e (published_first base stop msg c (omega arith) high full h)
  published_append (busy init last head rear e h l r i m s) =
      let order = Laid-le c (base + 32) head init rear i in
      let above : base + 32 ≤ stop = omega (arith, order) in
      let same = published-same base stop msg c above high full in
      busy (init ++ (last ∷ [])) msg.bytes head stop (ap (λ l. l ++ (msg.bytes ∷ [])) e)
        (ground (arith, published-head base stop msg c above high full)) l
        (omega (arith, published-rear base stop msg c above high full))
        (Laid-same (base + 32) head (init ++ (last ∷ [])) stop same l (omega arith) (
          subst (Laid c (base + 32) head (init ++ (last ∷ []))) (sym s)
            (Laid-append c (base + 32) head init rear last i m)))
        (published-IsMessage base stop msg c above high full) refl
