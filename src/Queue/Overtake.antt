-- ===== src/Queue/Overtake.antt =====
-- `Enqueue` at the end of the region goes on when the message at the front was taken, also while
-- others are left behind it: `JoinListener` looks at as many messages as the new one covers.
use mathlib.Core.Path.{subst}
use streaming_gateway.Prelude.{
  ℕ, ◌+◌, ◌^◌, ◌≤◌, ◌<◌, ◌≡◌, ◌∙◌, inl, inr, refl, sym, ap, [], ◌∷◌, Bytes, arith, length,
}
use streaming_gateway.Prelude.Run.{Run, ok}
use streaming_gateway.Memory.{Cells, get64}
use streaming_gateway.Memory.Laws.{get64_same}
use streaming_gateway.Manager.{SharedMemoryInfo, SharedMemoryManager}
use streaming_gateway.Queue.{World}
use streaming_gateway.Queue.Enqueue.{enqueue}
use streaming_gateway.Queue.Deque.{take_message, deque}
use streaming_gateway.Queue.Ready.{IsReady}
use streaming_gateway.Queue.Shape.{IsMessage, IsMessage-same, busy, Holds}
use streaming_gateway.Queue.Published.{
  published, published-outside, published-IsMessage, published-head, published-rear,
  published-count, published-unlocked,
}
use streaming_gateway.Queue.Append.{locked_cells, locked-same, released-Holds}
use streaming_gateway.Queue.Remove.{
  message_at, removed, removed-outside, removed-processed, removed-head, removed-count,
  removed-unlocked,
}
use streaming_gateway.Queue.Take.{next_head, deque_opened, locked-word, deque_at}
use streaming_gateway.Queue.Room.{enqueue_over}
use streaming_gateway.Queue.Fifo.{message}
use streaming_gateway.Queue.Endless.Position.{alone, released, released-same}
use streaming_gateway.Queue.Endless.Get.{cells_of}
use streaming_gateway.Queue.Overtake.Pair.{
  taker, IsPair, IsPair-same, IsOvertaken, taken_first, pair-Holds, overtaken,
}
pub mod Pair

module _ {region_name : Bytes} {info : SharedMemoryInfo} (g : SharedMemoryManager)
    (r : IsReady g region_name info) (x y : Bytes)
    (high : 66 + length x + length y ≤ info.byte_size) where
  open info use {mapped_addr as base, byte_size as size}

  enqueue_overtakes :
      (c : Cells) (z : Bytes)
      → IsPair c base x y
      → length z ≤ length x
      → size + 32 ≤ 83 + length x + length y + length z
      → (d : Cells) × (enqueue region_name
            (message z)
            (record { cells = c; manager = g; peers = taker region_name g ∷ [] })
          ≡ ok tt (alone g d))
        × IsOvertaken d base x y z
  enqueue_overtakes c z p small over =
      let open_cells : Cells = released base c in
      let free = (released-Holds (pair-Holds g r x y high c p)).unlocked in
      let (t, e, unlocked, count, head, processed, second) =
        taken_first g r x y high open_cells
          (IsPair-same (λ b lo. released-same base c b lo) free p) in
      let done =
        enqueue_over (record { cells = c; manager = g; peers = taker region_name g ∷ [] }) r
          (message z) (pair-Holds g r x y high c p) (omega arith) (omega arith) (inl (omega arith))
          (omega (arith, p.first.size, ap (get64 c) (assoc)))
          (omega (arith, p.first.size, ap (get64 c) assoc)) refl (ap (λ v. v base) e ∙ unlocked)
          (subst (λ v. 0 < v (base + 32)) (sym e) processed) in
      (
        published base (base + 32) (message z) (locked_cells base t),
        done ∙ ap after e,
        overtaken g r x y high t z count head second small,
      )
    where
      assoc : base + 33 ≡ base + 32 + 1
      assoc = omega arith

      after : Cells → Run World (Unit {0})
      after t = ok tt (alone g (published base (base + 32) (message z) (locked_cells base t)))

  deque_overtaken :
      (c : Cells) (z : Bytes)
      → IsOvertaken c base x y z
      → length z ≤ length x
      → (d : Cells) × (deque region_name (alone g c)
          ≡ ok (message_at (base + 49 + length x) y) (alone g d))
        × (get64 d (base + 8) ≡ 1)
        × (get64 d (base + 16) ≡ 66 + length x + length y)
        × (d base ≡ 0)
        × IsMessage d (base + 32) (base + 32) z
  deque_overtaken c z o small =
      let start : ℕ = base + 49 + length x in
      let new : ℕ = next_head (alone g c) r start y in
      let lock = locked-word (alone g c) r in
      let next : new ≡ 66 + length x + length y =
        ground (arith, o.rear, lock (base + 24) (omega arith)) in
      let locked_c : Cells = locked_cells base c in
      (
        removed base start new locked_c,
        deque_at (alone g c) r start y o.unlocked (omega (arith, o.count)) o.second
            (omega (arith, o.head)) (omega arith) (omega arith) (omega (arith, o.rear))
            (omega (arith, o.rear)),
        omega (
          arith,
          o.count,
          lock (base + 8) (omega arith),
          removed-count base start new locked_c (omega arith)
              (omega (arith, o.count, lock (base + 8) (omega arith)))
              (omega (arith, o.count, lock (base + 8) (omega arith))),
        ),
        removed-head base start new locked_c (omega arith) (omega (arith, r.high, next)) ∙ next,
        removed-unlocked base start new locked_c (omega arith),
        IsMessage-same {lo = base + 32} {hi = base + 49 + length x} z
            (λ b lo hi.
              removed-outside base start new locked_c (omega arith) b lo (omega arith)
              ∙ locked-same base (b + 1) c b (omega arith) (omega arith))
            (omega arith) (omega arith) o.third,
      )

  -- Two messages `x` and `y` fill the region from its front on, so that a third one, `z`, that is
  -- not longer than `x` does not fit behind them. If the handler's next step takes `x` alone,
  -- `Enqueue` of `z` goes on, the next `Deque` returns `y`, and the one after it reads behind `y`,
  -- although the message that is left, `z`, stands at the front.
  pub message_lost :
      (c : Cells) (z : Bytes)
      → IsPair c base x y
      → length z ≤ length x
      → size + 32 ≤ 83 + length x + length y + length z
      → (d : Cells) × (enqueue region_name
            (message z)
            (record { cells = c; manager = g; peers = taker region_name g ∷ [] })
          ≡ ok tt (alone g d))
        × (e : Cells) × (deque region_name (alone g d)
            ≡ ok (message_at (base + 49 + length x) y) (alone g e))
        × (get64 e (base + 8) ≡ 1)
        × IsMessage e (base + 32) (base + 32) z
        × (deque region_name (alone g e)
            ≡ take_message base
                (base + 32)
                (base + 66 + length x + length y)
                (alone g (locked_cells base e)))
  message_lost c z p small over =
      let (d, put, o) = enqueue_overtakes c z p small over in
      let (e, get, count, head, free, third) = deque_overtaken d z o small in
      let behind =
        deque_opened (alone g e) r (base + 66 + length x + length y) free (omega (arith, count))
          (omega (arith, head)) (omega arith) (omega arith) in
      (d, put, e, get, count, third, behind)
