-- ===== src/Queue/Endless/Get.antt =====
-- `Deque` of the only message.
use mathlib.Core.Path.{subst}
use streaming_gateway.Prelude.{
  ℕ, ◌+◌, ◌^◌, ◌≤◌, ◌<◌, ◌≡◌, ◌≢◌, ◌∙◌, inl, inr, sym, ap, [], Bytes, arith, length,
}
use streaming_gateway.Prelude.Run.{Run, ok, throw, undefined, blocked}
use streaming_gateway.Memory.{Cells, get64}
use streaming_gateway.Memory.Laws.{get64_same}
use streaming_gateway.Manager.{SharedMemoryInfo, SharedMemoryManager}
use streaming_gateway.Queue.{World}
use streaming_gateway.Queue.Deque.{deque}
use streaming_gateway.Queue.Ready.{IsReady}
use streaming_gateway.Queue.Shape.{Holds}
use streaming_gateway.Queue.Append.{locked_cells, locked-same}
use streaming_gateway.Queue.Remove.{
  message_at, removed, removed-outside, removed-processed, removed-head,
}
use streaming_gateway.Queue.Take.{next_head, locked-word, deque_at}
use streaming_gateway.Queue.Oldest.{deque_oldest}
use streaming_gateway.Queue.Endless.Position.{
  IsMet, IsAt, Idle, One, IsMet-same, IsSingle, only_message, alone,
}

abbrev pub cells_of : {A : Type 0} → Run World A → Cells
cells_of (ok a w) = w.cells
cells_of (throw e w) = w.cells
cells_of undefined = λ a. 0
cells_of blocked = λ a. 0

module _ {region_name : Bytes} {info : SharedMemoryInfo} (g : SharedMemoryManager)
    (r : IsReady g region_name info) where
  open info use {mapped_addr as base, byte_size as size}

  abbrev pub Gets : Cells → Bytes → Type 0
  Gets c x =
      (start : ℕ) × (d : Cells) × (deque region_name (alone g c)
        ≡ ok (message_at start x) (alone g d))
      × Idle d info (length x) (start + 17 + length x)

  -- the region once the message at `start` was taken
  abbrev emptied : Cells → Bytes → ℕ → Cells
  emptied c x start = removed base start (next_head (alone g c) r start x) (locked_cells base c)

  emptied-same :
      (c : Cells) (x : Bytes) (start b : ℕ)
      → IsSingle c base x start
      → base + 32 ≤ b
      → b ≢ start
      → emptied c x start b ≡ c b
  emptied-same c x start b one lo other =
      removed-outside base start (next_head (alone g c) r start x) (locked_cells base c) one.low b
        lo other
      ∙ locked-same base (b + 1) c b (omega arith) (omega arith)

  after_first :
      (c : Cells) (x : Bytes) (start : ℕ)
      → IsSingle c base x start
      → start ≡ base + 32
      → IsMet (emptied c x start) base (length x) (start + 17 + length x)
  after_first c x start one e = record {
    size =
        get64_same (emptied c x start) c (base + 33)
          (λ b lo hi. emptied-same c x start b one (omega arith) (omega arith))
        ∙ ap (get64 c) (omega arith)
        ∙ one.stored.size;
    processed =
        subst (λ a. 0 < emptied c x start a) e
          (omega (
            arith,
            removed-processed base start (next_head (alone g c) r start x) (locked_cells base c)
                one.low,
          ));
    behind = omega (arith, one.low);
  }

  after_later :
      (c : Cells) (x : Bytes) (start : ℕ)
      → IsSingle c base x start
      → IsMet c base (length x) start
      → IsMet (emptied c x start) base (length x) (start + 17 + length x)
  after_later c x start one m =
      let still =
        IsMet-same (λ b lo hi. emptied-same c x start b one lo (omega (arith, m.behind))) m in
      record { size = still.size; processed = still.processed; behind = omega (arith, m.behind) }

  emptied-IsAt :
      (c : Cells) (x : Bytes) (start : ℕ)
      → IsSingle c base x start
      → IsAt c base (length x) start
      → IsAt (emptied c x start) base (length x) (start + 17 + length x)
  emptied-IsAt c x start one p = record {
    k = p.k + 1;
    place = omega arith;
    front = elim p.front [
      | inl e ↦ inr (after_first c x start one e)
      | inr m ↦ inr (after_later c x start one m)
    ];
  }

  emptied-head :
      (c : Cells) (x : Bytes) (start : ℕ)
      → IsSingle c base x start
      → start ≤ 2 ^ 62
      → get64 (emptied c x start) (base + 16) ≡ 0
  emptied-head c x start one high =
      let last : next_head (alone g c) r start x ≡ 0 =
        ground (arith, one.rear, locked-word (alone g c) r (base + 24) (omega arith)) in
      removed-head base start (next_head (alone g c) r start x) (locked_cells base c) one.low
        (omega (arith, last))
      ∙ last

  pub get_last : (c : Cells) (x : Bytes) (start : ℕ) → One c info x start → Gets c x
  get_last c x start o =
      let one = only_message c base x start o.holds.shape in
      let inside = o.holds.inside in
      let taken_at =
        deque_at (alone g c) r start x o.holds.unlocked (omega (arith, o.holds.count)) one.stored
          one.head one.low inside (omega (arith, one.rear)) (omega (arith, one.rear, one.low)) in
      let (start', d, e, h) = deque_oldest (alone g c) r o.holds in
      let same : d ≡ emptied c x start = ap cells_of (sym e ∙ taken_at) in
      (
        start,
        emptied c x start,
        taken_at,
        record {
          holds = subst (λ d. Holds d info [] (start + 17 + length x)) same h;
          position = emptied-IsAt c x start one o.position;
          head = inr (emptied-head c x start one (omega (arith, inside, r.high)));
        },
      )
