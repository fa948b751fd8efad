-- ===== src/Queue/Overtake/Pair.antt =====
-- Two messages that fill the region, one of which is taken while `Enqueue` waits.
use streaming_gateway.Prelude.{
  ℕ, ◌+◌, ◌^◌, ◌≤◌, ◌<◌, ◌≡◌, ◌∙◌, inr, refl, ap, [], ◌∷◌, Bytes, arith, length,
}
use streaming_gateway.Memory.{Cells, get64}
use streaming_gateway.Memory.Laws.{get64_same}
use streaming_gateway.Manager.{SharedMemoryInfo, SharedMemoryManager}
use streaming_gateway.Queue.Deque.{deque}
use streaming_gateway.Queue.Ready.{IsReady}
use streaming_gateway.Queue.Shape.{IsMessage, IsMessage-same, busy, Holds}
use streaming_gateway.Queue.Published.{
  published, published-outside, published-IsMessage, published-head, published-rear,
  published-count, published-unlocked,
}
use streaming_gateway.Queue.Append.{locked_cells, locked-same}
use streaming_gateway.Queue.Remove.{
  removed, removed-outside, removed-processed, removed-head, removed-count, removed-unlocked,
}
use streaming_gateway.Queue.Take.{next_head, locked-word, deque_at}
use streaming_gateway.Queue.Fifo.{message}
use streaming_gateway.Queue.Endless.Position.{alone}
use streaming_gateway.Queue.Endless.Get.{cells_of}

-- A step of the handler: it takes the oldest message.
abbrev pub taker : Bytes → SharedMemoryManager → Cells → Cells
taker region_name g c = cells_of (deque region_name (alone g c))

-- Two messages are left, the older one at the front of the region, which has no lock taken.
pub record IsPair (c : Cells) (base : ℕ) (x y : Bytes) : Type 0 where
  pub unlocked : c base ≡ 0
  pub count : get64 c (base + 8) ≡ 2
  pub head : get64 c (base + 16) ≡ 32
  pub rear : get64 c (base + 24) ≡ 49 + length x
  pub first : IsMessage c (base + 32) (base + 32) x
  pub second : IsMessage c (base + 32) (base + 49 + length x) y

pub IsPair-same :
    {c d : Cells} {base : ℕ} {x y : Bytes}
    → ((b : ℕ) → base + 8 ≤ b → d b ≡ c b)
    → d base ≡ 0
    → IsPair c base x y
    → IsPair d base x y
IsPair-same {c} {d} {base} {x} {y} same free p = record {
  unlocked = free;
  count = get64_same d c (base + 8) (λ b lo hi. same b (omega arith)) ∙ p.count;
  head = get64_same d c (base + 16) (λ b lo hi. same b (omega arith)) ∙ p.head;
  rear = get64_same d c (base + 24) (λ b lo hi. same b (omega arith)) ∙ p.rear;
  first =
      IsMessage-same {lo = base + 32} {hi = base + 49 + length x} x
        (λ b lo hi. same b (omega arith)) (omega arith) (omega arith) p.first;
  second =
      IsMessage-same {lo = base + 32} {hi = base + 66 + length x + length y} y
        (λ b lo hi. same b (omega arith)) (omega arith) (omega arith) p.second;
}

-- What is left when the new message `z` stands at the front and `y` was not taken yet
pub record IsOvertaken (c : Cells) (base : ℕ) (x y z : Bytes) : Type 0 where
  pub unlocked : c base ≡ 0
  pub count : get64 c (base + 8) ≡ 2
  pub head : get64 c (base + 16) ≡ 49 + length x
  pub rear : get64 c (base + 24) ≡ 32
  pub second : IsMessage c (base + 32) (base + 49 + length x) y
  pub third : IsMessage c (base + 32) (base + 32) z

module _ {region_name : Bytes} {info : SharedMemoryInfo} (g : SharedMemoryManager)
    (r : IsReady g region_name info) (x y : Bytes)
    (high : 66 + length x + length y ≤ info.byte_size) where
  open info use {mapped_addr as base, byte_size as size}

  -- The handler takes the first message.
  pub taken_first :
      (c : Cells)
      → IsPair c base x y
      → (d : Cells) × (taker region_name g c ≡ d)
        × (d base ≡ 0)
        × (get64 d (base + 8) ≡ 1)
        × (get64 d (base + 16) ≡ 49 + length x)
        × (0 < d (base + 32))
        × IsMessage d (base + 32) (base + 49 + length x) y
  taken_first c p =
      let e =
        deque_at (alone g c) r (base + 32) x p.unlocked (omega (arith, p.count)) p.first
          (omega (arith, p.head)) (omega arith) (omega arith) (omega (arith, p.rear))
          (omega (arith, p.rear)) in
      let lock = locked-word (alone g c) r in
      let new : ℕ = next_head (alone g c) r (base + 32) x in
      let next : new ≡ 49 + length x = ground (arith, p.rear, lock (base + 24) (omega arith)) in
      let d : Cells = removed base (base + 32) new (locked_cells base c) in
      (
        d,
        ap cells_of e,
        removed-unlocked base (base + 32) new (locked_cells base c) (omega arith),
        omega (
          arith,
          p.count,
          lock (base + 8) (omega arith),
          removed-count base (base + 32) new (locked_cells base c) (omega arith)
              (omega (arith, p.count, lock (base + 8) (omega arith)))
              (omega (arith, p.count, lock (base + 8) (omega arith))),
        ),
        removed-head base (base + 32) new (locked_cells base c) (omega arith)
              (omega (arith, r.high, next))
            ∙ next,
        omega (arith, removed-processed base (base + 32) new (locked_cells base c) (omega arith)),
        IsMessage-same {lo = base + 33} {hi = base + 66 + length x + length y} y
            (λ b lo hi.
              removed-outside base (base + 32) new (locked_cells base c) (omega arith) b
                (omega arith) (omega arith)
              ∙ locked-same base (b + 1) c b (omega arith) (omega arith))
            (omega arith) (omega arith) p.second,
      )

  pub pair-Holds :
      (c : Cells) → IsPair c base x y → Holds c info (x ∷ y ∷ []) (base + 66 + length x + length y)
  pair-Holds c p = record {
    unlocked = p.unlocked;
    count = p.count;
    shape =
        busy (x ∷ []) y (base + 32) (base + 49 + length x) refl (omega (arith, p.head))
          (omega arith) (omega (arith, p.rear)) (p.first, omega arith) p.second (omega arith);
    inside = omega arith;
  }

  pub overtaken :
      (t : Cells) (z : Bytes)
      → get64 t (base + 8) ≡ 1
      → get64 t (base + 16) ≡ 49 + length x
      → IsMessage t (base + 32) (base + 49 + length x) y
      → length z ≤ length x
      → IsOvertaken (published base (base + 32) (message z) (locked_cells base t)) base x y z
  overtaken t z count head second small =
      let c : Cells = locked_cells base t in
      let in_region : base + 32 + 17 + length z ≤ 2 ^ 62 = omega (arith, r.high) in
      let word : (a : ℕ) → base + 8 ≤ a → get64 c a ≡ get64 t a = λ a lo.
        get64_same c t a (λ b l u. locked-same base (b + 1) t b (omega arith) (omega arith)) in
      record {
        unlocked = published-unlocked base (base + 32) (message z) c (omega arith) in_region refl;
        count = omega (
          arith,
          count,
          word (base + 8) (omega arith),
          published-count base (base + 32) (message z) c (omega arith) in_region refl
              (omega (arith, count, word (base + 8) (omega arith))),
        );
        head = ground (
          arith,
          head,
          word (base + 16) (omega arith),
          published-head base (base + 32) (message z) c (omega arith) in_region refl,
        );
        rear =
            omega
              (arith, published-rear base (base + 32) (message z) c (omega arith) in_region refl);
        second =
            IsMessage-same {lo = base + 49 + length x} {hi = base + 66 + length x + length y} y
              (λ b lo hi.
                published-outside base (base + 32) (message z) c (omega arith) in_region refl b
                  (omega arith) (inr (omega arith))
                ∙ locked-same base (b + 1) t b (omega arith) (omega arith))
              (omega arith) (omega arith) second;
        third = published-IsMessage base (base + 32) (message z) c (omega arith) in_region refl;
      }
