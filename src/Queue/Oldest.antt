-- ===== src/Queue/Oldest.antt =====
-- `Deque` takes the oldest message, and the rest stay in order.
use mathlib.Core.Path.{subst, subst₂}
use streaming_gateway.Prelude.{
  ℕ, suc, ◌+◌, ◌-◌, ◌^◌, ◌≤◌, ◌<◌, ◌≡◌, ◌≢◌, refl, sym, ap, ◌∙◌, List, [], ◌∷◌, ◌++◌, Bytes, arith,
  length,
}
use streaming_gateway.Prelude.Run.{ok}
use streaming_gateway.Memory.{Cells, get64}
use streaming_gateway.Memory.Laws.{get64_same}
use streaming_gateway.Manager.{SharedMemoryInfo}
use streaming_gateway.Queue.{World}
use streaming_gateway.Queue.Deque.{deque}
use streaming_gateway.Queue.Ready.{IsReady}
use streaming_gateway.Queue.Shape.{
  IsMessage, Laid, Laid-le, Laid-same, IsMessage-same, Shape, fresh, drained, busy, Shape-bounds,
  Holds,
}
use streaming_gateway.Queue.Append.{locked-same}
use streaming_gateway.Queue.Remove.{
  message_at, removed, removed-same, removed-unlocked, removed-head, removed-rear, removed-count,
}
use streaming_gateway.Queue.Take.{locked, locked-word, next_head, deque_at}

pub cons≢nil : {x : Bytes} {xs : List Bytes} → x ∷ xs ≢ []
cons≢nil e = cc e

module _ (base start new : ℕ) (c : Cells) (low : base + 32 ≤ start) where
  abbrev after : Cells
  after = removed base start new c

  -- The message was the last one: all are taken.
  removed_last :
      (last : Bytes)
      → IsMessage c (base + 32) start last
      → start + 17 + length last < 2 ^ 64
      → base + get64 c (base + 24) ≡ start
      → new ≡ 0
      → Shape after base [] (start + 17 + length last)
  removed_last last m high e z =
      drained start refl (removed-head base start new c low (omega arith) ∙ z)
        (omega (arith, removed-rear base start new c low)) low
        (omega (
          arith,
          m.link,
          get64_same after c (start + 9)
              (λ b lo hi. removed-same base start new c low b (omega arith) (omega arith)),
        ))
        (omega arith)

  -- Others follow it: the head goes to the next.
  removed_first :
      (x : Bytes) (init : List Bytes) (last : Bytes) (rear : ℕ)
      → Laid c (base + 32) (start + 17 + length x) init rear
      → IsMessage c (base + 32) rear last
      → rear + 17 + length last < 2 ^ 64
      → base + get64 c (base + 24) ≡ rear
      → new ≡ start + 17 + length x - base
      → Shape after base (init ++ (last ∷ [])) (rear + 17 + length last)
  removed_first x init last rear l m high e z =
      let order = Laid-le c (base + 32) (start + 17 + length x) init rear l in
      let same = removed-same base start new c low in
      busy init last (start + 17 + length x) rear refl
        (omega (arith, order, removed-head base start new c low (omega (arith, order))))
        (omega arith) (omega (arith, removed-rear base start new c low))
        (Laid-same (base + 32) (start + 17 + length x) init rear same (omega arith) (omega arith) l)
        (IsMessage-same last same (omega (arith, order)) (omega arith) m) refl

module _ {region_name : Bytes} {info : SharedMemoryInfo} (w : World)
    (r : IsReady w.manager region_name info) where
  open info use {mapped_addr as base, byte_size as size}

  -- `Deque` returns the message, and the region holds the rest.
  abbrev pub Takes : Bytes → List Bytes → ℕ → Type 0
  Takes x rest stop =
      (start : ℕ) × (c : Cells) × (deque region_name w
        ≡ ok (message_at start x) (record w { cells = c }))
      × Holds c info rest stop

  deque_step :
      (start : ℕ) (x : Bytes) (rest : List Bytes) (stop : ℕ)
      → w.cells base ≡ 0
      → get64 w.cells (base + 8) ≡ suc (length rest)
      → length rest < 2 ^ 62
      → IsMessage w.cells (base + 32) start x
      → base + get64 w.cells (base + 16) ≡ start
      → base + 32 ≤ start
      → start + 17 + length x ≤ base + size
      → base + get64 w.cells (base + 24) ≤ base + size
      → start ≤ base + get64 w.cells (base + 24)
      → Shape (removed base start (next_head w r start x) (locked w r).cells) base rest stop
      → stop ≤ base + size
      → Takes x rest stop
  deque_step start x rest stop free count few m front low high u o shape inside = (
    start,
    removed base start (next_head w r start x) (locked w r).cells,
    deque_at w r start x free (omega arith) m front low high (omega arith) (omega arith),
    record {
      unlocked = removed-unlocked base start (next_head w r start x) (locked w r).cells low;
      count = omega (
        arith,
        locked-word w r (base + 8) (omega arith),
        removed-count base start (next_head w r start x) (locked w r).cells low
            (omega (arith, locked-word w r (base + 8) (omega arith)))
            (omega (arith, locked-word w r (base + 8) (omega arith))),
      );
      shape = shape;
      inside = inside;
    },
  )

  deque_last :
      (start : ℕ) (last : Bytes) (stop : ℕ)
      → w.cells base ≡ 0
      → get64 w.cells (base + 8) ≡ 1
      → IsMessage w.cells (base + 32) start last
      → base + get64 w.cells (base + 16) ≡ start
      → base + 32 ≤ start
      → base + get64 w.cells (base + 24) ≡ start
      → stop ≡ start + 17 + length last
      → stop ≤ base + size
      → Takes last [] stop
  deque_last start last stop free count m front low back e inside =
      let rear = locked-word w r (base + 24) (omega arith) in
      let link = locked-word w r (start + 9) (omega arith) in
      deque_step start last [] stop free count (omega arith) m front low (omega arith) (omega arith)
        (omega arith)
        (subst (Shape (removed base start (next_head w r start last) (locked w r).cells) base [])
          (sym e)
          (removed_last base start (next_head w r start last) (locked w r).cells low last
            (locked-message start last low m) (omega (arith, r.high)) (omega (arith, rear))
            (ground (arith, rear))))
        inside
    where
      locked-message :
          (start : ℕ) (x : Bytes)
          → base + 32 ≤ start
          → IsMessage w.cells (base + 32) start x
          → IsMessage (locked w r).cells (base + 32) start x
      locked-message start x low m =
          IsMessage-same {lo = base + 8} {hi = start + 17 + length x} x
            (locked-same base (start + 17 + length x) w.cells) (omega arith) (omega arith) m

  deque_first :
      (start : ℕ) (x : Bytes) (init : List Bytes) (last : Bytes) (rear stop : ℕ)
      → w.cells base ≡ 0
      → get64 w.cells (base + 8) ≡ suc (length (init ++ (last ∷ [])))
      → length (init ++ (last ∷ [])) < 2 ^ 62
      → Laid w.cells (base + 32) start (x ∷ init) rear
      → IsMessage w.cells (base + 32) rear last
      → base + get64 w.cells (base + 16) ≡ start
      → base + 32 ≤ start
      → base + get64 w.cells (base + 24) ≡ rear
      → stop ≡ rear + 17 + length last
      → stop ≤ base + size
      → Takes x (init ++ (last ∷ [])) stop
  deque_first start x init last rear stop free count few (m, l) n front low back e inside =
      let order = Laid-le w.cells (base + 32) (start + 17 + length x) init rear l in
      let word = locked-word w r (base + 24) (omega arith) in
      let same = locked-same base stop w.cells in
      deque_step start x (init ++ (last ∷ [])) stop free count few m front low
        (omega (arith, order)) (omega arith) (omega (arith, order))
        (subst
          (Shape (removed base start (next_head w r start x) (locked w r).cells) base
            (init ++ (last ∷ [])))
          (sym e)
          (removed_first base start (next_head w r start x) (locked w r).cells low x init last rear
            (Laid-same (base + 32) (start + 17 + length x) init rear same (omega arith)
              (omega arith) l)
            (IsMessage-same last same (omega (arith, order)) (omega arith) n)
            (omega (arith, r.high)) (omega (arith, word)) (ground (arith, word, order))))
        inside

  deque-Shape :
      (x : Bytes) (rest : List Bytes) (stop : ℕ)
      → w.cells base ≡ 0
      → get64 w.cells (base + 8) ≡ suc (length rest)
      → length rest < 2 ^ 62
      → stop ≤ base + size
      → Shape w.cells base (x ∷ rest) stop
      → Takes x rest stop
  deque-Shape x rest stop free count few inside (fresh e h q s) = absurd (cons≢nil e)
  deque-Shape x rest stop free count few inside (drained rear e h q l s t) = absurd (cons≢nil e)
  deque-Shape x rest stop free count few inside (busy [] last head rear e h l q i m s) =
      let same : last ≡ x = cc e in
      let none_left : [] ≡ rest = cc e in
      subst₂ (λ y ys. Takes y ys stop) same none_left
        (deque_last head last stop free (omega (arith, ap length none_left))
          (subst (λ p. IsMessage w.cells (base + 32) p last) (sym i) m) h l (omega arith)
          (omega arith) inside)
  deque-Shape x rest stop free count few inside (busy (y ∷ init) last head rear e h l q i m s) =
      let same : y ≡ x = cc e in
      let others : init ++ (last ∷ []) ≡ rest = cc e in
      subst₂ (λ z zs. Takes z zs stop) same others
        (deque_first head y init last rear stop free (omega (arith, ap length others))
          (omega (arith, ap length others)) i m h l q s inside)

  -- `Deque` returns the oldest message with its bytes, and the others stay in order.
  pub deque_oldest :
      {x : Bytes} {rest : List Bytes} {stop : ℕ}
      → Holds w.cells info (x ∷ rest) stop
      → Takes x rest stop
  deque_oldest {x} {rest} {stop} h =
      deque-Shape x rest stop h.unlocked h.count
        (omega (arith, r.high, h.inside, (Shape-bounds h.shape).1)) h.inside h.shape
