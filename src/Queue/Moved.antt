-- ===== src/Queue/Moved.antt =====
-- Another process sees the region at another address. The positions in the metric and the links are
-- relative, so the same bytes are the same queue there.
use streaming_gateway.Prelude.{
  ℕ, zero, suc, ◌+◌, ◌-◌, ◌≤◌, ◌≡◌, refl, ap, ap₂, ◌∙◌, List, [], ◌∷◌, Bytes, length, arith,
}
use streaming_gateway.Memory.{Cells, read_bytes, of_bytes, get64}
use streaming_gateway.Manager.{SharedMemoryInfo}
use streaming_gateway.Queue.Shape.{
  IsMessage, Laid, Laid-le, Shape, fresh, drained, busy, Shape-bounds, Holds,
}

-- The bytes that stand from `base` on, seen from `there` on
unfoldable pub moved : ℕ → ℕ → Cells → Cells
moved base there c b = c (b - there + base)

module _ (base there : ℕ) (c : Cells) where
  abbrev d : Cells
  d = moved base there c

  read_bytes-moved :
      (n a b : ℕ) → base ≤ a → b + base ≡ a + there → read_bytes d b n ≡ read_bytes c a n
  unfolding read_bytes moved
  read_bytes-moved zero a b lo e = refl
  read_bytes-moved (suc n) a b lo e =
      ap₂ ◌∷◌ (ap c {x = b - there + base} {y = a} (omega (arith, e)))
        (read_bytes-moved n (a + 1) (b + 1) (omega arith) (omega (arith, e)))

  word : (a b : ℕ) → base ≤ a → b + base ≡ a + there → get64 d b ≡ get64 c a
  unfolding get64
  word a b lo e = ap of_bytes (read_bytes-moved 8 a b lo e)

  IsMessage-moved :
      (q q' a b : ℕ) (bytes : Bytes)
      → base ≤ a
      → b + base ≡ a + there
      → q' + base ≡ q + there
      → IsMessage c q a bytes
      → IsMessage d q' b bytes
  IsMessage-moved q q' a b bytes lo e f m = record {
    size = word (a + 1) (b + 1) (omega arith) (omega arith) ∙ m.size;
    link = omega (arith, word (a + 9) (b + 9) (omega arith) (omega arith), m.link);
    content =
        read_bytes-moved (length bytes) (a + 17) (b + 17) (omega arith) (omega arith) ∙ m.content;
  }

  Laid-moved :
      (q q' a b : ℕ) (xs : List Bytes) (stop stop' : ℕ)
      → base ≤ a
      → b + base ≡ a + there
      → q' + base ≡ q + there
      → stop' + base ≡ stop + there
      → Laid c q a xs stop
      → Laid d q' b xs stop'
  Laid-moved q q' a b [] stop stop' lo e f g h = omega (arith, h)
  Laid-moved q q' a b (x ∷ xs) stop stop' lo e f g (m, h) = (
    IsMessage-moved q q' a b x lo e f m,
    Laid-moved q q' (a + 17 + length x) (b + 17 + length x) xs stop stop' (omega arith)
        (omega arith) f g h,
  )

  -- where an address of the one process lies in the other
  abbrev at : ℕ → ℕ
  at a = a - base + there

  Shape-moved :
      {live : List Bytes} {stop : ℕ} → Shape c base live stop → Shape d there live (at stop)
  Shape-moved (fresh e h r s) =
      fresh e (word (base + 16) (there + 16) (omega arith) (omega arith) ∙ h)
        (word (base + 24) (there + 24) (omega arith) (omega arith) ∙ r) (omega (arith, s))
  Shape-moved (drained rear e h r l s t) =
      drained (at rear) e (word (base + 16) (there + 16) (omega arith) (omega arith) ∙ h)
        (omega (arith, word (base + 24) (there + 24) (omega arith) (omega arith), r)) (omega arith)
        (omega (arith, word (rear + 9) (at rear + 9) (omega arith) (omega arith), s)) (omega arith)
  Shape-moved {stop = stop} (busy init last head rear e h l r i m s) =
      let order = Laid-le c (base + 32) head init rear i in
      busy init last (at head) (at rear) e
        (omega (arith, word (base + 16) (there + 16) (omega arith) (omega arith), h)) (omega arith)
        (omega (arith, word (base + 24) (there + 24) (omega arith) (omega arith), r, order))
        (Laid-moved (base + 32) (there + 32) head (at head) init rear (at rear) (omega arith)
          (omega arith) (omega arith) (omega (arith, order)) i)
        (IsMessage-moved (base + 32) (there + 32) rear (at rear) last (omega (arith, order))
          (omega (arith, order)) (omega arith) m)
        (omega (arith, order, s))

-- The region of one process holds the queue that the region of another holds, if both are the same
-- bytes.
pub Holds-moved :
    (info info' : SharedMemoryInfo) (c : Cells) (live : List Bytes) (stop : ℕ)
    → info.byte_size ≡ info'.byte_size
    → Holds c info live stop
    → Holds
        (moved info.mapped_addr info'.mapped_addr c)
        info'
        live
        (stop - info.mapped_addr + info'.mapped_addr)
unfolding moved
Holds-moved info info' c live stop same h =
    let base = info.mapped_addr in
    let there = info'.mapped_addr in
    record {
      unlocked = ap c {x = there - there + base} {y = base} (omega arith) ∙ h.unlocked;
      count = word base there c (base + 8) (there + 8) (omega arith) (omega arith) ∙ h.count;
      shape = Shape-moved base there c h.shape;
      inside = omega (arith, h.inside, same, (Shape-bounds h.shape).0);
    }
