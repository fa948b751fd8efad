-- ===== src/Queue/Shape.antt =====
-- What the bytes of a region stand for: a queue of messages, oldest first.
use streaming_gateway.Prelude.{
  ℕ, ◌+◌, ◌≤◌, ◌<◌, ◌≡◌, List, [], ◌∷◌, ◌++◌, Bytes, arith, length, length-append, ◌∙◌, sym, ap,
}
use mathlib.Core.Path.{subst}
use streaming_gateway.Memory.{Cells, read_bytes, get64}
use streaming_gateway.Memory.Laws.{read_bytes_same, get64_same}
use streaming_gateway.Manager.{SharedMemoryInfo}

-- At `start` stands a message with the bytes `bytes`; its link is relative to `queue_start`.
pub record IsMessage (c : Cells) (queue_start start : ℕ) (bytes : Bytes) : Type 0 where
  pub size : get64 c (start + 1) ≡ length bytes
  pub link : queue_start + get64 c (start + 9) ≡ start + 17 + length bytes
  pub content : read_bytes c (start + 17) (length bytes) ≡ bytes

-- From `start` to `stop` stand the messages one behind the other.
abbrev pub Laid : Cells → ℕ → ℕ → List Bytes → ℕ → Type 0
Laid c queue_start start [] stop = start ≡ stop
Laid c queue_start start (x ∷ xs) stop =
    IsMessage c queue_start start x × Laid c queue_start (start + 17 + length x) xs stop

-- The positions in the metric at `base`, and the messages between them: no message was put yet,
-- all were taken, or those from the head to the rear are live. The next message goes to `stop`.
pub data Shape (c : Cells) (base : ℕ) (live : List Bytes) (stop : ℕ) : Type 0 where
  fresh :
      live ≡ []
      → get64 c (base + 16) ≡ 32
      → get64 c (base + 24) ≡ 0
      → stop ≡ base + 32
      → Shape c base live stop
  drained :
      (rear : ℕ)
      → live ≡ []
      → get64 c (base + 16) ≡ 0
      → base + get64 c (base + 24) ≡ rear
      → base + 32 ≤ rear
      → base + 32 + get64 c (rear + 9) ≡ stop
      → rear + 17 ≤ stop
      → Shape c base live stop
  busy :
      (init : List Bytes) (last : Bytes) (head rear : ℕ)
      → live ≡ init ++ (last ∷ [])
      → base + get64 c (base + 16) ≡ head
      → base + 32 ≤ head
      → base + get64 c (base + 24) ≡ rear
      → Laid c (base + 32) head init rear
      → IsMessage c (base + 32) rear last
      → stop ≡ rear + 17 + length last
      → Shape c base live stop

-- The region holds the queue `live`, its lock is free, and the next message goes to `stop`.
pub record Holds (c : Cells) (info : SharedMemoryInfo) (live : List Bytes) (stop : ℕ) : Type 0 where
  pub unlocked : c info.mapped_addr ≡ 0
  pub count : get64 c (info.mapped_addr + 8) ≡ length live
  pub shape : Shape c info.mapped_addr live stop
  pub inside : stop ≤ info.mapped_addr + info.byte_size

-- Two memories agree from `lo` up to `hi`.
abbrev pub SameOn : Cells → Cells → ℕ → ℕ → Type 0
SameOn c d lo hi = (b : ℕ) → lo ≤ b → b < hi → c b ≡ d b

pub Laid-le :
    (c : Cells) (q start : ℕ) (xs : List Bytes) (stop : ℕ) → Laid c q start xs stop → start ≤ stop
Laid-le c q start [] stop h = omega arith
Laid-le c q start (x ∷ xs) stop h = omega (arith, Laid-le c q (start + 17 + length x) xs stop h.1)

pub IsMessage-same :
    {c d : Cells} {q start lo hi : ℕ} (bytes : Bytes)
    → SameOn d c lo hi
    → lo ≤ start + 1
    → start + 17 + length bytes ≤ hi
    → IsMessage c q start bytes
    → IsMessage d q start bytes
IsMessage-same {c} {d} {start} bytes same l u m = record {
  size = get64_same d c (start + 1) (λ b x y. same b (omega arith) (omega arith)) ∙ m.size;
  link =
      omega
        (arith, get64_same d c (start + 9) (λ b x y. same b (omega arith) (omega arith)), m.link);
  content =
      read_bytes_same d c (start + 17) (length bytes) (λ b x y. same b (omega arith) (omega arith))
      ∙ m.content;
}

pub Laid-same :
    {c d : Cells} {lo hi : ℕ} (q start : ℕ) (xs : List Bytes) (stop : ℕ)
    → SameOn d c lo hi
    → lo ≤ start
    → stop ≤ hi
    → Laid c q start xs stop
    → Laid d q start xs stop
Laid-same q start [] stop same l u h = h
Laid-same {c} q start (x ∷ xs) stop same l u (m, h) = (
  IsMessage-same x same (omega arith) (omega (arith, Laid-le c q (start + 17 + length x) xs stop h))
      m,
  Laid-same q (start + 17 + length x) xs stop same (omega arith) u h,
)

pub Laid-append :
    (c : Cells) (q start : ℕ) (xs : List Bytes) (mid : ℕ) (y : Bytes)
    → Laid c q start xs mid
    → IsMessage c q mid y
    → Laid c q start (xs ++ (y ∷ [])) (mid + 17 + length y)
Laid-append c q start [] mid y h m =
    (subst (λ p. IsMessage c q p y) (sym h) m, ap (λ p. p + 17 + length y) h)
Laid-append c q start (x ∷ xs) mid y h m =
    (h.0, Laid-append c q (start + 17 + length x) xs mid y h.1 m)

-- Each message takes 17 bytes at least.
Laid-length :
    (c : Cells) (q start : ℕ) (xs : List Bytes) (stop : ℕ)
    → Laid c q start xs stop
    → start + length xs ≤ stop
Laid-length c q start [] stop h = omega arith
Laid-length c q start (x ∷ xs) stop h =
    omega (arith, Laid-length c q (start + 17 + length x) xs stop h.1)

module _ {c : Cells} {base : ℕ} {live : List Bytes} {stop : ℕ} where
  pub Shape-bounds : Shape c base live stop → (base + 32 ≤ stop) × (length live ≤ stop)
  Shape-bounds (fresh e h r s) = rw e (omega arith)
  Shape-bounds (drained rear e h r l s t) = rw e (omega arith)
  Shape-bounds (busy init last head rear e h l r i m s) =
      rw (e, length-append init (last ∷ []))
        (omega (arith, Laid-length c (base + 32) head init rear i))

  -- A write below the counter or behind the messages leaves the shape.
  pub Shape-same :
      {d : Cells} {hi : ℕ}
      → SameOn d c (base + 8) hi
      → stop ≤ hi
      → Shape c base live stop
      → Shape d base live stop
  Shape-same {d} same u s = go s
    where
      word : (a : ℕ) → base + 8 ≤ a → a + 8 ≤ stop → get64 d a ≡ get64 c a
      word a x y = get64_same d c a (λ b lo hi. same b (omega arith) (omega arith))

      go : Shape c base live stop → Shape d base live stop
      go (fresh e h r s) =
          fresh e (word (base + 16) (omega arith) (omega arith) ∙ h)
            (word (base + 24) (omega arith) (omega arith) ∙ r) s
      go (drained rear e h r l s t) =
          drained rear e (word (base + 16) (omega arith) (omega arith) ∙ h)
            (omega (arith, word (base + 24) (omega arith) (omega arith))) l
            (omega (arith, word (rear + 9) (omega arith) (omega arith))) t
      go (busy init last head rear e h l r i m s) =
          let order = Laid-le c (base + 32) head init rear i in
          busy init last head rear e
            (omega (arith, word (base + 16) (omega arith) (omega (arith, order)))) l
            (omega (arith, word (base + 24) (omega arith) (omega (arith, order))))
            (Laid-same (base + 32) head init rear same (omega arith) (omega arith) i)
            (IsMessage-same last same (omega (arith, order)) (omega arith) m) s
