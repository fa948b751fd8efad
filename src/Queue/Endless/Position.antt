-- ===== src/Queue/Endless/Position.antt =====
-- Where a queue of messages of one size stands when at most one is left.
use mathlib.Core.Path.{subst₂}
use streaming_gateway.Prelude.{
  ℕ, ◌+◌, ◌*◌, ◌≤◌, ◌<◌, ◌≡◌, ◌∙◌, ◌⊎◌, inl, inr, ap, [], ◌∷◌, Bytes, arith, length, length-append,
}
use streaming_gateway.Memory.{Cells, write_bytes, get64}
use streaming_gateway.Memory.Laws.{get64_same, write_bytes_outside}
use streaming_gateway.Manager.{SharedMemoryInfo, SharedMemoryManager}
use streaming_gateway.Queue.{World}
use streaming_gateway.Queue.Shape.{IsMessage, Shape, fresh, drained, busy, Holds, SameOn}
use streaming_gateway.Queue.Append.{locked_cells, locked-same, released-Holds}
use streaming_gateway.Queue.Oldest.{cons≢nil}

-- The message at the front has `n` bytes and was taken; the next position is behind it.
pub record IsMet (c : Cells) (base n next : ℕ) : Type 0 where
  pub size : get64 c (base + 33) ≡ n
  pub processed : 0 < c (base + 32)
  pub behind : base + 49 ≤ next

-- `next` is `k` messages behind the front, and the front one was taken unless it is the next.
pub record IsAt (c : Cells) (base n next : ℕ) : Type 0 where
  pub k : ℕ
  pub place : next ≡ base + 32 + k * (17 + n)
  pub front : (next ≡ base + 32) ⊎ IsMet c base n next

-- No message is left.
pub record Idle (c : Cells) (info : SharedMemoryInfo) (n stop : ℕ) : Type 0 where
  pub holds : Holds c info [] stop
  pub position : IsAt c info.mapped_addr n stop
  pub head : (stop ≡ info.mapped_addr + 32) ⊎ (get64 c (info.mapped_addr + 16) ≡ 0)

-- One message is left, at `start`.
pub record One (c : Cells) (info : SharedMemoryInfo) (x : Bytes) (start : ℕ) : Type 0 where
  pub holds : Holds c info (x ∷ []) (start + 17 + length x)
  pub position : IsAt c info.mapped_addr (length x) start

pub IsMet-same :
    {c d : Cells} {base n next : ℕ}
    → SameOn d c (base + 32) (base + 49)
    → IsMet c base n next
    → IsMet d base n next
IsMet-same {c} {d} {base} same m = record {
  size = get64_same d c (base + 33) (λ b lo hi. same b (omega arith) (omega arith)) ∙ m.size;
  processed = omega (arith, same (base + 32) (omega arith) (omega arith), m.processed);
  behind = m.behind;
}

pub IsAt-same :
    {c d : Cells} {base n next : ℕ}
    → (base + 49 ≤ next → SameOn d c (base + 32) (base + 49))
    → IsAt c base n next
    → IsAt d base n next
IsAt-same same p = record {
  k = p.k;
  place = p.place;
  front = elim p.front [ inl e ↦ inl e | inr m ↦ inr (IsMet-same (same m.behind) m) ];
}

-- The only message is at the head and at the rear.
pub record IsSingle (c : Cells) (base : ℕ) (x : Bytes) (start : ℕ) : Type 0 where
  pub low : base + 32 ≤ start
  pub head : base + get64 c (base + 16) ≡ start
  pub rear : base + get64 c (base + 24) ≡ start
  pub stored : IsMessage c (base + 32) start x

pub only_message :
    (c : Cells) (base : ℕ) (x : Bytes) (start : ℕ)
    → Shape c base (x ∷ []) (start + 17 + length x)
    → IsSingle c base x start
only_message c base x start (fresh e h r s) = absurd (cons≢nil e)
only_message c base x start (drained rear e h r l s t) = absurd (cons≢nil e)
only_message c base x start (busy [] last head rear e h l r i m s) =
    let same : last ≡ x = cc e in
    let here : rear ≡ start = omega (arith, ap length same) in
    record {
      low = omega (arith, i);
      head = omega (arith, i);
      rear = omega arith;
      stored = subst₂ (IsMessage c (base + 32)) here same m;
    }
only_message c base x start (busy (y ∷ init) last head rear e h l r i m s) =
    absurd (omega (arith, ap length e, length-append init (last ∷ [])))

-- no other process moves in the meantime
abbrev pub alone : SharedMemoryManager → Cells → World
alone g c = record { cells = c; manager = g; peers = [] }

-- the region once the lock was taken and given back
module _ (base : ℕ) where
  abbrev pub released : Cells → Cells
  released c = write_bytes (locked_cells base c) base (0 ∷ [])

  pub released-same : (c : Cells) (b : ℕ) → base + 8 ≤ b → released c b ≡ c b
  released-same c b lo =
      write_bytes_outside (locked_cells base c) base (0 ∷ []) b (omega arith)
      ∙ locked-same base (b + 1) c b lo (omega arith)

  pub released-word : (c : Cells) (a : ℕ) → base + 8 ≤ a → get64 (released c) a ≡ get64 c a
  released-word c a lo = get64_same (released c) c a (λ b l u. released-same c b (omega arith))

pub released-Idle :
    {c : Cells} {info : SharedMemoryInfo} {n stop : ℕ}
    → Idle c info n stop
    → Idle (released info.mapped_addr c) info n stop
released-Idle {c} {info} i = record {
  holds = released-Holds i.holds;
  position =
      IsAt-same (λ behind b lo hi. released-same info.mapped_addr c b (omega arith)) i.position;
  head = elim i.head [
    | inl e ↦ inl e
    | inr e ↦ inr (released-word info.mapped_addr c (info.mapped_addr + 16) (omega arith) ∙ e)
  ];
}
