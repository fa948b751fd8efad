-- ===== src/Queue/Endless/Put.antt =====
-- `Enqueue` of a message of that size when none is left: behind the others or at the front.
use mathlib.Core.Path.{subst}
use streaming_gateway.Prelude.{ℕ, ◌+◌, ◌≤◌, ◌≡◌, ◌∙◌, inl, inr, refl, [], ◌∷◌, Bytes, arith, length}
use streaming_gateway.Prelude.Run.{ok}
use streaming_gateway.Memory.{Cells, get64}
use streaming_gateway.Manager.{SharedMemoryInfo, SharedMemoryManager}
use streaming_gateway.Queue.Enqueue.{enqueue}
use streaming_gateway.Queue.Ready.{IsReady}
use streaming_gateway.Queue.Shape.{Shape-bounds, Holds, SameOn}
use streaming_gateway.Queue.Published.{published, published-same}
use streaming_gateway.Queue.Append.{
  locked_cells, locked-same, enqueue_fits, published-Holds, released-Holds,
}
use streaming_gateway.Queue.Room.{enqueue_over}
use streaming_gateway.Queue.Wrap.{first-Holds}
use streaming_gateway.Queue.Fifo.{message}
use streaming_gateway.Queue.Endless.Position.{
  IsMet, Idle, One, IsAt-same, alone, released, released-same, released-word,
}

module _ {region_name : Bytes} {info : SharedMemoryInfo} (g : SharedMemoryManager)
    (r : IsReady g region_name info) where
  open info use {mapped_addr as base, byte_size as size}

  abbrev pub Puts : Cells → Bytes → Type 0
  Puts c x =
      (start : ℕ) × (d : Cells) × (enqueue region_name (message x) (alone g c) ≡ ok tt (alone g d))
      × One d info x start

  pub put_behind :
      (c : Cells) (x : Bytes) (stop : ℕ)
      → Idle c info (length x) stop
      → stop + 17 + length x ≤ base + size
      → Puts c x
  put_behind c x stop i fits =
      let (low, few) = Shape-bounds i.holds.shape in
      let kept : base + 49 ≤ stop
          → SameOn (published base stop (message x) (locked_cells base c)) c (base + 32)
              (base + 49) =
        λ behind b lo hi.
          published-same base stop (message x) (locked_cells base c) low (omega (arith, r.high))
            refl b lo (omega arith)
          ∙ locked-same base (base + 49) c b (omega arith) hi in
      (
        stop,
        published base stop (message x) (locked_cells base c),
        enqueue_fits (alone g c) r (message x) i.holds fits refl,
        record {
          holds = published-Holds (alone g c) r (message x) i.holds fits refl;
          position = IsAt-same kept i.position;
        },
      )

  put_at_front :
      (c : Cells) (x : Bytes) (stop : ℕ)
      → Idle c info (length x) stop
      → IsMet c base (length x) stop
      → get64 c (base + 16) ≡ 0
      → base + size + 32 ≤ stop + 17 + length x
      → 49 + length x ≤ size
      → Puts c x
  put_at_front c x stop i m head over fits =
      let free = released-Holds i.holds in
      let flag = released-same base c (base + 32) (omega arith) in
      let after : Cells =
        published base (base + 32) (message x) (locked_cells base (released base c)) in
      (
        base + 32,
        after,
        enqueue_over (alone g c) r (message x) i.holds over fits (inr head) (omega (arith, m.size))
            (omega (arith, m.size)) refl free.unlocked (omega (arith, m.processed, flag)),
        record {
          holds = subst (Holds after info (x ∷ [])) (omega arith) (
              first-Holds (alone g c) r (released base c) (message x)
                (record {
                  unlocked = free.unlocked;
                  count = free.count;
                  head = released-word base c (base + 16) (omega arith) ∙ head;
                  processed = omega (arith, m.processed, flag);
                })
                fits refl);
          position = record { k = 0; place = omega arith; front = inl refl };
        },
      )

  -- A message that does not fit behind the others goes to the front: the one there was taken.
  pub put_over :
      (c : Cells) (x : Bytes) (stop : ℕ)
      → Idle c info (length x) stop
      → base + size + 32 ≤ stop + 17 + length x
      → 49 + length x ≤ size
      → Puts c x
  put_over c x stop i over fits = elim i.position.front [
    | inl e ↦ absurd (omega arith)
    | inr m ↦ elim i.head [
      | inl e ↦ absurd (omega (arith, m.behind))
      | inr head ↦ put_at_front c x stop i m head over fits
    ]
  ]
