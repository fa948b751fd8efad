-- ===== src/Queue/Wrap.antt =====
-- `Enqueue` on a region that is used up: it waits for the listener, and starts over at the front.
use streaming_gateway.Prelude.{
  ℕ, ◌+◌, ◌≤◌, ◌<◌, ◌≡◌, ◌∙◌, ap, sym, inl, List, [], ◌∷◌, Bytes, arith, length,
}
use mathlib.Core.Path.{subst}
use streaming_gateway.Prelude.Run.{Run, ok}
use streaming_gateway.Memory.{Cells, write_bytes, get64}
use streaming_gateway.Memory.Laws.{get64_same}
use streaming_gateway.Manager.{SharedMemoryInfo}
use streaming_gateway.Queue.{World, Message}
use streaming_gateway.Queue.Enqueue.{enqueue}
use streaming_gateway.Queue.Ready.{IsReady}
use streaming_gateway.Queue.Published.{
  published, published_first, published-count, published-unlocked,
}
use streaming_gateway.Queue.Shape.{Holds, Shape}
use streaming_gateway.Queue.Room.{after_sleep, opened, meanwhile, enqueue_over}
use streaming_gateway.Queue.Append.{taken, locked_cells, locked-same, released-Holds}

-- A queue of which all messages were taken, the one at the front among them
pub record IsDrained (c : Cells) (info : SharedMemoryInfo) : Type 0 where
  pub unlocked : c info.mapped_addr ≡ 0
  pub count : get64 c (info.mapped_addr + 8) ≡ 0
  pub head : get64 c (info.mapped_addr + 16) ≡ 0
  pub processed : 0 < c (info.mapped_addr + 32)

module _ {region_name : Bytes} {info : SharedMemoryInfo} (w : World)
    (r : IsReady w.manager region_name info) where
  open info use {mapped_addr as base, byte_size as size}

  pub first-Holds :
      (c : Cells) (msg : Message)
      → IsDrained c info
      → 49 + msg.data_length ≤ size
      → msg.data_length ≡ length msg.bytes
      → Holds
          (published base (base + 32) msg (locked_cells base c))
          info
          (msg.bytes ∷ [])
          (base + 49 + msg.data_length)
  first-Holds c msg d fits full = record {
    unlocked =
        published-unlocked base (base + 32) msg locked (omega arith) (omega (arith, r.high)) full;
    count = omega (
      arith,
      d.count,
      word (base + 8) (omega arith),
      published-count base (base + 32) msg locked (omega arith) (omega (arith, r.high)) full
          (omega (arith, d.count, word (base + 8) (omega arith))),
    );
    shape =
        subst (Shape (published base (base + 32) msg locked) base (msg.bytes ∷ [])) (omega arith) (
          published_first base (base + 32) msg locked (omega arith) (omega (arith, r.high)) full
            (word (base + 16) (omega arith) ∙ d.head));
    inside = omega arith;
  }
    where
      locked : Cells
      locked = locked_cells base c

      word : (a : ℕ) → base + 8 ≤ a → get64 locked a ≡ get64 c a
      word a h = get64_same locked c a (λ b lo hi. locked-same base (a + 8) c b (omega arith) hi)

  -- On a queue that is not empty, let the new message end 32 bytes behind the region's end or
  -- later, but fit into an empty region, and let the message at the front be at least as long as
  -- the new one and not longer than the region. Then `Enqueue` waits for the listener. If the
  -- listener's next step takes all messages (it leaves the lock free, no message, no position of
  -- the head, and the message at the front marked as processed), `Enqueue` returns, and the queue
  -- is the new message, at the front.
  pub enqueue_wrap :
      {live : List Bytes} {stop : ℕ} (msg : Message) (listener : Cells → Cells)
      (rest : List (Cells → Cells))
      → Holds w.cells info live stop
      → 0 < length live
      → base + size + 32 ≤ stop + 17 + msg.data_length
      → 49 + msg.data_length ≤ size
      → msg.data_length ≤ get64 w.cells (base + 33)
      → get64 w.cells (base + 33) ≤ size
      → msg.data_length ≡ length msg.bytes
      → w.peers ≡ listener ∷ rest
      → ((c : Cells) → Holds c info live stop → IsDrained (listener c) info)
      → (c : Cells) × (enqueue region_name msg w ≡ ok tt (record w { cells = c; peers = rest }))
        × Holds c info (msg.bytes ∷ []) (base + 49 + msg.data_length)
  enqueue_wrap msg listener rest h some_message over fits covers front full turn drains =
      let d = drains (write_bytes (locked_cells base w.cells) base (0 ∷ [])) (released-Holds h) in
      let after : World = record {
        cells = listener (write_bytes (locked_cells base w.cells) base (0 ∷ []));
        manager = w.manager;
        peers = rest;
      } in
      let same : meanwhile w r ≡ after = ap (λ ps. after_sleep ps (opened (taken w r) r)) turn in
      (
        published base (base + 32) msg (locked_cells base after.cells),
        enqueue_over w r msg h over fits (inl some_message) covers front full
              (ap (λ v. v.cells base) same ∙ d.unlocked)
              (subst (λ v. 0 < v.cells (base + 32)) (sym same) d.processed)
            ∙ ap over_front same,
        first-Holds after.cells msg d fits full,
      )
    where
      over_front : World → Run World (Unit {0})
      over_front v =
          ok tt (record v { cells = published base (base + 32) msg (locked_cells base v.cells) })
