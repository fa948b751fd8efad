-- ===== src/Queue/Endless.antt =====
-- A handler that keeps pace: each message is taken before the next is put. The messages are of one
-- size, as the frames of one camera are, and the region is used over and over.
use mathlib.Core.Path.{subst}
use streaming_gateway.Prelude.{
  ℕ, ◌+◌, ◌*◌, ◌≤◌, ◌≡◌, ◌∙◌, ◌⊎◌, inl, inr, refl, sym, List, [], ◌∷◌, Bytes, arith, length,
}
use streaming_gateway.Prelude.Run.{ok, ◌>>◌}
use streaming_gateway.Memory.{Cells}
use streaming_gateway.Manager.{SharedMemoryInfo, SharedMemoryManager}
use streaming_gateway.Queue.{World}
use streaming_gateway.Queue.Metric.{initialize_queue}
use streaming_gateway.Queue.Ready.{IsReady}
use streaming_gateway.Queue.Take.{deque_none}
use streaming_gateway.Queue.Append.{released-Holds}
use streaming_gateway.Queue.Fifo.{Op, put, get, fifo, client, client_step, try_deque}
use streaming_gateway.Queue.Refine.{initialize_queue_lem}
use streaming_gateway.Queue.Endless.Position.{
  Idle, One, IsAt-same, alone, released, released-same, released-word,
}
use streaming_gateway.Queue.Endless.Position.{released-Idle}
use streaming_gateway.Queue.Endless.Put.{Puts, put_behind, put_over}
use streaming_gateway.Queue.Endless.Get.{get_last}
pub mod Position
pub mod Put
pub mod Get

-- A client's calls in which every message has `n` bytes, and one is put only when `live`, the
-- number of messages left, is 0. `Deque` may be called at any time.
pub data Paced (n : ℕ) : (live : ℕ) → List Op → Type 0 where
  over : {live : ℕ} → Paced n live []
  poll : {ops : List Op} → Paced n 0 ops → Paced n 0 (get ∷ ops)
  publish : {x : Bytes} {ops : List Op} → length x ≡ n → Paced n 1 ops → Paced n 0 (put x ∷ ops)
  take : {ops : List Op} → Paced n 0 ops → Paced n 1 (get ∷ ops)

module _ {region_name : Bytes} {info : SharedMemoryInfo} (g : SharedMemoryManager)
    (r : IsReady g region_name info) (n : ℕ) (room : 49 + n ≤ info.byte_size)
    (gap : (k : ℕ) → (32 + k * (17 + n) ≤ info.byte_size) ⊎ (info.byte_size ≤ k * (17 + n))) where
  open info use {mapped_addr as base, byte_size as size}

  put_next : (c : Cells) (x : Bytes) (stop : ℕ) → length x ≡ n → Idle c info n stop → Puts g r c x
  put_next c x stop e i =
      let here : Idle c info (length x) stop = subst (λ m. Idle c info m stop) (sym e) i in
      let p = here.position in
      let next : stop + 17 + length x ≡ base + 32 + (p.k + 1) * (17 + n) =
        omega (arith, p.place, e) in
      elim (gap (p.k + 1)) [
        | inl fits ↦ put_behind g r c x stop here (omega arith)
        | inr beyond ↦ put_over g r c x stop here (omega arith) (omega (arith, e))
      ]

  mutual
    unfolding client client_step try_deque fifo

    client_from_none :
        {ops : List Op} {stop : ℕ} (c : Cells)
        → Paced n 0 ops
        → Idle c info n stop
        → (d : Cells) × (client region_name ops (alone g c) ≡ ok (fifo [] ops) (alone g d))
    client_from_none c over i = (c, refl)
    client_from_none c (poll p) i =
        let (d, e) = client_from_none (released base c) p (released-Idle i) in
        (d, ground (arith, deque_none (alone g c) r i.holds, e))
    client_from_none {stop} c (publish {x} same p) i =
        let (start, c', e, o) = put_next c x stop same i in
        let (d, e') = client_from_last c' p same o in (d, ground (arith, e, e'))

    client_from_last :
        {ops : List Op} {x : Bytes} {start : ℕ} (c : Cells)
        → Paced n 1 ops
        → length x ≡ n
        → One c info x start
        → (d : Cells) × (client region_name ops (alone g c) ≡ ok (fifo (x ∷ []) ops) (alone g d))
    client_from_last c over same o = (c, refl)
    client_from_last {x} {start} c (take p) same o =
        let (start', c', e, i) = get_last g r c x start o in
        let (d, e') =
          client_from_none c' p (subst (λ m. Idle c' info m (start' + 17 + length x)) same i) in
        (d, ground (arith, e, e'))

-- After `InitializeQueue`, `Enqueue` and `Deque` calls of one process give the replies of a
-- first-in first-out list, however many there are, if every message has `n` bytes and is taken
-- before the next one is put, if the region has room for one message, and if no multiple of
-- a message's size, `17 + n`, lies between the region's size less 32 and the region's size,
-- both excluded.
pub client-Paced :
    {region_name : Bytes} {info : SharedMemoryInfo} (w : World) (n : ℕ) (ops : List Op)
    → IsReady w.manager region_name info
    → w.peers ≡ []
    → 49 + n ≤ info.byte_size
    → ((k : ℕ) → (32 + k * (17 + n) ≤ info.byte_size) ⊎ (info.byte_size ≤ k * (17 + n)))
    → Paced n 0 ops
    → (c : Cells) × ((initialize_queue region_name >> client region_name ops) w
        ≡ ok (fifo [] ops) (record w { cells = c }))
client-Paced {region_name} {info} w n ops r none room gap paced =
    let (c, e, h) = initialize_queue_lem w r in
    let start : Idle c info n (info.mapped_addr + 32) = record {
      holds = h;
      position = record { k = 0; place = omega arith; front = inl refl };
      head = inl refl;
    } in
    let (d, e') = client_from_none w.manager r n room gap c paced start in
    (d, ground (arith, e, e', none))
