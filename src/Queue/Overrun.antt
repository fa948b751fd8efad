-- ===== src/Queue/Overrun.antt =====
-- The overflow test lets a message pass whose last bytes lie behind the region.
use mathlib.Core.Path.{subst₂}
use streaming_gateway.Prelude.{
  ℕ, ◌+◌, ◌≤◌, ◌<◌, ◌≡◌, ◌∙◌, ◌^◌, ◌⊎◌, inl, inr, leb, Bool-cases, true, false, List, [], ◌∷◌,
  Bytes, arith, length, take_all,
}
use streaming_gateway.Prelude.Run.{ok, undefined}
use streaming_gateway.Manager.{SharedMemoryInfo}
use streaming_gateway.Queue.{World, Message, message_size_on_shm}
use streaming_gateway.Queue.Access.{in_regions, load64, store, store64}
use streaming_gateway.Queue.Transfer.{copy_data, put_on_shm}
use streaming_gateway.Queue.Enqueue.{is_overflow, make_room, publish, enqueue}
use streaming_gateway.Queue.Metric.{message_cnt, head_position, head_pos_local}
use streaming_gateway.Memory.{get64}
use streaming_gateway.Memory.Laws.{get64_same}
use streaming_gateway.Queue.Ready.{IsReady, mapped}
use streaming_gateway.Queue.Shape.{Holds, Shape-bounds}
use streaming_gateway.Queue.Append.{enqueue_opened, taken, locked-same}

module _ {region_name : Bytes} {info : SharedMemoryInfo} (w : World)
    (r : IsReady w.manager region_name info) where
  open info use {mapped_addr as base, byte_size as size}

  put_past_end :
      (start : ℕ) (msg : Message)
      → w.manager.shared_memory_map ≡ (region_name, info) ∷ []
      → base + 32 ≤ start
      → base + size < start + 17 + msg.data_length
      → start + msg.data_length < 2 ^ 63
      → msg.data_length ≡ length msg.bytes
      → put_on_shm msg start (base + 32) w ≡ undefined
  unfolding put_on_shm copy_data load64 store store64 in_regions
  put_past_end start msg only low past near full = ground (arith, r.low, r.high, take_all msg.bytes)

  publish_past_end :
      (start : ℕ) (msg : Message)
      → 0 < start
      → put_on_shm msg start (base + 32) w ≡ undefined
      → publish base (base + 32) start msg w ≡ undefined
  unfolding publish
  publish_past_end start msg pos e = ground arith

module _ {region_name : Bytes} {info : SharedMemoryInfo} (w : World)
    (r : IsReady w.manager region_name info) where
  open info use {mapped_addr as base, byte_size as size}

  -- On a queue that was never used there is nothing to wait for.
  make_room_unused :
      (msg : Message)
      → get64 w.cells (base + 8) ≡ 0
      → get64 w.cells (base + 16) ≡ 32
      → make_room base (base + 32) msg w ≡ ok tt w
  unfolding make_room load64 head_pos_local
  make_room_unused msg none start =
      ground (arith, r.room, r.high, mapped r (message_cnt base) 8, mapped r (head_position base) 8)

module _ {region_name : Bytes} {info : SharedMemoryInfo} (w : World)
    (r : IsReady w.manager region_name info) where
  open info use {mapped_addr as base, byte_size as size}

  word : (a : ℕ) → base + 8 ≤ a → get64 (taken w r).cells a ≡ get64 w.cells a
  word a h =
      get64_same (taken w r).cells w.cells a
        (λ b lo hi. locked-same base (a + 8) w.cells b (omega arith) hi)

  past_the_test :
      {live : List Bytes} {stop : ℕ} (msg : Message)
      → w.manager.shared_memory_map ≡ (region_name, info) ∷ []
      → Holds w.cells info live stop
      → base + size < stop + 17 + msg.data_length
      → stop + 17 + msg.data_length < base + size + 32
      → msg.data_length ≡ length msg.bytes
      → enqueue region_name msg w ≡ undefined
  unfolding is_overflow
  past_the_test {stop} msg only h past near full =
      let (low, few) = Shape-bounds h.shape in
      let no_overflow : is_overflow (base + 32) size stop (message_size_on_shm msg) ≡ false =
        ground (arith, r.high) in
      enqueue_opened w r msg h
      ∙ rw no_overflow (
          publish_past_end (taken w r) r stop msg (omega arith)
            (put_past_end (taken w r) r stop msg only low past (omega (arith, r.high)) full))

  past_the_wait :
      (msg : Message)
      → w.manager.shared_memory_map ≡ (region_name, info) ∷ []
      → Holds w.cells info [] (base + 32)
      → get64 w.cells (base + 16) ≡ 32
      → size ≤ 17 + msg.data_length
      → msg.data_length < 2 ^ 62
      → msg.data_length ≡ length msg.bytes
      → enqueue region_name msg w ≡ undefined
  unfolding is_overflow
  past_the_wait msg only h unused large small full =
      let overflow : is_overflow (base + 32) size (base + 32) (message_size_on_shm msg) ≡ true =
        ground (arith, r.high, r.low) in
      let room =
        make_room_unused (taken w r) r msg (word (base + 8) (omega arith) ∙ h.count)
          (word (base + 16) (omega arith) ∙ unused) in
      let outside = publish_past_end (taken w r) r (base + 32) msg (omega arith) (
        put_past_end (taken w r) r (base + 32) msg only (omega arith) (omega arith)
          (omega (arith, r.high)) full) in
      enqueue_opened w r msg h ∙ rw overflow (ground (arith, room, outside))

  -- In a process that has mapped this region alone, `Enqueue` writes outside the region if a message
  -- ends behind it by less than the size of the metric, which passes the overflow test; and, on a
  -- queue that was never used, for every message that the region has no room for, up to 2 ^ 62 bytes.
  pub enqueue_past_end :
      {live : List Bytes} {stop : ℕ} (msg : Message)
      → w.manager.shared_memory_map ≡ (region_name, info) ∷ []
      → Holds w.cells info live stop
      → base + size < stop + 17 + msg.data_length
      → (stop + 17 + msg.data_length < base + size + 32)
        ⊎ ((live ≡ []) × (stop ≡ base + 32) × (get64 w.cells (base + 16) ≡ 32))
      → msg.data_length < 2 ^ 62
      → msg.data_length ≡ length msg.bytes
      → enqueue region_name msg w ≡ undefined
  enqueue_past_end {stop} msg only h past (inl near) small full =
      past_the_test msg only h past near full
  enqueue_past_end {stop} msg only h past (inr (empty, first, unused)) small full =
      let fresh : Holds w.cells info [] (base + 32) = subst₂ (Holds w.cells info) empty first h in
      elim (Bool-cases (leb size (17 + msg.data_length))) [
        | inl e ↦ past_the_wait msg only fresh unused (ground (arith, e)) small full
        | inr e ↦
            past_the_test msg only fresh (omega (arith, first)) (ground (arith, e, first)) full
      ]
