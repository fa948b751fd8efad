-- ===== src/Daemon/Pipeline.antt =====
-- Frames that the publisher puts into the queue reach the handler as they were.
use mathlib.Core.Path.{subst, subst₂}
use streaming_gateway.Prelude.{
  ℕ, ◌+◌, ◌≤◌, ◌≡◌, refl, sym, ap, ap₂, ◌∙◌, true, false, some, List, [], ◌∷◌, ◌++◌, Bytes, length,
  take, append-nil, append_assoc, take_all, ◌==◌, arith,
}
use streaming_gateway.Prelude.Run.{ok}
use streaming_gateway.Memory.{Cells}
use streaming_gateway.Manager.{SharedMemoryInfo}
use streaming_gateway.Queue.{World}
use streaming_gateway.Queue.Ready.{IsReady}
use streaming_gateway.Queue.Shape.{Holds}
use streaming_gateway.Queue.Moved.{moved, Holds-moved}
use streaming_gateway.Queue.Append.{enqueue_append}
use streaming_gateway.Frame.{Mat, marshal, frame_message}
use streaming_gateway.Frame.RoundTrip.{length-marshal}
use streaming_gateway.Daemon.{Ipc}
use streaming_gateway.Daemon.Handshake.{init_streaming, init_handler}
use streaming_gateway.Daemon.Listen.{prefetch}
use streaming_gateway.Daemon.Batch.{with_data, Carries, prefetch_lem}
use streaming_gateway.Daemon.Stream.{
  release_mu, with_mu, put_on_shm_queue, listen_shm_queue, handle_messages, putter,
}
use streaming_gateway.Daemon.Frames.{
  IsFrame, AreFrames, wire, room_of, mats, online, length-frame, unmarshal_carried, with_data-wire,
  length-wire, in_world_ok, export_partial_ok, put_frame_ok,
}

module _ {W : Type 0} (ipc : Ipc W) (region_name : Bytes) (info : SharedMemoryInfo) where
  put_lem :
      (w : World) (k : W)
      → IsReady w.manager region_name info
      → (frame : Bytes × Mat) → IsFrame frame
      → {live : List Bytes} {stop : ℕ} → Holds w.cells info live stop
      → stop + 17 + length frame.0 ≤ info.mapped_addr + info.byte_size
      → (c : Cells) × (put_on_shm_queue ipc region_name (some frame) (online w k)
          ≡ ok tt (online (record w { cells = c }) k))
        × Holds c info (live ++ (marshal frame.0 frame.1 ∷ [])) (stop + 17 + length frame.0)
  unfolding put_on_shm_queue with_mu release_mu init_streaming frame_message
  put_lem w k r frame f {live} {stop} h fits =
      let msg = frame_message frame.0 frame.1 in
      let size = length-frame frame f in
      let has_length : (msg.data_length == 0) ≡ false = ground (arith, size, f.sized) in
      let (c, e, h') =
        enqueue_append w r msg h (omega (arith, size))
          (size ∙ f.sized ∙ sym (length-marshal frame.1 frame.0 f.sized)) in
      (
        c,
        rw
            (put_frame_ok region_name frame (record (online w k) { mu_held = true })
              (record w { cells = c }) has_length e)
            refl,
        subst (Holds c info (live ++ (marshal frame.0 frame.1 ∷ []))) (ap (λ n. stop + 17 + n) size)
            h',
      )

  putter_lem :
      (w : World) (k : W)
      → IsReady w.manager region_name info
      → (frames : List (Bytes × Mat)) → AreFrames frames
      → {live : List Bytes} {stop : ℕ} → Holds w.cells info live stop
      → stop + room_of frames ≤ info.mapped_addr + info.byte_size
      → (c : Cells) × (putter ipc region_name frames (online w k)
          ≡ ok tt (online (record w { cells = c }) k))
        × Holds c info (live ++ wire frames) (stop + room_of frames)
  unfolding putter wire room_of AreFrames
  putter_lem w k r [] a {live} {stop} h fits =
      (w.cells, refl, subst₂ (Holds w.cells info) (sym (append-nil live)) (omega arith) h)
  putter_lem w k r (frame ∷ frames) a {live} {stop} h fits =
      let (c, e, h') = put_lem w k r frame a.0 h (omega arith) in
      let (c', e', h'') = putter_lem (record w { cells = c }) k r frames a.1 h' (omega arith) in
      (
        c',
        rw (e, e') refl,
        subst₂ (Holds c' info) (append_assoc live (marshal frame.0 frame.1 ∷ []) (wire frames))
            (omega arith) h'',
      )

  -- A round of the handler exports the frames that the queue holds.
  pub handle_lem :
      (v : World) (l : W)
      → IsReady v.manager region_name info
      → (frames : List (Bytes × Mat)) → AreFrames frames
      → {stop : ℕ} → Holds v.cells info (wire frames) stop
      → (fuel : ℕ)
      → (d : Cells) × (handle_messages ipc fuel
            (length frames)
            region_name
            (length frames)
            (online v l)
          ≡ ok (mats frames) (online (record v { cells = d }) l))
  unfolding handle_messages listen_shm_queue with_mu release_mu init_handler
  handle_lem v l q frames a h' fuel =
      let same = with_data-wire frames a in
      let (d, rest, batch, out, held, all, left) =
        prefetch_lem region_name info (length frames) (length frames) v q (wire frames) h'
          (omega (arith, ap length same, length-wire frames)) (omega (arith, length-wire frames)) in
      let whole : take (length frames) (with_data (wire frames)) ≡ wire frames =
        ap₂ take (sym (length-wire frames)) same ∙ take_all (wire frames) in
      let carried : Carries batch (wire frames) = subst (Carries batch) whole all in
      (
        d,
        rw
            (
              in_world_ok (prefetch (length frames) (length frames) region_name)
                  (record (online v l) { mu_held = true }) batch (record v { cells = d }) out,
              export_partial_ok batch (mats frames)
                  (record (online (record v { cells = d }) l) { mu_held = true })
                  (unmarshal_carried batch frames a carried),
            )
            refl,
      )

  -- Frames that the publisher's loop puts into the empty queue, and that fit into the region, are
  -- what one round of the handler exports, in order. Both are behind their handshake with their
  -- mutexes free, and have mapped the region at the same address; the frames' numbers fit into `int`
  -- and `size_t`, their buffers have the right size, and the handler may retry for each message as
  -- often as there are frames.
  pub frames_arrive :
      (w v : World) (k l : W)
      → IsReady w.manager region_name info
      → IsReady v.manager region_name info
      → (frames : List (Bytes × Mat)) → AreFrames frames
      → {stop : ℕ} → Holds w.cells info [] stop
      → stop + room_of frames ≤ info.mapped_addr + info.byte_size
      → (fuel : ℕ)
      → (c d : Cells) × (putter ipc region_name frames (online w k)
          ≡ ok tt (online (record w { cells = c }) k))
        × (handle_messages ipc fuel
              (length frames)
              region_name
              (length frames)
              (online (record v { cells = c }) l)
            ≡ ok (mats frames) (online (record v { cells = d }) l))
  frames_arrive w v k l r q frames a h fits fuel =
      let (c, e, h') = putter_lem w k r frames a h fits in
      let (d, exported) = handle_lem (record v { cells = c }) l q frames a h' fuel in
      (c, d, e, exported)

-- Where the handler has mapped the region at another address than the publisher: frames that the
-- publisher's loop puts into the empty queue, and that fit into the region, are what one round of
-- the handler exports, in order, from the bytes of the region as it sees them at its own address.
-- Both are behind their handshake with their mutexes free and map as many bytes; the frames'
-- numbers fit into `int` and `size_t`, their buffers have the right size, and the handler may
-- retry for each message as often as there are frames.
pub frames_arrive_moved :
    {W : Type 0} (ipc : Ipc W) (region_name : Bytes) (info info' : SharedMemoryInfo) (w v : World)
    (k l : W)
    → info.byte_size ≡ info'.byte_size
    → IsReady w.manager region_name info
    → IsReady v.manager region_name info'
    → (frames : List (Bytes × Mat)) → AreFrames frames
    → {stop : ℕ} → Holds w.cells info [] stop
    → stop + room_of frames ≤ info.mapped_addr + info.byte_size
    → (fuel : ℕ)
    → (c d : Cells) × (putter ipc region_name frames (online w k)
        ≡ ok tt (online (record w { cells = c }) k))
      × (handle_messages ipc fuel
            (length frames)
            region_name
            (length frames)
            (online (record v { cells = moved info.mapped_addr info'.mapped_addr c }) l)
          ≡ ok (mats frames) (online (record v { cells = d }) l))
frames_arrive_moved ipc region_name info info' w v k l same r q frames a {stop} h fits fuel =
    let (c, e, h') = putter_lem ipc region_name info w k r frames a h fits in
    let there = Holds-moved info info' c (wire frames) (stop + room_of frames) same h' in
    let seen : World = record v { cells = moved info.mapped_addr info'.mapped_addr c } in
    let (d, exported) = handle_lem ipc region_name info' seen l q frames a there fuel in
    (c, d, e, exported)
