-- ===== src/Tcp/Carried.antt =====
-- What the producer's messages unpack to, and how the streamer's loop of `putter` in
-- TCPStreamer/src/main.cpp puts them into the queue.
use mathlib.Core.Path.{subst₂}
use streaming_gateway.Prelude.{
  ℕ, ◌+◌, ◌^◌, ◌≤◌, ◌<◌, ◌≡◌, ◌∙◌, refl, sym, ap, Bool, true, some, List, [], ◌∷◌, ◌++◌, Bytes,
  arith, length, replicate, append-nil, append_assoc, length-replicate, length-append, suc, map,
  Option-cases, inl, inr,
}
use streaming_gateway.Prelude.Run.{ok}
use streaming_gateway.Memory.{Cells}
use streaming_gateway.Manager.{SharedMemoryInfo}
use streaming_gateway.Queue.{World}
use streaming_gateway.Queue.Ready.{IsReady}
use streaming_gateway.Queue.Shape.{Holds}
use streaming_gateway.Queue.Enqueue.{enqueue}
use streaming_gateway.Queue.Append.{enqueue_append}
use streaming_gateway.Queue.Fifo.{message}
use streaming_gateway.Frame.{Mat}
use streaming_gateway.Frame.RoundTrip.{Fits, length-marshal}
use streaming_gateway.Daemon.{Ipc}
use streaming_gateway.Daemon.Handshake.{init_streaming}
use streaming_gateway.Daemon.Stream.{release_mu, with_mu}
use streaming_gateway.Daemon.Frames.{IsFrame, AreFrames, wire, room_of, mats, online, in_world_ok}
use streaming_gateway.Tcp.{
  Zlib, tcp_message, handle_webcam_frame, unpacked, unpack, put_unpacked, tcp_put_on_shm_queue,
}
use streaming_gateway.Tcp.Padding.{IsZlib, padded, tcp_message-marshal, unpack-handle_webcam_frame}
use streaming_gateway.Tcp.Producer.{packets, sent_frames}
use streaming_gateway.Gateway.Daemons.{tcp_putter}

-- The numbers of the frames fit, and no frame is too long.
unfoldable pub AreSendable : List Mat → Type 0
AreSendable [] = Unit
AreSendable (mat ∷ frames) = Fits mat × (length mat.content < 2 ^ 60) × AreSendable frames

-- The frames as the queue carries them
unfoldable pub arrived : List Mat → List (Bytes × Mat)
arrived [] = []
arrived (mat ∷ frames) = (replicate (28 + length mat.content) 0, padded mat) ∷ arrived frames

-- Each message unpacks to its frame.
pub data Unpack (zlib : Zlib) (enable_gzip : Bool) : List Bytes → List Mat → Type 0 where
  no_more : Unpack zlib enable_gzip [] []
  one_more :
      {m : Bytes} {mat : Mat} {ms : List Bytes} {frames : List Mat}
      → unpack zlib enable_gzip m ≡ unpacked (tcp_message mat)
      → length mat.content < 2 ^ 60
      → Fits mat
      → Unpack zlib enable_gzip ms frames
      → Unpack zlib enable_gzip (m ∷ ms) (mat ∷ frames)

pub packets-Unpack :
    (zlib : Zlib)
    → IsZlib zlib
    → (enable_gzip : Bool) (n : ℕ) (frames : List Mat) → AreSendable frames
    → Unpack zlib enable_gzip
        (packets zlib enable_gzip n frames)
        (sent_frames zlib enable_gzip n frames)
unfolding packets sent_frames AreSendable
packets-Unpack zlib law enable_gzip n [] a = no_more
packets-Unpack zlib law enable_gzip n (mat ∷ frames) a =
    let r = handle_webcam_frame zlib enable_gzip n mat in
    let others = packets-Unpack zlib law enable_gzip r.1 frames a.2 in
    elim (Option-cases r.0) [
      | inl e ↦ rw (packets, sent_frames, e) others
      | inr (m, e) ↦
          let whole =
            unpack-handle_webcam_frame zlib law enable_gzip n mat (omega (arith, a.1)) m e in
          rw (packets, sent_frames, e) (one_more whole a.1 a.0 others)
    ]

arrived-IsFrame :
    (mat : Mat)
    → Fits mat
    → length mat.content < 2 ^ 60
    → IsFrame (replicate (28 + length mat.content) 0, padded mat)
arrived-IsFrame mat f small = record {
  fit = record {
    cols_fit = f.cols_fit;
    rows_fit = f.rows_fit;
    kind_fit = f.kind_fit;
    step_fit = f.step_fit;
  };
  sized = omega (
    arith,
    length-replicate {A = ℕ} (28 + length mat.content) 0,
    length-append mat.content (replicate 8 0),
  );
  small = omega (arith, length-replicate {A = ℕ} (28 + length mat.content) 0);
}

pub arrived-AreFrames :
    (zlib : Zlib) (enable_gzip : Bool) (ms : List Bytes) (frames : List Mat)
    → Unpack zlib enable_gzip ms frames
    → AreFrames (arrived frames)
unfolding arrived AreFrames
arrived-AreFrames zlib enable_gzip ms frames no_more = tt
arrived-AreFrames zlib enable_gzip ms frames (one_more {mat} e small f u) =
    (arrived-IsFrame mat f small, arrived-AreFrames zlib enable_gzip _ _ u)

pub mats-arrived : (frames : List Mat) → mats (arrived frames) ≡ map padded frames
unfolding mats arrived
mats-arrived [] = refl
mats-arrived (mat ∷ frames) = ap (◌∷◌ (padded mat)) (mats-arrived frames)

pub length-arrived : (frames : List Mat) → length (arrived frames) ≡ length frames
unfolding arrived
length-arrived [] = refl
length-arrived (mat ∷ frames) = ap suc (length-arrived frames)

module _ {W : Type 0} (ipc : Ipc W) (zlib : Zlib) (enable_gzip : Bool) (region_name : Bytes)
    (info : SharedMemoryInfo) where
  tcp_put_lem :
      (w : World) (k : W) (m d : Bytes)
      → IsReady w.manager region_name info
      → unpack zlib enable_gzip m ≡ unpacked d
      → {live : List Bytes} {stop : ℕ} → Holds w.cells info live stop
      → stop + 17 + length d ≤ info.mapped_addr + info.byte_size
      → (c : Cells) × (tcp_put_on_shm_queue ipc zlib region_name enable_gzip (some m) (online w k)
          ≡ ok tt (online (record w { cells = c }) k))
        × Holds c info (live ++ (d ∷ [])) (stop + 17 + length d)
  unfolding tcp_put_on_shm_queue with_mu release_mu init_streaming put_unpacked
  tcp_put_lem w k m d r whole h fits =
      let (c, e, h') = enqueue_append w r (message d) h fits refl in
      (
        c,
        rw
            (
              whole,
              in_world_ok (enqueue region_name (message d)) (record (online w k) { mu_held = true })
                  tt (record w { cells = c }) e,
            )
            refl,
        h',
      )

  pub tcp_putter_lem :
      (ms : List Bytes) (frames : List Mat) (w : World) (k : W)
      → IsReady w.manager region_name info
      → Unpack zlib enable_gzip ms frames
      → {live : List Bytes} {stop : ℕ} → Holds w.cells info live stop
      → stop + room_of (arrived frames) ≤ info.mapped_addr + info.byte_size
      → (c : Cells) × (tcp_putter ipc zlib region_name enable_gzip ms (online w k)
          ≡ ok tt (online (record w { cells = c }) k))
        × Holds c info (live ++ wire (arrived frames)) (stop + room_of (arrived frames))
  unfolding tcp_putter wire room_of arrived
  tcp_putter_lem ms frames w k r no_more {live} {stop} h fits =
      (w.cells, refl, subst₂ (Holds w.cells info) (sym (append-nil live)) (omega arith) h)
  tcp_putter_lem ms frames w k r (one_more {m} {mat} {ms = others} {frames = rest} e small f u)
        {live} {stop} h fits =
      let room : Bytes = replicate (28 + length mat.content) 0 in
      let sized = (arrived-IsFrame mat f small).sized in
      let whole = tcp_message-marshal mat (omega arith) in
      let size : length (tcp_message mat) ≡ length room =
        ap length whole ∙ length-marshal (padded mat) room sized ∙ sym sized in
      let (c, e', h') = tcp_put_lem w k m (tcp_message mat) r e h (omega (arith, size)) in
      let (c', e'', h'') =
        tcp_putter_lem others rest (record w { cells = c }) k r u h' (omega (arith, size)) in
      (
        c',
        rw (e', e'') refl,
        subst₂ (Holds c' info)
            (append_assoc live (tcp_message mat ∷ []) (wire (arrived rest))
              ∙ ap (λ x. live ++ (x ∷ wire (arrived rest))) whole)
            (omega (arith, size)) h'',
      )
