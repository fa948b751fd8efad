-- ===== src/Daemon/Stream.antt =====
-- `HandleStreamDaemon::ListenSHMQueue`, `WebCamStreamDaemon::PutOnSHMQueue` of
-- webcam/src/wc_daemon.cpp, and a round of `HandleMessages` of core/common/src/exporters.cpp.
use streaming_gateway.Prelude.{
  ℕ, true, false, not, Option, none, some, List, [], ◌∷◌, Bytes, ◌==◌, if◌then◌else◌,
}
use streaming_gateway.Prelude.Run.{
  Run, ok, throw, undefined, blocked, Cmd, pure, guard, ◌>>=◌, ◌>>◌, logic_error,
}
use streaming_gateway.Queue.{Message}
use streaming_gateway.Queue.Enqueue.{enqueue}
use streaming_gateway.Frame.{Mat, frame_message, unmarshal_messages}
use streaming_gateway.Daemon.{Ipc, HandleStreamDaemon}
use streaming_gateway.Daemon.Handshake.{in_world, init_streaming, init_handler}
use streaming_gateway.Daemon.Listen.{prefetch}

module _ {W : Type 0} where
  unfoldable pub release_mu :
      {A : Type 0} → Run (HandleStreamDaemon W) A → Run (HandleStreamDaemon W) A
  release_mu (ok a s) = ok a (record s { mu_held = false })
  release_mu (throw e s) = throw e (record s { mu_held = false })
  release_mu undefined = undefined
  release_mu blocked = blocked

  -- `std::lock_guard<std::mutex> guard(mu_)` round the rest of a function
  unfoldable pub with_mu :
      {A : Type 0} → Cmd (HandleStreamDaemon W) A → Cmd (HandleStreamDaemon W) A
  with_mu body s = if s.mu_held then blocked else release_mu (body (record s { mu_held = true }))

  -- `FileBaseHLSMessageHandler::ExportPartial`, up to the frames that it exports. No message of a
  -- batch has a null pointer for its data, since `GetFromSHM` takes it from `new`.
  unfoldable pub export_partial : List Message → Cmd (HandleStreamDaemon W) (List Mat)
  export_partial batch s = elim (unmarshal_messages batch) [
    | none ↦ undefined
    | some frames ↦ ok frames s
  ]

  -- The rest of `PutOnSHMQueue`, behind the lock, for a frame of the camera and the memory that
  -- `new u_char[msg->dataLength]` gives for it
  unfoldable pub put_frame : Bytes → Bytes → Mat → Cmd (HandleStreamDaemon W) (Unit {0})
  put_frame region_name buffer mat =
      let msg : Message = frame_message buffer mat in
      guard (not (msg.data_length == 0)) logic_error >> in_world (enqueue region_name msg)

module _ {W : Type 0} (ipc : Ipc W) where
  -- `WebCamStreamDaemon::PutOnSHMQueue`; `none` is a null pointer.
  unfoldable pub put_on_shm_queue :
      Bytes → Option (Bytes × Mat) → Cmd (HandleStreamDaemon W) (Unit {0})
  put_on_shm_queue region_name iter_holder = do
    init_streaming ipc region_name
    λ s. ok tt (record s { initialized_publisher = true })
    elim iter_holder [
      | none ↦ pure tt
      | some (buffer, mat) ↦ with_mu (put_frame region_name buffer mat)
    ]

  -- `ListenSHMQueue`
  unfoldable pub listen_shm_queue :
      {A : Type 0} (fuel rounds : ℕ)
      → Bytes
      → (List Message → Cmd (HandleStreamDaemon W) A)
      → ℕ
      → Cmd (HandleStreamDaemon W) A
  listen_shm_queue fuel rounds region_name callback prefetch_count = with_mu (do
    init_handler ipc fuel region_name
    message_buffer ← in_world (prefetch rounds prefetch_count region_name)
    callback message_buffer)

  -- A round of `HLSMessageHandler::HandleMessages`
  unfoldable pub handle_messages :
      (fuel rounds : ℕ) → Bytes → ℕ → Cmd (HandleStreamDaemon W) (List Mat)
  handle_messages fuel rounds region_name frame_rate =
      listen_shm_queue fuel rounds region_name export_partial frame_rate

  -- The loop of `putter` in webcam/src/webcam_streamer.cpp, for the frames that the camera gives
  unfoldable pub putter : Bytes → List (Bytes × Mat) → Cmd (HandleStreamDaemon W) (Unit {0})
  putter region_name [] = pure tt
  putter region_name (frame ∷ frames) =
      put_on_shm_queue region_name (some frame) >> putter region_name frames
