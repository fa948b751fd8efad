-- ===== src/Tcp/Producer.antt =====
-- The producer of TCPStreamer/src/: `main` of tcp_frame_producer_main.cpp, and the constructor and
-- `Run` of `TCPFrameProducer` in tcp_producing.cpp.
use streaming_gateway.Prelude.{
  ℕ, ◌%◌, ◌^◌, ◌≡◌, refl, ap, Bool, true, false, ◌&&◌, Option, none, some, List, [], ◌∷◌, Bytes,
  arith, Option-cases, inl, inr,
}
use streaming_gateway.Prelude.Run.{ok, undefined, Cmd, pure, ◌>>=◌}
use streaming_gateway.Prelude.Decimal.{strtol}
use streaming_gateway.Frame.{Mat}
use streaming_gateway.Tcp.{Zlib, handle_webcam_frame}
use streaming_gateway.Tcp.Publisher.{Sender, Connection, publish, publish_each}
use streaming_gateway.Tcp.Sockets.{SocketCalls, Sockets, init_socket}
use streaming_gateway.Gateway.Daemons.{enable_gzip}

-- `(short) atoi(port_env)`: the 16 bits that `htons` takes in the end
unfoldable pub port_of : Bytes → ℕ
port_of port_env = (strtol port_env).0 % 2 ^ 32 % 2 ^ 16

-- `TCPFrameProducer`: the result of `init_socket` is dropped, and `sockfd_` is left.
unfoldable pub new_producer : {W : Type 0} → SocketCalls W → Bytes → ℕ → Cmd (Sockets W) (Option ℕ)
new_producer calls host port = do r ← init_socket calls host port; pure (r.1)

-- `main` up to `Run`, for the values of `HOST`, `PORT` and `GZIP`; a null pointer for one of the first
-- two is undefined behaviour.
unfoldable pub producer_main :
    {W : Type 0}
    → SocketCalls W
    → (host port gzip : Option Bytes) → Cmd (Sockets W) (Option ℕ × Bool)
producer_main calls none port gzip = λ _. undefined
producer_main calls (some host) none gzip = λ _. undefined
producer_main calls (some host) (some port) gzip = do
  sockfd ← new_producer calls host (port_of port)
  pure (sockfd, enable_gzip gzip)

-- `Run`, for the frames that the camera gives: a failed `publish` is logged and no more. The result
-- says whether all calls of `publish` returned `true`; `is_open` whether `sockfd_` is a socket.
unfoldable pub run :
    {W : Type 0}
    → Sender W
    → Zlib
    → (is_open enable_gzip : Bool) → ℕ
    → List Mat
    → Cmd (Connection W) Bool
run sender zlib is_open enable_gzip packet_num [] = pure true
run sender zlib is_open enable_gzip packet_num (mat ∷ frames) =
    let r = handle_webcam_frame zlib enable_gzip packet_num mat in
    let others = run sender zlib is_open enable_gzip r.1 frames in
    elim r.0 [
      | none ↦ others
      | some m ↦ (do published ← publish sender is_open m; rest ← others; pure (published && rest))
    ]

-- What `Run` publishes, and of which frames
unfoldable pub packets : Zlib → Bool → ℕ → List Mat → List Bytes
packets zlib enable_gzip packet_num [] = []
packets zlib enable_gzip packet_num (mat ∷ frames) =
    let r = handle_webcam_frame zlib enable_gzip packet_num mat in
    let others = packets zlib enable_gzip r.1 frames in
    elim r.0 [ none ↦ others | some m ↦ m ∷ others ]

unfoldable pub sent_frames : Zlib → Bool → ℕ → List Mat → List Mat
sent_frames zlib enable_gzip packet_num [] = []
sent_frames zlib enable_gzip packet_num (mat ∷ frames) =
    let r = handle_webcam_frame zlib enable_gzip packet_num mat in
    let others = sent_frames zlib enable_gzip r.1 frames in
    elim r.0 [ none ↦ others | some m ↦ mat ∷ others ]

-- On an open socket `Run` publishes the packets one after another.
pub run-packets :
    {W : Type 0} (sender : Sender W) (zlib : Zlib) (gzip : Bool) (n : ℕ) (frames : List Mat)
    → run sender zlib true gzip n frames ≡ publish_each sender (packets zlib gzip n frames)
unfolding run packets publish_each
run-packets sender zlib gzip n [] = refl
run-packets {W} sender zlib gzip n (mat ∷ frames) =
    let r = handle_webcam_frame zlib gzip n mat in
    let others = run-packets sender zlib gzip r.1 frames in
    elim (Option-cases r.0) [
      | inl e ↦ rw (run, packets, e) others
      | inr (m, e) ↦ rw (run, packets, e) (ap (first_then m) others)
    ]
  where
    first_then : Bytes → Cmd (Connection W) Bool → Cmd (Connection W) Bool
    first_then m others = do
      published ← publish sender true m
      rest ← others
      pure (published && rest)

-- Where no socket was opened `Run` sends nothing, and every call of `publish` returns `false`.
run_unopened :
    {W : Type 0} (sender : Sender W) (zlib : Zlib) (gzip : Bool) (n : ℕ) (frames : List Mat)
    (c : Connection W)
    → (b : Bool) × (run sender zlib false gzip n frames c ≡ ok b c)
unfolding run publish
run_unopened sender zlib gzip n [] c = (true, refl)
run_unopened sender zlib gzip n (mat ∷ frames) c =
    let r = handle_webcam_frame zlib gzip n mat in
    let (b, e) = run_unopened sender zlib gzip r.1 frames c in
    elim (Option-cases r.0) [
      | inl none_sent ↦ (b, ground (arith, none_sent, e))
      | inr (m, sent) ↦ (false, ground (arith, sent, e))
    ]
