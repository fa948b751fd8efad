-- ===== src/Tcp.antt =====
-- Frames over TCP: `HandleWebcamFrame` of TCPStreamer/src/tcp_producing.cpp packs a frame, and
-- `PutOnSHMQueue` of TCPStreamer/src/TCPStreamer.cpp unpacks it for the queue.
pub mod Publisher
pub mod Listener
pub mod Sent
pub mod Received
pub mod Link
pub mod Sockets
pub mod Closed
pub mod Pool
pub mod Order
pub mod InOrder
pub mod Workers
pub mod Shutdown
pub mod Producer
pub mod Padding
pub mod Carried
pub mod Arrival
mod Tests
mod LinkTests
mod ArrivalTests
mod ShutdownTests
use streaming_gateway.Prelude.{
  ℕ, ◌+◌, ◌*◌, Bool, true, false, Option, none, some, List, [], ◌∷◌, ◌++◌, Bytes, length, take,
  drop, replicate, ltb, if◌then◌else◌,
}
use streaming_gateway.Prelude.Run.{undefined, Cmd, pure, ok, ◌>>=◌, ◌>>◌}
use streaming_gateway.Memory.{to_bytes, of_bytes}
use streaming_gateway.Manager.{add_size}
use streaming_gateway.Queue.Fifo.{message}
use streaming_gateway.Queue.Enqueue.{enqueue}
use streaming_gateway.Frame.{Mat, int2uchar, size_t2uchar, marshal}
use streaming_gateway.Daemon.{Ipc, HandleStreamDaemon}
use streaming_gateway.Daemon.Handshake.{in_world, init_streaming}
use streaming_gateway.Daemon.Stream.{with_mu}

-- zlib: `none` is a result other than `Z_OK`. `uncompress` is given the room for its output.
pub record Zlib : Type 0 where
  pub compress : Bytes → Option Bytes
  pub uncompress : ℕ → Bytes → Option Bytes

-- `message_len`
abbrev pub message_len : Mat → ℕ
message_len mat = add_size (3 * int2uchar + 2 * size_t2uchar) (length mat.content)

-- `tcp_message`, a vector of zeros into which the frame is copied as by the webcam's daemon
unfoldable pub tcp_message : Mat → Bytes
tcp_message mat = marshal (replicate (message_len mat) 0) mat

-- What `HandleWebcamFrame` publishes, if anything, and the `packet_num` that it leaves
unfoldable pub handle_webcam_frame : Zlib → Bool → ℕ → Mat → Option Bytes × ℕ
handle_webcam_frame zlib enable_gzip packet_num mat = elim mat.content [
  | [] ↦ (none, packet_num)
  | _ ∷ _ ↦ elim enable_gzip [
    | true ↦ elim (zlib.compress (tcp_message mat)) [
      | none ↦ (none, packet_num)
      | some compressed_message ↦ (
        some (
            to_bytes 8 packet_num ++ (to_bytes 8 (length (tcp_message mat)) ++ compressed_message)),
        add_size packet_num 1,
      )
    ]
    | false ↦ (some (to_bytes 8 packet_num ++ tcp_message mat), add_size packet_num 1)
  ]
]

-- What becomes of a received message: a read past its end, nothing, or data for the queue
pub data Unpacked : Type 0 where
  past_end : Unpacked
  dropped : Unpacked
  unpacked : Bytes → Unpacked

-- The branch of `enable_gzip_`
unfoldable pub decompress : Zlib → Bytes → Unpacked
decompress zlib tcp_msg =
    if ltb (length tcp_msg) 8
    then past_end
    else elim (zlib.uncompress (of_bytes (take 8 tcp_msg)) (drop 8 tcp_msg)) [
      | none ↦ dropped
      | some decompressed_message ↦ unpacked decompressed_message
    ]

-- From `packet_num` to `received_decomp`
unfoldable pub unpack : Zlib → Bool → Bytes → Unpacked
unpack zlib enable_gzip tcp_msg =
    if ltb (length tcp_msg) 8 then past_end else elim (drop 8 tcp_msg) [
      | [] ↦ dropped
      | b ∷ bs ↦ elim enable_gzip [ true ↦ decompress zlib (b ∷ bs) | false ↦ unpacked (b ∷ bs) ]
    ]

module _ {W : Type 0} (ipc : Ipc W) (zlib : Zlib) where
  -- The end of `PutOnSHMQueue`
  unfoldable pub put_unpacked : Bytes → Unpacked → Cmd (HandleStreamDaemon W) (Unit {0})
  put_unpacked region_name past_end = λ _. undefined
  put_unpacked region_name dropped = pure tt
  put_unpacked region_name (unpacked received_decomp) =
      in_world (enqueue region_name (message received_decomp))

  -- `TCPStreamer::PutOnSHMQueue`, with the message that `new_message` gives; `none` is a null pointer.
  unfoldable pub tcp_put_on_shm_queue :
      Bytes → Bool → Option Bytes → Cmd (HandleStreamDaemon W) (Unit {0})
  tcp_put_on_shm_queue region_name enable_gzip iter_holder = do
    init_streaming ipc region_name
    λ s. ok tt (record s { initialized_publisher = true })
    elim iter_holder [
      | none ↦ pure tt
      | some tcp_msg ↦ with_mu (put_unpacked region_name (unpack zlib enable_gzip tcp_msg))
    ]
