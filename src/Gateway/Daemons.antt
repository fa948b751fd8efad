-- ===== src/Gateway/Daemons.antt =====
-- The main functions of webcam/src/webcam_streamer.cpp, TCPStreamer/src/main.cpp and
-- webcam/src/webcam_handler.cpp up to their loops, and their signal handler.
use streaming_gateway.Prelude.{
  ℕ, ◌%◌, ◌^◌, Bool, true, false, Option, none, some, List, [], ◌∷◌, Bytes, codes, bytes_eq,
}
use streaming_gateway.Prelude.Run.{Cmd, pure, guard, ◌>>=◌, ◌>>◌, plain_exception}
use streaming_gateway.Prelude.Decimal.{strtol}
use streaming_gateway.Manager.Os.{Os}
use streaming_gateway.Manager.Region.{Host}
use streaming_gateway.Manager.Register.{register_system_shared_memory}
use streaming_gateway.Manager.Unregister.{unregister_all}
use streaming_gateway.Manager.Interface.{int_to_size}
use streaming_gateway.Cli.{parse_args}
use streaming_gateway.Daemon.{Ipc, HandleStreamDaemon}
use streaming_gateway.Tcp.{Zlib, tcp_put_on_shm_queue}
use streaming_gateway.Gateway.{Ending, exited}
use streaming_gateway.Gateway.Commands.{argument}

abbrev is_end : Bytes → Bool
is_end [] = true
is_end (c ∷ cs) = false

-- `enable_gzip` of TCPStreamer/src/main.cpp, and of tcp_frame_producer_main.cpp, for the value of
-- `GZIP` in the environment
unfoldable pub enable_gzip : Option Bytes → Bool
enable_gzip none = false
enable_gzip (some gzip_env) = bytes_eq gzip_env (codes "true")

module _ {W : Type 0} (os : Os W) where
  -- `strtol` on `q_byte_size`, its test, and the registration
  unfoldable pub register_region : (shm_key q_byte_size : Bytes) → Cmd (Host W) (Unit {0})
  register_region shm_key q_byte_size =
      let r = strtol q_byte_size in
      guard (is_end r.1) plain_exception
      >> register_system_shared_memory os (codes "shm_queue") shm_key 0 (int_to_size (r.0 % 2 ^ 32))

  -- `main` of webcam/src/webcam_streamer.cpp, up to its thread
  unfoldable pub streamer_main : List Bytes → Cmd (Host W) (Unit {0})
  streamer_main argv = do
    shm_key ← argument (parse_args argv) (codes "shm_key")
    q_byte_size ← argument (parse_args argv) (codes "shm_size")
    register_region shm_key q_byte_size

  -- `main` of TCPStreamer/src/main.cpp, for the value of `GZIP`: whether it expects compressed messages
  unfoldable pub tcp_streamer_main : Option Bytes → List Bytes → Cmd (Host W) Bool
  tcp_streamer_main gzip_env argv = do streamer_main argv; pure (enable_gzip gzip_env)

  -- `main` of the handler, with the directory for its videos
  unfoldable pub handler_main : List Bytes → Cmd (Host W) Bytes
  handler_main argv = do
    shm_key ← argument (parse_args argv) (codes "shm_key")
    q_byte_size ← argument (parse_args argv) (codes "shm_size")
    video_repository ← argument (parse_args argv) (codes "video_repository")
    register_region shm_key q_byte_size
    pure video_repository

  -- `dieHandler`; `shared_manager` is never null.
  unfoldable pub die_handler : ℕ → Cmd (Host W) Ending
  die_handler signum = do unregister_all os; pure (exited signum)

-- The loop of `putter` in TCPStreamer/src/main.cpp, for the messages that come in
unfoldable pub tcp_putter :
    {W : Type 0} → Ipc W → Zlib → Bytes → Bool → List Bytes → Cmd (HandleStreamDaemon W) (Unit {0})
tcp_putter ipc zlib region_name gzip [] = pure tt
tcp_putter ipc zlib region_name gzip (message ∷ messages) =
    tcp_put_on_shm_queue ipc zlib region_name gzip (some message)
    >> tcp_putter ipc zlib region_name gzip messages
