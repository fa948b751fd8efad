-- ===== src/Daemon/Tests.antt =====
-- Runs of the daemons on a small region, and the theorems at concrete inputs.
use streaming_gateway.Prelude.{
  ℕ, ◌≡◌, ◌≢◌, refl, sym, ap, true, false, none, some, List, [], ◌∷◌, Bytes, codes, replicate,
  arith,
}
use streaming_gateway.Prelude.Run.{ok}
use streaming_gateway.Memory.{Cells}
use streaming_gateway.Dict.{lookup}
use streaming_gateway.Crc.{crc16, crc16_loop, crc16_table, rounds, crc16_step, crc8}
use streaming_gateway.Manager.{SharedMemoryInfo}
use streaming_gateway.Queue.{World}
use streaming_gateway.Queue.Ready.{IsReady}
use streaming_gateway.Queue.Shape.{Holds}
use streaming_gateway.Queue.Moved.{moved}
use streaming_gateway.Frame.{Mat, frame_message, unmarshal}
use streaming_gateway.Frame.RoundTrip.{Fits, unmarshal-frame_message}
use streaming_gateway.Daemon.{Ipc}
use streaming_gateway.Daemon.Handshake.{init_streaming, init_handler}
use streaming_gateway.Daemon.Stream.{putter, handle_messages}
use streaming_gateway.Daemon.Frames.{IsFrame, AreFrames, room_of, online, mats}
use streaming_gateway.Daemon.Pipeline.{frames_arrive_moved}
use streaming_gateway.Daemon.Camera.{Grabs, present}
use streaming_gateway.Daemon.Greeting.{IsSystemV, offline, handshake}

-- A kernel with one semaphore, whose value is its state
abbrev pub ipc : Ipc ℕ
ipc = record {
  semget = λ key value. (key, value);
  semctl_setval = λ d v value. (true, v);
  semctl_getval = λ d value. (value, value);
  getppid = 1 ∷ 0 ∷ 0 ∷ 0 ∷ [];
}

ipc-IsSystemV : IsSystemV ipc
ipc-IsSystemV = record {
  again = λ key d v k k₁ k₂ shared e set. ap (λ r. (r.0, k₂)) e;
  read = λ d v k₁ k₂ set. ap (λ r. (r.1, k₂)) (sym set);
}

abbrev pub queue_name : Bytes
queue_name = codes "shm_queue"

abbrev pub region : SharedMemoryInfo
region = record {
  name = queue_name;
  shm_key = codes "k";
  offset = 0;
  byte_size = 256;
  shm_fd = 3;
  mapped_addr = 4096;
}

abbrev pub world : World
world = record {
  cells = λ _. 0;
  manager = record { shared_memory_map = (queue_name, region) ∷ []; locked = false };
  peers = [];
}

pub world-IsReady : IsReady world.manager queue_name region
unfolding lookup
world-IsReady = record {
  registered = refl;
  free = refl;
  whole = refl;
  room = omega arith;
  low = omega arith;
  high = omega arith;
}

region-IsShared : crc16 region.shm_key ≢ 0
unfolding crc16 crc16_loop crc16_table rounds crc16_step
region-IsShared e = ground (arith, e)

-- A key whose semaphore is `IPC_PRIVATE`
private_key : crc16 (codes "h0yq") ≡ 0
unfolding crc16 crc16_loop crc16_table rounds crc16_step
private_key = refl

handshake_example :
    (c : Cells) × (init_streaming ipc queue_name (offline world 0)
      ≡ ok tt (offline (record world { cells = c }) (crc8 ipc.getppid)))
    × Holds c region [] 4128
    × (init_handler ipc 1 queue_name (offline world (crc8 ipc.getppid))
        ≡ ok tt (online world (crc8 ipc.getppid)))
handshake_example =
    handshake ipc queue_name ipc-IsSystemV world world 0 0 (crc8 ipc.getppid) region region
      (crc16 region.shm_key) 0 world-IsReady world-IsReady refl region-IsShared refl refl

abbrev pub pixels : ℕ → Mat
pixels v = record { cols = 2; rows = 1; kind = 0; step = 2; content = v ∷ v ∷ [] }

abbrev pub frame : ℕ → Bytes × Mat
frame v = (replicate 22 0, pixels v)

pub pixels-Fits : (v : ℕ) → Fits (pixels v)
pixels-Fits v = record {
  cols_fit = omega arith;
  rows_fit = omega arith;
  kind_fit = omega arith;
  step_fit = omega arith;
}

frame-IsFrame : (v : ℕ) → IsFrame (frame v)
frame-IsFrame v = record { fit = pixels-Fits v; sized = refl; small = omega arith }

unmarshal-frame_message_example :
    unmarshal (frame_message (replicate 22 0) (pixels 7)) ≡ some (pixels 7)
unmarshal-frame_message_example =
    unmarshal-frame_message (replicate 22 0) (pixels 7) refl (omega arith) (pixels-Fits 7)

abbrev pub frames : List (Bytes × Mat)
frames = frame 7 ∷ frame 8 ∷ []

pub frames-AreFrames : AreFrames frames
unfolding AreFrames
frames-AreFrames = (frame-IsFrame 7, (frame-IsFrame 8, tt))

-- the publisher's world after the handshake
pub greeting : (c : Cells) × Holds c region [] 4128
greeting =
    let (c, announced, held, heard) =
      handshake ipc queue_name ipc-IsSystemV world world 0 0 (crc8 ipc.getppid) region region
        (crc16 region.shm_key) 0 world-IsReady world-IsReady refl region-IsShared refl refl in
    (c, held)

abbrev pub greeted : World
greeted = record world { cells = greeting.0 }

-- A handler that has mapped the region at another address
abbrev pub elsewhere : SharedMemoryInfo
elsewhere = record region { mapped_addr = 8192 }

abbrev pub other_world : World
other_world = record world {
  manager = record { shared_memory_map = (queue_name, elsewhere) ∷ []; locked = false };
}

pub other_world-IsReady : IsReady other_world.manager queue_name elsewhere
unfolding lookup
other_world-IsReady = record {
  registered = refl;
  free = refl;
  whole = refl;
  room = omega arith;
  low = omega arith;
  high = omega arith;
}

frames_arrive_moved_example :
    (c d : Cells) × (putter ipc queue_name frames (online greeted 1)
      ≡ ok tt (online (record greeted { cells = c }) 1))
    × (handle_messages ipc 0 2 queue_name 2
          (online (record other_world { cells = moved 4096 8192 c }) 1)
        ≡ ok (mats frames) (online (record other_world { cells = d }) 1))
unfolding room_of
frames_arrive_moved_example =
    frames_arrive_moved ipc queue_name region elsewhere greeted other_world 1 1 refl world-IsReady
      other_world-IsReady frames frames-AreFrames greeting.1 (omega arith) 0

-- A camera whose first grab is empty
abbrev grabs : Grabs
grabs = none ∷ some (pixels 7) ∷ none ∷ some (pixels 8) ∷ []

grabs-present : present grabs ≡ pixels 7 ∷ pixels 8 ∷ []
unfolding present
grabs-present = refl
