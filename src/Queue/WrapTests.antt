-- ===== src/Queue/WrapTests.antt =====
-- The theorems on a region that is used up, at concrete inputs.
use streaming_gateway.Prelude.{◌≡◌, ◌∙◌, refl, false, [], ◌∷◌, arith, replicate}
use streaming_gateway.Prelude.Run.{ok}
use streaming_gateway.Memory.{
  Cells, write, read_bytes, write_bytes, to_bytes, of_bytes, get64, put64,
}
use streaming_gateway.Memory.Laws.{
  get64-put64, get64-put64-Apart, write_bytes_one, write_bytes_outside, put64_outside,
}
use streaming_gateway.Dict.{lookup}
use streaming_gateway.Manager.{SharedMemoryInfo}
use streaming_gateway.Queue.{World}
use streaming_gateway.Queue.Enqueue.{enqueue}
use streaming_gateway.Queue.Join.{traversal_loop}
use streaming_gateway.Queue.Fifo.{message}
use streaming_gateway.Queue.Ready.{IsReady}
use streaming_gateway.Queue.Shape.{Holds, busy, Laid}
use streaming_gateway.Queue.Wrap.{IsDrained, enqueue_wrap}
use streaming_gateway.Queue.Astray.{traversal_astray}

abbrev region : SharedMemoryInfo
region = record {
  name = 113 ∷ [];
  shm_key = 107 ∷ [];
  offset = 0;
  byte_size = 200;
  shm_fd = 3;
  mapped_addr = 4096;
}

-- one message of 100 bytes, at the front
abbrev full_cells : Cells
full_cells =
    write_bytes
      (put64 (put64 (put64 (put64 (put64 (λ _. 0) 4104 1) 4112 32) 4120 32) 4129 100) 4137 117) 4145
      (replicate 100 5)

-- a listener that takes it
abbrev listener : Cells → Cells
listener c = put64 (put64 (write_bytes c 4128 (1 ∷ [])) 4104 0) 4112 0

abbrev pub full_world : World
full_world = record {
  cells = full_cells;
  manager = record { shared_memory_map = (113 ∷ [], region) ∷ []; locked = false };
  peers = listener ∷ [];
}

pub full_world-IsReady : IsReady full_world.manager (113 ∷ []) region
unfolding lookup
full_world-IsReady = record {
  registered = refl;
  free = refl;
  whole = refl;
  room = omega arith;
  low = omega arith;
  high = omega arith;
}

full_world-Holds : Holds full_cells region (replicate 100 5 ∷ []) 4245
unfolding write read_bytes write_bytes to_bytes of_bytes get64 put64
full_world-Holds = record {
  unlocked = refl;
  count = refl;
  shape =
      busy [] (replicate 100 5) 4128 4128 refl refl (omega arith) refl refl
        (record { size = refl; link = refl; content = refl }) refl;
  inside = omega arith;
}

listener_drains :
    (c : Cells) → Holds c region (replicate 100 5 ∷ []) 4245 → IsDrained (listener c) region
listener_drains c h = record {
  unlocked =
      put64_outside (put64 (write_bytes c 4128 (1 ∷ [])) 4104 0) 4112 0 4096 (omega arith)
      ∙ put64_outside (write_bytes c 4128 (1 ∷ [])) 4104 0 4096 (omega arith)
      ∙ write_bytes_outside c 4128 (1 ∷ []) 4096 (omega arith)
      ∙ h.unlocked;
  count =
      get64-put64-Apart (put64 (write_bytes c 4128 (1 ∷ [])) 4104 0) 4112 0 4104 (omega arith)
      ∙ get64-put64 (write_bytes c 4128 (1 ∷ [])) 4104 0 (omega arith);
  head = get64-put64 (put64 (write_bytes c 4128 (1 ∷ [])) 4104 0) 4112 0 (omega arith);
  processed = omega (
    arith,
    put64_outside (put64 (write_bytes c 4128 (1 ∷ [])) 4104 0) 4112 0 4128 (omega arith),
    put64_outside (write_bytes c 4128 (1 ∷ [])) 4104 0 4128 (omega arith),
    write_bytes_one c 4128 1,
  );
}

front_length : get64 full_cells 4129 ≡ 100
unfolding write read_bytes write_bytes to_bytes of_bytes get64 put64
front_length = refl

enqueue_wrap_example :
    (c : Cells) × (enqueue (113 ∷ []) (message (replicate 70 6)) full_world
      ≡ ok tt (record full_world { cells = c; peers = [] }))
    × Holds c region (replicate 70 6 ∷ []) 4215
enqueue_wrap_example =
    enqueue_wrap full_world full_world-IsReady (message (replicate 70 6)) listener []
      full_world-Holds (omega arith) (omega arith) (omega arith) (omega (arith, front_length))
      (omega (arith, front_length)) refl refl listener_drains

-- two messages of 2 and 1 bytes
abbrev two_cells : Cells
two_cells =
    write_bytes
      (put64 (put64 (write_bytes (put64 (put64 (λ _. 0) 4129 2) 4137 19) 4145 (7 ∷ 8 ∷ [])) 4148 1)
        4156 37)
      4164 (9 ∷ [])

abbrev two_world : World
two_world = record full_world { cells = two_cells }

two_world-Laid : Laid two_cells 4128 4128 ((7 ∷ 8 ∷ []) ∷ (9 ∷ []) ∷ []) 4165
unfolding write read_bytes write_bytes to_bytes of_bytes get64 put64
two_world-Laid = (
  record { size = refl; link = refl; content = refl },
  (record { size = refl; link = refl; content = refl }, refl),
)

traversal_astray_example :
    traversal_loop 10 100 4128 0 [] two_world
    ≡ traversal_loop 8 100 4184 37 (4128 ∷ 4147 ∷ []) two_world
traversal_astray_example =
    traversal_astray two_world full_world-IsReady 8 100 4165 (7 ∷ 8 ∷ []) (9 ∷ []) two_world-Laid
      (omega arith) (omega arith) (omega arith)
