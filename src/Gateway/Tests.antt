-- ===== src/Gateway/Tests.antt =====
-- The theorems on the gateway at concrete inputs.
use streaming_gateway.Prelude.{
  ℕ, suc, ◌-◌, ◌^◌, ◌≡◌, refl, true, false, Option, none, some, List, [], ◌∷◌, Bytes, codes, arith,
}
use streaming_gateway.Prelude.Run.{ok, throw, undefined, runtime_error, ◌>>=◌}
use streaming_gateway.Dict.{lookup, insert}
use streaming_gateway.Manager.{SharedMemoryInfo, new_manager}
use streaming_gateway.Manager.Os.{Os, size}
use streaming_gateway.Manager.Region.{
  Host, size_of, address_of, get_shared_memory_region_size, check_shared_memory_region_size,
  map_shared_memory, truncate_opened, open_shared_memory_region, close_shared_memory_region,
}
use streaming_gateway.Manager.Register.{
  find_fd, open_unless, obtain_fd, add_entry, register_new, register_unless, register_body,
  with_lock_host, release_host, register_system_shared_memory,
}
use streaming_gateway.Gateway.{executed, exited, Gateway, Processes}
use streaming_gateway.Gateway.Commands.{buffer_size, handler_args, streamer_args}
use streaming_gateway.Gateway.Modes.{readable, null_pointer, unreadable}
use streaming_gateway.Gateway.Server.{handle_interruption_host, serve_region, main}
use streaming_gateway.Gateway.Daemons.{handler_main, streamer_main}
use streaming_gateway.Gateway.Hops.{handler_hop, streamer_hop}
use streaming_gateway.Gateway.Endings.{
  cleaned_up, half_started, interruption_cleans_up, streamer_not_started,
}

-- A kernel with one shared memory object; its state counts the calls.
abbrev kernel : Os ℕ
kernel = record {
  shm_open = λ key k. (some 3, suc k);
  ftruncate = λ fd n k. (true, suc k);
  fstat = λ fd k. (size buffer_size, suc k);
  mmap = λ fd offset n k. (some 4096, suc k);
  close = λ fd k. (true, suc k);
  munmap = λ addr n k. (true, suc k);
}

-- It starts the handler, whose arguments are six, and no streamer.
abbrev start : List Bytes → Option ℕ
start (a ∷ b ∷ c ∷ d ∷ e ∷ f ∷ g) = some 7
start args = none

abbrev processes : Processes ℕ
processes = record {
  child = λ path args k. (start args, suc k);
  terminate = λ pid k. (false, suc k);
  join = λ pid k. (true, suc k);
  shm_unlink = λ key k. suc k;
  serve = λ path k. suc k;
  random_uuid = λ k. (codes "u", suc k);
  is_directory = λ path k. true;
  exists = λ path k. true;
  is_executable = λ path k. true;
}

abbrev gateway : Gateway ℕ
gateway = record {
  host = record { manager = new_manager; kernel = 0 };
  streamer_process = none;
  handler_process = none;
  shm_key = codes "u";
}

handler_hop_example :
    ((name : Bytes)
      → (argv : List Bytes) × (main kernel processes
            (λ path. true)
            (readable name)
            (codes "gw")
            (handler_args (codes "h") (codes "u") (codes "v") 96)
            gateway
          ≡ ok (executed (codes "h") (name ∷ argv)) gateway)
        × (handler_main kernel argv gateway.host
            ≡ (register_system_shared_memory kernel (codes "shm_queue") (codes "u") 0 96 >>= λ _.
                  ok (codes "v"))
                gateway.host))
    × ((main kernel processes
            (λ path. true)
            null_pointer
            (codes "gw")
            (handler_args (codes "h") (codes "u") (codes "v") 96)
            gateway
          ≡ ok (executed (codes "h") []) gateway)
        × (handler_main kernel [] gateway.host ≡ undefined))
    × (main kernel processes
          (λ path. true)
          unreadable
          (codes "gw")
          (handler_args (codes "h") (codes "u") (codes "v") 96)
          gateway
        ≡ throw runtime_error gateway)
handler_hop_example =
    handler_hop 96 (omega arith) kernel processes (λ path. true) (codes "gw") (codes "h")
      (codes "u") (codes "v") gateway gateway.host refl

streamer_hop_example :
    ((name : Bytes)
      → (argv : List Bytes) × (main kernel processes
            (λ path. true)
            (readable name)
            (codes "gw")
            (streamer_args (codes "s") (codes "u") 96)
            gateway
          ≡ ok (executed (codes "s") (name ∷ argv)) gateway)
        × (streamer_main kernel argv gateway.host
            ≡ register_system_shared_memory kernel
                (codes "shm_queue")
                (codes "u")
                0
                96
                gateway.host))
    × ((main kernel processes
            (λ path. true)
            null_pointer
            (codes "gw")
            (streamer_args (codes "s") (codes "u") 96)
            gateway
          ≡ ok (executed (codes "s") []) gateway)
        × (streamer_main kernel [] gateway.host ≡ undefined))
    × (main kernel processes
          (λ path. true)
          unreadable
          (codes "gw")
          (streamer_args (codes "s") (codes "u") 96)
          gateway
        ≡ throw runtime_error gateway)
streamer_hop_example =
    streamer_hop 96 (omega arith) kernel processes (λ path. true) (codes "gw") (codes "s")
      (codes "u") gateway gateway.host refl

interruption_cleans_up_example :
    handle_interruption_host kernel processes 15 gateway
    ≡ ok (exited 15) (record gateway {
      host = record {
        manager = record { shared_memory_map = []; locked = false };
        kernel = cleaned_up kernel processes gateway;
      };
    })
interruption_cleans_up_example =
    interruption_cleans_up kernel processes (λ a n k. refl) 15 gateway refl

abbrev region : SharedMemoryInfo
region = record {
  name = codes "shm_queue";
  shm_key = codes "u";
  offset = 0;
  byte_size = buffer_size;
  shm_fd = 3;
  mapped_addr = 4096;
}

abbrev registered : Host ℕ
registered = record {
  manager = record { shared_memory_map = (codes "shm_queue", region) ∷ []; locked = false };
  kernel = 5;
}

registers :
    register_system_shared_memory kernel (codes "shm_queue") (codes "u") 0 buffer_size gateway.host
    ≡ ok tt registered
unfolding register_system_shared_memory register_body register_unless register_new obtain_fd
    open_unless find_fd with_lock_host release_host add_entry open_shared_memory_region
    truncate_opened check_shared_memory_region_size get_shared_memory_region_size size_of
    map_shared_memory address_of close_shared_memory_region lookup insert
registers = refl

streamer_not_started_example :
    serve_region kernel processes (codes "gw") (codes "s") (codes "h") (codes "v") gateway
    ≡ ok (exited (2 ^ 32 - 1)) (record (half_started kernel processes gateway registered 7 7) {
      host = record {
        manager = record { shared_memory_map = []; locked = false };
        kernel = cleaned_up kernel processes (half_started kernel processes gateway registered 7 7);
      };
    })
streamer_not_started_example =
    streamer_not_started kernel processes (λ a n k. refl) (codes "gw") (codes "s") (codes "h")
      (codes "v") gateway registered 7 6 7 registers refl refl refl
