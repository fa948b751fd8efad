-- ===== src/Gateway/Endings.antt =====
-- How the gateway ends: what `handle_interruption_host` cleans up, when a signal or an exception
-- leads to it.
use streaming_gateway.Prelude.{
  ℕ, ◌-◌, ◌^◌, ◌≡◌, refl, true, false, Option, none, some, List, [], Bytes, codes,
}
use streaming_gateway.Prelude.Run.{ok, throw, ◌>>◌, Cmd, Exception, runtime_error}
use streaming_gateway.Manager.Os.{Os}
use streaming_gateway.Manager.Region.{Host}
use streaming_gateway.Manager.Register.{register_system_shared_memory}
use streaming_gateway.Manager.Unregister.{unregister_all}
use streaming_gateway.Manager.Unregisters.{unmapped_all, unregister_all_lem}
use streaming_gateway.Gateway.{exited, Gateway, Processes}
use streaming_gateway.Gateway.Commands.{buffer_size, handler_args, streamer_args}
use streaming_gateway.Gateway.Server.{
  in_host, in_system, terminate_child, handle_interruption_host, start_child, set_handler,
  run_children, serve_region, try_catch,
}

module _ {W : Type 0} (os : Os W) (processes : Processes W) where
  -- the kernel after `terminate()` of a child, if there is one
  unfoldable pub terminated : Option ℕ → W → W
  terminated none k = k
  terminated (some pid) k = (processes.terminate pid k).1

  -- the kernel after all that `handle_interruption_host` does, for a map of regions
  unfoldable pub cleaned_up : Gateway W → W
  cleaned_up g = processes.shm_unlink g.shm_key (
      unmapped_all os g.host.manager.shared_memory_map
        (terminated g.handler_process (terminated g.streamer_process g.host.kernel)))

  with_kernel : Gateway W → W → Gateway W
  with_kernel g k = record g { host = record (g.host) { kernel = k } }

  terminate_child_lem :
      (child : Option ℕ) (g : Gateway W)
      → terminate_child os processes child g
        ≡ ok tt (with_kernel g (terminated child g.host.kernel))
  unfolding terminate_child in_system terminated with_kernel
  terminate_child_lem none g = refl
  terminate_child_lem (some pid) g = refl

  in_host_ok :
      {A : Type 0} (m : Cmd (Host W) A) (g : Gateway W) (a : A) (h : Host W)
      → m g.host ≡ ok a h
      → in_host m g ≡ ok a (record g { host = h })
  unfolding in_host
  in_host_ok m g a h e = rw (in_host, e) refl

  start_child_ok :
      (executed_with : Bytes) (args : List Bytes) (g : Gateway W) (pid : ℕ) (k : W)
      → processes.child executed_with args g.host.kernel ≡ (some pid, k)
      → start_child os processes executed_with args g ≡ ok pid (with_kernel g k)
  unfolding start_child in_system with_kernel
  start_child_ok executed_with args g pid k e = rw e refl

  start_child_fails :
      (executed_with : Bytes) (args : List Bytes) (g : Gateway W) (k : W)
      → processes.child executed_with args g.host.kernel ≡ (none, k)
      → start_child os processes executed_with args g ≡ throw runtime_error (with_kernel g k)
  unfolding start_child in_system with_kernel
  start_child_fails executed_with args g k e = rw e refl

  -- the gateway after its handler has started and its streamer has not
  abbrev pub half_started : Gateway W → Host W → ℕ → W → Gateway W
  half_started g h pid k = record g { host = record h { kernel = k }; handler_process = some pid }

  run_children_fails :
      (executed_with streamer handler video_repository : Bytes) (g : Gateway W) (pid : ℕ)
      (k₁ k₂ : W)
      → processes.child executed_with
          (handler_args handler g.shm_key video_repository buffer_size)
          g.host.kernel
        ≡ (some pid, k₁)
      → processes.child executed_with (streamer_args streamer g.shm_key buffer_size) k₁ ≡ (none, k₂)
      → run_children os processes executed_with streamer handler video_repository g
        ≡ throw runtime_error (half_started g g.host pid k₂)
  unfolding run_children set_handler with_kernel
  run_children_fails executed_with streamer handler video_repository g pid k₁ k₂ one two =
      rw
        (
          start_child_ok executed_with (handler_args handler g.shm_key video_repository buffer_size)
              g pid k₁ one,
          start_child_fails executed_with (streamer_args streamer g.shm_key buffer_size)
              (half_started g g.host pid k₁) k₂ two,
        )
        refl

  module _ (succeeds : (addr byte_size : ℕ) (k : W) → (os.munmap addr byte_size k).0 ≡ true) where
    -- Whether or not the children can be terminated, `handle_interruption_host` asks both of them
    -- to end, unmaps every region, unlinks the key and exits, if the manager's mutex is free and
    -- `munmap` succeeds.
    pub interruption_cleans_up :
        (sig : ℕ) (g : Gateway W)
        → g.host.manager.locked ≡ false
        → handle_interruption_host os processes sig g
          ≡ ok (exited sig) (record g {
            host = record {
              manager = record { shared_memory_map = []; locked = false };
              kernel = cleaned_up g;
            };
          })
    unfolding handle_interruption_host in_system with_kernel cleaned_up
    interruption_cleans_up sig g free =
        let k₁ = terminated g.streamer_process g.host.kernel in
        let g₁ = with_kernel g k₁ in
        let k₂ = terminated g.handler_process k₁ in
        let g₂ = with_kernel g k₂ in
        rw
          (
            terminate_child_lem g.streamer_process g,
            terminate_child_lem g.handler_process g₁,
            in_host_ok (unregister_all os) g₂ tt
                (record {
                  manager = record { shared_memory_map = []; locked = false };
                  kernel = unmapped_all os g.host.manager.shared_memory_map k₂;
                })
                (unregister_all_lem os succeeds g₂.host free),
          )
          refl

    try_catch_throws :
        {A B : Type 0} (body : Cmd (Gateway W) A) (handler following : Cmd (Gateway W) B)
        (e : Exception) (g g' : Gateway W)
        → body g ≡ throw e g'
        → try_catch body handler following g ≡ handler g'
    unfolding try_catch
    try_catch_throws body handler following e g g' h = rw (try_catch, h) refl

    -- If the region is registered and the handler starts, and then the streamer does not, the
    -- gateway ends the handler, unmaps the region, unlinks the key and exits with -1, if the
    -- manager's mutex is free after the registration and `munmap` succeeds.
    pub streamer_not_started :
        (executed_with streamer handler video_repository : Bytes) (g : Gateway W) (h : Host W)
        (pid : ℕ) (k₁ k₂ : W)
        → register_system_shared_memory os (codes "shm_queue") g.shm_key 0 buffer_size g.host
          ≡ ok tt h
        → h.manager.locked ≡ false
        → processes.child executed_with
            (handler_args handler g.shm_key video_repository buffer_size)
            h.kernel
          ≡ (some pid, k₁)
        → processes.child executed_with (streamer_args streamer g.shm_key buffer_size) k₁
          ≡ (none, k₂)
        → serve_region os processes executed_with streamer handler video_repository g
          ≡ ok (exited (2 ^ 32 - 1)) (record (half_started g h pid k₂) {
            host = record {
              manager = record { shared_memory_map = []; locked = false };
              kernel = cleaned_up (half_started g h pid k₂);
            };
          })
    unfolding serve_region
    streamer_not_started executed_with streamer handler video_repository g h pid k₁ k₂ r free one
          two =
        rw
          (
            in_host_ok
                (register_system_shared_memory os (codes "shm_queue") g.shm_key 0 buffer_size) g tt
                h r,
            try_catch_throws
                (run_children os processes executed_with streamer handler video_repository)
                (handle_interruption_host os processes (2 ^ 32 - 1))
                (in_host (unregister_all os) >> handle_interruption_host os processes 0)
                runtime_error (record g { host = h }) (half_started g h pid k₂)
                (run_children_fails executed_with streamer handler video_repository
                  (record g { host = h }) pid k₁ k₂ one two),
          )
          (interruption_cleans_up (2 ^ 32 - 1) (half_started g h pid k₂) free)
