-- ===== src/Gateway/Server.antt =====
-- The mode `http` of core/src/main.cpp, the interruption handler, and `main`.
use streaming_gateway.Prelude.{
  ℕ, ◌-◌, ◌^◌, Bool, ◌&&◌, Option, none, some, List, Bytes, codes, bytes_eq, if◌then◌else◌,
}
use streaming_gateway.Prelude.Run.{
  ok, throw, undefined, blocked, Cmd, pure, raise, guard, ◌>>=◌, ◌>>◌, runtime_error,
}
use streaming_gateway.Dict.{lookup}
use streaming_gateway.Manager.{new_manager}
use streaming_gateway.Manager.Os.{Os}
use streaming_gateway.Manager.Region.{Host}
use streaming_gateway.Manager.Register.{register_system_shared_memory}
use streaming_gateway.Manager.Unregister.{unregister_all}
use streaming_gateway.Cli.{parse_args}
use streaming_gateway.Gateway.{Ending, returned, exited, aborted, Gateway, Processes}
use streaming_gateway.Gateway.Commands.{argument, buffer_size, handler_args, streamer_args}
use streaming_gateway.Gateway.Modes.{Slot, run_streamer, run_handler}

module _ {W : Type 0} where
  -- A call of the shared memory manager
  unfoldable pub in_host : {A : Type 0} → Cmd (Host W) A → Cmd (Gateway W) A
  in_host m g = elim (m g.host) [
    | ok a h ↦ ok a (record g { host = h })
    | throw e h ↦ throw e (record g { host = h })
    | undefined ↦ undefined
    | blocked ↦ blocked
  ]

  -- A call of the system
  unfoldable pub in_system : {A : Type 0} → (W → A × W) → Cmd (Gateway W) A
  in_system call g =
      let r = call g.host.kernel in ok r.0 (record g { host = record (g.host) { kernel = r.1 } })

  -- `try` round a command, `catch (const std::exception& e)` with a handler that does not come
  -- back, and what follows
  unfoldable pub try_catch :
      {A B : Type 0}
      → Cmd (Gateway W) A
      → (handler following : Cmd (Gateway W) B) → Cmd (Gateway W) B
  try_catch body handler following g = elim (body g) [
    | ok a h ↦ following h
    | throw e h ↦ handler h
    | undefined ↦ undefined
    | blocked ↦ blocked
  ]

module _ {W : Type 0} (os : Os W) (processes : Processes W) where
  -- `terminate()` under its handler, where the process has been started
  unfoldable pub terminate_child : Option ℕ → Cmd (Gateway W) (Unit {0})
  terminate_child none = pure tt
  terminate_child (some pid) = do _ ← in_system (processes.terminate pid); pure tt

  -- `handle_interruption_host`
  unfoldable pub handle_interruption_host : ℕ → Cmd (Gateway W) Ending
  handle_interruption_host sig g =
      (do
        terminate_child g.streamer_process
        terminate_child g.handler_process
        in_host (unregister_all os)
        in_system (λ w. (tt, processes.shm_unlink g.shm_key w))
        pure (exited sig))
        g

  -- A `new boost::process::child`
  unfoldable pub start_child : Bytes → List Bytes → Cmd (Gateway W) ℕ
  start_child executed_with args = do
    started ← in_system (processes.child executed_with args)
    elim started [ none ↦ raise runtime_error | some pid ↦ pure pid ]

  unfoldable pub set_handler : ℕ → Cmd (Gateway W) (Unit {0})
  set_handler pid g = ok tt (record g { handler_process = some pid })

  unfoldable pub set_streamer : ℕ → Cmd (Gateway W) (Unit {0})
  set_streamer pid g = ok tt (record g { streamer_process = some pid })

  unfoldable pub join_child : ℕ → Cmd (Gateway W) (Unit {0})
  join_child pid = do joined ← in_system (processes.join pid); guard joined runtime_error

  -- The body of `try` in `main_server`. The server's thread runs until it is joined.
  unfoldable pub run_children :
      (executed_with streamer handler video_repository : Bytes) → Cmd (Gateway W) (Unit {0})
  run_children executed_with streamer handler video_repository g =
      (do
        handler_pid ←
            start_child executed_with (handler_args handler g.shm_key video_repository buffer_size)
        set_handler handler_pid
        streamer_pid ← start_child executed_with (streamer_args streamer g.shm_key buffer_size)
        set_streamer streamer_pid
        join_child handler_pid
        join_child streamer_pid
        in_system (λ w. (tt, processes.serve video_repository w)))
        g

  -- The assertions of `main_server`, in one test
  unfoldable pub assertions : (executed_with streamer handler video_repository : Bytes) → W → Bool
  assertions executed_with streamer handler video_repository w =
      processes.is_directory video_repository w
      && (processes.exists executed_with w
          && (processes.exists streamer w
              && (processes.exists handler w
                  && (processes.is_executable executed_with w
                      && (processes.is_executable streamer w
                          && processes.is_executable handler w)))))

  -- `main_server` behind its assertions
  unfoldable pub serve_region :
      (executed_with streamer handler video_repository : Bytes) → Cmd (Gateway W) Ending
  serve_region executed_with streamer handler video_repository g =
      (do
        in_host (register_system_shared_memory os (codes "shm_queue") g.shm_key 0 buffer_size)
        try_catch (run_children executed_with streamer handler video_repository)
            (handle_interruption_host (2 ^ 32 - 1))
            (in_host (unregister_all os) >> handle_interruption_host 0))
        g

  -- The new key and the new manager; the assertions between the two do not look at them.
  unfoldable pub set_key : Bytes → Cmd (Gateway W) (Unit {0})
  set_key shm_key g =
      ok tt (record g { shm_key = shm_key; host = record (g.host) { manager = new_manager } })

  -- `main_server`
  unfoldable pub main_server : Bytes → List (Bytes × Bytes) → Cmd (Gateway W) Ending
  main_server executed_with arguments = do
    streamer ← argument arguments (codes "streamer")
    handler ← argument arguments (codes "handler")
    uuid ← in_system processes.random_uuid
    video_repository ← argument arguments (codes "video_repository")
    set_key uuid
    λ g.
        (if assertions executed_with streamer handler video_repository g.host.kernel
            then serve_region executed_with streamer handler video_repository
            else pure aborted)
          g

  -- What `main` does for a mode
  unfoldable pub run_mode :
      (Bytes → Bool) → Slot → Bytes → List (Bytes × Bytes) → Bytes → Cmd (Gateway W) Ending
  run_mode can_execute slot executed_with arguments mode =
      if bytes_eq mode (codes "http")
      then main_server executed_with arguments
      else (if bytes_eq mode (codes "streamer")
          then run_streamer can_execute slot arguments
          else (if bytes_eq mode (codes "handler")
              then run_handler can_execute slot arguments
              else pure (returned 0)))

  -- `main`
  unfoldable pub main : (Bytes → Bool) → Slot → Bytes → List Bytes → Cmd (Gateway W) Ending
  main can_execute slot executed_with argv =
      let arguments = parse_args argv in
      elim (lookup (codes "exec_mode") arguments) [
        | none ↦ pure (returned 0)
        | some mode ↦ run_mode can_execute slot executed_with arguments mode
      ]
