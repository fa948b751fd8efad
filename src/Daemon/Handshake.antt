-- ===== src/Daemon/Handshake.antt =====
-- `GetSema`, `InitStreaming`, `InitHandler` and `waitForSemaphoreValue` of utils.cpp: the publisher
-- tells the handler by a semaphore that the queue is there.
use streaming_gateway.Prelude.{ℕ, zero, suc, true, false, Bytes, ◌==◌, if◌then◌else◌}
use streaming_gateway.Prelude.Run.{
  ok, throw, undefined, blocked, Cmd, guard, ◌>>=◌, ◌>>◌, runtime_error,
}
use streaming_gateway.Crc.{crc16, crc8}
use streaming_gateway.Manager.{get_memory_map}
use streaming_gateway.Queue.{World}
use streaming_gateway.Queue.Access.{in_manager}
use streaming_gateway.Queue.Metric.{initialize_queue}
use streaming_gateway.Daemon.{Ipc, HandleStreamDaemon}

module _ {W : Type 0} where
  -- A call on the process's view of the queue
  unfoldable pub in_world : {A : Type 0} → Cmd World A → Cmd (HandleStreamDaemon W) A
  in_world m s = elim (m s.world) [
    | ok a w ↦ ok a (record s { world = w })
    | throw e w ↦ throw e (record s { world = w })
    | undefined ↦ undefined
    | blocked ↦ blocked
  ]

  -- A call of the kernel
  unfoldable pub in_kernel : {A : Type 0} → (W → A × W) → Cmd (HandleStreamDaemon W) A
  in_kernel call s = let r = call s.kernel in ok r.0 (record s { kernel = r.1 })

module _ {W : Type 0} (ipc : Ipc W) where
  -- `waitForSemaphoreValue`, on fuel
  unfoldable pub wait_for_semaphore_value :
      ℕ → (sem_desc value : ℕ) → Cmd (HandleStreamDaemon W) (Unit {0})
  wait_for_semaphore_value zero sem_desc value s = blocked
  wait_for_semaphore_value (suc fuel) sem_desc value s =
      let r = ipc.semctl_getval sem_desc s.kernel in
      elim (r.0 == value) [
        | true ↦ ok tt (record s { kernel = r.1 })
        | false ↦ wait_for_semaphore_value fuel sem_desc value (record s { kernel = r.1 })
      ]

  -- `GetSema`
  unfoldable pub get_sema : Bytes → Cmd (HandleStreamDaemon W) ℕ
  get_sema region_name = do
    info ← in_world (in_manager (get_memory_map region_name))
    in_kernel (ipc.semget (crc16 info.shm_key))

  -- `InitStreaming` for a publisher that is not there yet
  unfoldable pub announce : Bytes → Cmd (HandleStreamDaemon W) (Unit {0})
  announce region_name = do
    in_world (initialize_queue region_name)
    sema_desc ← get_sema region_name
    set ← in_kernel (ipc.semctl_setval sema_desc (crc8 ipc.getppid))
    guard set runtime_error

  -- `InitStreaming`
  unfoldable pub init_streaming : Bytes → Cmd (HandleStreamDaemon W) (Unit {0})
  init_streaming region_name s = if s.initialized_publisher then ok tt s else announce region_name s

  -- The wait of `InitHandler`
  unfoldable pub await_publisher : ℕ → Bytes → Cmd (HandleStreamDaemon W) (Unit {0})
  await_publisher fuel region_name = do
    semaphore_desc ← get_sema region_name
    wait_for_semaphore_value fuel semaphore_desc (crc8 ipc.getppid)

  -- `InitHandler`
  unfoldable pub init_handler : ℕ → Bytes → Cmd (HandleStreamDaemon W) (Unit {0})
  init_handler fuel region_name = do
    λ s. if s.initialized_publisher then ok tt s else await_publisher fuel region_name s
    λ s. ok tt (record s { initialized_publisher = true })
