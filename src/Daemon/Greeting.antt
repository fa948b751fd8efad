-- ===== src/Daemon/Greeting.antt =====
-- The handshake of a publisher and a handler by the semaphore.
use streaming_gateway.Prelude.{
  ℕ, suc, ◌+◌, ◌≡◌, ◌≢◌, refl, ap, ◌∙◌, true, false, [], Bytes, ◌==◌, arith,
}
use streaming_gateway.Prelude.Run.{ok}
use streaming_gateway.Memory.{Cells}
use streaming_gateway.Crc.{crc16, crc8}
use streaming_gateway.Manager.{SharedMemoryInfo, get_memory_map}
use streaming_gateway.Queue.{World}
use streaming_gateway.Queue.Access.{in_manager}
use streaming_gateway.Queue.Metric.{initialize_queue}
use streaming_gateway.Queue.Ready.{IsReady, in_manager-get_memory_map}
use streaming_gateway.Queue.Shape.{Holds}
use streaming_gateway.Queue.Refine.{initialize_queue_lem}
use streaming_gateway.Daemon.{Ipc, HandleStreamDaemon}
use streaming_gateway.Daemon.Handshake.{
  in_kernel, get_sema, announce, init_streaming, await_publisher, init_handler,
  wait_for_semaphore_value,
}
use streaming_gateway.Daemon.Frames.{online, in_world_ok}

-- A daemon before its handshake, its mutex free
abbrev pub offline : {W : Type 0} → World → W → HandleStreamDaemon W
offline w k = record { world = w; kernel = k; mu_held = false; initialized_publisher = false }

-- `semget` gives the set that exists for a key, unless the key is 0, which is `IPC_PRIVATE`: then it
-- makes another set at every call. `GETVAL` gives the value that `SETVAL` has set.
pub record IsSystemV {W : Type 0} (ipc : Ipc W) : Type 0 where
  pub again :
      (key d v : ℕ) (k k₁ k₂ : W)
      → key ≢ 0
      → ipc.semget key k ≡ (d, k₁)
      → ipc.semctl_setval d v k₁ ≡ (true, k₂)
      → ipc.semget key k₂ ≡ (d, k₂)
  pub read :
      (d v : ℕ) (k₁ k₂ : W)
      → ipc.semctl_setval d v k₁ ≡ (true, k₂)
      → ipc.semctl_getval d k₂ ≡ (v, k₂)

module _ {W : Type 0} (ipc : Ipc W) (region_name : Bytes) where
  get_sema_ok :
      (s : HandleStreamDaemon W) (info : SharedMemoryInfo)
      → IsReady s.world.manager region_name info
      → (d : ℕ) (k : W) → ipc.semget (crc16 info.shm_key) s.kernel ≡ (d, k)
      → get_sema ipc region_name s ≡ ok d (record s { kernel = k })
  unfolding get_sema in_kernel
  get_sema_ok s info r d k e =
      rw
        (
          in_world_ok (in_manager (get_memory_map region_name)) s info s.world
              (in_manager-get_memory_map s.world r),
          e,
        )
        refl

  announce_lem :
      (w : World) (k k₁ k₂ : W) (info : SharedMemoryInfo) (d : ℕ)
      → IsReady w.manager region_name info
      → ipc.semget (crc16 info.shm_key) k ≡ (d, k₁)
      → ipc.semctl_setval d (crc8 ipc.getppid) k₁ ≡ (true, k₂)
      → (c : Cells) × (announce ipc region_name (offline w k)
          ≡ ok tt (offline (record w { cells = c }) k₂))
        × Holds c info [] (info.mapped_addr + 32)
  unfolding announce in_kernel
  announce_lem w k k₁ k₂ info d r e set =
      let (c, done, h) = initialize_queue_lem w r in
      (
        c,
        rw
            (
              in_world_ok (initialize_queue region_name) (offline w k) tt (record w { cells = c })
                  done,
              get_sema_ok (offline (record w { cells = c }) k) info r d k₁ e,
              set,
            )
            refl,
        h,
      )

  wait_ok :
      (fuel d v : ℕ) (s : HandleStreamDaemon W)
      → ipc.semctl_getval d s.kernel ≡ (v, s.kernel)
      → wait_for_semaphore_value ipc (suc fuel) d v s ≡ ok tt s
  unfolding wait_for_semaphore_value
  wait_ok fuel d v s e =
      let same : (v == v) ≡ true = ground arith in
      let first : (ipc.semctl_getval d s.kernel).0 ≡ v = ap (λ r. r.0) e in
      rw (wait_for_semaphore_value, first, same) (ap (λ r. ok tt (record s { kernel = r.1 })) e)

  -- A publisher's `InitStreaming`, whose `SETVAL` succeeds, makes an empty queue, and a handler's
  -- `InitHandler` after it returns at its first look at the semaphore, if both have registered the
  -- region under one key, whose checksum is not 0, and have one parent.
  pub handshake :
      IsSystemV ipc
      → (w v : World) (k k₁ k₂ : W) (info there : SharedMemoryInfo) (d fuel : ℕ)
      → IsReady w.manager region_name info
      → IsReady v.manager region_name there
      → there.shm_key ≡ info.shm_key
      → crc16 info.shm_key ≢ 0
      → ipc.semget (crc16 info.shm_key) k ≡ (d, k₁)
      → ipc.semctl_setval d (crc8 ipc.getppid) k₁ ≡ (true, k₂)
      → (c : Cells) × (init_streaming ipc region_name (offline w k)
          ≡ ok tt (offline (record w { cells = c }) k₂))
        × Holds c info [] (info.mapped_addr + 32)
        × (init_handler ipc (suc fuel) region_name (offline v k₂) ≡ ok tt (online v k₂))
  unfolding init_streaming init_handler await_publisher
  handshake law w v k k₁ k₂ info there d fuel r q key shared e set =
      let (c, done, h) = announce_lem w k k₁ k₂ info d r e set in
      let found : ipc.semget (crc16 there.shm_key) k₂ ≡ (d, k₂) =
        ap (λ x. ipc.semget (crc16 x) k₂) key
        ∙ law.again (crc16 info.shm_key) d (crc8 ipc.getppid) k k₁ k₂ shared e set in
      (
        c,
        done,
        h,
        rw
            (
              get_sema_ok (offline v k₂) there q d k₂ found,
              wait_ok fuel d (crc8 ipc.getppid) (offline v k₂)
                  (law.read d (crc8 ipc.getppid) k₁ k₂ set),
            )
            refl,
      )
