-- ===== src/Queue/Ready.antt =====
-- A process that has registered the region of the queue: its calls of the manager succeed, and its
-- loads and stores inside the region are defined.
use streaming_gateway.Prelude.{
  ℕ, ◌+◌, ◌^◌, ◌≤◌, ◌<◌, ◌≡◌, ap, ◌∙◌, true, false, some, List, [], ◌∷◌, Bytes, arith,
}
use streaming_gateway.Prelude.Run.{ok}
use streaming_gateway.Memory.{Cells, write_bytes}
use streaming_gateway.Dict.{lookup}
use streaming_gateway.Manager.{
  SharedMemoryInfo, SharedMemoryStateMap, SharedMemoryManager, get_memory_info, get_memory_map,
  with_lock, release, find_and_locate, locate,
}
use streaming_gateway.Queue.{World, sub_size}
use streaming_gateway.Queue.Access.{in_regions, in_manager}
use streaming_gateway.Queue.Metric.{get_queue_metric, test_and_set, spin, acquire}

-- The region is registered whole, at an address of user space, and the manager's mutex is free.
pub record IsReady (g : SharedMemoryManager) (region_name : Bytes) (info : SharedMemoryInfo)
    : Type 0 where
  pub registered : lookup region_name g.shared_memory_map ≡ some info
  pub free : g.locked ≡ false
  pub whole : info.offset ≡ 0
  pub room : 32 ≤ info.byte_size
  pub low : 0 < info.mapped_addr
  pub high : info.mapped_addr + info.byte_size ≤ 2 ^ 62

in_regions_of_lookup :
    (name : Bytes) (m : SharedMemoryStateMap) (info : SharedMemoryInfo) (a n : ℕ)
    → lookup name m ≡ some info
    → info.mapped_addr ≤ a
    → a + n ≤ info.mapped_addr + info.byte_size
    → in_regions m a n ≡ true
unfolding lookup in_regions
in_regions_of_lookup name [] info a n e lo hi = cc
in_regions_of_lookup name ((i, x) ∷ m) info a n e lo hi =
    ground (arith, in_regions_of_lookup name m info a n)

module _ {g : SharedMemoryManager} {region_name : Bytes} {info : SharedMemoryInfo}
    (r : IsReady g region_name info) where
  pub mapped :
      (a n : ℕ)
      → info.mapped_addr ≤ a
      → a + n ≤ info.mapped_addr + info.byte_size
      → in_regions g.shared_memory_map a n ≡ true
  mapped a n lo hi =
      in_regions_of_lookup region_name g.shared_memory_map info a n r.registered lo hi

  pub get_memory_info_ok :
      (offset n : ℕ)
      → offset + n ≤ info.byte_size
      → get_memory_info region_name offset n g ≡ ok (info.mapped_addr + offset) g
  unfolding get_memory_info with_lock release find_and_locate locate
  get_memory_info_ok offset n h = ground arith

  pub get_memory_map_ok : get_memory_map region_name g ≡ ok info g
  unfolding get_memory_map
  get_memory_map_ok = ground arith

-- A free lock is taken at once.
spin_free :
    (metric : ℕ) (peers : List (Cells → Cells)) (w : World)
    → w.cells metric ≡ 0
    → spin metric peers w
      ≡ ok tt (record w { cells = write_bytes w.cells metric (1 ∷ []); peers = peers })
unfolding spin test_and_set
spin_free metric [] w h = ground arith
spin_free metric (p ∷ ps) w h = ground arith

module _ {region_name : Bytes} {info : SharedMemoryInfo} (w : World)
    (r : IsReady w.manager region_name info) where
  pub in_manager-get_memory_info :
      (offset n : ℕ)
      → offset + n ≤ info.byte_size
      → in_manager (get_memory_info region_name offset n) w ≡ ok (info.mapped_addr + offset) w
  unfolding in_manager
  in_manager-get_memory_info offset n h = ground (arith, get_memory_info_ok r offset n h)

  pub in_manager-get_memory_map : in_manager (get_memory_map region_name) w ≡ ok info w
  unfolding in_manager
  in_manager-get_memory_map = ground (arith, get_memory_map_ok r)

  pub acquire_free :
      w.cells info.mapped_addr ≡ 0
      → acquire info.mapped_addr w
        ≡ ok tt (record w { cells = write_bytes w.cells info.mapped_addr (1 ∷ []) })
  unfolding acquire
  acquire_free h =
      rw (mapped r info.mapped_addr 1 (omega arith) (omega (arith, r.room)))
        (spin_free info.mapped_addr w.peers w h)

  pub get_queue_metric_ok : get_queue_metric region_name w ≡ ok info.mapped_addr w
  unfolding get_queue_metric
  get_queue_metric_ok =
      in_manager-get_memory_info 0 32 (omega (arith, r.room)) ∙ ap (λ a. ok a w) (omega arith)

  -- The queue's own part of the region is all behind the metric.
  pub get_queue_start_ok :
      in_manager (get_memory_info region_name 32 (sub_size info.byte_size 32)) w
      ≡ ok (info.mapped_addr + 32) w
  get_queue_start_ok =
      in_manager-get_memory_info 32 (sub_size info.byte_size 32) (omega (arith, r.room, r.high))
