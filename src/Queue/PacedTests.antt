-- ===== src/Queue/PacedTests.antt =====
-- The theorems on a handler that keeps pace, and on one that does not, at concrete inputs.
use streaming_gateway.Prelude.{
  ℕ, zero, suc, ◌+◌, ◌*◌, ◌≤◌, ◌≡◌, ◌⊎◌, inr, refl, List, [], ◌∷◌, arith, replicate,
}
use streaming_gateway.Prelude.Run.{ok, ◌>>◌}
use streaming_gateway.Memory.{
  Cells, write, read_bytes, write_bytes, to_bytes, of_bytes, get64, put64,
}
use streaming_gateway.Queue.{World}
use streaming_gateway.Queue.Metric.{initialize_queue}
use streaming_gateway.Queue.Enqueue.{enqueue}
use streaming_gateway.Queue.Deque.{deque, take_message}
use streaming_gateway.Queue.Fifo.{Op, put, get, fifo, client, message}
use streaming_gateway.Queue.Shape.{IsMessage}
use streaming_gateway.Queue.Append.{locked_cells}
use streaming_gateway.Queue.Remove.{message_at}
use streaming_gateway.Queue.Endless.{Paced, over, poll, publish, take, client-Paced}
use streaming_gateway.Queue.Endless.Position.{alone}
use streaming_gateway.Queue.Overtake.{message_lost}
use streaming_gateway.Queue.Overtake.Pair.{IsPair, taker}
use streaming_gateway.Queue.WrapTests.{full_world, full_world-IsReady}

-- no other process
abbrev lone_world : World
lone_world = record full_world { peers = [] }

-- two messages of 60 bytes, which fill the region but for 14 bytes
abbrev pair_cells : Cells
pair_cells =
    write_bytes
      (put64
        (put64
          (write_bytes
            (put64 (put64 (put64 (put64 (put64 (λ _. 0) 4104 2) 4112 32) 4120 109) 4129 60) 4137 77)
            4145 (replicate 60 5))
          4206 60)
        4214 154)
      4222 (replicate 60 6)

pair_cells-IsPair : IsPair pair_cells 4096 (replicate 60 5) (replicate 60 6)
unfolding write read_bytes write_bytes to_bytes of_bytes get64 put64
pair_cells-IsPair = record {
  unlocked = refl;
  count = refl;
  head = refl;
  rear = refl;
  first = record { size = refl; link = refl; content = refl };
  second = record { size = refl; link = refl; content = refl };
}

message_lost_example :
    (d : Cells) × (enqueue
        (113 ∷ [])
        (message (replicate 50 7))
        (record full_world { cells = pair_cells; peers = taker (113 ∷ []) full_world.manager ∷ [] })
      ≡ ok tt (alone full_world.manager d))
    × (e : Cells) × (deque (113 ∷ []) (alone full_world.manager d)
        ≡ ok (message_at 4205 (replicate 60 6)) (alone full_world.manager e))
    × (get64 e 4104 ≡ 1)
    × IsMessage e 4128 4128 (replicate 50 7)
    × (deque (113 ∷ []) (alone full_world.manager e)
        ≡ take_message 4096 4128 4282 (alone full_world.manager (locked_cells 4096 e)))
message_lost_example =
    message_lost full_world.manager full_world-IsReady (replicate 60 5) (replicate 60 6)
      (omega arith) pair_cells (replicate 50 7) pair_cells-IsPair (omega arith) (omega arith)

-- three messages of 67 bytes, each taken before the next, and a call that finds none
abbrev paced_ops : List Op
paced_ops =
    put (replicate 67 5) ∷ get ∷ get ∷ put (replicate 67 6) ∷ get ∷ put (replicate 67 7) ∷ get ∷ []

paced_ops-Paced : Paced 67 0 paced_ops
paced_ops-Paced = publish refl (take (poll (publish refl (take (publish refl (take over))))))

-- 84 and 168 leave room for the metric, 252 is above the region's size.
gap_of_84 : (k : ℕ) → (32 + k * (17 + 67) ≤ 200) ⊎ (200 ≤ k * (17 + 67))
gap_of_84 zero = omega arith
gap_of_84 (suc zero) = omega arith
gap_of_84 (suc (suc zero)) = omega arith
gap_of_84 (suc (suc (suc k))) = inr (omega arith)

client-Paced_example :
    (c : Cells) × ((initialize_queue (113 ∷ []) >> client (113 ∷ []) paced_ops) lone_world
      ≡ ok (fifo [] paced_ops) (record lone_world { cells = c }))
client-Paced_example =
    client-Paced lone_world 67 paced_ops full_world-IsReady refl (omega arith) gap_of_84
      paced_ops-Paced
