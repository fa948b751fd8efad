-- ===== src/Tcp/ArrivalTests.antt =====
-- The whole way over TCP at a concrete input: three frames, of which the second is empty.
use streaming_gateway.Prelude.{ℕ, ◌≡◌, ◌++◌, refl, true, some, List, [], ◌∷◌, Bytes, length, arith}
use streaming_gateway.Prelude.Run.{ok}
use streaming_gateway.Memory.{Cells, to_bytes}
use streaming_gateway.Queue.Moved.{moved}
use streaming_gateway.Frame.{Mat, marshal, memcpy}
use streaming_gateway.Frame.RoundTrip.{Fits}
use streaming_gateway.Daemon.Stream.{handle_messages}
use streaming_gateway.Daemon.Frames.{online, room_of}
use streaming_gateway.Daemon.Tests.{
  ipc, queue_name, region, world-IsReady, elsewhere, other_world, other_world-IsReady, greeted,
  greeting, pixels, pixels-Fits,
}
use streaming_gateway.Tcp.{tcp_message, handle_webcam_frame}
use streaming_gateway.Tcp.Publisher.{publish, publish_opened, send, send_rest}
use streaming_gateway.Tcp.Listener.{listen_for_messages}
use streaming_gateway.Tcp.Received.{framed, AreShort}
use streaming_gateway.Tcp.Pool.{
  new_pool, Move, emplace, take_task, run_task, new_message, step, steps, arrivals, take_front_task,
  take_front_message, pick,
}
use streaming_gateway.Tcp.Padding.{padded}
use streaming_gateway.Tcp.Producer.{run, packets, sent_frames}
use streaming_gateway.Tcp.Carried.{AreSendable, arrived}
use streaming_gateway.Tcp.Arrival.{tcp_frames_arrive}
use streaming_gateway.Tcp.Tests.{store_only, store_only-IsZlib}
use streaming_gateway.Tcp.LinkTests.{
  sender, sender-IsSender, sender-IsPrompt, receiver, receiver-IsStream, fresh,
}
use streaming_gateway.Gateway.Daemons.{tcp_putter}

abbrev empty_frame : Mat
empty_frame = record { cols = 0; rows = 0; kind = 0; step = 0; content = [] }

empty_frame-Fits : Fits empty_frame
empty_frame-Fits = record {
  cols_fit = omega arith;
  rows_fit = omega arith;
  kind_fit = omega arith;
  step_fit = omega arith;
}

abbrev frames : List Mat
frames = pixels 7 ∷ empty_frame ∷ pixels 8 ∷ []

frames-AreSendable : AreSendable frames
unfolding AreSendable
frames-AreSendable =
    (pixels-Fits 7, omega arith, (empty_frame-Fits, omega arith, (pixels-Fits 8, omega arith, tt)))

abbrev packet : ℕ → ℕ → Bytes
packet n v =
    to_bytes 8 n ++ (to_bytes 8 (length (tcp_message (pixels v))) ++ tcp_message (pixels v))

abbrev sent : List Bytes
sent = packet 0 7 ∷ packet 1 8 ∷ []

sent_packets : packets store_only true 0 frames ≡ sent
unfolding packets handle_webcam_frame
sent_packets = refl

packets-AreShort : AreShort (packets store_only true 0 frames)
unfolding AreShort packets handle_webcam_frame tcp_message marshal to_bytes memcpy
packets-AreShort = omega arith

published :
    run sender store_only true true 0 frames fresh
    ≡ ok true (record fresh { sent = framed (packets store_only true 0 frames) })
unfolding run publish publish_opened send send_rest framed to_bytes packets handle_webcam_frame
    tcp_message marshal memcpy
published = refl

abbrev moves : List Move
moves =
    emplace (packet 0 7)
    ∷ take_task
    ∷ emplace (packet 1 8)
    ∷ run_task 0
    ∷ take_task
    ∷ new_message
    ∷ run_task 0
    ∷ new_message
    ∷ []

arrive : arrivals moves ≡ packets store_only true 0 frames
unfolding arrivals packets handle_webcam_frame
arrive = refl

moved_all : steps 1 moves new_pool ≡ some (record new_pool { returned = sent })
unfolding steps step take_front_task take_front_message pick
moved_all = ground arith

tcp_frames_arrive_example :
    (t : Bytes) × (c d : Cells) × (listen_for_messages receiver 2
        (record { task_queue = []; kernel = framed (packets store_only true 0 frames) })
      ≡ ok true (record { task_queue = packets store_only true 0 frames; kernel = t }))
    × (tcp_putter ipc store_only queue_name true sent (online greeted 1)
        ≡ ok tt (online (record greeted { cells = c }) 1))
    × (handle_messages ipc 0 2 queue_name 2
          (online (record other_world { cells = moved 4096 8192 c }) 1)
        ≡ ok
            (padded (pixels 7) ∷ padded (pixels 8) ∷ [])
            (online (record other_world { cells = d }) 1))
unfolding room_of packets sent_frames arrived handle_webcam_frame
tcp_frames_arrive_example =
    tcp_frames_arrive store_only store_only-IsZlib sender sender-IsSender sender-IsPrompt receiver
      (λ w. w) receiver-IsStream true frames frames-AreSendable packets-AreShort fresh
      (record fresh { sent = framed (packets store_only true 0 frames) })
      (record { task_queue = []; kernel = framed (packets store_only true 0 frames) }) refl
      published refl refl moves sent arrive moved_all ipc queue_name region elsewhere greeted
      other_world 1 1 refl world-IsReady other_world-IsReady greeting.1 (omega arith) 0
