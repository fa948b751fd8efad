-- ===== src/Tcp/Arrival.antt =====
-- The whole way of frames over TCP: the producer's `Run`, the connection, the listener and one
-- worker, the loop of `putter` in TCPStreamer/src/main.cpp, the queue, and a round of the handler.
use mathlib.Core.Path.{subst, subst₂}
use streaming_gateway.Prelude.{
  ℕ, ◌+◌, ◌≤◌, ◌≡◌, ◌∙◌, sym, ap, Bool, true, some, List, [], ◌++◌, Bytes, arith, length,
  append-nil, map,
}
use streaming_gateway.Prelude.Run.{Run, ok}
use streaming_gateway.Memory.{Cells}
use streaming_gateway.Manager.{SharedMemoryInfo}
use streaming_gateway.Queue.{World}
use streaming_gateway.Queue.Ready.{IsReady}
use streaming_gateway.Queue.Shape.{Holds}
use streaming_gateway.Queue.Moved.{moved, Holds-moved}
use streaming_gateway.Frame.{Mat}
use streaming_gateway.Daemon.{Ipc}
use streaming_gateway.Daemon.Stream.{handle_messages}
use streaming_gateway.Daemon.Frames.{wire, room_of, online}
use streaming_gateway.Daemon.Pipeline.{handle_lem}
use streaming_gateway.Tcp.{Zlib}
use streaming_gateway.Tcp.Padding.{IsZlib, padded}
use streaming_gateway.Tcp.Publisher.{Sender, Connection, publish_each}
use streaming_gateway.Tcp.Listener.{Receiver, Listener, listen_for_messages}
use streaming_gateway.Tcp.Sent.{IsSender}
use streaming_gateway.Tcp.Received.{AreShort, IsStream}
use streaming_gateway.Tcp.Link.{IsPrompt, tcp_link}
use streaming_gateway.Tcp.Producer.{run, packets, sent_frames, run-packets}
use streaming_gateway.Tcp.Pool.{new_pool, Move, steps, arrivals}
use streaming_gateway.Tcp.InOrder.{steps_in_order}
use streaming_gateway.Gateway.Daemons.{tcp_putter}
use streaming_gateway.Tcp.Carried.{
  AreSendable, arrived, packets-Unpack, arrived-AreFrames, mats-arrived, length-arrived,
  tcp_putter_lem,
}

-- `Run` of the producer sends frames of its camera, whose numbers fit into `int` and `size_t` and
-- that are not too long, over a new connection, and all its calls of `publish` return `true`. The connection carries
-- the bytes; each `send` that does not fail takes a byte at least and a length whole, each `recv`
-- gives a byte at least of those that are pending and a length whole, zlib gives back what it has
-- compressed, no message has more than 100000000 bytes, nobody asks the listener to stop, and the
-- pool has one worker and is left empty. Then the messages are the listener's tasks; the streamer's
-- loop puts what `new_message` returns into the empty queue, if it fits into the region; and one
-- round of the handler, which may have mapped the region elsewhere, exports the frames that were
-- published, in order, each with eight zero bytes behind its content. Both daemons are behind their
-- handshake with their mutexes free, and the handler may retry for each message as often as there
-- are frames.
pub tcp_frames_arrive :
    {N W : Type 0} (zlib : Zlib)
    → IsZlib zlib
    → (sender : Sender N) → IsSender sender
    → IsPrompt sender
    → (receiver : Receiver N) (pending : N → Bytes) → IsStream receiver pending
    → (enable_gzip : Bool) (frames : List Mat) → AreSendable frames
    → AreShort (packets zlib enable_gzip 0 frames)
    → (x y : Connection N) (s : Listener N) → x.sent ≡ []
    → run sender zlib true enable_gzip 0 frames x ≡ ok true y
    → pending s.kernel ≡ y.sent
    → s.task_queue ≡ []
    → (moves : List Move) (returned : List Bytes)
    → arrivals moves ≡ packets zlib enable_gzip 0 frames
    → steps 1 moves new_pool ≡ some (record new_pool { returned = returned })
    → (ipc : Ipc W) (region_name : Bytes) (info info' : SharedMemoryInfo) (w v : World) (k l : W)
    → info.byte_size ≡ info'.byte_size
    → IsReady w.manager region_name info
    → IsReady v.manager region_name info'
    → {stop : ℕ} → Holds w.cells info [] stop
    → stop + room_of (arrived (sent_frames zlib enable_gzip 0 frames))
      ≤ info.mapped_addr + info.byte_size
    → (fuel : ℕ)
    → (t : N) × (c d : Cells) × (listen_for_messages receiver
          (length (packets zlib enable_gzip 0 frames))
          s
        ≡ ok true (record { task_queue = packets zlib enable_gzip 0 frames; kernel = t }))
      × (tcp_putter ipc zlib region_name enable_gzip returned (online w k)
          ≡ ok tt (online (record w { cells = c }) k))
      × (handle_messages ipc fuel
            (length (sent_frames zlib enable_gzip 0 frames))
            region_name
            (length (sent_frames zlib enable_gzip 0 frames))
            (online (record v { cells = moved info.mapped_addr info'.mapped_addr c }) l)
          ≡ ok
              (map padded (sent_frames zlib enable_gzip 0 frames))
              (online (record v { cells = d }) l))
tcp_frames_arrive {N} zlib law sender sends prompt receiver pending stream enable_gzip frames fit
      short x y s new all carried none_yet moves returned arrive moved_all ipc region_name info
      info' w v k l same r q {stop} h room fuel =
    let ms = packets zlib enable_gzip 0 frames in
    let sent = sent_frames zlib enable_gzip 0 frames in
    let published : publish_each sender ms x ≡ ok true y =
      sym (ap (λ f. f x) (run-packets sender zlib enable_gzip 0 frames)) ∙ all in
    let (t, listened, left) =
      tcp_link sender sends prompt receiver pending stream ms x y s short new published carried in
    let queued : List Bytes → Run (Listener N) Bool =
      λ q. ok true (record { task_queue = q; kernel = t }) in
    let in_order : returned ≡ ms =
      sym (append-nil returned)
      ∙ steps_in_order moves new_pool (record new_pool { returned = returned }) (omega arith)
          moved_all
      ∙ arrive in
    let unpacks = packets-Unpack zlib law enable_gzip 0 frames fit in
    let (c, put, h') =
      tcp_putter_lem ipc zlib enable_gzip region_name info ms sent w k r unpacks h room in
    let there =
      Holds-moved info info' c (wire (arrived sent)) (stop + room_of (arrived sent)) same h' in
    let seen : World = record v { cells = moved info.mapped_addr info'.mapped_addr c } in
    let (d, exported) =
      handle_lem ipc region_name info' seen l q (arrived sent)
        (arrived-AreFrames zlib enable_gzip ms sent unpacks) there fuel in
    (
      t,
      c,
      d,
      listened ∙ ap (λ q. queued (q ++ ms)) none_yet,
      subst
          (λ xs.
            tcp_putter ipc zlib region_name enable_gzip xs (online w k)
            ≡ ok tt (online (record w { cells = c }) k))
          (sym in_order) put,
      subst₂
          (λ n xs.
            handle_messages ipc fuel n region_name n (online seen l)
            ≡ ok xs (online (record v { cells = d }) l))
          (length-arrived sent) (mats-arrived sent) exported,
    )
