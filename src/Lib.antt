-- ===== src/Lib.antt =====
-- Streaming gateway. Producers of video frames (TCPStreamer/, webcam/) put messages into a queue
-- in a POSIX shared memory region, and handlers in other processes take them out and export
-- them. The shared code is in core/common/src/.
--
--  - Manager/ models core/common/src/shared_memory_manager.{h,cpp}: the map of mapped regions,
--    its mutex, and RegisterSystemSharedMemory (Register), GetMemoryInfo and GetMemoryMap
--    (Manager), Unregister and UnregisterAll (Unregister). `std::map` is the association list of
--    Dict, in the order of `operator<`. The system calls are the record `Os`, a parameter
--    (Manager/Os). Interface has the free functions that forward to a manager. Lookup,
--    Registers, Reused, Unregisters and Session hold the theorems.
--  - Queue/ models core/common/src/ipc_message_queue.{h,cpp} on the bytes of the address space
--    (Memory): QueueMetric, GetQueueMetric and InitializeQueue (Metric), PutOnSHM and GetFromSHM
--    (Transfer), TraversalQueue, AnyMessageInProgress and JoinListener (Join), Enqueue (Enqueue)
--    and Deque (Deque). Lock has the flag of QueueMetric between processes as a step relation, with
--    InitializeQueue, which takes no lock. A
--    load or store outside the mapped regions is undefined behaviour (Access). Shape says which
--    bytes stand for a queue, Moved that they do so at any address where a process has mapped
--    them, Fifo what the clients of a queue are promised. Room, Wrap, Endless and Overtake are
--    about the end of the region, where Enqueue waits and starts over at the front.
--  - Frame models how webcam/src/wc_daemon.cpp writes a `cv::Mat` into a message, and how
--    unmarshalMessages of core/common/src/exporters.cpp reads it (Frame/RoundTrip).
--  - Cli models parseArgs of core/common/src/cli.{h,cpp}.
--  - Crc models crc16 and crc8 of core/common/src/utils.{h,cpp}; Crc/Serial and Crc/Serial8 have
--    the shift registers that they are compared with, on the laws of Crc/Xor.
--  - Daemon/ models core/common/src/HandleStreamDaemon.{h,cpp} with its two sides: the handshake
--    by a semaphore (Handshake, Greeting), ListenSHMQueue (Listen, Batch, Stream), PutOnSHMQueue
--    of webcam/src/wc_daemon.cpp with the loop of webcam/src/webcam_streamer.cpp, and a round of
--    HandleMessages of exporters.cpp up to the frames that it exports (Stream, Pipeline), and
--    `matrix` of webcam/src/WebCam.h (Camera). Semaphores are the record `Ipc`, a parameter.
--  - Exporter/ models the rest of exporters.cpp: readLastSegmentNumber and BaseHlsString
--    (Playlist), CreateHLSVideoSegment (Segment), ExportPartial and the loop of HandleMessages
--    on its batches (Batches). `cv::VideoWriter` is the record `VideoWriter`, a parameter.
--    Texts, Numbers and Exports hold the lemmas.
--  - Http models readPlaylist and the route of buildApp of core/src/http.cpp, over the files
--    that the exporter writes (Http/Served); Http/Stream follows frames from the queue to the
--    server's answer.
--  - Tcp/ models TCPStreamer/src/: HandleWebcamFrame of tcp_producing.cpp and PutOnSHMQueue of
--    TCPStreamer.cpp over whole messages (Tcp, with Padding), `publish` of TCPPublisher.h
--    (Publisher, Sent), listen_for_messages of TCPStreamer.h over a stream of bytes (Listener,
--    Received), both ends together (Link), the producer's `Run` and `main` (Producer), the
--    threads of TCPMessageIterator as moves on its two queues (Pool, Order, InOrder) and until
--    they return (Workers, Shutdown), how both ends open and close their sockets (Sockets, Closed), and
--    the whole way of frames over TCP (Carried, Arrival). zlib and the calls of the sockets are
--    the records `Zlib`, `Sender`, `Receiver` and `SocketCalls`, parameters.
--  - Gateway/ models core/src/main.cpp: the arguments of the children (Commands), the modes that
--    become another program (Modes), main_server, handle_interruption_host and `main` (Server,
--    Endings), and the main functions of webcam/src/ and TCPStreamer/src/main.cpp that the
--    children run (Daemons). Given, Passing and Hops follow the arguments from one to the other.
--    boost::process and the system are the record `Processes`, a parameter.
--  - Prelude/Decimal has `std::to_string`, `strtol`, `std::stol` and `std::stoi`.
--
-- A call is a command on a state (Prelude/Run): it returns, throws, has undefined behaviour, or
-- still waits when the other threads have done all their steps. Those steps are a list in the
-- state of the queue, one for each time that a process waits for the lock or for the listener,
-- so that a loop that waits ends by recursion on that list and needs no other fuel.
-- waitForSemaphoreValue and the retries of ListenSHMQueue run on fuel: one look at the semaphore
-- is enough behind InitStreaming, and as many retries as the queue holds messages are enough for
-- a batch. Words are natural numbers, with the wrap-around of `size_t` and of pointers written
-- out. `TraversalQueue` has its bound plus one as its fuel, since each round adds 17 at least to
-- the distance as long as that does not wrap round.
--
-- The loop of `publish` and the inner loop of listen_for_messages have the length of the message
-- as their fuel, since each call of the socket that does not fail takes or gives a byte at
-- least. listen_for_messages, `Run`, `putter` and HandleMessages never return; they run for a
-- number of rounds or for a list of what comes in.
--
-- Bytes are written in one order: no reordering by the memory model is described. Log output is
-- left out. The pointer `arg_ptr[0]`, which main.cpp never sets, is a parameter of `main` (`Slot`
-- of Gateway/Modes): it can be read as a name, is null, or cannot be read. A `join` that never
-- returns is a result of the calls in `SocketCalls`. Not modelled: the vendored crow
-- (core/include/), threads that cannot be started, and the log; the camera, OpenCV, zlib and
-- boost are third-party.
pub mod Prelude
pub mod Memory
pub mod Dict
pub mod Manager
pub mod Queue
pub mod Frame
pub mod Crc
pub mod Cli
pub mod Daemon
pub mod Exporter
pub mod Tcp
pub mod Gateway
pub mod Http
