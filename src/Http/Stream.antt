-- ===== src/Http/Stream.antt =====
-- From the camera's side of the queue to the client of the server: a second of video.
use native.Mathlib.Nat.{div_self}
use streaming_gateway.Prelude.{
  ℕ, suc, ◌+◌, ◌/◌, ◌^◌, ◌≤◌, ◌<◌, ◌≡◌, refl, ap, ◌∙◌, true, List, [], ◌∷◌, ◌++◌, Bytes, codes,
  length, arith,
}
use streaming_gateway.Prelude.Run.{ok}
use streaming_gateway.Prelude.Decimal.{to_string}
use streaming_gateway.Memory.{Cells}
use streaming_gateway.Dict.{lookup}
use streaming_gateway.Manager.{SharedMemoryInfo}
use streaming_gateway.Queue.{World}
use streaming_gateway.Queue.Ready.{IsReady}
use streaming_gateway.Queue.Shape.{Holds}
use streaming_gateway.Queue.Moved.{moved}
use streaming_gateway.Frame.{Mat}
use streaming_gateway.Daemon.{Ipc}
use streaming_gateway.Daemon.Stream.{handle_messages, putter}
use streaming_gateway.Daemon.Frames.{AreFrames, room_of, mats, online}
use streaming_gateway.Daemon.Pipeline.{frames_arrive_moved}
use streaming_gateway.Exporter.{VideoWriter, Exporter}
use streaming_gateway.Exporter.Segment.{playlist_path, begun, create_hls_video_segment}
use streaming_gateway.Exporter.Numbers.{rendered, ArePlain}
use streaming_gateway.Exporter.Exports.{AreSameSize, after_frames, opened, segment_added}
use streaming_gateway.Exporter.Batches.{lookup-rendered}
use streaming_gateway.Http.{Response, hls_route}
use streaming_gateway.Http.Served.{hls_route-playlist}

length-mats : (frames : List (Bytes × Mat)) → length (mats frames) ≡ length frames
unfolding mats
length-mats [] = refl
length-mats (frame ∷ frames) = ap suc (length-mats frames)

one : to_string 1 ≡ codes "1"
unfolding to_string
one = refl

-- The answer that is the playlist of some segments
abbrev served : List Bytes → Response
served ds = record {
  code = 200;
  headers = (codes "Content-Type", codes "application/x-mpegURL") ∷ [];
  body = rendered ds;
}

-- From the publisher to the client: as many frames of one size as the frame rate says are put into
-- the empty queue, which has room for them, and the handler, which may have mapped the region at
-- another address, gets them in one round and makes a segment of them. Then a client that asks for
-- `index.m3u8` gets the playlist of the segments that there were, or none, and of one more, of one
-- second; and that segment has been opened and given the images of just these frames, in order. Both processes are behind their handshake with their mutexes free and map as many bytes;
-- the frames' numbers fit into `int` and `size_t`, and their buffers have the right size; the
-- texts of the segments that there were are plain and fewer than 2^31, and the files of the
-- exporter can be opened.
pub frames_served :
    {W V : Type 0} (ipc : Ipc W) (region_name : Bytes) (info info' : SharedMemoryInfo) (w v : World)
    (k l : W)
    → info.byte_size ≡ info'.byte_size
    → IsReady w.manager region_name info
    → IsReady v.manager region_name info'
    → (first : Bytes × Mat) (others : List (Bytes × Mat)) → AreFrames (first ∷ others)
    → AreSameSize (first.1) (mats others)
    → {stop : ℕ} → Holds w.cells info [] stop
    → stop + room_of (first ∷ others) ≤ info.mapped_addr + info.byte_size
    → (fuel : ℕ) (video : VideoWriter V) (video_repository : Bytes) (ds : List Bytes)
      (e : Exporter V)
    → begun (lookup (playlist_path video_repository) e.files) ≡ rendered ds
    → ArePlain ds
    → length ds < 2 ^ 31
    → ((path : Bytes) (frame_rate : ℕ) (size : ℕ × ℕ) (u : V)
        → (video.open_file path frame_rate size u).0 ≡ true)
    → ((u : V) → video.can_append (playlist_path video_repository) u ≡ true)
    → let frame_rate = length (first ∷ others) in
      (c d : Cells) × (x : Exporter V) × (putter ipc region_name (first ∷ others) (online w k)
        ≡ ok tt (online (record w { cells = c }) k))
      × (handle_messages ipc fuel frame_rate region_name frame_rate
            (online (record v { cells = moved info.mapped_addr info'.mapped_addr c }) l)
          ≡ ok (mats (first ∷ others)) (online (record v { cells = d }) l))
      × (create_hls_video_segment video video_repository frame_rate (mats (first ∷ others)) e
          ≡ ok tt x)
      × (x.writer
          ≡ after_frames video
              (mats (first ∷ others))
              (opened video video_repository frame_rate (first.1) e ds).writer)
      × (hls_route video_repository x.files (codes "index.m3u8") ≡ served (ds ++ (codes "1" ∷ [])))
unfolding mats
frames_served ipc region_name info info' w v k l same r q first others a sized h fits fuel video
      video_repository ds e file plain few opens appends =
    let frame_rate = length (first ∷ others) in
    let (c, d, put, got) =
      frames_arrive_moved ipc region_name info info' w v k l same r q (first ∷ others) a h fits
        fuel in
    let second : length (mats (first ∷ others)) / frame_rate ≡ 1 =
      ap (λ n. n / frame_rate) (length-mats (first ∷ others))
      ∙ div_self {n = frame_rate} (omega arith) in
    let (run, plain') =
      segment_added video video_repository frame_rate (first.1) e ds (mats others) file plain few
        (opens _ frame_rate (first.1.cols, first.1.rows) e.writer) sized (omega arith)
        (omega (arith, second)) appends in
    let more = ds ++ (to_string (length (mats (first ∷ others)) / frame_rate) ∷ []) in
    (
      c,
      d,
      _,
      put,
      got,
      run,
      refl,
      hls_route-playlist video_repository _ (rendered more)
            (lookup-rendered (playlist_path video_repository) more e.files)
          ∙ ap (λ n. served (ds ++ (to_string n ∷ []))) second
          ∙ ap (λ t. served (ds ++ (t ∷ []))) one,
    )
