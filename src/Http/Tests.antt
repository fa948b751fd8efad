-- ===== src/Http/Tests.antt =====
-- A request for the playlist that the exporter has written, at concrete inputs.
use streaming_gateway.Prelude.{ℕ, ◌≡◌, refl, [], ◌∷◌, ◌++◌, codes, arith}
use streaming_gateway.Prelude.Run.{ok}
use streaming_gateway.Memory.{Cells}
use streaming_gateway.Daemon.Stream.{handle_messages, putter}
use streaming_gateway.Daemon.Frames.{room_of, mats, online}
use streaming_gateway.Daemon.Tests.{
  ipc, queue_name, region, world-IsReady, frame, frames, frames-AreFrames, greeting, greeted,
  elsewhere, other_world, other_world-IsReady,
}
use streaming_gateway.Queue.Moved.{moved}
use streaming_gateway.Exporter.{Exporter}
use streaming_gateway.Exporter.Segment.{create_hls_video_segment}
use streaming_gateway.Exporter.Exports.{AreSameSize, after_frames, opened}
use streaming_gateway.Exporter.Numbers.{rendered}
use streaming_gateway.Exporter.Batches.{export_batches, durations}
use streaming_gateway.Exporter.Tests.{
  video, old, old-ArePlain, exporter, found, batch, batches-AreBatches,
}
use streaming_gateway.Http.{hls_route}
use streaming_gateway.Http.Stream.{frames_served}
use streaming_gateway.Http.Served.{playlist_served}

playlist_served_example :
    (d : Exporter ℕ) × (export_batches video (codes "v") 1 (batch ∷ batch ∷ []) exporter ≡ ok tt d)
    × (hls_route (codes "v") d.files (codes "index.m3u8") ≡ record {
      code = 200;
      headers = (codes "Content-Type", codes "application/x-mpegURL") ∷ [];
      body = rendered (old ++ durations 1 (batch ∷ batch ∷ []));
    })
playlist_served_example =
    playlist_served video (codes "v") 1 (λ path size w. refl) (λ w. refl) (omega arith) batch
      (batch ∷ []) old exporter batches-AreBatches found old-ArePlain (omega arith)

one_size : AreSameSize ((frame 7).1) (mats (frame 8 ∷ []))
unfolding AreSameSize mats
one_size = (refl, tt)

frames_served_example :
    (c d : Cells) × (x : Exporter ℕ) × (putter ipc queue_name frames (online greeted 1)
      ≡ ok tt (online (record greeted { cells = c }) 1))
    × (handle_messages ipc 0 2 queue_name 2
          (online (record other_world { cells = moved 4096 8192 c }) 1)
        ≡ ok (mats frames) (online (record other_world { cells = d }) 1))
    × (create_hls_video_segment video (codes "v") 2 (mats frames) exporter ≡ ok tt x)
    × (x.writer
        ≡ after_frames video
            (mats frames)
            (opened video (codes "v") 2 ((frame 7).1) exporter old).writer)
    × (hls_route (codes "v") x.files (codes "index.m3u8") ≡ record {
      code = 200;
      headers = (codes "Content-Type", codes "application/x-mpegURL") ∷ [];
      body = rendered (old ++ (codes "1" ∷ []));
    })
unfolding room_of
frames_served_example =
    frames_served ipc queue_name region elsewhere greeted other_world 1 1 refl world-IsReady
      other_world-IsReady (frame 7) (frame 8 ∷ []) frames-AreFrames one_size greeting.1
      (omega arith) 0 video (codes "v") old exporter found old-ArePlain (omega arith)
      (λ path rate size u. refl) (λ u. refl)
