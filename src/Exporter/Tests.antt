-- ===== src/Exporter/Tests.antt =====
-- The playlist of some segments, and the theorems at concrete inputs.
use streaming_gateway.Prelude.{
  ℕ, ◌+◌, ◌/◌, ◌≡◌, refl, true, some, List, [], ◌∷◌, ◌++◌, Bytes, codes, replicate, arith,
}
use streaming_gateway.Prelude.Decimal.{to_string}
use streaming_gateway.Prelude.Run.{ok, throw, exporter_exception}
use streaming_gateway.Dict.{lookup, assign}
use streaming_gateway.Queue.{Message}
use streaming_gateway.Frame.{Mat, frame_message, unmarshal, unmarshal_messages}
use streaming_gateway.Frame.RoundTrip.{Fits, unmarshal-frame_message}
use streaming_gateway.Exporter.{VideoWriter, Exporter}
use streaming_gateway.Exporter.Segment.{playlist_path, create_hls_video_segment, begun}
use streaming_gateway.Exporter.Numbers.{rendered, entries, ArePlain}
use streaming_gateway.Exporter.Exports.{AreSameSize, after_frames, opened, segment_added, odd_frame}
use streaming_gateway.Exporter.Batches.{
  export_batches, IsBatch, AreBatches, durations, playlist_grows,
}

-- A writer that counts the frames, and opens whatever it is asked for
abbrev pub video : VideoWriter ℕ
video = record {
  open_file = λ path frame_rate size w. (true, w);
  write_frame = λ mat w. w + 1;
  can_append = λ path w. true;
  scientific = λ n. codes "1e+06";
}

abbrev pub pixels : ℕ → Mat
pixels cols = record { cols = cols; rows = 1; kind = 0; step = cols; content = replicate cols 7 }

abbrev pub old : List Bytes
old = codes "1" ∷ codes "2" ∷ []

pub old-ArePlain : ArePlain old
unfolding ArePlain
old-ArePlain = ground arith

abbrev pub old_text : Bytes
old_text =
    codes
      "#EXTM3U\n#EXT-X-VERSION:3\n#EXT-X-MEDIA-SEQUENCE:0\n#EXTINF:1,\noutput0.ts\n#EXTINF:2,\noutput1.ts\n"

old_text-rendered : old_text ≡ rendered old
unfolding rendered entries to_string
old_text-rendered = refl

abbrev pub exporter : Exporter ℕ
exporter = record { files = (codes "v/index.m3u8", old_text) ∷ []; writer = 0 }

pub found : begun (lookup (playlist_path (codes "v")) exporter.files) ≡ rendered old
unfolding lookup
found = old_text-rendered

same_pixels : AreSameSize (pixels 2) (pixels 2 ∷ [])
unfolding AreSameSize
same_pixels = (refl, tt)

segment_added_example :
    let more = old ++ (to_string (2 / 2) ∷ []) in
    (create_hls_video_segment video (codes "v") 2 (pixels 2 ∷ pixels 2 ∷ []) exporter
      ≡ ok tt (record {
        files = assign (playlist_path (codes "v")) (rendered more) exporter.files;
        writer =
            after_frames video
              (pixels 2 ∷ pixels 2 ∷ [])
              (opened video (codes "v") 2 (pixels 2) exporter old).writer;
      }))
    × ArePlain more
segment_added_example =
    segment_added video (codes "v") 2 (pixels 2) exporter old (pixels 2 ∷ []) found old-ArePlain
      (omega arith) refl same_pixels (omega arith) (omega arith) (λ w. refl)

odd_frame_example :
    (w : ℕ) × (create_hls_video_segment video
        (codes "v")
        2
        (pixels 2 ∷ pixels 2 ∷ pixels 3 ∷ [])
        exporter
      ≡ throw exporter_exception (record exporter { writer = w }))
odd_frame_example =
    odd_frame video (codes "v") 2 (pixels 2) exporter old (pixels 2 ∷ []) (pixels 3) [] found
      old-ArePlain (omega arith) refl same_pixels refl

-- A batch of two messages
abbrev pub message : Message
message = frame_message (replicate 22 0) (pixels 2)

fits : Fits (pixels 2)
fits = record {
  cols_fit = omega arith;
  rows_fit = omega arith;
  kind_fit = omega arith;
  step_fit = omega arith;
}

decoded : unmarshal message ≡ some (pixels 2)
decoded = unmarshal-frame_message (replicate 22 0) (pixels 2) refl (omega arith) fits

abbrev pub batch : List Message
batch = message ∷ message ∷ []

decoded_more :
    (ms : List Message) (mats : List Mat)
    → unmarshal_messages ms ≡ some mats
    → unmarshal_messages (message ∷ ms) ≡ some (pixels 2 ∷ mats)
unfolding unmarshal_messages
decoded_more ms mats e = rw (unmarshal_messages, decoded, e) refl

batch-IsBatch : IsBatch 1 batch
unfolding IsBatch unmarshal_messages
batch-IsBatch = (
  pixels 2,
  pixels 2 ∷ [],
  decoded_more (message ∷ []) (pixels 2 ∷ []) (decoded_more [] [] refl),
  same_pixels,
  omega arith,
)

pub batches-AreBatches : AreBatches 1 (batch ∷ batch ∷ [])
unfolding AreBatches
batches-AreBatches = (batch-IsBatch, (batch-IsBatch, tt))

playlist_grows_example :
    (d : Exporter ℕ) × (export_batches video (codes "v") 1 (batch ∷ batch ∷ []) exporter ≡ ok tt d)
    × (lookup (playlist_path (codes "v")) d.files
        ≡ some (rendered (old ++ durations 1 (batch ∷ batch ∷ []))))
playlist_grows_example =
    playlist_grows video (codes "v") 1 (λ path size w. refl) (λ w. refl) (omega arith) batch
      (batch ∷ []) old exporter batches-AreBatches found old-ArePlain (omega arith)
