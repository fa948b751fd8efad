-- ===== src/Exporter/Segment.antt =====
-- `FileBaseHLSMessageHandler::CreateHLSVideoSegment`: a segment of video, and its lines in the
-- playlist.
use streaming_gateway.Prelude.{
  ℕ, ◌/◌, Bool, ◌&&◌, Option, none, some, List, [], ◌∷◌, ◌++◌, Bytes, codes, length, ltb, ◌==◌,
  if◌then◌else◌,
}
use streaming_gateway.Prelude.Run.{ok, undefined, Cmd, pure, guard, ◌>>=◌, ◌>>◌, exporter_exception}
use streaming_gateway.Prelude.Decimal.{to_string}
use streaming_gateway.Dict.{lookup, assign}
use streaming_gateway.Frame.{Mat}
use streaming_gateway.Exporter.{VideoWriter, Exporter}
use streaming_gateway.Exporter.Playlist.{
  read_last_segment_number, next_segment, base_hls_string, file_name, entry,
}

abbrev pub playlist_path : Bytes → Bytes
playlist_path video_repository = video_repository ++ codes "/index.m3u8"

abbrev pub same_size : Mat → Mat → Bool
same_size a b = (a.cols == b.cols) && (a.rows == b.rows)

-- What the playlist is before the lines of a segment are appended
abbrev pub begun : Option Bytes → Bytes
begun none = base_hls_string
begun (some []) = base_hls_string
begun (some (c ∷ cs)) = c ∷ cs

module _ {W : Type 0} (video : VideoWriter W) where
  -- How a whole number of seconds is printed as a `double`
  unfoldable pub print_seconds : ℕ → Bytes
  print_seconds n = if ltb n 1000000 then to_string n else video.scientific n

  -- `writer.open` and its test
  unfoldable pub open_writer : Bytes → ℕ → Mat → Cmd (Exporter W) (Unit {0})
  open_writer path frame_rate front e =
      let r = video.open_file path frame_rate (front.cols, front.rows) e.writer in
      guard r.0 exporter_exception (record e { writer = r.1 })

  -- The loop over the frames
  unfoldable pub write_frames : Mat → List Mat → Cmd (Exporter W) (Unit {0})
  write_frames front [] = pure tt
  write_frames front (frame ∷ frames) = do
    guard (same_size front frame) exporter_exception
    λ e. ok tt (record e { writer = video.write_frame frame e.writer })
    write_frames front frames

  -- The lines that are appended, where the file can be opened
  unfoldable pub append_entry : (path duration number : Bytes) → Cmd (Exporter W) (Unit {0})
  append_entry path duration number e =
      if video.can_append path e.writer
      then ok tt (record e {
        files = assign path (begun (lookup path e.files) ++ entry duration number) e.files;
      })
      else ok tt e

  -- `readLastSegmentNumber(playlistPath) + 1`
  unfoldable pub segment_number : Bytes → Cmd (Exporter W) ℕ
  segment_number video_repository e =
      (read_last_segment_number (lookup (playlist_path video_repository) e.files) >>= next_segment)
        e

  -- The whole seconds of a segment: an integer division, which is undefined for the rate 0.
  unfoldable pub seconds : ℕ → ℕ → Cmd (Exporter W) ℕ
  seconds cnt frame_rate = if frame_rate == 0 then (λ e. undefined) else pure (cnt / frame_rate)

  unfoldable pub create_from : Bytes → ℕ → Mat → List Mat → Cmd (Exporter W) (Unit {0})
  create_from video_repository frame_rate front frames = do
    number ← segment_number video_repository
    open_writer (video_repository ++ (codes "/" ++ file_name (to_string number))) frame_rate front
    write_frames front (front ∷ frames)
    duration ← seconds (length (front ∷ frames)) frame_rate
    append_entry (playlist_path video_repository) (print_seconds duration) (to_string number)

  -- `CreateHLSVideoSegment`; `frames[0]` of no frames is undefined.
  unfoldable pub create_hls_video_segment : Bytes → ℕ → List Mat → Cmd (Exporter W) (Unit {0})
  create_hls_video_segment video_repository frame_rate [] = do
    number ← segment_number video_repository
    λ e. undefined
  create_hls_video_segment video_repository frame_rate (front ∷ frames) =
      create_from video_repository frame_rate front frames
