-- ===== src/Exporter/Exports.antt =====
-- A call of `CreateHLSVideoSegment` as a whole: what the playlist is afterwards.
use streaming_gateway.Prelude.{
  ℕ, ◌/◌, ◌^◌, ◌<◌, ◌≡◌, refl, sym, ap, ◌∙◌, true, false, List, [], ◌∷◌, ◌++◌, Bytes, codes, length,
  ltb, ◌==◌, arith,
}
use streaming_gateway.Prelude.Run.{ok, throw, exporter_exception}
use streaming_gateway.Prelude.Decimal.{to_string}
use streaming_gateway.Dict.{lookup, assign}
use streaming_gateway.Frame.{Mat}
use streaming_gateway.Exporter.{VideoWriter, Exporter}
use streaming_gateway.Exporter.Playlist.{file_name, entry}
use streaming_gateway.Exporter.Segment.{
  playlist_path, same_size, begun, print_seconds, open_writer, write_frames, append_entry,
  segment_number, seconds, create_from, create_hls_video_segment,
}
use streaming_gateway.Exporter.Texts.{to_string-Without}
use streaming_gateway.Exporter.Numbers.{
  rendered, rendered-snoc, ArePlain, ArePlain-snoc, next_number,
}

-- All frames have the size of the first.
unfoldable pub AreSameSize : Mat → List Mat → Type 0
AreSameSize front [] = Unit
AreSameSize front (frame ∷ frames) = (same_size front frame ≡ true) × AreSameSize front frames

eq_refl : (n : ℕ) → (n == n) ≡ true
eq_refl n = ground arith

same_size_refl : (front : Mat) → same_size front front ≡ true
same_size_refl front = rw (eq_refl front.cols, eq_refl front.rows) refl

module _ {W : Type 0} (video : VideoWriter W) where
  -- The writer after it was given frames, one by one
  unfoldable pub after_frames : List Mat → W → W
  after_frames [] w = w
  after_frames (frame ∷ frames) w = after_frames frames (video.write_frame frame w)

  write_frames_ok :
      (front : Mat) (frames : List Mat) (e : Exporter W)
      → AreSameSize front frames
      → write_frames video front frames e
        ≡ ok tt (record e { writer = after_frames frames e.writer })
  unfolding write_frames AreSameSize after_frames
  write_frames_ok front [] e same = refl
  write_frames_ok front (frame ∷ frames) e (one, same) =
      rw one
        (write_frames_ok front frames (record e { writer = video.write_frame frame e.writer }) same)

  -- the frames before one of another size are written, and nothing else is changed
  write_frames_throws :
      (front : Mat) (frames : List Mat) (odd : Mat) (others : List Mat) (e : Exporter W)
      → AreSameSize front frames
      → same_size front odd ≡ false
      → (w : W) × (write_frames video front (frames ++ (odd ∷ others)) e
          ≡ throw exporter_exception (record e { writer = w }))
  unfolding write_frames AreSameSize
  write_frames_throws front [] odd others e same other = (e.writer, rw other refl)
  write_frames_throws front (frame ∷ frames) odd others e (one, same) other =
      let (w, rest) =
        write_frames_throws front frames odd others
          (record e { writer = video.write_frame frame e.writer }) same other in
      (w, rw one rest)

  segment_number_lem :
      (video_repository : Bytes) (e : Exporter W) (ds : List Bytes)
      → begun (lookup (playlist_path video_repository) e.files) ≡ rendered ds
      → ArePlain ds
      → length ds < 2 ^ 31
      → segment_number video video_repository e ≡ ok (length ds) e
  unfolding segment_number
  segment_number_lem video_repository e ds file plain few =
      next_number e (lookup (playlist_path video_repository) e.files) ds file plain few

  open_writer_ok :
      (path : Bytes) (frame_rate : ℕ) (front : Mat) (e : Exporter W)
      → (video.open_file path frame_rate (front.cols, front.rows) e.writer).0 ≡ true
      → open_writer video path frame_rate front e
        ≡ ok tt (record e {
          writer = (video.open_file path frame_rate (front.cols, front.rows) e.writer).1;
        })
  unfolding open_writer
  open_writer_ok path frame_rate front e h = rw (open_writer, h) refl

  append_entry_ok :
      (path duration number : Bytes) (e : Exporter W)
      → video.can_append path e.writer ≡ true
      → append_entry video path duration number e
        ≡ ok tt (record e {
          files = assign path (begun (lookup path e.files) ++ entry duration number) e.files;
        })
  unfolding append_entry
  append_entry_ok path duration number e h = rw (append_entry, h) refl

  seconds_ok :
      (cnt frame_rate : ℕ) (e : Exporter W)
      → 0 < frame_rate
      → seconds video cnt frame_rate e ≡ ok (cnt / frame_rate) e
  unfolding seconds
  seconds_ok cnt frame_rate e h =
      let positive : (frame_rate == 0) ≡ false = ground (arith, h) in rw (seconds, positive) refl

  -- The path of the segment with a number
  abbrev pub segment_path : Bytes → ℕ → Bytes
  segment_path video_repository number =
      video_repository ++ (codes "/" ++ file_name (to_string number))

  module _ (video_repository : Bytes) (frame_rate : ℕ) (front : Mat) (e : Exporter W)
      (ds : List Bytes) where
    -- The exporter with the next segment opened
    unfoldable pub opened : Exporter W
    opened = record e {
      writer =
          (video.open_file (segment_path video_repository (length ds)) frame_rate
            (front.cols, front.rows) e.writer).1;
    }

    -- Let the playlist be that of fewer than 2^31 segments, whose texts are plain, or a file that
    -- is empty or not there for none. A call with frames of one size that last less than a million
    -- seconds at the frame rate, which is positive, where the writer opens the next segment and
    -- the playlist can be opened, returns: the playlist is then that of those segments and one
    -- more, with the whole seconds of its frames, and all texts are plain again. No other file of
    -- text is changed, and the writer has opened the segment and got just the frames, in order.
    pub segment_added :
        (frames : List Mat)
        → begun (lookup (playlist_path video_repository) e.files) ≡ rendered ds
        → ArePlain ds
        → length ds < 2 ^ 31
        → (video.open_file
            (segment_path video_repository (length ds))
            frame_rate
            (front.cols, front.rows)
            e.writer).0
          ≡ true
        → AreSameSize front frames
        → 0 < frame_rate
        → length (front ∷ frames) / frame_rate < 1000000
        → ((w : W) → video.can_append (playlist_path video_repository) w ≡ true)
        → let more = ds ++ (to_string (length (front ∷ frames) / frame_rate) ∷ []) in
          (create_hls_video_segment video video_repository frame_rate (front ∷ frames) e
            ≡ ok tt (record {
              files = assign (playlist_path video_repository) (rendered more) e.files;
              writer = after_frames (front ∷ frames) opened.writer;
            }))
          × ArePlain more
    unfolding create_hls_video_segment create_from print_seconds AreSameSize opened
    segment_added frames file plain few opens same positive short appends =
        let cnt = length (front ∷ frames) in
        let path = playlist_path video_repository in
        let number = to_string (length ds) in
        let w = after_frames (front ∷ frames) opened.writer in
        let written = write_frames_ok front (front ∷ frames) opened (same_size_refl front, same) in
        let whole : ltb (cnt / frame_rate) 1000000 ≡ true = ground (arith, short) in
        let duration = to_string (cnt / frame_rate) in
        let one_more : begun (lookup path e.files) ++ entry duration number
            ≡ rendered (ds ++ (duration ∷ [])) =
          ap (λ text. text ++ entry duration number) file ∙ sym (rendered-snoc ds duration) in
        (
          rw
              (
                segment_number_lem video_repository e ds file plain few,
                open_writer_ok (segment_path video_repository (length ds)) frame_rate front e opens,
                written,
                seconds_ok cnt frame_rate (record e { writer = w }) positive,
                whole,
                append_entry_ok path duration number (record e { writer = w }) (appends w),
                one_more,
              )
              refl,
          ArePlain-snoc ds duration plain (to_string-Without 10 (cnt / frame_rate) refl)
              (to_string-Without 111 (cnt / frame_rate) refl),
        )

    -- Let the playlist be that of fewer than 2^31 segments, whose texts are plain, or a file that
    -- is empty or not there for none. A call with a frame of another size than the first, where
    -- the writer opens the next segment, throws `ExporterException`, and all files of text are as
    -- before, whatever frames come behind.
    pub odd_frame :
        (frames : List Mat) (odd : Mat) (others : List Mat)
        → begun (lookup (playlist_path video_repository) e.files) ≡ rendered ds
        → ArePlain ds
        → length ds < 2 ^ 31
        → (video.open_file
            (segment_path video_repository (length ds))
            frame_rate
            (front.cols, front.rows)
            e.writer).0
          ≡ true
        → AreSameSize front frames
        → same_size front odd ≡ false
        → (w : W) × (create_hls_video_segment video video_repository frame_rate
              (front ∷ (frames ++ (odd ∷ others)))
              e
            ≡ throw exporter_exception (record e { writer = w }))
    unfolding create_hls_video_segment create_from AreSameSize opened
    odd_frame frames odd others file plain few opens same other =
        let (w, thrown) =
          write_frames_throws front (front ∷ frames) odd others opened (same_size_refl front, same)
            other in
        (
          w,
          rw
              (
                segment_number_lem video_repository e ds file plain few,
                open_writer_ok (segment_path video_repository (length ds)) frame_rate front e opens,
                thrown,
              )
              refl,
        )
