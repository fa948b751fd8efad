-- ===== src/Exporter/Batches.antt =====
-- The loop of `HandleMessages` in core/common/src/exporters.cpp, for the frames of some batches.
use mathlib.Core.Path.{subst}
use streaming_gateway.Prelude.{
  ℕ, ◌+◌, ◌/◌, ◌^◌, ◌<◌, ◌≡◌, refl, sym, ap, ◌∙◌, true, none, some, List, [], ◌∷◌, ◌++◌, map, Bytes,
  length, if◌then◌else◌, bytes_eq_refl, append_assoc, length-append, Option-cases, inl, inr, suc,
  arith,
}
use streaming_gateway.Prelude.Run.{ok, undefined, Cmd, pure, ◌>>◌}
use streaming_gateway.Prelude.Decimal.{to_string}
use streaming_gateway.Dict.{lookup, assign}
use streaming_gateway.Dict.Laws.{lookup-assign}
use streaming_gateway.Queue.{Message}
use streaming_gateway.Frame.{Mat, unmarshal, unmarshal_messages}
use streaming_gateway.Exporter.{VideoWriter, Exporter}
use streaming_gateway.Exporter.Segment.{playlist_path, begun, create_hls_video_segment}
use streaming_gateway.Exporter.Numbers.{rendered, ArePlain}
use streaming_gateway.Exporter.Exports.{AreSameSize, after_frames, opened, segment_added}

module _ {W : Type 0} (video : VideoWriter W) where
  -- `ExportPartial` as a whole: the frames of a batch become a segment.
  unfoldable pub export_segment : Bytes → ℕ → List Message → Cmd (Exporter W) (Unit {0})
  export_segment video_repository frame_rate batch = elim (unmarshal_messages batch) [
    | none ↦ (λ e. undefined)
    | some frames ↦ create_hls_video_segment video video_repository frame_rate frames
  ]

  -- The loop of `HandleMessages`, for the batches that `ListenSHMQueue` hands over
  unfoldable pub export_batches : Bytes → ℕ → List (List Message) → Cmd (Exporter W) (Unit {0})
  export_batches video_repository frame_rate [] = pure tt
  export_batches video_repository frame_rate (batch ∷ batches) =
      export_segment video_repository frame_rate batch
      >> export_batches video_repository frame_rate batches

-- A batch is the messages of some frames, one at least and all of one size, and lasts less than a
-- million seconds.
unfoldable pub IsBatch : ℕ → List Message → Type 0
IsBatch frame_rate batch =
    (front : Mat) × (frames : List Mat) × (unmarshal_messages batch ≡ some (front ∷ frames))
    × AreSameSize front frames
    × (length batch / frame_rate < 1000000)

unfoldable pub AreBatches : ℕ → List (List Message) → Type 0
AreBatches frame_rate [] = Unit
AreBatches frame_rate (batch ∷ batches) = IsBatch frame_rate batch × AreBatches frame_rate batches

-- The durations of batches in whole seconds, as they are printed
abbrev pub durations : ℕ → List (List Message) → List Bytes
durations frame_rate batches = map (λ batch. to_string (length batch / frame_rate)) batches

length-unmarshal_messages :
    (batch : List Message) (frames : List Mat)
    → unmarshal_messages batch ≡ some frames
    → length frames ≡ length batch
unfolding unmarshal_messages
length-unmarshal_messages [] frames h =
    let same : ◌≡◌ {A = List Mat} [] frames = cc h in sym (ap length same)
length-unmarshal_messages (m ∷ batch) frames h = elim (Option-cases (unmarshal m)) [
  | inl e ↦ ground (arith, e, h)
  | inr (mat, e) ↦ elim (Option-cases (unmarshal_messages batch)) [
    | inl e' ↦ ground (arith, e, e', h)
    | inr (mats, e') ↦
        let same : mat ∷ mats ≡ frames = ground (arith, e, e', h) in
        ap length (sym same) ∙ ap suc (length-unmarshal_messages batch mats e')
  ]
]

-- What a playlist is after it has been written
pub lookup-rendered :
    (path : Bytes) (ds : List Bytes) (files : List (Bytes × Bytes))
    → lookup path (assign path (rendered ds) files) ≡ some (rendered ds)
lookup-rendered path ds files =
    lookup-assign path path (rendered ds) files
    ∙ ap (λ b. if b then some (rendered ds) else lookup path files) (bytes_eq_refl path)

begun-rendered : (ds : List Bytes) → begun (some (rendered ds)) ≡ rendered ds
unfolding rendered
begun-rendered ds = refl

module _ {W : Type 0} (video : VideoWriter W) (video_repository : Bytes) (frame_rate : ℕ)
    (opens : (path : Bytes) (size : ℕ × ℕ) (w : W)
      → (video.open_file path frame_rate size w).0 ≡ true)
    (appends : (w : W) → video.can_append (playlist_path video_repository) w ≡ true)
    (positive : 0 < frame_rate) where
  abbrev path : Bytes
  path = playlist_path video_repository

  abbrev printed : List Message → Bytes
  printed batch = to_string (length batch / frame_rate)

  one_batch :
      (batch : List Message) (ds : List Bytes) (e : Exporter W)
      → IsBatch frame_rate batch
      → begun (lookup path e.files) ≡ rendered ds
      → ArePlain ds
      → length ds < 2 ^ 31
      → (d : Exporter W) × (export_segment video video_repository frame_rate batch e ≡ ok tt d)
        × (lookup path d.files ≡ some (rendered (ds ++ (printed batch ∷ []))))
        × ArePlain (ds ++ (printed batch ∷ []))
  unfolding IsBatch export_segment
  one_batch batch ds e (front, frames, decoded, same, short) file plain few =
      let count = length-unmarshal_messages batch (front ∷ frames) decoded in
      let short' : length (front ∷ frames) / frame_rate < 1000000 =
        subst (λ n. n / frame_rate < 1000000) (sym count) short in
      let (run, plain') =
        segment_added video video_repository frame_rate front e ds frames file plain few
          (opens _ (front.cols, front.rows) e.writer) same positive short' appends in
      let one = to_string (length (front ∷ frames) / frame_rate) in
      let told : one ≡ printed batch = ap (λ n. to_string (n / frame_rate)) count in
      (
        record {
          files = assign path (rendered (ds ++ (one ∷ []))) e.files;
          writer =
              after_frames video (front ∷ frames)
                (opened video video_repository frame_rate front e ds).writer;
        },
        rw (export_segment, decoded) run,
        lookup-rendered path (ds ++ (one ∷ [])) e.files
            ∙ ap (λ d. some (rendered (ds ++ (d ∷ [])))) told,
        subst (λ d. ArePlain (ds ++ (d ∷ []))) told plain',
      )

  -- Let the playlist be that of some segments, whose texts are plain, or a file that is empty or
  -- not there for none. Batches come, one at least, each with the messages of one frame or more,
  -- all of one size, that last less than a million seconds at the frame rate, which is positive;
  -- there are fewer than 2^31 segments in all, and every file can be opened. Then the exporter
  -- returns, and the playlist lists those segments and one for each batch, in order, numbered
  -- without a gap, with its whole seconds.
  pub playlist_grows :
      (batch : List Message) (batches : List (List Message)) (ds : List Bytes) (e : Exporter W)
      → AreBatches frame_rate (batch ∷ batches)
      → begun (lookup (playlist_path video_repository) e.files) ≡ rendered ds
      → ArePlain ds
      → length ds + length (batch ∷ batches) < 2 ^ 31
      → (d : Exporter W) × (export_batches video video_repository frame_rate (batch ∷ batches) e
          ≡ ok tt d)
        × (lookup (playlist_path video_repository) d.files
            ≡ some (rendered (ds ++ durations frame_rate (batch ∷ batches))))
  unfolding export_batches AreBatches
  playlist_grows batch [] ds e (is, are) file plain few =
      let (d, run, listed, plain') = one_batch batch ds e is file plain (omega (arith, few)) in
      (d, rw run refl, listed)
  playlist_grows batch (next ∷ batches) ds e (is, are) file plain few =
      let (d, run, listed, plain') = one_batch batch ds e is file plain (omega (arith, few)) in
      let more = ds ++ (printed batch ∷ []) in
      let (end, others, all) =
        playlist_grows next batches more d are (ap begun listed ∙ begun-rendered more) plain'
          (omega (arith, length-append ds (printed batch ∷ []))) in
      (
        end,
        rw run others,
        all
            ∙ ap (λ xs. some (rendered xs))
                (append_assoc ds (printed batch ∷ []) (durations frame_rate (next ∷ batches))),
      )
