-- ===== src/Http/Served.antt =====
-- What the server answers while the exporter writes.
use streaming_gateway.Prelude.{
  ℕ, ◌+◌, ◌^◌, ◌<◌, ◌≡◌, refl, sym, ap, ◌∙◌, true, some, List, [], ◌∷◌, ◌++◌, Bytes, codes, length,
  drop, bytes_eq, bytes_eq_refl, length-append, drop_all, append_assoc, arith,
}
use streaming_gateway.Prelude.Run.{ok}
use streaming_gateway.Dict.{lookup, assign}
use streaming_gateway.Queue.{Message}
use streaming_gateway.Exporter.{VideoWriter, Exporter}
use streaming_gateway.Exporter.Segment.{playlist_path, begun}
use streaming_gateway.Exporter.Numbers.{rendered, ArePlain}
use streaming_gateway.Exporter.Batches.{export_batches, AreBatches, durations, playlist_grows}
use streaming_gateway.Http.{ends_with, content_type, with_content, read_playlist, hls_route}

ends_with-append : (text suffix : Bytes) → ends_with (text ++ suffix) suffix ≡ true
unfolding ends_with
ends_with-append text suffix =
    ap (λ n. bytes_eq (drop n (text ++ suffix)) suffix) {y = length text}
      (omega (arith, length-append text suffix))
    ∙ ap (λ xs. bytes_eq xs suffix) (drop_all text suffix)
    ∙ bytes_eq_refl suffix

-- The playlist is served as one, with its content.
pub hls_route-playlist :
    (video_repository : Bytes) (files : List (Bytes × Bytes)) (content : Bytes)
    → lookup (playlist_path video_repository) files ≡ some content
    → hls_route video_repository files (codes "index.m3u8") ≡ record {
      code = 200;
      headers = (codes "Content-Type", codes "application/x-mpegURL") ∷ [];
      body = content;
    }
unfolding hls_route read_playlist with_content content_type assign
hls_route-playlist video_repository files content e =
    let suffix : ends_with (playlist_path video_repository) (codes "m3u8") ≡ true =
      ap (λ text. ends_with text (codes "m3u8"))
        (sym (append_assoc video_repository (codes "/index.") (codes "m3u8")))
      ∙ ends_with-append (video_repository ++ codes "/index.") (codes "m3u8") in
    rw (hls_route, read_playlist, e, content_type, suffix) refl

-- Let the playlist be that of some segments, whose texts are plain, or a file that is empty or not
-- there for none. Batches come, one at least, each with the messages of one frame or more, all of
-- one size, that last less than a million seconds at the frame rate, which is positive; there are
-- fewer than 2^31 segments in all, and every file can be opened. Then the exporter returns, and a
-- client that asks for `index.m3u8` gets 200, the type of a playlist, and the playlist of those
-- segments and one for each batch.
pub playlist_served :
    {W : Type 0} (video : VideoWriter W) (video_repository : Bytes) (frame_rate : ℕ)
    → ((path : Bytes) (size : ℕ × ℕ) (w : W) → (video.open_file path frame_rate size w).0 ≡ true)
    → ((w : W) → video.can_append (playlist_path video_repository) w ≡ true)
    → 0 < frame_rate
    → (batch : List Message) (batches : List (List Message)) (ds : List Bytes) (e : Exporter W)
    → AreBatches frame_rate (batch ∷ batches)
    → begun (lookup (playlist_path video_repository) e.files) ≡ rendered ds
    → ArePlain ds
    → length ds + length (batch ∷ batches) < 2 ^ 31
    → (d : Exporter W) × (export_batches video video_repository frame_rate (batch ∷ batches) e
        ≡ ok tt d)
      × (hls_route video_repository d.files (codes "index.m3u8") ≡ record {
        code = 200;
        headers = (codes "Content-Type", codes "application/x-mpegURL") ∷ [];
        body = rendered (ds ++ durations frame_rate (batch ∷ batches));
      })
playlist_served video video_repository frame_rate opens appends positive batch batches ds e are file
      plain few =
    let (d, run, listed) =
      playlist_grows video video_repository frame_rate opens appends positive batch batches ds e are
        file plain few in
    (
      d,
      run,
      hls_route-playlist video_repository d.files
          (rendered (ds ++ durations frame_rate (batch ∷ batches))) listed,
    )
