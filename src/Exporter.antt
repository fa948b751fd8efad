-- ===== src/Exporter.antt =====
-- core/common/src/exporters.{h,cpp}: the video segments and the playlist that lists them.
pub mod Playlist
pub mod Segment
pub mod Texts
pub mod Numbers
pub mod Exports
pub mod Batches
pub mod Tests
use streaming_gateway.Prelude.{ℕ, Bool, List, Bytes}
use streaming_gateway.Frame.{Mat}

-- `cv::VideoWriter`, with a state of its own: to open a file for a rate and a size, and to write a
-- frame. `can_append` says whether a file can be opened to append to it, and `scientific` is how a
-- `double` from 1000000 on is printed.
pub record VideoWriter (W : Type 0) : Type 0 where
  pub open_file : (path : Bytes) (frame_rate : ℕ) (size : ℕ × ℕ) → W → Bool × W
  pub write_frame : Mat → W → W
  pub can_append : Bytes → W → Bool
  pub scientific : ℕ → Bytes

-- The text files that there are, by their paths, and the writer
pub record Exporter (W : Type 0) : Type 0 where
  pub files : List (Bytes × Bytes)
  pub writer : W
