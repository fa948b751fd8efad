-- ===== src/Http.antt =====
-- core/src/http.cpp: a request for a playlist or a segment.
pub mod Served
pub mod Stream
mod Tests
use streaming_gateway.Prelude.{
  ℕ, ◌-◌, Bool, Option, none, some, List, [], ◌∷◌, ◌++◌, Bytes, codes, length, drop, bytes_eq,
  if◌then◌else◌,
}
use streaming_gateway.Dict.{lookup, assign}

-- A `crow::response`: the code, the headers that have been set, and the text
pub record Response : Type 0 where
  pub code : ℕ
  pub headers : List (Bytes × Bytes)
  pub body : Bytes

-- A new `crow::response`
abbrev pub response : Response
response = record { code = 200; headers = []; body = [] }

-- `ends_with`
unfoldable pub ends_with : Bytes → Bytes → Bool
ends_with text suffix = bytes_eq (drop (length text - length suffix) text) suffix

-- The type of a file's content, by the end of its name
unfoldable pub content_type : Bytes → Bytes
content_type play =
    if ends_with play (codes "m3u8") then codes "application/x-mpegURL" else codes "video/mp2t"

-- `resp.set_header` and `resp.write`
unfoldable pub with_content : Bytes → Response → Bytes → Response
with_content play resp content = record resp {
  headers = assign (codes "Content-Type") (content_type play) resp.headers;
  body = resp.body ++ content;
}

-- `readPlaylist`, for the files that there are
unfoldable pub read_playlist : List (Bytes × Bytes) → Response → Bytes → Response
read_playlist files resp play = elim (lookup play files) [
  | none ↦ record resp { code = 404 }
  | some content ↦ with_content play resp content
]

-- The route `/hls/<string>` of `buildApp`
unfoldable pub hls_route : Bytes → List (Bytes × Bytes) → Bytes → Response
hls_route video_repository files filename =
    read_playlist files response (video_repository ++ (codes "/" ++ filename))
