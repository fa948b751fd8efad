-- ===== src/Frame.antt =====
-- Frames as messages: `WebCamStreamDaemon::PutOnSHMQueue` in webcam/src/wc_daemon.cpp marshals a
-- `cv::Mat`, and `unmarshalMessages` in core/common/src/exporters.cpp reads it back.
pub mod RoundTrip
use streaming_gateway.Prelude.{
  ℕ, ◌+◌, ◌*◌, Option, none, some, List, [], ◌∷◌, ◌++◌, Bytes, length, take, drop, ltb,
  if◌then◌else◌,
}
use streaming_gateway.Memory.{to_bytes, of_bytes}
use streaming_gateway.Manager.{add_size}
use streaming_gateway.Queue.{Message, sub_size}

-- What the sources read of a `cv::Mat`: the bits of three `int`s, a `size_t`, and the
-- `total() * elemSize()` bytes at `data`.
pub record Mat : Type 0 where
  pub cols : ℕ
  pub rows : ℕ
  pub kind : ℕ
  pub step : ℕ
  pub content : Bytes

abbrev pub int2uchar : ℕ
int2uchar = 4

abbrev pub size_t2uchar : ℕ
size_t2uchar = 8

abbrev pub mat_content_offset : ℕ
mat_content_offset = 3 * int2uchar + size_t2uchar

-- `memcpy` to an offset inside of a buffer
unfoldable pub memcpy : ℕ → Bytes → Bytes → Bytes
memcpy offset source buffer = take offset buffer ++ (source ++ drop (offset + length source) buffer)

-- The five copies into `msg->data`, which `new` gave with any content
unfoldable pub marshal : Bytes → Mat → Bytes
marshal buffer mat =
    let b₁ = memcpy 0 (to_bytes int2uchar mat.cols) buffer in
    let b₂ = memcpy int2uchar (to_bytes int2uchar mat.rows) b₁ in
    let b₃ = memcpy (2 * int2uchar) (to_bytes int2uchar mat.kind) b₂ in
    let b₄ = memcpy (3 * int2uchar) (to_bytes size_t2uchar mat.step) b₃ in
    memcpy mat_content_offset mat.content b₄

unfoldable pub frame_message : Bytes → Mat → Message
frame_message buffer mat = record {
  data_length = add_size (length mat.content) mat_content_offset;
  next_message_start = 0;
  processed = 0;
  bytes = marshal buffer mat;
}

-- The number in the `size` bytes at an offset of `message.data`
unfoldable pub field_at : ℕ → ℕ → Bytes → ℕ
field_at offset size bytes = of_bytes (take size (drop offset bytes))

-- One round of the loop of `unmarshalMessages`; `none` where it reads past the end of the message.
unfoldable pub unmarshal : Message → Option Mat
unmarshal message =
    if ltb message.data_length mat_content_offset
    then none
    else some (record {
      cols = field_at 0 int2uchar message.bytes;
      rows = field_at int2uchar int2uchar message.bytes;
      kind = field_at (int2uchar * 2) int2uchar message.bytes;
      step = field_at (int2uchar * 3) size_t2uchar message.bytes;
      content =
          take (sub_size message.data_length mat_content_offset)
            (drop mat_content_offset message.bytes);
    })

-- `unmarshalMessages`
unfoldable pub unmarshal_messages : List Message → Option (List Mat)
unmarshal_messages [] = some []
unmarshal_messages (message ∷ messages) = elim (unmarshal message) [
  | none ↦ none
  | some mat ↦ elim (unmarshal_messages messages) [ none ↦ none | some mats ↦ some (mat ∷ mats) ]
]
