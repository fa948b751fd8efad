-- ===== src/Tcp/Padding.antt =====
-- A frame that goes over TCP comes out with eight zero bytes behind its content.
use streaming_gateway.Prelude.{
  drop-replicate, length-replicate, drop_all, take_front, ℕ, ◌+◌, ◌-◌, ◌^◌, ◌<◌, ◌≡◌, refl, sym, ap,
  ◌∙◌, Bool, true, false, Option, none, some, if◌then◌else◌, [], ◌∷◌, ◌++◌, Bytes, length, take,
  drop, replicate, append_assoc, length-append, ltb, arith,
}
use streaming_gateway.Memory.{to_bytes}
use streaming_gateway.Memory.Laws.{length-to_bytes, of_bytes-to_bytes}
use streaming_gateway.Queue.Fifo.{message}
use streaming_gateway.Frame.{Mat, marshal, frame_message, unmarshal}
use streaming_gateway.Frame.RoundTrip.{
  Fits, c, r, k, s, header, rest_of, marshal_rest, marshal_lem, length-marshal, unmarshal_same,
  unmarshal-frame_message,
}
use streaming_gateway.Tcp.{
  Zlib, message_len, tcp_message, handle_webcam_frame, unpacked, decompress, unpack,
}

-- the frame as it comes out
abbrev pub padded : Mat → Mat
padded mat = record mat { content = mat.content ++ replicate 8 0 }

module _ (mat : Mat) (small : length mat.content < 2 ^ 62) where
  eight_left : rest_of mat (replicate (message_len mat) 0) ≡ replicate 8 0
  eight_left =
      rw
        (
          drop-replicate {A = ℕ} (length (c mat)) (message_len mat) 0,
          drop-replicate {A = ℕ} (length (r mat)) (message_len mat - length (c mat)) 0,
          drop-replicate {A = ℕ} (length (k mat))
              (message_len mat - length (c mat) - length (r mat)) 0,
          drop-replicate {A = ℕ} (length (s mat))
              (message_len mat - length (c mat) - length (r mat) - length (k mat)) 0,
          drop-replicate {A = ℕ} (length mat.content)
              (message_len mat - length (c mat) - length (r mat) - length (k mat) - length (s mat))
              0,
        )
        (ap (λ j. replicate j 0) {y = 8}
          (omega (
            arith,
            small,
            length-to_bytes 4 mat.cols,
            length-to_bytes 4 mat.rows,
            length-to_bytes 4 mat.kind,
            length-to_bytes 8 mat.step,
          )))

  tcp_message_lem : tcp_message mat ≡ header mat ++ (mat.content ++ replicate 8 0)
  unfolding tcp_message
  tcp_message_lem =
      marshal_rest mat (replicate (message_len mat) 0)
      ∙ ap (◌++◌ (header mat ++ mat.content)) eight_left
      ∙ append_assoc (header mat) mat.content (replicate 8 0)

  -- memory of the right size for the padded frame
  abbrev pub buffer : Bytes
  buffer = replicate (28 + length mat.content) 0

  pub length-buffer : length buffer ≡ 20 + length (padded mat).content
  length-buffer = omega (
    arith,
    length-replicate {A = ℕ} (28 + length mat.content) 0,
    length-append mat.content (replicate 8 0),
  )

  pub tcp_message-marshal : tcp_message mat ≡ marshal buffer (padded mat)
  tcp_message-marshal = tcp_message_lem ∙ sym (marshal_lem (padded mat) buffer length-buffer)

  length-tcp_message : length (tcp_message mat) ≡ 28 + length mat.content
  length-tcp_message =
      ap length tcp_message-marshal
      ∙ length-marshal (padded mat) buffer length-buffer
      ∙ omega (arith, length-append mat.content (replicate 8 0))

  unmarshal-tcp_message : Fits mat → unmarshal (message (tcp_message mat)) ≡ some (padded mat)
  unfolding frame_message
  unmarshal-tcp_message f =
      unmarshal_same (message (tcp_message mat)) (frame_message buffer (padded mat))
        (omega (arith, small, length-tcp_message, length-append mat.content (replicate 8 0)))
        tcp_message-marshal
      ∙ unmarshal-frame_message buffer (padded mat) length-buffer
          (omega (arith, small, length-replicate {A = ℕ} (28 + length mat.content) 0))
          (record {
            cols_fit = f.cols_fit;
            rows_fit = f.rows_fit;
            kind_fit = f.kind_fit;
            step_fit = f.step_fit;
          })

-- `uncompress`, given the room that the input of `compress` had, gives that input back.
unfoldable pub IsZlib : Zlib → Type 0
IsZlib zlib = (b out : Bytes) → zlib.compress b ≡ some out → zlib.uncompress (length b) out ≡ some b

drop_eight : (n : ℕ) (xs : Bytes) → drop 8 (to_bytes 8 n ++ xs) ≡ xs
drop_eight n xs =
    ap (λ j. drop j (to_bytes 8 n ++ xs)) (sym (length-to_bytes 8 n)) ∙ drop_all (to_bytes 8 n) xs

take_eight : (n : ℕ) (xs : Bytes) → take 8 (to_bytes 8 n ++ xs) ≡ to_bytes 8 n
take_eight n xs =
    ap (λ j. take j (to_bytes 8 n ++ xs)) (sym (length-to_bytes 8 n)) ∙ take_front (to_bytes 8 n) xs

eight_or_more : (n : ℕ) (xs : Bytes) → ltb (length (to_bytes 8 n ++ xs)) 8 ≡ false
eight_or_more n xs = ground (arith, length-append (to_bytes 8 n) xs, length-to_bytes 8 n)

-- Behind eight bytes there is the rest.
unpack_packed :
    (zlib : Zlib) (enable_gzip : Bool) (n x : ℕ) (xs : Bytes)
    → unpack zlib enable_gzip (to_bytes 8 n ++ (x ∷ xs))
      ≡ (if enable_gzip then decompress zlib (x ∷ xs) else unpacked (x ∷ xs))
unfolding unpack
unpack_packed zlib true n x xs = rw (unpack, eight_or_more n (x ∷ xs), drop_eight n (x ∷ xs)) refl
unpack_packed zlib false n x xs = rw (unpack, eight_or_more n (x ∷ xs), drop_eight n (x ∷ xs)) refl

unpack_nonempty :
    (zlib : Zlib) (enable_gzip : Bool) (n : ℕ) (xs : Bytes)
    → 0 < length xs
    → unpack zlib enable_gzip (to_bytes 8 n ++ xs)
      ≡ (if enable_gzip then decompress zlib xs else unpacked xs)
unpack_nonempty zlib enable_gzip n [] h = ground (arith, h)
unpack_nonempty zlib enable_gzip n (x ∷ xs) h = unpack_packed zlib enable_gzip n x xs

decompress_packed :
    (zlib : Zlib)
    → IsZlib zlib
    → (b out : Bytes) → length b < 2 ^ 64
    → zlib.compress b ≡ some out
    → decompress zlib (to_bytes 8 (length b) ++ out) ≡ unpacked b
unfolding decompress IsZlib
decompress_packed zlib law b out small e =
    rw
      (
        decompress,
        eight_or_more (length b) out,
        take_eight (length b) out,
        drop_eight (length b) out,
        of_bytes-to_bytes 8 (length b) small,
        law b out e,
      )
      refl

module _ (zlib : Zlib) (n : ℕ) (mat : Mat) (m : Bytes) where
  sent_plain :
      (xs : Bytes)
      → mat.content ≡ xs
      → (handle_webcam_frame zlib false n mat).0 ≡ some m
      → m ≡ to_bytes 8 n ++ tcp_message mat
  unfolding handle_webcam_frame
  sent_plain [] q e = cc
  sent_plain (x ∷ xs) q e = ground (arith, q, e)

  sent_compressed :
      (xs : Bytes) (o : Option Bytes)
      → mat.content ≡ xs
      → zlib.compress (tcp_message mat) ≡ o
      → (handle_webcam_frame zlib true n mat).0 ≡ some m
      → (out : Bytes) × (zlib.compress (tcp_message mat) ≡ some out)
        × (m ≡ to_bytes 8 n ++ (to_bytes 8 (length (tcp_message mat)) ++ out))
  unfolding handle_webcam_frame
  sent_compressed [] o q c e = cc
  sent_compressed (x ∷ xs) none q c e = ground (arith, q, c, e)
  sent_compressed (x ∷ xs) (some out) q c e = (out, c, ground (arith, q, c, e))

-- What `HandleWebcamFrame` publishes of a frame `PutOnSHMQueue` unpacks to its `tcp_message`.
pub unpack-handle_webcam_frame :
    (zlib : Zlib)
    → IsZlib zlib
    → (enable_gzip : Bool) (n : ℕ) (mat : Mat) → length mat.content < 2 ^ 62
    → (m : Bytes) → (handle_webcam_frame zlib enable_gzip n mat).0 ≡ some m
    → unpack zlib enable_gzip m ≡ unpacked (tcp_message mat)
unpack-handle_webcam_frame zlib law false n mat small m e =
    ap (unpack zlib false) (sent_plain zlib n mat m mat.content refl e)
    ∙ unpack_nonempty zlib false n (tcp_message mat) (omega (arith, length-tcp_message mat small))
unpack-handle_webcam_frame zlib law true n mat small m e =
    let b = tcp_message mat in
    let size = length-tcp_message mat small in
    let (out, z, same) = sent_compressed zlib n mat m mat.content (zlib.compress b) refl refl e in
    let packed = to_bytes 8 (length b) ++ out in
    let nonempty : 0 < length packed =
      omega (arith, length-append (to_bytes 8 (length b)) out, length-to_bytes 8 (length b)) in
    ap (unpack zlib true) same
    ∙ unpack_nonempty zlib true n packed nonempty
    ∙ decompress_packed zlib law b out (omega (arith, size, small)) z

-- What `HandleWebcamFrame` publishes of a frame, compressed or not, `PutOnSHMQueue` unpacks to a
-- message that `unmarshalMessages` reads as the frame with eight zero bytes behind its content, if
-- the frame's numbers fit, it is not too long, and zlib gives back what it has compressed.
pub tcp_frame :
    (zlib : Zlib)
    → IsZlib zlib
    → (enable_gzip : Bool) (n : ℕ) (mat : Mat) → Fits mat
    → length mat.content < 2 ^ 62
    → (m : Bytes) → (handle_webcam_frame zlib enable_gzip n mat).0 ≡ some m
    → (d : Bytes) × (unpack zlib enable_gzip m ≡ unpacked d)
      × (unmarshal (message d) ≡ some (padded mat))
tcp_frame zlib law enable_gzip n mat f small m e = (
  tcp_message mat,
  unpack-handle_webcam_frame zlib law enable_gzip n mat small m e,
  unmarshal-tcp_message mat small f,
)
