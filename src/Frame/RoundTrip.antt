-- ===== src/Frame/RoundTrip.antt =====
-- A frame that is marshalled is read back as it was.
use streaming_gateway.Prelude.{
  length-drop, drop_all, take_front, ℕ, suc, ◌+◌, ◌-◌, ◌^◌, ◌<◌, ◌≡◌, refl, sym, ap, ap₂, ◌∙◌, some,
  [], ◌∷◌, ◌++◌, Bytes, length, take, drop, take_all, arith, append_assoc, append-nil, ltb, false,
  length-append,
}
use streaming_gateway.Memory.{to_bytes, of_bytes}
use streaming_gateway.Memory.Laws.{length-to_bytes, of_bytes-to_bytes}
use streaming_gateway.Manager.{add_size}
use streaming_gateway.Queue.{Message, sub_size}
use streaming_gateway.Frame.{Mat, memcpy, marshal, frame_message, field_at, unmarshal}

drop_more : (xs ys : Bytes) (n : ℕ) → drop (length xs + n) (xs ++ ys) ≡ drop n ys
drop_more [] ys n = ap (λ k. drop k ys) (omega arith)
drop_more (x ∷ xs) ys n =
    ap (λ k. drop k (x ∷ (xs ++ ys))) (the_sum (length xs)) ∙ drop_more xs ys n
  where
    the_sum : (m : ℕ) → suc m + n ≡ suc (m + n)
    the_sum m = omega arith

nil_of_length : (xs : Bytes) → length xs ≡ 0 → xs ≡ []
nil_of_length [] h = refl
nil_of_length (x ∷ xs) h = ground (arith, h)

-- A copy behind what is written already
pub memcpy_after :
    (offset : ℕ) (front source rest : Bytes)
    → length front ≡ offset
    → memcpy offset source (front ++ rest) ≡ (front ++ source) ++ drop (length source) rest
unfolding memcpy
memcpy_after offset front source rest h =
    rw (sym h, take_front front rest, drop_more front rest (length source))
      (sym (append_assoc front source (drop (length source) rest)))

-- A field behind `front`
field_after :
    (offset size value : ℕ) (front rest : Bytes)
    → length front ≡ offset
    → value < 256 ^ size
    → field_at offset size (front ++ (to_bytes size value ++ rest)) ≡ value
unfolding field_at
field_after offset size value front rest h small =
    rw (sym h, drop_all front (to_bytes size value ++ rest))
      (ap (λ n. of_bytes (take n (to_bytes size value ++ rest))) (sym (length-to_bytes size value))
        ∙ ap of_bytes (take_front (to_bytes size value) rest)
        ∙ of_bytes-to_bytes size value small)

module _ (mat : Mat) where
  -- the four numbers at the front of a message
  abbrev pub c : Bytes
  c = to_bytes 4 mat.cols

  abbrev pub r : Bytes
  r = to_bytes 4 mat.rows

  abbrev pub k : Bytes
  k = to_bytes 4 mat.kind

  abbrev pub s : Bytes
  s = to_bytes 8 mat.step

  length-two : length (c ++ r) ≡ 8
  length-two =
      omega (arith, length-append c r, length-to_bytes 4 mat.cols, length-to_bytes 4 mat.rows)

  length-three : length ((c ++ r) ++ k) ≡ 12
  length-three = omega (arith, length-append (c ++ r) k, length-two, length-to_bytes 4 mat.kind)

  abbrev pub header : Bytes
  header = ((c ++ r) ++ k) ++ s

  length-header : length header ≡ 20
  length-header =
      omega (arith, length-append ((c ++ r) ++ k) s, length-three, length-to_bytes 8 mat.step)

  -- the rest of the buffer
  abbrev pub rest_of : Bytes → Bytes
  rest_of buffer =
      drop (length mat.content)
        (drop (length s) (drop (length k) (drop (length r) (drop (length c) buffer))))

  pub marshal_rest :
      (buffer : Bytes) → marshal buffer mat ≡ (header ++ mat.content) ++ rest_of buffer
  unfolding marshal
  marshal_rest buffer =
      let r₁ = drop (length c) buffer in
      let r₂ = drop (length r) r₁ in
      let r₃ = drop (length k) r₂ in
      let r₄ = drop (length s) r₃ in
      rw
        (
          memcpy_after 0 [] c buffer refl,
          memcpy_after 4 c r r₁ (length-to_bytes 4 mat.cols),
          memcpy_after 8 (c ++ r) k r₂ length-two,
          memcpy_after 12 ((c ++ r) ++ k) s r₃ length-three,
          memcpy_after 20 header mat.content r₄ length-header,
        )
        refl

  length-rest_of :
      (buffer : Bytes) → length (rest_of buffer) ≡ length buffer - (20 + length mat.content)
  length-rest_of buffer =
      let r₁ = drop (length c) buffer in
      let r₂ = drop (length r) r₁ in
      let r₃ = drop (length k) r₂ in
      omega (
        arith,
        length-drop (length mat.content) (drop (length s) r₃),
        length-drop (length s) r₃,
        length-drop (length k) r₂,
        length-drop (length r) r₁,
        length-drop (length c) buffer,
        length-to_bytes 4 mat.cols,
        length-to_bytes 4 mat.rows,
        length-to_bytes 4 mat.kind,
        length-to_bytes 8 mat.step,
      )

  pub marshal_lem :
      (buffer : Bytes)
      → length buffer ≡ 20 + length mat.content
      → marshal buffer mat ≡ header ++ mat.content
  marshal_lem buffer h =
      marshal_rest buffer
      ∙ ap (◌++◌ (header ++ mat.content))
          (nil_of_length (rest_of buffer) (omega (arith, length-rest_of buffer)))
      ∙ append-nil (header ++ mat.content)

  pub length-marshal :
      (buffer : Bytes)
      → length buffer ≡ 20 + length mat.content
      → length (marshal buffer mat) ≡ 20 + length mat.content
  length-marshal buffer h =
      ap length (marshal_lem buffer h)
      ∙ omega (arith, length-append header mat.content, length-header)

  cols_lem : mat.cols < 256 ^ 4 → field_at 0 4 (header ++ mat.content) ≡ mat.cols
  cols_lem small =
      ap (field_at 0 4) (simp append_assoc)
      ∙ field_after 0 4 mat.cols [] (r ++ (k ++ (s ++ mat.content))) refl small

  rows_lem : mat.rows < 256 ^ 4 → field_at 4 4 (header ++ mat.content) ≡ mat.rows
  rows_lem small =
      ap (field_at 4 4) (simp append_assoc)
      ∙ field_after 4 4 mat.rows c (k ++ (s ++ mat.content)) (length-to_bytes 4 mat.cols) small

  kind_lem : mat.kind < 256 ^ 4 → field_at 8 4 (header ++ mat.content) ≡ mat.kind
  kind_lem small =
      ap (field_at 8 4) (simp append_assoc)
      ∙ field_after 8 4 mat.kind (c ++ r) (s ++ mat.content) length-two small

  step_lem : mat.step < 256 ^ 8 → field_at 12 8 (header ++ mat.content) ≡ mat.step
  step_lem small =
      ap (field_at 12 8) (simp append_assoc)
      ∙ field_after 12 8 mat.step ((c ++ r) ++ k) mat.content length-three small

  content_lem :
      (n : ℕ) → n ≡ length mat.content → take n (drop 20 (header ++ mat.content)) ≡ mat.content
  content_lem n h =
      ap₂ (λ i xs. take i xs) h
        (ap (λ j. drop j (header ++ mat.content)) (sym length-header) ∙ drop_all header mat.content)
      ∙ take_all mat.content

-- The numbers of a frame fit into `int` and `size_t`.
pub record Fits (mat : Mat) : Type 0 where
  pub cols_fit : mat.cols < 256 ^ 4
  pub rows_fit : mat.rows < 256 ^ 4
  pub kind_fit : mat.kind < 256 ^ 4
  pub step_fit : mat.step < 256 ^ 8

-- A frame that `PutOnSHMQueue` marshals into a buffer of the right size is what `unmarshalMessages`
-- reads, as long as its numbers fit into `int` and `size_t`.
pub unmarshal-frame_message :
    (buffer : Bytes) (mat : Mat)
    → length buffer ≡ 20 + length mat.content
    → length buffer < 2 ^ 64
    → Fits mat
    → unmarshal (frame_message buffer mat) ≡ some mat
unfolding unmarshal frame_message
unmarshal-frame_message buffer mat h fits f =
    let long : ltb (add_size (length mat.content) 20) 20 ≡ false = ground arith in
    rw
      (
        long,
        marshal_lem mat buffer h,
        cols_lem mat f.cols_fit,
        rows_lem mat f.rows_fit,
        kind_lem mat f.kind_fit,
        step_lem mat f.step_fit,
        content_lem mat (sub_size (add_size (length mat.content) 20) 20) (omega arith),
      )
      refl

-- Only the length and the bytes of a message count.
pub unmarshal_same :
    (m n : Message) → m.data_length ≡ n.data_length → m.bytes ≡ n.bytes → unmarshal m ≡ unmarshal n
unfolding unmarshal
unmarshal_same m n d b =
    ap₂
      (λ l x.
        unmarshal (record { data_length = l; next_message_start = 0; processed = 0; bytes = x }))
      d b
