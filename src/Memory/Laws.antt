-- ===== src/Memory/Laws.antt =====
-- A write is read back, and leaves all other bytes as they are.
use native.Mathlib.Nat.{pow-suc}
use streaming_gateway.Prelude.{
  sym, ℕ, zero, suc, ◌+◌, ◌/◌, ◌^◌, ◌≤◌, ◌<◌, ◌≡◌, refl, ap, ap₂, ◌∙◌, ◌⊎◌, Bytes, [], ◌∷◌, arith,
  length,
}
use streaming_gateway.Memory.{
  Cells, write, read_bytes, write_bytes, to_bytes, of_bytes, get64, put64,
}

-- The `n` bytes at `a` and the `k` bytes at `b` do not overlap.
abbrev pub Apart : ℕ → ℕ → ℕ → ℕ → Type 0
Apart a n b k = (a + n ≤ b) ⊎ (b + k ≤ a)

pub write_bytes_outside :
    (c : Cells) (a : ℕ) (xs : Bytes) (b : ℕ) → Apart a (length xs) b 1 → write_bytes c a xs b ≡ c b
unfolding write_bytes write
write_bytes_outside c a [] b h = refl
write_bytes_outside c a (x ∷ xs) b h = ground (arith, write_bytes_outside c (a + 1) xs b)

pub read_bytes-write_bytes-Apart :
    (c : Cells) (a : ℕ) (xs : Bytes) (b n : ℕ)
    → Apart a (length xs) b n
    → read_bytes (write_bytes c a xs) b n ≡ read_bytes c b n
unfolding read_bytes
read_bytes-write_bytes-Apart c a xs b zero h = refl
read_bytes-write_bytes-Apart c a xs b (suc n) h =
    ap₂ ◌∷◌ (write_bytes_outside c a xs b (omega arith))
      (read_bytes-write_bytes-Apart c a xs (b + 1) n (omega arith))

read_bytes-write_above :
    (c : Cells) (a v b n : ℕ) → a < b → read_bytes (write c a v) b n ≡ read_bytes c b n
unfolding read_bytes write
read_bytes-write_above c a v b zero h = refl
read_bytes-write_above c a v b (suc n) h =
    ap₂ ◌∷◌ (ground arith) (read_bytes-write_above c a v (b + 1) n (omega arith))

pub read_bytes-write_bytes :
    (c : Cells) (a : ℕ) (xs : Bytes) → read_bytes (write_bytes c a xs) a (length xs) ≡ xs
unfolding read_bytes write_bytes
read_bytes-write_bytes c a [] = refl
read_bytes-write_bytes c a (x ∷ xs) = ap₂ ◌∷◌ (unfold write in ground arith) (
    read_bytes-write_above (write_bytes c (a + 1) xs) a x (a + 1) (length xs) (omega arith)
    ∙ read_bytes-write_bytes c (a + 1) xs)

pub length-to_bytes : (n v : ℕ) → length (to_bytes n v) ≡ n
unfolding to_bytes
length-to_bytes zero v = refl
length-to_bytes (suc n) v = ap suc (length-to_bytes n (v / 256))

pub length-read_bytes : (c : Cells) (a n : ℕ) → length (read_bytes c a n) ≡ n
unfolding read_bytes
length-read_bytes c a zero = refl
length-read_bytes c a (suc n) = ap suc (length-read_bytes c (a + 1) n)

pub of_bytes-to_bytes : (n v : ℕ) → v < 256 ^ n → of_bytes (to_bytes n v) ≡ v
unfolding of_bytes to_bytes
of_bytes-to_bytes zero v h = omega arith
of_bytes-to_bytes (suc n) v h =
    omega (arith, of_bytes-to_bytes n (v / 256) (omega (arith, pow-suc 256 n)))

read_bytes-to_bytes :
    (c : Cells) (a n v : ℕ) → read_bytes (write_bytes c a (to_bytes n v)) a n ≡ to_bytes n v
read_bytes-to_bytes c a n v =
    ap (read_bytes (write_bytes c a (to_bytes n v)) a) (sym (length-to_bytes n v))
    ∙ read_bytes-write_bytes c a (to_bytes n v)

pub get64-put64 : (c : Cells) (a v : ℕ) → v < 2 ^ 64 → get64 (put64 c a v) a ≡ v
unfolding get64 put64
get64-put64 c a v h = ap of_bytes (read_bytes-to_bytes c a 8 v) ∙ of_bytes-to_bytes 8 v h

pub get64-write_bytes :
    (c : Cells) (a : ℕ) (xs : Bytes) (b : ℕ)
    → Apart a (length xs) b 8
    → get64 (write_bytes c a xs) b ≡ get64 c b
unfolding get64
get64-write_bytes c a xs b h = ap of_bytes (read_bytes-write_bytes-Apart c a xs b 8 h)

pub get64-put64-Apart : (c : Cells) (a v b : ℕ) → Apart a 8 b 8 → get64 (put64 c a v) b ≡ get64 c b
unfolding put64
get64-put64-Apart c a v b h =
    get64-write_bytes c a (to_bytes 8 v) b (omega (arith, length-to_bytes 8 v))

pub read_bytes-put64 :
    (c : Cells) (a v b n : ℕ) → Apart a 8 b n → read_bytes (put64 c a v) b n ≡ read_bytes c b n
unfolding put64
read_bytes-put64 c a v b n h =
    read_bytes-write_bytes-Apart c a (to_bytes 8 v) b n (omega (arith, length-to_bytes 8 v))

pub put64_outside : (c : Cells) (a v b : ℕ) → Apart a 8 b 1 → put64 c a v b ≡ c b
unfolding put64
put64_outside c a v b h =
    write_bytes_outside c a (to_bytes 8 v) b (omega (arith, length-to_bytes 8 v))

-- Bytes that agree are read alike.
pub read_bytes_same :
    (c d : Cells) (a n : ℕ)
    → ((b : ℕ) → a ≤ b → b < a + n → c b ≡ d b)
    → read_bytes c a n ≡ read_bytes d a n
unfolding read_bytes
read_bytes_same c d a zero h = refl
read_bytes_same c d a (suc n) h =
    ap₂ ◌∷◌ (h a (omega arith) (omega arith))
      (read_bytes_same c d (a + 1) n (λ b lo hi. h b (omega arith) (omega arith)))

pub get64_same :
    (c d : Cells) (a : ℕ) → ((b : ℕ) → a ≤ b → b < a + 8 → c b ≡ d b) → get64 c a ≡ get64 d a
unfolding get64
get64_same c d a h = ap of_bytes (read_bytes_same c d a 8 h)

pub write_bytes_one : (c : Cells) (a v : ℕ) → write_bytes c a (v ∷ []) a ≡ v
unfolding write_bytes write
write_bytes_one c a v = ground arith
