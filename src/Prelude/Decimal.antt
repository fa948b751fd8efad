-- ===== src/Prelude/Decimal.antt =====
-- Decimal numbers as the standard library prints and reads them: `std::to_string`, `strtol` in base
-- 10, `std::stol` and `std::stoi`.
use Prim.Native.Nat.{min}
use streaming_gateway.Prelude.{
  ℕ, zero, suc, ◌+◌, ◌-◌, ◌*◌, ◌/◌, ◌%◌, ◌^◌, ◌≤◌, ◌<◌, ◌≡◌, refl, sym, ap, ◌∙◌, Bool, true, false,
  ◌&&◌, ◌||◌, Option, none, some, [], ◌∷◌, ◌++◌, Bytes, leb, ltb, ◌==◌, if◌then◌else◌, append_assoc,
  append-nil, arith, Bool-cases, inl, inr,
}
use streaming_gateway.Prelude.Run.{Run, ok, throw, invalid_argument, out_of_range}

abbrev pub is_digit : ℕ → Bool
is_digit c = leb 48 c && leb c 57

-- The digits of a number, on fuel; `to_string` gives enough.
unfoldable pub digits : ℕ → ℕ → Bytes
digits zero n = []
digits (suc fuel) n = elim (ltb n 10) [
  | true ↦ (48 + n) ∷ []
  | false ↦ digits fuel (n / 10) ++ ((48 + n % 10) ∷ [])
]

-- `std::to_string`
unfoldable pub to_string : ℕ → Bytes
unfolding digits
to_string n = digits (suc n) n

-- The digits at the front, read on top of a number, and what is behind them
unfoldable pub read_digits : ℕ → Bytes → ℕ × Bytes
read_digits n [] = (n, [])
read_digits n (c ∷ cs) =
    let rest = read_digits (n * 10 + (c - 48)) cs in if is_digit c then rest else (n, c ∷ cs)

-- `isspace`
abbrev pub is_space : ℕ → Bool
is_space c = (c == 32) || (leb 9 c && leb c 13)

unfoldable pub skip_space : Bytes → Bytes
skip_space [] = []
skip_space (c ∷ cs) = let rest = skip_space cs in if is_space c then rest else c ∷ cs

-- A number in a text: whether it has a minus, its digits' value, and what is behind it
abbrev pub Parsed : Type 0
Parsed = Bool × (ℕ × Bytes)

unfoldable pub read_unsigned : Bool → Bytes → Option Parsed
read_unsigned minus [] = none
read_unsigned minus (c ∷ cs) = if is_digit c then some (minus, read_digits 0 (c ∷ cs)) else none

unfoldable pub read_signed : Bytes → Option Parsed
read_signed [] = none
read_signed (c ∷ cs) =
    if c == 45
    then read_unsigned true cs
    else (if c == 43 then read_unsigned false cs else read_unsigned false (c ∷ cs))

-- The text as `strtol` and its like read it; `none` where there is no number.
unfoldable pub parse_long : Bytes → Option Parsed
parse_long text = read_signed (skip_space text)

-- The bits of a `long`: the number, or the nearest that there is
unfoldable pub saturated : Bool → ℕ → ℕ
saturated false n = min n (2 ^ 63 - 1)
saturated true n = (2 ^ 64 - min n (2 ^ 63)) % 2 ^ 64

-- `strtol`: the bits of the result, and the text from `*endptr` on
unfoldable pub strtol : Bytes → ℕ × Bytes
strtol text = elim (parse_long text) [
  | none ↦ (0, text)
  | some (minus, (n, rest)) ↦ (saturated minus n, rest)
]

-- The numbers that a signed type with some bits has
abbrev pub in_range : ℕ → Bool → ℕ → Bool
in_range bits minus n = if minus then leb n (2 ^ (bits - 1)) else ltb n (2 ^ (bits - 1))

-- `std::stol` with 64 bits and `std::stoi` with 32: the bits of the result
unfoldable pub sto : {S : Type 0} → ℕ → Bytes → S → Run S ℕ
sto bits text s = elim (parse_long text) [
  | none ↦ throw invalid_argument s
  | some (minus, (n, rest)) ↦
      if in_range bits minus n
      then ok (if minus then (2 ^ bits - n) % 2 ^ bits else n) s
      else throw out_of_range s
]

pub digits_small : (fuel n : ℕ) → ltb n 10 ≡ true → digits (suc fuel) n ≡ (48 + n) ∷ []
unfolding digits
digits_small fuel n e = rw (digits, e) refl

pub digits_large :
    (fuel n : ℕ)
    → ltb n 10 ≡ false
    → digits (suc fuel) n ≡ digits fuel (n / 10) ++ ((48 + n % 10) ∷ [])
unfolding digits
digits_large fuel n e = rw (digits, e) refl

read_one :
    (n d : ℕ) (rest : Bytes)
    → d < 10
    → read_digits n ((48 + d) ∷ rest) ≡ read_digits (n * 10 + d) rest
unfolding read_digits
read_one n d rest h =
    let digit : is_digit (48 + d) ≡ true = ground (arith, h) in
    rw (digit)
      (ap (λ m. read_digits m rest) {x = n * 10 + (48 + d - 48)} {y = n * 10 + d} (omega arith))

-- Reading the digits of a number gives that number.
pub read_digits-digits :
    (fuel n : ℕ) (rest : Bytes)
    → n < fuel
    → read_digits 0 (digits fuel n ++ rest) ≡ read_digits n rest
read_digits-digits zero n rest h = ground (arith, h)
read_digits-digits (suc fuel) n rest h = elim (Bool-cases (ltb n 10)) [
  | inl e ↦
      ap (λ xs. read_digits 0 (xs ++ rest)) (digits_small fuel n e)
      ∙ read_one 0 n rest (ground (arith, e))
      ∙ ap (λ m. read_digits m rest) {x = 0 * 10 + n} {y = n} (omega arith)
  | inr e ↦
      let last = 48 + n % 10 in
      let big : 10 ≤ n = ground (arith, e) in
      ap (λ xs. read_digits 0 (xs ++ rest)) (digits_large fuel n e)
      ∙ ap (read_digits 0) (append_assoc (digits fuel (n / 10)) (last ∷ []) rest)
      ∙ read_digits-digits fuel (n / 10) (last ∷ rest) (omega (arith, big))
      ∙ read_one (n / 10) (n % 10) rest (omega arith)
      ∙ ap (λ m. read_digits m rest) {x = n / 10 * 10 + n % 10} {y = n} (omega arith)
]

-- A printed number begins with a digit.
pub digits_front :
    (fuel n : ℕ)
    → n < fuel
    → (c : ℕ) × (cs : Bytes) × (digits fuel n ≡ c ∷ cs) × (is_digit c ≡ true)
digits_front zero n h = ground (arith, h)
digits_front (suc fuel) n h = elim (Bool-cases (ltb n 10)) [
  | inl e ↦ (48 + n, [], digits_small fuel n e, ground (arith, e))
  | inr e ↦
      let big : 10 ≤ n = ground (arith, e) in
      let (c, cs, front, digit) = digits_front fuel (n / 10) (omega (arith, big)) in
      (
        c,
        cs ++ ((48 + n % 10) ∷ []),
        digits_large fuel n e ∙ ap (λ xs. xs ++ ((48 + n % 10) ∷ [])) front,
        digit,
      )
]

parse_long-digit :
    (c : ℕ) (cs : Bytes)
    → is_digit c ≡ true
    → parse_long (c ∷ cs) ≡ some (false, read_digits 0 (c ∷ cs))
unfolding parse_long skip_space read_signed read_unsigned
parse_long-digit c cs h =
    let text : is_space c ≡ false = ground (arith, h) in
    let no_minus : (c == 45) ≡ false = ground (arith, h) in
    let no_plus : (c == 43) ≡ false = ground (arith, h) in rw (text, no_minus, no_plus, h) refl

-- A printed number is read back.
pub parse_long-to_string : (n : ℕ) → parse_long (to_string n) ≡ some (false, (n, []))
unfolding to_string read_digits
parse_long-to_string n =
    let (c, cs, front, digit) = digits_front (suc n) n (omega arith) in
    ap parse_long front
    ∙ parse_long-digit c cs digit
    ∙ ap (λ xs. some (false, read_digits 0 xs)) (sym front ∙ sym (append-nil (digits (suc n) n)))
    ∙ ap (λ r. some (false, r)) (read_digits-digits (suc n) n [] (omega arith))

-- What `std::to_string` prints `strtol` reads whole, and `std::stol` and `std::stoi` take, if it is
-- in the range of their type.
pub strtol-to_string : (n : ℕ) → n < 2 ^ 63 → strtol (to_string n) ≡ (n, [])
unfolding strtol saturated
strtol-to_string n h =
    rw (strtol, parse_long-to_string n)
      (ap (λ m. (m, [])) {x = min n (2 ^ 63 - 1)} {y = n} (omega arith))

pub sto-to_string :
    {S : Type 0} (bits n : ℕ) (s : S)
    → in_range bits false n ≡ true
    → sto bits (to_string n) s ≡ ok n s
unfolding sto
sto-to_string bits n s h = rw (sto, parse_long-to_string n, h) refl
