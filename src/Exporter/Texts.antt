-- ===== src/Exporter/Texts.antt =====
-- Texts without some characters: how they fall into lines, and what `regex_search` finds in them.
use mathlib.Core.Path.{subst}
use streaming_gateway.Prelude.{
  ℕ, zero, suc, ◌+◌, ◌/◌, ◌%◌, ◌≡◌, refl, sym, ap, ◌∙◌, Bool, true, false, not, none, some, [], ◌∷◌,
  ◌++◌, Bytes, codes, ltb, ◌==◌, arith, Bool-cases, inl, inr,
}
use streaming_gateway.Prelude.Decimal.{
  is_digit, digits, to_string, digits_front, digits_small, digits_large,
}
use streaming_gateway.Exporter.Playlist.{
  lines, span_digits, match_end, match_here, regex_search, file_name,
}

-- Each character passes a test.
abbrev pub All : (ℕ → Bool) → Bytes → Type 0
All p [] = Unit
All p (x ∷ xs) = (p x ≡ true) × All p xs

pub All-append : (p : ℕ → Bool) (xs ys : Bytes) → All p xs → All p ys → All p (xs ++ ys)
All-append p [] ys a b = b
All-append p (x ∷ xs) ys (h, a) b = (h, All-append p xs ys a b)

All-imp :
    (p q : ℕ → Bool) → ((x : ℕ) → p x ≡ true → q x ≡ true) → (xs : Bytes) → All p xs → All q xs
All-imp p q f [] a = tt
All-imp p q f (x ∷ xs) (h, a) = (f x h, All-imp p q f xs a)

-- A character is not in a text.
abbrev pub Without : ℕ → Bytes → Type 0
Without c xs = All (λ x. not (x == c)) xs

digits-All : (fuel n : ℕ) → All is_digit (digits fuel n)
unfolding digits
digits-All zero n = tt
digits-All (suc fuel) n = elim (Bool-cases (ltb n 10)) [
  | inl e ↦ subst (All is_digit) (sym (digits_small fuel n e)) (ground (arith, e), tt)
  | inr e ↦ subst (All is_digit) (sym (digits_large fuel n e)) (
      All-append is_digit (digits fuel (n / 10)) ((48 + n % 10) ∷ []) (digits-All fuel (n / 10))
        (ground arith, tt))
]

to_string-All : (n : ℕ) → All is_digit (to_string n)
unfolding to_string
to_string-All n = digits-All (suc n) n

-- A printed number has digits only.
pub to_string-Without : (c n : ℕ) → is_digit c ≡ false → Without c (to_string n)
to_string-Without c n h =
    All-imp is_digit (λ x. not (x == c)) (λ x d. ground (arith, d, h)) (to_string n)
      (to_string-All n)

pub lines-line :
    (line rest : Bytes) → Without 10 line → lines (line ++ (10 ∷ rest)) ≡ line ∷ lines rest
unfolding lines
lines-line [] rest a = refl
lines-line (x ∷ xs) rest (h, a) =
    let other : (x == 10) ≡ false = ground (arith, h) in rw (other, lines-line xs rest a) refl

match_here-other : (x : ℕ) (xs : Bytes) → (x == 111) ≡ false → match_here (x ∷ xs) ≡ none
unfolding match_here
match_here-other x xs h = rw (match_here, h) refl

regex_search-miss :
    (x : ℕ) (xs : Bytes) → match_here (x ∷ xs) ≡ none → regex_search (x ∷ xs) ≡ regex_search xs
unfolding regex_search
regex_search-miss x xs h = rw (regex_search, h) refl

regex_search-hit :
    (x : ℕ) (xs ds : Bytes) → match_here (x ∷ xs) ≡ some ds → regex_search (x ∷ xs) ≡ some ds
unfolding regex_search
regex_search-hit x xs ds h = rw (regex_search, h) refl

-- A line without `o` has no match.
pub regex_search-Without : (line : Bytes) → Without 111 line → regex_search line ≡ none
unfolding regex_search
regex_search-Without [] a = refl
regex_search-Without (x ∷ xs) (h, a) =
    regex_search-miss x xs (match_here-other x xs (ground (arith, h))) ∙ regex_search-Without xs a

span_digits-All :
    (ds rest : Bytes) → All is_digit ds → span_digits (ds ++ (46 ∷ rest)) ≡ (ds, 46 ∷ rest)
unfolding span_digits
span_digits-All [] rest a = refl
span_digits-All (d ∷ ds) rest (h, a) = rw (h, span_digits-All ds rest a) refl

match_here-file_name : (n : ℕ) → match_here (file_name (to_string n)) ≡ some (to_string n)
unfolding match_here match_end to_string
match_here-file_name n =
    let (c, cs, front, digit) = digits_front (suc n) n (omega arith) in
    ap match_end (span_digits-All (to_string n) (codes "ts") (to_string-All n))
    ∙ ap (λ ds. match_end (ds, codes ".ts")) front
    ∙ ap some (sym front)

-- The name of a segment's file has its number as the match.
pub regex_search-file_name : (n : ℕ) → regex_search (file_name (to_string n)) ≡ some (to_string n)
regex_search-file_name n =
    regex_search-hit 111 (codes "utput" ++ (to_string n ++ codes ".ts")) (to_string n)
      (match_here-file_name n)
