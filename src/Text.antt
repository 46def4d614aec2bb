-- ===== src/Text.antt =====
-- Text as the codes of its characters, and how the streams of the standard library print numbers:
-- `std::dec`, `std::hex`, `std::setw`, `std::setfill` and `std::left`.
pub mod Numbers
pub mod Stream
pub mod ReadBack
pub mod Shorter
use Prim.Native.Char.{code}
use Prim.Native.String.{String}
use cos375_project.Base.{
  ℕ, zero, suc, ◌+◌, ◌-◌, ◌/◌, ◌%◌, Bool, List, [], ◌∷◌, ◌++◌, ltb, ◌==◌, if◌then◌else◌, length,
  replicate, ℤ, pos, negsuc,
}

abbrev pub Text : Type 0
Text = List ℕ

-- A literal: its codes are its bytes, since it is ASCII.
abbrev pub codes : String → Text
codes String.[] = []
codes (String.◌∷◌ c s) = code c ∷ codes s

-- The character of a digit, in lower case.
unfoldable pub digit_char : ℕ → ℕ
digit_char d = if ltb d 10 then b'0' + d else b'a' + (d - 10)

-- The digits of `n`, put in front of `out`; 64 of them are enough for a word.
unfoldable pub digits_onto : ℕ → ℕ → ℕ → Text → Text
unfolding digit_char
digits_onto zero base n out = out
digits_onto (suc fuel) base n out =
    let shown = digit_char (n % base) ∷ out in
    let rest = digits_onto fuel base (n / base) shown in if ltb n base then shown else rest

unfoldable pub number : ℕ → ℕ → Text
number base n = digits_onto 64 base n []

abbrev pub dec : ℕ → Text
dec n = number 10 n

abbrev pub hex : ℕ → Text
hex n = number 16 n

-- An `int64_t`.
unfoldable pub dec_signed : ℤ → Text
dec_signed (pos n) = dec n
dec_signed (negsuc n) = b'-' ∷ dec (n + 1)

-- `setw(width)` with `setfill(fill)`, before and after the text.
unfoldable pub pad_left : ℕ → ℕ → Text → Text
pad_left width fill s = replicate (width - length s) fill ++ s

unfoldable pub pad_right : ℕ → ℕ → Text → Text
pad_right width fill s = s ++ replicate (width - length s) fill

-- Texts are compared by their characters.
unfoldable pub same_text : Text → Text → Bool
same_text [] [] = Bool.true
same_text (c ∷ s) (d ∷ t) = if c == d then same_text s t else Bool.false
same_text _ _ = Bool.false

-- Pieces that are put out one after the other.
unfoldable pub concat : List Text → Text
concat [] = []
concat (piece ∷ pieces) = piece ++ concat pieces
