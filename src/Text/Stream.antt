-- ===== src/Text/Stream.antt =====
-- An `std::ifstream` that is read with `>>` into a `uint32_t` or a `uint64_t`, in base 10 or with `std::hex`, and with
-- `std::getline`.
use cos375_project.Base.{
  ℕ, ◌+◌, ◌-◌, ◌*◌, ◌%◌, ◌^◌, Bool, true, false, not, ◌&&◌, ◌||◌, [], ◌∷◌, ltb, leb, ◌==◌,
  if◌then◌else◌, Option, none, some,
}
use cos375_project.Text.{Text}

-- What is left to read, and the bits `eofbit` and `failbit`.
pub record Stream : Type 0 where
  pub rest : Text
  pub eof : Bool
  pub fail : Bool

-- A file that has just been opened.
abbrev pub open_stream : Text → Stream
open_stream text = record { rest = text; eof = false; fail = false }

abbrev pub good : Stream → Bool
good s = not s.eof && not s.fail

unfoldable pub is_space : ℕ → Bool
is_space c = c == b' ' || (leb 9 c && leb c 13)

unfoldable pub skip_space : Text → Text
unfolding is_space
skip_space [] = []
skip_space (c ∷ s) = if is_space c then skip_space s else c ∷ s

-- The value of a character as a digit of the base.
unfoldable pub digit_of : ℕ → ℕ → Option ℕ
digit_of base c =
    let value =
      if leb b'0' c && leb c b'9'
      then c - b'0'
      else if leb b'a' c && leb c b'f'
      then c - b'a' + 10
      else if leb b'A' c && leb c b'F'
      then c - b'A' + 10
      else base in
    if ltb value base then some value else none

-- The digits at the front: their number, the value, and what follows. A value past the type stays past
-- it.
unfoldable pub read_digits : ℕ → Text → ℕ → ℕ → ℕ × ℕ × Text
unfolding digit_of
read_digits base [] count value = (count, value, [])
read_digits base (c ∷ s) count value = elim (digit_of base c) [
  | none ↦ (count, value, c ∷ s)
  | some d ↦ read_digits base s (count + 1) (value * base + d)
]

unfoldable pub read_sign : Text → Bool × Text
read_sign [] = (false, [])
read_sign (c ∷ s) =
    if c == b'-' then (true, s) else if c == b'+' then (false, s) else (false, c ∷ s)

-- `0x` in front of a hexadecimal number.
unfoldable pub skip_prefix : ℕ → Text → Text
skip_prefix base (c ∷ d ∷ s) =
    if base == 16 && c == b'0' && (d == b'x' || d == b'X') then s else c ∷ d ∷ s
skip_prefix base s = s

abbrev pub max_u32 : ℕ
max_u32 = 2 ^ 32 - 1

abbrev pub max_u64 : ℕ
max_u64 = 2 ^ 64 - 1

abbrev pub is_empty : Text → Bool
is_empty [] = true
is_empty (c ∷ s) = false

-- The number at the front: without a digit it is 0, past `max` it is `max`; both set `failbit`. A
-- negative one wraps around.
unfoldable pub convert : ℕ → Bool → ℕ × ℕ × Text → ℕ × Stream
convert max negative (count, value, rest) =
    if count == 0
    then (0, record { rest = rest; eof = is_empty rest; fail = true })
    else if ltb max value
    then (max, record { rest = rest; eof = is_empty rest; fail = true })
    else (
      (if negative then (max + 1 - value) % (max + 1) else value),
      record { rest = rest; eof = is_empty rest; fail = false },
    )

-- `s >> value` for a type whose greatest value is `max`: a stream that is not good, or has only spaces
-- left, leaves the variable as it was.
unfoldable pub extract_to : ℕ → ℕ → Stream → ℕ → ℕ × Stream
unfolding convert
extract_to max base s old =
    let text = skip_space s.rest in
    let (negative, unsigned) = read_sign text in
    if not (good s)
    then (old, record s { fail = true })
    else if is_empty text
    then (old, record { rest = []; eof = true; fail = true })
    else convert max negative (read_digits base (skip_prefix base unsigned) 0 0)

abbrev pub extract : ℕ → Stream → ℕ → ℕ × Stream
extract base s old = extract_to max_u32 base s old

unfoldable pub drop_line : Text → Text × Bool
drop_line [] = ([], true)
drop_line (c ∷ s) = if c == b'\n' then (s, false) else drop_line s

-- `std::getline`, whose line is not used.
unfoldable pub getline : Stream → Stream
getline s =
    let (rest, eof) = drop_line s.rest in
    if not (good s)
    then record s { fail = true }
    else record { rest = rest; eof = eof; fail = is_empty s.rest }
