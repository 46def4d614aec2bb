-- ===== src/Text/Shorter.antt =====
-- `>>` takes characters off the text, and more than none where it succeeds.
use cos375_project.Base.{
  ℕ, ◌+◌, ◌*◌, ◌≤◌, ◌<◌, ◌≡◌, refl, arith, Bool, true, false, not, ◌&&◌, ◌||◌, [], ◌∷◌, ◌==◌, none,
  some, length, Bool-cases, inl, inr, if-keeps,
}
use cos375_project.Text.{Text}
use cos375_project.Text.Stream.{
  Stream, good, is_space, skip_space, digit_of, read_digits, read_sign, skip_prefix, is_empty,
  max_u32, convert, extract, extract_to,
}

skip_space-shorter : (s : Text) → length (skip_space s) ≤ length s
unfolding skip_space
skip_space-shorter [] = omega arith
skip_space-shorter (c ∷ s) =
    if-keeps (λ (t : Text). length t ≤ length (c ∷ s)) (is_space c) _ _
      (omega (arith, skip_space-shorter s)) (omega arith)

read_sign-shorter : (s : Text) → length (read_sign s).1 ≤ length s
unfolding read_sign
read_sign-shorter [] = omega arith
read_sign-shorter (c ∷ s) = ground arith

skip_prefix-shorter : (base : ℕ) (s : Text) → length (skip_prefix base s) ≤ length s
unfolding skip_prefix
skip_prefix-shorter base [] = omega arith
skip_prefix-shorter base (c ∷ []) = omega arith
skip_prefix-shorter base (c ∷ d ∷ s) =
    if-keeps (λ (t : Text). length t ≤ length (c ∷ d ∷ s))
      (base == 16 && c == b'0' && (d == b'x' || d == b'X')) s (c ∷ d ∷ s) (omega arith)
      (omega arith)

-- Every digit that is counted has been taken.
read_digits-count :
    (base : ℕ) (s : Text) (count value : ℕ)
    → (read_digits base s count value).0 + length (read_digits base s count value).2
      ≡ count + length s
unfolding read_digits
read_digits-count base [] count value = refl
read_digits-count base (c ∷ s) count value =
    elim (digit_of base c)
      as (λ d.
        (elim d as (λ _. ℕ × ℕ × Text) [
          | none ↦ (count, value, c ∷ s)
          | some d ↦ read_digits base s (count + 1) (value * base + d)
        ]).0
          + length
              (elim d as (λ _. ℕ × ℕ × Text) [
                | none ↦ (count, value, c ∷ s)
                | some d ↦ read_digits base s (count + 1) (value * base + d)
              ]).2
        ≡ count + length (c ∷ s)) [
          | none ↦ refl
          | some d ↦ omega (arith, read_digits-count base s (count + 1) (value * base + d))
        ]

convert-shorter :
    (max : ℕ) (negative : Bool) (count value : ℕ) (rest : Text) (n : ℕ)
    → count + length rest ≤ n
    → (convert max negative (count, value, rest)).1.fail ≡ false
    → length (convert max negative (count, value, rest)).1.rest < n
unfolding convert
convert-shorter max negative count value rest n h ok = ground arith

-- What a successful extraction has done.
IsShorter : ℕ → ℕ × Stream → Type 0
IsShorter n (value, s) = s.fail ≡ false → length s.rest < n

pub extract-shorter :
    (base : ℕ) (s : Stream) (old : ℕ)
    → (extract base s old).1.fail ≡ false
    → length (extract base s old).1.rest < length s.rest
unfolding extract_to IsShorter
extract-shorter base s old ok =
    let text = skip_space s.rest in
    let unsigned = (read_sign text).1 in
    let digits = skip_prefix base unsigned in
    let read = read_digits base digits 0 0 in
    let fewer : read.0 + length read.2 ≤ length s.rest = omega (
      arith,
      read_digits-count base digits 0 0,
      skip_prefix-shorter base unsigned,
      read_sign-shorter text,
      skip_space-shorter s.rest,
    ) in
    if-keeps (IsShorter (length s.rest)) (not (good s)) (old, record s { fail = true }) _
      (λ failed. cc)
      (if-keeps (IsShorter (length s.rest)) (is_empty text)
        (old, record { rest = []; eof = true; fail = true }) _ (λ failed. cc)
        (convert-shorter max_u32 (read_sign text).0 read.0 read.1 read.2 (length s.rest) fewer))
      ok

pub extract-failed :
    (base : ℕ) (s : Stream) (old : ℕ) → s.fail ≡ true → (extract base s old).1.fail ≡ true
unfolding extract_to
extract-failed base s old h = elim (Bool-cases s.eof) [
  | inl e ↦ rw (h, e) refl
  | inr e ↦ rw (h, e) refl
]
