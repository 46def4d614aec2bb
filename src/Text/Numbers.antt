-- ===== src/Text/Numbers.antt =====
-- A number that the streams print is read back by their `>>`.
use native.Mathlib.Nat.{
  pow-suc, div-lt_iff_lt-mul, div-add-mod', mod-eq_of_lt, mul-le-mul_left, mod-lt,
}
use cos375_project.Base.{
  ℕ, zero, suc, ◌+◌, ◌*◌, ◌/◌, ◌%◌, ◌^◌, ◌≤◌, ◌<◌, ◌≡◌, refl, ◌∙◌, ap, ap₂, arith, [], ◌∷◌, ◌++◌,
  ltb, none, some, Bool-cases, ltb→lt, lt→ltb, inl, inr,
}
use cos375_project.Text.{Text, digit_char, digits_onto, number}
use cos375_project.Text.Stream.{digit_of, read_digits}

digit_of-digit_char : (base d : ℕ) → base ≤ 16 → d < base → digit_of base (digit_char d) ≡ some d
unfolding digit_of digit_char
digit_of-digit_char base d small h = ground arith

module _ (base : ℕ) (large : 2 ≤ base) (small : base ≤ 16) where
  read_one :
      (d count value : ℕ) (s : Text)
      → d < base
      → read_digits base (digit_char d ∷ s) count value
        ≡ read_digits base s (count + 1) (value * base + d)
  unfolding read_digits
  read_one d count value s h = rw (digit_of-digit_char base d small h, read_digits)

  fewer_digits : (f n : ℕ) → n < 2 ^ suc f → n / base < 2 ^ f
  fewer_digits f n h =
      let wider : 2 ^ f * 2 ≤ 2 ^ f * base = mul-le-mul_left (2 ^ f) large in
      (div-lt_iff_lt-mul {k = base} {x = n} {y = 2 ^ f} (omega arith)).1
        (omega (arith, wider, pow-suc 2 f))

  read_last :
      (n : ℕ) (out : Text)
      → n < base
      → read_digits base (digit_char (n % base) ∷ out) 0 0 ≡ read_digits base out 1 n
  read_last n out h =
      let same : n % base ≡ n = mod-eq_of_lt h in
      read_one (n % base) 0 0 out (omega (arith, same))
      ∙ ap (λ v. read_digits base out 1 v) (omega (arith, same))

  -- The digits of `n` in front of a text are read, and leave `n` and the text.
  read_digits-digits_onto :
      (f n : ℕ) (out : Text)
      → n < 2 ^ suc f
      → (k : ℕ) × (read_digits base (digits_onto (suc f) base n out) 0 0
          ≡ read_digits base out (suc k) n)
  unfolding digits_onto
  read_digits-digits_onto zero n out h =
      (0, rw (lt→ltb n base (omega arith)) (read_last n out (omega arith)))
  read_digits-digits_onto (suc f) n out h = elim (Bool-cases (ltb n base)) [
    | inl last ↦ (0, rw last (read_last n out (ltb→lt n base last)))
    | inr more ↦
        let shown = digit_char (n % base) ∷ out in
        let (k, ih) = read_digits-digits_onto f (n / base) shown (fewer_digits (suc f) n h) in
        (
          k + 1,
          rw more (
              ih
              ∙ read_one (n % base) (suc k) (n / base) out (mod-lt n (omega arith))
              ∙ ap₂ (λ c v. read_digits base out c v) (omega arith) (div-add-mod' n base)),
        )
  ]

  digits_onto-append :
      (f n : ℕ) (out s : Text) → digits_onto f base n out ++ s ≡ digits_onto f base n (out ++ s)
  unfolding digits_onto
  digits_onto-append zero n out s = refl
  digits_onto-append (suc f) n out s =
      ground (arith, digits_onto-append f (n / base) (digit_char (n % base) ∷ out) s)

  -- What stands behind a number does not go on with it.
  abbrev pub Ends : Text → Type 0
  Ends [] = Unit
  Ends (c ∷ s) = digit_of base c ≡ none

  read_end :
      (s : Text) (count value : ℕ) → Ends s → read_digits base s count value ≡ (count, value, s)
  unfolding read_digits
  read_end [] count value h = refl
  read_end (c ∷ s) count value h = rw (h, read_digits)

  pub read_digits-number :
      (n : ℕ) (s : Text)
      → n < 2 ^ 64
      → Ends s
      → (k : ℕ) × (read_digits base (number base n ++ s) 0 0 ≡ (suc k, n, s))
  unfolding number
  read_digits-number n s h ends =
      let (k, e) = read_digits-digits_onto 63 n s h in
      (k, rw (digits_onto-append 64 n [] s) (e ∙ read_end s (suc k) n ends))
