-- ===== src/Text/ReadBack.antt =====
-- `>>` on a stream that starts with a number as the streams print it.
use native.Mathlib.Nat.{mod-lt}
use cos375_project.Base.{
  ℕ, zero, suc, ◌/◌, ◌%◌, ◌≤◌, ◌<◌, ◌≡◌, ◌≢◌, refl, arith, true, false, [], ◌∷◌, ◌++◌, ltb,
  if-keeps, All,
}
use cos375_project.Text.{Text, digit_char, digits_onto, number}
use cos375_project.Text.Stream.{
  open_stream, is_space, skip_space, digit_of, read_sign, skip_prefix, max_u32, is_empty, convert,
  extract, extract_to,
}
use cos375_project.Text.Numbers.{Ends, read_digits-number}

-- A space, or the end of the file.
abbrev pub IsSpaced : Text → Type 0
IsSpaced [] = Unit
IsSpaced (c ∷ s) = is_space c ≡ true

module _ (base : ℕ) (large : 2 ≤ base) (small : base ≤ 16) where
  -- A character that stands for a digit.
  abbrev IsDigit : ℕ → Type 0
  IsDigit c = (d : ℕ) × (d < base) × (c ≡ digit_char d)

  digits_onto-IsDigit :
      (f n : ℕ) (out : Text) → All IsDigit out → All IsDigit (digits_onto f base n out)
  unfolding digits_onto
  digits_onto-IsDigit zero n out all = all
  digits_onto-IsDigit (suc f) n out all =
      let shown : All IsDigit (digit_char (n % base) ∷ out) =
        ((n % base, mod-lt n (omega arith), refl), all) in
      if-keeps (All IsDigit) (ltb n base) _ _ shown (digits_onto-IsDigit f (n / base) _ shown)

  number-IsDigit : (n : ℕ) → All IsDigit (number base n)
  unfolding number
  number-IsDigit n = digits_onto-IsDigit 64 n [] tt

  digits_onto-ne-nil : (f n : ℕ) (out : Text) → out ≢ [] → digits_onto f base n out ≢ []
  unfolding digits_onto
  digits_onto-ne-nil zero n out ne = ne
  digits_onto-ne-nil (suc f) n out ne =
      if-keeps (λ (t : Text). t ≢ []) (ltb n base) _ _ (λ e. cc)
        (digits_onto-ne-nil f (n / base) _ (λ e. cc))

  number-ne-nil : (n : ℕ) → number base n ≢ []
  unfolding number digits_onto
  number-ne-nil n =
      if-keeps (λ (t : Text). t ≢ []) (ltb n base) _ _ (λ e. cc)
        (digits_onto-ne-nil 63 (n / base) _ (λ e. cc))

  space-Ends : (s : Text) → IsSpaced s → Ends base large small s
  unfolding is_space digit_of
  space-Ends [] h = tt
  space-Ends (c ∷ s) h = ground arith

  no_space : (c : ℕ) (s : Text) → IsDigit c → skip_space (c ∷ s) ≡ c ∷ s
  unfolding skip_space digit_char
  no_space c s (d, h, e) = ground arith

  no_sign : (c : ℕ) (s : Text) → IsDigit c → read_sign (c ∷ s) ≡ (false, c ∷ s)
  unfolding read_sign digit_char
  no_sign c s (d, h, e) = ground arith

  no_prefix :
      (t s : Text) → All IsDigit t → t ≢ [] → IsSpaced s → skip_prefix base (t ++ s) ≡ t ++ s
  unfolding skip_prefix digit_char is_space
  no_prefix [] s all ne sp = absurd (ne refl)
  no_prefix (c ∷ []) [] all ne sp = refl
  no_prefix (c ∷ []) (e ∷ s) all ne sp = ground arith
  no_prefix (c ∷ e ∷ t) s (hc, ((d, h, same), all)) ne sp = ground arith

  skip_spaces :
      (spaces t : Text)
      → All (λ c. is_space c ≡ true) spaces
      → skip_space (spaces ++ t) ≡ skip_space t
  unfolding skip_space
  skip_spaces [] t h = refl
  skip_spaces (c ∷ spaces) t (h, hs) = rw h (skip_spaces spaces t hs)

  digit_first :
      (t s : Text)
      → All IsDigit t
      → t ≢ []
      → (skip_space (t ++ s) ≡ t ++ s)
        × (read_sign (t ++ s) ≡ (false, t ++ s))
        × (is_empty (t ++ s) ≡ false)
  digit_first [] s all ne = absurd (ne refl)
  digit_first (c ∷ t) s (h, all) ne = (no_space c (t ++ s) h, no_sign c (t ++ s) h, refl)

  -- A number that fits is read where spaces stand in front of it and a space or the end behind it.
  pub extract-number :
      (spaces : Text) (n : ℕ) (s : Text) (old : ℕ)
      → All (λ c. is_space c ≡ true) spaces
      → n ≤ max_u32
      → IsSpaced s
      → extract base (open_stream (spaces ++ (number base n ++ s))) old
        ≡ (n, record { rest = s; eof = is_empty s; fail = false })
  unfolding extract_to convert
  extract-number spaces n s old hs fits sp =
      let t = number base n in
      let digits = number-IsDigit n in
      let ne = number-ne-nil n in
      let (skipped, unsigned, more) = digit_first t s digits ne in
      let (k, read) = read_digits-number base large small n s (omega arith) (space-Ends s sp) in
      rw (skip_spaces spaces (t ++ s) hs, skipped, unsigned, more, no_prefix t s digits ne sp, read)
        (ground arith)
