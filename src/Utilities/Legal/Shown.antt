-- ===== src/Utilities/Legal/Shown.antt =====
-- The handlers of src/Utilities.cpp show an instruction as illegal where its mnemonic is.
use cos375_project.Base.{
  ℕ, ◌≡◌, refl, arith, Bool, true, false, not, ◌||◌, [], ◌∷◌, ◌==◌, leb, if-keeps, if◌then◌else◌,
}
use cos375_project.Text.{Text, codes, same_text}
use cos375_project.Utilities.{extract_bits}
use cos375_project.Utilities.Op
use cos375_project.Utilities.Funct3
use cos375_project.Utilities.OpString.{illegal_text, get_op_string}
use cos375_project.Utilities.Disasm.{handle_i_and_r, handle_l_and_s, handle_branch, handle_special}
use cos375_project.Utilities.Legal.{starts_low, IsShown}

-- The text of a word that is shown as illegal.
abbrev pub shown_illegal : Text
shown_illegal = codes " ILLEGAL"

first_letter :
    (t : Text)
    → starts_low t ≡ true
    → (c : ℕ) × (rest : Text) × (t ≡ c ∷ rest) × (leb b'a' c ≡ true)
first_letter [] h = absurd cc
first_letter (c ∷ rest) h = (c, rest, refl, h)

differs :
    (c : ℕ) (rest : Text) → leb b'a' c ≡ true → same_text (b' ' ∷ c ∷ rest) shown_illegal ≡ false
unfolding same_text
differs c rest low = ground arith

not_illegal : (c : ℕ) (rest : Text) → leb b'a' c ≡ true → same_text (c ∷ rest) illegal_text ≡ false
unfolding same_text
not_illegal c rest low = ground arith

Differs : Text → Type 0
Differs t = same_text t shown_illegal ≡ false

one_of_three :
    (a b : Bool) (c : ℕ) (x y z : Text)
    → leb b'a' c ≡ true
    → Differs (if a then b' ' ∷ c ∷ x else if b then b' ' ∷ c ∷ y else b' ' ∷ c ∷ z)
unfolding Differs
one_of_three true b c x y z low = differs c x low
one_of_three false true c x y z low = differs c y low
one_of_three false false c x y z low = differs c z low

module _ (w : ℕ) where
  pub handle_i_and_r-shown :
      (legal : Bool)
      → IsShown legal
          (get_op_string (extract_bits w 6 0) (extract_bits w 14 12) (extract_bits w 31 25))
      → same_text (handle_i_and_r w) shown_illegal ≡ not legal
  unfolding handle_i_and_r IsShown Differs
  handle_i_and_r-shown false h = rw h (unfold same_text in refl)
  handle_i_and_r-shown true h =
      let op = get_op_string (extract_bits w 6 0) (extract_bits w 14 12) (extract_bits w 31 25) in
      let (c, rest, e, low) = first_letter op h in
      rw (e, not_illegal c rest low)
        (one_of_three (extract_bits w 6 0 == Op.int || extract_bits w 6 0 == Op.intw)
          (extract_bits w 14 12 == Funct3.sll || extract_bits w 14 12 == Funct3.sr) c _ _ _ low)

  pub handle_l_and_s-shown :
      (legal : Bool)
      → IsShown legal (get_op_string (extract_bits w 6 0) (extract_bits w 14 12) 0)
      → same_text (handle_l_and_s w) shown_illegal ≡ not legal
  unfolding handle_l_and_s IsShown Differs
  handle_l_and_s-shown false h = rw h (unfold same_text in refl)
  handle_l_and_s-shown true h =
      let op = get_op_string (extract_bits w 6 0) (extract_bits w 14 12) 0 in
      let (c, rest, e, low) = first_letter op h in
      rw (e, not_illegal c rest low) (if-keeps Differs _ _ _ (differs c _ low) (differs c _ low))

  pub handle_branch-shown :
      (legal : Bool)
      → IsShown legal (get_op_string (extract_bits w 6 0) (extract_bits w 14 12) 0)
      → same_text (handle_branch w) shown_illegal ≡ not legal
  unfolding handle_branch IsShown
  handle_branch-shown false h = rw h (unfold same_text in refl)
  handle_branch-shown true h =
      let op = get_op_string (extract_bits w 6 0) (extract_bits w 14 12) 0 in
      let (c, rest, e, low) = first_letter op h in rw (e, not_illegal c rest low) (differs c _ low)

  pub handle_special-shown :
      (legal : Bool)
      → IsShown legal (get_op_string (extract_bits w 6 0) 0 0)
      → same_text (handle_special w) shown_illegal ≡ not legal
  unfolding handle_special IsShown Differs
  handle_special-shown false h = rw h (unfold same_text in refl)
  handle_special-shown true h =
      let op = get_op_string (extract_bits w 6 0) 0 0 in
      let (c, rest, e, low) = first_letter op h in
      rw (e, not_illegal c rest low) (if-keeps Differs _ _ _ (differs c _ low) (differs c _ low))
