-- ===== src/Utilities/Legal.antt =====
-- `getOpString` and `printInstr` of src/Utilities.cpp against the decoder of src/simulator.cpp: which
-- words they show as illegal.
pub mod Shown
pub mod Mnemonics
pub mod Decoded
pub mod Decoder
use cos375_project.Base.{
  ℕ, ◌+◌, ◌-◌, ◌^◌, ◌≤◌, ◌≡◌, ◌≢◌, leb, refl, sym, ◌∙◌, ◌↔◌, arith, ap, Bool, true, false, not,
  ◌&&◌, ◌||◌, List, [], ◌∷◌, ◌++◌, Option, none, some, ◌==◌, ◌>>>◌, if◌then◌else◌, Bool-cases, inl,
  inr,
}
use cos375_project.Text.{Text, codes, same_text}
use cos375_project.Utilities.Op
use cos375_project.Utilities.Funct3
use cos375_project.Utilities.Funct7
use cos375_project.Utilities.UpperImm
use cos375_project.Utilities.OpString.{
  illegal_text, add_body, int_body, intw_body, load_body, store_body, branch_body, joined,
  get_op_string,
}
use cos375_project.Simulator.Decode.{
  legal_int, legal_intw, legal_load, legal_intimm, legal_intimmw, legal_store, legal_branch,
}

abbrev pub is_some : Option Text → Bool
is_some none = false
is_some (some body) = true

pub int_body-int :
    (funct3 funct7 : ℕ) → is_some (int_body Op.int funct3 funct7) ≡ legal_int funct3 funct7
unfolding int_body add_body legal_int
int_body-int funct3 funct7 = ground arith

pub int_body-intimm :
    (funct3 funct7 : ℕ) → is_some (int_body Op.intimm funct3 funct7) ≡ legal_intimm funct3 funct7
unfolding int_body add_body legal_intimm
int_body-intimm funct3 funct7 = ground arith

pub intw_body-intw :
    (funct3 funct7 : ℕ) → is_some (intw_body funct3 funct7) ≡ legal_intw funct3 funct7
unfolding intw_body add_body legal_intw
intw_body-intw funct3 funct7 = ground arith

-- The additions of an immediate that `getOpString` does not know: it reads the upper bits of the
-- immediate as `funct7`.
abbrev pub is_unnamed : ℕ → ℕ → Bool
is_unnamed funct3 funct7 =
    funct3 == Funct3.add && not (funct7 == Funct7.add || funct7 == Funct7.sub)

pub intw_body-intimmw :
    (funct3 funct7 : ℕ)
    → is_some (intw_body funct3 funct7)
      ≡ legal_intimmw funct3 funct7 && not (is_unnamed funct3 funct7)
unfolding intw_body add_body legal_intimmw
intw_body-intimmw funct3 funct7 = ground arith

pub load_body-legal : (funct3 : ℕ) → is_some (load_body funct3) ≡ legal_load funct3
unfolding load_body legal_load
load_body-legal funct3 = ground arith

pub store_body-legal : (funct3 : ℕ) → is_some (store_body funct3) ≡ legal_store funct3
unfolding store_body legal_store
store_body-legal funct3 = ground arith

pub branch_body-legal : (funct3 : ℕ) → is_some (branch_body funct3) ≡ legal_branch funct3
unfolding branch_body legal_branch
branch_body-legal funct3 = ground arith

-- A mnemonic starts with a small letter.
abbrev pub starts_low : Text → Bool
starts_low [] = false
starts_low (c ∷ t) = leb b'a' c

abbrev pub body_low : Option Text → Bool
body_low none = true
body_low (some body) = starts_low body

pub int_body-low : (opcode funct3 funct7 : ℕ) → body_low (int_body opcode funct3 funct7) ≡ true
unfolding int_body add_body
int_body-low opcode funct3 funct7 = ground arith

pub intw_body-low : (funct3 funct7 : ℕ) → body_low (intw_body funct3 funct7) ≡ true
unfolding intw_body add_body
intw_body-low funct3 funct7 = ground arith

-- The text of an operation, with a test for those that are legal.
unfoldable pub IsShown : Bool → Text → Type 0
IsShown legal text = if legal then starts_low text ≡ true else text ≡ illegal_text

pub joined_body :
    (body : Option Text) (back : Text)
    → body_low body ≡ true
    → IsShown (is_some body) (joined [] body back)
unfolding IsShown joined
joined_body none back low = refl
joined_body (some []) back low = absurd cc
joined_body (some (c ∷ t)) back low = low

pub joined_front :
    (c : ℕ) (body : Option Text)
    → leb b'a' c ≡ true
    → IsShown (is_some body) (joined (c ∷ []) body [])
unfolding IsShown joined
joined_front c none low = refl
joined_front c (some body) low = low

pub same_text-illegal :
    (legal : Bool) (text : Text) → IsShown legal text → same_text text illegal_text ≡ not legal
unfolding IsShown same_text
same_text-illegal true [] h = absurd cc
same_text-illegal true (c ∷ t) h = ground arith
same_text-illegal false t h = rw h refl
