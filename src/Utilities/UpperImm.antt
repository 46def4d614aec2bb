-- ===== src/Utilities/UpperImm.antt =====
-- `enum SR_UPPER_IMM12` of src/Utilities.h.
use cos375_project.Base.{ℕ}

abbrev pub logical : ℕ
logical = 0b000000

abbrev pub arith : ℕ
arith = 0b010000
