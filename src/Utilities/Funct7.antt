-- ===== src/Utilities/Funct7.antt =====
-- `enum RI_FUNCT7` of src/Utilities.h.
use cos375_project.Base.{ℕ}

abbrev pub add : ℕ
add = 0b0000000

abbrev pub sub : ℕ
sub = 0b0100000

abbrev pub logical : ℕ
logical = 0b0000000

abbrev pub arith : ℕ
arith = 0b0100000
