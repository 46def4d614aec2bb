-- ===== src/Utilities/Op.antt =====
-- `enum OPCODES` of src/Utilities.h.
use cos375_project.Base.{ℕ}

abbrev pub int : ℕ
int = 0b0110011

abbrev pub intw : ℕ
intw = 0b0111011

abbrev pub load : ℕ
load = 0b0000011

abbrev pub intimm : ℕ
intimm = 0b0010011

abbrev pub intimmw : ℕ
intimmw = 0b0011011

abbrev pub jalr : ℕ
jalr = 0b1100111

abbrev pub store : ℕ
store = 0b0100011

abbrev pub branch : ℕ
branch = 0b1100011

abbrev pub auipc : ℕ
auipc = 0b0010111

abbrev pub lui : ℕ
lui = 0b0110111

abbrev pub jal : ℕ
jal = 0b1101111
