-- ===== src/Utilities/Funct3.antt =====
-- `enum FUNCT3` of src/Utilities.h.
use cos375_project.Base.{ℕ}

abbrev pub add : ℕ
add = 0b000

abbrev pub sll : ℕ
sll = 0b001

abbrev pub slt : ℕ
slt = 0b010

abbrev pub sltu : ℕ
sltu = 0b011

abbrev pub xor : ℕ
xor = 0b100

abbrev pub sr : ℕ
sr = 0b101

abbrev pub or : ℕ
or = 0b110

abbrev pub and : ℕ
and = 0b111

abbrev pub b : ℕ
b = 0b000

abbrev pub h : ℕ
h = 0b001

abbrev pub w : ℕ
w = 0b010

abbrev pub d : ℕ
d = 0b011

abbrev pub bu : ℕ
bu = 0b100

abbrev pub hu : ℕ
hu = 0b101

abbrev pub wu : ℕ
wu = 0b110

abbrev pub beq : ℕ
beq = 0b000

abbrev pub bne : ℕ
bne = 0b001

abbrev pub blt : ℕ
blt = 0b100

abbrev pub bge : ℕ
bge = 0b101

abbrev pub bltu : ℕ
bltu = 0b110

abbrev pub bgeu : ℕ
bgeu = 0b111
