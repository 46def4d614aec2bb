-- ===== src/Utilities/OpString.antt =====
-- `getOpString` of src/Utilities.cpp: the mnemonic of an instruction.
use cos375_project.Base.{ℕ, ◌>>>◌, ◌==◌, Option, none, some, [], ◌++◌, if◌then◌else◌}
use cos375_project.Text.{Text, codes}
use cos375_project.Utilities.Op
use cos375_project.Utilities.Funct3
use cos375_project.Utilities.Funct7
use cos375_project.Utilities.UpperImm

abbrev pub illegal_text : Text
illegal_text = codes "ILLEGAL"

-- The bodies that the inner `switch`es choose; `none` is a return of "ILLEGAL".
unfoldable pub add_body : ℕ → Option Text
add_body funct7 =
    if funct7 == Funct7.add
    then some (codes "add")
    else if funct7 == Funct7.sub
    then some (codes "sub")
    else none

unfoldable pub int_body : ℕ → ℕ → ℕ → Option Text
unfolding add_body
int_body opcode funct3 funct7 =
    if funct3 == Funct3.add
    then (if opcode == Op.int then add_body funct7 else some (codes "add"))
    else if funct3 == Funct3.sll
    then some (codes "sll")
    else if funct3 == Funct3.slt
    then some (codes "slt")
    else if funct3 == Funct3.sltu
    then some (codes "sltu")
    else if funct3 == Funct3.xor
    then some (codes "xor")
    else if funct3 == Funct3.sr
    then (if funct7 >>> 1 == UpperImm.logical
        then some (codes "srl")
        else if funct7 >>> 1 == UpperImm.arith
        then some (codes "sra")
        else none)
    else if funct3 == Funct3.or
    then some (codes "or")
    else if funct3 == Funct3.and
    then some (codes "and")
    else none

unfoldable pub intw_body : ℕ → ℕ → Option Text
unfolding add_body
intw_body funct3 funct7 =
    if funct3 == Funct3.add
    then add_body funct7
    else if funct3 == Funct3.sll
    then some (codes "sll")
    else if funct3 == Funct3.sr
    then (if funct7 == Funct7.logical
        then some (codes "srl")
        else if funct7 == Funct7.arith
        then some (codes "sra")
        else none)
    else none

unfoldable pub load_body : ℕ → Option Text
load_body funct3 =
    if funct3 == Funct3.b
    then some (codes "b")
    else if funct3 == Funct3.h
    then some (codes "h")
    else if funct3 == Funct3.w
    then some (codes "w")
    else if funct3 == Funct3.d
    then some (codes "d")
    else if funct3 == Funct3.bu
    then some (codes "bu")
    else if funct3 == Funct3.hu
    then some (codes "hu")
    else if funct3 == Funct3.wu
    then some (codes "wu")
    else none

unfoldable pub store_body : ℕ → Option Text
store_body funct3 =
    if funct3 == Funct3.b
    then some (codes "b")
    else if funct3 == Funct3.h
    then some (codes "h")
    else if funct3 == Funct3.w
    then some (codes "w")
    else if funct3 == Funct3.d
    then some (codes "d")
    else none

unfoldable pub branch_body : ℕ → Option Text
branch_body funct3 =
    if funct3 == Funct3.beq
    then some (codes "eq")
    else if funct3 == Funct3.bne
    then some (codes "ne")
    else if funct3 == Funct3.blt
    then some (codes "lt")
    else if funct3 == Funct3.bge
    then some (codes "ge")
    else if funct3 == Funct3.bltu
    then some (codes "ltu")
    else if funct3 == Funct3.bgeu
    then some (codes "geu")
    else none

-- `prefix + body + suffix`
unfoldable pub joined : Text → Option Text → Text → Text
joined front none back = illegal_text
joined front (some body) back = front ++ body ++ back

unfoldable pub get_op_string : ℕ → ℕ → ℕ → Text
unfolding joined
get_op_string opcode funct3 funct7 =
    if opcode == Op.intimm
    then joined [] (int_body opcode funct3 funct7) (codes "i")
    else if opcode == Op.int
    then joined [] (int_body opcode funct3 funct7) []
    else if opcode == Op.intimmw
    then joined [] (intw_body funct3 funct7) (codes "iw")
    else if opcode == Op.intw
    then joined [] (intw_body funct3 funct7) (codes "w")
    else if opcode == Op.load
    then joined (codes "l") (load_body funct3) []
    else if opcode == Op.store
    then joined (codes "s") (store_body funct3) []
    else if opcode == Op.branch
    then joined (codes "b") (branch_body funct3) []
    else if opcode == Op.jal
    then codes "jal"
    else if opcode == Op.jalr
    then codes "jalr"
    else if opcode == Op.lui
    then codes "lui"
    else if opcode == Op.auipc
    then codes "auipc"
    else illegal_text
