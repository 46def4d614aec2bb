-- ===== src/Utilities/Disasm.antt =====
-- `handleIAndR`, `handleLAndS`, `handleBranch`, `handleSpecial`, `printIFPC` and `printInstr` of
-- src/Utilities.cpp: an instruction as text.
use cos375_project.Base.{
  ℕ, ◌||◌, ◌==◌, List, [], ◌∷◌, ◌++◌, if◌then◌else◌, bit_and, bit_or, shl64, int64, get_or,
}
use cos375_project.Text.{Text, codes, dec, hex, dec_signed, pad_right, same_text}
use cos375_project.Utilities.{
  StageStatus, normal, bubble, idle, speculative, squashed, extract_bits, sext64,
}
use cos375_project.Utilities.Op
use cos375_project.Utilities.Funct3
use cos375_project.Utilities.OpString.{illegal_text, get_op_string}

-- `regNames`
abbrev pub reg_names : List Text
reg_names =
    codes "zero"
    ∷ codes "ra"
    ∷ codes "sp"
    ∷ codes "gp"
    ∷ codes "tp"
    ∷ codes "t0"
    ∷ codes "t1"
    ∷ codes "t2"
    ∷ codes "s0"
    ∷ codes "s1"
    ∷ codes "a0"
    ∷ codes "a1"
    ∷ codes "a2"
    ∷ codes "a3"
    ∷ codes "a4"
    ∷ codes "a5"
    ∷ codes "a6"
    ∷ codes "a7"
    ∷ codes "s2"
    ∷ codes "s3"
    ∷ codes "s4"
    ∷ codes "s5"
    ∷ codes "s6"
    ∷ codes "s7"
    ∷ codes "s8"
    ∷ codes "s9"
    ∷ codes "s10"
    ∷ codes "s11"
    ∷ codes "t3"
    ∷ codes "t4"
    ∷ codes "t5"
    ∷ codes "t6"
    ∷ []

-- The index is a field of five bits.
unfoldable pub reg_name : ℕ → Text
reg_name r = get_or reg_names r []

abbrev comma : Text
comma = codes ", "

unfoldable pub handle_i_and_r : ℕ → Text
unfolding reg_name
handle_i_and_r inst =
    let opcode = extract_bits inst 6 0 in
    let rd = extract_bits inst 11 7 in
    let funct3 = extract_bits inst 14 12 in
    let rs1 = extract_bits inst 19 15 in
    let rs2 = extract_bits inst 24 20 in
    let funct7 = extract_bits inst 31 25 in
    let imm12 = extract_bits inst 31 20 in
    let sext_imm12 = int64 (sext64 imm12 11) in
    let opcode_str = get_op_string opcode funct3 funct7 in
    let front =
      codes " " ++ opcode_str ++ codes " " ++ reg_name rd ++ comma ++ reg_name rs1 ++ comma in
    if same_text opcode_str illegal_text
    then codes " " ++ illegal_text
    else if opcode == Op.int || opcode == Op.intw
    then front ++ reg_name rs2
    else if funct3 == Funct3.sll || funct3 == Funct3.sr
    then front ++ dec (bit_and imm12 0x3f)
    else front ++ dec_signed sext_imm12

unfoldable pub handle_l_and_s : ℕ → Text
unfolding reg_name
handle_l_and_s inst =
    let opcode = extract_bits inst 6 0 in
    let rd = extract_bits inst 11 7 in
    let funct3 = extract_bits inst 14 12 in
    let rs1 = extract_bits inst 19 15 in
    let rs2 = extract_bits inst 24 20 in
    let imm5 = extract_bits inst 11 7 in
    let imm7 = extract_bits inst 31 25 in
    let imm12 = extract_bits inst 31 20 in
    let sext_imm12 = int64 (sext64 imm12 11) in
    let store_imm = int64 (sext64 (bit_or (shl64 imm7 5) imm5) 11) in
    let opcode_str = get_op_string opcode funct3 0 in
    let front = codes " " ++ opcode_str ++ codes " " in
    let back = codes "(" ++ reg_name rs1 ++ codes ")" in
    if same_text opcode_str illegal_text
    then codes " " ++ illegal_text
    else if opcode == Op.load
    then front ++ reg_name rd ++ comma ++ dec_signed sext_imm12 ++ back
    else front ++ reg_name rs2 ++ comma ++ dec_signed store_imm ++ back

unfoldable pub handle_branch : ℕ → Text
unfolding reg_name
handle_branch inst =
    let opcode = extract_bits inst 6 0 in
    let rs1 = extract_bits inst 19 15 in
    let rs2 = extract_bits inst 24 20 in
    let funct3 = extract_bits inst 14 12 in
    let imm7 = extract_bits inst 31 25 in
    let imm5 = extract_bits inst 11 7 in
    let pattern =
      bit_or
        (bit_or (bit_or (shl64 (extract_bits imm7 6 6) 12) (shl64 (extract_bits imm7 5 0) 5))
          (shl64 (extract_bits imm5 4 1) 1))
        (shl64 (extract_bits imm5 0 0) 11) in
    let branch_imm = int64 (sext64 pattern 12) in
    let opcode_str = get_op_string opcode funct3 0 in
    if same_text opcode_str illegal_text
    then codes " " ++ illegal_text
    else codes " "
      ++ opcode_str
      ++ codes " "
      ++ reg_name rs1
      ++ comma
      ++ reg_name rs2
      ++ comma
      ++ dec_signed branch_imm

unfoldable pub handle_special : ℕ → Text
unfolding reg_name
handle_special inst =
    let opcode = extract_bits inst 6 0 in
    let rd = extract_bits inst 11 7 in
    let imm20 = extract_bits inst 31 12 in
    let sext_upper = int64 (sext64 (shl64 imm20 12) 19) in
    let pattern =
      bit_or
        (bit_or (bit_or (shl64 (extract_bits imm20 19 19) 20) (shl64 (extract_bits imm20 18 9) 1))
          (shl64 (extract_bits imm20 8 8) 11))
        (shl64 (extract_bits imm20 7 0) 12) in
    let jal_imm = int64 (sext64 pattern 20) in
    let opcode_str = get_op_string opcode 0 0 in
    let front = codes " " ++ opcode_str ++ codes " " ++ reg_name rd ++ comma in
    if same_text opcode_str illegal_text
    then codes " " ++ illegal_text
    else if opcode == Op.jal
    then front ++ dec_signed jal_imm
    else front ++ dec_signed sext_upper

-- The two words that have names of their own.
abbrev pub halt_inst : ℕ
halt_inst = 0xfeedfeed

abbrev pub nop_inst : ℕ
nop_inst = 0x00000013

-- What `printInstr` puts into `sb` before the status.
unfoldable pub instr_text : ℕ → Text
instr_text inst =
    let opcode = extract_bits inst 6 0 in
    if inst == halt_inst
    then codes " HALT"
    else if inst == nop_inst
    then codes " NOP"
    else if opcode == Op.int
        || opcode == Op.intw
        || opcode == Op.intimm
        || opcode == Op.intimmw
        || opcode == Op.jalr
    then handle_i_and_r inst
    else if opcode == Op.load || opcode == Op.store
    then handle_l_and_s inst
    else if opcode == Op.branch
    then handle_branch inst
    else if opcode == Op.jal || opcode == Op.lui || opcode == Op.auipc
    then handle_special inst
    else codes " " ++ illegal_text

-- `stageStatusStr`
unfoldable pub stage_status_str : StageStatus → Text
stage_status_str bubble = codes " (bubble) "
stage_status_str idle = codes " (idle) "
stage_status_str normal = codes " "
stage_status_str speculative = codes " (spcu) "
stage_status_str squashed = codes " (squashed) "

unfoldable pub print_if_pc : ℕ → StageStatus → Text
unfolding stage_status_str
print_if_pc pc status = pad_right 25 b' ' (codes " Inst at 0x" ++ hex pc ++ stage_status_str status)

unfoldable pub print_instr : ℕ → StageStatus → Text
unfolding stage_status_str
print_instr inst status = pad_right 25 b' ' (instr_text inst ++ stage_status_str status)
