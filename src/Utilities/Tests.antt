-- ===== src/Utilities/Tests.antt =====
-- Sign extensions, disassembled words and names of src/Utilities.cpp and src/Utilities.h.
use cos375_project.Base.{◌≡◌, ◌++◌, refl, arith, int64, not, ◌||◌}
use cos375_project.Utilities.{extract_bits, sext64}
use cos375_project.Text.{codes, same_text, pad_right, dec_signed, number, digits_onto, digit_char}
use cos375_project.Utilities.OpString.{add_body, intw_body, load_body, joined, get_op_string}
use cos375_project.Utilities.Disasm.{
  instr_text, handle_i_and_r, handle_l_and_s, handle_branch, handle_special, reg_name,
}
use cos375_project.Utilities.Dumps.{stat_line, before_dot, get_base_filename}
use cos375_project.Utilities.Legal.Shown.{shown_illegal}
use cos375_project.Utilities.Legal.Decoder.{is_addiw, instr_text-is_legal}
use cos375_project.Simulator.{Instruction, blank}
use cos375_project.Simulator.Decode.{sim_decode, legal_store, legal_branch}
use cos375_project.Simulator.Encoding.{encode}
use cos375_project.Simulator.Immediates.{b_high, b_low}
use cos375_project.Utilities.Op
use cos375_project.Utilities.Offsets.{split_fields, handle_l_and_s-store, handle_branch-offset}
use cos375_project.Utilities.Fields.{signed, int64-sext64}

high_bits : extract_bits 0xdeadbeef 31 20 ≡ 0xdea
unfolding extract_bits
high_bits = refl

int64-sext64_example : int64 (sext64 0xfff 11) ≡ signed 11 0xfff
int64-sext64_example = int64-sext64 11 0xfff (omega arith) (omega arith)

-- `addiw a0, a0, -1`, which is legal and shown as illegal.
abbrev addiw : Instruction
addiw = record blank { instruction = 0xfff5051b }

addiw_text : instr_text 0xfff5051b ≡ codes " ILLEGAL"
unfolding instr_text handle_i_and_r extract_bits get_op_string intw_body add_body joined same_text
addiw_text = refl

instr_text-is_legal_example :
    same_text (instr_text addiw.instruction) shown_illegal
    ≡ (not (sim_decode addiw).is_legal || is_addiw addiw.instruction)
instr_text-is_legal_example = instr_text-is_legal addiw

-- `lui a0, 0x80`: the upper immediate is 0x80000, and is shown as a negative number.
lui_text : instr_text 0x00080537 ≡ codes " lui a0, -524288"
unfolding instr_text handle_special extract_bits sext64 get_op_string same_text reg_name dec_signed
    number digits_onto digit_char
lui_text = refl

-- `lw a0, -4(sp)`
lw_text : instr_text 0xffc12503 ≡ codes " lw a0, -4(sp)"
unfolding instr_text handle_l_and_s extract_bits sext64 get_op_string load_body joined same_text
    reg_name dec_signed number digits_onto digit_char
lw_text = refl

-- The path up to its last dot, and a line of the statistics.
base_name : get_base_filename (codes "a/b.c.bin") ≡ codes "a/b.c"
unfolding get_base_filename before_dot
base_name = refl

cycles_line : stat_line (codes "Total cycles: ") 42 ≡ codes "Total cycles:          42\n"
unfolding stat_line pad_right number digits_onto digit_char
cycles_line = refl

-- `sw a0, -4(sp)` and `bne a0, a1, -8`
handle_l_and_s-store_example :
    handle_l_and_s (encode (split_fields Op.store 2 2 10 127 28))
    ≡ codes " "
      ++ get_op_string Op.store 2 0
      ++ codes " "
      ++ reg_name 10
      ++ codes ", "
      ++ dec_signed (signed 11 0xffc)
      ++ (codes "(" ++ reg_name 2 ++ codes ")")
unfolding legal_store
handle_l_and_s-store_example =
    handle_l_and_s-store 2 2 10 0xffc (omega arith) (omega arith) (omega arith) (omega arith) refl

handle_branch-offset_example :
    handle_branch (encode (split_fields Op.branch 1 10 11 (b_high 0x1ff8) (b_low 0x1ff8)))
    ≡ codes " "
      ++ get_op_string Op.branch 1 0
      ++ codes " "
      ++ reg_name 10
      ++ codes ", "
      ++ reg_name 11
      ++ codes ", "
      ++ dec_signed (signed 12 0x1ff8)
unfolding legal_branch
handle_branch-offset_example =
    handle_branch-offset 1 10 11 0x1ff8 (omega arith) (omega arith) (omega arith) (omega arith) refl
      refl
