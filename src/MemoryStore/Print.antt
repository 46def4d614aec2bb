-- ===== src/MemoryStore/Print.antt =====
-- `printMemArray`, `printMemory` and `dumpMemoryState` of src/MemoryStore.cpp: the text that they
-- write, and the result.
use cos375_project.Base.{
  ℕ, zero, suc, ◌+◌, ◌*◌, Bool, true, false, List, [], ◌++◌, Option, none, some, ltb, if◌then◌else◌,
  get_elem?, sub64, add64,
}
use cos375_project.Text.{Text, codes, hex, pad_left}
use cos375_project.Text.Stream.{open_stream, extract_to, max_u64}
use cos375_project.Utilities.Dumps.{endl}
use cos375_project.MemoryStore.{MemoryStore, Ret, zero_ret, einval, valid_size, word_size}

-- `WORD_WIDTH` and `BYTE_WIDTH`
abbrev pub word_width : ℕ
word_width = 8

abbrev pub byte_width : ℕ
byte_width = 2

-- The bytes of an entry from index `rel + j` on, and whether `at` threw.
unfoldable pub print_bytes : List ℕ → ℕ → ℕ → ℕ → Text × Bool
print_bytes arr rel j zero = ([], false)
print_bytes arr rel j (suc left) = elim (get_elem? arr (add64 rel j)) [
  | none ↦ ([], true)
  | some b ↦
      let (text, threw) = print_bytes arr rel (j + 1) left in
      (pad_left byte_width b'0' (hex b) ++ text, threw)
]

-- How a row ends: at its last entry, at the end of the range, or with an exception.
pub data RowEnd : Type 0 where
  full done thrown : RowEnd

-- The loop over the entries of a row: the text, how it ends, and `relStart`.
unfoldable pub print_row : List ℕ → ℕ → ℕ → ℕ → ℕ → Text × RowEnd × ℕ
print_row arr size rel_end zero rel = (endl, full, rel)
print_row arr size rel_end (suc left) rel =
    let (bytes, threw) = print_bytes arr rel 0 size in
    let (text, how, after) = print_row arr size rel_end left (add64 rel size) in
    if ltb rel rel_end
    then (if threw
        then (codes "0x" ++ bytes, thrown, rel)
        else (codes "0x" ++ bytes ++ codes " " ++ text, how, after))
    else (endl, done, rel)

-- The loop over the rows, on fuel: `none` means that the fuel ran out.
unfoldable pub print_rows : List ℕ → ℕ → ℕ → ℕ → ℕ → ℕ → ℕ → Option (Ret × Text)
print_rows arr size per_row rel_end zero rel cur = none
print_rows arr size per_row rel_end (suc fuel) rel cur =
    let (row, how, after) = print_row arr size rel_end per_row rel in
    let shown = codes "0x" ++ pad_left word_width b'0' (hex cur) ++ codes ": " ++ row in
    let rest = print_rows arr size per_row rel_end fuel after (add64 cur (size * per_row)) in
    if ltb rel rel_end
    then elim how [
      | full ↦ elim rest [ none ↦ none | some (ret, text) ↦ some (ret, shown ++ text) ]
      | done ↦ some (zero_ret, shown)
      | thrown ↦ some (einval, shown)
    ]
    else some (zero_ret, [])

-- `printMemArray`, on fuel.
unfoldable pub print_mem_array : ℕ → MemoryStore → ℕ → ℕ → ℕ → ℕ → Option (Ret × Text)
print_mem_array fuel mem start_addr end_addr entry_size entries_per_row =
    let rel_start = sub64 start_addr mem.start_addr in
    let rel_end = sub64 end_addr mem.start_addr in
    if valid_size entry_size
    then print_rows mem.mem_arr entry_size entries_per_row rel_end fuel rel_start start_addr
    else some (einval, [])

-- `printMemory`, on fuel.
unfoldable pub print_memory : ℕ → MemoryStore → ℕ → ℕ → Option (Ret × Text)
unfolding print_mem_array
print_memory fuel mem start_addr end_addr = print_mem_array fuel mem start_addr end_addr word_size 5

-- The range that `dumpMemoryState` prints: of the file `print_mem_range`, or the default. The variables
-- keep what they hold where an extraction leaves them as they are.
unfoldable pub print_range : Option Text → ℕ × ℕ
print_range none = (0, 0x1f4)
print_range (some file) =
    let (start_addr, after) = extract_to max_u64 16 (open_stream file) 0 in
    let (end_addr, _) = extract_to max_u64 16 after 0x1f4 in (start_addr, end_addr)

abbrev rule : Text
rule = codes "---------------------" ++ endl

-- `dumpMemoryState`, on fuel: what the file holds, or that it could not be opened.
unfoldable pub dump_memory_state : ℕ → MemoryStore → Option Text → Bool → Option (Option Text)
unfolding print_range print_mem_array
dump_memory_state fuel mem range opened =
    let (start_addr, end_addr) = print_range range in
    if opened
    then elim (print_mem_array fuel mem start_addr end_addr word_size 5) [
      | none ↦ none
      | some (ret, text) ↦ some (
          some (
            rule
            ++ codes "Begin Memory State"
            ++ endl
            ++ rule
            ++ text
            ++ rule
            ++ codes "End Memory State"
            ++ endl
            ++ rule))
    ]
    else some none
