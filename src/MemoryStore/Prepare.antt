-- ===== src/MemoryStore/Prepare.antt =====
-- `prepareMemory` and the constructors of src/MemoryStore.cpp, on the text of the file
-- `init_mem_image`.
use cos375_project.Base.{ℕ, zero, suc, ◌+◌, Option, none, some, if◌then◌else◌, length}
use cos375_project.Utilities.{Status, error}
use cos375_project.Text.{Text}
use cos375_project.Text.Stream.{Stream, open_stream, extract}
use cos375_project.MemoryStore.{
  MemoryStore, Ret, zero_ret, einval, new_memory, set_mem_value, word_size, load_from_file,
}

-- One round of the loop: two extractions with `std::hex`, and the store of what the variables then
-- hold, also where an extraction failed.
unfoldable pub prepare_step : Stream → MemoryStore → Ret × Stream × MemoryStore
prepare_step init_mem mem =
    let (addr, after_addr) = extract 16 init_mem 0 in
    let (cur_val, after_val) = extract 16 after_addr 0 in
    let (ret, mem') = set_mem_value mem addr cur_val word_size in (ret, after_val, mem')

-- The loop, on fuel: `none` means that the fuel ran out.
unfoldable pub prepare_loop : ℕ → Stream → MemoryStore → Option (Ret × MemoryStore)
prepare_loop zero init_mem mem = none
prepare_loop (suc fuel) init_mem mem =
    let (ret, after, mem') = prepare_step init_mem mem in
    let rest = prepare_loop fuel after mem' in
    if init_mem.fail
    then some (zero_ret, mem)
    else elim ret [ einval ↦ some (einval, mem') | zero_ret ↦ rest ]

-- Every round but the last reads a character, and a round more sees the failure.
unfoldable pub prepare_memory : Option Text → MemoryStore → Option (Ret × MemoryStore)
prepare_memory none mem = some (zero_ret, mem)
prepare_memory (some image) mem = prepare_loop (length image + 2) (open_stream image) mem

-- What the assertion of the constructors makes of it: `none` stops the program.
unfoldable pub asserted : Option (Ret × MemoryStore) → Option MemoryStore
asserted none = none
asserted (some (zero_ret, mem)) = some mem
asserted (some (einval, mem)) = none

-- `loadFromFile`, also for a file that cannot be opened.
unfoldable pub load_file : Option Text → MemoryStore → MemoryStore × Status
load_file none mem = (mem, error)
load_file (some file) mem = load_from_file mem file

-- The constructor with a file name; it does not look at what `loadFromFile` returns.
unfoldable pub memory_of_file : ℕ → ℕ → Option Text → Option Text → Option MemoryStore
memory_of_file start_addr num_entries image file =
    elim (asserted (prepare_memory image (new_memory start_addr num_entries))) [
      | none ↦ none
      | some mem ↦ some (load_file file mem).0
    ]
