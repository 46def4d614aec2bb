-- ===== src/MemoryStore.antt =====
-- src/MemoryStore.cpp and src/MemoryStore.h: the byte array behind loads, stores and fetches. `at`
-- throws outside the vector; the loops stop there, and what was written before stays.
pub mod Bytes
pub mod Access
pub mod Laws
pub mod Image
pub mod Prepare
pub mod PrepareLaws
pub mod PrepareReturns
pub mod Print
pub mod PrintLaws
pub mod PrintRows
pub mod PrintFaults
mod Tests
use cos375_project.Base.{
  ℕ, zero, suc, ◌+◌, ◌*◌, ◌≡◌, Bool, true, false, ◌||◌, Option, none, some, List, [], ◌∷◌, bit_and,
  bit_or, get_elem?, set, replicate, sub64, add64, shl64, ◌>>>◌, ◌==◌, if◌then◌else◌,
}
use cos375_project.Utilities.{Status, success}

-- `enum MemEntrySize`
abbrev pub byte_size : ℕ
byte_size = 1

abbrev pub half_size : ℕ
half_size = 2

abbrev pub word_size : ℕ
word_size = 4

abbrev pub double_size : ℕ
double_size = 8

pub record MemoryStore : Type 0 where
  pub start_addr : ℕ
  pub mem_arr : List ℕ

-- The `int` that the accesses return: 0 or `-EINVAL`.
pub data Ret : Type 0 where
  zero_ret einval : Ret

-- `MemoryStore(startAddr, numEntries)`, with no file `init_mem_image`.
unfoldable pub new_memory : ℕ → ℕ → MemoryStore
new_memory start_addr num_entries = record {
  start_addr = start_addr;
  mem_arr = replicate num_entries 0;
}

-- The loops of `getOrSetValue`, at byte `i` with `left` bytes to go.
unfoldable pub get_bytes : List ℕ → ℕ → ℕ → ℕ → ℕ → Ret × ℕ
get_bytes arr rel i zero value = (zero_ret, value)
get_bytes arr rel i (suc left) value = elim (get_elem? arr (add64 rel i)) [
  | none ↦ (einval, value)
  | some b ↦ get_bytes arr rel (i + 1) left (bit_or value (shl64 b (i * 8)))
]

unfoldable pub set_bytes : List ℕ → ℕ → ℕ → ℕ → ℕ → Ret × List ℕ
set_bytes arr rel i zero value = (zero_ret, arr)
set_bytes arr rel i (suc left) value = elim (get_elem? arr (add64 rel i)) [
  | none ↦ (einval, arr)
  | some _ ↦
      set_bytes (set arr (add64 rel i) (bit_and (value >>> (i * 8)) 0xff)) rel (i + 1) left value
]

unfoldable pub valid_size : ℕ → Bool
valid_size size = size == byte_size || size == half_size || size == word_size || size == double_size

-- `getOrSetValue`: what it returns, the value that the caller's variable then holds, and the store.
unfoldable pub get_or_set_value : MemoryStore → Bool → ℕ → ℕ → ℕ → (Ret × ℕ) × MemoryStore
get_or_set_value m get address value size =
    if valid_size size
    then (let relative_addr = sub64 address m.start_addr in
        let written = set_bytes m.mem_arr relative_addr 0 size value in
        if get
        then (get_bytes m.mem_arr relative_addr 0 size 0, m)
        else ((written.0, value), record m { mem_arr = written.1 }))
    else ((einval, value), m)

unfoldable pub get_mem_value : MemoryStore → ℕ → ℕ → ℕ → Ret × ℕ
unfolding get_or_set_value
get_mem_value m address value size = (get_or_set_value m true address value size).0

unfoldable pub set_mem_value : MemoryStore → ℕ → ℕ → ℕ → Ret × MemoryStore
unfolding get_or_set_value
set_mem_value m address value size =
    let (r, m') = get_or_set_value m false address value size in (r.0, m')

-- The loop of `loadFromFile` over the bytes of the file from index `i`. A `char` is stored by its
-- low eight bits, and what `setMemValue` returns is not looked at.
unfoldable pub load_bytes : ℕ → List ℕ → MemoryStore → MemoryStore
load_bytes i [] m = m
load_bytes i (c ∷ cs) m = load_bytes (i + 1) cs (set_mem_value m (i * byte_size) c byte_size).1

-- `loadFromFile` for a file that can be opened.
unfoldable pub load_from_file : MemoryStore → List ℕ → MemoryStore × Status
load_from_file m file = (load_bytes 0 file m, success)
