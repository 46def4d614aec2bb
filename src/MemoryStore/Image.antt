-- ===== src/MemoryStore/Image.antt =====
-- `loadFromFile`: the program image in memory, byte by byte.
use cos375_project.Base.{ℕ, ◌+◌, ◌%◌, ◌≤◌, ◌<◌, ◌≡◌, length, get_or, ◌⊎◌, List}
use cos375_project.MemoryStore.{MemoryStore}
use cos375_project.MemoryStore.Bytes.{byte_at}
use cos375_project.MemoryStore.Access.{IsMemory}

-- `out` is `m` with the bytes of the file from index `i`.
pub record IsLoaded (i : ℕ) (file : List ℕ) (m out : MemoryStore) : Type 0 where
  pub start : out.start_addr ≡ m.start_addr
  pub memory : IsMemory out
  pub same_length : length out.mem_arr ≡ length m.mem_arr
  pub inside : (j : ℕ) → j < length file → byte_at out.mem_arr (i + j) ≡ get_or file j 0 % 256
  pub outside :
      (j : ℕ) → (j < i) ⊎ (i + length file ≤ j) → byte_at out.mem_arr j ≡ byte_at m.mem_arr j
