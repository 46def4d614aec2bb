-- ===== src/MemoryStore/PrintFaults.antt =====
-- What `printMemArray` (src/MemoryStore.cpp) returns of a range inside of the array and of one that
-- leaves it.
use cos375_project.Base.{
  ℕ, suc, ◌+◌, ◌*◌, ◌≤◌, ◌<◌, ◌≡◌, refl, arith, true, [], some, length, Bool-cases, inl, inr,
}
use cos375_project.Text.{Text}
use cos375_project.MemoryStore.{MemoryStore, Ret, zero_ret, einval, valid_size}
use cos375_project.MemoryStore.Access.{IsMemory, offset, size_bounds}
use cos375_project.MemoryStore.Print.{print_mem_array}
use cos375_project.MemoryStore.PrintLaws.{table_text, print_rows_inside}
use cos375_project.MemoryStore.PrintRows.{print_rows_outside, print_rows_returns}

module _ (mem : MemoryStore) (memory : IsMemory mem) (start_addr end_addr size per_row : ℕ)
    (sized : valid_size size ≡ true) (some_entries : 1 ≤ per_row) where
  abbrev rel_start : ℕ
  rel_start = offset mem start_addr

  abbrev rel_end : ℕ
  rel_end = offset mem end_addr

  -- On a well-formed memory, for a valid entry size, at least one entry to a row, and a range whose
  -- entries, the last of them started inside of the range, lie inside of the array, printMemArray
  -- succeeds and prints the cells of these entries in rows, each behind its address, with one row
  -- of fuel more than entries.
  pub print_mem_array_inside :
      (entries rows : ℕ)
      → entries ≤ rows
      → rel_start + entries * size ≤ length mem.mem_arr
      → rel_end ≤ rel_start + entries * size
      → rel_start + entries * size < rel_end + size
      → print_mem_array (suc rows) mem start_addr end_addr size per_row
        ≡ some
            (zero_ret, table_text mem.mem_arr size per_row (suc rows) entries rel_start start_addr)
  unfolding print_mem_array
  print_mem_array_inside entries rows few inside ends last = rw sized (
      print_rows_inside mem.mem_arr memory.fits size rel_end (size_bounds size sized).0 per_row
        some_entries rows entries rel_start start_addr few inside (ends, last))

  -- On a well-formed memory, for a valid entry size, at least one entry to a row, and a range that
  -- is not empty and ends past the array, printMemArray returns an error within one row of fuel
  -- more than the array has cells.
  pub print_mem_array_outside :
      (rows : ℕ)
      → rel_start < rel_end
      → length mem.mem_arr < rel_end
      → length mem.mem_arr < rows
      → (text : Text) × (print_mem_array rows mem start_addr end_addr size per_row
          ≡ some (einval, text))
  unfolding print_mem_array
  print_mem_array_outside rows begun beyond enough = rw sized (
      print_rows_outside mem.mem_arr memory.fits size rel_end (size_bounds size sized).0 per_row
        some_entries rows rel_start start_addr (omega arith) begun beyond (omega arith)
        (omega arith))

-- On a well-formed memory, for any range and entry size and at least one entry to a row,
-- printMemArray returns within one row of fuel more than the array has cells.
pub print_mem_array-returns :
    (mem : MemoryStore) (start_addr end_addr size per_row rows : ℕ)
    → IsMemory mem
    → 1 ≤ per_row
    → length mem.mem_arr < rows
    → (r : Ret × Text) × (print_mem_array rows mem start_addr end_addr size per_row ≡ some r)
unfolding print_mem_array
print_mem_array-returns mem start_addr end_addr size per_row rows memory some_entries enough =
    elim (Bool-cases (valid_size size)) [
      | inl sized ↦ rw sized (
          print_rows_returns mem.mem_arr memory.fits size (offset mem end_addr)
            (size_bounds size sized).0 per_row some_entries rows (offset mem start_addr) start_addr
            (omega arith) (omega arith) (omega arith))
      | inr other ↦ rw other ((einval, []), refl)
    ]
