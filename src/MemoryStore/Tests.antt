-- ===== src/MemoryStore/Tests.antt =====
-- Runs of src/MemoryStore.cpp on a memory of sixteen bytes.
use cos375_project.Base.{
  ◌+◌, ◌≤◌, ◌<◌, ◌≡◌, refl, arith, inr, ℕ, some, List, [], ◌∷◌, replicate, All-replicate, ◌↔◌,
}
use cos375_project.MemoryStore.{
  MemoryStore, Ret, zero_ret, einval, set_bytes, valid_size, get_or_set_value, get_mem_value,
  word_size, set_mem_value,
}
use cos375_project.MemoryStore.Bytes.{write_le}
use cos375_project.MemoryStore.Access.{IsMemory, set_mem_value_outside}
use cos375_project.MemoryStore.Laws.{
  access-IsInside_iff, get-set_mem_value, get-set_mem_value_apart,
}
use cos375_project.Text.{Text, codes, pad_left, number, digits_onto, digit_char}
use cos375_project.MemoryStore.PrepareReturns.{prepare_memory-returns}
use cos375_project.MemoryStore.Prepare.{prepare_memory}
use cos375_project.MemoryStore.PrepareLaws.{image_of, store_all, prepare_memory-image}
use cos375_project.MemoryStore.Print.{print_bytes, print_row, print_rows, print_mem_array}
use cos375_project.MemoryStore.PrintLaws.{table_text}
use cos375_project.MemoryStore.PrintFaults.{
  print_mem_array_inside, print_mem_array_outside, print_mem_array-returns,
}

abbrev sixteen : MemoryStore
sixteen = record { start_addr = 0; mem_arr = replicate 16 0 }

sixteen-IsMemory : IsMemory sixteen
sixteen-IsMemory = record {
  fits = omega arith;
  bytes = All-replicate (λ b. b < 256) 16 0 (omega arith);
}

stored_word :
    (set_mem_value sixteen 4 0x12345678 4).1.mem_arr
    ≡ 0 ∷ 0 ∷ 0 ∷ 0 ∷ 0x78 ∷ 0x56 ∷ 0x34 ∷ 0x12 ∷ replicate 8 0
unfolding set_mem_value get_or_set_value set_bytes valid_size
stored_word = refl

get-set_mem_value_example :
    get_mem_value (set_mem_value sixteen 4 0x1234567890 4).1 4 0 4 ≡ (zero_ret, 0x34567890)
unfolding valid_size
get-set_mem_value_example =
    get-set_mem_value sixteen 4 0x1234567890 4 sixteen-IsMemory refl 0 (omega arith)

get-set_mem_value_apart_example :
    get_mem_value (set_mem_value sixteen 4 7 4).1 8 0 8 ≡ get_mem_value sixteen 8 0 8
unfolding valid_size
get-set_mem_value_apart_example =
    get-set_mem_value_apart sixteen 4 7 4 sixteen-IsMemory refl 8 0 8 refl (omega arith)
      (omega arith) (inr (omega arith))

access-IsInside_iff_example :
    (((get_mem_value sixteen 13 0 4).0 ≡ zero_ret) ↔ (13 + 4 ≤ 16))
    × (((set_mem_value sixteen 13 7 4).0 ≡ zero_ret) ↔ (13 + 4 ≤ 16))
unfolding valid_size
access-IsInside_iff_example = access-IsInside_iff sixteen 13 7 4 sixteen-IsMemory refl 0

set_mem_value_outside_example :
    set_mem_value sixteen 14 0x01020304 4
    ≡ (einval, record sixteen { mem_arr = write_le sixteen.mem_arr 14 2 0x01020304 })
unfolding valid_size
set_mem_value_outside_example =
    set_mem_value_outside sixteen 14 0x01020304 4 sixteen-IsMemory refl (λ h. omega arith)

-- An image of one word.
abbrev one_word : List (ℕ × ℕ)
one_word = (4, 0x12345678) ∷ []

prepare_memory-image_example :
    prepare_memory (some (image_of one_word)) sixteen
    ≡ some (zero_ret, (set_mem_value (store_all one_word sixteen) 0 0 word_size).1)
prepare_memory-image_example =
    prepare_memory-image one_word 16 sixteen ((omega arith, omega arith, omega arith), tt)
      (record { memory = sixteen-IsMemory; start = refl; same_length = refl }) (omega arith)

prepare_memory-returns_example :
    (r : Ret × MemoryStore) × (prepare_memory (some (codes "10 zz")) sixteen ≡ some r)
prepare_memory-returns_example = prepare_memory-returns (some (codes "10 zz")) sixteen

print_mem_array_inside_example :
    print_mem_array 6 sixteen 0 10 4 2 ≡ some (zero_ret, table_text sixteen.mem_arr 4 2 6 3 0 0)
unfolding valid_size
print_mem_array_inside_example =
    print_mem_array_inside sixteen sixteen-IsMemory 0 10 4 2 refl (omega arith) 3 5 (omega arith)
      (omega arith) (omega arith) (omega arith)

print_mem_array_outside_example :
    (text : Text) × (print_mem_array 18 sixteen 0 20 4 2 ≡ some (einval, text))
unfolding valid_size
print_mem_array_outside_example =
    print_mem_array_outside sixteen sixteen-IsMemory 0 20 4 2 refl (omega arith) 18 (omega arith)
      (omega arith) (omega arith)

print_mem_array-returns_example : (r : Ret × Text) × (print_mem_array 17 sixteen 8 3 4 5 ≡ some r)
print_mem_array-returns_example =
    print_mem_array-returns sixteen 8 3 4 5 17 sixteen-IsMemory (omega arith) (omega arith)

-- Eight bytes as a row of two words.
printed_row :
    print_mem_array 18 sixteen 0 8 4 2
    ≡ some (zero_ret, codes "0x00000000: 0x00000000 0x00000000 \n")
unfolding print_mem_array print_rows print_row print_bytes pad_left number digits_onto digit_char
    valid_size
printed_row = refl
