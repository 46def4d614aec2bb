-- ===== src/MemoryStore/PrintLaws.antt =====
-- What `printMemArray` (src/MemoryStore.cpp) prints of a range inside of the array.
use cos375_project.Base.{
  ℕ, zero, suc, ◌+◌, ◌-◌, ◌*◌, ◌%◌, ◌^◌, ◌≤◌, ◌<◌, ◌≡◌, refl, sym, ◌∙◌, ap, arith, false, List, [],
  ◌++◌, some, ltb, ◌==◌, ==-eq-false, lt→ltb, if◌then◌else◌, length, get_elem?, get_elem?-eq-get_or,
  add64,
}
use Prim.Native.Nat.{min}
use native.Mathlib.Nat.{mod-eq_of_lt, add-mul, add_assoc, add-zero}
use cos375_project.Text.{Text, codes, hex, pad_left}
use cos375_project.Utilities.Dumps.{endl}
use cos375_project.MemoryStore.{Ret, zero_ret}
use cos375_project.MemoryStore.Bytes.{byte_at}
use cos375_project.MemoryStore.Print.{
  word_width, byte_width, print_bytes, RowEnd, full, done, print_row, print_rows,
}
use native.Mathlib.Decide.{dec_lt}
use mathlib.Core.List.{append-nil}

-- The bytes from index `k` on.
abbrev pub bytes_text : List ℕ → ℕ → ℕ → Text
bytes_text arr k zero = []
bytes_text arr k (suc n) =
    pad_left byte_width b'0' (hex (byte_at arr k)) ++ bytes_text arr (k + 1) n

-- A row of `n` entries from index `k` on.
abbrev pub entries_text : List ℕ → ℕ → ℕ → ℕ → Text
entries_text arr size k zero = endl
entries_text arr size k (suc n) =
    codes "0x" ++ bytes_text arr k size ++ codes " " ++ entries_text arr size (k + size) n

-- The address in front of a row.
abbrev pub row_head : ℕ → Text
row_head cur = codes "0x" ++ pad_left word_width b'0' (hex cur) ++ codes ": "

-- The rows of `n` entries from index `k` on, `cur` being the address of the first; each row but the last
-- has `per_row` entries.
abbrev pub table_text : List ℕ → ℕ → ℕ → ℕ → ℕ → ℕ → ℕ → Text
table_text arr size per_row zero n k cur = []
table_text arr size per_row (suc rows) n k cur =
    if n == 0
    then []
    else row_head cur
      ++ entries_text arr size k (min n per_row)
      ++ table_text arr size per_row rows (n - per_row) (k + per_row * size)
          (add64 cur (size * per_row))

abbrev row_end : ℕ → ℕ → RowEnd
row_end (suc left) zero = done
row_end (suc left) (suc n) = row_end left n
row_end zero n = full

row_end-lt : (left n : ℕ) → n < left → row_end left n ≡ done
row_end-lt zero n h = absurd (omega arith)
row_end-lt (suc left) zero h = refl
row_end-lt (suc left) (suc n) h = row_end-lt left n (omega arith)

row_end-full : (left : ℕ) → row_end left left ≡ full
row_end-full zero = refl
row_end-full (suc left) = row_end-full left

suc-times : (n size : ℕ) → suc n * size ≡ size + n * size
suc-times n size = omega arith

module _ (arr : List ℕ) (fits : length arr < 2 ^ 64) where
  at_in :
      (rel j : ℕ)
      → rel + j < length arr
      → get_elem? arr (add64 rel j) ≡ some (byte_at arr (rel + j))
  at_in rel j h =
      rw (mod-eq_of_lt {n = rel + j} {m = 2 ^ 64} (omega arith))
        (get_elem?-eq-get_or arr (rel + j) 0 h)

  print_bytes_inside :
      (rel j left : ℕ)
      → rel + j + left ≤ length arr
      → print_bytes arr rel j left ≡ (bytes_text arr (rel + j) left, false)
  unfolding print_bytes
  print_bytes_inside rel j zero h = refl
  print_bytes_inside rel j (suc left) h =
      rw
        (
          print_bytes,
          at_in rel j (omega arith),
          print_bytes_inside rel (j + 1) left (omega arith),
          add_assoc rel j 1,
        )
        refl

  module _ (size rel_end : ℕ) (some_size : 1 ≤ size) where
    print_row_inside :
        (left rel n : ℕ)
        → n ≤ left
        → rel + n * size ≤ length arr
        → rel + n * size < rel_end + size
        → (n < left → rel_end ≤ rel + n * size)
        → print_row arr size rel_end left rel
          ≡ (entries_text arr size rel n, row_end left n, rel + n * size)
    unfolding print_row
    print_row_inside zero rel zero few inside last ends =
        ap (λ (after : ℕ). (endl, full, after)) {x = rel} {y = rel + 0 * size} (omega arith)
    print_row_inside zero rel (suc n) few inside last ends = absurd (omega arith)
    print_row_inside (suc left) rel zero few inside last ends =
        let over : ltb rel rel_end ≡ false = ground (arith, ends (omega arith)) in
        rw over
          (ap (λ (after : ℕ). (endl, done, after)) {x = rel} {y = rel + 0 * size} (omega arith))
    print_row_inside (suc left) rel (suc n) few inside last ends =
        let more : suc n * size ≡ size + n * size = suc-times n size in
        let next : (rel + size) % 2 ^ 64 ≡ rel + size = mod-eq_of_lt (omega arith) in
        let bytes : print_bytes arr rel 0 size ≡ (bytes_text arr rel size, false) =
          rw (add-zero rel) at (print_bytes_inside rel 0 size (omega arith)) in
        let rest =
          print_row_inside left (rel + size) n (omega arith) (omega arith) (omega arith)
            (λ h. omega (arith, ends (omega arith))) in
        rw (lt→ltb rel rel_end (omega arith), bytes, next, rest)
          (ap (λ (after : ℕ). (entries_text arr size rel (suc n), row_end left n, after))
            (omega arith))

    -- The entries of the range are `n`: the last starts inside of it.
    abbrev pub IsCovered : ℕ → ℕ → Type 0
    IsCovered rel n = (rel_end ≤ rel + n * size) × (rel + n * size < rel_end + size)

    module _ (per_row : ℕ) (some_entries : 1 ≤ per_row) where
      pub print_rows_end :
          (rows rel cur : ℕ)
          → rel_end ≤ rel
          → print_rows arr size per_row rel_end (suc rows) rel cur ≡ some (zero_ret, [])
      unfolding print_rows
      print_rows_end rows rel cur h =
          let over : ltb rel rel_end ≡ false = ground arith in rw over refl

      pub print_rows_done :
          (rows rel cur after : ℕ) (row : Text)
          → rel < rel_end
          → print_row arr size rel_end per_row rel ≡ (row, done, after)
          → print_rows arr size per_row rel_end (suc rows) rel cur
            ≡ some (zero_ret, row_head cur ++ row)
      unfolding print_rows
      print_rows_done rows rel cur after row begun same =
          rw (lt→ltb rel rel_end begun, ap (λ r. r.1) same, ap (λ r. r.0) same) refl

      pub print_rows_full :
          (rows rel cur after : ℕ) (row text : Text) (ret : Ret)
          → rel < rel_end
          → print_row arr size rel_end per_row rel ≡ (row, full, after)
          → print_rows arr size per_row rel_end rows after (add64 cur (size * per_row))
            ≡ some (ret, text)
          → print_rows arr size per_row rel_end (suc rows) rel cur
            ≡ some (ret, row_head cur ++ row ++ text)
      unfolding print_rows
      print_rows_full rows rel cur after row text ret begun same rest =
          rw
            (
              lt→ltb rel rel_end begun,
              ap (λ r. r.1) same,
              ap (λ r. r.2) same,
              rest,
              ap (λ r. r.0) same,
            )
            refl

      table_short :
          (rows n k cur : ℕ)
          → suc n < per_row
          → table_text arr size per_row (suc (suc rows)) (suc n) k cur
            ≡ row_head cur ++ entries_text arr size k (suc n)
      table_short rows n k cur short =
          let least : min (suc n) per_row ≡ suc n = omega arith in
          let left : suc n - per_row ≡ 0 = omega arith in
          rw (==-eq-false (suc n) 0 (omega arith), least, left)
            (append-nil (row_head cur ++ entries_text arr size k (suc n)))

      table_long :
          (rows n k cur : ℕ)
          → per_row ≤ suc n
          → table_text arr size per_row (suc rows) (suc n) k cur
            ≡ row_head cur
              ++ entries_text arr size k per_row
              ++ table_text arr size per_row rows
                  (suc n - per_row)
                  (k + per_row * size)
                  (add64 cur (size * per_row))
      table_long rows n k cur long =
          let least : min (suc n) per_row ≡ per_row = omega arith in
          rw (==-eq-false (suc n) 0 (omega arith), least) refl

      pub print_rows_inside :
          (rows n rel cur : ℕ)
          → n ≤ rows
          → rel + n * size ≤ length arr
          → IsCovered rel n
          → print_rows arr size per_row rel_end (suc rows) rel cur
            ≡ some (zero_ret, table_text arr size per_row (suc rows) n rel cur)
      print_rows_inside rows zero rel cur few inside (ends, last) =
          print_rows_end rows rel cur (omega arith)
      print_rows_inside zero (suc n) rel cur few inside (ends, last) = absurd (omega arith)
      print_rows_inside (suc rows) (suc n) rel cur few inside (ends, last) =
          let begun : rel < rel_end = omega (arith, suc-times n size) in
          elim (dec_lt (suc n) per_row) [
            | yes short ↦
                let row =
                  print_row_inside per_row rel (suc n) (omega arith) inside last (λ h. ends) in
                print_rows_done (suc rows) rel cur _ _ begun (
                  row
                  ∙ ap (λ how. (entries_text arr size rel (suc n), how, rel + suc n * size))
                      (row_end-lt per_row (suc n) short))
                ∙ ap (λ text. some (zero_ret, text)) (sym (table_short rows n rel cur short))
            | no long ↦
                let d = suc n - per_row in
                let apart : suc n * size ≡ per_row * size + d * size =
                  ap (λ m. m * size) {x = suc n} {y = per_row + d} (omega arith)
                  ∙ add-mul per_row d size in
                let row =
                  print_row_inside per_row rel per_row (omega arith) (omega arith) (omega arith)
                    (λ h. absurd (omega arith)) in
                let rest =
                  print_rows_inside rows d (rel + per_row * size) (add64 cur (size * per_row))
                    (omega arith) (omega arith) (omega arith, omega arith) in
                print_rows_full (suc rows) rel cur _ _ _ _ begun
                  (row
                    ∙ ap (λ how. (entries_text arr size rel per_row, how, rel + per_row * size))
                        (row_end-full per_row))
                  rest
                ∙ ap (λ text. some (zero_ret, text))
                    (sym (table_long (suc rows) n rel cur (omega arith)))
          ]
