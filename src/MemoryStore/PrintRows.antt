-- ===== src/MemoryStore/PrintRows.antt =====
-- How the rows of `printMemArray` (src/MemoryStore.cpp) end.
use cos375_project.Base.{
  ℕ, zero, suc, ◌+◌, ◌-◌, ◌*◌, ◌%◌, ◌^◌, ◌≤◌, ◌<◌, ◌≡◌, ◌⊎◌, refl, sym, ◌∙◌, ap, arith, true, false,
  List, ◌++◌, some, ltb, lt→ltb, length, get_elem?-eq-none, get_elem?-eq-get_or, add64, Bool-cases,
  inl, inr,
}
use native.Mathlib.Decide.{dec_lt}
use native.Mathlib.Nat.{mod-eq_of_lt}
use cos375_project.Text.{Text}
use cos375_project.MemoryStore.{Ret, einval}
use cos375_project.MemoryStore.Print.{
  print_bytes, RowEnd, full, done, thrown, print_row, print_rows,
}
use cos375_project.MemoryStore.PrintLaws.{
  row_head, print_rows_full, print_rows_done, print_rows_end,
}

module _ (arr : List ℕ) (fits : length arr < 2 ^ 64) where
  byte_in :
      (rel j left : ℕ)
      → rel + j < length arr
      → (print_bytes arr rel j (suc left)).1 ≡ (print_bytes arr rel (j + 1) left).1
  unfolding print_bytes
  byte_in rel j left h =
      rw
        (
          print_bytes,
          mod-eq_of_lt {n = rel + j} {m = 2 ^ 64} (omega arith),
          get_elem?-eq-get_or arr (rel + j) 0 h,
        )
        refl

  byte_out :
      (rel j left : ℕ)
      → rel + j < 2 ^ 64
      → length arr ≤ rel + j
      → (print_bytes arr rel j (suc left)).1 ≡ true
  unfolding print_bytes
  byte_out rel j left small h =
      rw
        (
          print_bytes,
          mod-eq_of_lt {n = rel + j} {m = 2 ^ 64} small,
          get_elem?-eq-none arr (rel + j) h,
        )
        refl

  -- An entry that is printed lies inside of the array.
  print_bytes_fit :
      (left rel j : ℕ)
      → rel + j < 2 ^ 64
      → 1 ≤ left
      → (print_bytes arr rel j left).1 ≡ false
      → rel + j + left ≤ length arr
  print_bytes_fit zero rel j small some_left ok = absurd (omega arith)
  print_bytes_fit (suc zero) rel j small some_left ok = elim (dec_lt (rel + j) (length arr)) [
    | yes p ↦ omega arith
    | no p ↦ absurd (cc (byte_out rel j 0 small (omega arith), ok))
  ]
  print_bytes_fit (suc (suc left)) rel j small some_left ok = elim (dec_lt (rel + j) (length arr)) [
    | yes p ↦
        let rest =
          print_bytes_fit (suc left) rel (j + 1) (omega arith) (omega arith)
            (sym (byte_in rel j (suc left) p) ∙ ok) in
        omega arith
    | no p ↦ absurd (cc (byte_out rel j (suc left) small (omega arith), ok))
  ]

  module _ (size rel_end : ℕ) (some_size : 1 ≤ size) where
    -- How a row ends: it throws, it reaches the end of the range, or it goes on inside of the array.
    abbrev Ends : ℕ → Text × RowEnd × ℕ → Type 0
    Ends least row =
        (row.1 ≡ thrown)
        ⊎ (((row.1 ≡ done) × (rel_end ≤ length arr))
            ⊎ ((row.1 ≡ full) × (least ≤ row.2) × (row.2 ≤ length arr)))

    row_step :
        (left rel : ℕ)
        → rel < 2 ^ 64
        → rel < rel_end
        → (rel + size ≤ length arr
            → Ends (rel + size) (print_row arr size rel_end left (rel + size)))
        → Ends (rel + size) (print_row arr size rel_end (suc left) rel)
    unfolding print_row
    row_step left rel small begun rest = elim (Bool-cases (print_bytes arr rel 0 size).1) [
      | inl threw ↦ rw (lt→ltb rel rel_end begun, threw) (inl refl)
      | inr ok ↦
          let inside = print_bytes_fit size rel 0 (omega arith) some_size ok in
          let next : (rel + size) % 2 ^ 64 ≡ rel + size = mod-eq_of_lt (omega arith) in
          rw (lt→ltb rel rel_end begun, ok, next) (rest (omega arith))
    ]

    weaker :
        (row : Text × RowEnd × ℕ) (least more : ℕ) → least ≤ more → Ends more row → Ends least row
    weaker row least more h (inl e) = inl e
    weaker row least more h (inr (inl ends)) = inr (inl ends)
    weaker row least more h (inr (inr (e, low, high))) = inr (inr (e, omega arith, high))

    row_over : (left rel : ℕ) → rel_end ≤ rel → (print_row arr size rel_end (suc left) rel).1 ≡ done
    unfolding print_row
    row_over left rel h = let over : ltb rel rel_end ≡ false = ground arith in rw over refl

    print_row-Ends :
        (left rel : ℕ) → rel ≤ length arr → Ends rel (print_row arr size rel_end left rel)
    print_row-Ends zero rel h = unfold print_row in inr (inr (refl, omega arith, h))
    print_row-Ends (suc left) rel h = elim (dec_lt rel rel_end) [
      | yes begun ↦
          weaker (print_row arr size rel_end (suc left) rel) rel (rel + size) (omega arith) (
            row_step left rel (omega arith) begun
              (λ inside. print_row-Ends left (rel + size) inside))
      | no over ↦ inr (inl (row_over left rel (omega arith), omega arith))
    ]

    module _ (per_row : ℕ) (some_entries : 1 ≤ per_row) where
      print_rows_thrown :
          (rows rel cur : ℕ)
          → rel < rel_end
          → (print_row arr size rel_end per_row rel).1 ≡ thrown
          → (text : Text) × (print_rows arr size per_row rel_end (suc rows) rel cur
              ≡ some (einval, text))
      unfolding print_rows
      print_rows_thrown rows rel cur begun threw = (
        row_head cur ++ (print_row arr size rel_end per_row rel).0,
        rw (lt→ltb rel rel_end begun, threw) refl,
      )

      first_row :
          (rel : ℕ)
          → rel < 2 ^ 64
          → rel < rel_end
          → Ends (rel + size) (print_row arr size rel_end per_row rel)
      first_row rel small begun =
          let e : per_row ≡ suc (per_row - 1) = omega arith in
          rw e (
            row_step (per_row - 1) rel small begun
              (λ inside. print_row-Ends (per_row - 1) (rel + size) inside))

      pub print_rows_outside :
          (rows rel cur : ℕ)
          → rel < 2 ^ 64
          → rel < rel_end
          → length arr < rel_end
          → length arr < rows + rel
          → 1 ≤ rows
          → (text : Text) × (print_rows arr size per_row rel_end rows rel cur ≡ some (einval, text))
      print_rows_outside zero rel cur small begun beyond enough some_rows = absurd (omega arith)
      print_rows_outside (suc rows) rel cur small begun beyond enough some_rows =
          let row = print_row arr size rel_end per_row rel in
          elim (first_row rel small begun) [
            | inl threw ↦ print_rows_thrown rows rel cur begun threw
            | inr (inl (at_end, inside)) ↦ absurd (omega arith)
            | inr (inr (goes_on, low, high)) ↦
                let (text, rest) =
                  print_rows_outside rows row.2 (add64 cur (size * per_row)) (omega arith)
                    (omega arith) beyond (omega arith) (omega arith) in
                (
                  _,
                  print_rows_full arr fits size rel_end some_size per_row some_entries rows rel cur
                      row.2 row.0 text einval begun (ap (λ how. (row.0, how, row.2)) goes_on) rest,
                )
          ]

      -- The loop ends within as many rows as there are cells left, and two more.
      pub print_rows_returns :
          (rows rel cur : ℕ)
          → rel < 2 ^ 64
          → length arr < rows + rel
          → 1 ≤ rows
          → (r : Ret × Text) × (print_rows arr size per_row rel_end rows rel cur ≡ some r)
      print_rows_returns zero rel cur small enough some_rows = absurd (omega arith)
      print_rows_returns (suc rows) rel cur small enough some_rows = elim (dec_lt rel rel_end) [
        | yes begun ↦
            let row = print_row arr size rel_end per_row rel in
            elim (first_row rel small begun) [
              | inl threw ↦
                  let (text, e) = print_rows_thrown rows rel cur begun threw in ((einval, text), e)
              | inr (inl (at_end, inside)) ↦ (
                _,
                print_rows_done arr fits size rel_end some_size per_row some_entries rows rel cur
                    row.2 row.0 begun (ap (λ how. (row.0, how, row.2)) at_end),
              )
              | inr (inr (goes_on, low, high)) ↦
                  let (r, rest) =
                    print_rows_returns rows row.2 (add64 cur (size * per_row)) (omega arith)
                      (omega arith) (omega arith) in
                  (
                    _,
                    print_rows_full arr fits size rel_end some_size per_row some_entries rows rel
                        cur row.2 row.0 r.1 r.0 begun (ap (λ how. (row.0, how, row.2)) goes_on)
                        rest,
                  )
            ]
        | no over ↦ (
          _,
          print_rows_end arr fits size rel_end some_size per_row some_entries rows rel cur
              (omega arith),
        )
      ]
