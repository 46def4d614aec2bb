-- ===== src/Cache/Line.antt =====
-- Inserting one line into the order of a set: the newest goes to the front, the oldest to the end,
-- and its tag can be taken out again.
use cos375_project.Base.{
  ℕ, zero, suc, ◌≤◌, ◌<◌, ◌≡◌, ◌≢◌, refl, ap, arith, true, false, List, [], ◌∷◌, ◌++◌, length, take,
  ltb, All, Bool-cases, inl, inr,
}
use cos375_project.Cache.{CacheLine}
use cos375_project.Cache.Reference.{elem, remove}
use cos375_project.Cache.Recency.{Entry, insert_entry, insert_line, by_stamp, tags}

pub insert_newest :
    (s t : ℕ) (r : List Entry) → All (λ e. e.0 < s) r → insert_entry (s, t) r ≡ (s, t) ∷ r
unfolding insert_entry
insert_newest s t [] h = refl
insert_newest s t (e ∷ r) h = ground (arith, h.0)

pub insert_oldest :
    (s t : ℕ) (r : List Entry) → All (λ e. s < e.0) r → insert_entry (s, t) r ≡ r ++ (s, t) ∷ []
unfolding insert_entry
insert_oldest s t [] h = refl
insert_oldest s t (e ∷ r) h = ground (arith, h.0, insert_oldest s t r h.1)

pub tags-append : (r q : List Entry) → tags (r ++ q) ≡ tags r ++ tags q
tags-append [] q = refl
tags-append (e ∷ r) q = ap (◌∷◌ e.1) (tags-append r q)

module _ (t : ℕ) where
  pub remove_absent : (r : List Entry) → All (λ e. e.1 ≢ t) r → remove t (tags r) ≡ tags r
  unfolding remove
  remove_absent [] h = refl
  remove_absent (e ∷ r) h = ground (arith, h.0, remove_absent r h.1)

  pub elem_absent : (r : List Entry) → All (λ e. e.1 ≢ t) r → elem t (tags r) ≡ false
  unfolding elem
  elem_absent [] h = refl
  elem_absent (e ∷ r) h = ground (arith, h.0, elem_absent r h.1)

  pub remove_inserted :
      (s : ℕ) (r : List Entry)
      → All (λ e. e.1 ≢ t) r
      → remove t (tags (insert_entry (s, t) r)) ≡ tags r
  unfolding remove insert_entry
  remove_inserted s [] h = ground arith
  remove_inserted s (e ∷ r) h = ground (arith, h.0, remove_inserted s r h.1)

  pub elem_inserted : (s : ℕ) (r : List Entry) → elem t (tags (insert_entry (s, t) r)) ≡ true
  unfolding elem insert_entry
  elem_inserted s [] = ground arith
  elem_inserted s (e ∷ r) = ground (arith, elem_inserted s r)

pub length-insert_entry : (e : Entry) (r : List Entry) → length (insert_entry e r) ≡ suc (length r)
unfolding insert_entry
length-insert_entry e [] = refl
length-insert_entry e (f ∷ r) = ground (arith, length-insert_entry e r)

-- A fact about every valid line is one about every entry of the order.
module _ (P : Entry → Type 0) where
  All-insert_entry : (e : Entry) (r : List Entry) → P e → All P r → All P (insert_entry e r)
  unfolding insert_entry
  All-insert_entry e [] p h = (p, tt)
  All-insert_entry e (f ∷ r) p h = elim (Bool-cases (ltb f.0 e.0)) [
    | inl y ↦ rw y (p, h)
    | inr n ↦ rw n (h.0, All-insert_entry e r p h.1)
  ]

  pub All-by_stamp :
      (lines : List CacheLine)
      → All (λ l. l.valid ≡ true → P (l.lru_stamp, l.tag)) lines
      → All P (by_stamp lines)
  unfolding by_stamp insert_line
  All-by_stamp [] h = tt
  All-by_stamp (l ∷ lines) h = elim (Bool-cases l.valid) [
    | inl y ↦
        rw y
          (All-insert_entry (l.lru_stamp, l.tag) (by_stamp lines) (h.0 y) (All-by_stamp lines h.1))
    | inr n ↦ rw n (All-by_stamp lines h.1)
  ]

pub length-by_stamp-le : (lines : List CacheLine) → length (by_stamp lines) ≤ length lines
unfolding by_stamp insert_line
length-by_stamp-le [] = omega arith
length-by_stamp-le (l ∷ lines) =
    ground
      (arith, length-by_stamp-le lines, length-insert_entry (l.lru_stamp, l.tag) (by_stamp lines))

pub length-by_stamp_full :
    (lines : List CacheLine)
    → All (λ l. l.valid ≡ true) lines
    → length (by_stamp lines) ≡ length lines
unfolding by_stamp insert_line
length-by_stamp_full [] h = refl
length-by_stamp_full (l ∷ lines) h = ground (
  arith,
  h.0,
  length-by_stamp_full lines h.1,
  length-insert_entry (l.lru_stamp, l.tag) (by_stamp lines),
)

pub length-tags : (r : List Entry) → length (tags r) ≡ length r
length-tags [] = refl
length-tags (e ∷ r) = ap suc (length-tags r)

pub take_all : (n : ℕ) (r : List ℕ) → length r ≤ n → take n r ≡ r
take_all zero [] h = refl
take_all zero (t ∷ r) h = absurd (omega arith)
take_all (suc n) [] h = refl
take_all (suc n) (t ∷ r) h = ap (◌∷◌ t) (take_all n r (omega arith))

pub take-append : (n : ℕ) (r q : List ℕ) → length r ≡ n → take n (r ++ q) ≡ r
take-append zero [] q h = refl
take-append zero (t ∷ r) q h = absurd (omega arith)
take-append (suc n) [] q h = absurd (omega arith)
take-append (suc n) (t ∷ r) q h = ap (◌∷◌ t) (take-append n r q (omega arith))
