-- ===== src/Cache/Recency.antt =====
-- The abstract view of a set: its valid lines in the order of their stamps, the latest first. Lines
-- with distinct stamps can be inserted in any order.
use cos375_project.Base.{
  ℕ, ◌≡◌, ◌≢◌, refl, ap, arith, true, List, [], ◌∷◌, ◌++◌, ltb, if◌then◌else◌, All, sym, ◌∙◌,
}
use cos375_project.Cache.{CacheLine}

-- A valid line, as its stamp and its tag.
abbrev pub Entry : Type 0
Entry = ℕ × ℕ

unfoldable pub insert_entry : Entry → List Entry → List Entry
insert_entry e [] = e ∷ []
insert_entry e (f ∷ r) = if ltb f.0 e.0 then e ∷ f ∷ r else f ∷ insert_entry e r

unfoldable pub insert_line : CacheLine → List Entry → List Entry
insert_line l r = if l.valid then insert_entry (l.lru_stamp, l.tag) r else r

unfoldable pub by_stamp : List CacheLine → List Entry
by_stamp [] = []
by_stamp (l ∷ lines) = insert_line l (by_stamp lines)

abbrev pub tags : List Entry → List ℕ
tags [] = []
tags (e ∷ r) = e.1 ∷ tags r

-- The tags of a set, the most recently used first.
unfoldable pub recency : List CacheLine → List ℕ
recency lines = tags (by_stamp lines)

-- Two valid lines have different stamps and different tags.
abbrev pub Apart : CacheLine → CacheLine → Type 0
Apart l m = l.valid ≡ true → m.valid ≡ true → (l.lru_stamp ≢ m.lru_stamp) × (l.tag ≢ m.tag)

abbrev pub IsDistinct : List CacheLine → Type 0
IsDistinct [] = Unit
IsDistinct (l ∷ lines) = All (Apart l) lines × IsDistinct lines

insert_entry_comm :
    (e f : Entry) (r : List Entry)
    → e.0 ≢ f.0
    → insert_entry e (insert_entry f r) ≡ insert_entry f (insert_entry e r)
unfolding insert_entry
insert_entry_comm e f [] ne = ground arith
insert_entry_comm e f (g ∷ r) ne = ground (arith, insert_entry_comm e f r ne)

insert_line_comm :
    (l m : CacheLine) (r : List Entry)
    → Apart l m
    → insert_line l (insert_line m r) ≡ insert_line m (insert_line l r)
unfolding insert_line
insert_line_comm l m r a =
    ground (arith, a, insert_entry_comm (l.lru_stamp, l.tag) (m.lru_stamp, m.tag) r)

pub Apart-sym : (l m : CacheLine) → Apart l m → Apart m l
Apart-sym l m a p q = ((λ e. (a q p).0 (sym e)), (λ e. (a q p).1 (sym e)))

pub by_stamp_middle :
    (before after : List CacheLine) (l : CacheLine)
    → All (Apart l) before
    → by_stamp (before ++ l ∷ after) ≡ insert_line l (by_stamp (before ++ after))
unfolding by_stamp
by_stamp_middle [] after l a = refl
by_stamp_middle (m ∷ before) after l a =
    ap (insert_line m) (by_stamp_middle before after l a.1)
    ∙ insert_line_comm m l (by_stamp (before ++ after)) (Apart-sym l m a.0)
