-- ===== src/Cache/Update.antt =====
-- One access to one set, against the reference: the set's order moves as the list of its tags does.
use cos375_project.Base.{
  ℕ, suc, ◌+◌, ◌<◌, ◌≡◌, ◌≢◌, arith, Bool, true, false, none, some, List, [], ◌∷◌, ◌++◌, length,
  set, All, sym, length-append,
}
use cos375_project.Cache.{CacheLine, hit_loop, victim}
use cos375_project.Cache.Recency.{
  insert_line, by_stamp, tags, recency, Apart, Apart-sym, IsDistinct, by_stamp_middle,
}
use cos375_project.Cache.Line.{insert_newest, All-by_stamp}

-- A set of `ways` lines whose stamps lie below the next one.
pub record IsCacheSet (ways next : ℕ) (lines : List CacheLine) : Type 0 where
  pub full_width : length lines ≡ ways
  pub positive : 0 < ways
  pub stamps : All (λ l. l.valid ≡ true → l.lru_stamp < next) lines
  pub distinct : IsDistinct lines

abbrev pub fresh_line : ℕ → ℕ → CacheLine
fresh_line tag stamp = record { valid = true; tag = tag; lru_stamp = stamp }

-- What `access` does to its set.
unfoldable pub update : ℕ → ℕ → List CacheLine → List CacheLine × Bool
update tag stamp lines = elim (hit_loop tag stamp lines) [
  | some out ↦ (out, true)
  | none ↦ (set lines (victim lines) (fresh_line tag stamp), false)
]

module _ {A : Type 0} (P : A → Type 0) where
  pub All-middle :
      (before after : List A) (x : A) → All P (before ++ x ∷ after) → P x × All P (before ++ after)
  All-middle [] after x h = h
  All-middle (b ∷ before) after x h = let (p, q) = All-middle before after x h.1 in (p, (h.0, q))

  All-into :
      (before after : List A) (x : A) → P x → All P (before ++ after) → All P (before ++ x ∷ after)
  All-into [] after x p h = (p, h)
  All-into (b ∷ before) after x p h = (h.0, All-into before after x p h.1)

  pub All-left : (before after : List A) → All P (before ++ after) → All P before
  All-left [] after h = tt
  All-left (b ∷ before) after h = (h.0, All-left before after h.1)

pub All-map :
    {A : Type 0} (P Q : A → Type 0) → ((x : A) → P x → Q x) → (xs : List A) → All P xs → All Q xs
All-map P Q f [] h = tt
All-map P Q f (x ∷ xs) h = (f x h.0, All-map P Q f xs h.1)

pub All-both :
    {A : Type 0} (P Q : A → Type 0) (xs : List A) → All P xs → All Q xs → All (λ x. P x × Q x) xs
All-both P Q [] h k = tt
All-both P Q (x ∷ xs) h k = ((h.0, k.0), All-both P Q xs h.1 k.1)

pub IsDistinct-middle :
    (before after : List CacheLine) (l : CacheLine)
    → IsDistinct (before ++ l ∷ after)
    → All (Apart l) (before ++ after) × IsDistinct (before ++ after)
IsDistinct-middle [] after l h = h
IsDistinct-middle (b ∷ before) after l h =
    let (a, d) = IsDistinct-middle before after l h.1 in
    let (first, rest) = All-middle (Apart b) before after l h.0 in
    ((Apart-sym b l first, a), (rest, d))

IsDistinct-into :
    (before after : List CacheLine) (l : CacheLine)
    → All (Apart l) (before ++ after)
    → IsDistinct (before ++ after)
    → IsDistinct (before ++ l ∷ after)
IsDistinct-into [] after l a d = (a, d)
IsDistinct-into (b ∷ before) after l a d = (
  All-into (Apart b) before after l (Apart-sym l b a.0) d.0,
  IsDistinct-into before after l a.1 d.1,
)

-- A set with one line written anew: `m` gets the next stamp, and no other line has its tag.
module _ (before after : List CacheLine) (m : CacheLine) (ways stamp : ℕ) (valid : m.valid ≡ true)
    (stamped : m.lru_stamp ≡ stamp) (width : suc (length (before ++ after)) ≡ ways)
    (stamps : All (λ l. l.valid ≡ true → l.lru_stamp < stamp) (before ++ after))
    (others : All (λ l. l.valid ≡ true → l.tag ≢ m.tag) (before ++ after))
    (distinct : IsDistinct (before ++ after)) where
  apart : All (Apart m) (before ++ after)
  apart =
      All-map (λ l. (l.valid ≡ true → l.lru_stamp < stamp) × (l.valid ≡ true → l.tag ≢ m.tag))
        (Apart m) (λ l h p q. ((λ e. absurd (omega (arith, h.0 q))), (λ e. h.1 q (sym e))))
        (before ++ after)
        (All-both (λ l. l.valid ≡ true → l.lru_stamp < stamp) (λ l. l.valid ≡ true → l.tag ≢ m.tag)
          (before ++ after) stamps others)

  pub written-IsCacheSet : IsCacheSet ways (stamp + 1) (before ++ m ∷ after)
  written-IsCacheSet = record {
    full_width = omega (arith, length-append before (m ∷ after), length-append before after);
    positive = omega arith;
    stamps =
        All-into (λ l. l.valid ≡ true → l.lru_stamp < stamp + 1) before after m (λ _. omega arith)
          (All-map (λ l. l.valid ≡ true → l.lru_stamp < stamp)
            (λ l. l.valid ≡ true → l.lru_stamp < stamp + 1) (λ l h p. omega (arith, h p))
            (before ++ after) stamps);
    distinct = IsDistinct-into before after m apart distinct;
  }

  pub recency_written : recency (before ++ m ∷ after) ≡ m.tag ∷ tags (by_stamp (before ++ after))
  unfolding recency insert_line
  recency_written = rw (
    by_stamp_middle before after m (All-left (Apart m) before after apart),
    insert_line,
    valid,
    stamped,
    insert_newest stamp m.tag (by_stamp (before ++ after))
        (All-by_stamp (λ e. e.0 < stamp) (before ++ after) stamps),
  )
