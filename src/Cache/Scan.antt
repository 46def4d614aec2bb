-- ===== src/Cache/Scan.antt =====
-- The three loops over a set: which line they stop at, as the lines before and after it.
use cos375_project.Base.{
  ℕ, ◌+◌, ◌≤◌, ◌<◌, ◌≡◌, ◌≢◌, refl, ap, arith, true, false, none, some, List, [], ◌∷◌, ◌++◌, length,
  set, ltb, All, Bool-cases, Option-cases, ◌⊎◌, inl, inr, ◌∙◌, ◌&&◌, ◌==◌,
}
use cos375_project.Cache.{CacheLine, hit_loop, invalid_loop, lru_loop, victim}

pub record IsHit (tag stamp : ℕ) (lines out : List CacheLine) : Type 0 where
  pub before : List CacheLine
  pub line : CacheLine
  pub after : List CacheLine
  pub whole : lines ≡ before ++ line ∷ after
  pub valid : line.valid ≡ true
  pub same_tag : line.tag ≡ tag
  pub stamped : out ≡ before ++ record line { lru_stamp = stamp } ∷ after

IsHit-cons :
    {tag stamp : ℕ} {lines out : List CacheLine} (l : CacheLine)
    → IsHit tag stamp lines out
    → IsHit tag stamp (l ∷ lines) (l ∷ out)
IsHit-cons l h = record {
  before = l ∷ h.before;
  line = h.line;
  after = h.after;
  whole = ap (◌∷◌ l) h.whole;
  valid = h.valid;
  same_tag = h.same_tag;
  stamped = ap (◌∷◌ l) h.stamped;
}

module _ (tag stamp : ℕ) where
  pub hit_loop-IsHit :
      (lines out : List CacheLine) → hit_loop tag stamp lines ≡ some out → IsHit tag stamp lines out
  unfolding hit_loop
  hit_loop-IsHit [] out h = cc
  hit_loop-IsHit (l ∷ lines) out h = elim (Bool-cases (l.valid && l.tag == tag)) [
    | inl y ↦ record {
      before = [];
      line = l;
      after = lines;
      whole = refl;
      valid = ground arith;
      same_tag = ground arith;
      stamped = ground arith;
    }
    | inr n ↦ elim (Option-cases (hit_loop tag stamp lines)) [
      | inl e ↦ absurd (ground arith)
      | inr (rest, e) ↦
          let same : l ∷ rest ≡ out = ground arith in
          rw same at (IsHit-cons l (hit_loop-IsHit lines rest e))
    ]
  ]

  pub hit_loop-none :
      (lines : List CacheLine)
      → hit_loop tag stamp lines ≡ none
      → All (λ l. l.valid ≡ true → l.tag ≢ tag) lines
  unfolding hit_loop
  hit_loop-none [] h = tt
  hit_loop-none (l ∷ lines) h = ((λ p q. ground arith), hit_loop-none lines (ground arith))

pub record IsAt (lines : List CacheLine) (position : ℕ) : Type 0 where
  pub before : List CacheLine
  pub line : CacheLine
  pub after : List CacheLine
  pub whole : lines ≡ before ++ line ∷ after
  pub placed : position ≡ length before

invalid_loop-some :
    (i p : ℕ) (lines : List CacheLine)
    → invalid_loop i lines ≡ some p
    → (before : List CacheLine) × (line : CacheLine) × (after : List CacheLine) × (lines
        ≡ before ++ line ∷ after)
      × (p ≡ i + length before)
      × (line.valid ≡ false)
unfolding invalid_loop
invalid_loop-some i p [] h = cc
invalid_loop-some i p (l ∷ lines) h = elim (Bool-cases l.valid) [
  | inl y ↦
      let (before, line, after, whole, placed, bad) =
        invalid_loop-some (i + 1) p lines (ground arith) in
      (l ∷ before, line, after, ap (◌∷◌ l) whole, omega arith, bad)
  | inr n ↦ ([], l, lines, refl, ground arith, n)
]

invalid_loop-none :
    (i : ℕ) (lines : List CacheLine) → invalid_loop i lines ≡ none → All (λ l. l.valid ≡ true) lines
unfolding invalid_loop
invalid_loop-none i [] h = tt
invalid_loop-none i (l ∷ lines) h = (ground arith, invalid_loop-none (i + 1) lines (ground arith))

-- Where the scan ends: it kept its pointer, or moved it to a line with a lower stamp.
data Scanned (i pointer best : ℕ) (lines : List CacheLine) (p : ℕ) : Type 0 where
  kept : p ≡ pointer → All (λ l. best ≤ l.lru_stamp) lines → Scanned i pointer best lines p
  moved :
      (before : List CacheLine) (line : CacheLine) (after : List CacheLine)
      → lines ≡ before ++ line ∷ after
      → p ≡ i + length before
      → line.lru_stamp < best
      → All (λ l. line.lru_stamp ≤ l.lru_stamp) lines
      → Scanned i pointer best lines p

All-le :
    (a b : ℕ) (lines : List CacheLine)
    → a ≤ b
    → All (λ l. b ≤ l.lru_stamp) lines
    → All (λ l. a ≤ l.lru_stamp) lines
All-le a b [] h k = tt
All-le a b (l ∷ lines) h k = (omega arith, All-le a b lines h k.1)

Scanned-stay :
    {i pointer best p : ℕ} {lines : List CacheLine} (l : CacheLine)
    → best ≤ l.lru_stamp
    → Scanned (i + 1) pointer best lines p
    → Scanned i pointer best (l ∷ lines) p
Scanned-stay l h (kept e a) = kept e (h, a)
Scanned-stay l h (moved before line after whole placed lower a) =
    moved (l ∷ before) line after (ap (◌∷◌ l) whole) (omega arith) lower (omega arith, a)

Scanned-move :
    {i pointer best p : ℕ} {lines : List CacheLine} (l : CacheLine)
    → l.lru_stamp < best
    → Scanned (i + 1) i l.lru_stamp lines p
    → Scanned i pointer best (l ∷ lines) p
Scanned-move {lines} l h (kept e a) = moved [] l lines refl (omega arith) h (omega arith, a)
Scanned-move l h (moved before line after whole placed lower a) =
    moved (l ∷ before) line after (ap (◌∷◌ l) whole) (omega arith) (omega arith) (omega arith, a)

lru_loop-Scanned :
    (i pointer best : ℕ) (lines : List CacheLine)
    → Scanned i pointer best lines (lru_loop i pointer best lines)
unfolding lru_loop
lru_loop-Scanned i pointer best [] = kept refl tt
lru_loop-Scanned i pointer best (l ∷ lines) = elim (Bool-cases (ltb l.lru_stamp best)) [
  | inl y ↦
      rw (lru_loop, y)
        (Scanned-move l (ground arith) (lru_loop-Scanned (i + 1) i l.lru_stamp lines))
  | inr n ↦
      rw (lru_loop, n) (Scanned-stay l (ground arith) (lru_loop-Scanned (i + 1) pointer best lines))
]

-- The line that a miss replaces: one that is not valid, or in a full set one with the lowest stamp.
pub record IsReplaceable (lines : List CacheLine) : Type 0 where
  pub before : List CacheLine
  pub line : CacheLine
  pub after : List CacheLine
  pub whole : lines ≡ before ++ line ∷ after
  pub placed : victim lines ≡ length before
  pub reason :
      (line.valid ≡ false)
      ⊎ (All (λ l. l.valid ≡ true) lines × All (λ l. line.lru_stamp ≤ l.lru_stamp) lines)

scan-IsReplaceable :
    (l : CacheLine) (lines : List CacheLine)
    → invalid_loop 0 (l ∷ lines) ≡ none
    → Scanned 0 0 l.lru_stamp (l ∷ lines) (lru_loop 0 0 l.lru_stamp (l ∷ lines))
    → IsReplaceable (l ∷ lines)
unfolding victim
scan-IsReplaceable l lines e (kept p a) = record {
  before = [];
  line = l;
  after = lines;
  whole = refl;
  placed = rw (victim, e) p;
  reason = inr (invalid_loop-none 0 (l ∷ lines) e, a);
}
scan-IsReplaceable l lines e (moved before line after whole placed lower a) = record {
  before = before;
  line = line;
  after = after;
  whole = whole;
  placed = rw (victim, e) (placed ∙ omega arith);
  reason = inr (invalid_loop-none 0 (l ∷ lines) e, a);
}

pub victim-IsReplaceable : (lines : List CacheLine) → 0 < length lines → IsReplaceable lines
victim-IsReplaceable [] h = absurd (omega arith)
victim-IsReplaceable (l ∷ lines) h = elim (Option-cases (invalid_loop 0 (l ∷ lines))) [
  | inl e ↦ scan-IsReplaceable l lines e (lru_loop-Scanned 0 0 l.lru_stamp (l ∷ lines))
  | inr (p, e) ↦
      let (before, line, after, whole, placed, bad) = invalid_loop-some 0 p (l ∷ lines) e in
      record {
        before = before;
        line = line;
        after = after;
        whole = whole;
        placed = unfold victim in rw (victim, e) (omega arith);
        reason = inl bad;
      }
]

pub set-append_length :
    (before after : List CacheLine) (l m : CacheLine)
    → set (before ++ l ∷ after) (length before) m ≡ before ++ m ∷ after
set-append_length [] after l m = refl
set-append_length (b ∷ before) after l m = ap (◌∷◌ b) (set-append_length before after l m)
