-- ===== src/Cache/Refine.antt =====
-- A hit and a miss in one set follow the reference.
use cos375_project.Base.{
  ℕ, suc, ◌+◌, ◌≤◌, ◌<◌, ◌≡◌, ◌≢◌, refl, ap, arith, Bool, true, false, none, List, [], ◌∷◌, ◌++◌,
  length, set, take, All, Option-cases, inl, inr, sym, ◌∙◌, length-append,
}
use cos375_project.Cache.{CacheLine, hit_loop, victim}
use cos375_project.Cache.Reference.{elem, touch}
use cos375_project.Cache.Recency.{
  insert_line, by_stamp, tags, recency, Apart, IsDistinct, by_stamp_middle,
}
use cos375_project.Cache.Line.{
  insert_oldest, tags-append, remove_absent, elem_absent, remove_inserted, elem_inserted,
  All-by_stamp, length-by_stamp-le, length-by_stamp_full, length-tags, take_all, take-append,
}
use cos375_project.Cache.Scan.{
  IsHit, hit_loop-IsHit, hit_loop-none, IsReplaceable, victim-IsReplaceable, set-append_length,
}
use cos375_project.Cache.Update.{
  IsCacheSet, fresh_line, update, All-middle, All-left, All-map, All-both, IsDistinct-middle,
  written-IsCacheSet, recency_written,
}

-- What the reference says of a set's step to `out`.
pub record Follows (ways next tag : ℕ) (lines : List CacheLine) (out : List CacheLine × Bool)
    : Type 0 where
  pub kept : IsCacheSet ways next out.0
  pub hit : out.1 ≡ elem tag (recency lines)
  pub order : recency out.0 ≡ touch ways tag (recency lines)

-- A set taken apart at one line.
module _ (before after : List CacheLine) (l : CacheLine) (ways stamp : ℕ)
    (is_set : IsCacheSet ways stamp (before ++ l ∷ after)) where
  abbrev others : List CacheLine
  others = before ++ after

  apart : All (Apart l) others × IsDistinct others
  apart = IsDistinct-middle before after l is_set.distinct

  stamps : All (λ m. m.valid ≡ true → m.lru_stamp < stamp) others
  stamps = (All-middle (λ m. m.valid ≡ true → m.lru_stamp < stamp) before after l is_set.stamps).1

  width : suc (length others) ≡ ways
  width =
      omega (arith, length-append before (l ∷ after), length-append before after, is_set.full_width)

  order : recency (before ++ l ∷ after) ≡ tags (insert_line l (by_stamp others))
  unfolding recency
  order = rw (by_stamp_middle before after l (All-left (Apart l) before after apart.0))

  room : suc (length (tags (by_stamp others))) ≤ ways
  room = omega (arith, length-tags (by_stamp others), length-by_stamp-le others, width)

  -- The line has the tag.
  hit_step :
      (tag : ℕ)
      → l.valid ≡ true
      → l.tag ≡ tag
      → Follows ways
          (stamp + 1)
          tag
          (before ++ l ∷ after)
          (before ++ record l { lru_stamp = stamp } ∷ after, true)
  unfolding insert_line touch
  hit_step tag valid same =
      let m : CacheLine = record l { lru_stamp = stamp } in
      let differ : All (λ k. k.valid ≡ true → k.tag ≢ l.tag) others =
        All-map (Apart l) (λ k. k.valid ≡ true → k.tag ≢ l.tag) (λ k a q e. (a valid q).1 (sym e))
          others apart.0 in
      let absent : All (λ e. e.1 ≢ l.tag) (by_stamp others) =
        All-by_stamp (λ e. e.1 ≢ l.tag) others differ in
      record {
        kept = written-IsCacheSet before after m ways stamp valid refl width stamps differ apart.1;
        hit =
            rw (order, insert_line, valid, ← same)
              (sym (elem_inserted l.tag l.lru_stamp (by_stamp others)));
        order =
            rw
              (
                recency_written before after m ways stamp valid refl width stamps differ apart.1,
                order,
                insert_line,
                valid,
                ← same,
                remove_inserted l.tag l.lru_stamp (by_stamp others) absent,
              )
              (sym (take_all ways (l.tag ∷ tags (by_stamp others)) room));
      }

  -- No line has the tag, and the line `l` is replaced.
  module _ (tag : ℕ) (missing : All (λ m. m.valid ≡ true → m.tag ≢ tag) (before ++ l ∷ after)) where
    absent-All : All (λ e. e.1 ≢ tag) (by_stamp (before ++ l ∷ after))
    absent-All = All-by_stamp (λ e. e.1 ≢ tag) (before ++ l ∷ after) missing

    missing_others : All (λ m. m.valid ≡ true → m.tag ≢ tag) others
    missing_others = (All-middle (λ m. m.valid ≡ true → m.tag ≢ tag) before after l missing).1

    -- The order without `l`, which is what `ways - 1` of the latest tags are.
    touch_drop :
        take ways (tag ∷ tags (insert_line l (by_stamp others))) ≡ tag ∷ tags (by_stamp others)
        → Follows ways
            (stamp + 1)
            tag
            (before ++ l ∷ after)
            (before ++ fresh_line tag stamp ∷ after, false)
    unfolding touch recency
    touch_drop dropped = record {
      kept =
          written-IsCacheSet before after (fresh_line tag stamp) ways stamp refl refl width stamps
            missing_others apart.1;
      hit = sym (elem_absent tag (by_stamp (before ++ l ∷ after)) absent-All);
      order =
          recency_written before after (fresh_line tag stamp) ways stamp refl refl width stamps
            missing_others apart.1
          ∙ sym (
              rw (remove_absent tag (by_stamp (before ++ l ∷ after)) absent-All)
                (ap (λ r. take ways (tag ∷ r)) order ∙ dropped));
    }

    invalid_step :
        l.valid ≡ false
        → Follows ways
            (stamp + 1)
            tag
            (before ++ l ∷ after)
            (before ++ fresh_line tag stamp ∷ after, false)
    invalid_step bad = touch_drop (
        unfold insert_line in
        rw (insert_line, bad) (take_all ways (tag ∷ tags (by_stamp others)) room))

    lowest_step :
        All (λ m. m.valid ≡ true) (before ++ l ∷ after)
        → All (λ m. l.lru_stamp ≤ m.lru_stamp) (before ++ l ∷ after)
        → Follows ways
            (stamp + 1)
            tag
            (before ++ l ∷ after)
            (before ++ fresh_line tag stamp ∷ after, false)
    lowest_step full lowest =
        let (valid, full_others) = All-middle (λ m. m.valid ≡ true) before after l full in
        let low = (All-middle (λ m. l.lru_stamp ≤ m.lru_stamp) before after l lowest).1 in
        let above : All (λ m. m.valid ≡ true → l.lru_stamp < m.lru_stamp) others =
          All-map (λ m. Apart l m × (l.lru_stamp ≤ m.lru_stamp))
            (λ m. m.valid ≡ true → l.lru_stamp < m.lru_stamp)
            (λ m h q. omega (arith, (h.0 valid q).0, h.1)) others
            (All-both (Apart l) (λ m. l.lru_stamp ≤ m.lru_stamp) others apart.0 low) in
        let last =
          insert_oldest l.lru_stamp l.tag (by_stamp others)
            (All-by_stamp (λ e. l.lru_stamp < e.0) others above) in
        let size : length (tag ∷ tags (by_stamp others)) ≡ ways =
          omega (
            arith,
            length-tags (by_stamp others),
            length-by_stamp_full others full_others,
            width,
          ) in
        touch_drop (
          unfold insert_line in
          rw (insert_line, valid, last, tags-append (by_stamp others))
            (take-append ways (tag ∷ tags (by_stamp others)) (l.tag ∷ []) size))

-- One access to a set does what the reference does: it hits exactly when the tag is held, and the
-- order of the tags moves as the reference list does.
pub update-Follows :
    (ways stamp tag : ℕ) (lines : List CacheLine)
    → IsCacheSet ways stamp lines
    → Follows ways (stamp + 1) tag lines (update tag stamp lines)
unfolding update
update-Follows ways stamp tag lines is_set = elim (Option-cases (hit_loop tag stamp lines)) [
  | inl e ↦ rw (e, update) (miss e (victim-IsReplaceable lines (omega arith)))
  | inr (out, e) ↦ rw (e, update) (found out (hit_loop-IsHit tag stamp lines out e))
]
  where
    found :
        (out : List CacheLine)
        → IsHit tag stamp lines out
        → Follows ways (stamp + 1) tag lines (out, true)
    found out h =
        rw (h.whole, h.stamped)
          (hit_step h.before h.after h.line ways stamp (rw h.whole at is_set) tag h.valid
            h.same_tag)

    miss :
        hit_loop tag stamp lines ≡ none
        → IsReplaceable lines
        → Follows ways
            (stamp + 1)
            tag
            lines
            (set lines (victim lines) (fresh_line tag stamp), false)
    miss e v =
        let whole_set = rw v.whole at is_set in
        let missing = rw v.whole at (hit_loop-none tag stamp lines e) in
        rw (v.placed, v.whole, set-append_length v.before v.after v.line (fresh_line tag stamp))
          (elim v.reason [
            | inl bad ↦ invalid_step v.before v.after v.line ways stamp whole_set tag missing bad
            | inr full ↦
                lowest_step v.before v.after v.line ways stamp whole_set tag missing
                  (rw v.whole at full.0) (rw v.whole at full.1)
          ])
