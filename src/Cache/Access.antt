-- ===== src/Cache/Access.antt =====
-- The whole cache refines the reference, from the constructor on and over any sequence of accesses.
use cos375_project.Base.{
  ℕ, ◌+◌, ◌%◌, ◌^◌, ◌≤◌, ◌<◌, ◌≡◌, refl, ap, ◌∙◌, arith, Bool-cases, inl, inr, All, length, List,
  [], true, get_or, set, length-set, get_or-set_self, get_or-set_ne, All-get_or, All-set,
  Option-cases, add64, ◌==◌, if◌then◌else◌,
}
use cos375_project.Cache.{Cache, CacheOperation, CacheLine, access, index_of, tag_of, hit_loop}
use cos375_project.Cache.Reference.{set_index, block_tag, use_block, elem}
use cos375_project.Cache.Recency.{recency}
use cos375_project.Cache.Config.{index_of_lem, index_of-lt, tag_of_lem}
use cos375_project.Cache.Update.{IsCacheSet, update, All-map}
use cos375_project.Cache.Refine.{Follows, update-Follows}

pub record IsCache (c : Cache) : Type 0 where
  pub indexed : 2 ^ c.index_bits ≤ length c.sets
  pub table : length c.sets < 2 ^ 64
  pub each : All (IsCacheSet c.config.ways (c.global_lru_counter + 1)) c.sets

-- The abstract view: the tags that each set holds, the most recently used first.
unfoldable pub held_by : Cache → ℕ → List ℕ
held_by c j = recency (get_or c.sets j [])

-- `access`, with its effect on the set named.
access-update :
    (c : Cache) (address : ℕ) (op : CacheOperation)
    → let r =
        update
          (tag_of c address)
          (add64 c.global_lru_counter 1)
          (get_or c.sets (index_of c address) []) in
      ((access c address op).0.sets ≡ set c.sets (index_of c address) r.0)
      × ((access c address op).1 ≡ r.1)
unfolding access update
access-update c address op =
    elim (Option-cases (
      hit_loop (tag_of c address) (add64 c.global_lru_counter 1)
        (get_or c.sets (index_of c address) []))) [
          | inl e ↦ rw (e, access, update) (refl, refl)
          | inr (out, e) ↦ rw (e, access, update) (refl, refl)
        ]

-- What stays, and the counters, on both branches.
pub access_counts :
    (c : Cache) (address : ℕ) (op : CacheOperation)
    → let (c', hit) = access c address op in
      (c'.hits ≡ (if hit then add64 c.hits 1 else c.hits))
      × (c'.misses ≡ (if hit then c.misses else add64 c.misses 1))
      × (c'.global_lru_counter ≡ add64 c.global_lru_counter 1)
      × (c'.config ≡ c.config)
      × (c'.index_bits ≡ c.index_bits)
      × (c'.offset_bits ≡ c.offset_bits)
unfolding access
access_counts c address op =
    elim (Option-cases (
      hit_loop (tag_of c address) (add64 c.global_lru_counter 1)
        (get_or c.sets (index_of c address) []))) [
          | inl e ↦ rw (e, access) (refl, refl, refl, refl, refl, refl)
          | inr (out, e) ↦ rw (e, access) (refl, refl, refl, refl, refl, refl)
        ]

IsCacheSet-next :
    (ways next : ℕ) (lines : List CacheLine)
    → IsCacheSet ways next lines
    → IsCacheSet ways (next + 1) lines
IsCacheSet-next ways next lines s = record {
  full_width = s.full_width;
  positive = s.positive;
  stamps =
      All-map (λ l. l.valid ≡ true → l.lru_stamp < next)
        (λ l. l.valid ≡ true → l.lru_stamp < next + 1) (λ l h p. omega (arith, h p)) lines s.stamps;
  distinct = s.distinct;
}

module _ (c : Cache) (address : ℕ) (op : CacheOperation) (is_cache : IsCache c)
    (more : c.global_lru_counter + 1 < 2 ^ 64) where
  abbrev index : ℕ
  index = set_index c.offset_bits c.index_bits address

  abbrev tag : ℕ
  tag = block_tag c.offset_bits c.index_bits address

  abbrev next : ℕ
  next = c.global_lru_counter + 1

  bits : 2 ^ c.index_bits < 2 ^ 64
  bits = omega (arith, is_cache.indexed, is_cache.table)

  inside : index < length c.sets
  inside =
      let low = rw (index_of_lem c address bits) at (index_of-lt c address bits) in
      omega (arith, low, is_cache.indexed)

  cur_set : IsCacheSet c.config.ways next (get_or c.sets index [])
  cur_set = All-get_or (IsCacheSet c.config.ways next) c.sets index [] is_cache.each inside

  step :
      Follows c.config.ways
        (next + 1)
        tag
        (get_or c.sets index [])
        (update tag next (get_or c.sets index []))
  step = update-Follows c.config.ways next tag (get_or c.sets index []) cur_set

  written :
      ((access c address op).0.sets ≡ set c.sets index (update tag next (get_or c.sets index [])).0)
      × ((access c address op).1 ≡ (update tag next (get_or c.sets index [])).1)
  written =
      let stamp : (c.global_lru_counter + 1) % 2 ^ 64 ≡ next = omega arith in
      rw (index_of_lem c address bits, tag_of_lem c address bits, stamp) at
        (access-update c address op)

  -- An access, with the stamp below 2^64, keeps a cache well formed: every index in the table,
  -- every set of full width with distinct tags and distinct stamps below the next one.
  pub access-IsCache : IsCache (access c address op).0
  access-IsCache =
      let (_, _, counted, same, same_bits, _) = access_counts c address op in
      let stamp : (c.global_lru_counter + 1) % 2 ^ 64 ≡ next = omega arith in
      record {
        indexed = rw (same_bits, written.0, length-set) is_cache.indexed;
        table = rw (written.0, length-set) is_cache.table;
        each =
            rw (same, counted, stamp, written.0)
              (All-set (IsCacheSet c.config.ways (next + 1)) c.sets index
                (update tag next (get_or c.sets index [])).0
                (All-map (IsCacheSet c.config.ways next) (IsCacheSet c.config.ways (next + 1))
                  (IsCacheSet-next c.config.ways next) c.sets is_cache.each)
                step.kept);
      }

  -- In a well-formed cache, with the stamp below 2^64, an access hits exactly when the reference
  -- holds the tag of the address in its set.
  pub access_hit : (access c address op).1 ≡ elem tag (held_by c index)
  unfolding held_by
  access_hit = written.1 ∙ step.hit

  -- In a well-formed cache, with the stamp below 2^64, an access moves the tags of its set as the
  -- reference does, and those of no other set.
  pub held_by-access :
      (j : ℕ)
      → held_by (access c address op).0 j
        ≡ use_block c.offset_bits c.index_bits c.config.ways (held_by c) address j
  unfolding held_by use_block
  held_by-access j = elim (Bool-cases (j == index)) [
    | inl y ↦
        let same : j ≡ index = ground arith in
        rw (y, written.0, same, get_or-set_self c.sets index _ [] inside) step.order
    | inr n ↦ rw (n, written.0) (ap recency (get_or-set_ne c.sets index j _ [] (λ e. ground arith)))
  ]
