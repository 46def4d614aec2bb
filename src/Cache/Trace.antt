-- ===== src/Cache/Trace.antt =====
-- Sequences of accesses from the constructor on: the hits are the reference's, and the counters add
-- up.
use cos375_project.Base.{
  ℕ, zero, suc, ◌+◌, ◌/◌, ◌^◌, ◌<◌, ◌≡◌, refl, ap, ap₂, arith, Bool-cases, inl, inr, length, List,
  [], ◌∷◌, Bool, true, false, get_or, replicate, length-replicate, All-replicate, if◌then◌else◌,
}
use mathlib.Core.Path.{fun_ext}
use native.Mathlib.Nat.{div-le_self}
use cos375_project.Cache.{
  Cache, CacheConfig, CacheDataType, CacheOperation, new_cache, access, empty_line, log2,
}
use cos375_project.Cache.Reference.{hits_of}
use cos375_project.Cache.Recency.{recency, IsDistinct, Apart, by_stamp, insert_line, tags}
use cos375_project.Cache.Config.{log2_bounds}
use cos375_project.Cache.Update.{IsCacheSet}
use cos375_project.Cache.Access.{
  IsCache, held_by, access_counts, access-IsCache, access_hit, held_by-access,
}

-- A sequence of accesses, with the result of each.
unfoldable pub run : Cache → List (ℕ × CacheOperation) → Cache × List Bool
run c [] = (c, [])
run c ((address, op) ∷ rest) =
    let (c', hit) = access c address op in let (last, hits) = run c' rest in (last, hit ∷ hits)

abbrev pub addresses : List (ℕ × CacheOperation) → List ℕ
addresses [] = []
addresses ((address, op) ∷ rest) = address ∷ addresses rest

-- Over any sequence of accesses, exactly those hit that hit in the reference.
run-hits_of :
    (accesses : List (ℕ × CacheOperation)) (c : Cache)
    → IsCache c
    → c.global_lru_counter + length accesses < 2 ^ 64
    → (run c accesses).1
      ≡ hits_of c.offset_bits c.index_bits c.config.ways (held_by c) (addresses accesses)
unfolding run hits_of
run-hits_of [] c is_cache h = refl
run-hits_of ((address, op) ∷ rest) c is_cache h =
    let c' : Cache = (access c address op).0 in
    let more : c.global_lru_counter + 1 < 2 ^ 64 = omega arith in
    let (_, _, counted, same, same_bits, same_offset) = access_counts c address op in
    let ih =
      run-hits_of rest c' (access-IsCache c address op is_cache more) (rw counted (omega arith)) in
    let moved = fun_ext (held_by-access c address op is_cache more) in
    ap₂ ◌∷◌ (access_hit c address op is_cache more) (rw (same, same_bits, same_offset, moved) at ih)

-- A configuration that the constructor can use: no division by 0, and at least one set.
pub record IsConfig (config : CacheConfig) : Type 0 where
  pub some_ways : 0 < config.ways
  pub some_sets : 0 < config.cache_size / config.block_size / config.ways
  pub word : config.cache_size < 2 ^ 64

IsDistinct-replicate : (n : ℕ) → IsDistinct (replicate n empty_line)
IsDistinct-replicate zero = tt
IsDistinct-replicate (suc n) =
    (All-replicate (Apart empty_line) n empty_line (λ p. cc), IsDistinct-replicate n)

by_stamp-replicate : (n : ℕ) → by_stamp (replicate n empty_line) ≡ []
unfolding by_stamp insert_line
by_stamp-replicate zero = refl
by_stamp-replicate (suc n) = by_stamp-replicate n

held-replicate :
    (n ways j : ℕ) → recency (get_or (replicate n (replicate ways empty_line)) j []) ≡ []
unfolding recency by_stamp
held-replicate zero ways j = refl
held-replicate (suc n) ways zero = ap tags (by_stamp-replicate ways)
held-replicate (suc n) ways (suc j) = held-replicate n ways j

module _ (config : CacheConfig) (cache_type : CacheDataType) where
  pub new_cache-IsCache : IsConfig config → IsCache (new_cache config cache_type)
  unfolding new_cache
  new_cache-IsCache ok =
      let sets : ℕ = config.cache_size / config.block_size / config.ways in
      let small : sets < 2 ^ 64 = omega (
        arith,
        div-le_self (config.cache_size / config.block_size) config.ways,
        div-le_self config.cache_size config.block_size,
        ok.word,
      ) in
      record {
        indexed = rw length-replicate (log2_bounds sets ok.some_sets small).0;
        table = rw length-replicate small;
        each =
            All-replicate (IsCacheSet config.ways 1) sets (replicate config.ways empty_line)
              (record {
                full_width = length-replicate config.ways empty_line;
                positive = ok.some_ways;
                stamps =
                    All-replicate (λ l. l.valid ≡ true → l.lru_stamp < 1) config.ways empty_line
                      (λ p. cc);
                distinct = IsDistinct-replicate config.ways;
              });
      }

  held_by-new_cache : (j : ℕ) → held_by (new_cache config cache_type) j ≡ []
  unfolding held_by new_cache recency
  held_by-new_cache j =
      held-replicate (config.cache_size / config.block_size / config.ways) config.ways j

  -- From a new cache of a usable configuration on (at least one way and one set, a size below 2^64)
  -- and over any sequence of fewer than 2^64 accesses, exactly those accesses hit that hit in the
  -- reference, where each set is the list of its tags, the most recently used first.
  pub run-new_cache :
      (accesses : List (ℕ × CacheOperation))
      → IsConfig config
      → length accesses < 2 ^ 64
      → (run (new_cache config cache_type) accesses).1
        ≡ hits_of
            (log2 config.block_size)
            (log2 (config.cache_size / config.block_size / config.ways))
            config.ways
            (λ _. [])
            (addresses accesses)
  unfolding new_cache
  run-new_cache accesses ok h =
      rw (fun_ext held_by-new_cache) at
        (run-hits_of accesses (new_cache config cache_type) (new_cache-IsCache ok) (omega arith))

unfoldable pub count : Bool → List Bool → ℕ
count b [] = 0
count true (x ∷ xs) = (if x then 1 else 0) + count true xs
count false (x ∷ xs) = (if x then 0 else 1) + count false xs

-- Over a sequence of accesses that does not overflow the counters, the hit and miss counters grow
-- by the numbers of hits and misses among the results, which add up to the number of accesses.
pub run_counts :
    (accesses : List (ℕ × CacheOperation)) (c : Cache)
    → c.hits + length accesses < 2 ^ 64
    → c.misses + length accesses < 2 ^ 64
    → let (c', results) = run c accesses in
      (c'.hits ≡ c.hits + count true results)
      × (c'.misses ≡ c.misses + count false results)
      × (count true results + count false results ≡ length accesses)
unfolding run count
run_counts [] c h k = omega arith
run_counts ((address, op) ∷ rest) c h k =
    let c' : Cache = (access c address op).0 in
    let counts = access_counts c address op in
    elim (Bool-cases (access c address op).1) [
      | inl y ↦
          let hits : c'.hits ≡ c.hits + 1 = ground (arith, counts.0) in
          let misses : c'.misses ≡ c.misses = ground (arith, counts.1) in
          rw y (omega (arith, run_counts rest c' (omega arith) (omega arith), hits, misses))
      | inr n ↦
          let hits : c'.hits ≡ c.hits = ground (arith, counts.0) in
          let misses : c'.misses ≡ c.misses + 1 = ground (arith, counts.1) in
          rw n (omega (arith, run_counts rest c' (omega arith) (omega arith), hits, misses))
    ]
