-- ===== src/Cache/Tests.antt =====
-- Accesses to a cache of two sets of two blocks of 16 bytes.
use cos375_project.Base.{ℕ, ◌+◌, ◌<◌, ◌^◌, ◌≡◌, refl, arith, true, false, List, [], ◌∷◌}
use cos375_project.Text.{codes, concat, number, digits_onto, digit_char}
use cos375_project.Cache.Dump.{cache_text}
use cos375_project.Cache.{
  Cache, CacheConfig, CacheOperation, cache_read, cache_write, d_cache, new_cache, access, log2,
  index_of, tag_of, hit_loop, invalid_loop, lru_loop, victim,
}
use cos375_project.Cache.Reference.{hits_of, use_block}
use cos375_project.Cache.Access.{held_by, held_by-access}
use cos375_project.Cache.Trace.{run, addresses, IsConfig, new_cache-IsCache, run-new_cache}

abbrev two_sets : CacheConfig
two_sets = record { cache_size = 64; block_size = 16; ways = 2; miss_latency = 3 }

two_sets-IsConfig : IsConfig two_sets
two_sets-IsConfig = record { some_ways = omega arith; some_sets = omega arith; word = omega arith }

abbrev empty : Cache
empty = new_cache two_sets d_cache

-- 0 and 64 fill a set, 0 is used again, and 128 takes the place of 64.
abbrev thrash : List (ℕ × CacheOperation)
thrash =
    (0, cache_read)
    ∷ (64, cache_read)
    ∷ (4, cache_write)
    ∷ (128, cache_read)
    ∷ (0, cache_read)
    ∷ (64, cache_read)
    ∷ []

thrash_hits : (run empty thrash).1 ≡ false ∷ false ∷ true ∷ false ∷ true ∷ false ∷ []
unfolding run new_cache access log2 index_of tag_of hit_loop victim invalid_loop lru_loop
thrash_hits = refl

run-new_cache_example :
    (run empty thrash).1 ≡ hits_of (log2 16) (log2 2) 2 (λ _. []) (addresses thrash)
run-new_cache_example = run-new_cache two_sets d_cache thrash two_sets-IsConfig (omega arith)

empty-more : empty.global_lru_counter + 1 < 2 ^ 64
unfolding new_cache
empty-more = omega arith

held_by-access_example :
    held_by (access empty 100 cache_read).0 0
    ≡ use_block empty.offset_bits empty.index_bits empty.config.ways (held_by empty) 100 0
held_by-access_example =
    held_by-access empty 100 cache_read (new_cache-IsCache two_sets d_cache two_sets-IsConfig)
      empty-more 0

-- The dump of a cache of two ways shows 0 for them.
two_ways_text :
    cache_text (record { cache_size = 64; block_size = 16; ways = 2; miss_latency = 3 })
    ≡ codes
        "---------------------\nBegin Register Values\n---------------------\nCache Configuration:\nSize: 64 bytes\nBlock Size: 16 bytes\nWays: 0\nMiss Latency: 3 cycles\n---------------------\nEnd Register Values\n---------------------\n"
unfolding cache_text concat number digits_onto digit_char
two_ways_text = refl
