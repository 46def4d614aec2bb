-- ===== src/Cache.antt =====
-- src/cache.cpp and src/cache.h: the set-associative cache with least-recently-used replacement that
-- decides hits and misses; it holds no data.
pub mod Reference
pub mod Recency
pub mod Scan
pub mod Config
pub mod Line
pub mod Update
pub mod Refine
pub mod Access
pub mod Trace
pub mod Dump
mod Tests
use cos375_project.Base.{
  ℕ, zero, suc, ◌+◌, ◌-◌, ◌/◌, ◌^◌, Bool, true, false, not, ◌&&◌, Option, none, some, List, [], ◌∷◌,
  bit_and, get_or, set, replicate, add64, shl64, sub64, ◌>>>◌, ltb, ◌==◌, if◌then◌else◌,
}

pub record CacheConfig : Type 0 where
  pub cache_size : ℕ
  pub block_size : ℕ
  pub ways : ℕ
  pub miss_latency : ℕ

pub data CacheDataType : Type 0 where
  i_cache d_cache : CacheDataType

pub data CacheOperation : Type 0 where
  cache_read cache_write : CacheOperation

-- `Cache::Line`
pub record CacheLine : Type 0 where
  pub valid : Bool
  pub tag : ℕ
  pub lru_stamp : ℕ

pub record Cache : Type 0 where
  pub hits : ℕ
  pub misses : ℕ
  pub type : CacheDataType
  pub config : CacheConfig
  pub num_sets : ℕ
  pub index_bits : ℕ
  pub offset_bits : ℕ
  pub global_lru_counter : ℕ
  pub sets : List (List CacheLine)

-- `log2` cut to an integer, for a word: 64 halvings reach 1.
unfoldable pub log2_fuel : ℕ → ℕ → ℕ
log2_fuel zero n = 0
log2_fuel (suc fuel) n = let rest = log2_fuel fuel (n / 2) in if ltb n 2 then 0 else rest + 1

unfoldable pub log2 : ℕ → ℕ
unfolding log2_fuel
log2 n = log2_fuel 64 n

abbrev pub empty_line : CacheLine
empty_line = record { valid = false; tag = 0; lru_stamp = 0 }

-- The constructor. The divisors of a configuration are not 0.
unfoldable pub new_cache : CacheConfig → CacheDataType → Cache
new_cache config cache_type =
    let num_sets = config.cache_size / config.block_size / config.ways in
    record {
      hits = 0;
      misses = 0;
      type = cache_type;
      config = config;
      num_sets = num_sets;
      index_bits = log2 num_sets;
      offset_bits = log2 config.block_size;
      global_lru_counter = 0;
      sets = replicate num_sets (replicate config.ways empty_line);
    }

-- The loop over the set that looks for the tag, and stamps the first line that has it.
unfoldable pub hit_loop : ℕ → ℕ → List CacheLine → Option (List CacheLine)
hit_loop tag stamp [] = none
hit_loop tag stamp (line ∷ lines) =
    let rest = hit_loop tag stamp lines in
    if line.valid && line.tag == tag
    then some (record line { lru_stamp = stamp } ∷ lines)
    else elim rest [ none ↦ none | some out ↦ some (line ∷ out) ]

-- The position of the first line that is not valid.
unfoldable pub invalid_loop : ℕ → List CacheLine → Option ℕ
invalid_loop i [] = none
invalid_loop i (line ∷ lines) =
    let rest = invalid_loop (i + 1) lines in if not line.valid then some i else rest

-- The scan for the lowest stamp: `pointer` is the position of the best line so far, `best` its stamp.
unfoldable pub lru_loop : ℕ → ℕ → ℕ → List CacheLine → ℕ
lru_loop i pointer best [] = pointer
lru_loop i pointer best (line ∷ lines) =
    let better = ltb line.lru_stamp best in
    lru_loop (i + 1) (if better then i else pointer) (if better then line.lru_stamp else best) lines

-- The position of the line that a miss replaces.
unfoldable pub victim : List CacheLine → ℕ
victim lines = elim (invalid_loop 0 lines) [
  | some i ↦ i
  | none ↦ lru_loop 0 0 (get_or lines 0 empty_line).lru_stamp lines
]

unfoldable pub index_of : Cache → ℕ → ℕ
index_of c address =
    let index_mask = sub64 (shl64 1 c.index_bits) 1 in
    bit_and (address >>> c.offset_bits) index_mask

unfoldable pub tag_of : Cache → ℕ → ℕ
tag_of c address = address >>> (c.offset_bits + c.index_bits)

-- `access`: the new state, and whether it is a hit. It does not look at the operation. An index
-- outside of the table would be undefined behaviour; here it would change no line.
unfoldable pub access : Cache → ℕ → CacheOperation → Cache × Bool
access c address read_write =
    let index = index_of c address in
    let tag = tag_of c address in
    let stamp = add64 c.global_lru_counter 1 in
    let cur_set = get_or c.sets index [] in
    elim (hit_loop tag stamp cur_set) [
      | some lines ↦ (
        record c {
          hits = add64 c.hits 1;
          global_lru_counter = stamp;
          sets = set c.sets index lines;
        },
        true,
      )
      | none ↦
          let fresh : CacheLine = record { valid = true; tag = tag; lru_stamp = stamp } in
          (
            record c {
              misses = add64 c.misses 1;
              global_lru_counter = stamp;
              sets = set c.sets index (set cur_set (victim cur_set) fresh);
            },
            false,
          )
    ]
