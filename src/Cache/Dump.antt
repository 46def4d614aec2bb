-- ===== src/Cache/Dump.antt =====
-- `Cache::dump` of src/cache.cpp and the printing of a configuration of src/cache.h, as text.
use cos375_project.Base.{Bool, [], ◌∷◌, ◌++◌, Option, none, some, ◌==◌, if◌then◌else◌}
use cos375_project.Text.{Text, codes, dec, concat}
use cos375_project.Utilities.{Status, success, error}
use cos375_project.Utilities.Dumps.{endl}
use cos375_project.Cache.{CacheConfig}

-- `operator<<`
unfoldable pub config_text : CacheConfig → Text
unfolding concat
config_text config = concat (
    codes "CacheConfig { "
    ∷ dec config.cache_size
    ∷ codes ", "
    ∷ dec config.block_size
    ∷ codes ", "
    ∷ dec config.ways
    ∷ codes ", "
    ∷ dec config.miss_latency
    ∷ codes " }"
    ∷ [])

abbrev rule : Text
rule = codes "---------------------" ++ endl

-- The text of the dump. A `bool` is put out as a number.
unfoldable pub cache_text : CacheConfig → Text
unfolding concat
cache_text config = concat (
    rule
    ∷ codes "Begin Register Values"
    ∷ endl
    ∷ rule
    ∷ codes "Cache Configuration:"
    ∷ endl
    ∷ codes "Size: "
    ∷ dec config.cache_size
    ∷ codes " bytes"
    ∷ endl
    ∷ codes "Block Size: "
    ∷ dec config.block_size
    ∷ codes " bytes"
    ∷ endl
    ∷ codes "Ways: "
    ∷ dec (if config.ways == 1 then 1 else 0)
    ∷ endl
    ∷ codes "Miss Latency: "
    ∷ dec config.miss_latency
    ∷ codes " cycles"
    ∷ endl
    ∷ rule
    ∷ codes "End Register Values"
    ∷ endl
    ∷ rule
    ∷ [])

-- The status, and what the file holds then; `opened` tells whether it could be opened.
unfoldable pub dump : CacheConfig → Bool → Status × Option Text
unfolding cache_text
dump config opened = if opened then (success, some (cache_text config)) else (error, none)
