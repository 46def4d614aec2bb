-- ===== src/Main/Config.antt =====
-- `parseArgs` of src/sim_cycle.cpp.
use cos375_project.Base.{ℕ, List, [], ◌∷◌, Option, none, some, ◌>>=◌, if◌then◌else◌}
use cos375_project.Text.{Text}
use cos375_project.Text.Stream.{Stream, open_stream, extract, getline}
use cos375_project.Cache.{CacheConfig}

-- `parseNextLine`: `none` where it throws.
unfoldable pub parse_next_line : Stream → Option (ℕ × Stream)
parse_next_line file =
    let (value, after) = extract 10 file 0 in
    if after.fail then none else some (value, getline after)

-- The four lines of a cache.
unfoldable pub parse_config : Stream → Option (CacheConfig × Stream)
parse_config file = do
  (cache_size, s1) ← parse_next_line file
  (block_size, s2) ← parse_next_line s1
  (ways, s3) ← parse_next_line s2
  (miss_latency, s4) ← parse_next_line s3
  some (
    record {
      cache_size = cache_size;
      block_size = block_size;
      ways = ways;
      miss_latency = miss_latency;
    },
    s4,
  )

unfoldable pub parse_configs : Text → Option (CacheConfig × CacheConfig)
unfolding parse_config
parse_configs text = do
  (ic_config, rest) ← parse_config (open_stream text)
  (dc_config, _) ← parse_config rest
  some (ic_config, dc_config)

-- `none` is the `exit` with `ERROR`; the first argument is the name of the program.
unfoldable pub parse_args :
    List Text → (Text → Option Text) → Option (Text × CacheConfig × CacheConfig)
unfolding parse_configs
parse_args (program ∷ input_file ∷ cache_file ∷ []) read = do
  text ← read cache_file
  (ic_config, dc_config) ← parse_configs text
  some (input_file, ic_config, dc_config)
parse_args _ read = none
