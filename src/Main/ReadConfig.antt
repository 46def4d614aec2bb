-- ===== src/Main/ReadConfig.antt =====
-- `parseArgs` of src/sim_cycle.cpp on a configuration that is written as it wants it.
use cos375_project.Base.{
  ℕ, ◌+◌, ◌≤◌, ◌≡◌, ◌≢◌, refl, arith, ap, false, [], ◌∷◌, ◌++◌, Option, some, ==-eq-false, All,
}
use cos375_project.Text.{Text, dec}
use cos375_project.Text.Stream.{open_stream, is_space, is_empty, max_u32, drop_line, getline}
use cos375_project.Text.ReadBack.{IsSpaced, extract-number}
use cos375_project.Cache.{CacheConfig}
use cos375_project.Main.Config.{parse_next_line, parse_config, parse_configs, parse_args}

-- What may stand behind a number on its line: nothing, or a space and more.
pub record IsComment (comment : Text) : Type 0 where
  pub spaced : IsSpaced comment
  pub one_line : All (λ c. c ≢ b'\n') comment

abbrev pub line_text : ℕ → Text → Text → Text
line_text value comment rest = dec value ++ (comment ++ (b'\n' ∷ rest))

comment-IsSpaced : (comment rest : Text) → IsSpaced comment → IsSpaced (comment ++ (b'\n' ∷ rest))
unfolding is_space
comment-IsSpaced [] rest h = refl
comment-IsSpaced (c ∷ comment) rest h = h

drop_line-comment :
    (comment rest : Text)
    → All (λ c. c ≢ b'\n') comment
    → drop_line (comment ++ (b'\n' ∷ rest)) ≡ (rest, false)
unfolding drop_line
drop_line-comment [] rest h = refl
drop_line-comment (c ∷ comment) rest (h, hs) =
    rw (==-eq-false c b'\n' h) (drop_line-comment comment rest hs)

not_empty : (comment rest : Text) → is_empty (comment ++ (b'\n' ∷ rest)) ≡ false
not_empty [] rest = refl
not_empty (c ∷ comment) rest = refl

getline-comment :
    (comment rest : Text)
    → All (λ c. c ≢ b'\n') comment
    → getline (open_stream (comment ++ (b'\n' ∷ rest))) ≡ open_stream rest
unfolding getline
getline-comment comment rest h = rw (drop_line-comment comment rest h, not_empty comment rest) refl

parse_line :
    (value : ℕ) (comment rest : Text)
    → value ≤ max_u32
    → IsComment comment
    → parse_next_line (open_stream (line_text value comment rest)) ≡ some (value, open_stream rest)
unfolding parse_next_line
parse_line value comment rest h fine =
    let after = comment ++ (b'\n' ∷ rest) in
    let read =
      extract-number 10 (omega arith) (omega arith) [] value after 0 tt h
        (comment-IsSpaced comment rest fine.spaced) in
    rw (read, not_empty comment rest)
      (ap (λ s. some (value, s)) (getline-comment comment rest fine.one_line))

-- The four lines of a cache, from number `first`, in front of a text.
abbrev pub config_lines : CacheConfig → (ℕ → Text) → ℕ → Text → Text
config_lines config comment first rest = line_text config.cache_size (comment first) (
    line_text config.block_size (comment (first + 1)) (
      line_text config.ways (comment (first + 2))
        (line_text config.miss_latency (comment (first + 3)) rest)))

pub record IsConfig (config : CacheConfig) : Type 0 where
  pub cache_size : config.cache_size ≤ max_u32
  pub block_size : config.block_size ≤ max_u32
  pub ways : config.ways ≤ max_u32
  pub miss_latency : config.miss_latency ≤ max_u32

parse_config_lines :
    (config : CacheConfig) (comment : ℕ → Text) (first : ℕ) (rest : Text)
    → IsConfig config
    → ((i : ℕ) → IsComment (comment i))
    → parse_config (open_stream (config_lines config comment first rest))
      ≡ some (config, open_stream rest)
unfolding parse_config
parse_config_lines config comment first rest fits fine =
    let l4 =
      parse_line config.miss_latency (comment (first + 3)) rest fits.miss_latency
        (fine (first + 3)) in
    let t4 = line_text config.miss_latency (comment (first + 3)) rest in
    let l3 = parse_line config.ways (comment (first + 2)) t4 fits.ways (fine (first + 2)) in
    let t3 = line_text config.ways (comment (first + 2)) t4 in
    let l2 =
      parse_line config.block_size (comment (first + 1)) t3 fits.block_size (fine (first + 1)) in
    let t2 = line_text config.block_size (comment (first + 1)) t3 in
    rw (parse_line config.cache_size (comment first) t2 fits.cache_size (fine first), l2, l3, l4)
      refl

-- Two cache configurations of 32-bit numbers, written as eight lines with a number each and behind
-- it nothing or a space and a comment, are read back from the file as they were.
pub parse_args-config_lines :
    (program input_file cache_file : Text) (read : Text → Option Text)
    (ic_config dc_config : CacheConfig) (comment : ℕ → Text)
    → IsConfig ic_config
    → IsConfig dc_config
    → ((i : ℕ) → IsComment (comment i))
    → read cache_file
      ≡ some (config_lines ic_config comment 1 (config_lines dc_config comment 5 []))
    → parse_args (program ∷ input_file ∷ cache_file ∷ []) read
      ≡ some (input_file, ic_config, dc_config)
unfolding parse_args parse_configs
parse_args-config_lines program input_file cache_file read ic_config dc_config comment ic dc fine
      found =
    let second = config_lines dc_config comment 5 [] in
    rw
      (
        found,
        parse_config_lines ic_config comment 1 second ic fine,
        parse_config_lines dc_config comment 5 [] dc fine,
      )
      refl
