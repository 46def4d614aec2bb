-- ===== src/MemoryStore/PrepareLaws.antt =====
-- What `prepareMemory` (src/MemoryStore.cpp) makes of an image of addresses and values.
use cos375_project.Base.{
  ℕ, suc, ◌+◌, ◌-◌, ◌≤◌, ◌≡◌, refl, ◌∙◌, ap, arith, true, false, List, [], ◌∷◌, ◌++◌, some, length,
  length-append, All,
}
use cos375_project.Text.{Text, hex}
use cos375_project.Text.Stream.{
  Stream, open_stream, is_space, skip_space, max_u32, is_empty, extract_to,
}
use cos375_project.Text.ReadBack.{IsSpaced, extract-number}
use cos375_project.MemoryStore.{MemoryStore, zero_ret, set_mem_value, valid_size, word_size}
use cos375_project.MemoryStore.Access.{IsMemory, IsInside, offset, set_mem_value_inside}
use cos375_project.MemoryStore.Bytes.{length-write_le}
use cos375_project.MemoryStore.Laws.{set_mem_value-IsMemory}
use cos375_project.MemoryStore.Prepare.{prepare_step, prepare_loop, prepare_memory}

-- An image behind some spaces: an address and a value to a line, in hexadecimal.
abbrev pub image_behind : Text → List (ℕ × ℕ) → Text
image_behind spaces [] = spaces
image_behind spaces ((addr, value) ∷ pairs) =
    spaces ++ (hex addr ++ ((b' ' ∷ []) ++ (hex value ++ image_behind (b'\n' ∷ []) pairs)))

abbrev pub image_of : List (ℕ × ℕ) → Text
image_of pairs = image_behind [] pairs

-- The memory after the stores of the pairs, in order.
abbrev pub store_all : List (ℕ × ℕ) → MemoryStore → MemoryStore
store_all [] mem = mem
store_all ((addr, value) ∷ pairs) mem = store_all pairs (set_mem_value mem addr value word_size).1

abbrev pub AreSpaces : Text → Type 0
AreSpaces spaces = All (λ c. is_space c ≡ true) spaces

newline : AreSpaces (b'\n' ∷ [])
unfolding is_space
newline = (refl, tt)

one_space : AreSpaces (b' ' ∷ [])
unfolding is_space
one_space = (refl, tt)

image-IsSpaced : (pairs : List (ℕ × ℕ)) → IsSpaced (image_behind (b'\n' ∷ []) pairs)
unfolding is_space
image-IsSpaced [] = refl
image-IsSpaced (p ∷ pairs) = refl

image-not-empty : (pairs : List (ℕ × ℕ)) → is_empty (image_behind (b'\n' ∷ []) pairs) ≡ false
image-not-empty [] = refl
image-not-empty (p ∷ pairs) = refl

-- The rest of a stream that is still good.
stays_open :
    (n : ℕ) (s : Text)
    → is_empty s ≡ false
    → ◌≡◌ {A = ℕ × Stream}
        (n, record { rest = s; eof = is_empty s; fail = false })
        (n, open_stream s)
stays_open n s h = rw h

read_pair :
    (spaces : Text) (addr value : ℕ) (pairs : List (ℕ × ℕ)) (mem : MemoryStore)
    → AreSpaces spaces
    → addr ≤ max_u32
    → value ≤ max_u32
    → prepare_step (open_stream (image_behind spaces ((addr, value) ∷ pairs))) mem ≡ (
      (set_mem_value mem addr value word_size).0,
      open_stream (image_behind (b'\n' ∷ []) pairs),
      (set_mem_value mem addr value word_size).1,
    )
unfolding prepare_step
read_pair spaces addr value pairs mem hs ha hv =
    let rest = image_behind (b'\n' ∷ []) pairs in
    let first =
      extract-number 16 (omega arith) (omega arith) spaces addr ((b' ' ∷ []) ++ (hex value ++ rest))
        0 hs ha one_space.0 in
    let second =
      extract-number 16 (omega arith) (omega arith) (b' ' ∷ []) value rest 0 one_space hv
        (image-IsSpaced pairs)
      ∙ stays_open value rest (image-not-empty pairs) in
    rw (first, second) refl

only_spaces : (spaces : Text) → AreSpaces spaces → skip_space spaces ≡ []
unfolding skip_space
only_spaces [] h = refl
only_spaces (c ∷ spaces) (h, hs) = rw h (only_spaces spaces hs)

read_end :
    (spaces : Text) (mem : MemoryStore)
    → AreSpaces spaces
    → prepare_step (open_stream spaces) mem ≡ (
      (set_mem_value mem 0 0 word_size).0,
      record { rest = []; eof = true; fail = true },
      (set_mem_value mem 0 0 word_size).1,
    )
unfolding prepare_step extract_to
read_end spaces mem hs = rw (only_spaces spaces hs) refl

image-is-long :
    (pairs : List (ℕ × ℕ)) (spaces : Text) → length pairs ≤ length (image_behind spaces pairs)
image-is-long [] spaces = omega arith
image-is-long ((addr, value) ∷ pairs) spaces =
    let rest = image_behind (b'\n' ∷ []) pairs in
    omega (
      arith,
      image-is-long pairs (b'\n' ∷ []),
      length-append spaces (hex addr ++ ((b' ' ∷ []) ++ (hex value ++ rest))),
      length-append (hex addr) ((b' ' ∷ []) ++ (hex value ++ rest)),
      length-append (hex value) rest,
    )

-- What the loop needs of the memory.
pub record IsTarget (cells : ℕ) (mem : MemoryStore) : Type 0 where
  pub memory : IsMemory mem
  pub start : mem.start_addr ≡ 0
  pub same_length : length mem.mem_arr ≡ cells

-- An entry of an image for a memory of that many cells.
abbrev pub IsEntry : ℕ → ℕ × ℕ → Type 0
IsEntry cells (addr, value) = (addr ≤ max_u32) × (value ≤ max_u32) × (addr + 4 ≤ cells)

module _ (cells : ℕ) (mem : MemoryStore) (target : IsTarget cells mem) (addr value : ℕ)
    (h : addr + 4 ≤ cells) where
  inside : IsInside mem addr 4
  inside = omega (arith, target.start, target.same_length, target.memory.fits)

  set_one : (set_mem_value mem addr value word_size).0 ≡ zero_ret
  unfolding valid_size
  set_one = ap (λ r. r.0) (set_mem_value_inside mem addr value 4 target.memory refl inside)

  set_one-IsTarget : IsTarget cells (set_mem_value mem addr value word_size).1
  unfolding valid_size
  set_one-IsTarget =
      let done = set_mem_value_inside mem addr value 4 target.memory refl inside in
      record {
        memory = set_mem_value-IsMemory mem addr value 4 target.memory refl;
        start = rw done target.start;
        same_length =
            rw done (length-write_le 4 (offset mem addr) value mem.mem_arr ∙ target.same_length);
      }

prepare_loop-step :
    (fuel : ℕ) (s : Stream) (mem : MemoryStore)
    → s.fail ≡ false
    → (prepare_step s mem).0 ≡ zero_ret
    → prepare_loop (suc fuel) s mem
      ≡ prepare_loop fuel (prepare_step s mem).1 (prepare_step s mem).2
unfolding prepare_loop
prepare_loop-step fuel s mem h ok = ground arith

pub prepare_loop-stop :
    (fuel : ℕ) (s : Stream) (mem : MemoryStore)
    → s.fail ≡ true
    → prepare_loop (suc fuel) s mem ≡ some (zero_ret, mem)
unfolding prepare_loop
prepare_loop-stop fuel s mem h = ground arith

prepare_loop-image :
    (pairs : List (ℕ × ℕ)) (spaces : Text) (fuel cells : ℕ) (mem : MemoryStore)
    → AreSpaces spaces
    → All (IsEntry cells) pairs
    → IsTarget cells mem
    → 4 ≤ cells
    → prepare_loop (length pairs + suc (suc fuel)) (open_stream (image_behind spaces pairs)) mem
      ≡ some (zero_ret, (set_mem_value (store_all pairs mem) 0 0 word_size).1)
prepare_loop-image [] spaces fuel cells mem hs entries target room =
    let ends = read_end spaces mem hs in
    let fits = set_one cells mem target 0 0 room in
    ap (λ f. prepare_loop f (open_stream spaces) mem) {x = 0 + suc (suc fuel)} {y = suc (suc fuel)}
      (omega arith)
    ∙ prepare_loop-step (suc fuel) (open_stream spaces) mem refl (ap (λ r. r.0) ends ∙ fits)
    ∙ ap (λ r. prepare_loop (suc fuel) r.1 r.2) ends
    ∙ prepare_loop-stop fuel _ _ refl
prepare_loop-image ((addr, value) ∷ pairs) spaces fuel cells mem hs ((ha, hv, hi), entries) target
      room =
    let read = read_pair spaces addr value pairs mem hs ha hv in
    let fits = set_one cells mem target addr value hi in
    let left = length pairs + suc (suc fuel) in
    ap (λ f. prepare_loop f (open_stream (image_behind spaces ((addr, value) ∷ pairs))) mem)
      {x = length ((addr, value) ∷ pairs) + suc (suc fuel)} {y = suc left} (omega arith)
    ∙ prepare_loop-step left _ mem refl (ap (λ r. r.0) read ∙ fits)
    ∙ ap (λ r. prepare_loop left r.1 r.2) read
    ∙ prepare_loop-image pairs (b'\n' ∷ []) fuel cells _ newline entries
        (set_one-IsTarget cells mem target addr value hi) room

-- For an image of pairs of hexadecimal numbers of 32 bits, an address and a value to a line, whose
-- words fit into a well-formed memory of at least four cells that starts at address 0,
-- prepareMemory succeeds with the memory that storing the pairs in order gives, and then stores the
-- word 0 at address 0.
pub prepare_memory-image :
    (pairs : List (ℕ × ℕ)) (cells : ℕ) (mem : MemoryStore)
    → All (IsEntry cells) pairs
    → IsTarget cells mem
    → 4 ≤ cells
    → (prepare_memory (some (image_of pairs)) mem
        ≡ some (zero_ret, (set_mem_value (store_all pairs mem) 0 0 word_size).1))
unfolding prepare_memory
prepare_memory-image pairs cells mem entries target room =
    let image = image_of pairs in
    let k = length image - length pairs in
    let long = image-is-long pairs [] in
    ap (λ f. prepare_loop f (open_stream image) mem) {x = length image + 2}
      {y = length pairs + suc (suc k)} (omega (arith, long))
    ∙ prepare_loop-image pairs [] k cells mem tt entries target room
