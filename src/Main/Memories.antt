-- ===== src/Main/Memories.antt =====
-- The memory that the constructor of `MemoryStore` makes from the files, and its dump at the end.
use cos375_project.Base.{
  ℕ, zero, suc, ◌+◌, ◌*◌, ◌^◌, ◌<◌, ◌≡◌, refl, ◌∙◌, arith, true, [], ◌∷◌, Option, none, some,
  if-keeps, length, length-replicate, replicate,
}
use cos375_project.Text.{Text}
use cos375_project.Text.Stream.{Stream, open_stream}
use cos375_project.MemoryStore.{
  MemoryStore, Ret, zero_ret, einval, new_memory, set_mem_value, valid_size, byte_size, word_size,
  load_bytes, load_from_file,
}
use cos375_project.MemoryStore.Bytes.{IsBytes}
use cos375_project.MemoryStore.Laws.{set_mem_value-IsMemory}
use cos375_project.MemoryStore.Prepare.{
  prepare_step, prepare_loop, prepare_memory, asserted, load_file, memory_of_file,
}
use cos375_project.Simulator.Memory.{IsMemoryOf, set_mem_value-length}

valid_word : valid_size word_size ≡ true
unfolding valid_size
valid_word = refl

valid_byte : valid_size byte_size ≡ true
unfolding valid_size
valid_byte = refl

module _ (cells : ℕ) where
  set_mem_value-IsMemoryOf :
      (mem : MemoryStore) (address value size : ℕ)
      → valid_size size ≡ true
      → IsMemoryOf cells mem
      → IsMemoryOf cells (set_mem_value mem address value size).1
  set_mem_value-IsMemoryOf mem address value size sized h = record {
    memory = set_mem_value-IsMemory mem address value size h.memory sized;
    count = set_mem_value-length mem address value size h.memory sized ∙ h.count;
  }

  replicate-IsBytes : (n : ℕ) → IsBytes (replicate n 0)
  replicate-IsBytes zero = tt
  replicate-IsBytes (suc n) = (omega arith, replicate-IsBytes n)

  new_memory-IsMemoryOf : (start : ℕ) → cells < 2 ^ 64 → IsMemoryOf cells (new_memory start cells)
  unfolding new_memory
  new_memory-IsMemoryOf start h = record {
    memory = record { fits = rw length-replicate h; bytes = replicate-IsBytes cells };
    count = length-replicate cells 0;
  }

  prepare_step-IsMemoryOf :
      (s : Stream) (mem : MemoryStore)
      → IsMemoryOf cells mem
      → IsMemoryOf cells (prepare_step s mem).2
  unfolding prepare_step
  prepare_step-IsMemoryOf s mem h = set_mem_value-IsMemoryOf mem _ _ word_size valid_word h

  -- Every memory that a result may hold.
  Holds : Option (Ret × MemoryStore) → Type 0
  Holds none = Unit
  Holds (some (ret, mem)) = IsMemoryOf cells mem

  prepare_loop-Holds :
      (fuel : ℕ) (s : Stream) (mem : MemoryStore)
      → IsMemoryOf cells mem
      → Holds (prepare_loop fuel s mem)
  unfolding prepare_loop Holds
  prepare_loop-Holds zero s mem h = tt
  prepare_loop-Holds (suc fuel) s mem h =
      let next = (prepare_step s mem).1 in
      let mem' = (prepare_step s mem).2 in
      let kept = prepare_step-IsMemoryOf s mem h in
      let rest = prepare_loop-Holds fuel next mem' kept in
      if-keeps Holds s.fail (some (zero_ret, mem)) _ h
        (elim (prepare_step s mem).0
          as (λ ret. Holds (elim ret as (λ _. Option (Ret × MemoryStore)) [
            | einval ↦ some (einval, mem')
            | zero_ret ↦ prepare_loop fuel next mem'
          ])) [ einval ↦ kept | zero_ret ↦ rest ])

  load_bytes-IsMemoryOf :
      (file : Text) (i : ℕ) (mem : MemoryStore)
      → IsMemoryOf cells mem
      → IsMemoryOf cells (load_bytes i file mem)
  unfolding load_bytes
  load_bytes-IsMemoryOf [] i mem h = h
  load_bytes-IsMemoryOf (c ∷ file) i mem h =
      load_bytes-IsMemoryOf file (i + 1) _
        (set_mem_value-IsMemoryOf mem (i * byte_size) c byte_size valid_byte h)

  load_file-IsMemoryOf :
      (file : Option Text) (mem : MemoryStore)
      → IsMemoryOf cells mem
      → IsMemoryOf cells (load_file file mem).0
  unfolding load_file load_from_file
  load_file-IsMemoryOf none mem h = h
  load_file-IsMemoryOf (some file) mem h = load_bytes-IsMemoryOf file 0 mem h

  asserted-IsMemoryOf :
      (t : Option (Ret × MemoryStore)) (mem : MemoryStore)
      → Holds t
      → asserted t ≡ some mem
      → IsMemoryOf cells mem
  unfolding asserted Holds
  asserted-IsMemoryOf none mem h e = absurd cc
  asserted-IsMemoryOf (some (zero_ret, found)) mem h e = let same : found ≡ mem = cc in rw same at h
  asserted-IsMemoryOf (some (einval, found)) mem h e = absurd cc

  prepare_memory-Holds :
      (image : Option Text) (mem : MemoryStore)
      → IsMemoryOf cells mem
      → Holds (prepare_memory image mem)
  unfolding prepare_memory Holds
  prepare_memory-Holds none mem h = h
  prepare_memory-Holds (some image) mem h =
      prepare_loop-Holds (length image + 2) (open_stream image) mem h

  from_prepared :
      (t : Option MemoryStore) (file : Option Text) (mem : MemoryStore)
      → ((prepared : MemoryStore) → t ≡ some prepared → IsMemoryOf cells prepared)
      → (elim t as (λ _. Option MemoryStore) [ none ↦ none | some m ↦ some (load_file file m).0 ])
        ≡ some mem
      → IsMemoryOf cells mem
  from_prepared none file mem h e = absurd cc
  from_prepared (some prepared) file mem h e =
      let same : (load_file file prepared).0 ≡ mem = cc in
      rw same at (load_file-IsMemoryOf file prepared (h prepared refl))

  -- The constructor gives a memory of bytes.
  pub memory_of_file-IsMemoryOf :
      (start : ℕ) (image file : Option Text) (mem : MemoryStore)
      → cells < 2 ^ 64
      → memory_of_file start cells image file ≡ some mem
      → IsMemoryOf cells mem
  unfolding memory_of_file
  memory_of_file-IsMemoryOf start image file mem fits e =
      from_prepared (asserted (prepare_memory image (new_memory start cells))) file mem
        (λ prepared found.
          asserted-IsMemoryOf _ prepared
            (prepare_memory-Holds image _ (new_memory-IsMemoryOf start fits)) found)
        e
