-- ===== src/MemoryStore/PrepareReturns.antt =====
-- `prepareMemory` (src/MemoryStore.cpp) returns on any text.
use cos375_project.Base.{
  ℕ, zero, suc, ◌+◌, ◌≤◌, ◌<◌, ◌≡◌, refl, arith, true, false, Option, none, some, length,
  Bool-cases, inl, inr, if-keeps,
}
use cos375_project.Text.{Text}
use cos375_project.Text.Stream.{Stream, open_stream, extract}
use cos375_project.Text.Shorter.{extract-shorter, extract-failed}
use cos375_project.MemoryStore.{MemoryStore, Ret, zero_ret, einval}
use cos375_project.MemoryStore.Prepare.{prepare_step, prepare_loop, prepare_memory}
use cos375_project.MemoryStore.PrepareLaws.{prepare_loop-stop}

-- A round that leaves the stream good has taken characters off the text.
prepare_step-shorter :
    (s : Stream) (mem : MemoryStore)
    → (prepare_step s mem).1.fail ≡ false
    → length (prepare_step s mem).1.rest < length s.rest
unfolding prepare_step
prepare_step-shorter s mem ok = elim (Bool-cases (extract 16 s 0).1.fail) [
  | inl failed ↦ absurd (cc (extract-failed 16 (extract 16 s 0).1 0 failed, ok))
  | inr first ↦
      omega (arith, extract-shorter 16 s 0 first, extract-shorter 16 (extract 16 s 0).1 0 ok)
]

Returns : Option (Ret × MemoryStore) → Type 0
Returns t = (r : Ret × MemoryStore) × (t ≡ some r)

prepare_loop-stops :
    (fuel : ℕ) (s : Stream) (mem : MemoryStore)
    → s.fail ≡ true
    → 1 ≤ fuel
    → Returns (prepare_loop fuel s mem)
unfolding Returns
prepare_loop-stops zero s mem h large = absurd (omega arith)
prepare_loop-stops (suc fuel) s mem h large = (_, prepare_loop-stop fuel s mem h)

prepare_loop-Returns :
    (fuel : ℕ) (s : Stream) (mem : MemoryStore)
    → length s.rest + 2 ≤ fuel
    → Returns (prepare_loop fuel s mem)
unfolding prepare_loop Returns
prepare_loop-Returns zero s mem large = absurd (omega arith)
prepare_loop-Returns (suc fuel) s mem large =
    let after = (prepare_step s mem).1 in
    let mem' = (prepare_step s mem).2 in
    let rest : Returns (prepare_loop fuel after mem') = elim (Bool-cases after.fail) [
      | inl failed ↦ prepare_loop-stops fuel after mem' failed (omega arith)
      | inr ok ↦ prepare_loop-Returns fuel after mem' (omega (arith, prepare_step-shorter s mem ok))
    ] in
    if-keeps Returns s.fail (some (zero_ret, mem)) _ (_, refl)
      (elim (prepare_step s mem).0
        as (λ ret. Returns (elim ret as (λ _. Option (Ret × MemoryStore)) [
          | einval ↦ some (einval, mem')
          | zero_ret ↦ prepare_loop fuel after mem'
        ])) [ einval ↦ (_, refl) | zero_ret ↦ rest ])

-- On any text of the image file, or none, and any memory, prepareMemory returns within as many
-- rounds as the text has characters and two more.
pub prepare_memory-returns :
    (image : Option Text) (mem : MemoryStore)
    → (r : Ret × MemoryStore) × (prepare_memory image mem ≡ some r)
unfolding prepare_memory Returns
prepare_memory-returns none mem = (_, refl)
prepare_memory-returns (some image) mem =
    prepare_loop-Returns (length image + 2) (open_stream image) mem (omega arith)
