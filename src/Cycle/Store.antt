-- ===== src/Cycle/Store.antt =====
-- The data of a store on its way from ID to MEM (src/cycle.cpp).
use cos375_project.Base.{◌≡◌, ◌≢◌, refl, sym, ◌∙◌, arith, true, false}
use cos375_project.Simulator.{Instruction}
use cos375_project.Cycle.Forward.{
  forwards, result_of, forward_from, shadows, forward_ex, forward_store,
}

-- An instruction that writes the register of the store's data.
abbrev pub IsSource : Instruction → Instruction → Type 0
IsSource store older =
    (older.is_nop ≡ false) × (older.writes_rd ≡ true) × (older.rd ≢ 0) × (older.rd ≡ store.rs2)

forward_ex-op2 :
    (store ex mem wb : Instruction)
    → store.reads_rs2 ≡ true
    → IsSource store ex
    → (forward_ex store ex mem wb).op2_val ≡ ex.arith_result
unfolding forward_ex forward_from forwards shadows
forward_ex-op2 store ex mem wb reads (n, w, rd, same) = ground arith

forward_store-op2 :
    (store old_wb : Instruction)
    → store.writes_mem ≡ true
    → IsSource store old_wb
    → (forward_store store old_wb).op2_val ≡ result_of old_wb
unfolding forward_store
forward_store-op2 store old_wb writes (n, w, rd, same) = ground arith

forward_ex-fields :
    (store ex mem wb : Instruction)
    → let done = forward_ex store ex mem wb in
      (done.writes_mem ≡ store.writes_mem) × (done.rs2 ≡ store.rs2)
unfolding forward_ex forward_from
forward_ex-fields store ex mem wb = (refl, refl)

-- A store whose data register is written by the two instructions in front of it gets the arithmetic
-- result of the younger one in EX, and the result of the older one in its place on the way to MEM.
pub store_data_stale :
    (store younger older wb : Instruction)
    → store.reads_rs2 ≡ true
    → store.writes_mem ≡ true
    → IsSource store younger
    → IsSource store older
    → let in_ex = forward_ex store younger older wb in
      (in_ex.op2_val ≡ younger.arith_result)
      × ((forward_store in_ex older).op2_val ≡ result_of older)
store_data_stale store younger older wb reads writes source (n, w, rd, same) =
    let in_ex = forward_ex store younger older wb in
    let (kept_writes, kept_rs2) = forward_ex-fields store younger older wb in
    (
      forward_ex-op2 store younger older wb reads source,
      forward_store-op2 in_ex older (kept_writes ∙ writes) (n, w, rd, same ∙ sym kept_rs2),
    )
