-- ===== src/Lib.antt =====
-- A RISC-V simulator in two forms: `src/funct.cpp` runs a program an instruction at a time, and
-- `src/cycle.cpp` runs it through a five-stage pipeline with an instruction and a data cache. Both use
-- the instruction semantics of `src/simulator.cpp` and the byte memory of `src/MemoryStore.cpp`; the
-- pipeline asks `src/cache.cpp` whether an access hits, and stalls for the latency of a miss.
--
-- - Base: lists as `std::vector`, words with their wrap-around, C's comparisons. Bits: `&` and `|` as
--   arithmetic. Loop: the `while` loops of both simulators.
-- - Text: characters as codes, what the streams of the standard library print for a number, and `>>`
--   and `getline` on a file.
-- - Utilities: the enumerations and records of `src/Utilities.h`, and `extractBits`, `sext32` and
--   `sext64` of `src/Utilities.cpp`. OpString and Disasm are its disassembler, Dumps the lines of the
--   files of pipeline states and statistics, and `getBaseFilename`.
-- - RegisterInfo: the union of the registers and `dumpRegisterState` of `src/RegisterInfo.h`.
-- - MemoryStore: `getOrSetValue`, `getMemValue`, `setMemValue` and `loadFromFile`. The state is the start
--   address and the list of cells; what a call throws or returns is a value. Prepare is `prepareMemory`
--   with the constructors, and Print is `printMemArray` with `dumpMemoryState`.
-- - Cache: the constructor and `access`. The state is the table of sets with its counters. Reference is
--   what the cache promises, a list of tags per set; Dump is its debug dump.
-- - Simulator: Decode, NextPc, ArithLogic, MemAccess and Stages follow `src/simulator.cpp` from
--   `simFetch` to `simInstruction`; an instruction is the record `Instruction`, and a function that
--   changes registers or memory returns the new machine.
-- - Funct: `src/funct.cpp`. Its state is the machine and the program counter.
-- - Cycle: `src/cycle.cpp`. Its state is the record `CycleState` of the file's static variables. Hazard,
--   Forward, Stages (WB, MEM, EX, ID) and Fetch (IF) follow the body of the loop of `runCycles`, and
--   Step puts them together in the order of the source, WB first, since each stage reads what the
--   stages behind it have just done.
-- - Main: `parseArgs` and `main` of `src/sim_cycle.cpp`, and `main` of `src/sim_funct.cpp`. The
--   directory, that is the contents of the files by their names and the names that can be opened for
--   writing, is an argument; the result is the exit status with the files written.
--
-- Numbers are natural numbers, and each operation that can wrap around in C++ is cut to 64 or 32 bits.
-- The loops without a bound, `runCycles(0)`, `runInstructions(0)` and `runTillHalt`, run on fuel: a
-- round of fuel is a round of the loop, and `none` means that the fuel ran out; a program that does
-- not halt has no result on any fuel. `log2` of a word has 64 halvings, which reach 1.
-- `prepareMemory` reads at least a character in every round but the last two, and the loop of
-- `printMemArray` prints at least a cell in every full row: the fuel that `prepare_memory` and
-- `dump_reg_mem` give is enough.
--
-- Two limits of the definitions lie outside of what the program does. `sext32` and `sext64` at the top
-- bit of their word shift by its whole width, which C++ leaves undefined; the program calls them with
-- sign bits up to 31, and `sext32` only below that. `log2` is exact, where the source goes through
-- `double`, which differs from sizes of 2^49 - 1 on; the configuration file holds 32-bit numbers.
--
-- Not modelled: the messages on the standard streams, and streams that fail while they are read or
-- written.
pub mod Base
pub mod Bits
pub mod RegisterInfo
pub mod Utilities
pub mod MemoryStore
pub mod Cache
pub mod Simulator
pub mod Loop
pub mod Text
pub mod Funct
pub mod Cycle
pub mod Main
