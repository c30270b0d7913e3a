-- ===== src/Vm/Start/Running.antt =====
-- src/vm/VM.cpp: `run`, from the constructor on.
use simple_virtual_language.Base.{ℕ, ◌+◌, ◌<◌, ◌≡◌, ◌∙◌, List, arith}
use simple_virtual_language.Vm.State.{Vm, ok, thrown, undefined_behaviour}
use simple_virtual_language.Vm.ErrorHandler.{RuntimeErrorHandler}
use simple_virtual_language.Vm.Metadata.{Walk, walked, undefined, exhausted, read_metadata}
use simple_virtual_language.Vm.Float.{FloatOps}
use simple_virtual_language.Vm.Memory.Flat.{byte_at}
use simple_virtual_language.Vm.Run.{RunEnd, failed, crashed, run_program}
use simple_virtual_language.Vm.Safety.Invariant.{Inv, CodeKept}
use simple_virtual_language.Vm.Safety.Program.{
  Stops, at_end, at_error, at_limit, nowhere, run_program-CodeKept, run_program-Inv,
}
use simple_virtual_language.Vm.Start.{bytecode_header_size, initial, run}
use simple_virtual_language.Vm.Start.Loaded.{
  Header, Started, file_byte, loaded_with, start-loaded_with,
}

-- The code region ends where the header says, and holds the bytes of the file.
pub record CodeIsFile (bytecode : List ℕ) (end_of_code : ℕ) (t : Vm) : Type 0 where
  pub code_size : t.start_of_data_region + bytecode_header_size ≡ end_of_code + 1
  pub same_bytes :
      (a : ℕ) → a < t.start_of_data_region → byte_at t.page_table a ≡ file_byte bytecode a

code_is_file :
    (bytecode : List ℕ) (c d : ℕ) (s t : Vm)
    → Header bytecode c d
    → Started bytecode c d s
    → CodeKept s t
    → CodeIsFile bytecode c t
code_is_file bytecode c d s t h st kept = record {
  code_size = omega (arith, kept.same_start, st.code_size);
  same_bytes = λ a below.
      kept.same_bytes a (omega (arith, kept.same_start))
      ∙ st.bytes a (omega (arith, kept.same_start, st.code_size, st.data_size, h.data_behind));
}

-- What holds wherever a run stops, however the state in front of it is called.
Stops-with :
    (R : Vm → Vm → Type 0) (Q : Vm → Type 0) (s s' : Vm) (r : RunEnd)
    → ((t : Vm) → R s t → Q t)
    → Stops R s r
    → Stops (λ _ t. Q t) s' r
Stops-with R Q s s' r f (at_end {t = u} su) = at_end (f u su)
Stops-with R Q s s' r f (at_error {t = u} su) = at_error (f u su)
Stops-with R Q s s' r f (at_limit {t = u} su) = at_limit (f u su)
Stops-with R Q s s' r f nowhere = nowhere

-- A run that is over before its first instruction, where the metadata cannot be read, stops nowhere.
Stops-loaded_with :
    (fl : FloatOps) (fuel : ℕ) (Q : Vm → Type 0) (r : Walk RuntimeErrorHandler) (s : Vm)
    → Stops (λ _ t. Q t) initial (run_program fl fuel s)
    → Stops
        (λ _ t. Q t)
        initial
        (elim (loaded_with r s) [
          | ok h t ↦ run_program fl fuel t
          | thrown e t ↦ failed e t
          | undefined_behaviour ↦ crashed
        ])
Stops-loaded_with fl fuel Q (walked h) s goes = goes
Stops-loaded_with fl fuel Q undefined s goes = nowhere
Stops-loaded_with fl fuel Q exhausted s goes = nowhere

-- For a file whose header places its regions in order, and which is as long as its header says:
-- wherever the run stops, at its end, at an error or after any number of instructions, the code
-- region holds the bytes of the file and ends where the header says.
pub run-CodeIsFile :
    (fl : FloatOps) (fuel : ℕ) (bytecode : List ℕ) (c d : ℕ)
    → Header bytecode c d
    → Stops (λ _ t. CodeIsFile bytecode c t) initial (run fl fuel bytecode)
unfolding run
run-CodeIsFile fl fuel bytecode c d h =
    let (s, loaded, st) = start-loaded_with bytecode c d h in
    rw (loaded, run)
      (Stops-loaded_with fl fuel (λ t. CodeIsFile bytecode c t) (read_metadata bytecode) s
        (Stops-with CodeKept (λ t. CodeIsFile bytecode c t) s initial (run_program fl fuel s)
          (λ t kept. code_is_file bytecode c d s t h st kept)
          (run_program-CodeKept fl fuel s st.invariant)))

-- Under the same conditions on the file, the state in which the run stops meets the invariant of the
-- registers and stacks.
pub run-Inv :
    (fl : FloatOps) (fuel : ℕ) (bytecode : List ℕ) (c d : ℕ)
    → Header bytecode c d
    → Stops (λ _ t. Inv t) initial (run fl fuel bytecode)
unfolding run
run-Inv fl fuel bytecode c d h =
    let (s, loaded, st) = start-loaded_with bytecode c d h in
    rw (loaded, run)
      (Stops-loaded_with fl fuel (λ t. Inv t) (read_metadata bytecode) s
        (Stops-with (λ _ t. Inv t) (λ t. Inv t) s initial (run_program fl fuel s) (λ t i. i)
          (run_program-Inv fl fuel s st.invariant)))
