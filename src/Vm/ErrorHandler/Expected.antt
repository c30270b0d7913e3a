-- ===== src/Vm/ErrorHandler/Expected.antt =====
-- src/vm/RuntimeErrorHandler.cpp: the lines that a report of an error should have, where the tables know
-- them: that of the error, those of the callers, and one of the global code.
use simple_virtual_language.Base.{
  ℕ, Bool, true, false, ◌||◌, List, [], ◌∷◌, ◌++◌, Option, none, some,
}
use simple_virtual_language.Base.Text.{Text}
use simple_virtual_language.Vm.ErrorHandler.{
  FunctionMetadata, LineTableMetadata, RuntimeErrorHandler, find_source, get_line_table_metadata,
  get_function_metadata,
}
use simple_virtual_language.Vm.ErrorHandler.Report.{TraceLine, in_front}

infixl 5 ◌>>=◌
abbrev pub ◌>>=◌ : {A B : Type 0} → Option A → (A → Option B) → Option B
none >>= f = none
some a >>= f = f a

module _ (h : RuntimeErrorHandler) where
  abbrev pub line_in : Option Text → ℕ → LineTableMetadata → Option TraceLine
  line_in name id l = do
    path ← find_source id h.source_metadata
    some (record { function_name = name; path = path; line = l.line; column = l.column })

  -- The line of an address in global code.
  unfoldable pub global_line_of : ℕ → Option TraceLine
  unfolding find_source get_line_table_metadata
  global_line_of address = do
    l ← get_line_table_metadata (in_front address) h
    line_in none l.source_id l

  abbrev pub named_line : Option FunctionMetadata → LineTableMetadata → Option TraceLine
  named_line none l = line_in none l.source_id l
  named_line (some f) l = line_in (some f.function_name) f.source_id l

  -- The line of an address, with its function, if it is in one.
  unfoldable pub line_of : ℕ → Option TraceLine
  unfolding find_source get_line_table_metadata get_function_metadata
  line_of address = do
    l ← get_line_table_metadata (in_front address) h
    named_line (get_function_metadata (in_front address) h) l

  unfoldable pub in_no_function : ℕ → Bool
  unfolding get_function_metadata
  in_no_function address = elim (get_function_metadata (in_front address) h) [
    | none ↦ true
    | some f ↦ false
  ]

  unfoldable pub each_line : List ℕ → Option (List TraceLine)
  unfolding line_of
  each_line [] = some []
  each_line (a ∷ rest) = do l ← line_of a; ls ← each_line rest; some (l ∷ ls)

  unfoldable pub any_in_no_function : List ℕ → Bool
  unfolding in_no_function
  any_in_no_function [] = false
  any_in_no_function (a ∷ rest) = in_no_function a || any_in_no_function rest

  -- The global line, if there is none yet.
  unfoldable pub last_line : ℕ → Bool → Option (List TraceLine)
  unfolding global_line_of
  last_line address true = some []
  last_line address false = do l ← global_line_of address; some (l ∷ [])

  unfoldable pub all_but_last : ℕ → List ℕ → List ℕ
  all_but_last first [] = []
  all_but_last first (a ∷ rest) = first ∷ all_but_last a rest

  unfoldable pub last_of : ℕ → List ℕ → ℕ
  last_of first [] = first
  last_of first (a ∷ rest) = last_of a rest

  -- A line for each return address but the last, and a global line for the last one, if none of the
  -- others was in global code.
  unfoldable pub lines_below : ℕ → List ℕ → Option (List TraceLine)
  unfolding each_line any_in_no_function last_line all_but_last last_of
  lines_below first rest = do
    ls ← each_line (all_but_last first rest)
    end ← last_line (last_of first rest) (any_in_no_function (all_but_last first rest))
    some (ls ++ end)

  abbrev pub lines_with : Bool → ℕ → ℕ → List ℕ → Option (List TraceLine)
  lines_with true pc first rest = do l ← global_line_of pc; some (l ∷ [])
  lines_with false pc first rest = do l ← line_of pc; ls ← lines_below first rest; some (l ∷ ls)

  -- The lines for an error at `pc` under the calls with the given return addresses. In global code it is
  -- the only line.
  unfoldable pub expected_lines : ℕ → List ℕ → Option (List TraceLine)
  unfolding global_line_of line_of lines_below in_no_function
  expected_lines pc [] = do l ← global_line_of pc; some (l ∷ [])
  expected_lines pc (first ∷ rest) = lines_with (in_no_function pc) pc first rest

  abbrev pub Place : Type 0
  Place = Text × ℕ × ℕ

  -- The place that the message names.
  unfoldable pub expected_place : ℕ → Option Place
  unfolding find_source get_line_table_metadata
  expected_place pc = do
    l ← get_line_table_metadata (in_front pc) h
    path ← find_source l.source_id h.source_metadata
    some (path, l.line, l.column)
