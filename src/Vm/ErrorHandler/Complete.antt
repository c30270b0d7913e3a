-- ===== src/Vm/ErrorHandler/Complete.antt =====
-- src/vm/RuntimeErrorHandler.cpp: where the tables know the addresses, `raiseRuntimeError` reports the lines
-- of Expected, all of them and in their order.
use simple_virtual_language.Base.{
  ℕ, ◌≡◌, refl, sym, ap, ◌∙◌, Bool, true, false, ◌||◌, Option-cases, inl, inr, List, [], ◌∷◌, ◌++◌,
  Option, none, some,
}
use simple_virtual_language.Base.Text.{Text}
use simple_virtual_language.Vm.State.{RuntimeErrorType, language_context, Vm, ok}
use simple_virtual_language.Vm.CallStack.{get_stack_trace, is_call_stack_empty}
use simple_virtual_language.Vm.ErrorHandler.{
  FunctionMetadata, LineTableMetadata, RuntimeErrorHandler, find_source, get_line_table_metadata,
  get_function_metadata,
}
use simple_virtual_language.Vm.ErrorHandler.Report.{
  complete, TraceLine, Trace, reported, then_line, in_front, caller_line, global_line, callers,
  trace_of, language_report, is_internal, raise_runtime_error, handle_runtime_error,
}
use simple_virtual_language.Vm.ErrorHandler.Expected.{
  ◌>>=◌, line_in, global_line_of, line_of, in_no_function, each_line, any_in_no_function, last_line,
  all_but_last, last_of, lines_below, expected_lines, expected_place,
}

-- The return addresses of the calls that are active, outwards.
pub data ActiveCalls (s : Vm) : List ℕ → Type 0 where
  no_call : is_call_stack_empty s ≡ true → ActiveCalls s []
  calls :
      {first : ℕ} {rest : List ℕ} (s' : Vm)
      → is_call_stack_empty s ≡ false
      → get_stack_trace s.fp s ≡ ok (first ∷ rest) s'
      → ActiveCalls s (first ∷ rest)

-- Both steps of a sequence that gives something.
steps :
    {A B : Type 0} (o : Option A) (f : A → Option B) (b : B)
    → (o >>= f) ≡ some b
    → (a : A) × (o ≡ some a) × (f a ≡ some b)
steps none f b h = cc
steps (some a) f b h = (a, refl, h)

then_line_is :
    (h : RuntimeErrorHandler) (name : Option Text) (id : ℕ) (l : LineTableMetadata)
    (line : TraceLine) (rest : Trace)
    → line_in h name id l ≡ some line
    → then_line h name id l.line l.column rest ≡ (line ∷ rest.0, rest.1)
then_line_is h name id l line rest e =
    let (path, found, is) = steps (find_source id h.source_metadata) _ line e in
    let same : record { function_name = name; path = path; line = l.line; column = l.column }
        ≡ line =
      cc in
    rw (found, then_line) (ap (λ (x : TraceLine). (x ∷ rest.0, rest.1)) same)

global_line_is :
    (h : RuntimeErrorHandler) (address : ℕ) (line : TraceLine)
    → global_line_of h address ≡ some line
    → global_line h address ≡ (line ∷ [], complete)
unfolding global_line_of
global_line_is h address line e =
    let (l, found, is) = steps (get_line_table_metadata (in_front address) h) _ line e in
    rw (found, global_line) (then_line_is h none l.source_id l line ([], complete) is)

caller_line_is :
    (h : RuntimeErrorHandler) (address : ℕ) (line : TraceLine) (rest : Trace)
    → line_of h address ≡ some line
    → caller_line h address rest ≡ (line ∷ rest.0, rest.1)
unfolding line_of caller_line
caller_line_is h address line rest e =
    let (l, found, is) = steps (get_line_table_metadata (in_front address) h) _ line e in
    elim (Option-cases (get_function_metadata (in_front address) h)) [
      | inl no_function ↦
          rw (found, no_function, caller_line)
            (then_line_is h none l.source_id l line rest (rw no_function at is))
      | inr (f, there) ↦
          rw (found, there, caller_line)
            (then_line_is h (some f.function_name) f.source_id l line rest (rw there at is))
    ]

-- The loop over the return addresses, once the code was global or not.
callers-lines :
    (h : RuntimeErrorHandler) (global : Bool) (first : ℕ) (rest : List ℕ) (ls end : List TraceLine)
    → each_line h (all_but_last h first rest) ≡ some ls
    → last_line h
        (last_of h first rest)
        (global || any_in_no_function h (all_but_last h first rest))
      ≡ some end
    → callers h global (first ∷ rest) ≡ (ls ++ end, complete)
unfolding callers each_line all_but_last last_of any_in_no_function last_line in_no_function
callers-lines h true first [] [] [] e e' = refl
callers-lines h true first [] [] (x ∷ xs) e e' = cc
callers-lines h true first [] (x ∷ xs) end e e' = cc
callers-lines h false first [] (x ∷ xs) end e e' = cc
callers-lines h false first [] [] end e e' =
    let (line, is, same) = steps (global_line_of h first) _ end e' in
    let is_end : line ∷ [] ≡ end = cc in
    global_line_is h first line is ∙ ap (λ (ls : List TraceLine). (ls, complete)) is_end
callers-lines h true first (other ∷ others) ls end e e' =
    let (line, is, next) = steps (line_of h first) _ ls e in
    let (lines, are, same) = steps (each_line h (all_but_last h other others)) _ ls next in
    let is_ls : line ∷ lines ≡ ls = cc in
    caller_line_is h first line (callers h true (other ∷ others)) is
    ∙ ap (λ (t : Trace). (line ∷ t.0, t.1)) (callers-lines h true other others lines end are e')
    ∙ ap (λ (x : List TraceLine). (x ++ end, complete)) is_ls
callers-lines h false first (other ∷ others) ls end e e' =
    let (line, is, next) = steps (line_of h first) _ ls e in
    let (lines, are, same) = steps (each_line h (all_but_last h other others)) _ ls next in
    let is_ls : line ∷ lines ≡ ls = cc in
    caller_line_is h first line (callers h (in_no_function h first) (other ∷ others)) is
    ∙ ap (λ (t : Trace). (line ∷ t.0, t.1))
        (callers-lines h (in_no_function h first) other others lines end are e')
    ∙ ap (λ (x : List TraceLine). (x ++ end, complete)) is_ls

callers-lines_below :
    (h : RuntimeErrorHandler) (first : ℕ) (rest : List ℕ) (lines : List TraceLine)
    → lines_below h first rest ≡ some lines
    → callers h false (first ∷ rest) ≡ (lines, complete)
unfolding lines_below
callers-lines_below h first rest lines e =
    let (ls, are, next) = steps (each_line h (all_but_last h first rest)) _ lines e in
    let (end, is, same) =
      steps (last_line h (last_of h first rest) (any_in_no_function h (all_but_last h first rest)))
        _ lines next in
    let is_lines : ls ++ end ≡ lines = cc in
    callers-lines h false first rest ls end are is
    ∙ ap (λ (x : List TraceLine). (x, complete)) is_lines

-- The trace in global code.
global_trace :
    (h : RuntimeErrorHandler) (l : LineTableMetadata) (pc : ℕ) (lines : List TraceLine)
    → get_line_table_metadata (in_front pc) h ≡ some l
    → (do line ← global_line_of h pc; some (line ∷ [])) ≡ some lines
    → then_line h none l.source_id l.line l.column ([], complete) ≡ (lines, complete)
global_trace h l pc lines found e =
    let (line, is, same) = steps (global_line_of h pc) _ lines e in
    let is_lines : line ∷ [] ≡ lines = cc in
    let direct : global_line h pc ≡ then_line h none l.source_id l.line l.column ([], complete) =
      rw (found, global_line) refl in
    sym direct ∙ global_line_is h pc line is ∙ ap (λ (x : List TraceLine). (x, complete)) is_lines

-- The trace in a function.
function_trace_is :
    (h : RuntimeErrorHandler) (l : LineTableMetadata) (f : FunctionMetadata) (pc first : ℕ)
    (rest : List ℕ) (lines : List TraceLine)
    → get_line_table_metadata (in_front pc) h ≡ some l
    → get_function_metadata (in_front pc) h ≡ some f
    → (do line ← line_of h pc; ls ← lines_below h first rest; some (line ∷ ls)) ≡ some lines
    → then_line h
        (some f.function_name)
        f.source_id
        l.line
        l.column
        (callers h false (first ∷ rest))
      ≡ (lines, complete)
unfolding caller_line
function_trace_is h l f pc first rest lines found there e =
    let (line, is, next) = steps (line_of h pc) _ lines e in
    let (ls, are, same) = steps (lines_below h first rest) _ lines next in
    let is_lines : line ∷ ls ≡ lines = cc in
    let t = callers h false (first ∷ rest) in
    let direct : caller_line h pc t
        ≡ then_line h (some f.function_name) f.source_id l.line l.column t =
      rw (found, there, caller_line) refl in
    sym direct
    ∙ caller_line_is h pc line t is
    ∙ ap (λ (x : Trace). (line ∷ x.0, x.1)) (callers-lines_below h first rest ls are)
    ∙ ap (λ (x : List TraceLine). (x, complete)) is_lines

trace_of-lines :
    (h : RuntimeErrorHandler) (s : Vm) (addresses : List ℕ) (l : LineTableMetadata)
    (lines : List TraceLine)
    → ActiveCalls s addresses
    → get_line_table_metadata (in_front s.pc) h ≡ some l
    → expected_lines h s.pc addresses ≡ some lines
    → trace_of h l s.fp s ≡ (lines, complete)
unfolding trace_of expected_lines in_no_function
trace_of-lines h s [] l lines (no_call empty) found e =
    rw (empty, trace_of) (global_trace h l s.pc lines found e)
trace_of-lines h s (first ∷ rest) l lines (calls s' active trace) found e =
    elim (Option-cases (get_function_metadata (in_front s.pc) h)) [
      | inl no_function ↦
          rw (active, no_function, trace_of)
            (global_trace h l s.pc lines found
              (rw (no_function, expected_lines, in_no_function) at e))
      | inr (f, there) ↦
          rw (active, there, trace, trace_of)
            (function_trace_is h l f s.pc first rest lines found there
              (rw (there, expected_lines, in_no_function) at e))
    ]

-- An error of the program is reported at the place, and with the lines, that the tables give for it and for
-- the return addresses of the active calls, if the tables give them and the return addresses can be read:
-- the line of the error; for an error in a function the lines of all return addresses but the last; and a
-- global line for the last one, if none of the others was in global code. No line is left out.
pub handle_runtime_error-complete :
    (h : RuntimeErrorHandler) (type : RuntimeErrorType) (s : Vm) (addresses : List ℕ) (path : Text)
    (line column : ℕ) (lines : List TraceLine)
    → is_internal type ≡ false
    → s.error_context ≡ language_context
    → ActiveCalls s addresses
    → expected_place h s.pc ≡ some (path, line, column)
    → expected_lines h s.pc addresses ≡ some lines
    → handle_runtime_error h type s ≡ reported path line column (lines, complete)
unfolding handle_runtime_error raise_runtime_error expected_place
handle_runtime_error-complete h type s addresses path line column lines is_language context active
      place are =
    let (l, found, next) =
      steps (get_line_table_metadata (in_front s.pc) h) _ (path, line, column) place in
    let (p, path_found, same) =
      steps (find_source l.source_id h.source_metadata) _ (path, line, column) next in
    let is_path : p ≡ path = cc in
    let is_line : l.line ≡ line = cc in
    let is_column : l.column ≡ column = cc in
    rw
      (
        is_language,
        context,
        found,
        path_found,
        is_path,
        is_line,
        is_column,
        trace_of-lines h s addresses l lines active found are,
        handle_runtime_error,
        raise_runtime_error,
        language_report,
      )
      refl
