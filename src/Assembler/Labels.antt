-- ===== src/Assembler/Labels.antt =====
-- src/assembler/Assembler.h and Assembler.cpp: label references and the label table.
-- `std::map` is a list of keys with values; the keys not yet defined are a list of keys.
use simple_virtual_language.Base.{ℕ, Bool, true, false, ◌||◌, List, [], ◌∷◌, ◌++◌, if◌then◌else◌}
use simple_virtual_language.Base.Text.{Text, codes, same_text, has_text}
use simple_virtual_language.Assembler.Numbers.{Result, done, failed, assembler_error}

pub data LabelType : Type 0 where
  code_label method_label data_label : LabelType

-- `LabelReference::getKey`.
unfoldable pub get_key : LabelType → Text → Text
get_key code_label name = name ++ b'C' ∷ []
get_key method_label name = name ++ b'M' ∷ []
get_key data_label name = name ++ b'D' ∷ []

-- `label.name.substr(0, label.name.size() - 1)`.
unfoldable pub without_last : Text → Text
without_last [] = []
without_last (c ∷ []) = []
without_last (c ∷ d ∷ s) = c ∷ without_last (d ∷ s)

unfoldable pub get_operand_label_type : Text → LabelType
unfolding same_text
get_operand_label_type mnemonic =
    if same_text mnemonic (codes "push")
      || same_text mnemonic (codes "loadG")
      || same_text mnemonic (codes "storeG")
    then data_label
    else if same_text mnemonic (codes "jmp")
        || same_text mnemonic (codes "jez")
        || same_text mnemonic (codes "jnz")
    then code_label
    else method_label

-- What the first pass has found so far.
pub record Layout : Type 0 where
  pub label_table : List (Text × ℕ)
  pub unhandled_label_refs : List Text
  pub code_section_length : ℕ
  pub data_section_length : ℕ

unfoldable pub erase : Text → List Text → List Text
unfolding same_text
erase key [] = []
erase key (k ∷ keys) = if same_text k key then erase key keys else k ∷ erase key keys

unfoldable pub contains : Text → List Text → Bool
unfolding same_text
contains key [] = false
contains key (k ∷ keys) = if same_text k key then true else contains key keys

unfoldable pub process_label_def : Text → ℕ → Layout → Result Layout
unfolding has_text erase
process_label_def key location layout =
    if has_text key layout.label_table
    then failed assembler_error
    else done (record layout {
      unhandled_label_refs = erase key layout.unhandled_label_refs;
      label_table = (key, location) ∷ layout.label_table;
    })

unfoldable pub process_label_ref : Text → Layout → Layout
unfolding has_text contains
process_label_ref key layout =
    if has_text key layout.label_table || contains key layout.unhandled_label_refs
    then layout
    else record layout { unhandled_label_refs = key ∷ layout.unhandled_label_refs }
