-- ===== src/Vm/Metadata/Walks.antt =====
-- src/vm/VM.cpp: the walks over the metadata tables end, since each entry moves the index on.
use simple_virtual_language.Base.{
  ℕ, zero, suc, ◌+◌, ◌-◌, ◌^◌, ◌≤◌, ◌<◌, ◌≡◌, ◌≢◌, subst, Bool, true, false, Bool-cases,
  Option-cases, inl, inr, List, [], ◌∷◌, Option, none, some, leb, ltb, length, get_elem?, arith,
}
use simple_virtual_language.Base.Text.{Text}
use simple_virtual_language.Vm.State.{u32}
use simple_virtual_language.Vm.ErrorHandler.{RuntimeErrorHandler}
use simple_virtual_language.Vm.FileHeader.{header_field}
use simple_virtual_language.Vm.Metadata.{
  Walk, walked, undefined, exhausted, ◌>>=◌, field_loop, field, text_loop, sized_text, Body,
  read_source, read_function, read_line, walk, header_or_undefined, empty_handler, read_metadata,
}

-- What holds of a result, if there is one, where the rounds are not used up.
abbrev Ends : {A : Type 0} → (A → Type 0) → Walk A → Type 0
Ends P (walked a) = P a
Ends P undefined = Unit
Ends P exhausted = ⊥

Ends-bind :
    {A B : Type 0} (P : A → Type 0) (Q : B → Type 0) (r : Walk A) (f : A → Walk B)
    → Ends P r
    → ((a : A) → P a → Ends Q (f a))
    → Ends Q (r >>= f)
Ends-bind P Q (walked a) f p next = next a p
Ends-bind P Q undefined f p next = tt
Ends-bind P Q exhausted f p next = p

Ends-mono :
    {A : Type 0} (P Q : A → Type 0) (r : Walk A) → ((a : A) → P a → Q a) → Ends P r → Ends Q r
Ends-mono P Q (walked a) weaken p = weaken a p
Ends-mono P Q undefined weaken p = tt
Ends-mono P Q exhausted weaken p = p

abbrev Ended : {A : Type 0} → Walk A → Type 0
Ended {A} r = Ends (λ (a : A). Unit {0}) r

Ended-then :
    {A B : Type 0} (r : Walk A) (f : A → Walk B)
    → Ended r
    → ((a : A) → Ended (f a))
    → Ended (r >>= f)
Ended-then {A} {B} r f h next =
    Ends-bind (λ (a : A). Unit {0}) (λ (b : B). Unit {0}) r f h (λ a u. next a)

index_in_range : (bytecode : List ℕ) (i b : ℕ) → get_elem? bytecode i ≡ some b → i < length bytecode
index_in_range [] i b h = cc
index_in_range (c ∷ s) zero b h = omega arith
index_in_range (c ∷ s) (suc i) b h = omega (arith, index_in_range s i b h)

module _ (bytecode : List ℕ) (short : length bytecode < 2 ^ 32) where
  -- `n` bytes from an index on are read, and there.
  abbrev There : ℕ → ℕ → Type 0
  There n at = 1 ≤ n → at + n ≤ length bytecode

  one_more :
      (n at i b : ℕ)
      → at + i < 2 ^ 32
      → get_elem? bytecode (u32 (at + i)) ≡ some b
      → at + i < length bytecode
  one_more n at i b h is =
      let same : u32 (at + i) ≡ at + i = omega arith in
      index_in_range bytecode (at + i) b (subst (λ (k : ℕ). get_elem? bytecode k ≡ some b) same is)

  There-more :
      (n at i : ℕ) → There n (at + (i + 1)) → at + i < length bytecode → There (suc n) (at + i)
  There-more zero at i t here = λ l. omega (arith, here)
  There-more (suc n) at i t here = λ l. omega (arith, t (omega arith))

  field_loop-Ends :
      (n i at v : ℕ)
      → at + i < 2 ^ 32
      → Ends (λ (r : ℕ). There n (at + i)) (field_loop n i at bytecode v)
  unfolding field_loop
  field_loop-Ends zero i at v h = λ l. absurd (omega arith)
  field_loop-Ends (suc n) i at v h = elim (Option-cases (get_elem? bytecode (u32 (at + i)))) [
    | inl e ↦ rw (e, field_loop) tt
    | inr (b, e) ↦
        let here : at + i < length bytecode = one_more n at i b h e in
        rw (e, field_loop)
          (Ends-mono _ _ (field_loop n (i + 1) at bytecode _) (λ r t. There-more n at i t here)
            (field_loop-Ends n (i + 1) at _ (omega arith)))
  ]

  text_loop-Ends :
      (n i at : ℕ)
      → at + i < 2 ^ 32
      → Ends (λ (r : Text). There n (at + i)) (text_loop n i at bytecode)
  unfolding text_loop
  text_loop-Ends zero i at h = λ l. absurd (omega arith)
  text_loop-Ends (suc n) i at h = elim (Option-cases (get_elem? bytecode (u32 (at + i)))) [
    | inl e ↦ rw (e, text_loop) tt
    | inr (b, e) ↦
        let here : at + i < length bytecode = one_more n at i b h e in
        rw (e, text_loop)
          (Ends-bind _ _ (text_loop n (i + 1) at bytecode) _
            (text_loop-Ends n (i + 1) at (omega arith)) (λ r t. There-more n at i t here))
  ]

  field-Ends : (n at : ℕ) → at < 2 ^ 32 → Ends (λ (r : ℕ). There n at) (field n bytecode at)
  unfolding field
  field-Ends n at h =
      Ends-mono _ _ (field_loop n 0 at bytecode 0) (λ r t l. omega (arith, t l))
        (field_loop-Ends n 0 at 0 (omega arith))

  sized_part :
      (size at : ℕ) (too_long : Bool)
      → at + 4 ≤ length bytecode
      → Ends
          (λ (r : Text × ℕ). (at + 4 ≤ r.1) × (r.1 ≤ length bytecode))
          (do
            text ← elim too_long [
              | Bool.true ↦ undefined
              | Bool.false ↦ text_loop size 0 (u32 (at + 4)) bytecode
            ]
            walked (text, u32 (u32 (at + 4) + size)))
  unfolding text_loop
  sized_part size at true from = tt
  sized_part zero at false from = (omega arith, omega arith)
  sized_part (suc n) at false from =
      Ends-bind _ _ (text_loop (suc n) 0 (u32 (at + 4)) bytecode) _
        (text_loop-Ends (suc n) 0 (u32 (at + 4)) (omega arith))
        (λ r t. (omega (arith, t (omega arith)), omega (arith, t (omega arith))))

  -- A text ends behind its length, in the file.
  sized_text-Ends :
      (at : ℕ)
      → at < 2 ^ 32
      → Ends (λ (r : Text × ℕ). (at + 4 ≤ r.1) × (r.1 ≤ length bytecode)) (sized_text bytecode at)
  unfolding sized_text
  sized_text-Ends at h = Ends-bind _ _ (field 4 bytecode at) _ (field-Ends 4 at h) (λ size there.
      let from : at + 4 ≤ length bytecode = there (omega arith) in
      sized_part size at (leb (2 ^ 31) size) from)

  -- The index moves on, and stays in the file.
  abbrev Moves : ℕ → Walk (ℕ × RuntimeErrorHandler) → Type 0
  Moves at r = Ends (λ (n : ℕ × RuntimeErrorHandler). (at < n.0) × (n.0 ≤ length bytecode)) r

  abbrev BodyMoves : Body → Type 0
  BodyMoves body = (at : ℕ) (h : RuntimeErrorHandler) → at < 2 ^ 32 → Moves at (body bytecode at h)

  read_source-Moves : BodyMoves read_source
  unfolding read_source
  read_source-Moves at h low =
      Ends-bind _ _ (field 2 bytecode at) _ (field-Ends 2 at low) (λ id there.
        let from : at + 2 ≤ length bytecode = there (omega arith) in
        Ends-bind _ _ (sized_text bytecode (u32 (at + 2))) _
          (sized_text-Ends (u32 (at + 2)) (omega arith)) (λ r t. (omega (arith, t.0, from), t.1)))

  read_function-Moves : BodyMoves read_function
  unfolding read_function
  read_function-Moves at h low =
      Ends-bind _ _ (field 4 bytecode at) _ (field-Ends 4 at low) (λ s there.
        Ends-bind _ _ (field 4 bytecode (u32 (at + 4))) _
          (field-Ends 4 (u32 (at + 4)) (omega arith))
          (λ e there_end.
            Ends-bind _ _ (field 2 bytecode (u32 (at + 8))) _
              (field-Ends 2 (u32 (at + 8)) (omega arith))
              (λ id there_id.
                let f4 : at + 4 ≤ length bytecode = there (omega arith) in
                let f8 : at + 8 ≤ length bytecode = omega (arith, there_end (omega arith)) in
                let f10 : at + 10 ≤ length bytecode = omega (arith, there_id (omega arith)) in
                Ends-bind _ _ (sized_text bytecode (u32 (at + 10))) _
                  (sized_text-Ends (u32 (at + 10)) (omega arith))
                  (λ r t. (omega (arith, t.0, f10), t.1)))))

  read_line-Moves : BodyMoves read_line
  unfolding read_line
  read_line-Moves at h low = Ends-bind _ _ (field 4 bytecode at) _ (field-Ends 4 at low) (λ s there.
      Ends-bind _ _ (field 4 bytecode (u32 (at + 4))) _ (field-Ends 4 (u32 (at + 4)) (omega arith))
        (λ e there_end.
          Ends-bind _ _ (field 2 bytecode (u32 (at + 8))) _
            (field-Ends 2 (u32 (at + 8)) (omega arith))
            (λ id there_id.
              Ends-bind _ _ (field 4 bytecode (u32 (at + 10))) _
                (field-Ends 4 (u32 (at + 10)) (omega arith))
                (λ line there_line.
                  Ends-bind _ _ (field 2 bytecode (u32 (at + 14))) _
                    (field-Ends 2 (u32 (at + 14)) (omega arith))
                    (λ column there_column.
                      let f4 : at + 4 ≤ length bytecode = there (omega arith) in
                      let f8 : at + 8 ≤ length bytecode = omega (arith, there_end (omega arith)) in
                      let f10 : at + 10 ≤ length bytecode = omega (arith, there_id (omega arith)) in
                      let f14 : at + 14 ≤ length bytecode =
                        omega (arith, there_line (omega arith)) in
                      let f16 : at + 16 ≤ length bytecode =
                        omega (arith, there_column (omega arith)) in
                      (omega (arith, f16), omega (arith, f16)))))))

  walk-Ends :
      (body : Body) (rounds end at : ℕ) (h : RuntimeErrorHandler)
      → BodyMoves body
      → at < 2 ^ 32
      → length bytecode - at < rounds
      → Ended (walk body rounds end bytecode at h)
  unfolding walk
  walk-Ends body zero end at h moves low enough = omega arith
  walk-Ends body (suc rounds) end at h moves low enough = elim (Bool-cases (ltb at end)) [
    | inr e ↦ rw (e, walk) tt
    | inl e ↦
        rw (e, walk)
          (Ends-bind _ _ (body bytecode at h) _ (moves at h low) (λ n m.
            walk-Ends body rounds end n.0 n.1 moves (omega (arith, m.1))
              (omega (arith, m.0, m.1, enough))))
  ]

  -- A walk with a round for every byte of the file and one more.
  whole_walk-Ended :
      (body : Body) (end n : ℕ) (h : RuntimeErrorHandler)
      → BodyMoves body
      → Ended (walk body (suc (length bytecode)) end bytecode (u32 n) h)
  whole_walk-Ended body end n h moves =
      walk-Ends body (suc (length bytecode)) end (u32 n) h moves (omega arith) (omega arith)

  header_or_undefined-Ended : (o : Option ℕ) → Ended (header_or_undefined o)
  header_or_undefined-Ended none = tt
  header_or_undefined-Ended (some n) = tt

  read_metadata-Ended : Ended (read_metadata bytecode)
  unfolding read_metadata
  read_metadata-Ended =
      Ended-then (header_or_undefined (header_field bytecode 4)) _ (header_or_undefined-Ended _)
        (λ d.
          Ended-then (header_or_undefined (header_field bytecode 8)) _ (header_or_undefined-Ended _)
            (λ s.
              Ended-then (header_or_undefined (header_field bytecode 12)) _
                (header_or_undefined-Ended _)
                (λ f.
                  Ended-then (header_or_undefined (header_field bytecode 16)) _
                    (header_or_undefined-Ended _)
                    (λ l.
                      Ended-then
                        (walk read_source (suc (length bytecode)) s bytecode (u32 (d + 1))
                          empty_handler)
                        _ (whole_walk-Ended read_source s (d + 1) empty_handler read_source-Moves)
                        (λ sources.
                          Ended-then
                            (walk read_function (suc (length bytecode)) f bytecode (u32 (s + 1))
                              sources)
                            _ (whole_walk-Ended read_function f (s + 1) sources read_function-Moves)
                            (λ functions.
                              whole_walk-Ended read_line l (f + 1) functions read_line-Moves))))))

-- The walks over the metadata of a file below 4 GiB end, whatever its bytes are.
pub read_metadata_ends :
    (bytecode : List ℕ) → length bytecode < 2 ^ 32 → read_metadata bytecode ≢ exhausted
read_metadata_ends bytecode short e =
    subst (λ (r : Walk RuntimeErrorHandler). Ended r) e (read_metadata-Ended bytecode short)
