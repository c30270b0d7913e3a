-- ===== src/Vm/ErrorHandler/Lookup.antt =====
-- src/vm/RuntimeErrorHandler.cpp: the lookup by address, against the entries of a table in order.
use simple_virtual_language.Base.{
  ℕ, zero, suc, ◌+◌, ◌-◌, ◌/◌, ◌≤◌, ◌<◌, ◌≡◌, ◌↔◌, refl, sym, ap, subst, ◌∙◌, Bool, true, false,
  Bool-cases, Option-cases, inl, inr, if_true, if_false, List, [], ◌∷◌, none, some, leb, ltb, ◌==◌,
  ◌&&◌, if◌then◌else◌, length, get_elem?, arith,
}
use simple_virtual_language.Vm.ErrorHandler.{
  FunctionMetadata, LineTableMetadata, RuntimeErrorHandler, get_line_table_metadata,
  get_function_metadata, upper_bound, starts_behind, in_front_of, covering,
}

-- The first position from which on a test holds.
pub record IsBound (beyond : ℕ → Bool) (p : ℕ) : Type 0 where
  pub in_front : (i : ℕ) → i < p → beyond i ≡ false
  pub behind : (i : ℕ) → p ≤ i → beyond i ≡ true

none-some : {A : Type 0} {a : A} → none ≡ some a → ⊥
none-some h = cc

both : {b : Bool} → b ≡ false → b ≡ true → ⊥
both f t = cc

upper_bound-IsBound :
    (rounds : ℕ) (beyond : ℕ → Bool) (first n : ℕ)
    → n < rounds
    → ((i j : ℕ) → i ≤ j → beyond i ≡ true → beyond j ≡ true)
    → ((i : ℕ) → i < first → beyond i ≡ false)
    → ((i : ℕ) → first + n ≤ i → beyond i ≡ true)
    → IsBound beyond (upper_bound rounds beyond first n)
unfolding upper_bound
upper_bound-IsBound zero beyond first n h mono lo hi = ground arith
upper_bound-IsBound (suc rounds) beyond first n h mono lo hi = elim (Bool-cases (n == 0)) [
  | inl e ↦
      rw (e, upper_bound) (record { in_front = lo; behind = λ i l. hi i (ground (arith, e, l)) })
  | inr e ↦ elim (Bool-cases (beyond (first + n / 2))) [
    | inl b ↦
        rw (e, b, upper_bound)
          (upper_bound-IsBound rounds beyond first (n / 2) (ground (arith, e)) mono lo
            (λ i l. mono (first + n / 2) i l b))
    | inr b ↦
        rw (e, b, upper_bound)
          (upper_bound-IsBound rounds beyond (first + n / 2 + 1) (n - n / 2 - 1) (ground (arith, e))
            mono
            (λ i l. elim (Bool-cases (beyond i)) [
              | inl t ↦ absurd (both b (mono i (first + n / 2) (omega (arith, l)) t))
              | inr f ↦ f
            ])
            (λ i l. hi i (ground (arith, e, l))))
  ]
]

module _ {E : Type 0} (start_of end_of : E → ℕ) where
  -- Ranges one behind the other, from an address on.
  abbrev pub Ordered : ℕ → List E → Type 0
  Ordered lower [] = Unit
  Ordered lower (e ∷ es) = (lower ≤ start_of e) × (start_of e ≤ end_of e) × Ordered (end_of e) es

  starts_above :
      (lower i : ℕ) (table : List E) (e : E)
      → Ordered lower table
      → get_elem? table i ≡ some e
      → lower ≤ start_of e
  starts_above lower i [] e o h = cc
  starts_above lower zero (f ∷ es) e o h =
      let same : f ≡ e = cc in subst (λ (x : E). lower ≤ start_of x) same o.0
  starts_above lower (suc i) (f ∷ es) e o h =
      omega (arith, o.0, o.1, starts_above (end_of f) i es e o.2 h)

  ends_in_front :
      (lower i j : ℕ) (table : List E) (e f : E)
      → Ordered lower table
      → i < j
      → get_elem? table i ≡ some e
      → get_elem? table j ≡ some f
      → end_of e ≤ start_of f
  ends_in_front lower i j [] e f o l he hf = cc
  ends_in_front lower i zero (g ∷ es) e f o l he hf = absurd (omega arith)
  ends_in_front lower zero (suc j) (g ∷ es) e f o l he hf =
      let same : g ≡ e = cc in
      subst (λ (x : E). end_of x ≤ start_of f) same (starts_above (end_of g) j es f o.2 hf)
  ends_in_front lower (suc i) (suc j) (g ∷ es) e f o l he hf =
      ends_in_front (end_of g) i j es e f o.2 (omega arith) he hf

  all_behind :
      (lower address j : ℕ) (table : List E)
      → Ordered lower table
      → address < lower
      → starts_behind start_of address table j ≡ true
  all_behind lower address j [] o l = refl
  all_behind lower address zero (e ∷ es) o l = ground (arith, o.0)
  all_behind lower address (suc j) (e ∷ es) o l =
      all_behind (end_of e) address j es o.2 (omega (arith, o.0, o.1))

  starts_behind_mono :
      (lower address : ℕ) (table : List E)
      → Ordered lower table
      → (i j : ℕ) → i ≤ j
      → starts_behind start_of address table i ≡ true
      → starts_behind start_of address table j ≡ true
  starts_behind_mono lower address [] o i j l h = refl
  starts_behind_mono lower address (e ∷ es) o zero zero l h = h
  starts_behind_mono lower address (e ∷ es) o zero (suc j) l h =
      all_behind (end_of e) address j es o.2 (ground (arith, h, o.1))
  starts_behind_mono lower address (e ∷ es) o (suc i) zero l h = absurd (omega arith)
  starts_behind_mono lower address (e ∷ es) o (suc i) (suc j) l h =
      starts_behind_mono (end_of e) address es o.2 i j (omega arith) h

  past_the_end :
      (address i : ℕ) (table : List E)
      → length table ≤ i
      → starts_behind start_of address table i ≡ true
  past_the_end address i [] h = refl
  past_the_end address zero (e ∷ es) h = absurd (omega arith)
  past_the_end address (suc i) (e ∷ es) h = past_the_end address i es (omega arith)

  abbrev bound_of : ℕ → List E → ℕ
  bound_of address table =
      upper_bound (suc (length table)) (starts_behind start_of address table) 0 (length table)

  bound_of-IsBound :
      (lower address : ℕ) (table : List E)
      → Ordered lower table
      → IsBound (starts_behind start_of address table) (bound_of address table)
  bound_of-IsBound lower address table o =
      upper_bound-IsBound (suc (length table)) (starts_behind start_of address table) 0
        (length table) (omega arith) (starts_behind_mono lower address table o)
        (λ i l. absurd (omega arith)) (λ i l. past_the_end address i table (omega arith))

  -- The entry in the table, at a position, whose range has the address.
  abbrev pub Covers : ℕ → List E → E → Type 0
  Covers address table e =
      (i : ℕ) × (get_elem? table i ≡ some e) × (start_of e ≤ address) × (address < end_of e)

  covering_found :
      (address : ℕ) (table : List E) (e found : E)
      → (if leb (start_of found) address && ltb address (end_of found) then some found else none)
        ≡ some e
      → (found ≡ e) × (start_of e ≤ address) × (address < end_of e)
  covering_found address table e found h =
      elim (Bool-cases (leb (start_of found) address && ltb address (end_of found))) [
        | inl c ↦
            let same : found ≡ e = cc in
            (
              same,
              subst (λ (x : E). start_of x ≤ address) same (ground (arith, c)),
              subst (λ (x : E). address < end_of x) same (ground (arith, c)),
            )
        | inr c ↦ absurd (none-some (sym (if_false _ (some found) none c) ∙ h))
      ]

  found_in :
      (address : ℕ) (table : List E) (e : E) (p : ℕ)
      → in_front_of start_of end_of address table p ≡ some e
      → Covers address table e
  found_in address table e zero h = absurd (none-some h)
  found_in address table e (suc i) h = elim (Option-cases (get_elem? table i)) [
    | inl n ↦ absurd (none-some (rw (n, in_front_of) at h))
    | inr (f, is) ↦
        let (same, low, high) = covering_found address table e f (rw (is, in_front_of) at h) in
        (i, is ∙ ap (λ (x : E). some x) same, low, high)
  ]

  not_behind :
      (address i : ℕ) (table : List E) (e : E)
      → get_elem? table i ≡ some e
      → start_of e ≤ address
      → starts_behind start_of address table i ≡ false
  not_behind address i table e at low = rw (at, starts_behind) (ground (arith, low))

  starts_low :
      (address k : ℕ) (table : List E)
      → starts_behind start_of address table k ≡ false
      → (f : E) × (get_elem? table k ≡ some f) × (start_of f ≤ address)
  starts_low address k table h = elim (Option-cases (get_elem? table k)) [
    | inl n ↦ absurd (both h (rw (n, starts_behind) refl))
    | inr (f, is) ↦ (f, is, ground (arith, (rw (is, starts_behind) at h)))
  ]

  -- In front of the bound an entry with the address is the last.
  is_last :
      (lower address k i : ℕ) (table : List E) (e : E)
      → Ordered lower table
      → IsBound (starts_behind start_of address table) (suc k)
      → get_elem? table i ≡ some e
      → start_of e ≤ address
      → address < end_of e
      → i ≡ k
  is_last lower address k i table e o bound at low high =
      let (f, is, starts) = starts_low address k table (bound.in_front k (omega arith)) in
      elim (Bool-cases (ltb i k)) [
        | inl less ↦ absurd (
            omega (
              arith,
              starts,
              high,
              ends_in_front lower i k table e f o (ground (arith, less)) at is,
            ))
        | inr more ↦ elim (Bool-cases (ltb k i)) [
          | inl past ↦
              absurd
                (both (not_behind address i table e at low) (bound.behind i (ground (arith, past))))
          | inr up ↦ ground (arith, more, up)
        ]
      ]

  found_at :
      (lower address p : ℕ) (table : List E) (e : E)
      → Ordered lower table
      → IsBound (starts_behind start_of address table) p
      → Covers address table e
      → in_front_of start_of end_of address table p ≡ some e
  found_at lower address zero table e o bound (i, at, low, high) =
      absurd (both (not_behind address i table e at low) (bound.behind i (omega arith)))
  found_at lower address (suc k) table e o bound (i, at, low, high) =
      let here : get_elem? table k ≡ some e =
        subst (λ (n : ℕ). get_elem? table n ≡ some e)
          (is_last lower address k i table e o bound at low high) at in
      rw (here, in_front_of) (if_true _ (some e) none (ground (arith, low, high)))

  pub covering-Covers :
      (lower address : ℕ) (table : List E) (e : E)
      → Ordered lower table
      → covering start_of end_of address table ≡ some e ↔ Covers address table e
  unfolding covering
  covering-Covers lower address table e o = (
    λ h. found_in address table e (bound_of address table) h,
    λ c.
        found_at lower address (bound_of address table) table e o
          (bound_of-IsBound lower address table o) c,
  )

-- In tables whose ranges stand one behind the other, the lookups find the entry whose range has the
-- address, and nothing where no range has it.
pub lookups-Covers :
    (lower address : ℕ) (h : RuntimeErrorHandler) (l : LineTableMetadata) (f : FunctionMetadata)
    → Ordered
        (λ (e : LineTableMetadata). e.start_address)
        (λ (e : LineTableMetadata). e.end_address)
        lower
        h.line_table_metadata
    → Ordered
        (λ (e : FunctionMetadata). e.start_address)
        (λ (e : FunctionMetadata). e.end_address)
        lower
        h.function_metadata
    → (get_line_table_metadata address h ≡ some l
        ↔ Covers
            (λ (e : LineTableMetadata). e.start_address)
            (λ (e : LineTableMetadata). e.end_address)
            address
            h.line_table_metadata
            l)
      × (get_function_metadata address h ≡ some f
          ↔ Covers
              (λ (e : FunctionMetadata). e.start_address)
              (λ (e : FunctionMetadata). e.end_address)
              address
              h.function_metadata
              f)
unfolding get_line_table_metadata get_function_metadata
lookups-Covers lower address h l f lines functions = (
  covering-Covers _ _ lower address h.line_table_metadata l lines,
  covering-Covers _ _ lower address h.function_metadata f functions,
)
