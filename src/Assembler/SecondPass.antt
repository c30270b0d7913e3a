-- ===== src/Assembler/SecondPass.antt =====
-- src/assembler/Assembler.cpp: the number of bytes that `generateBytecode` emits for each statement.
use simple_virtual_language.Base.{
  ℕ, zero, suc, ◌+◌, ◌-◌, ◌%◌, ◌^◌, ◌≡◌, refl, sym, ◌∙◌, Bool, true, false, ◌||◌, List, [], ◌∷◌,
  arith, inl, inr, Bool-cases, if_false, and-true, length, ltb, ◌==◌, get_or, subst,
}
use simple_virtual_language.Base.Int.{ℤ, pos, mod_floor, ltb_ℤ}
use simple_virtual_language.Base.Text.{Text, codes, same_text, same_text→≡, find_text}
use simple_virtual_language.Assembler.Defs.{immediate_operand}
use simple_virtual_language.Assembler.Numbers.{
  Result, done, failed, out_of_range, invalid_argument, assembler_error, bad_variant_access, ◌>>=◌,
  FloatText, stoll, stoull,
}
use simple_virtual_language.Assembler.Labels.{data_label, get_key, contains}
use simple_virtual_language.Assembler.Layout.{calculate_bytes_from_type, immediate_length}
use simple_virtual_language.Assembler.Encode.{
  bytes_loop, bytes_of, at, convert_label_ref_to_bytes, without_hash, convert_ptr, convert_by_type,
  convert_data_to_bytes, catch_out_of_range, finite, behind_hash, convert_depth, convert_immediate,
}
use simple_virtual_language.Assembler.Sizes.{value_types, is_value_type, sized_operand}
use simple_virtual_language.Assembler.Yields.{Yields, Yields-any, if-Yields}

length-bytes_loop : (n i v : ℕ) → length (bytes_loop n i v) ≡ n
unfolding bytes_loop
length-bytes_loop zero i v = refl
length-bytes_loop (suc n) i v = omega (arith, length-bytes_loop n (i + 1) v)

pub length-bytes_of : (n v : ℕ) → length (bytes_of n v) ≡ n
unfolding bytes_of
length-bytes_of n v = length-bytes_loop n 0 v

-- A number of bytes.
abbrev pub Bytes : ℕ → Result (List ℕ) → Type 0
Bytes n r = Yields (λ b. length b ≡ n) r

-- What holds of every text of a list holds of a text that is found in it.
abbrev Each : (Text → Type 0) → List Text → Type 0
Each P [] = Unit {0}
Each P (k ∷ ks) = P k × Each P ks

contains-Each :
    (P : Text → Type 0) (key : Text) (ks : List Text) → Each P ks → contains key ks ≡ true → P key
unfolding contains
contains-Each P key [] all h = cc
contains-Each P key (k ∷ ks) (p, all) h = elim (Bool-cases (same_text k key)) [
  | inl same ↦ subst P (same_text→≡ k key same) p
  | inr other ↦
      contains-Each P key ks all (sym (if_false (same_text k key) true (contains key ks) other) ∙ h)
]

pub named : (P : Text → Type 0) (k key : Text) → P k → (same_text key k ≡ false → P key) → P key
named P k key p other = elim (Bool-cases (same_text key k)) [
  | inl same ↦ subst P (sym (same_text→≡ key k same)) p
  | inr different ↦ other different
]

module _ (text : FloatText) (label_table : List (Text × ℕ)) where
  pub convert_label_ref_to_bytes-Bytes :
      (key : Text) → Bytes 4 (convert_label_ref_to_bytes label_table key)
  unfolding convert_label_ref_to_bytes
  convert_label_ref_to_bytes-Bytes key =
      Yields-any (λ b. length b ≡ 4) (at (find_text key label_table)) _
        (λ address. length-bytes_of 4 address)

  abbrev Sized : Text → Text → Type 0
  Sized s t = Bytes (calculate_bytes_from_type t) (convert_by_type text label_table t s)

  numbers :
      {A : Type 0} (n : ℕ) (r : Result A) (f : A → ℕ) → Bytes n (do a ← r; done (bytes_of n (f a)))
  numbers n r f =
      Yields-any (λ b. length b ≡ n) r (λ a. done (bytes_of n (f a))) (λ a. length-bytes_of n (f a))

  checked_numbers :
      {A : Type 0} (n : ℕ) (r : Result A) (ok : A → Bool) (f : A → ℕ)
      → Bytes n (do a ← r; checked ← finite (ok a) (f a); done (bytes_of n checked))
  checked_numbers n r ok f =
      Yields-any (λ b. length b ≡ n) r _ (λ a. numbers n (finite (ok a) (f a)) (λ c. c))

  convert_ptr-Bytes : (s : Text) → Bytes 4 (convert_ptr text label_table s)
  unfolding convert_ptr
  convert_ptr-Bytes s =
      if-Yields (λ b. length b ≡ 4) (get_or s 0 0 == b'$')
        (convert_label_ref_to_bytes label_table (get_key data_label (without_hash s))) _
        (convert_label_ref_to_bytes-Bytes (get_key data_label (without_hash s)))
        (Yields-any (λ b. length b ≡ 4) (stoull s) _
          (λ raw.
            if-Yields (λ b. length b ≡ 4) (ltb (2 ^ 32 - 1) raw) (failed out_of_range) _ tt
              (numbers 4 (stoull (without_hash s)) (λ v. v % 2 ^ 32))))

  pub convert_by_type-Bytes : (t s : Text) → is_value_type t ≡ true → Sized s t
  unfolding is_value_type convert_by_type same_text calculate_bytes_from_type
  convert_by_type-Bytes t s h =
      let signed = stoll (without_hash s) in
      let unsigned = stoull (without_hash s) in
      contains-Each (Sized s) t value_types
        (
          numbers 4 signed (λ v. mod_floor v (2 ^ 32)),
          (
            numbers 4 signed (λ v. mod_floor v (2 ^ 32)),
            (
              numbers 4 unsigned (λ v. v % 2 ^ 32),
              (
                numbers 8 signed (λ v. mod_floor v (2 ^ 64)),
                (
                  numbers 8 unsigned (λ v. v),
                  (
                    checked_numbers 4 (text.stof (without_hash s)) (λ r. text.f32_is_finite r)
                        (λ r. r),
                    (
                      checked_numbers 8 (text.stod (without_hash s)) (λ r. text.f64_is_finite r)
                          (λ r. r),
                      (convert_ptr-Bytes s, tt),
                    ),
                  ),
                ),
              ),
            ),
          ),
        )
        h

  pub catch-Bytes : (n : ℕ) (r : Result (List ℕ)) → Bytes n r → Bytes n (catch_out_of_range r)
  catch-Bytes n (done b) h = h
  catch-Bytes n (failed assembler_error) h = tt
  catch-Bytes n (failed invalid_argument) h = tt
  catch-Bytes n (failed out_of_range) h = tt
  catch-Bytes n (failed bad_variant_access) h = tt

  pub convert_data_to_bytes-Bytes :
      (t s : Text)
      → is_value_type t ≡ true
      → Bytes (calculate_bytes_from_type t) (convert_data_to_bytes text label_table t s)
  unfolding convert_data_to_bytes
  convert_data_to_bytes-Bytes t s h =
      catch-Bytes (calculate_bytes_from_type t) (convert_by_type text label_table t s)
        (convert_by_type-Bytes t s h)

  convert_depth-Bytes : (lo hi : ℤ) (s : Text) → Bytes 2 (convert_depth lo hi s)
  unfolding convert_depth
  convert_depth-Bytes lo hi s =
      Yields-any (λ b. length b ≡ 2) (behind_hash s) _
        (λ digits.
          Yields-any (λ b. length b ≡ 2) (stoll digits) _
            (λ v.
              if-Yields (λ b. length b ≡ 2) (ltb_ℤ hi v || ltb_ℤ v lo) (failed assembler_error) _ tt
                (length-bytes_of 2 (mod_floor v (2 ^ 16)))))

  short_type :
      (t : Text) → ltb (calculate_bytes_from_type t) 8 ≡ true → calculate_bytes_from_type t ≡ 4
  unfolding calculate_bytes_from_type
  short_type t h = ground (arith, h)

  abbrev ImmediateSized : Text → Text → Text → Type 0
  ImmediateSized t s mnemonic =
      sized_operand mnemonic t immediate_operand ≡ true
      → Bytes (immediate_length mnemonic t) (convert_immediate text label_table mnemonic t s)

  from_store :
      (t s : Text)
      → sized_operand (codes "storeL") t immediate_operand ≡ true
      → Bytes 4 (convert_data_to_bytes text label_table t s)
  unfolding sized_operand same_text
  from_store t s h =
      let (value_type, short) =
        and-true (is_value_type t) (ltb (calculate_bytes_from_type t) 8) h in
      subst (λ (n : ℕ). Bytes n (convert_data_to_bytes text label_table t s)) (short_type t short)
        (convert_data_to_bytes-Bytes t s value_type)

  -- An immediate takes the bytes that the first pass has counted.
  pub convert_immediate-Bytes : (t s mnemonic : Text) → ImmediateSized t s mnemonic
  unfolding convert_immediate immediate_length sized_operand same_text calculate_bytes_from_type
      is_value_type
  convert_immediate-Bytes t s mnemonic =
      named (ImmediateSized t s) (codes "rotD") mnemonic
        (λ h. convert_depth-Bytes (pos 3) (pos 1024) s)
        (λ not_rotd.
          named (ImmediateSized t s) (codes "rotU") mnemonic
            (λ h. convert_depth-Bytes (pos 3) (pos 1024) s)
            (λ not_rotu.
              named (ImmediateSized t s) (codes "dup") mnemonic
                (λ h. convert_depth-Bytes (pos 0) (pos 1023) s)
                (λ not_dup.
                  named (ImmediateSized t s) (codes "loadL") mnemonic
                    (λ h. convert_data_to_bytes-Bytes (codes "i32") s refl)
                    (λ not_loadl.
                      named (ImmediateSized t s) (codes "storeL") mnemonic (λ h. from_store t s h)
                        (λ not_storel h.
                          let value_type = (and-true (is_value_type t) _ h).0 in
                          rw
                            (
                              not_rotd, not_rotu, not_dup, not_loadl, not_storel, immediate_length,
                              convert_immediate,
                            )
                            (convert_data_to_bytes-Bytes t s value_type))))))
