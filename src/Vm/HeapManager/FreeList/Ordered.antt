-- ===== src/Vm/HeapManager/FreeList/Ordered.antt =====
-- src/vm/memory/HeapManager.cpp: the order of the free list and the bytes that it describes.
use simple_virtual_language.Base.{
  ℕ, ◌+◌, ◌-◌, ◌^◌, ◌≤◌, ◌<◌, ◌≡◌, refl, inl, inr, Bool, false, ◌&&◌, ◌||◌, not, List, [], ◌∷◌,
  some, leb, ltb, ◌==◌, arith, Bool-cases, leb→le,
}
use simple_virtual_language.Vm.State.{FreeBlock, u32}
use simple_virtual_language.Vm.HeapManager.FreeList.{block, find_fit, take_fit}

-- The blocks stand in the order of their addresses, from `lo` up, none of them empty, no two of them
-- touching, and none beyond the end of memory.
abbrev pub Ordered : ℕ → List FreeBlock → Type 0
Ordered lo [] = Unit {0}
Ordered lo (b ∷ rest) =
    (lo ≤ b.address)
    × (0 < b.size)
    × (b.address + b.size < 2 ^ 32)
    × Ordered (b.address + b.size + 1) rest

abbrev pub in_block : FreeBlock → ℕ → Bool
in_block b a = leb b.address a && ltb a (b.address + b.size)

-- Whether the list describes the byte at an address as free.
abbrev pub is_free : List FreeBlock → ℕ → Bool
is_free [] a = false
is_free (b ∷ rest) a = in_block b a || is_free rest a

pub Ordered-mono :
    (lo hi : ℕ) (blocks : List FreeBlock) → lo ≤ hi → Ordered hi blocks → Ordered lo blocks
Ordered-mono lo hi [] h o = tt
Ordered-mono lo hi (b ∷ rest) h o = (omega arith, o.1, o.2, o.3)

-- Nothing below the lower bound is free.
pub not_free_below :
    (lo : ℕ) (blocks : List FreeBlock) (a : ℕ)
    → Ordered lo blocks
    → a < lo
    → is_free blocks a ≡ false
not_free_below lo [] a o h = refl
not_free_below lo (b ∷ rest) a o h =
    ground (arith, not_free_below (b.address + b.size + 1) rest a o.3)

pub cut_address :
    (bytes : ℕ) (b : FreeBlock)
    → bytes < b.size
    → b.address + b.size < 2 ^ 32
    → u32 (b.address + bytes) ≡ b.address + bytes
cut_address bytes b more h = omega arith

cut-Ordered :
    (bytes lo : ℕ) (b : FreeBlock) (rest : List FreeBlock)
    → bytes < b.size
    → Ordered lo (b ∷ rest)
    → Ordered lo (block (b.size - bytes) (u32 (b.address + bytes)) ∷ rest)
cut-Ordered bytes lo b rest more o =
    let end : b.address + bytes + (b.size - bytes) ≡ b.address + b.size = omega arith in
    rw (cut_address bytes b more o.2) (omega arith, omega arith, rw end o.2, rw end o.3)

-- An allocation of at least one byte keeps the free list in order: no block is empty, none touches the
-- next, and none ends beyond memory.
pub take_fit-Ordered :
    (bytes lo : ℕ) (blocks : List FreeBlock)
    → 0 < bytes
    → Ordered lo blocks
    → Ordered lo (take_fit bytes blocks)
unfolding take_fit
take_fit-Ordered bytes lo [] p o = tt
take_fit-Ordered bytes lo (b ∷ rest) p o = elim (Bool-cases (leb bytes b.size)) [
  | inr small ↦ rw small (o.0, o.1, o.2, take_fit-Ordered bytes (b.address + b.size + 1) rest p o.3)
  | inl fits ↦ rw fits (elim (Bool-cases (b.size == bytes)) [
    | inl whole ↦ rw whole (Ordered-mono lo (b.address + b.size + 1) rest (omega arith) o.3)
    | inr part ↦
        let more : bytes < b.size = ground (arith, fits, part) in
        rw part (cut-Ordered bytes lo b rest more o)
  ])
]

pub find_fit-bounds :
    (bytes lo : ℕ) (blocks : List FreeBlock) (found : FreeBlock)
    → find_fit bytes blocks ≡ some found
    → Ordered lo blocks
    → (lo ≤ found.address) × (bytes ≤ found.size) × (found.address + found.size < 2 ^ 32)
unfolding find_fit
find_fit-bounds bytes lo [] found e o = cc
find_fit-bounds bytes lo (b ∷ rest) found e o = elim (Bool-cases (leb bytes b.size)) [
  | inl fits ↦
      let same : b ≡ found = ground (arith, fits, e) in
      rw (← same) (o.0, leb→le bytes b.size fits, o.2)
  | inr small ↦
      let found_later : find_fit bytes rest ≡ some found = ground (arith, small, e) in
      let later = find_fit-bounds bytes (b.address + b.size + 1) rest found found_later o.3 in
      (omega (arith, later.0), later.1, later.2)
]

-- Where first fit finds a block in an ordered free list, the bytes that an allocation takes from its
-- front were free, and the bytes that are free afterwards are those that were, less the taken ones.
pub take_fit-is_free :
    (bytes lo : ℕ) (blocks : List FreeBlock) (found : FreeBlock) (a : ℕ)
    → find_fit bytes blocks ≡ some found
    → Ordered lo blocks
    → (is_free (take_fit bytes blocks) a
        ≡ (is_free blocks a && not (in_block (block bytes found.address) a)))
      × ((in_block (block bytes found.address) a && is_free blocks a)
          ≡ in_block (block bytes found.address) a)
unfolding find_fit take_fit
take_fit-is_free bytes lo [] found a e o = cc
take_fit-is_free bytes lo (b ∷ rest) found a e o = elim (Bool-cases (leb bytes b.size)) [
  | inl fits ↦
      let same : b ≡ found = ground (arith, fits, e) in
      rw (← same) (
        ground (
          arith,
          fits,
          not_free_below (b.address + b.size + 1) rest a o.3,
          leb→le bytes b.size fits,
        ))
  | inr small ↦
      let found_later : find_fit bytes rest ≡ some found = ground (arith, small, e) in
      let later = take_fit-is_free bytes (b.address + b.size + 1) rest found a found_later o.3 in
      let bounds = find_fit-bounds bytes (b.address + b.size + 1) rest found found_later o.3 in
      ground (arith, small, later.0, later.1, bounds.0, bounds.1)
]
