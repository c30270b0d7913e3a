-- ===== src/Vm/HeapManager/FreeList/Refill.antt =====
-- src/vm/memory/HeapManager.cpp: the release of what first fit took.
use simple_virtual_language.Base.{
  ℕ, ◌+◌, ◌-◌, ◌^◌, ◌<◌, ◌≡◌, refl, ap, inl, inr, true, false, List, [], ◌∷◌, some, leb, ltb, ◌==◌,
  arith, Bool-cases,
}
use simple_virtual_language.Vm.State.{FreeBlock, u32}
use simple_virtual_language.Vm.HeapManager.FreeList.{
  block, find_fit, take_fit, adjacent, merged, release_behind, release,
}
use simple_virtual_language.Vm.HeapManager.FreeList.Ordered.{Ordered, find_fit-bounds}

-- Behind a block that the new one does not touch, the walk is the same as from the head.
release_behind-cons :
    (prev new : FreeBlock) (blocks : List FreeBlock)
    → adjacent prev new ≡ false
    → release_behind prev new blocks ≡ prev ∷ release new blocks
unfolding release_behind release
release_behind-cons prev new [] e = rw e
release_behind-cons prev new (c ∷ rest) e = ground (arith, e)

-- A block put back in front of blocks that lie beyond it, with a gap.
link_next-gap :
    (b : FreeBlock) (rest : List FreeBlock)
    → b.address + b.size < 2 ^ 32
    → Ordered (b.address + b.size + 1) rest
    → release b rest ≡ b ∷ rest
unfolding release adjacent
link_next-gap b [] h o = refl
link_next-gap b (c ∷ rest) h o = ground arith

-- Putting a block back in front of what was cut off it.
link_next-rest :
    (bytes : ℕ) (b : FreeBlock) (rest : List FreeBlock)
    → bytes < b.size
    → b.address + b.size < 2 ^ 32
    → 0 < bytes
    → release (block bytes b.address) (block (b.size - bytes) (u32 (b.address + bytes)) ∷ rest)
      ≡ b ∷ rest
unfolding release adjacent merged
link_next-rest bytes b rest part h p =
    let wrap : u32 (b.address + bytes) ≡ b.address + bytes = omega arith in
    let whole : u32 (bytes + (b.size - bytes)) ≡ b.size = omega arith in ground (arith, wrap, whole)

-- A block beyond the head, with a gap, leaves the head as it is.
release-beyond :
    (b new : FreeBlock) (rest : List FreeBlock)
    → b.address + b.size < 2 ^ 32
    → b.address + b.size < new.address
    → release new (b ∷ rest) ≡ b ∷ release new rest
unfolding release adjacent
release-beyond b new rest h gap =
    let behind : ltb b.address new.address ≡ true = ground arith in
    let apart : adjacent b new ≡ false = ground arith in
    rw behind (release_behind-cons b new rest apart)

-- In an ordered free list where first fit finds a block for at least one byte, releasing the bytes that
-- the allocation took gives the free list that was there before, blocks and order.
pub release-take_fit :
    (bytes lo : ℕ) (blocks : List FreeBlock) (found : FreeBlock)
    → 0 < bytes
    → Ordered lo blocks
    → find_fit bytes blocks ≡ some found
    → release (block bytes found.address) (take_fit bytes blocks) ≡ blocks
unfolding find_fit take_fit
release-take_fit bytes lo [] found p o e = cc
release-take_fit bytes lo (b ∷ rest) found p o e = elim (Bool-cases (leb bytes b.size)) [
  | inl fits ↦
      let same : b ≡ found = ground (arith, fits, e) in
      rw (← same) (elim (Bool-cases (b.size == bytes)) [
        | inl whole ↦
            let size : b.size ≡ bytes = ground (arith, whole) in
            rw fits (rw whole (rw (← size) (link_next-gap b rest o.2 o.3)))
        | inr part ↦
            let more : bytes < b.size = ground (arith, fits, part) in
            rw fits (rw part (link_next-rest bytes b rest more o.2 p))
      ])
  | inr small ↦
      let found_later : find_fit bytes rest ≡ some found = ground (arith, small, e) in
      let bounds = find_fit-bounds bytes (b.address + b.size + 1) rest found found_later o.3 in
      let later = release-take_fit bytes (b.address + b.size + 1) rest found p o.3 found_later in
      rw small (
        rw
          (release-beyond b (block bytes found.address) (take_fit bytes rest) o.2
            (omega (arith, bounds.0)))
          (ap (λ r. b ∷ r) later))
]
