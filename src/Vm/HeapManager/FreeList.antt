-- ===== src/Vm/HeapManager/FreeList.antt =====
-- src/vm/memory/HeapManager.cpp: the walks over the free list. A `FreeBlock*` chain is a list; unlinking
-- and relinking nodes rebuilds it.
pub mod Ordered
pub mod Refill
pub mod Release
use simple_virtual_language.Base.{
  ℕ, ◌+◌, ◌-◌, ◌%◌, ◌^◌, Bool, List, [], ◌∷◌, Option, none, some, leb, ltb, ◌==◌, if◌then◌else◌,
}
use simple_virtual_language.Vm.State.{FreeBlock, u32}

abbrev pub block : ℕ → ℕ → FreeBlock
block size address = record { size = size; address = address }

-- The first block of at least `bytes` bytes.
unfoldable pub find_fit : ℕ → List FreeBlock → Option FreeBlock
find_fit bytes [] = none
find_fit bytes (b ∷ rest) = if leb bytes b.size then some b else find_fit bytes rest

-- Takes `bytes` from the front of that block, which is unlinked where nothing is left of it.
unfoldable pub take_fit : ℕ → List FreeBlock → List FreeBlock
take_fit bytes [] = []
take_fit bytes (b ∷ rest) =
    if leb bytes b.size
    then if b.size == bytes then rest else block (b.size - bytes) (u32 (b.address + bytes)) ∷ rest
    else b ∷ take_fit bytes rest

-- The test of `mergeIfAdjacentBlocks`, and the merged block.
unfoldable pub adjacent : FreeBlock → FreeBlock → Bool
adjacent b c = u32 (b.address + b.size) == c.address

unfoldable pub merged : FreeBlock → FreeBlock → FreeBlock
merged b c = block (u32 (b.size + c.size)) b.address

-- `node` is linked before the given rest, and merged with the next block where they touch.
unfoldable pub link_next : FreeBlock → List FreeBlock → List FreeBlock
unfolding adjacent merged
link_next node [] = node ∷ []
link_next node (c ∷ rest) = if adjacent node c then merged node c ∷ rest else node ∷ c ∷ rest

-- The new block comes behind `prev`; where they touch, the merged block is the one linked on.
unfoldable pub link_prev : FreeBlock → FreeBlock → List FreeBlock → List FreeBlock
unfolding adjacent merged link_next
link_prev prev new rest =
    if adjacent prev new then link_next (merged prev new) rest else prev ∷ link_next new rest

-- The walk of `deallocateBlock` with a previous block.
unfoldable pub release_behind : FreeBlock → FreeBlock → List FreeBlock → List FreeBlock
unfolding link_prev
release_behind prev new [] = link_prev prev new []
release_behind prev new (c ∷ rest) =
    let further = release_behind c new rest in
    if ltb c.address new.address then prev ∷ further else link_prev prev new (c ∷ rest)

unfoldable pub release : FreeBlock → List FreeBlock → List FreeBlock
unfolding release_behind link_next
release new [] = link_next new []
release new (c ∷ rest) =
    if ltb c.address new.address then release_behind c new rest else link_next new (c ∷ rest)
