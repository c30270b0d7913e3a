-- ===== src/Vm/HeapManager/FreeList/Release.antt =====
-- src/vm/memory/HeapManager.cpp: a release against the order of the free list.
use simple_virtual_language.Base.{
  ℕ, ◌+◌, ◌^◌, ◌≤◌, ◌<◌, ◌≡◌, refl, ◌⊎◌, inl, inr, true, false, List, [], ◌∷◌, ltb, arith,
  Bool-cases,
}
use simple_virtual_language.Vm.State.{FreeBlock, u32}
use simple_virtual_language.Vm.HeapManager.FreeList.{
  adjacent, merged, link_next, link_prev, release_behind, release,
}
use simple_virtual_language.Vm.HeapManager.FreeList.Ordered.{Ordered}

-- A block that shares no byte with any of the list.
abbrev pub Apart : FreeBlock → List FreeBlock → Type 0
Apart new [] = Unit {0}
Apart new (c ∷ rest) =
    ((c.address + c.size ≤ new.address) ⊎ (new.address + new.size ≤ c.address)) × Apart new rest

pub record Whole (lo : ℕ) (b : FreeBlock) : Type 0 where
  pub above : lo ≤ b.address
  pub holds_bytes : 0 < b.size
  pub ends : b.address + b.size < 2 ^ 32

raise-Ordered :
    (lo hi : ℕ) (blocks : List FreeBlock)
    → ((c : FreeBlock) (rest : List FreeBlock) → blocks ≡ c ∷ rest → hi ≤ c.address)
    → Ordered lo blocks
    → Ordered hi blocks
raise-Ordered lo hi [] h o = tt
raise-Ordered lo hi (c ∷ rest) h o = (h c rest refl, o.1, o.2, o.3)

merged-Whole :
    (lo : ℕ) (b c : FreeBlock)
    → Whole lo b
    → Whole 0 c
    → c.address ≡ b.address + b.size
    → (u32 (b.size + c.size) ≡ b.size + c.size) × Whole lo (merged b c)
unfolding merged
merged-Whole lo b c wb wc e =
    let size : u32 (b.size + c.size) ≡ b.size + c.size = omega (arith, wb.ends, wc.ends) in
    (
      size,
      record {
        above = wb.above;
        holds_bytes = omega (arith, size, wb.holds_bytes);
        ends = omega (arith, size, wc.ends);
      },
    )

touching :
    (b c : FreeBlock)
    → b.address + b.size < 2 ^ 32
    → adjacent b c ≡ true
    → c.address ≡ b.address + b.size
unfolding adjacent
touching b c h e = ground arith

not_touching :
    (b c : FreeBlock)
    → b.address + b.size < 2 ^ 32
    → b.address + b.size ≤ c.address
    → adjacent b c ≡ false
    → b.address + b.size + 1 ≤ c.address
unfolding adjacent
not_touching b c h h' e = ground arith

link_next-Ordered :
    (lo : ℕ) (b : FreeBlock) (rest : List FreeBlock)
    → Whole lo b
    → Ordered (b.address + b.size) rest
    → Ordered lo (link_next b rest)
unfolding link_next merged
link_next-Ordered lo b [] w o = (w.above, w.holds_bytes, w.ends, tt)
link_next-Ordered lo b (c ∷ rest) w o = elim (Bool-cases (adjacent b c)) [
  | inl near ↦
      let start = touching b c w.ends near in
      let (size, whole) =
        merged-Whole lo b c w (record { above = omega arith; holds_bytes = o.1; ends = o.2 })
          start in
      let end : b.address + (b.size + c.size) ≡ c.address + c.size = omega arith in
      rw near (whole.above, whole.holds_bytes, whole.ends, rw (size, end) o.3)
  | inr far ↦
      rw far (w.above, w.holds_bytes, w.ends, (not_touching b c w.ends o.0 far, o.1, o.2, o.3))
]

link_prev-Ordered :
    (lo : ℕ) (b new : FreeBlock) (rest : List FreeBlock)
    → Whole lo b
    → Whole (b.address + b.size) new
    → Ordered (new.address + new.size) rest
    → Ordered lo (link_prev b new rest)
unfolding link_prev merged
link_prev-Ordered lo b new rest w w' o = elim (Bool-cases (adjacent b new)) [
  | inl near ↦
      let start = touching b new w.ends near in
      let (size, whole) =
        merged-Whole lo b new w
          (record { above = omega arith; holds_bytes = w'.holds_bytes; ends = w'.ends }) start in
      let end : b.address + (b.size + new.size) ≡ new.address + new.size = omega arith in
      rw near (link_next-Ordered lo (merged b new) rest whole (rw (size, end) o))
  | inr far ↦ rw far (
    w.above,
    w.holds_bytes,
    w.ends,
    link_next-Ordered (b.address + b.size + 1) new rest
        (record {
          above = not_touching b new w.ends w'.above far;
          holds_bytes = w'.holds_bytes;
          ends = w'.ends;
        })
        o,
  )
]

-- What lies behind the new block starts at its end or beyond.
behind_new :
    (lo : ℕ) (new c : FreeBlock) (rest : List FreeBlock)
    → 0 < new.size
    → Apart new (c ∷ rest)
    → Ordered lo (c ∷ rest)
    → ltb c.address new.address ≡ false
    → Ordered (new.address + new.size) (c ∷ rest)
behind_new lo new c rest p (inl before, others) o later =
    absurd (ground (arith, later, o.1, before))
behind_new lo new c rest p (inr beyond, others) o later = (beyond, o.1, o.2, o.3)

in_front :
    (lo : ℕ) (new c : FreeBlock) (rest : List FreeBlock)
    → 0 < new.size
    → Apart new (c ∷ rest)
    → ltb c.address new.address ≡ true
    → c.address + c.size ≤ new.address
in_front lo new c rest p (inl before, others) e = before
in_front lo new c rest p (inr beyond, others) e = absurd (ground (arith, e, p, beyond))

release_behind-Ordered :
    (lo : ℕ) (b new : FreeBlock) (rest : List FreeBlock)
    → Whole lo b
    → Whole (b.address + b.size) new
    → Apart new rest
    → Ordered (b.address + b.size + 1) rest
    → Ordered lo (release_behind b new rest)
unfolding release_behind
release_behind-Ordered lo b new [] w w' apart o = link_prev-Ordered lo b new [] w w' tt
release_behind-Ordered lo b new (c ∷ rest) w w' apart o =
    elim (Bool-cases (ltb c.address new.address)) [
      | inl earlier ↦ rw earlier (
        w.above,
        w.holds_bytes,
        w.ends,
        release_behind-Ordered (b.address + b.size + 1) c new rest
            (record { above = o.0; holds_bytes = o.1; ends = o.2 })
            (record {
              above = in_front lo new c rest w'.holds_bytes apart earlier;
              holds_bytes = w'.holds_bytes;
              ends = w'.ends;
            })
            apart.1 o.3,
      )
      | inr later ↦ rw later (
          link_prev-Ordered lo b new (c ∷ rest) w w'
            (behind_new (b.address + b.size + 1) new c rest w'.holds_bytes apart o later))
    ]

-- Releasing a block that is not empty, lies within memory and shares no byte with a free block keeps the
-- free list in order, with blocks that touch merged.
pub release-Ordered :
    (lo : ℕ) (new : FreeBlock) (blocks : List FreeBlock)
    → Whole lo new
    → Apart new blocks
    → Ordered lo blocks
    → Ordered lo (release new blocks)
unfolding release
release-Ordered lo new [] w apart o = link_next-Ordered lo new [] w tt
release-Ordered lo new (c ∷ rest) w apart o = elim (Bool-cases (ltb c.address new.address)) [
  | inl earlier ↦ rw earlier (
      release_behind-Ordered lo c new rest (record { above = o.0; holds_bytes = o.1; ends = o.2 })
        (record {
          above = in_front lo new c rest w.holds_bytes apart earlier;
          holds_bytes = w.holds_bytes;
          ends = w.ends;
        })
        apart.1 o.3)
  | inr later ↦
      rw later (
        link_next-Ordered lo new (c ∷ rest) w
          (behind_new lo new c rest w.holds_bytes apart o later))
]
