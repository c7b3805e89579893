-- ===== src/Memory/FirstFit.antt =====
-- The memory map without its nodes, and the reservation of the first region that is large enough.
use project_k.Base.{
  ℕ, ◌+◌, ◌-◌, ◌^◌, ◌<◌, ◌≤◌, ◌≡◌, refl, ◌∙◌, arith, ltb, leb, ◌==◌, ◌&&◌, true, false, Bool-cases,
  inl, inr, if◌then◌else◌, List, [], ◌∷◌, map, u32,
}
use project_k.Memory.Nodes.{node_count}
use project_k.Memory.{
  Region, Choice, whole, cut, cut_front, nowhere, search_map, set_kind, split_at,
}

-- A region of the map: where it is, and whether it is free.
pub record Span : Type 0 where
  pub base_addr : ℕ
  pub size : ℕ
  pub kind : ℕ

abbrev pub view : Region → Span
view r = record { base_addr = r.base_addr; size = r.size; kind = r.kind }

-- The first free region that is large enough gives its start to the block. The result is the address
-- of the block, or 0, and the map.
unfoldable pub first_fit : (size : ℕ) → List Span → ℕ × List Span
first_fit size [] = (0, [])
first_fit size (s ∷ ss) =
    let (p, rest) = first_fit size ss in
    if s.kind == 0 && leb size s.size
    then (
      s.base_addr,
      if s.size == size
          then record s { kind = 2 } ∷ ss
          else record s { size = size; kind = 2 }
            ∷ record s { base_addr = s.base_addr + size; size = s.size - size }
            ∷ ss,
    )
    else (p, s ∷ rest)

-- The regions end below 2^32, and no free one starts at the address 0.
abbrev pub Placed : List Span → Type 0
Placed [] = Unit {0}
Placed (s ∷ ss) = (s.base_addr + s.size < 2 ^ 32) × (s.kind ≡ 0 → 0 < s.base_addr) × Placed ss

-- What is done with the choice of the search is what `first_fit` does.
abbrev pub Agrees : (size : ℕ) → List Region → Choice → Type 0
Agrees size rs nowhere = first_fit size (map view rs) ≡ (0, map view rs)
Agrees size rs (whole n b) =
    (1 ≤ node_count n rs) × (first_fit size (map view rs) ≡ (b, map view (set_kind n 2 rs)))
Agrees size rs (cut n) =
    (1 ≤ node_count n rs)
    × ((t : ℕ)
        → first_fit size (map view rs)
          ≡ ((split_at n t size rs).0, map view (split_at n t size rs).1))
Agrees size rs (cut_front n k) = ⊥

first_fit-skip :
    (size : ℕ) (s : Span) (ss : List Span)
    → (s.kind == 0 && leb size s.size) ≡ false
    → first_fit size (s ∷ ss) ≡ ((first_fit size ss).0, s ∷ (first_fit size ss).1)
unfolding first_fit
first_fit-skip size s ss e = rw e

first_fit-whole :
    (size : ℕ) (s : Span) (ss : List Span)
    → (s.kind == 0 && leb size s.size) ≡ true
    → (s.size == size) ≡ true
    → first_fit size (s ∷ ss) ≡ (s.base_addr, record s { kind = 2 } ∷ ss)
unfolding first_fit
first_fit-whole size s ss e same = rw (e, same)

first_fit-cut :
    (size : ℕ) (s : Span) (ss : List Span)
    → (s.kind == 0 && leb size s.size) ≡ true
    → (s.size == size) ≡ false
    → first_fit size (s ∷ ss) ≡ (
      s.base_addr,
      record s { size = size; kind = 2 }
          ∷ record s { base_addr = s.base_addr + size; size = s.size - size }
          ∷ ss,
    )
unfolding first_fit
first_fit-cut size s ss e larger = rw (e, larger)

-- A region that is passed over.
Agrees-skip :
    (size : ℕ) (r : Region) (rs : List Region) (c : Choice)
    → ((n : ℕ) → node_count n (r ∷ rs) ≤ 1)
    → (r.kind == 0 && leb size r.size) ≡ false
    → Agrees size rs c
    → Agrees size (r ∷ rs) c
unfolding set_kind split_at
Agrees-skip size r rs nowhere once e a = first_fit-skip size (view r) (map view rs) e ∙ rw a
Agrees-skip size r rs (whole n b) once e a =
    let other : (r.node == n) ≡ false = ground (arith, once n, a.0) in
    (ground (arith, a.0), first_fit-skip size (view r) (map view rs) e ∙ rw (a.1, other))
Agrees-skip size r rs (cut n) once e a =
    let other : (r.node == n) ≡ false = ground (arith, once n, a.0) in
    (ground (arith, a.0), λ t. first_fit-skip size (view r) (map view rs) e ∙ rw (a.1 t, other))
Agrees-skip size r rs (cut_front n k) once e a = absurd a

pub search_map-Agrees :
    (size : ℕ) (rs : List Region)
    → ((n : ℕ) → node_count n rs ≤ 1)
    → Placed (map view rs)
    → Agrees size rs (search_map 0 size rs)
unfolding search_map first_fit set_kind split_at
search_map-Agrees size [] once placed = refl
search_map-Agrees size (r ∷ rs) once placed = elim (Bool-cases (r.kind == 0)) [
  | inr busy ↦ rw busy (
      Agrees-skip size r rs (search_map 0 size rs) once (rw busy)
        (search_map-Agrees size rs (λ n. omega (arith, once n)) placed.2))
  | inl free ↦
      let here : (r.node == r.node) ≡ true = ground arith in
      let low : 0 < r.base_addr = placed.1 (ground (arith, free)) in
      let not_zero : leb r.base_addr 0 ≡ false = ground (arith, low) in
      elim (Bool-cases (leb size r.size)) [
        | inr small ↦
            rw (free, small, not_zero)
              (Agrees-skip size r rs (search_map 0 size rs) once (rw (free, small))
                (search_map-Agrees size rs (λ n. omega (arith, once n)) placed.2))
        | inl fits ↦ elim (Bool-cases (r.size == size)) [
          | inl same ↦
              rw (free, fits, same)
                (
                  ground arith,
                  first_fit-whole size (view r) (map view rs) (rw (free, fits)) same ∙ rw here,
                )
          | inr larger ↦
              let left : u32 (r.size + 2 ^ 32 - size) ≡ r.size - size =
                ground (arith, fits, placed.0) in
              let next : u32 (r.base_addr + size) ≡ r.base_addr + size =
                ground (arith, fits, placed.0) in
              rw (free, fits, larger)
                (
                  ground arith,
                  λ t.
                      first_fit-cut size (view r) (map view rs) (rw (free, fits)) larger
                      ∙ rw (here, left, next),
                )
        ]
      ]
]

pub first_fit-Placed : (size : ℕ) (ss : List Span) → Placed ss → Placed (first_fit size ss).1
unfolding first_fit
first_fit-Placed size [] placed = placed
first_fit-Placed size (s ∷ ss) placed = elim (Bool-cases (s.kind == 0 && leb size s.size)) [
  | inr skipped ↦ rw skipped (placed.0, placed.1, first_fit-Placed size ss placed.2)
  | inl taken ↦ elim (Bool-cases (s.size == size)) [
    | inl same ↦ rw (taken, same) (placed.0, λ e. absurd (omega (arith, e)), placed.2)
    | inr larger ↦
        let low = placed.1 (ground (arith, taken)) in
        rw (taken, larger)
          (
            ground (arith, taken, placed.0),
            λ e. absurd (omega (arith, e)),
            (ground (arith, taken, placed.0), λ e. omega (arith, low), placed.2),
          )
  ]
]

-- How many regions an address lies in, and how many of these are taken.
abbrev pub inside : (a base size : ℕ) → ℕ
inside a base size = if leb base a && ltb a (base + size) then 1 else 0

abbrev pub covered : (a : ℕ) → List Span → ℕ
covered a [] = 0
covered a (s ∷ ss) = inside a s.base_addr s.size + covered a ss

abbrev pub held : (a : ℕ) → List Span → ℕ
held a [] = 0
held a (s ∷ ss) = (if s.kind == 0 then 0 else inside a s.base_addr s.size) + held a ss

pub first_fit-held :
    (a size : ℕ) (ss : List Span)
    → 0 < (first_fit size ss).0
    → (covered a (first_fit size ss).1 ≡ covered a ss)
      × (held a (first_fit size ss).1 ≡ inside a (first_fit size ss).0 size + held a ss)
unfolding first_fit
first_fit-held a size [] = λ h. absurd (omega arith)
first_fit-held a size (s ∷ ss) = elim (Bool-cases (s.kind == 0 && leb size s.size)) [
  | inr skipped ↦
      rw skipped
        (λ h. let (c, t) = first_fit-held a size ss h in (omega (arith, c), omega (arith, t)))
  | inl taken ↦
      let free : s.kind ≡ 0 = ground (arith, taken) in
      let fits : size ≤ s.size = ground (arith, taken) in
      elim (Bool-cases (s.size == size)) [
        | inl same ↦
            let eq : s.size ≡ size = ground (arith, same) in
            rw (taken, same, free) (λ h. (refl, rw eq (omega arith)))
        | inr larger ↦ rw (taken, larger, free) (λ h. (ground arith, ground arith))
      ]
]
