-- ===== src/Memory/Nodes.antt =====
-- The nodes of a cache: which are free, and that `__cache_alloc` takes one of them.
use project_k.Base.{
  ℕ, ◌+◌, ◌<◌, ◌≤◌, ◌≡◌, refl, arith, ◌==◌, Bool-cases, inl, inr, ◌⊎◌, if◌then◌else◌, List, [], ◌∷◌,
  none, some,
}
use project_k.Memory.{
  Region, Pool, Cache, freelist_size, children_remaining, cache_remaining, pop, pop_child,
  take_node, set_kind, split_at,
}

-- How often an address is in a list, and among the free nodes of a cache.
abbrev pub occurs : (k : ℕ) → List ℕ → ℕ
occurs k [] = 0
occurs k (n ∷ ns) = (if n == k then 1 else 0) + occurs k ns

abbrev pub children_count : (k : ℕ) → List Pool → ℕ
children_count k [] = 0
children_count k (c ∷ cs) = occurs k c.freelist + children_count k cs

abbrev pub free_count : (k : ℕ) → Cache → ℕ
free_count k c = occurs k c.pool.freelist + children_count k c.caches

-- A pool that is empty, or gives a node.
abbrev Popped : Pool → Type 0
Popped p =
    ((pop p ≡ none) × (freelist_size p ≡ 0))
    ⊎ ((n : ℕ) × (p' : Pool) × (pop p ≡ some (n, p'))
        × ((k : ℕ) → occurs k p.freelist ≡ (if n == k then 1 else 0) + occurs k p'.freelist))

pop-refilled : (p : Pool) (l : List ℕ) → Popped (record p { freelist = l })
unfolding pop freelist_size
pop-refilled p [] = inl (refl, refl)
pop-refilled p (n ∷ ns) = inr (n, record p { freelist = ns }, refl, λ k. refl)

pop-Popped : (p : Pool) → Popped p
pop-Popped p = pop-refilled p p.freelist

pop_child-some :
    (cs : List Pool)
    → 0 < children_remaining cs
    → (n : ℕ) × (cs' : List Pool) × (pop_child cs ≡ some (n, cs'))
      × ((k : ℕ) → children_count k cs ≡ (if n == k then 1 else 0) + children_count k cs')
unfolding pop_child children_remaining
pop_child-some [] h = absurd (omega arith)
pop_child-some (c ∷ cs) h = elim (pop-Popped c) [
  | inl (empty, size) ↦
      let (n, cs', taken, count) = pop_child-some cs (omega (arith, h, size)) in
      (n, c ∷ cs', rw (empty, taken, pop_child), λ k. omega (arith, count k))
  | inr (n, c', popped, count) ↦ (n, c' ∷ cs, rw (popped, pop_child), λ k. omega (arith, count k))
]

-- A cache that has a node left gives one of its nodes.
pub take_node-some :
    (c : Cache)
    → 0 < cache_remaining c
    → (n : ℕ) × (c' : Cache) × (take_node c ≡ some (n, c'))
      × ((k : ℕ) → free_count k c ≡ (if n == k then 1 else 0) + free_count k c')
unfolding take_node cache_remaining
take_node-some c h = elim (pop-Popped c.pool) [
  | inl (empty, size) ↦
      let (n, cs, taken, count) = pop_child-some c.caches (omega (arith, h, size)) in
      (n, record c { caches = cs }, rw (empty, taken, take_node), λ k. omega (arith, count k))
  | inr (n, pool, popped, count) ↦
      (n, record c { pool = pool }, rw (popped, take_node), λ k. omega (arith, count k))
]

-- How often an address is a node of the map.
abbrev pub node_count : (n : ℕ) → List Region → ℕ
node_count n [] = 0
node_count n (r ∷ rs) = (if r.node == n then 1 else 0) + node_count n rs

pub node_count-set_kind :
    (k n kind : ℕ) (rs : List Region) → node_count k (set_kind n kind rs) ≡ node_count k rs
unfolding set_kind
node_count-set_kind k n kind [] = refl
node_count-set_kind k n kind (r ∷ rs) = elim (Bool-cases (r.node == n)) [
  | inl here ↦ rw here refl
  | inr other ↦ rw (other, node_count-set_kind k n kind rs)
]

pub node_count-split_at :
    (k n t size : ℕ) (rs : List Region)
    → 1 ≤ node_count n rs
    → node_count k (split_at n t size rs).1 ≡ (if t == k then 1 else 0) + node_count k rs
unfolding split_at
node_count-split_at k n t size [] h = absurd (omega arith)
node_count-split_at k n t size (r ∷ rs) h = elim (Bool-cases (r.node == n)) [
  | inl here ↦ rw here refl
  | inr other ↦
      let rest = node_count-split_at k n t size rs (ground (arith, h, other)) in
      rw other (omega (arith, rest))
]
