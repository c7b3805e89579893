-- ===== src/Memory/Reserve.antt =====
-- `memory_reserve` while the cache of the nodes has more than two left.
use project_k.Base.{
  ℕ, suc, ◌+◌, ◌<◌, ◌≤◌, ◌≡◌, refl, sym, ap, ◌∙◌, arith, leb, false, List, map, Option, some,
}
use project_k.Base.Options.{◌>>=◌}
use project_k.Memory.{
  Cache, Memory, maps, Choice, whole, cut, cut_front, nowhere, search_map, set_kind, split_at,
  cache_remaining, take_node, cache_alloc, memory_split, memory_reserve_in, memory_reserve_ex,
  memory_reserve,
}
use project_k.Memory.Nodes.{
  free_count, node_count, node_count-set_kind, node_count-split_at, take_node-some,
}
use project_k.Memory.FirstFit.{
  Span, view, first_fit, Placed, Agrees, search_map-Agrees, first_fit-Placed, inside, covered, held,
  first_fit-held,
}

-- No node is twice in the map or among the free ones, nor in both.
abbrev pub Sound : Memory → Type 0
Sound m = (n : ℕ) → node_count n m.memory_map + free_count n m.maps ≤ 1

cache_alloc-some :
    (fuel t : ℕ) (m : Memory) {c : Cache}
    → take_node m.maps ≡ some (t, c)
    → cache_alloc (suc fuel) maps false m ≡ some (t, record m { maps = c })
unfolding cache_alloc
cache_alloc-some fuel t m e = rw (e, cache_alloc) refl

memory_split-some :
    (fuel node size t : ℕ) (m : Memory) {c : Cache}
    → take_node m.maps ≡ some (t, c)
    → memory_split (suc (suc fuel)) node size m
      ≡ some (
        (split_at node t size m.memory_map).0,
        record m { maps = c; memory_map = (split_at node t size m.memory_map).1 },
      )
unfolding memory_split
memory_split-some fuel node size t m e = rw (cache_alloc-some fuel t m e, memory_split) refl

-- The end of `__memory_reserve_ex` for any address, once the search has chosen.
abbrev carry_out : (fuel size : ℕ) → Memory → Choice → Option (ℕ × Memory)
carry_out fuel size m (whole node base) =
    some (base, record m { memory_map = set_kind node 2 m.memory_map })
carry_out fuel size m (cut node) = memory_split fuel node size m
carry_out fuel size m (cut_front node first_size) =
    memory_split fuel node first_size m >>= λ (p, m). memory_reserve_in fuel 0 size false m
carry_out fuel size m nowhere = some (0, m)

memory_reserve_in-carry_out :
    (fuel size : ℕ) (m : Memory)
    → 2 < cache_remaining m.maps
    → memory_reserve_in (suc fuel) 0 size false m
      ≡ carry_out fuel size m (search_map 0 size m.memory_map)
unfolding memory_reserve_in
memory_reserve_in-carry_out fuel size m left =
    let enough : leb (cache_remaining m.maps) 2 ≡ false = ground (arith, left) in rw enough refl

-- The address and the map that an abstract reservation gives, and the nodes in order.
abbrev Reserved : (o : Option (ℕ × Memory)) (to : ℕ × List Span) → Type 0
Reserved o to = (m : Memory) × (o ≡ some (to.0, m)) × (map view m.memory_map ≡ to.1) × Sound m

carry_out-Reserved :
    (fuel size : ℕ) (m : Memory) (c : Choice)
    → Agrees size m.memory_map c
    → Sound m
    → 2 < cache_remaining m.maps
    → Reserved (carry_out (suc (suc fuel)) size m c) (first_fit size (map view m.memory_map))
carry_out-Reserved fuel size m nowhere a sound left = (m, rw a refl, rw a refl, sound)
carry_out-Reserved fuel size m (whole n b) a sound left = (
  record m { memory_map = set_kind n 2 m.memory_map },
  rw (a.1) refl,
  rw (a.1) refl,
  λ k. rw (node_count-set_kind k n 2 m.memory_map) (sound k),
)
carry_out-Reserved fuel size m (cut n) a sound left =
    let (t, c, taken, count) = take_node-some m.maps (omega (arith, left)) in
    (
      record m { maps = c; memory_map = (split_at n t size m.memory_map).1 },
      rw (a.1 t) (memory_split-some fuel n size t m taken),
      rw (a.1 t) refl,
      λ k. omega (arith, sound k, count k, node_count-split_at k n t size m.memory_map a.0),
    )
carry_out-Reserved fuel size m (cut_front n k) a sound left = absurd a

-- When the cache of the nodes counts more than two, no node is twice in the map or among the free ones,
-- the regions end below 2^32 and no free one is at the address 0, a reservation is the first fit: it
-- ends with a fuel of three, it gives the address and the map of `first_fit`, and it keeps the nodes
-- apart and the map in place.
pub memory_reserve-first_fit :
    (fuel size : ℕ) (m : Memory)
    → Sound m
    → Placed (map view m.memory_map)
    → 2 < cache_remaining m.maps
    → (m' : Memory) × (memory_reserve (suc (suc (suc fuel))) size m
        ≡ some ((first_fit size (map view m.memory_map)).0, m'))
      × (map view m'.memory_map ≡ (first_fit size (map view m.memory_map)).1)
      × Sound m'
      × Placed (map view m'.memory_map)
unfolding memory_reserve memory_reserve_ex
memory_reserve-first_fit fuel size m sound placed left =
    let found = search_map-Agrees size m.memory_map (λ n. omega (arith, sound n)) placed in
    let (m', e, shown, sound') =
      carry_out-Reserved fuel size m (search_map 0 size m.memory_map) found sound left in
    (
      m',
      memory_reserve_in-carry_out (suc (suc fuel)) size m left ∙ e,
      shown,
      sound',
      rw shown (first_fit-Placed size (map view m.memory_map) placed),
    )

-- When the cache of the nodes counts more than two, no node is twice in the map or among the free ones,
-- the regions end below 2^32 and no free one is at the address 0, and a reservation gives an address p
-- other than 0, then no address is in more or in fewer regions than before, and what is taken is what
-- was taken before and, besides it, the addresses from p on as many as were asked for.
pub memory_reserve-held :
    (fuel size a p : ℕ) (m : Memory) {m' : Memory}
    → Sound m
    → Placed (map view m.memory_map)
    → 2 < cache_remaining m.maps
    → memory_reserve (suc (suc (suc fuel))) size m ≡ some (p, m')
    → 0 < p
    → (covered a (map view m'.memory_map) ≡ covered a (map view m.memory_map))
      × (held a (map view m'.memory_map) ≡ inside a p size + held a (map view m.memory_map))
memory_reserve-held fuel size a p m {m'} sound placed left run found =
    let (after, e, shown, sound', placed') =
      memory_reserve-first_fit fuel size m sound placed left in
    let first : (first_fit size (map view m.memory_map)).0 ≡ p = cc in
    let same : after ≡ m' = cc in
    let view' : map view m'.memory_map ≡ (first_fit size (map view m.memory_map)).1 =
      ap (λ m. map view m.memory_map) (sym same) ∙ shown in
    let (c, h) = first_fit-held a size (map view m.memory_map) (omega (arith, first, found)) in
    (rw view' c, rw view' (rw (sym first) h))
