-- ===== src/Memory.antt =====
-- The physical memory of the kernel, k/memory.c: the map of its regions, and the caches that the nodes
-- of this map come from. A list of k/list.h is the sequence of what is in it.
pub mod Init
pub mod Nodes
pub mod FirstFit
pub mod Reserve
mod Tests
use project_k.Base.{
  ℕ, zero, suc, ◌+◌, ◌-◌, ◌*◌, ◌/◌, ◌^◌, ltb, leb, ◌==◌, ◌&&◌, not, Bool, true, false,
  if◌then◌else◌, List, [], ◌∷◌, ◌++◌, Option, none, some, u32, length,
}
use project_k.Base.Options.{◌>>=◌}

-- A `struct memory_map`, at the address `node`. The field `type` is called `kind`; 0 is free.
pub record Region : Type 0 where
  pub node : ℕ
  pub base_addr : ℕ
  pub size : ℕ
  pub kind : ℕ

-- A `struct cache` without the caches behind it: the addresses of its free nodes, and the memory that
-- they lie in.
pub record Pool : Type 0 where
  pub freelist : List ℕ
  pub base : ℕ
  pub size : ℕ
  pub bsize : ℕ

pub record Cache : Type 0 where
  pub pool : Pool
  pub caches : List Pool

-- `memory_map_cache` and `metadata_cache`, and `memory_map`.
pub record Memory : Type 0 where
  pub maps : Cache
  pub metadata : Cache
  pub memory_map : List Region

abbrev pub sizeof_cache : ℕ
sizeof_cache = 28

abbrev pub sizeof_memory_map : ℕ
sizeof_memory_map = 20

-- The nodes that `cache_initialize` puts at the end of the list, after `n` rounds.
unfoldable pub nodes_from : (n p bsize : ℕ) → List ℕ
nodes_from zero p bsize = []
nodes_from (suc n) p bsize = nodes_from n p bsize ++ ((p + n * bsize) ∷ [])

unfoldable pub cache_initialize : (p sz bsize : ℕ) → Pool
cache_initialize p sz bsize = record {
  freelist = nodes_from (sz / bsize) p bsize;
  base = p;
  size = sz;
  bsize = bsize;
}

-- The count starts with 1, and goes up for each node.
unfoldable pub freelist_size : Pool → ℕ
freelist_size c = if length c.freelist == 0 then 0 else 1 + length c.freelist

unfoldable pub children_remaining : List Pool → ℕ
children_remaining [] = 0
children_remaining (c ∷ cs) = freelist_size c + children_remaining cs

unfoldable pub cache_remaining : Cache → ℕ
cache_remaining c = freelist_size c.pool + children_remaining c.caches

-- The first node of the list, taken off.
unfoldable pub pop : Pool → Option (ℕ × Pool)
pop c = elim (c.freelist) [ [] ↦ none | n ∷ rest ↦ some (n, record c { freelist = rest }) ]

-- The loop over the caches behind one: the first that has a node gives it.
unfoldable pub pop_child : List Pool → Option (ℕ × List Pool)
pop_child [] = none
pop_child (c ∷ cs) =
    let rest = pop_child cs >>= λ (n, cs). some (n, c ∷ cs) in
    elim (pop c) [ some (n, c') ↦ some (n, c' ∷ cs) | none ↦ rest ]

-- `__cache_alloc` as far as it needs no more memory.
unfoldable pub take_node : Cache → Option (ℕ × Cache)
take_node c = elim (pop c.pool) [
  | some (n, pool) ↦ some (n, record c { pool = pool })
  | none ↦ pop_child c.caches >>= λ (n, cs). some (n, record c { caches = cs })
]

pub data Which : Type 0 where
  maps metadata : Which

abbrev pub cache_of : Which → Memory → Cache
cache_of maps m = m.maps
cache_of metadata m = m.metadata

abbrev pub with_cache : Which → Cache → Memory → Memory
with_cache maps c m = record m { maps = c }
with_cache metadata c m = record m { metadata = c }

-- What the search of `__memory_reserve_ex` finds: a region to take as a whole, one to cut the block
-- from, one to cut from what is in front of the block, or none.
pub data Choice : Type 0 where
  whole : (node base : ℕ) → Choice
  cut : (node : ℕ) → Choice
  cut_front : (node first_size : ℕ) → Choice
  nowhere : Choice

unfoldable pub search_map : (base_addr size : ℕ) → List Region → Choice
search_map base_addr size [] = nowhere
search_map base_addr size (r ∷ rs) =
    if not (r.kind == 0)
    then search_map base_addr size rs
    else if base_addr == 0 && leb size r.size
    then (if r.size == size then whole r.node r.base_addr else cut r.node)
    else if leb r.base_addr base_addr && ltb base_addr (u32 (r.base_addr + r.size))
    then (if leb (u32 (r.base_addr + r.size)) (u32 (base_addr + size))
        then nowhere
        else if base_addr - r.base_addr == 0
        then cut r.node
        else cut_front r.node (base_addr - r.base_addr))
    else search_map base_addr size rs

-- `m->type = type` at a node.
unfoldable pub set_kind : (node kind : ℕ) → List Region → List Region
set_kind node kind [] = []
set_kind node kind (r ∷ rs) =
    if r.node == node then record r { kind = kind } ∷ rs else r ∷ set_kind node kind rs

-- The end of `memory_split` at a node, with the new node `t`: the address, and the map.
unfoldable pub split_at : (node t size : ℕ) → List Region → ℕ × List Region
split_at node t size [] = (0, [])
split_at node t size (r ∷ rs) =
    let (p, rest) = split_at node t size rs in
    if r.node == node
    then (
      r.base_addr,
      record { node = t; base_addr = r.base_addr; size = size; kind = 2 }
          ∷ record r { size = u32 (r.size + 2 ^ 32 - size); base_addr = u32 (r.base_addr + size) }
          ∷ rs,
    )
    else (p, r ∷ rest)

-- The functions call one another, and run on fuel. `none` is a run that the fuel does not end, or a
-- write through a null pointer.
unfoldable mutual
  pub cache_alloc : (fuel : ℕ) → Which → (in_extend : Bool) → Memory → Option (ℕ × Memory)
  cache_alloc zero w in_extend m = none
  cache_alloc (suc f) w in_extend m = elim (take_node (cache_of w m)) [
    | some (n, c) ↦ some (n, with_cache w c m)
    | none ↦ refill f w in_extend m >>= cache_alloc f w in_extend
  ]

  -- The part of `__cache_alloc` in front of `goto try_alloc`; `c` is the cache itself there.
  pub refill : (fuel : ℕ) → Which → (in_extend : Bool) → Memory → Option Memory
  refill zero w in_extend m = none
  refill (suc f) w in_extend m =
      elim (leb (cache_remaining m.metadata) 2 && not in_extend) [
        | true ↦ memory_reserve_in f 0 m.metadata.pool.size true m >>= λ (p, m').
            cache_extend f metadata p m'.metadata.pool.size m'.metadata.pool.bsize true m'
        | false ↦ some m
      ]
      >>= λ m. memory_reserve_in f 0 (cache_of w m).pool.size false m >>= λ (p, m').
          cache_extend f w p (cache_of w m').pool.size (cache_of w m').pool.bsize false m'

  pub cache_extend :
      (fuel : ℕ) → Which → (p sz bsize : ℕ) → (in_extend : Bool) → Memory → Option Memory
  cache_extend zero w p sz bsize in_extend m = none
  cache_extend (suc f) w p sz bsize in_extend m = cache_alloc f metadata in_extend m >>= λ (c, m).
      elim (p == 0) [
        | true ↦ none
        | false ↦ some (
            with_cache w
              (record (cache_of w m) {
                caches = (cache_of w m).caches ++ (cache_initialize p sz bsize ∷ []);
              })
              m)
      ]

  -- The result is the address, or 0.
  pub memory_split : (fuel node size : ℕ) → Memory → Option (ℕ × Memory)
  memory_split zero node size m = none
  memory_split (suc f) node size m = cache_alloc f maps false m >>= λ (t, m). some (
    (split_at node t size m.memory_map).0,
    record m { memory_map = (split_at node t size m.memory_map).1 },
  )

  -- `__memory_reserve_ex`.
  pub memory_reserve_in :
      (fuel base_addr size : ℕ) → (in_extend : Bool) → Memory → Option (ℕ × Memory)
  memory_reserve_in zero base_addr size in_extend m = none
  memory_reserve_in (suc f) base_addr size in_extend m =
      elim (leb (cache_remaining m.maps) 2 && not in_extend) [
        | true ↦ memory_reserve_in f 0 (10 * sizeof_cache) true m >>= λ (p, m).
            cache_extend f maps p (10 * sizeof_cache) sizeof_cache false m
        | false ↦ some m
      ]
      >>= λ m. elim (search_map base_addr size m.memory_map) [
        | whole node base ↦ some (base, record m { memory_map = set_kind node 2 m.memory_map })
        | cut node ↦ memory_split f node size m
        | cut_front node first_size ↦ memory_split f node first_size m >>= λ (p, m).
            memory_reserve_in f base_addr size false m
        | nowhere ↦ some (0, m)
      ]

unfoldable pub memory_reserve_ex : (fuel base_addr size : ℕ) → Memory → Option (ℕ × Memory)
memory_reserve_ex fuel base_addr size m = memory_reserve_in fuel base_addr size false m

unfoldable pub memory_reserve : (fuel size : ℕ) → Memory → Option (ℕ × Memory)
memory_reserve fuel size m = memory_reserve_ex fuel 0 size m

-- The first region at the address is freed.
unfoldable pub memory_release : (ptr : ℕ) → List Region → List Region
memory_release ptr [] = []
memory_release ptr (r ∷ rs) =
    if r.base_addr == ptr then record r { kind = 0 } ∷ rs else r ∷ memory_release ptr rs

-- A freed node is the first to be taken again.
unfoldable pub cache_try_free : (ptr : ℕ) → Pool → Option Pool
cache_try_free ptr c =
    if leb c.base ptr && ltb ptr (u32 (c.base + c.size))
    then some (record c { freelist = ptr ∷ c.freelist })
    else none

unfoldable pub free_child : (ptr : ℕ) → List Pool → List Pool
free_child ptr [] = []
free_child ptr (c ∷ cs) =
    let rest = free_child ptr cs in
    elim (cache_try_free ptr c) [ some c' ↦ c' ∷ cs | none ↦ c ∷ rest ]

unfoldable pub cache_free : (ptr : ℕ) → Cache → Cache
cache_free ptr c = elim (cache_try_free ptr c.pool) [
  | some pool ↦ record c { pool = pool }
  | none ↦ record c { caches = free_child ptr c.caches }
]
