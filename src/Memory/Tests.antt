-- ===== src/Memory/Tests.antt =====
-- Runs of the memory map: two zones, of which the first is taken, and a cache of four nodes.
use project_k.Base.{
  ◌+◌, ◌==◌, if◌then◌else◌, ◌<◌, ◌≡◌, refl, arith, List, [], ◌∷◌, map, Option, none, some,
}
use project_k.Memory.{
  Memory, Pool, cache_initialize, freelist_size, children_remaining, nodes_from, split_at, pop,
  memory_reserve_in, memory_split, cache_alloc, cache_remaining, cut_front, nowhere, search_map,
  memory_reserve, memory_reserve_ex, memory_release, cache_free, cache_try_free, cache_extend,
  pop_child, set_kind, take_node,
}
use project_k.Memory.Init.{Info, memory_init, cache_new, add_zones, last_loaded_addr}
use project_k.Memory.FirstFit.{Span, view, first_fit, Placed, inside, covered, held}
use project_k.Memory.Reserve.{Sound, memory_reserve-first_fit, memory_reserve-held}

abbrev four_nodes : Pool
four_nodes = record {
  freelist = 0x9000 ∷ 0x9014 ∷ 0x9028 ∷ 0x903C ∷ [];
  base = 0x9000;
  size = 80;
  bsize = 20;
}

four_nodes_test : cache_initialize 0x9000 80 20 ≡ four_nodes
unfolding cache_initialize nodes_from
four_nodes_test = refl

abbrev two_zones : Memory
two_zones = record {
  maps = record { pool = four_nodes; caches = [] };
  metadata = record { pool = cache_initialize 0xA000 280 28; caches = [] };
  memory_map =
      record { node = 0x8000; base_addr = 0; size = 0x8000; kind = 2 }
      ∷ record { node = 0x8014; base_addr = 0x100000; size = 0x10000; kind = 0 }
      ∷ [];
}

two_zones-Sound : Sound two_zones
two_zones-Sound n = ground arith

two_zones-Placed : Placed (map view two_zones.memory_map)
two_zones-Placed =
    (omega arith, λ e. absurd (omega (arith, e)), (omega arith, λ e. omega arith, tt))

-- The count of `freelist_size` is one more than there are nodes.
five_left : cache_remaining two_zones.maps ≡ 5
unfolding cache_remaining freelist_size children_remaining
five_left = refl

enough_left : 2 < cache_remaining two_zones.maps
enough_left = omega (arith, five_left)

memory_reserve-first_fit_example :
    (m' : Memory) × (memory_reserve 3 0x2000 two_zones
      ≡ some ((first_fit 0x2000 (map view two_zones.memory_map)).0, m'))
    × (map view m'.memory_map ≡ (first_fit 0x2000 (map view two_zones.memory_map)).1)
    × Sound m'
    × Placed (map view m'.memory_map)
memory_reserve-first_fit_example =
    memory_reserve-first_fit 0 0x2000 two_zones two_zones-Sound two_zones-Placed enough_left

abbrev after_two_pages : Memory
after_two_pages = record two_zones {
  maps = record {
    pool = record four_nodes { freelist = 0x9014 ∷ 0x9028 ∷ 0x903C ∷ [] };
    caches = [];
  };
  memory_map =
      record { node = 0x8000; base_addr = 0; size = 0x8000; kind = 2 }
      ∷ record { node = 0x9000; base_addr = 0x100000; size = 0x2000; kind = 2 }
      ∷ record { node = 0x8014; base_addr = 0x102000; size = 0xE000; kind = 0 }
      ∷ [];
}

two_pages_test : memory_reserve 3 0x2000 two_zones ≡ some (0x100000, after_two_pages)
unfolding memory_reserve memory_reserve_ex memory_reserve_in memory_split cache_alloc take_node pop
    search_map split_at cache_remaining freelist_size children_remaining
two_pages_test = refl

memory_reserve-held_example :
    (covered 0x101234 (map view after_two_pages.memory_map)
      ≡ covered 0x101234 (map view two_zones.memory_map))
    × (held 0x101234 (map view after_two_pages.memory_map)
        ≡ inside 0x101234 0x100000 0x2000 + held 0x101234 (map view two_zones.memory_map))
memory_reserve-held_example =
    memory_reserve-held 0 0x2000 0x101234 0x100000 two_zones two_zones-Sound two_zones-Placed
      enough_left two_pages_test (omega arith)

-- A free region at the address 0 that is too small ends the search, though a later one is large enough.
zero_zone_test :
    search_map 0 0x2000 (
      record { node = 0x8000; base_addr = 0; size = 0x1000; kind = 0 }
      ∷ record { node = 0x8014; base_addr = 0x100000; size = 0x10000; kind = 0 }
      ∷ [])
    ≡ nowhere
unfolding search_map
zero_zone_test = refl

-- A block up to the end of its region is refused, and one that ends before it is not.
last_block_test : search_map 0x10F000 0x1000 two_zones.memory_map ≡ nowhere
unfolding search_map
last_block_test = refl

inner_block_test : search_map 0x10E000 0x1000 two_zones.memory_map ≡ cut_front 0x8014 0xE000
unfolding search_map
inner_block_test = refl

abbrev two_zone_info : Info
two_zone_info = record {
  mods_count = 1;
  mod_end = λ i. 0x180000;
  mem_lower = 639;
  mmap_length = 48;
  mmap = λ i.
      if i == 0
      then record { addr = 0; len = 0x9FC00; kind = 1 }
      else record { addr = 0x100000; len = 0x7EE0000; kind = 1 };
}

abbrev map_of : Option Memory → List Span
map_of none = []
map_of (some m) = map view m.memory_map

-- After the start, with two zones, the low memory and the kernel with its modules are taken; but the
-- block behind them, where the first caches lie, was given to the cache of the nodes.
memory_init_test :
    map_of (memory_init 8 0x170000 two_zone_info)
    ≡ record { base_addr = 0; size = 0x9FC00; kind = 2 }
      ∷ record { base_addr = 0x100000; size = 0x80000; kind = 2 }
      ∷ record { base_addr = 0x180000; size = 280; kind = 2 }
      ∷ record { base_addr = 0x180118; size = 0x7E5FEE8; kind = 0 }
      ∷ []
unfolding memory_init cache_new add_zones last_loaded_addr memory_reserve_ex memory_reserve_in
    memory_split cache_extend cache_alloc take_node pop pop_child search_map set_kind split_at
    cache_remaining freelist_size children_remaining cache_initialize nodes_from
memory_init_test = refl

-- A node that is taken and freed is the first again.
freed_test : cache_free 0x9000 after_two_pages.maps ≡ two_zones.maps
unfolding cache_free cache_try_free
freed_test = refl

released_test :
    memory_release 0x100000 after_two_pages.memory_map
    ≡ record { node = 0x8000; base_addr = 0; size = 0x8000; kind = 2 }
      ∷ record { node = 0x9000; base_addr = 0x100000; size = 0x2000; kind = 0 }
      ∷ record { node = 0x8014; base_addr = 0x102000; size = 0xE000; kind = 0 }
      ∷ []
unfolding memory_release
released_test = refl
