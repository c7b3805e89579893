-- ===== src/Memory/Init.antt =====
-- The start of the memory map: `cache_new` and `memory_init` of k/memory.c.
use project_k.Base.{
  ℕ, zero, suc, ◌+◌, ◌-◌, ◌*◌, ◌/◌, ltb, ◌==◌, false, if◌then◌else◌, [], ◌∷◌, ◌++◌, Option, some,
  u32,
}
use project_k.Base.Options.{◌>>=◌}
use project_k.Base.Signed.{sub32}
use project_k.Memory.{
  Pool, Cache, Memory, sizeof_cache, sizeof_memory_map, cache_initialize, maps, metadata,
  cache_alloc, memory_reserve_ex,
}

-- What the boot loader tells: an entry of its map, and the rest of `multiboot_info_t` that is read.
pub record Zone : Type 0 where
  pub addr : ℕ
  pub len : ℕ
  pub kind : ℕ

pub record Info : Type 0 where
  pub mods_count : ℕ
  pub mod_end : (i : ℕ) → ℕ
  pub mem_lower : ℕ
  pub mmap_length : ℕ
  pub mmap : (i : ℕ) → Zone

abbrev sizeof_zone : ℕ
sizeof_zone = 24

unfoldable pub cache_new : (fuel base nmemb bsize : ℕ) → Memory → Option (Cache × Memory)
cache_new fuel base nmemb bsize m = cache_alloc fuel metadata false m >>= λ (c, m).
    some (record { pool = cache_initialize base (nmemb * bsize) bsize; caches = [] }, m)

-- The loop over the zones, after `n` rounds.
unfoldable pub add_zones : (fuel n : ℕ) → Info → Memory → Option Memory
add_zones fuel zero info m = some m
add_zones fuel (suc n) info m =
    add_zones fuel n info m >>= cache_alloc fuel maps false >>= λ (node, m). some (record m {
      memory_map =
          m.memory_map
          ++ (record {
            node = node;
            base_addr = u32 (info.mmap n).addr;
            size = u32 (info.mmap n).len;
            kind = sub32 (info.mmap n).kind 1;
          }
              ∷ []);
    })

-- Behind the last module, or behind the kernel, which ends at `end`.
unfoldable pub last_loaded_addr : (end : ℕ) → Info → ℕ
last_loaded_addr end info =
    let last = if info.mods_count == 0 then 0 else info.mod_end (info.mods_count - 1) in
    if ltb last end then end else last

abbrev pub base_metadata_cache_nmemb : ℕ
base_metadata_cache_nmemb = 10

abbrev no_pool : Pool
no_pool = record { freelist = []; base = 0; size = 0; bsize = 0 }

unfoldable pub memory_init : (fuel end : ℕ) → Info → Option Memory
memory_init fuel end info =
    let reservation_addr = last_loaded_addr end info in
    let reservation_len = (base_metadata_cache_nmemb + 1) * sizeof_cache in
    let num_mem_zone = info.mmap_length / sizeof_zone in
    let start : Memory = record {
      maps = record { pool = no_pool; caches = [] };
      metadata = record {
        pool =
            cache_initialize (reservation_addr + sizeof_cache)
              (base_metadata_cache_nmemb * sizeof_cache) sizeof_cache;
        caches = [];
      };
      memory_map = [];
    } in
    let map_len = num_mem_zone * 2 * sizeof_memory_map in
    cache_new fuel (reservation_addr + reservation_len) (num_mem_zone * 2) sizeof_memory_map start
    >>= λ (c, m).
        add_zones fuel num_mem_zone info (record m { maps = c })
        >>= memory_reserve_ex fuel 0 (u32 (info.mem_lower * 1024))
        >>= λ (p, m).
            memory_reserve_ex fuel 0x100000 (sub32 (last_loaded_addr end info) 0x100000) m
            >>= λ (p, m).
                memory_reserve_ex fuel reservation_addr (reservation_len + map_len) m >>= λ (p, m).
                some m
