-- ===== src/Memcached/Items/Init.antt =====
-- The start of the cache: item_init, assoc_init and, in src/handler/memcached.c, stats_init.
use zeroserv.Prelude.{ℕ, ◌≡◌, refl, false, List, [], none, some, arith, elem, distinct}
use zeroserv.Memcached.Assoc.{assoc_init, assoc_find, find_chain, get_chain, in_old}
use zeroserv.Memcached.Assoc.Inv.{IsAssoc}
use zeroserv.Memcached.Assoc.Move.{IsPlaced-empty}
use zeroserv.Memcached.Item.{Item, Heap}
use zeroserv.Memcached.Lru.{item_init}
use zeroserv.Memcached.Lru.Order.{first, last_from}
use zeroserv.Memcached.Items.{Cache, Stats}
use zeroserv.Memcached.Items.Index.{indexed}
use zeroserv.Memcached.Items.Inv.{IsCache}

abbrev pub stats_init : Stats
stats_init = record {
  curr_items = 0;
  total_items = 0;
  curr_bytes = 0;
  curr_conns = 0;
  total_conns = 0;
  get_cmds = 0;
  set_cmds = 0;
  get_hits = 0;
  get_misses = 0;
  bytes_read = 0;
  bytes_written = 0;
}

-- The cache at the start, with items in memory that are not linked; `settings` is all zero.
abbrev pub cache_init : Heap → ℕ → Cache
cache_init heap now_ms = record {
  lists = item_init heap;
  table = assoc_init;
  stats = stats_init;
  outofmemory = 0;
  cas_id = 0;
  now_ms = now_ms;
  oldest_live = 0;
  evict_to_free = false;
}

module _ (hash : List ℕ → ℕ) where
  pub IsAssoc-assoc_init : IsAssoc hash assoc_init
  IsAssoc-assoc_init = record {
    primary = IsPlaced-empty hash 16;
    growing = λ on. absurd (ground (arith, on));
    items = omega arith;
    power = omega arith;
  }

  assoc_find-assoc_init : (key : List ℕ) → assoc_find hash key assoc_init ≡ none
  unfolding assoc_find find_chain get_chain in_old
  assoc_find-assoc_init key = refl

  -- The cache is valid at the start.
  pub IsCache-cache_init :
      (heap : Heap) (now_ms : ℕ)
      → ((a : ℕ) (i : Item)
          → indexed (heap a) ≡ some i
          → (i.linked ≡ false) × (i.deleted ≡ false) × (i.exptime ≡ 0))
      → IsCache hash (cache_init heap now_ms) []
  unfolding elem first last_from distinct
  IsCache-cache_init heap now_ms idle = record {
    lists = record {
      nonzero = refl;
      distinct = refl;
      heads = refl;
      tails = refl;
      sizes = omega arith;
      nodes = λ a m. absurd (ground (arith, m));
    };
    table = IsAssoc-assoc_init;
    index = record {
      member = λ a m. absurd (ground (arith, m));
      found = λ key a e. absurd (ground (arith, e, assoc_find-assoc_init key));
      outside = λ a i m e. (idle a i e).0;
      plain = λ a i e. ((idle a i e).1, (idle a i e).2);
    };
    items = omega arith;
    curr = omega arith;
  }
