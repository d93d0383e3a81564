-- ===== src/Render/Buffers/Cache/Tests.antt =====
-- src/buffer/isz_buffer.c at concrete inputs: the descriptors 1 and 33 have the same place in the cache.
use ishizue.Base.{ℕ, false, ◌≡◌, refl, none, some, [], ◌∷◌}
use ishizue.Status.{Status}
use ishizue.Render.Buffers.{Buffer, Heap}
use ishizue.Render.Buffers.Cache.{
  BufferCache, empty_cache, cache_hash, cache_insert, cache_lookup, cache_evict,
}
use ishizue.Render.Buffers.Cache.Probing.{IsProbed}
use ishizue.Render.Buffers.Cache.Laws.{Inserts, cache_insert-Inserts, cache_insert-IsProbed}
use ishizue.Render.Buffers.Cache.Evictions.{Evicts, cache_evict-Evicts}

abbrev buffer : ℕ → Buffer
buffer fd = record {
  fd = fd;
  desc = record {
    width = 640;
    height = 480;
    stride = 2560;
    offset = 0;
    format = 875713112;
    modifier = 0;
    alpha_mode = 0;
  };
  client_id = 7;
  released = false;
  refcount = 1;
  frees = 0;
}

abbrev heap : Heap
heap = record { cells = buffer 1 ∷ buffer 33 ∷ []; closed = [] }

same_place : cache_hash 1 ≡ cache_hash 33
unfolding cache_hash
same_place = refl

abbrev one_cached : Status × BufferCache × Heap
one_cached = cache_insert empty_cache heap 1 0

abbrev both_cached : Status × BufferCache × Heap
both_cached = cache_insert one_cached.1 one_cached.2 33 1

both_answer : (cache_lookup both_cached.1 1 ≡ some 0) × (cache_lookup both_cached.1 33 ≡ some 1)
unfolding cache_lookup cache_insert cache_hash
both_answer = (refl, refl)

-- The entry of 33 is left behind the free slot, and is not found.
evicted_too_much : cache_lookup (cache_evict both_cached.1 both_cached.2 1).0 33 ≡ none
unfolding cache_lookup cache_insert cache_evict cache_hash
evicted_too_much = refl

empty-IsProbed : IsProbed empty_cache.slots
empty-IsProbed fd k e a h = absurd (cc)

cache_insert-Inserts_example : Inserts empty_cache heap 1 0 (cache_insert empty_cache heap 1 0)
cache_insert-Inserts_example = cache_insert-Inserts empty_cache heap 1 0 empty-IsProbed

both-IsProbed : IsProbed both_cached.1.slots
both-IsProbed =
    cache_insert-IsProbed one_cached.1 one_cached.2 33 1
      (cache_insert-IsProbed empty_cache heap 1 0 empty-IsProbed)

cache_evict-Evicts_example :
    Evicts both_cached.1 both_cached.2 1 (cache_evict both_cached.1 both_cached.2 1)
cache_evict-Evicts_example = cache_evict-Evicts both_cached.1 1 both-IsProbed both_cached.2
