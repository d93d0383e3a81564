-- ===== src/Render/Buffers/Cache.antt =====
-- src/buffer/isz_buffer.c: the import cache of a client, 32 slots with linear probing. The file descriptor
-- of a buffer decides where it is looked for; a slot without a descriptor (-1) is `none`.
mod Probing
mod Laws
mod Evictions
mod Tests
use ishizue.Base.{
  ℕ, zero, suc, ◌+◌, ◌-◌, ◌*◌, ◌%◌, ◌^◌, Bool, true, false, Option, none, some, leb, ◌==◌,
  if◌then◌else◌,
}
use ishizue.Status.{Status, status_ok, resource_limit}
use ishizue.Render.Buffers.{Heap, ref, unref}

-- An occupied `struct isz_buffer_cache_entry`.
pub record CacheEntry : Type 0 where
  pub fd : ℕ
  pub buf : ℕ

-- `struct isz_buffer_cache`.
pub record BufferCache : Type 0 where
  pub slots : ℕ → Option CacheEntry
  pub count : ℕ

-- ISZ_BUFFER_CACHE_SLOTS.
abbrev pub cache_slots : ℕ
cache_slots = 32

-- `cache_hash`.
pub cache_hash : ℕ → ℕ
cache_hash fd = fd * 2654435761 % 2 ^ 32 % cache_slots

-- The slot at step `i` of the probing for a descriptor.
abbrev pub probe : ℕ → ℕ → ℕ
probe fd i = (cache_hash fd + i) % cache_slots

-- A store into a slot.
abbrev pub put_slot : (ℕ → Option CacheEntry) → ℕ → Option CacheEntry → ℕ → Option CacheEntry
put_slot s i e = λ x. if x == i then e else s x

-- `isz_buffer_cache_init`.
abbrev pub empty_cache : BufferCache
empty_cache = record { slots = λ i. none; count = 0 }

-- `isz_buffer_cache_lookup`: what a slot says, with the answer of the steps behind it; the loop from
-- step `i` on, with `n` steps left.
pub look_at : ℕ → Option CacheEntry → Option ℕ → Option ℕ
look_at fd none rest = none
look_at fd (some e) rest = if e.fd == fd then some e.buf else rest

pub look_from : ℕ → BufferCache → ℕ → ℕ → Option ℕ
unfolding look_at
look_from zero c fd i = none
look_from (suc n) c fd i = look_at fd (c.slots (probe fd i)) (look_from n c fd (i + 1))

pub cache_lookup : BufferCache → ℕ → Option ℕ
unfolding look_from
cache_lookup c fd = look_from cache_slots c fd 0

-- `isz_buffer_cache_insert`, for a buffer with the descriptor `fd`.
pub insert_at :
    BufferCache
    → Heap
    → ℕ
    → ℕ
    → ℕ
    → Option CacheEntry
    → Status × BufferCache × Heap
    → Status × BufferCache × Heap
insert_at c h fd buf at none rest = (
  status_ok,
  record c {
    slots = put_slot c.slots at (some (record { fd = fd; buf = buf }));
    count = c.count + 1;
  },
  ref h buf,
)
insert_at c h fd buf at (some e) rest =
    if e.fd == fd
    then (
      status_ok,
      record c { slots = put_slot c.slots at (some (record e { buf = buf })) },
      ref (unref h e.buf) buf,
    )
    else rest

pub insert_from : ℕ → BufferCache → Heap → ℕ → ℕ → ℕ → Status × BufferCache × Heap
unfolding insert_at
insert_from zero c h fd buf i = (resource_limit, c, h)
insert_from (suc n) c h fd buf i =
    insert_at c h fd buf (probe fd i) (c.slots (probe fd i)) (insert_from n c h fd buf (i + 1))

pub cache_insert : BufferCache → Heap → ℕ → ℕ → Status × BufferCache × Heap
unfolding insert_from
cache_insert c h fd buf = insert_from cache_slots c h fd buf 0

-- The search of `isz_buffer_cache_evict`: the index of the victim, and its buffer.
pub victim_at : ℕ → ℕ → Option CacheEntry → Option (ℕ × ℕ) → Option (ℕ × ℕ)
victim_at fd at none rest = none
victim_at fd at (some e) rest = if e.fd == fd then some (at, e.buf) else rest

pub victim_from : ℕ → BufferCache → ℕ → ℕ → Option (ℕ × ℕ)
unfolding victim_at
victim_from zero c fd i = none
victim_from (suc n) c fd i =
    victim_at fd (probe fd i) (c.slots (probe fd i)) (victim_from n c fd (i + 1))

-- Its loop over the slots behind the hole: an entry is left, with the same hole, or moved into the
-- hole and leaves a new one. The distances are taken modulo 32, as the unsigned differences are.
abbrev pub distance : ℕ → ℕ → ℕ
distance from to = (to + cache_slots - from) % cache_slots

pub shift_at :
    (ℕ → Option CacheEntry)
    → ℕ
    → ℕ
    → Option CacheEntry
    → ((ℕ → Option CacheEntry) → ℕ → ℕ → Option CacheEntry)
    → ℕ
    → Option CacheEntry
shift_at s hole cur none again = s
shift_at s hole cur (some e) again =
    if leb (distance hole cur) (distance (cache_hash e.fd) cur)
    then again s hole
    else again (put_slot (put_slot s hole (some e)) cur none) cur

pub shift_from : ℕ → (ℕ → Option CacheEntry) → ℕ → ℕ → ℕ → Option CacheEntry
unfolding shift_at
shift_from zero s i hole = s
shift_from (suc n) s i hole =
    let cur = (hole + i) % cache_slots in
    shift_at s hole cur (s cur) (λ t k. shift_from n t (i + 1) k)

-- `isz_buffer_cache_evict`.
pub evict_at : BufferCache → Heap → Option (ℕ × ℕ) → BufferCache × Heap
unfolding shift_from
evict_at c h none = (c, h)
evict_at c h (some (at, buf)) = (
  record {
    slots = shift_from (cache_slots - 1) (put_slot c.slots at none) 1 at;
    count = c.count - 1;
  },
  unref h buf,
)

pub cache_evict : BufferCache → Heap → ℕ → BufferCache × Heap
unfolding evict_at victim_from
cache_evict c h fd = evict_at c h (victim_from cache_slots c fd 0)

-- `isz_buffer_cache_destroy`.
drop_entry : Option CacheEntry → Heap → Heap
drop_entry none h = h
drop_entry (some e) h = unref h e.buf

drop_from : ℕ → BufferCache → ℕ → Heap → Heap
unfolding drop_entry
drop_from zero c i h = h
drop_from (suc n) c i h = drop_from n c (i + 1) (drop_entry (c.slots i) h)

pub cache_destroy : BufferCache → Heap → BufferCache × Heap
unfolding drop_from
cache_destroy c h = (empty_cache, drop_from cache_slots c 0 h)
