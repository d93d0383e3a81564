-- ===== src/Render/Buffers.antt =====
-- src/buffer/isz_buffer.c: import, release and the reference count of a buffer, in the build without
-- libdrm, where no buffer has a sync object. A pointer to a buffer is its number in `cells`; the
-- memory of a buffer that was freed stays in the list, so that a later use would show.
pub mod Owned
pub mod Cache
use ishizue.Base.{
  ℕ, zero, suc, ◌+◌, ◌-◌, ◌%◌, ◌^◌, Bool, true, false, ◌||◌, Option, none, some, List, [], ◌∷◌,
  ◌++◌, ltb, ◌==◌, if◌then◌else◌, length, get_elem?,
}
use ishizue.Status.{Status, invalid_arg, invalid_dmabuf, no_memory}

-- `struct isz_buffer_desc`.
pub record Desc : Type 0 where
  pub width : ℕ
  pub height : ℕ
  pub stride : ℕ
  pub offset : ℕ
  pub format : ℕ
  pub modifier : ℕ
  pub alpha_mode : ℕ

-- `struct isz_buffer`, with its descriptor's values in one field. `frees` counts how often the last
-- reference was dropped: each time the file descriptor is closed and the memory freed.
pub record Buffer : Type 0 where
  pub fd : ℕ
  pub desc : Desc
  pub client_id : ℕ
  pub released : Bool
  pub refcount : ℕ
  pub frees : ℕ

-- All buffers, and the descriptors that were closed, in order.
pub record Heap : Type 0 where
  pub cells : List Buffer
  pub closed : List ℕ

-- What `isz_buffer_import` gives: the buffer, or an error.
pub data Imported : Type 0 where
  imported : ℕ → Imported
  refused : Status → Imported

close_fd : Heap → ℕ → Heap
close_fd h fd = record h { closed = h.closed ++ fd ∷ [] }

allocate : Heap → Bool → ℕ → ℕ → Desc → Imported × Heap
allocate h alloc_ok client_id fd d =
    if alloc_ok
    then (
      imported (length h.cells),
      record h {
        cells =
            h.cells
            ++ record {
              fd = fd;
              desc = d;
              client_id = client_id;
              released = false;
              refcount = 1;
              frees = 0;
            }
              ∷ [];
      },
    )
    else (refused no_memory, close_fd h fd)

import_desc : Heap → Bool → ℕ → ℕ → Option Desc → Imported × Heap
unfolding allocate close_fd
import_desc h alloc_ok client_id fd none = (refused invalid_arg, h)
import_desc h alloc_ok client_id fd (some d) =
    if d.width == 0 || (d.height == 0 || d.stride == 0)
    then (refused invalid_dmabuf, close_fd h fd)
    else allocate h alloc_ok client_id fd d

-- `isz_buffer_import`; `none` is a negative descriptor, or NULL. `alloc_ok` is what `calloc` says.
unfoldable pub import_buffer : Heap → Bool → ℕ → Option ℕ → Option Desc → Imported × Heap
unfolding import_desc
import_buffer h alloc_ok client_id none d = (refused invalid_arg, h)
import_buffer h alloc_ok client_id (some fd) d = import_desc h alloc_ok client_id fd d

-- A store through a pointer.
abbrev pub modify : List Buffer → ℕ → (Buffer → Buffer) → List Buffer
modify [] a f = []
modify (b ∷ bs) zero f = f b ∷ bs
modify (b ∷ bs) (suc a) f = b ∷ modify bs a f

-- `isz_buffer_release` and `isz_buffer_ref`.
pub release : Heap → ℕ → Heap
release h a = record h { cells = modify h.cells a (λ b. record b { released = true }) }

pub ref : Heap → ℕ → Heap
ref h a = record h {
  cells = modify h.cells a (λ b. record b { refcount = (b.refcount + 1) % 2 ^ 32 });
}

-- The buffer after one `isz_buffer_unref`, and what this closes.
abbrev pub drop_ref : Buffer → Buffer
drop_ref b =
    if ltb 1 b.refcount
    then record b { refcount = b.refcount - 1 }
    else record b { frees = b.frees + 1 }

abbrev pub closes : Option Buffer → List ℕ
closes none = []
closes (some b) = if ltb 1 b.refcount then [] else b.fd ∷ []

-- `isz_buffer_unref`.
pub unref : Heap → ℕ → Heap
unref h a = record {
  cells = modify h.cells a drop_ref;
  closed = h.closed ++ closes (get_elem? h.cells a);
}

-- `isz_buffer_release` and then `isz_buffer_unref`, where there is a buffer.
unfoldable pub let_go : Heap → Option ℕ → Heap
unfolding release unref
let_go h none = h
let_go h (some a) = unref (release h a) a
