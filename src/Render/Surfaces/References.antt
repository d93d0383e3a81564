-- ===== src/Render/Surfaces/References.antt =====
-- src/render/isz_surface.c with src/buffer/isz_buffer.c: each buffer's reference count is the number
-- of the surfaces' references to it, under every call.
pub mod Session
use ishizue.Base.{
  ℕ, ◌+◌, ◌-◌, ◌≤◌, ◌≡◌, refl, subst, Bool, true, false, ◌&&◌, Option, none, some, List, [], ◌∷◌,
  ◌++◌, arith, ltb, ◌==◌, if◌then◌else◌, if_cases, not,
}
use ishizue.Status.{Status, status_ok}
use ishizue.Render.Buffers.{Desc, Heap, Imported, imported, refused, import_buffer, let_go}
use ishizue.Render.Buffers.Owned.{
  points_at, Owned, Owned-ext, gained, let_go-Owned, import_buffer-Owned,
}
use ishizue.Render.Surfaces.{Surface, World, find, update, remove, is_output, inhibit_adjust}
use ishizue.Render.Surfaces.Operations.{
  create_with, blank, destroy_found, attach_found, attach_imported, swapped, detach_found,
  set_output_found, move_inhibit, clear_output_found, set_idle_found, uninhibit,
}
use ishizue.Render.Surfaces.Total.{total, total-append, total-update, total-remove}

-- How many of a surface's two pointers to buffers are `a`.
abbrev pub refs : ℕ → Surface → ℕ
refs a s = points_at a s.current + points_at a s.pending_release

abbrev pub IsOwned : World → Type 0
IsOwned w = Owned w.heap (λ a. total (refs a) w.surfaces)

-- The same buffers, and as many references.
pub unreferenced :
    {heap heap' : Heap} (ss ss' : List Surface)
    → heap' ≡ heap
    → ((a : ℕ) → total (refs a) ss' ≡ total (refs a) ss)
    → Owned heap (λ a. total (refs a) ss)
    → Owned heap' (λ a. total (refs a) ss')
unreferenced ss ss' e k h a = rw (e, k a) (h a)

-- A new surface points at no buffer.
pub create_with-IsOwned :
    (w : World) (f : Surface → Surface)
    → (f (blank (w.next_serial + 1))).current ≡ none
    → (f (blank (w.next_serial + 1))).pending_release ≡ none
    → IsOwned w
    → IsOwned (create_with w f)
unfolding create_with
create_with-IsOwned w f c p h =
    let s = f (blank (w.next_serial + 1)) in
    unreferenced {heap = w.heap} w.surfaces (w.surfaces ++ s ∷ []) refl
      (λ a.
        let nothing : refs a s ≡ 0 = rw (c, p) refl in
        omega (arith, total-append (refs a) w.surfaces s, nothing))
      h

inhibit_adjust-heap : (w : World) (o : Option ℕ) (up : Bool) → (inhibit_adjust w o up).heap ≡ w.heap
unfolding inhibit_adjust
inhibit_adjust-heap w none up = refl
inhibit_adjust-heap w (some out) up = refl

uninhibit-heap : (w : World) (s : Surface) → (uninhibit w s).heap ≡ w.heap
uninhibit-heap w s =
    if_cases (λ (w' : World). w'.heap ≡ w.heap) s.idle_inhibit
      (λ _. inhibit_adjust-heap w s.output false) (λ _. refl)

move_inhibit-heap : (w : World) (s : Surface) (out : ℕ) → (move_inhibit w s out).heap ≡ w.heap
unfolding move_inhibit
move_inhibit-heap w s out =
    if_cases (λ (w' : World). w'.heap ≡ w.heap) (s.idle_inhibit && not (is_output out s.output))
      (λ _.
        rw (inhibit_adjust-heap (inhibit_adjust w s.output false) (some out) true)
          (inhibit_adjust-heap w s.output false))
      (λ _. refl)

module _ (w : World) (h : IsOwned w) (serial : ℕ) (s : Surface)
    (e : find serial w.surfaces ≡ some s) where
  abbrev sum : ℕ → ℕ
  sum a = total (refs a) w.surfaces

  refs-le : (a : ℕ) → refs a s ≤ sum a
  refs-le a = omega (arith, total-remove (refs a) serial s w.surfaces e)

  -- A store that leaves the pointers alone.
  pub stored :
      {heap : Heap} (f : Surface → Surface)
      → (f s).current ≡ s.current
      → (f s).pending_release ≡ s.pending_release
      → heap ≡ w.heap
      → Owned heap (λ a. total (refs a) (update serial f w.surfaces))
  stored f c p k =
      unreferenced w.surfaces (update serial f w.surfaces) k
        (λ a.
          let same_here : refs a (f s) ≡ refs a s = rw (c, p) refl in
          omega (arith, total-update (refs a) serial s f w.surfaces e, same_here))
        h

  pub destroyed-IsOwned : IsOwned (destroy_found w serial (some s))
  unfolding destroy_found
  destroyed-IsOwned =
      Owned-ext (let_go (let_go w.heap s.current) s.pending_release)
        (λ a. sum a - points_at a s.current - points_at a s.pending_release) _
        (λ a. omega (arith, total-remove (refs a) serial s w.surfaces e))
        (let_go-Owned (let_go w.heap s.current) (λ a. sum a - points_at a s.current)
          s.pending_release (let_go-Owned w.heap sum s.current h (λ a. omega (arith, refs-le a)))
          (λ a. omega (arith, refs-le a)))

  pub detached-IsOwned : IsOwned (detach_found w serial (some s)).1
  unfolding detach_found
  detached-IsOwned =
      Owned-ext (let_go w.heap s.current) (λ a. sum a - points_at a s.current) _
        (λ a. omega (
          arith,
          total-update (refs a) serial s (λ t. record t { current = none }) w.surfaces e,
          refs-le a,
        ))
        (let_go-Owned w.heap sum s.current h (λ a. omega (arith, refs-le a)))

  swapped-refs :
      (a b : ℕ) (d : Option Desc)
      → refs a (swapped b d s) ≡ points_at a (some b) + points_at a s.current
  swapped-refs a b none = refl
  swapped-refs a b (some d) = refl

  -- The import came first; then the oldest buffer goes.
  attached-IsOwned :
      (d : Option Desc) (i : Imported) (heap : Heap)
      → Owned heap (λ a. sum a + gained a i)
      → IsOwned (attach_imported w serial s d (i, heap)).1
  unfolding attach_imported
  attached-IsOwned d (refused x) heap k = Owned-ext heap (λ a. sum a + 0) _ (λ a. omega arith) k
  attached-IsOwned d (imported b) heap k =
      let t : ℕ → ℕ = λ a. sum a + points_at a (some b) in
      Owned-ext (let_go heap s.pending_release) (λ a. t a - points_at a s.pending_release) _
        (λ a. omega (
          arith,
          total-update (refs a) serial s (swapped b d) w.surfaces e,
          refs-le a,
          swapped-refs a b d,
        ))
        (let_go-Owned heap t s.pending_release k (λ a. omega (arith, refs-le a)))

  pub attach-IsOwned :
      (alloc_ok : Bool) (fd : Option ℕ) (d : Option Desc)
      → IsOwned (attach_found w serial (some s) alloc_ok fd d).1
  unfolding attach_found
  attach-IsOwned alloc_ok fd d =
      let r = import_buffer w.heap alloc_ok s.client_id fd d in
      attached-IsOwned d r.0 r.1 (import_buffer-Owned w.heap sum alloc_ok s.client_id fd d h)

  pub set_output-IsOwned : (out : ℕ) → IsOwned (set_output_found w serial (some s) out).1
  unfolding set_output_found
  set_output-IsOwned out =
      stored (λ t. record t { output = some out }) refl refl (move_inhibit-heap w s out)

  pub clear_output-IsOwned : IsOwned (clear_output_found w serial (some s)).1
  unfolding clear_output_found
  clear_output-IsOwned = stored (λ t. record t { output = none }) refl refl (uninhibit-heap w s)

  pub set_idle-IsOwned : (b : Bool) → IsOwned (set_idle_found w serial (some s) b).1
  unfolding set_idle_found
  set_idle-IsOwned b =
      if_cases (λ (r : Status × World). IsOwned r.1) (if s.idle_inhibit then b else not b) (λ _. h)
        (λ _.
          stored (λ t. record t { idle_inhibit = b }) refl refl (inhibit_adjust-heap w s.output b))
