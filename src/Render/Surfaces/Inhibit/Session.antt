-- ===== src/Render/Surfaces/Inhibit/Session.antt =====
-- src/render/isz_surface.c: in any sequence of calls, the inhibition of each output is counted and
-- its listeners know of it.
use ishizue.Base.{ℕ, ◌≡◌, refl, Bool, Option, none, some, List, ◌++◌, arith, if_cases}
use ishizue.Status.{Status}
use ishizue.Render.Buffers.{Desc, Heap, Imported, imported, refused, import_buffer}
use ishizue.Render.Surfaces.{Rect, Surface, World, find, update}
use ishizue.Render.Surfaces.Operations.{
  destroy, destroy_found, attach, attach_found, attach_imported, swapped, detach, detach_found,
  set_output, set_output_found, clear_output, clear_output_found, set_idle_inhibit, set_idle_found,
}
use ishizue.Render.Surfaces.Setters.{
  Change, change, change_found, changed, allowed, damage_surface, damage_found, store_damage,
  position, size, plane_type_of, plane_slot_of, zpos_of, transform_of, flags_of, scale_of, role_of,
}
use ishizue.Render.Surfaces.Run.{
  Op, step, run, run_keeps, empty_world, creates, creates_subsurface, creates_popup, creates_layer,
  destroys, attaches, detaches, sets_output, clears_output, sets_idle_inhibit, changes, damages,
}
use ishizue.Render.Surfaces.Damage.{damage_found-cases}
use ishizue.Render.Surfaces.Total.{total, total-update}
use ishizue.Render.Surfaces.Inhibit.{inhibits, told, IsCounted}
use ishizue.Render.Surfaces.Inhibit.Steps.{
  same, create_with-IsCounted, destroyed-IsCounted, set_output-Counts, clear_output-Counts,
  set_idle-Counts,
}

-- No setter touches the flag or the output.
keeps_flag : (c : Change) (s : Surface) → (changed c s).idle_inhibit ≡ s.idle_inhibit
unfolding changed
keeps_flag (position _ _) s = refl
keeps_flag (size _ _) s = refl
keeps_flag (plane_type_of _) s = refl
keeps_flag (plane_slot_of _) s = refl
keeps_flag (zpos_of _) s = refl
keeps_flag (transform_of _) s = refl
keeps_flag (flags_of _) s = refl
keeps_flag (scale_of _ _) s = refl
keeps_flag (role_of _ _) s = refl

keeps_output : (c : Change) (s : Surface) → (changed c s).output ≡ s.output
unfolding changed
keeps_output (position _ _) s = refl
keeps_output (size _ _) s = refl
keeps_output (plane_type_of _) s = refl
keeps_output (plane_slot_of _) s = refl
keeps_output (zpos_of _) s = refl
keeps_output (transform_of _) s = refl
keeps_output (flags_of _) s = refl
keeps_output (scale_of _ _) s = refl
keeps_output (role_of _ _) s = refl

module _ (w : World) (h : IsCounted w) (serial : ℕ) where
  -- A store that leaves the flag and the output alone.
  kept :
      (s : Surface) (f : Surface → Surface)
      → find serial w.surfaces ≡ some s
      → (f s).idle_inhibit ≡ s.idle_inhibit
      → (f s).output ≡ s.output
      → (out : ℕ)
      → total (inhibits out) (update serial f w.surfaces) ≡ total (inhibits out) w.surfaces
  kept s f e i o out =
      let same_here : inhibits out (f s) ≡ inhibits out s = rw (i, o) refl in
      omega (arith, total-update (inhibits out) serial s f w.surfaces e, same_here)

  destroy-IsCounted :
      (o : Option Surface) → find serial w.surfaces ≡ o → IsCounted (destroy_found w serial o)
  unfolding destroy_found
  destroy-IsCounted none e = h
  destroy-IsCounted (some s) e = destroyed-IsCounted w h serial s e

  attach-IsCounted :
      (o : Option Surface) (alloc_ok : Bool) (fd : Option ℕ) (d : Option Desc)
      → find serial w.surfaces ≡ o
      → IsCounted (attach_found w serial o alloc_ok fd d).1
  unfolding attach_found attach_imported
  attach-IsCounted none alloc_ok none d e = h
  attach-IsCounted none alloc_ok (some fd) d e = h
  attach-IsCounted (some s) alloc_ok fd d e =
      by_result (import_buffer w.heap alloc_ok s.client_id fd d)
    where
      swap :
          (a : ℕ) (d : Option Desc) (out : ℕ)
          → total (inhibits out) (update serial (swapped a d) w.surfaces)
            ≡ total (inhibits out) w.surfaces
      swap a none = kept s (swapped a none) e refl refl
      swap a (some d) = kept s (swapped a (some d)) e refl refl

      by_result : (r : Imported × Heap) → IsCounted (attach_imported w serial s d r).1
      by_result (refused x, heap) = h
      by_result (imported a, heap) =
          same w (attach_imported w serial s d (imported a, heap)).1 (refl, refl) (swap a d) h

  detach-IsCounted :
      (o : Option Surface) → find serial w.surfaces ≡ o → IsCounted (detach_found w serial o).1
  unfolding detach_found
  detach-IsCounted none e = h
  detach-IsCounted (some s) e =
      same w (detach_found w serial (some s)).1 (refl, refl)
        (kept s (λ t. record t { current = none }) e refl refl) h

  set_output-IsCounted :
      (o : Option Surface) (out : ℕ)
      → find serial w.surfaces ≡ o
      → IsCounted (set_output_found w serial o out).1
  unfolding set_output_found
  set_output-IsCounted none out e = h
  set_output-IsCounted (some s) out e = set_output-Counts w h serial s e out

  clear_output-IsCounted :
      (o : Option Surface)
      → find serial w.surfaces ≡ o
      → IsCounted (clear_output_found w serial o).1
  unfolding clear_output_found
  clear_output-IsCounted none e = h
  clear_output-IsCounted (some s) e = clear_output-Counts w h serial s e

  set_idle-IsCounted :
      (o : Option Surface) (b : Bool)
      → find serial w.surfaces ≡ o
      → IsCounted (set_idle_found w serial o b).1
  unfolding set_idle_found
  set_idle-IsCounted none b e = h
  set_idle-IsCounted (some s) b e = set_idle-Counts w h serial s e b

  change-IsCounted :
      (o : Option Surface) (c : Change)
      → find serial w.surfaces ≡ o
      → IsCounted (change_found w serial o c).1
  unfolding change_found
  change-IsCounted none c e = h
  change-IsCounted (some s) c e =
      if_cases (λ (r : Status × World). IsCounted r.1) (allowed c s)
        (λ _.
          same w (record w { surfaces = update serial (changed c) w.surfaces }) (refl, refl)
            (by_change c) h)
        (λ _. h)
    where
      by_change :
          (c : Change) (out : ℕ)
          → total (inhibits out) (update serial (changed c) w.surfaces)
            ≡ total (inhibits out) w.surfaces
      by_change c = kept s (changed c) e (keeps_flag c s) (keeps_output c s)

  damage-IsCounted :
      (o : Option Surface) (realloc_ok : Bool) (rects : List Rect)
      → find serial w.surfaces ≡ o
      → IsCounted (damage_found w serial o realloc_ok rects).1
  unfolding damage_found
  damage-IsCounted none realloc_ok rects e = h
  damage-IsCounted (some s) realloc_ok rects e =
      damage_found-cases (λ (r : Status × World). IsCounted r.1) w serial s realloc_ok rects
        (λ r. h)
        (λ cap.
          same w (store_damage w serial s rects cap).1 (refl, refl)
            (kept s (λ t. record t { damage = s.damage ++ rects; damage_cap = cap }) e refl refl) h)

step-IsCounted : (w : World) (op : Op) → IsCounted w → IsCounted (step w op)
unfolding destroy attach detach set_output clear_output set_idle_inhibit change damage_surface
step-IsCounted w creates h = create_with-IsCounted w (λ s. s) refl h
step-IsCounted w (creates_subsurface parent) h = create_with-IsCounted w _ refl h
step-IsCounted w (creates_popup parent px py) h = create_with-IsCounted w _ refl h
step-IsCounted w (creates_layer out which) h = create_with-IsCounted w _ refl h
step-IsCounted w (destroys serial) h = destroy-IsCounted w h serial _ refl
step-IsCounted w (attaches serial alloc_ok fd d) h =
    attach-IsCounted w h serial _ alloc_ok fd d refl
step-IsCounted w (detaches serial) h = detach-IsCounted w h serial _ refl
step-IsCounted w (sets_output serial out) h = set_output-IsCounted w h serial _ out refl
step-IsCounted w (clears_output serial) h = clear_output-IsCounted w h serial _ refl
step-IsCounted w (sets_idle_inhibit serial b) h = set_idle-IsCounted w h serial _ b refl
step-IsCounted w (changes serial c) h = change-IsCounted w h serial _ c refl
step-IsCounted w (damages serial realloc_ok rects) h =
    damage-IsCounted w h serial _ realloc_ok rects refl

-- Whatever sequence of calls creates, destroys, moves and changes surfaces, starting from a server
-- without any: the inhibition count of each output is the number of the surfaces on it that inhibit
-- idle, and a listener that replays the output's events, which alternate, knows whether this number
-- is positive.
pub run-IsCounted : (ops : List Op) → IsCounted (run empty_world ops)
unfolding told
run-IsCounted ops = run_keeps IsCounted step-IsCounted ops empty_world (λ out. (refl, refl))
