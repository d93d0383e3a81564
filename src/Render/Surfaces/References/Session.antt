-- ===== src/Render/Surfaces/References/Session.antt =====
-- src/render/isz_surface.c with src/buffer/isz_buffer.c: in any sequence of calls no buffer is used
-- after it was freed, and none is leaked.
use ishizue.Base.{ℕ, ◌≡◌, refl, Bool, Option, none, some, List, ◌++◌, if_cases}
use ishizue.Status.{Status}
use ishizue.Render.Buffers.{Desc}
use ishizue.Render.Surfaces.{Rect, Surface, World, find}
use ishizue.Render.Surfaces.Operations.{
  destroy, destroy_found, attach, attach_found, detach, detach_found, set_output, set_output_found,
  clear_output, clear_output_found, set_idle_inhibit, set_idle_found,
}
use ishizue.Render.Surfaces.Setters.{
  Change, change, change_found, changed, allowed, damage_surface, damage_found, position, size,
  plane_type_of, plane_slot_of, zpos_of, transform_of, flags_of, scale_of, role_of,
}
use ishizue.Render.Surfaces.Damage.{damage_found-cases}
use ishizue.Render.Surfaces.Run.{
  Op, step, run, run_keeps, empty_world, on_found, creates, creates_subsurface, creates_popup,
  creates_layer, destroys, attaches, detaches, sets_output, clears_output, sets_idle_inhibit,
  changes, damages,
}
use ishizue.Render.Surfaces.References.{
  IsOwned, create_with-IsOwned, stored, destroyed-IsOwned, detached-IsOwned, attach-IsOwned,
  set_output-IsOwned, clear_output-IsOwned, set_idle-IsOwned,
}

-- No setter touches the pointers to buffers.
changed-pointers :
    (c : Change) (s : Surface)
    → ((changed c s).current ≡ s.current) × ((changed c s).pending_release ≡ s.pending_release)
unfolding changed
changed-pointers (position _ _) s = (refl, refl)
changed-pointers (size _ _) s = (refl, refl)
changed-pointers (plane_type_of _) s = (refl, refl)
changed-pointers (plane_slot_of _) s = (refl, refl)
changed-pointers (zpos_of _) s = (refl, refl)
changed-pointers (transform_of _) s = (refl, refl)
changed-pointers (flags_of _) s = (refl, refl)
changed-pointers (scale_of _ _) s = (refl, refl)
changed-pointers (role_of _ _) s = (refl, refl)

module _ (w : World) (h : IsOwned w) (serial : ℕ) where
  found :
      (P : Option Surface → Type 0)
      → P none
      → ((s : Surface) → find serial w.surfaces ≡ some s → P (some s))
      → P (find serial w.surfaces)
  found P = on_found P serial w.surfaces

  change-IsOwned : (c : Change) → IsOwned (change w serial c).1
  unfolding change change_found
  change-IsOwned c =
      found (λ o. IsOwned (change_found w serial o c).1) h
        λ s e.
          if_cases (λ (r : Status × World). IsOwned r.1) (allowed c s)
            (λ _.
              stored w h serial s e (changed c) (changed-pointers c s).0 (changed-pointers c s).1
                refl)
            (λ _. h)

  damage-IsOwned : (ok : Bool) (rects : List Rect) → IsOwned (damage_surface w serial ok rects).1
  unfolding damage_surface damage_found
  damage-IsOwned ok rects =
      found (λ o. IsOwned (damage_found w serial o ok rects).1) h
        λ s e.
          damage_found-cases (λ (r : Status × World). IsOwned r.1) w serial s ok rects (λ r. h)
            (λ cap.
              stored w h serial s e (λ t. record t { damage = s.damage ++ rects; damage_cap = cap })
                refl refl refl)

-- Without a surface, only the descriptor is closed.
nothing_attached :
    (w : World) (serial : ℕ) (ok : Bool) (fd : Option ℕ) (d : Option Desc)
    → IsOwned w
    → IsOwned (attach_found w serial none ok fd d).1
unfolding attach_found
nothing_attached w serial ok none d h = h
nothing_attached w serial ok (some fd) d h = h

step-IsOwned : (w : World) (op : Op) → IsOwned w → IsOwned (step w op)
unfolding destroy destroy_found attach detach detach_found set_output set_output_found clear_output
    clear_output_found set_idle_inhibit set_idle_found
step-IsOwned w creates h = create_with-IsOwned w (λ s. s) refl refl h
step-IsOwned w (creates_subsurface parent) h = create_with-IsOwned w _ refl refl h
step-IsOwned w (creates_popup parent px py) h = create_with-IsOwned w _ refl refl h
step-IsOwned w (creates_layer out which) h = create_with-IsOwned w _ refl refl h
step-IsOwned w (destroys serial) h =
    found w h serial (λ o. IsOwned (destroy_found w serial o)) h (destroyed-IsOwned w h serial)
step-IsOwned w (attaches serial ok fd d) h =
    found w h serial (λ o. IsOwned (attach_found w serial o ok fd d).1)
      (nothing_attached w serial ok fd d h) (λ s e. attach-IsOwned w h serial s e ok fd d)
step-IsOwned w (detaches serial) h =
    found w h serial (λ o. IsOwned (detach_found w serial o).1) h (detached-IsOwned w h serial)
step-IsOwned w (sets_output serial out) h =
    found w h serial (λ o. IsOwned (set_output_found w serial o out).1) h
      (λ s e. set_output-IsOwned w h serial s e out)
step-IsOwned w (clears_output serial) h =
    found w h serial (λ o. IsOwned (clear_output_found w serial o).1) h
      (clear_output-IsOwned w h serial)
step-IsOwned w (sets_idle_inhibit serial b) h =
    found w h serial (λ o. IsOwned (set_idle_found w serial o b).1) h
      (λ s e. set_idle-IsOwned w h serial s e b)
step-IsOwned w (changes serial c) h = change-IsOwned w h serial c
step-IsOwned w (damages serial ok rects) h = damage-IsOwned w h serial ok rects

-- Whatever sequence of calls creates, attaches to, detaches from and destroys surfaces, starting
-- from a server without any: a buffer that surfaces point at (as the current or the previous one)
-- has their number as its reference count and was never freed; a buffer that none points at was
-- freed exactly once; and no surface points at what is no buffer. So no buffer is used after it was
-- freed, freed twice, or leaked.
pub run-IsOwned : (ops : List Op) → IsOwned (run empty_world ops)
run-IsOwned ops = run_keeps IsOwned step-IsOwned ops empty_world (λ a. refl)
