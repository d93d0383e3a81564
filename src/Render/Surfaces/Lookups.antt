-- ===== src/Render/Surfaces/Lookups.antt =====
-- src/render/isz_surface.c: which surfaces are still there behind a call, and that they keep their
-- object ids.
use ishizue.Base.{
  ℕ, ◌+◌, ◌<◌, ◌≡◌, refl, ◌∙◌, subst, Bool, false, Option, none, some, List, [], ◌∷◌, ◌++◌, arith,
  ◌==◌, if◌then◌else◌, if_cases,
}
use ishizue.Status.{Status}
use ishizue.Render.Buffers.{Desc, Heap, Imported, imported, refused, import_buffer}
use ishizue.Render.Surfaces.Damage.{damage_found-cases}
use ishizue.Render.Surfaces.{Rect, Surface, World, find, update, remove, inhibit_adjust}
use ishizue.Render.Surfaces.Operations.{
  blank, create_with, destroy, destroy_found, uninhibit, attach, attach_found, attach_imported,
  swapped,
}
use ishizue.Render.Surfaces.Setters.{
  Change, change, change_found, changed, allowed, position, size, plane_type_of, plane_slot_of,
  zpos_of, transform_of, flags_of, scale_of, role_of, damage_surface, damage_found,
}
use ishizue.Render.Surfaces.Run.{on_found}

-- No surface has a serial that is still to come.
abbrev pub IsFresh : World → Type 0
IsFresh w = (n : ℕ) → w.next_serial < n → find n w.surfaces ≡ none

-- There is a surface with this serial and this object id.
abbrev pub Lives : List Surface → ℕ → ℕ → Type 0
Lives ss n id = (s : Surface) × (find n ss ≡ some s) × (s.object_id ≡ id)

-- Every surface is still there with its object id, and no serial is used up.
abbrev pub Keeps : World → World → Type 0
Keeps w w' =
    ((n id : ℕ) → Lives w.surfaces n id → Lives w'.surfaces n id) × (IsFresh w → IsFresh w')

pub find-append_one :
    (n : ℕ) (ss : List Surface) (s : Surface)
    → find n (ss ++ s ∷ [])
      ≡ elim (find n ss) [ some t ↦ some t | none ↦ if s.serial == n then some s else none ]
unfolding find
find-append_one n [] s = refl
find-append_one n (t ∷ ss) s = ground (arith, find-append_one n ss s)

pub find-remove_ne :
    (n m : ℕ) (ss : List Surface) → (m == n) ≡ false → find n (remove m ss) ≡ find n ss
unfolding find remove
find-remove_ne n m [] e = refl
find-remove_ne n m (s ∷ ss) e = ground (arith, find-remove_ne n m ss e, e)

pub find-remove-none :
    (n m : ℕ) (ss : List Surface) → find n ss ≡ none → find n (remove m ss) ≡ none
unfolding find remove
find-remove-none n m [] e = refl
find-remove-none n m (s ∷ ss) e = ground (arith, find-remove-none n m ss, e)

module _ (m : ℕ) (f : Surface → Surface) (k : (s : Surface) → (f s).serial ≡ s.serial) where
  pub find-update :
      (n : ℕ) (ss : List Surface)
      → find n (update m f ss)
        ≡ elim (find n ss) [ none ↦ none | some s ↦ some (if m == n then f s else s) ]
  unfolding find update
  find-update n [] = refl
  find-update n (s ∷ ss) = ground (arith, find-update n ss, k s)

-- A new surface behind the others, with the next serial.
pub create_with-Keeps :
    (w : World) (f : Surface → Surface)
    → (f (blank (w.next_serial + 1))).serial ≡ w.next_serial + 1
    → Keeps w (create_with w f)
unfolding create_with
create_with-Keeps w f k =
    let s = f (blank (w.next_serial + 1)) in
    (
      λ n id (t, e, i). (t, ground (arith, find-append_one n w.surfaces s, e), i),
      λ h n p. ground (arith, find-append_one n w.surfaces s, h n, k),
    )

-- A store that leaves serial and object id alone.
pub update-Keeps :
    (w : World) (serial : ℕ) (f : Surface → Surface)
    → ((s : Surface) → (f s).serial ≡ s.serial)
    → ((s : Surface) → (f s).object_id ≡ s.object_id)
    → Keeps w (record w { surfaces = update serial f w.surfaces })
update-Keeps w serial f k o = (
  λ n id (s, e, i). (
    if serial == n then f s else s,
    ground (arith, find-update serial f k n w.surfaces, e),
    if_cases (λ (t : Surface). t.object_id ≡ id) (serial == n) (λ _. o s ∙ i) (λ _. i),
  ),
  λ h n p. ground (arith, find-update serial f k n w.surfaces, h n p),
)

inhibit_adjust-next_serial :
    (w : World) (o : Option ℕ) (up : Bool) → (inhibit_adjust w o up).next_serial ≡ w.next_serial
unfolding inhibit_adjust
inhibit_adjust-next_serial w none up = refl
inhibit_adjust-next_serial w (some out) up = refl

uninhibit-next_serial : (w : World) (s : Surface) → (uninhibit w s).next_serial ≡ w.next_serial
uninhibit-next_serial w s =
    if_cases (λ (w' : World). w'.next_serial ≡ w.next_serial) s.idle_inhibit
      (λ _. inhibit_adjust-next_serial w s.output false) (λ _. refl)

-- A destruction leaves the other surfaces.
abbrev pub Loses : ℕ → World → World → Type 0
Loses serial w w' =
    ((n id : ℕ) → (serial == n) ≡ false → Lives w.surfaces n id → Lives w'.surfaces n id)
    × (IsFresh w → IsFresh w')

pub destroy-Loses : (w : World) (serial : ℕ) → Loses serial w (destroy w serial)
unfolding destroy destroy_found
destroy-Loses w serial =
    on_found (λ o. Loses serial w (destroy_found w serial o)) serial w.surfaces
      (λ n id ne l. l, λ h. h)
      λ s e. (
        λ n id ne (t, k, i). (t, find-remove_ne n serial w.surfaces ne ∙ k, i),
        λ h n p.
            find-remove-none n serial w.surfaces
              (h n (subst (λ m. m < n) (uninhibit-next_serial w s) p)),
      )

swapped-Keeps :
    (w : World) (serial a : ℕ) (d : Option Desc)
    → Keeps w (record w { surfaces = update serial (swapped a d) w.surfaces })
swapped-Keeps w serial a none = update-Keeps w serial (swapped a none) (λ s. refl) (λ s. refl)
swapped-Keeps w serial a (some d) =
    update-Keeps w serial (swapped a (some d)) (λ s. refl) (λ s. refl)

pub attach-Keeps :
    (w : World) (serial : ℕ) (alloc_ok : Bool) (fd : ℕ) (d : Option Desc)
    → Keeps w (attach w serial alloc_ok (some fd) d).1
unfolding attach attach_found attach_imported
attach-Keeps w serial alloc_ok fd d =
    on_found (λ o. Keeps w (attach_found w serial o alloc_ok (some fd) d).1) serial w.surfaces
      (λ n id l. l, λ h. h)
      (λ s e. by_result s (import_buffer w.heap alloc_ok s.client_id (some fd) d))
  where
    by_result : (s : Surface) (r : Imported × Heap) → Keeps w (attach_imported w serial s d r).1
    by_result s (refused x, heap) = (λ n id l. l, λ h. h)
    by_result s (imported a, heap) = swapped-Keeps w serial a d

changed-names :
    (c : Change) (s : Surface)
    → ((changed c s).serial ≡ s.serial) × ((changed c s).object_id ≡ s.object_id)
unfolding changed
changed-names (position _ _) s = (refl, refl)
changed-names (size _ _) s = (refl, refl)
changed-names (plane_type_of _) s = (refl, refl)
changed-names (plane_slot_of _) s = (refl, refl)
changed-names (zpos_of _) s = (refl, refl)
changed-names (transform_of _) s = (refl, refl)
changed-names (flags_of _) s = (refl, refl)
changed-names (scale_of _ _) s = (refl, refl)
changed-names (role_of _ _) s = (refl, refl)

pub change-Keeps : (w : World) (serial : ℕ) (c : Change) → Keeps w (change w serial c).1
unfolding change change_found
change-Keeps w serial c =
    on_found (λ o. Keeps w (change_found w serial o c).1) serial w.surfaces (λ n id l. l, λ h. h)
      λ s e.
        if_cases (λ (r : Status × World). Keeps w r.1) (allowed c s)
          (λ _.
            update-Keeps w serial (changed c) (λ t. (changed-names c t).0)
              (λ t. (changed-names c t).1))
          (λ _. (λ n id l. l, λ h. h))

pub damage_surface-Keeps :
    (w : World) (serial : ℕ) (realloc_ok : Bool) (rects : List Rect)
    → Keeps w (damage_surface w serial realloc_ok rects).1
unfolding damage_surface damage_found
damage_surface-Keeps w serial realloc_ok rects =
    on_found (λ o. Keeps w (damage_found w serial o realloc_ok rects).1) serial w.surfaces
      (λ n id l. l, λ h. h)
      λ s e.
        damage_found-cases (λ (r : Status × World). Keeps w r.1) w serial s realloc_ok rects
          (λ r. (λ n id l. l, λ h. h))
          (λ cap.
            update-Keeps w serial (λ t. record t { damage = s.damage ++ rects; damage_cap = cap })
              (λ t. refl) (λ t. refl))

-- The only surface.
pub find-one : (n : ℕ) (s : Surface) → find n (s ∷ []) ≡ (if s.serial == n then some s else none)
unfolding find
find-one n s = refl
