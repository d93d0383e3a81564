-- ===== src/Render/Surfaces/Operations.antt =====
-- src/render/isz_surface.c: creation and destruction of a surface, its buffers, its output and its
-- idle inhibition. The lists of a parent's children are left out.
use ishizue.Base.{
  ℕ, ◌+◌, Bool, true, false, ◌&&◌, ◌||◌, not, Option, none, some, List, [], ◌∷◌, ◌++◌, ◌==◌,
  if◌then◌else◌,
}
use ishizue.Base.Int.{ℤ, pos, negsuc, of_u32}
use ishizue.Status.{Status, status_ok, invalid_arg}
use ishizue.Render.Buffers.{Desc, Imported, imported, refused, import_buffer, let_go, Heap}
use ishizue.Render.Slots.{Reservation, resv_clear}
use ishizue.Render.Surfaces.{
  normal, subsurface, popup, layer_shell, Surface, World, find, update, remove, is_output,
  inhibit_adjust,
}

abbrev pub blank : ℕ → Surface
blank serial = record {
  serial = serial;
  client_id = 0;
  owned = false;
  object_id = 0;
  kind = normal;
  current = none;
  pending_release = none;
  damage = [];
  damage_cap = 0;
  x = pos 0;
  y = pos 0;
  width = pos 0;
  height = pos 0;
  plane_type = 0;
  plane_type_set = false;
  plane_slot = 0;
  plane_slot_set = false;
  zpos = pos 0;
  transform = 0;
  output = none;
  parent = none;
  popup_x = pos 0;
  popup_y = pos 0;
  subsurface_flags = 0;
  layer = 0;
  idle_inhibit = false;
  scale_numerator = 0;
  scale_denominator = 0;
  role = 0;
  role_handle = 0;
}

-- `isz_surface_create`, where `calloc` succeeds, with what a caller sets behind it.
unfoldable pub create_with : World → (Surface → Surface) → World
create_with w f = record w {
  surfaces = w.surfaces ++ f (blank (w.next_serial + 1)) ∷ [];
  next_serial = w.next_serial + 1;
}

abbrev pub create : World → World
create w = create_with w (λ s. s)

-- `isz_surface_create_subsurface`, `isz_surface_create_popup` and `isz_surface_create_layer`.
abbrev pub create_subsurface : World → ℕ → World
create_subsurface w parent =
    create_with w (λ s. record s { kind = subsurface; parent = some parent })

abbrev pub create_popup : World → ℕ → ℤ → ℤ → World
create_popup w parent px py =
    create_with w (λ s. record s { kind = popup; parent = some parent; popup_x = px; popup_y = py })

abbrev pub create_layer : World → ℕ → ℕ → World
create_layer w out which =
    create_with w (λ s. record s { kind = layer_shell; layer = which; output = some out })

abbrev released_slot : List Reservation → Surface → Option ℕ → List Reservation
released_slot rs s none = rs
released_slot rs s (some out) =
    if s.plane_slot_set then resv_clear rs out s.plane_slot s.serial else rs

abbrev pub uninhibit : World → Surface → World
uninhibit w s = if s.idle_inhibit then inhibit_adjust w s.output false else w

-- `isz_surface_destroy`.
unfoldable pub destroy_found : World → ℕ → Option Surface → World
destroy_found w serial none = w
destroy_found w serial (some s) =
    let w' = uninhibit w s in
    record w' {
      surfaces = remove serial w.surfaces;
      resv = released_slot w.resv s s.output;
      heap = let_go (let_go w.heap s.current) s.pending_release;
    }

unfoldable pub destroy : World → ℕ → World
unfolding destroy_found
destroy w serial = destroy_found w serial (find serial w.surfaces)

abbrev pub is_zero : ℤ → Bool
is_zero (pos n) = n == 0
is_zero (negsuc n) = false

-- The swap of the two buffers, for the new one and its size.
abbrev pub swapped : ℕ → Option Desc → Surface → Surface
swapped a none s = record s { pending_release = s.current; current = some a }
swapped a (some d) s = record s {
  pending_release = s.current;
  current = some a;
  width = if is_zero s.width || is_zero s.height then of_u32 d.width else s.width;
  height = if is_zero s.width || is_zero s.height then of_u32 d.height else s.height;
}

unfoldable pub attach_imported :
    World → ℕ → Surface → Option Desc → Imported × Heap → Status × World
attach_imported w serial s d (refused e, h) = (e, record w { heap = h })
attach_imported w serial s d (imported a, h) = (
  status_ok,
  record w { heap = let_go h s.pending_release; surfaces = update serial (swapped a d) w.surfaces },
)

unfoldable pub attach_found :
    World → ℕ → Option Surface → Bool → Option ℕ → Option Desc → Status × World
unfolding attach_imported
attach_found w serial none alloc_ok none d = (invalid_arg, w)
attach_found w serial none alloc_ok (some fd) d =
    (invalid_arg, record w { heap = record w.heap { closed = w.heap.closed ++ fd ∷ [] } })
attach_found w serial (some s) alloc_ok fd d =
    attach_imported w serial s d (import_buffer w.heap alloc_ok s.client_id fd d)

-- `isz_surface_attach_buffer`.
unfoldable pub attach : World → ℕ → Bool → Option ℕ → Option Desc → Status × World
unfolding attach_found
attach w serial alloc_ok fd d = attach_found w serial (find serial w.surfaces) alloc_ok fd d

unfoldable pub detach_found : World → ℕ → Option Surface → Status × World
detach_found w serial none = (invalid_arg, w)
detach_found w serial (some s) = (
  status_ok,
  record w {
    heap = let_go w.heap s.current;
    surfaces = update serial (λ t. record t { current = none }) w.surfaces;
  },
)

-- `isz_surface_detach_buffer`.
unfoldable pub detach : World → ℕ → Status × World
unfolding detach_found
detach w serial = detach_found w serial (find serial w.surfaces)

unfoldable pub move_inhibit : World → Surface → ℕ → World
move_inhibit w s out =
    if s.idle_inhibit && not (is_output out s.output)
    then inhibit_adjust (inhibit_adjust w s.output false) (some out) true
    else w

unfoldable pub set_output_found : World → ℕ → Option Surface → ℕ → Status × World
unfolding move_inhibit
set_output_found w serial none out = (invalid_arg, w)
set_output_found w serial (some s) out =
    let w' = move_inhibit w s out in
    (
      status_ok,
      record w' { surfaces = update serial (λ t. record t { output = some out }) w.surfaces },
    )

-- `isz_surface_set_output`, for an output that is not NULL.
unfoldable pub set_output : World → ℕ → ℕ → Status × World
unfolding set_output_found
set_output w serial out = set_output_found w serial (find serial w.surfaces) out

unfoldable pub clear_output_found : World → ℕ → Option Surface → Status × World
clear_output_found w serial none = (invalid_arg, w)
clear_output_found w serial (some s) =
    let w' = uninhibit w s in
    (
      status_ok,
      record w' {
        surfaces = update serial (λ t. record t { output = none }) w.surfaces;
        resv = released_slot w.resv s s.output;
      },
    )

-- `isz_surface_clear_output`.
unfoldable pub clear_output : World → ℕ → Status × World
unfolding clear_output_found
clear_output w serial = clear_output_found w serial (find serial w.surfaces)

unfoldable pub set_idle_found : World → ℕ → Option Surface → Bool → Status × World
set_idle_found w serial none inhibit = (invalid_arg, w)
set_idle_found w serial (some s) inhibit =
    let w' = inhibit_adjust w s.output inhibit in
    if (if s.idle_inhibit then inhibit else not inhibit) then (status_ok, w) else (
      status_ok,
      record w' { surfaces = update serial (λ t. record t { idle_inhibit = inhibit }) w.surfaces },
    )

-- `isz_surface_set_idle_inhibit`.
unfoldable pub set_idle_inhibit : World → ℕ → Bool → Status × World
unfolding set_idle_found
set_idle_inhibit w serial inhibit = set_idle_found w serial (find serial w.surfaces) inhibit
