-- ===== src/Render/Surfaces/Setters.antt =====
-- src/render/isz_surface.c: the setters that check and store, and the damage of a surface.
use ishizue.Base.{
  ℕ, zero, suc, ◌+◌, ◌*◌, Bool, true, false, ◌&&◌, not, Option, none, some, List, ◌++◌, ltb, leb,
  ◌==◌, if◌then◌else◌, length,
}
use ishizue.Base.Int.{ℤ, pos, negsuc}
use ishizue.Status.{Status, status_ok, invalid_arg, resource_limit, no_memory}
use ishizue.Render.Surfaces.{Rect, SurfaceKind, subsurface, Surface, World, find, update}

-- What the setters change. An argument of type int or of an enumeration is an integer.
pub data Change : Type 0 where
  position size : ℤ → ℤ → Change
  plane_type_of plane_slot_of zpos_of transform_of : ℤ → Change
  flags_of : ℕ → Change
  scale_of : ℕ → ℕ → Change
  role_of : ℤ → ℕ → Change

abbrev pub in_range : ℕ → ℤ → Bool
in_range last (pos n) = leb n last
in_range last (negsuc n) = false

abbrev pub is_pos : ℤ → Bool
is_pos (pos n) = ltb 0 n
is_pos (negsuc n) = false

abbrev pub value : ℤ → ℕ
value (pos n) = n
value (negsuc n) = 0

abbrev pub is_subsurface : SurfaceKind → Bool
is_subsurface subsurface = true
is_subsurface k = false

-- The tests of the setters, of which those for NULL come first.
pub allowed : Change → Surface → Bool
allowed (position px py) s = true
allowed (size w h) s = is_pos w && is_pos h
allowed (plane_type_of t) s = in_range 2 t
allowed (plane_slot_of n) s = if is_pos n then true else in_range 0 n
allowed (zpos_of z) s = true
allowed (transform_of t) s = in_range 5 t
allowed (flags_of f) s = is_subsurface s.kind
allowed (scale_of n d) s = not (d == 0)
allowed (role_of r h) s = in_range 3 r

unfoldable pub changed : Change → Surface → Surface
changed (position px py) s = record s { x = px; y = py }
changed (size w h) s = record s { width = w; height = h }
changed (plane_type_of t) s = record s { plane_type = value t; plane_type_set = true }
changed (plane_slot_of n) s = record s { plane_slot = value n; plane_slot_set = true }
changed (zpos_of z) s = record s { zpos = z }
changed (transform_of t) s = record s { transform = value t }
changed (flags_of f) s = record s { subsurface_flags = f }
changed (scale_of n d) s = record s { scale_numerator = n; scale_denominator = d }
changed (role_of r h) s = record s { role = value r; role_handle = h }

unfoldable pub change_found : World → ℕ → Option Surface → Change → Status × World
unfolding allowed changed
change_found w serial none c = (invalid_arg, w)
change_found w serial (some s) c =
    if allowed c s
    then (status_ok, record w { surfaces = update serial (changed c) w.surfaces })
    else (invalid_arg, w)

-- The nine setters, from `isz_surface_set_position` to `isz_surface_set_role`.
unfoldable pub change : World → ℕ → Change → Status × World
unfolding change_found
change w serial c = change_found w serial (find serial w.surfaces) c

-- The doubling of the damage array; one turn for each item that is needed is enough.
unfoldable pub grown_cap : ℕ → ℕ → ℕ → ℕ
grown_cap zero cap need = cap
grown_cap (suc fuel) cap need = elim (ltb cap need) [
  | true ↦ grown_cap fuel (cap * 2) need
  | false ↦ cap
]

-- ISZ_SURFACE_MAX_DAMAGE.
abbrev pub max_damage : ℕ
max_damage = 256

abbrev pub store_damage : World → ℕ → Surface → List Rect → ℕ → Status × World
store_damage w serial s rects cap = (
  status_ok,
  record w {
    surfaces =
        update serial (λ t. record t { damage = s.damage ++ rects; damage_cap = cap }) w.surfaces;
  },
)

unfoldable pub damage_found : World → ℕ → Option Surface → Bool → List Rect → Status × World
unfolding grown_cap
damage_found w serial none realloc_ok rects = (invalid_arg, w)
damage_found w serial (some s) realloc_ok rects =
    let need = length s.damage + length rects in
    if length rects == 0
    then (status_ok, w)
    else if ltb max_damage need
    then (resource_limit, w)
    else if ltb s.damage_cap need
    then (if realloc_ok
        then store_damage w serial s rects
            (grown_cap need (if s.damage_cap == 0 then 8 else s.damage_cap) need)
        else (no_memory, w))
    else store_damage w serial s rects s.damage_cap

-- `isz_surface_damage`, for rectangles that are not NULL.
unfoldable pub damage_surface : World → ℕ → Bool → List Rect → Status × World
unfolding damage_found
damage_surface w serial realloc_ok rects =
    damage_found w serial (find serial w.surfaces) realloc_ok rects

-- The message to the owning client that `isz_surface_set_scale` sends behind a success.
pub scale_message : Option Surface → ℕ → ℕ → Option (ℕ × ℕ × ℕ)
scale_message none n d = none
scale_message (some s) n d =
    if not (d == 0) && (s.owned && not (s.object_id == 0)) then some (s.object_id, n, d) else none
