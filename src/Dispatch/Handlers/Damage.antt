-- ===== src/Dispatch/Handlers/Damage.antt =====
-- src/isz_client_dispatch.c: SURFACE_DAMAGE. The rectangles are read once the payload is known to hold
-- them; a longer payload is not refused.
use ishizue.Base.{
  ℕ, zero, suc, ◌+◌, ◌-◌, ◌*◌, Option, none, some, List, [], ◌∷◌, ◌==◌, ltb, if◌then◌else◌, length,
}
use ishizue.Status.{invalid_arg, no_memory}
use ishizue.Conn.{Conn}
use ishizue.Protocol.Payload.{read_u32_checked, read_i32}
use ishizue.Render.Surfaces.{Rect, World}
use ishizue.Render.Surfaces.Setters.{damage_surface}
use ishizue.Dispatch.{surface_damage, Handled, Host}
use ishizue.Dispatch.Parse.{and_then}
use ishizue.Dispatch.Handlers.{fails, silent, surface_of, told_status}

-- The surface, the number of rectangles, and the offset of the first.
unfoldable pub parse_damage : List ℕ → Option (ℕ × ℕ × ℕ)
parse_damage p = and_then (read_u32_checked p 0 (length p)) λ id off.
    and_then (read_u32_checked p off (length p))
      λ n off. if ltb (length p - off) (n * 16) then none else some (id, n, off)

-- The loop over the rectangles.
unfoldable pub read_rects : ℕ → List ℕ → ℕ → List Rect
read_rects zero p off = []
read_rects (suc n) p off =
    record {
      x1 = read_i32 p off;
      y1 = read_i32 p (off + 4);
      x2 = read_i32 p (off + 8);
      y2 = read_i32 p (off + 12);
    }
    ∷ read_rects n p (off + 16)

unfoldable pub damage_object :
    Host → Conn → World → List (Option ℕ) → List ℕ → ℕ → ℕ → Option ℕ → Handled
unfolding read_rects told_status
damage_object host c w fds p off n none = fails c w fds surface_damage invalid_arg
damage_object host c w fds p off n (some serial) =
    if n == 0
    then silent c (damage_surface w serial host.damage_ok []).1 fds
    else if host.rects_ok
    then told_status c fds surface_damage
        (damage_surface w serial host.damage_ok (read_rects n p off))
    else fails c w fds surface_damage no_memory

-- `isz_handle_damage`.
unfoldable pub handle_damage :
    Host → Conn → World → List ℕ → List (Option ℕ) → Option (ℕ × ℕ × ℕ) → Handled
unfolding damage_object
handle_damage host c w p fds none = fails c w fds surface_damage invalid_arg
handle_damage host c w p fds (some (id, n, off)) =
    damage_object host c w fds p off n (surface_of c id)
