-- ===== src/Dispatch/Handlers/Session.antt =====
-- src/isz_client_dispatch.c: the requests on surfaces and buffers keep the object table of a client and the surfaces in
-- agreement.
use ishizue.Base.{
  ℕ, ◌+◌, ◌^◌, ◌<◌, ◌≡◌, refl, ◌∙◌, Option, none, some, List, if_cases, length, arith,
}
use ishizue.Conn.{Conn, Env, object_surface, send}
use ishizue.Conn.Steady.{SameObjects, send-SameObjects}
use ishizue.Conn.Objects.{lookup}
use ishizue.Render.Surfaces.{World}
use ishizue.Render.Surfaces.Setters.{
  position, size, plane_type_of, plane_slot_of, zpos_of, transform_of,
}
use ishizue.Dispatch.{
  Request, surface_create, surface_destroy, surface_damage, surface_attach_buffer,
  surface_set_position, surface_set_size, surface_set_plane_type, surface_set_plane_slot,
  surface_set_zpos, surface_set_transform, surface_create_subsurface, surface_create_popup,
  surface_create_layer, buffer_destroy, Reply, reply_id, Handled, Host,
}
use ishizue.Dispatch.Parse.{parse_id, parse_value, parse_pair, parse_attach}
use ishizue.Dispatch.Handlers.{handle_create}
use ishizue.Dispatch.Handlers.Live.{IsClient}
use ishizue.Dispatch.Handlers.Damage.{parse_damage, handle_damage}
use ishizue.Dispatch.Handlers.Safe.{
  damage-IsSafe, IsSafe, adopted-IsSafe, destroy-IsSafe, attach-IsSafe, pair-IsSafe, setter-IsSafe,
  subsurface-IsSafe, popup-IsSafe, layer-IsSafe, buffer_destroy-IsSafe,
}
use ishizue.Dispatch.Handlers.Switch.{handle, Dispatched, replied, handle_client_message}

module _ (host : Host) (c : Conn) (w : World) (v : IsClient c w)
    (small : c.next_object_id + 1 < 2 ^ 32) (p : List ℕ) (fds : List (Option ℕ)) where
  handle-IsSafe : (r : Request) → IsSafe (handle host c w r p fds)
  unfolding handle handle_create handle_damage
  handle-IsSafe surface_create =
      adopted-IsSafe host c w fds v small (λ s. s) surface_create (reply_id surface_create)
        (λ s. refl)
  handle-IsSafe surface_destroy = destroy-IsSafe host c w fds v small (parse_id p)
  handle-IsSafe surface_attach_buffer = attach-IsSafe host c w fds v small (parse_attach p)
  handle-IsSafe surface_damage = damage-IsSafe host c w fds v small p (parse_damage p)
  handle-IsSafe surface_set_position =
      pair-IsSafe host c w fds v small surface_set_position position (parse_pair p)
  handle-IsSafe surface_set_size =
      pair-IsSafe host c w fds v small surface_set_size size (parse_pair p)
  handle-IsSafe surface_set_plane_type =
      setter-IsSafe host c w fds v small surface_set_plane_type plane_type_of (parse_value p)
  handle-IsSafe surface_set_plane_slot =
      setter-IsSafe host c w fds v small surface_set_plane_slot plane_slot_of (parse_value p)
  handle-IsSafe surface_set_zpos =
      setter-IsSafe host c w fds v small surface_set_zpos zpos_of (parse_value p)
  handle-IsSafe surface_set_transform =
      setter-IsSafe host c w fds v small surface_set_transform transform_of (parse_value p)
  handle-IsSafe surface_create_subsurface = subsurface-IsSafe host c w fds v small (parse_id p)
  handle-IsSafe surface_create_popup = popup-IsSafe host c w fds v small (parse_pair p)
  handle-IsSafe surface_create_layer = layer-IsSafe host c w fds v small (parse_value p)
  handle-IsSafe buffer_destroy = buffer_destroy-IsSafe host c w fds v small (parse_id p)

-- Only the table of a connection matters.
same_lookup :
    (c c' : Conn) (id : ℕ)
    → c'.objects ≡ c.objects
    → lookup c id object_surface ≡ lookup c' id object_surface
unfolding lookup
same_lookup c c' id o = rw o refl

same_table-IsClient : (c c' : Conn) (w : World) → SameObjects c c' → IsClient c w → IsClient c' w
same_table-IsClient c c' w (o, cap, next, _) v = record {
  table = record {
    distinct = rw o v.table.distinct;
    fresh = λ id h. rw o (v.table.fresh id (omega (arith, next, h)));
    no_sentinel = rw o v.table.no_sentinel;
    next_pos = omega (arith, next, v.table.next_pos);
    room = rw (o, cap) v.table.room;
  };
  fresh = v.fresh;
  live = λ id n e. v.live id n (same_lookup c c' id o ∙ e);
}

replied-IsClient :
    (env : Env) (h : Handled) (r : Option Reply)
    → IsSafe h
    → IsClient (replied env h r).conn (replied env h r).world
unfolding replied
replied-IsClient env h none v = v
replied-IsClient env h (some r) v =
    same_table-IsClient h.conn (send h.conn env r.id (some r.payload) (length r.payload) none).conn
      h.world (send-SameObjects h.conn env r.id (some r.payload) (length r.payload) none) v

-- Whichever of the fourteen requests of `Request` a client sends, on its surfaces and buffers, well
-- formed or not, whatever the allocator and the socket do, a surface that is NULL included: if each
-- id in its object table that stands for a surface names one that is there and has this object id,
-- then so it is afterwards, and no id stands for a surface that the request destroys. The table
-- stays well formed. This holds before the 32-bit counter of object ids wraps.
pub handle_client_message-IsClient :
    (host : Host) (env : Env) (c : Conn) (w : World) (r : Request) (p : List ℕ)
    (fds : List (Option ℕ))
    → IsClient c w
    → c.next_object_id + 1 < 2 ^ 32
    → let d = handle_client_message host env c w r p fds in IsClient d.conn d.world
unfolding handle_client_message
handle_client_message-IsClient host env c w r p fds v small =
    let h = handle host c w r p fds in
    if_cases (λ (d : Dispatched). IsClient d.conn d.world) c.handshake_done
      (λ _. replied-IsClient env h h.reply (handle-IsSafe host c w v small p fds r)) (λ _. v)
