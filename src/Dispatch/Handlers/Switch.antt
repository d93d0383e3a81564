-- ===== src/Dispatch/Handlers/Switch.antt =====
-- src/isz_client_dispatch.c: the entry point for these requests.
use ishizue.Base.{ℕ, Option, none, some, List, [], if◌then◌else◌, length}
use ishizue.Status.{Status, status_ok, client_disconnected}
use ishizue.Conn.{Conn, Env, Node, send}
use ishizue.Render.Surfaces.{World}
use ishizue.Render.Surfaces.Setters.{
  position, size, plane_type_of, plane_slot_of, zpos_of, transform_of,
}
use ishizue.Dispatch.{
  Request, surface_create, surface_destroy, surface_damage, surface_attach_buffer,
  surface_set_position, surface_set_size, surface_set_plane_type, surface_set_plane_slot,
  surface_set_zpos, surface_set_transform, surface_create_subsurface, surface_create_popup,
  surface_create_layer, buffer_destroy, Reply, Handled, Host,
}
use ishizue.Dispatch.Parse.{parse_id, parse_value, parse_pair, parse_attach}
use ishizue.Dispatch.Handlers.Damage.{parse_damage, handle_damage}
use ishizue.Dispatch.Handlers.{
  handle_create, handle_destroy, handle_attach, handle_pair, handle_setter, handle_subsurface,
  handle_popup, handle_layer, handle_buffer_destroy,
}

-- The `switch` of `isz_handle_client_message`, at these requests.
unfoldable pub handle : Host → Conn → World → Request → List ℕ → List (Option ℕ) → Handled
unfolding handle_create handle_destroy handle_attach handle_pair handle_setter handle_subsurface
    handle_popup handle_layer handle_buffer_destroy handle_damage
handle host c w surface_create p fds = handle_create host c w fds
handle host c w surface_destroy p fds = handle_destroy c w fds (parse_id p)
handle host c w surface_attach_buffer p fds = handle_attach host c w fds (parse_attach p)
handle host c w surface_damage p fds = handle_damage host c w p fds (parse_damage p)
handle host c w surface_set_position p fds =
    handle_pair c w fds surface_set_position position (parse_pair p)
handle host c w surface_set_size p fds = handle_pair c w fds surface_set_size size (parse_pair p)
handle host c w surface_set_plane_type p fds =
    handle_setter c w fds surface_set_plane_type plane_type_of (parse_value p)
handle host c w surface_set_plane_slot p fds =
    handle_setter c w fds surface_set_plane_slot plane_slot_of (parse_value p)
handle host c w surface_set_zpos p fds =
    handle_setter c w fds surface_set_zpos zpos_of (parse_value p)
handle host c w surface_set_transform p fds =
    handle_setter c w fds surface_set_transform transform_of (parse_value p)
handle host c w surface_create_subsurface p fds = handle_subsurface host c w fds (parse_id p)
handle host c w surface_create_popup p fds = handle_popup host c w fds (parse_pair p)
handle host c w surface_create_layer p fds = handle_layer host c w fds (parse_value p)
handle host c w buffer_destroy p fds = handle_buffer_destroy c w fds (parse_id p)

-- What a message leads to: the status for the caller, the state, and what was sent.
pub record Dispatched : Type 0 where
  pub status : Status
  pub conn : Conn
  pub world : World
  pub wire : List Node
  pub fds : List (Option ℕ)

-- The reply goes out, or into the queue; a failure to send it is not reported.
unfoldable pub replied : Env → Handled → Option Reply → Dispatched
replied env h none = record {
  status = status_ok;
  conn = h.conn;
  world = h.world;
  wire = [];
  fds = h.fds;
}
replied env h (some r) =
    let o = send h.conn env r.id (some r.payload) (length r.payload) none in
    record { status = status_ok; conn = o.conn; world = h.world; wire = o.wire; fds = h.fds }

-- `isz_handle_client_message`.
unfoldable pub handle_client_message :
    Host → Env → Conn → World → Request → List ℕ → List (Option ℕ) → Dispatched
unfolding handle replied
handle_client_message host env c w r p fds =
    let h = handle host c w r p fds in
    if c.handshake_done
    then replied env h h.reply
    else record { status = client_disconnected; conn = c; world = w; wire = []; fds = fds }
