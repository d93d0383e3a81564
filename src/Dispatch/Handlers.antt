-- ===== src/Dispatch/Handlers.antt =====
-- src/isz_client_dispatch.c: a handler for each request.
pub mod Switch
pub mod Live
pub mod Safe
pub mod Session
pub mod Position
pub mod Damage
pub mod Damaged
use ishizue.Base.{
  ℕ, ◌+◌, Bool, true, false, Option, none, some, List, [], ◌∷◌, ◌==◌, ◌||◌, not, leb, if◌then◌else◌,
  length, get_elem?, set,
}
use ishizue.Base.Int.{ℤ, pos, negsuc}
use ishizue.Status.{Status, status_ok, invalid_arg, invalid_dmabuf, no_memory, client_disconnected}
use ishizue.Conn.{Conn, Env, Node, Outcome, send, object_surface, object_buffer, object_output}
use ishizue.Conn.Objects.{register, lookup, unregister}
use ishizue.Render.Buffers.{Heap, let_go}
use ishizue.Render.Surfaces.{Surface, World, find, update}
use ishizue.Render.Surfaces.Operations.{
  create, create_subsurface, create_popup, create_layer, destroy, attach,
}
use ishizue.Render.Surfaces.Setters.{
  Change, change, position, size, plane_type_of, plane_slot_of, zpos_of, transform_of, in_range,
  value,
}
use ishizue.Dispatch.{
  Request, surface_create, surface_destroy, surface_attach_buffer, surface_set_position,
  surface_set_size, surface_set_plane_type, surface_set_plane_slot, surface_set_zpos,
  surface_set_transform, surface_create_subsurface, surface_create_popup, surface_create_layer,
  buffer_destroy, Reply, reply_error, reply_id, reply_ids, Handled, Host,
}
use ishizue.Dispatch.Parse.{parse_id, parse_value, parse_pair, AttachRequest, parse_attach}

-- A handler that stops with an error reply, or in silence.
abbrev pub fails : Conn → World → List (Option ℕ) → Request → Status → Handled
fails c w fds r e = record { conn = c; world = w; reply = reply_error r e; fds = fds }

abbrev pub silent : Conn → World → List (Option ℕ) → Handled
silent c w fds = record { conn = c; world = w; reply = none; fds = fds }

-- The surface object behind an id.
abbrev pub surface_of : Conn → ℕ → Option ℕ
surface_of c id = lookup c id object_surface

-- Behind the creation of the surface `serial`: it is registered, or destroyed again.
pub owned_by : World → ℕ → List (Option ℕ) → Request → (ℕ → Option Reply) → ℕ × Conn → Handled
owned_by w serial fds r answer (id, c) =
    if id == 0 then fails c (destroy w serial) fds r no_memory else record {
      conn = c;
      world = record w {
        surfaces = update serial (λ s. record s { owned = true; object_id = id }) w.surfaces;
      };
      reply = answer id;
      fds = fds;
    }

-- A handler in which the world `w` gets a new surface, as in `made`, unless the result is NULL.
pub adopt : Host → Conn → World → World → List (Option ℕ) → Request → (ℕ → Option Reply) → Handled
unfolding owned_by
adopt host c w made fds r answer =
    if host.surface_ok
    then owned_by made made.next_serial fds r answer
        (register c host.table_ok made.next_serial object_surface)
    else fails c w fds r no_memory

-- `isz_handle_surface_create`.
pub handle_create : Host → Conn → World → List (Option ℕ) → Handled
unfolding adopt
handle_create host c w fds = adopt host c w (create w) fds surface_create (reply_id surface_create)

-- `isz_handle_surface_destroy`.
destroy_object : Conn → World → List (Option ℕ) → ℕ → Option ℕ → Handled
destroy_object c w fds id none = fails c w fds surface_destroy invalid_arg
destroy_object c w fds id (some serial) = silent (unregister c id) (destroy w serial) fds

pub handle_destroy : Conn → World → List (Option ℕ) → Option ℕ → Handled
unfolding destroy_object
handle_destroy c w fds none = fails c w fds surface_destroy invalid_arg
handle_destroy c w fds (some id) = destroy_object c w fds id (surface_of c id)

-- The buffer that the surface has now.
current_of : Option Surface → Option ℕ
current_of none = none
current_of (some s) = s.current

-- The current buffer is registered.
buffer_reply : World → List (Option ℕ) → ℕ → ℕ × Conn → Handled
buffer_reply w fds sid (id, c) =
    if id == 0
    then fails c w fds surface_attach_buffer no_memory
    else record { conn = c; world = w; reply = reply_ids surface_attach_buffer sid id; fds = fds }

register_buffer : Host → Conn → World → List (Option ℕ) → ℕ → Option ℕ → Handled
unfolding buffer_reply
register_buffer host c w fds sid none = fails c w fds surface_attach_buffer no_memory
register_buffer host c w fds sid (some a) =
    buffer_reply w fds sid (register c host.table_ok a object_buffer)

attach_outcome : Host → Conn → List (Option ℕ) → ℕ → ℕ → Status × World → Handled
unfolding register_buffer current_of
attach_outcome host c fds sid serial (status_ok, w) =
    register_buffer host c w fds sid (current_of (find serial w.surfaces))
attach_outcome host c fds sid serial (e, w) = fails c w fds surface_attach_buffer e

-- The descriptor at an index, where there is one that no handler has consumed.
unfoldable pub fd_at : List (Option ℕ) → ℕ → Option ℕ
fd_at fds i = elim (get_elem? fds i) [ none ↦ none | some fd ↦ fd ]

attach_fd : Host → Conn → World → List (Option ℕ) → AttachRequest → ℕ → Option ℕ → Handled
unfolding attach_outcome
attach_fd host c w fds q serial none = fails c w fds surface_attach_buffer invalid_dmabuf
attach_fd host c w fds q serial (some fd) =
    attach_outcome host c (set fds q.fd_index none) q.surface_id serial
      (attach w serial host.buffer_ok (some fd) (some q.desc))

attach_object : Host → Conn → World → List (Option ℕ) → AttachRequest → Option ℕ → Handled
unfolding attach_fd fd_at
attach_object host c w fds q none = fails c w fds surface_attach_buffer invalid_arg
attach_object host c w fds q (some serial) = attach_fd host c w fds q serial (fd_at fds q.fd_index)

-- `isz_handle_attach_buffer`.
pub handle_attach : Host → Conn → World → List (Option ℕ) → Option AttachRequest → Handled
unfolding attach_object
handle_attach host c w fds none = fails c w fds surface_attach_buffer invalid_arg
handle_attach host c w fds (some q) = attach_object host c w fds q (surface_of c q.surface_id)

-- The end of a setter's handler: an error is told, success is silent.
pub told_status : Conn → List (Option ℕ) → Request → Status × World → Handled
told_status c fds r (status_ok, w) = silent c w fds
told_status c fds r (e, w) = fails c w fds r e

change_object : Conn → World → List (Option ℕ) → Request → Change → Option ℕ → Handled
unfolding told_status
change_object c w fds r x none = fails c w fds r invalid_arg
change_object c w fds r x (some serial) = told_status c fds r (change w serial x)

-- `isz_handle_set_position` and `isz_handle_set_size`.
pub handle_pair :
    Conn → World → List (Option ℕ) → Request → (ℤ → ℤ → Change) → Option (ℕ × ℤ × ℤ) → Handled
unfolding change_object
handle_pair c w fds r f none = fails c w fds r invalid_arg
handle_pair c w fds r f (some (id, x, y)) = change_object c w fds r (f x y) (surface_of c id)

-- `isz_handle_surface_setter`.
pub handle_setter :
    Conn → World → List (Option ℕ) → Request → (ℤ → Change) → Option (ℕ × ℤ) → Handled
unfolding change_object
handle_setter c w fds r f none = fails c w fds r invalid_arg
handle_setter c w fds r f (some (id, v)) = change_object c w fds r (f v) (surface_of c id)

-- `isz_handle_create_subsurface`.
subsurface_object : Host → Conn → World → List (Option ℕ) → ℕ → Option ℕ → Handled
unfolding adopt
subsurface_object host c w fds id none = fails c w fds surface_create_subsurface invalid_arg
subsurface_object host c w fds id (some parent) =
    adopt host c w (create_subsurface w parent) fds surface_create_subsurface
      (reply_ids surface_create_subsurface id)

pub handle_subsurface : Host → Conn → World → List (Option ℕ) → Option ℕ → Handled
unfolding subsurface_object
handle_subsurface host c w fds none = fails c w fds surface_create_subsurface invalid_arg
handle_subsurface host c w fds (some id) = subsurface_object host c w fds id (surface_of c id)

-- `isz_handle_create_popup`.
popup_object : Host → Conn → World → List (Option ℕ) → ℕ → ℤ → ℤ → Option ℕ → Handled
unfolding adopt
popup_object host c w fds id x y none = fails c w fds surface_create_popup invalid_arg
popup_object host c w fds id x y (some parent) =
    adopt host c w (create_popup w parent x y) fds surface_create_popup
      (reply_ids surface_create_popup id)

pub handle_popup : Host → Conn → World → List (Option ℕ) → Option (ℕ × ℤ × ℤ) → Handled
unfolding popup_object
handle_popup host c w fds none = fails c w fds surface_create_popup invalid_arg
handle_popup host c w fds (some (id, x, y)) = popup_object host c w fds id x y (surface_of c id)

-- `isz_resolve_output`: the object, or else the server's first output.
first_of : List ℕ → Option ℕ
first_of [] = none
first_of (o ∷ os) = some o

pub resolve_output : Host → Conn → ℕ → Option ℕ
unfolding first_of
resolve_output host c id =
    let first = first_of host.outputs in
    if id == 0 then first else elim (lookup c id object_output) [ none ↦ first | some o ↦ some o ]

-- `isz_handle_create_layer`; the layers are 0 to 3.
layer_on : Host → Conn → World → List (Option ℕ) → ℤ → Option ℕ → Handled
unfolding adopt
layer_on host c w fds layer none = fails c w fds surface_create_layer invalid_arg
layer_on host c w fds layer (some out) =
    if in_range 3 layer
    then adopt host c w (create_layer w out (value layer)) fds surface_create_layer
        (reply_ids surface_create_layer out)
    else fails c w fds surface_create_layer invalid_arg

pub handle_layer : Host → Conn → World → List (Option ℕ) → Option (ℕ × ℤ) → Handled
unfolding layer_on resolve_output
handle_layer host c w fds none = fails c w fds surface_create_layer invalid_arg
handle_layer host c w fds (some (id, layer)) =
    layer_on host c w fds layer (resolve_output host c id)

-- `isz_handle_buffer_destroy`.
buffer_object : Conn → World → List (Option ℕ) → ℕ → Option ℕ → Handled
buffer_object c w fds id none = silent c w fds
buffer_object c w fds id (some a) =
    silent (unregister c id) (record w { heap = let_go w.heap (some a) }) fds

pub handle_buffer_destroy : Conn → World → List (Option ℕ) → Option ℕ → Handled
unfolding buffer_object
handle_buffer_destroy c w fds none = fails c w fds buffer_destroy invalid_arg
handle_buffer_destroy c w fds (some id) = buffer_object c w fds id (lookup c id object_buffer)
