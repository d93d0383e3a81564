-- ===== src/Dispatch.antt =====
-- src/isz_client_dispatch.c: the requests of a client on its surfaces and buffers. A handle in the
-- client's object table is the serial of a surface, the address of a buffer, or an output's number.
pub mod Parse
pub mod Handlers
pub mod Clipboard
pub mod Selection
mod Tests
use ishizue.Base.{
  ℕ, Bool, true, false, Option, none, some, List, [], ◌∷◌, ◌++◌, if◌then◌else◌, length,
}
use ishizue.Base.Bytes.{put_u32_le}
use ishizue.Base.Int.{ℤ, pos, negsuc, to_u32}
use ishizue.Status.{
  Status, status_ok, commit_failed, commit_pending, resource_limit, surface_no_plane_slot,
  plane_unavail, transform_unsupported, output_disconnected, invalid_dmabuf, client_disconnected,
  invalid_arg, feature_unavail, no_memory, drm_master, client_too_slow, access_denied,
}
use ishizue.Conn.{Conn, Env, Node, Outcome, send}
use ishizue.Render.Surfaces.{World}

-- The messages of `enum isz_msg_id` that are handled here.
pub data Request : Type 0 where
  surface_create surface_destroy surface_attach_buffer surface_damage surface_set_position
        surface_set_size :
      Request
  surface_set_plane_type surface_set_plane_slot surface_set_zpos surface_set_transform : Request
  surface_create_subsurface surface_create_popup surface_create_layer buffer_destroy : Request

abbrev pub msg_id : Request → ℕ
msg_id surface_create = 4
msg_id surface_destroy = 5
msg_id surface_attach_buffer = 6
msg_id surface_damage = 7
msg_id surface_set_position = 8
msg_id surface_set_size = 9
msg_id surface_set_plane_type = 10
msg_id surface_set_plane_slot = 11
msg_id surface_set_zpos = 12
msg_id surface_set_transform = 13
msg_id surface_create_subsurface = 14
msg_id surface_create_popup = 15
msg_id surface_create_layer = 16
msg_id buffer_destroy = 17

-- ISZ_MSG_ERROR.
abbrev pub msg_error : ℕ
msg_error = 50

-- The values of `isz_error`.
abbrev pub code : Status → ℤ
code status_ok = pos 0
code commit_failed = negsuc 0
code commit_pending = negsuc 1
code resource_limit = negsuc 2
code surface_no_plane_slot = negsuc 3
code plane_unavail = negsuc 4
code transform_unsupported = negsuc 5
code output_disconnected = negsuc 6
code invalid_dmabuf = negsuc 7
code client_disconnected = negsuc 8
code invalid_arg = negsuc 9
code feature_unavail = negsuc 10
code no_memory = negsuc 11
code drm_master = negsuc 12
code client_too_slow = negsuc 13
code access_denied = negsuc 14

-- A reply, which is the last thing that a handler does: its message id and payload.
pub record Reply : Type 0 where
  pub id : ℕ
  pub payload : List ℕ

-- `isz_reply_error`.
abbrev pub reply_error : Request → Status → Option Reply
reply_error r e =
    some
      (record { id = msg_error; payload = put_u32_le (msg_id r) ++ put_u32_le (to_u32 (code e)) })

-- The replies of one id, `isz_reply_surface_create`, and of two, from `isz_reply_attach_buffer` to
-- `isz_reply_layer`.
abbrev pub reply_id : Request → ℕ → Option Reply
reply_id r a = some (record { id = msg_id r; payload = put_u32_le a })

abbrev pub reply_ids : Request → ℕ → ℕ → Option Reply
reply_ids r a b = some (record { id = msg_id r; payload = put_u32_le a ++ put_u32_le b })

-- What a handler leaves behind: the descriptors of the message that it did not consume are still
-- there for the caller to close.
pub record Handled : Type 0 where
  pub conn : Conn
  pub world : World
  pub reply : Option Reply
  pub fds : List (Option ℕ)

-- What the allocator says during one message (`surface_ok` is whether a new surface is not NULL), and
-- the server's outputs.
pub record Host : Type 0 where
  pub surface_ok : Bool
  pub table_ok : Bool
  pub buffer_ok : Bool
  pub rects_ok : Bool
  pub damage_ok : Bool
  pub outputs : List ℕ
