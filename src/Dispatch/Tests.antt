-- ===== src/Dispatch/Tests.antt =====
-- src/isz_client_dispatch.c at concrete inputs: a client creates a surface, moves it and destroys it.
use ishizue.Base.{◌≡◌, refl, true, some, List, [], ◌∷◌, arith}
use ishizue.Base.Int.{pos, negsuc}
use ishizue.Protocol.Socket.{wrote}
use ishizue.Conn.{Conn, Env, Entry, create, object_surface}
use ishizue.Conn.Objects.{lookup, find}
use ishizue.Render.Surfaces.{Rect, Surface, World}
use ishizue.Render.Surfaces.Operations.{blank}
use ishizue.Render.Surfaces.Run.{empty_world}
use ishizue.Render.Surfaces.Lookups.{find-one}
use ishizue.Status.{status_ok}
use ishizue.Render.Surfaces.Setters.{damage_surface}
use ishizue.Dispatch.Handlers.Damaged.{encoded_damage, handle_client_message-Damages}
use ishizue.Dispatch.{Host, surface_damage, surface_destroy}
use ishizue.Dispatch.Handlers.Live.{IsClient}
use ishizue.Dispatch.Handlers.Switch.{handle_client_message}
use ishizue.Dispatch.Handlers.Session.{handle_client_message-IsClient}

abbrev host : Host
host = record {
  surface_ok = true;
  table_ok = true;
  buffer_ok = true;
  rects_ok = true;
  damage_ok = true;
  outputs = 1 ∷ [];
}

abbrev env : Env
env = record { sendmsg = wrote 12; malloc_ok = true; dups = [] }

abbrev entry : Entry
entry = record { id = 1; handle = 1; kind = object_surface }

abbrev client : Conn
client = record (create 5) {
  handshake_done = true;
  objects = entry ∷ [];
  objects_cap = 8;
  next_object_id = 2;
}

abbrev surface : Surface
surface = record (blank 1) { owned = true; object_id = 1 }

abbrev world : World
world = record empty_world { surfaces = surface ∷ []; next_serial = 1 }

surface_known : lookup client 1 object_surface ≡ some 1
unfolding lookup find
surface_known = refl

client-IsClient : IsClient client world
unfolding lookup find
client-IsClient = record {
  table = record {
    distinct = (refl, tt);
    fresh = λ id h. ground arith;
    no_sentinel = refl;
    next_pos = omega arith;
    room = omega arith;
  };
  fresh = λ n h. ground (arith, find-one n surface);
  live = λ id n e. (surface, ground (arith, find-one n surface, e), ground (arith, e));
}

handle_client_message-IsClient_example :
    IsClient
      (handle_client_message host env client world surface_destroy (1 ∷ 0 ∷ 0 ∷ 0 ∷ []) []).conn
      (handle_client_message host env client world surface_destroy (1 ∷ 0 ∷ 0 ∷ 0 ∷ []) []).world
handle_client_message-IsClient_example =
    handle_client_message-IsClient host env client world surface_destroy (1 ∷ 0 ∷ 0 ∷ 0 ∷ []) []
      client-IsClient (omega arith)

abbrev corners : List Rect
corners =
    record { x1 = pos 0; y1 = negsuc 0; x2 = pos 64; y2 = pos 48 }
    ∷ record { x1 = pos 8; y1 = pos 8; x2 = pos 9; y2 = pos 9 }
    ∷ []

handle_client_message-Damages_example :
    let d =
      handle_client_message host env client world surface_damage (encoded_damage 1 corners []) [] in
    let r = damage_surface world 1 true corners in
    (d.status ≡ status_ok) × (d.world ≡ r.1) × (r.0 ≡ status_ok → (d.conn ≡ client) × (d.wire ≡ []))
handle_client_message-Damages_example =
    handle_client_message-Damages host env client world 1 1 surface corners [] [] refl refl
      (omega arith) (omega arith)
      (
        omega arith,
        omega arith,
        omega arith,
        omega arith,
        (omega arith, omega arith, omega arith, omega arith, tt),
      )
      surface_known (find-one 1 surface)
