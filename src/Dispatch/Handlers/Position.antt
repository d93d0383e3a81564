-- ===== src/Dispatch/Handlers/Position.antt =====
-- src/isz_client_dispatch.c: from the bytes of a SURFACE_SET_POSITION to the surface.
use ishizue.Base.{
  ℕ, ◌≡◌, refl, ap, subst, sym, ◌∙◌, true, false, Option, none, some, List, [], arith, ◌==◌,
  if◌then◌else◌, if_cases,
}
use ishizue.Base.Bytes.{IsU32}
use ishizue.Base.Int.{ℤ, IsI32}
use ishizue.Status.{status_ok}
use ishizue.Conn.{Conn, Env}
use ishizue.Render.Surfaces.{Surface, World, find, update}
use ishizue.Render.Surfaces.Setters.{position, change, change_found, changed}
use ishizue.Render.Surfaces.Lookups.{find-update}
use ishizue.Dispatch.{Host, surface_set_position}
use ishizue.Dispatch.Parse.Encoded.{encoded_pair, parse_pair-encoded_pair}
use ishizue.Dispatch.Handlers.{surface_of, silent, handle_pair, change_object, told_status}
use ishizue.Dispatch.Handlers.Switch.{handle, Dispatched, replied, handle_client_message}

-- The surface `n` was moved, with no reply, and nothing else has changed.
abbrev pub Places : Conn → World → ℕ → Surface → ℤ → ℤ → Dispatched → Type 0
Places c w n s px py d =
    (d.status ≡ status_ok)
    × (d.conn ≡ c)
    × (d.wire ≡ [])
    × (find n d.world.surfaces ≡ some (record s { x = px; y = py }))
    × ((m : ℕ) → (n == m) ≡ false → find m d.world.surfaces ≡ find m w.surfaces)

moved : World → ℕ → ℤ → ℤ → World
moved w n px py = record w { surfaces = update n (λ s. record s { x = px; y = py }) w.surfaces }

handled :
    (c : Conn) (w : World) (id n : ℕ) (s : Surface) (px py : ℤ) (fds : List (Option ℕ))
    → surface_of c id ≡ some n
    → find n w.surfaces ≡ some s
    → handle_pair c w fds surface_set_position position (some (id, px, py))
      ≡ silent c (moved w n px py) fds
unfolding handle_pair change_object told_status change change_found changed moved
handled c w id n s px py fds e k = rw (e, k) refl

-- A client that has finished its handshake writes the id of one of its surfaces and two signed 32-bit
-- numbers with the payload helpers, whatever follows them: then the surface is at this position
-- and otherwise as it was, every other surface is as it was, and nothing is sent.
pub handle_client_message-Places :
    (host : Host) (env : Env) (c : Conn) (w : World) (id n : ℕ) (s : Surface) (px py : ℤ)
    (rest : List ℕ) (fds : List (Option ℕ))
    → c.handshake_done ≡ true
    → IsU32 id
    → IsI32 px
    → IsI32 py
    → surface_of c id ≡ some n
    → find n w.surfaces ≡ some s
    → Places c w n s px py
        (handle_client_message host env c w surface_set_position (encoded_pair id px py rest) fds)
unfolding handle_client_message handle replied moved
handle_client_message-Places host env c w id n s px py rest fds done h k l e found =
    let f : Surface → Surface = λ s. record s { x = px; y = py } in
    let parsed = parse_pair-encoded_pair id px py rest h k l in
    let run =
      ap (handle_pair c w fds surface_set_position position) parsed
      ∙ handled c w id n s px py fds e found in
    let updated = find-update n f (λ t. refl) in
    if_cases (λ (d : Dispatched). Places c w n s px py d) c.handshake_done
      (λ _.
        subst (λ h. Places c w n s px py (replied env h h.reply)) (sym run)
          (
            refl,
            refl,
            refl,
            ground (arith, updated n w.surfaces, found),
            λ m ne. others m (find m w.surfaces) (updated m w.surfaces) ne,
          ))
      (λ no. absurd (ground (arith, done, no)))
  where
    others :
        (m : ℕ) (o : Option Surface)
        → find m (update n (λ s. record s { x = px; y = py }) w.surfaces) ≡ elim o [
          | none ↦ none
          | some t ↦ some (if n == m then record t { x = px; y = py } else t)
        ]
        → (n == m) ≡ false
        → find m (update n (λ s. record s { x = px; y = py }) w.surfaces) ≡ o
    others m none e ne = e
    others m (some t) e ne = e ∙ rw ne refl
