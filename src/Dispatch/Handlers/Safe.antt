-- ===== src/Dispatch/Handlers/Safe.antt =====
-- src/isz_client_dispatch.c: no request on surfaces and buffers leaves a pointer to a destroyed surface in the
-- client's object table.
use ishizue.Base.{
  ℕ, ◌+◌, ◌^◌, ◌<◌, ◌≡◌, refl, Bool, Option, none, some, List, [], arith, ◌==◌, if_cases, inl, inr,
  set,
}
use ishizue.Base.Int.{ℤ}
use ishizue.Status.{Status, status_ok}
use ishizue.Conn.{Conn, object_surface, object_buffer}
use ishizue.Conn.Objects.{register, lookup, unregister}
use ishizue.Conn.Objects.Map.{Registers, register-Registers, unregister-Unregisters}
use ishizue.Render.Surfaces.{Rect, Surface, World, layer_shell, subsurface, popup}
use ishizue.Render.Surfaces.Operations.{create_with, attach}
use ishizue.Render.Surfaces.Setters.{Change, change, in_range, value, damage_surface}
use ishizue.Render.Surfaces.Lookups.{Keeps, attach-Keeps, change-Keeps, damage_surface-Keeps}
use ishizue.Dispatch.{
  Request, surface_damage, surface_create_subsurface, surface_create_popup, surface_create_layer,
  Reply, reply_ids, Handled, Host,
}
use ishizue.Dispatch.Parse.{AttachRequest}
use ishizue.Dispatch.Handlers.{
  surface_of, adopt, destroy_object, handle_destroy, buffer_reply, register_buffer, attach_outcome,
  fd_at, attach_fd, attach_object, handle_attach, told_status, change_object, handle_pair,
  handle_setter, subsurface_object, handle_subsurface, popup_object, handle_popup, resolve_output,
  layer_on, handle_layer, buffer_object, handle_buffer_destroy,
}
use ishizue.Dispatch.Handlers.Damage.{read_rects, damage_object, handle_damage}
use ishizue.Dispatch.Handlers.Live.{IsClient, kept, destroyed-IsClient, owned_by-IsClient}

-- The state that a handler leaves.
abbrev pub IsSafe : Handled → Type 0
IsSafe h = IsClient h.conn h.world

module _ (host : Host) (c : Conn) (w : World) (fds : List (Option ℕ)) (v : IsClient c w)
    (small : c.next_object_id + 1 < 2 ^ 32) where
  -- An object that is no surface comes, or an entry goes.
  registered-IsClient :
      (ok : Bool) (a : ℕ) (p : ℕ × Conn) (w' : World)
      → Keeps w w'
      → Registers c ok a object_buffer p
      → IsClient p.1 w'
  registered-IsClient ok a (id, c') w' k (t, inl (_, same, _, _)) =
      kept c c' w w' v k t (λ j n e. ground (arith, same, e))
  registered-IsClient ok a (id, c') w' k (t, inr (new, free, answers)) =
      kept c c' w w' v k t (λ j n e. ground (arith, answers j object_surface, e))

  pub adopted-IsSafe :
      (f : Surface → Surface) (r : Request) (answer : ℕ → Option Reply)
      → ((s : Surface) → (f s).serial ≡ s.serial)
      → IsSafe (adopt host c w (create_with w f) fds r answer)
  unfolding adopt create_with
  adopted-IsSafe f r answer k =
      if_cases (λ (h : Handled). IsSafe h) host.surface_ok
        (λ _.
          owned_by-IsClient c w f k v host.table_ok fds r answer
            (register c host.table_ok (w.next_serial + 1) object_surface)
            (register-Registers c host.table_ok (w.next_serial + 1) object_surface v.table small))
        (λ _. v)

  pub destroy-IsSafe : (o : Option ℕ) → IsSafe (handle_destroy c w fds o)
  unfolding handle_destroy destroy_object
  destroy-IsSafe none = v
  destroy-IsSafe (some id) = by_object (surface_of c id) refl
    where
      by_object : (o : Option ℕ) → surface_of c id ≡ o → IsSafe (destroy_object c w fds id o)
      by_object none e = v
      by_object (some n) e = destroyed-IsClient c w id n v e

  buffer_reply-IsSafe :
      (w' : World) (fds' : List (Option ℕ)) (sid : ℕ) (p : ℕ × Conn)
      → IsClient p.1 w'
      → IsSafe (buffer_reply w' fds' sid p)
  unfolding buffer_reply
  buffer_reply-IsSafe w' fds' sid (id, c') k =
      if_cases (λ (h : Handled). IsSafe h) (id == 0) (λ _. k) (λ _. k)

  register_buffer-IsSafe :
      (w' : World) (fds' : List (Option ℕ)) (sid : ℕ) (o : Option ℕ)
      → Keeps w w'
      → IsSafe (register_buffer host c w' fds' sid o)
  unfolding register_buffer
  register_buffer-IsSafe w' fds' sid none k = kept c c w w' v k v.table (λ j n e. e)
  register_buffer-IsSafe w' fds' sid (some a) k =
      buffer_reply-IsSafe w' fds' sid (register c host.table_ok a object_buffer) (
        registered-IsClient host.table_ok a (register c host.table_ok a object_buffer) w' k
          (register-Registers c host.table_ok a object_buffer v.table small))

  attach_outcome-IsSafe :
      (fds' : List (Option ℕ)) (sid n : ℕ) (r : Status × World)
      → Keeps w r.1
      → IsSafe (attach_outcome host c fds' sid n r)
  unfolding attach_outcome
  attach_outcome-IsSafe fds' sid n (status_ok, w') k = register_buffer-IsSafe w' fds' sid _ k
  attach_outcome-IsSafe fds' sid n (e, w') k = kept c c w w' v k v.table (λ j n e. e)

  attach_fd-IsSafe :
      (q : AttachRequest) (n : ℕ) (o : Option ℕ) → IsSafe (attach_fd host c w fds q n o)
  unfolding attach_fd
  attach_fd-IsSafe q n none = v
  attach_fd-IsSafe q n (some fd) =
      attach_outcome-IsSafe (set fds q.fd_index none) q.surface_id n
        (attach w n host.buffer_ok (some fd) (some q.desc))
        (attach-Keeps w n host.buffer_ok fd (some q.desc))

  attach_object-IsSafe :
      (q : AttachRequest) (o : Option ℕ) → IsSafe (attach_object host c w fds q o)
  unfolding attach_object
  attach_object-IsSafe q none = v
  attach_object-IsSafe q (some n) = attach_fd-IsSafe q n (fd_at fds q.fd_index)

  pub attach-IsSafe : (o : Option AttachRequest) → IsSafe (handle_attach host c w fds o)
  unfolding handle_attach
  attach-IsSafe none = v
  attach-IsSafe (some q) = attach_object-IsSafe q (surface_of c q.surface_id)

  pub told_status-IsSafe :
      (r : Request) (x : Status × World) → Keeps w x.1 → IsSafe (told_status c fds r x)
  unfolding told_status
  told_status-IsSafe r (status_ok, w') k = kept c c w w' v k v.table (λ j n e. e)
  told_status-IsSafe r (e, w') k = kept c c w w' v k v.table (λ j n e. e)

  change_object-IsSafe :
      (r : Request) (x : Change) (o : Option ℕ) → IsSafe (change_object c w fds r x o)
  unfolding change_object
  change_object-IsSafe r x none = v
  change_object-IsSafe r x (some n) = told_status-IsSafe r (change w n x) (change-Keeps w n x)

  damage_object-IsSafe :
      (p : List ℕ) (off n : ℕ) (o : Option ℕ) → IsSafe (damage_object host c w fds p off n o)
  unfolding damage_object
  damage_object-IsSafe p off n none = v
  damage_object-IsSafe p off n (some serial) =
      if_cases (λ (h : Handled). IsSafe h) (n == 0) (λ _. damaged [] _)
        λ _.
          if_cases (λ (h : Handled). IsSafe h) host.rects_ok (λ _. told (read_rects n p off))
            (λ _. v)
    where
      damaged : (rects : List Rect) (ok : Bool) → IsClient c (damage_surface w serial ok rects).1
      damaged rects ok =
          kept c c w _ v (damage_surface-Keeps w serial ok rects) v.table (λ j n e. e)

      told :
          (rects : List Rect)
          → IsSafe (told_status c fds surface_damage (damage_surface w serial host.damage_ok rects))
      told rects =
          told_status-IsSafe surface_damage (damage_surface w serial host.damage_ok rects)
            (damage_surface-Keeps w serial host.damage_ok rects)

  pub damage-IsSafe :
      (p : List ℕ) (o : Option (ℕ × ℕ × ℕ)) → IsSafe (handle_damage host c w p fds o)
  unfolding handle_damage
  damage-IsSafe p none = v
  damage-IsSafe p (some (id, n, off)) = damage_object-IsSafe p off n (surface_of c id)

  pub pair-IsSafe :
      (r : Request) (f : ℤ → ℤ → Change) (o : Option (ℕ × ℤ × ℤ))
      → IsSafe (handle_pair c w fds r f o)
  unfolding handle_pair
  pair-IsSafe r f none = v
  pair-IsSafe r f (some (id, x, y)) = change_object-IsSafe r (f x y) (surface_of c id)

  pub setter-IsSafe :
      (r : Request) (f : ℤ → Change) (o : Option (ℕ × ℤ)) → IsSafe (handle_setter c w fds r f o)
  unfolding handle_setter
  setter-IsSafe r f none = v
  setter-IsSafe r f (some (id, x)) = change_object-IsSafe r (f x) (surface_of c id)

  pub subsurface-IsSafe : (o : Option ℕ) → IsSafe (handle_subsurface host c w fds o)
  unfolding handle_subsurface subsurface_object
  subsurface-IsSafe none = v
  subsurface-IsSafe (some id) = by_object (surface_of c id)
    where
      by_object : (o : Option ℕ) → IsSafe (subsurface_object host c w fds id o)
      by_object none = v
      by_object (some n) =
          adopted-IsSafe (λ s. record s { kind = subsurface; parent = some n })
            surface_create_subsurface (reply_ids surface_create_subsurface id) (λ s. refl)

  pub popup-IsSafe : (o : Option (ℕ × ℤ × ℤ)) → IsSafe (handle_popup host c w fds o)
  unfolding handle_popup popup_object
  popup-IsSafe none = v
  popup-IsSafe (some (id, x, y)) = by_object (surface_of c id)
    where
      by_object : (o : Option ℕ) → IsSafe (popup_object host c w fds id x y o)
      by_object none = v
      by_object (some n) =
          adopted-IsSafe (λ s. record s { kind = popup; parent = some n; popup_x = x; popup_y = y })
            surface_create_popup (reply_ids surface_create_popup id) (λ s. refl)

  pub layer-IsSafe : (o : Option (ℕ × ℤ)) → IsSafe (handle_layer host c w fds o)
  unfolding handle_layer layer_on
  layer-IsSafe none = v
  layer-IsSafe (some (id, layer)) = by_output (resolve_output host c id)
    where
      by_output : (o : Option ℕ) → IsSafe (layer_on host c w fds layer o)
      by_output none = v
      by_output (some out) =
          if_cases (λ (h : Handled). IsSafe h) (in_range 3 layer)
            (λ _.
              adopted-IsSafe
                (λ s. record s { kind = layer_shell; layer = value layer; output = some out })
                surface_create_layer (reply_ids surface_create_layer out) (λ s. refl))
            (λ _. v)

  pub buffer_destroy-IsSafe : (o : Option ℕ) → IsSafe (handle_buffer_destroy c w fds o)
  unfolding handle_buffer_destroy buffer_object
  buffer_destroy-IsSafe none = v
  buffer_destroy-IsSafe (some id) = by_object (lookup c id object_buffer)
    where
      by_object : (o : Option ℕ) → IsSafe (buffer_object c w fds id o)
      by_object none = v
      by_object (some a) =
          let u = unregister-Unregisters c id v.table in
          kept c (unregister c id) w _ v (λ n j l. l, λ h. h) u.0
            (λ j n e. ground (arith, u.1 j object_surface, e))
