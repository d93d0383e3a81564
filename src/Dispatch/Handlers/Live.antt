-- ===== src/Dispatch/Handlers/Live.antt =====
-- src/isz_client_dispatch.c: the object table of a client names only surfaces that are there.
use ishizue.Base.{
  ℕ, ◌+◌, ◌≡◌, refl, sym, subst, Bool, true, false, Option, none, some, List, arith, ◌==◌, ==_iff,
  ==_ne, inl, inr,
}
use ishizue.Conn.{Conn, object_surface}
use ishizue.Conn.Objects.{unregister}
use ishizue.Conn.Objects.Map.{Registers, register-Registers, Unregisters, unregister-Unregisters}
use ishizue.Conn.Objects.Map
use ishizue.Render.Surfaces.{Surface, World, find, update}
use ishizue.Render.Surfaces.Operations.{blank, create_with, destroy}
use ishizue.Render.Surfaces.Lookups.{
  IsFresh, Lives, Keeps, create_with-Keeps, destroy-Loses, find-append_one, find-update,
}
use ishizue.Dispatch.{Request, Reply}
use ishizue.Dispatch.Handlers.{surface_of, owned_by}

-- The table is well formed, no serial is used before its time, and each id of a surface stands for a
-- surface that is there and has this object id.
pub record IsClient (c : Conn) (w : World) : Type 0 where
  pub table : Map.IsValid c
  pub fresh : IsFresh w
  pub live : (id n : ℕ) → surface_of c id ≡ some n → Lives w.surfaces n id

-- A serial has one object id.
Lives-unique : (ss : List Surface) (n id j : ℕ) → Lives ss n id → Lives ss n j → id ≡ j
Lives-unique ss n id j (s, e, i) (t, k, l) = cc

-- A step that keeps the surfaces, and adds none to the table.
pub kept :
    (c c' : Conn) (w w' : World)
    → IsClient c w
    → Keeps w w'
    → Map.IsValid c'
    → ((id n : ℕ) → surface_of c' id ≡ some n → surface_of c id ≡ some n)
    → IsClient c' w'
kept c c' w w' v k t s = record {
  table = t;
  fresh = k.1 v.fresh;
  live = λ id n e. k.0 n id (v.live id n (s id n e));
}

-- An id is unregistered and its surface destroyed: no other id stands for this surface.
pub destroyed-IsClient :
    (c : Conn) (w : World) (id n : ℕ)
    → IsClient c w
    → surface_of c id ≡ some n
    → IsClient (unregister c id) (destroy w n)
destroyed-IsClient c w id n v e =
    let u = unregister-Unregisters c id v.table in
    let d = destroy-Loses w n in
    record {
      table = u.0;
      fresh = d.1 v.fresh;
      live = λ j m k.
          let before : surface_of c j ≡ some m = ground (arith, u.1 j object_surface, k) in
          let apart : (j == id) ≡ false = ground (arith, u.1 j object_surface, k) in
          d.0 m j (different j m before apart) (v.live j m before);
    }
  where
    different : (j m : ℕ) → surface_of c j ≡ some m → (j == id) ≡ false → (n == m) ≡ false
    different j m k apart = ==_ne n m λ same.
        let one : id ≡ j =
          Lives-unique w.surfaces n id j (v.live id n e)
            (subst (λ x. Lives w.surfaces x j) (sym same) (v.live j m k)) in
        ground (arith, apart, one)

module _ (c : Conn) (w : World) (f : Surface → Surface)
    (k : (s : Surface) → (f s).serial ≡ s.serial) (v : IsClient c w) where
  -- The serial of the new surface.
  abbrev next : ℕ
  next = w.next_serial + 1

  unseen : (id n : ℕ) → surface_of c id ≡ some n → (next == n) ≡ false
  unseen id n e = ==_ne next n λ same.
      let (s, found, i) = v.live id n e in
      let none_there : find next w.surfaces ≡ none = v.fresh next (omega arith) in
      absurd (ground (arith, same, found, none_there))

  new_surface : find next (create_with w f).surfaces ≡ some (f (blank next))
  unfolding create_with
  new_surface =
      let none_there : find next w.surfaces ≡ none = v.fresh next (omega arith) in
      ground (arith, find-append_one next w.surfaces (f (blank next)), none_there, k (blank next))

  created : Keeps w (create_with w f)
  created = create_with-Keeps w f (k (blank next))

  -- Destroyed again.
  lost : IsClient c (destroy (create_with w f) next)
  lost =
      let d = destroy-Loses (create_with w f) next in
      record {
        table = v.table;
        fresh = d.1 (created.1 v.fresh);
        live = λ j n e. d.0 n j (unseen j n e) (created.0 n j (v.live j n e));
      }

  -- Owned.
  abbrev own : ℕ → Surface → Surface
  own id s = record s { owned = true; object_id = id }

  abbrev owned_world : ℕ → World
  owned_world id = record (create_with w f) {
    surfaces = update next (own id) (create_with w f).surfaces;
  }

  own-Lives :
      (id j n : ℕ)
      → (next == n) ≡ false
      → Lives (create_with w f).surfaces n j
      → Lives (owned_world id).surfaces n j
  own-Lives id j n ne (s, e, i) = (
    s,
    ground (arith, find-update next (own id) (λ s. refl) n (create_with w f).surfaces, e, ne),
    i,
  )

  own_new : (id : ℕ) → Lives (owned_world id).surfaces next id
  own_new id = (
    own id (f (blank next)),
    ground
        (arith, find-update next (own id) (λ s. refl) next (create_with w f).surfaces, new_surface),
    refl,
  )

  own-IsFresh : (id : ℕ) → IsFresh (create_with w f) → IsFresh (owned_world id)
  own-IsFresh id h n p =
      ground (arith, find-update next (own id) (λ s. refl) n (create_with w f).surfaces, h n p)

  -- Registered or not.
  pub owned_by-IsClient :
      (ok : Bool) (fds : List (Option ℕ)) (r : Request) (answer : ℕ → Option Reply) (p : ℕ × Conn)
      → Registers c ok next object_surface p
      → let h = owned_by (create_with w f) next fds r answer p in IsClient h.conn h.world
  unfolding owned_by
  owned_by-IsClient ok fds r answer (id, c') (t, inl (z, same, _, _)) =
      let zero_id : (id == 0) ≡ true = ground (arith, z) in rw zero_id (rw same lost)
  owned_by-IsClient ok fds r answer (id, c') (t, inr (new, free, answers)) =
      let some_id : (id == 0) ≡ false = ground (arith, new, v.table.next_pos) in
      rw some_id (record {
        table = t;
        fresh = own-IsFresh id (created.1 v.fresh);
        live = λ j n e. by_id j n e;
      })
    where
      by_id : (j n : ℕ) → surface_of c' j ≡ some n → Lives (owned_world id).surfaces n j
      by_id j n e = by_test (j == id) refl
        where
          by_test : (b : Bool) → (j == id) ≡ b → Lives (owned_world id).surfaces n j
          by_test true q =
              let same_id : id ≡ j = sym ((==_iff j id).0 q) in
              let same_serial : next ≡ n = ground (arith, answers j object_surface, q, e) in
              subst (λ m. Lives (owned_world id).surfaces m j) same_serial
                (subst (λ i. Lives (owned_world id).surfaces next i) same_id (own_new id))
          by_test false q =
              let before : surface_of c j ≡ some n =
                ground (arith, answers j object_surface, q, e) in
              own-Lives id j n (unseen j n before) (created.0 n j (v.live j n before))
