-- ===== src/Conn/Objects/Map.antt =====
-- src/protocol/isz_conn.c, the object table seen as a finite map: what registering and
-- unregistering do to every lookup.
use ishizue.Base.{
  ℕ, ◌+◌, ◌-◌, ◌^◌, ◌≤◌, ◌<◌, ◌≡◌, ◌⊎◌, refl, ◌∙◌, Bool, false, Option, none, some, List, [], ◌∷◌,
  ◌++◌, arith, ◌==◌, if◌then◌else◌, length, length-append, length-take, length-set, take, set,
  get_elem?, inl, inr, if_cases,
}
use ishizue.Conn.{Conn, Entry, Kind}
use ishizue.Conn.Objects.{
  Distinct, find, find-append, Distinct-append, find_index, find_index-find, move_tail, Removes,
  move_tail-Removes, kind_code, register, lookup, unregister, add_entry, next_id, of_kind,
}

-- The table is well formed: ids are distinct and below the next one, and the array has room.
pub record IsValid (c : Conn) : Type 0 where
  pub distinct : Distinct c.objects
  pub fresh : (id : ℕ) → c.next_object_id ≤ id → find id c.objects ≡ none
  pub no_sentinel : find 0 c.objects ≡ none
  pub next_pos : 0 < c.next_object_id
  pub room : length c.objects ≤ c.objects_cap

-- What a new entry does to the searches.
find-snoc :
    (j : ℕ) (es : List Entry) (e : Entry)
    → find e.id es ≡ none
    → find j (es ++ e ∷ []) ≡ (if j == e.id then some e else find j es)
unfolding find
find-snoc j es e h = ground (arith, find-append j es (e ∷ []))

abbrev pub Registers : Conn → Bool → ℕ → Kind → ℕ × Conn → Type 0
Registers c realloc_ok handle kind (id, c') =
    IsValid c'
    × ((id ≡ 0) × (c' ≡ c) × (length c.objects ≡ c.objects_cap) × (realloc_ok ≡ false)
        ⊎ (id ≡ c.next_object_id)
          × (find id c.objects ≡ none)
          × ((j : ℕ) (k : Kind)
              → lookup c' j k ≡ (
                  if j == id
                  then (if kind_code kind == kind_code k then some handle else none)
                  else lookup c j k)))

module _ (c : Conn) (realloc_ok : Bool) (handle : ℕ) (kind : Kind) (v : IsValid c)
    (small : c.next_object_id + 1 < 2 ^ 32) where
  abbrev entry : Entry
  entry = record { id = c.next_object_id; handle = handle; kind = kind }

  next_grows : next_id c.next_object_id ≡ c.next_object_id + 1
  unfolding next_id
  next_grows = ground arith

  unused : find c.next_object_id c.objects ≡ none
  unused = v.fresh c.next_object_id (omega arith)

  add_entry-IsValid : (cap : ℕ) → length c.objects < cap → IsValid (add_entry c cap entry).1
  unfolding add_entry
  add_entry-IsValid cap room = record {
    distinct = Distinct-append c.objects entry v.distinct unused;
    fresh = λ id h. find-snoc id c.objects entry unused ∙ ground (arith, v.fresh id, next_grows);
    no_sentinel = find-snoc 0 c.objects entry unused ∙ ground (arith, v.no_sentinel, v.next_pos);
    next_pos = omega (arith, next_grows);
    room = omega (arith, length-append c.objects (entry ∷ []));
  }

  add_entry-Registers :
      (cap : ℕ)
      → length c.objects < cap
      → Registers c realloc_ok handle kind (add_entry c cap entry)
  unfolding add_entry lookup
  add_entry-Registers cap room = (
    add_entry-IsValid cap room,
    inr (refl, unused, λ j k. ground (arith, find-snoc j c.objects entry unused, v.next_pos)),
  )

-- On a well-formed table, before the 32-bit counter wraps: registering an object gives the next
-- id, which no entry had, and then this id answers for the object's kind alone, while every other
-- id answers as before. It fails, with id 0 and nothing changed, only when the array is full and
-- cannot grow. The table stays well formed: ids distinct, none of them 0, and within the array.
pub register-Registers :
    (c : Conn) (realloc_ok : Bool) (handle : ℕ) (kind : Kind)
    → IsValid c
    → c.next_object_id + 1 < 2 ^ 32
    → Registers c realloc_ok handle kind (register c realloc_ok handle kind)
unfolding register
register-Registers c realloc_ok handle kind v small =
    let P = Registers c realloc_ok handle kind in
    if_cases P (length c.objects == c.objects_cap)
      (λ full.
        if_cases P realloc_ok
          (λ _. add_entry-Registers c realloc_ok handle kind v small _ (ground arith))
          (λ failed. (v, inl (refl, refl, ground arith, failed))))
      (λ free.
        add_entry-Registers c realloc_ok handle kind v small c.objects_cap
          (below (length c.objects) c.objects_cap v.room free))
  where
    below : (m n : ℕ) → m ≤ n → (m == n) ≡ false → m < n
    below m n h e = ground arith

-- The length of an array that an entry was moved down in.
length-move_tail : (es : List Entry) (i : ℕ) → length (move_tail es i) ≤ length es
unfolding move_tail
length-move_tail es i = shorter (length es - 1) (get_elem? es (length es - 1))
  where
    shorter :
        (count : ℕ) (o : Option Entry)
        → length (elim o [
          | none ↦ es
          | some last ↦ take count (if i == count then es else set es i last)
        ])
          ≤ length es
    shorter count none = omega arith
    shorter count (some last) =
        if_cases (λ ys. length (take count ys) ≤ length es) (i == count) {x = es}
          {y = set es i last} (λ _. omega (arith, length-take count es))
          (λ _. omega (arith, length-take count (set es i last), length-set es i last))

abbrev pub Unregisters : Conn → ℕ → Conn → Type 0
Unregisters c id c' =
    IsValid c' × ((j : ℕ) (k : Kind) → lookup c' j k ≡ (if j == id then none else lookup c j k))

-- On a well-formed table, after unregistering an id that id answers for no object, whatever it was,
-- and every other id answers as before, wherever its entry was moved. The table stays well formed.
pub unregister-Unregisters : (c : Conn) (id : ℕ) → IsValid c → Unregisters c id (unregister c id)
unfolding unregister lookup Removes
unregister-Unregisters c id v =
    if_cases (Unregisters c id) (id == 0) (λ z. (v, λ j k. ground arith))
      (λ _. at_index (find_index id c.objects) refl)
  where
    same_kind : (o : Option Entry) (k : Kind) → o ≡ none → of_kind k o ≡ none
    same_kind o k e = rw e refl

    at_index :
        (r : Option ℕ)
        → find_index id c.objects ≡ r
        → Unregisters c id
            (elim r [ none ↦ c | some i ↦ record c { objects = move_tail c.objects i } ])
    at_index none e = (v, λ j k. ground (arith, find_index-find id c.objects e))
    at_index (some i) e =
        let (distinct, found) = move_tail-Removes id c.objects i v.distinct e in
        (
          record {
            distinct = distinct;
            fresh = λ j h. ground (arith, found j, v.fresh j h);
            no_sentinel = ground (arith, found 0, v.no_sentinel);
            next_pos = v.next_pos;
            room = omega (arith, length-move_tail c.objects i, v.room);
          },
          λ j k. ground (arith, found j),
        )
