-- ===== src/Conn/Objects.antt =====
-- src/protocol/isz_conn.c, the per-connection object table: an array searched from the front, whose
-- last entry moves into the place of one that is removed. Abstractly it is a finite map from ids.
pub mod Map
use ishizue.Base.{
  ℕ, zero, suc, ◌+◌, ◌-◌, ◌*◌, ◌%◌, ◌^◌, ◌≤◌, ◌<◌, ◌≡◌, ◌≢◌, refl, sym, ap, ◌∙◌, subst, Bool, true,
  false, ◌||◌, Option, none, some, List, [], ◌∷◌, ◌++◌, arith, leb, ltb, ◌==◌, if◌then◌else◌,
  length, get_elem?, set, take, length-append, Bool-cases, inl, inr, ==_refl, ==_ne, ==_iff,
}
use ishizue.Base.Last.{
  init_of, last_of, init-last, swap_remove, swap_remove_one, swap_remove_first, swap_remove_later,
}
use ishizue.Conn.{
  Conn, Entry, Kind, object_none, object_surface, object_buffer, object_output, object_seat,
}

-- The enumeration's values, which C compares.
abbrev pub kind_code : Kind → ℕ
kind_code object_none = 0
kind_code object_surface = 1
kind_code object_buffer = 2
kind_code object_output = 3
kind_code object_seat = 4

-- Object ids are 32-bit, and 0 is the sentinel that a wrap skips.
pub next_id : ℕ → ℕ
next_id id = let n = (id + 1) % 2 ^ 32 in if n == 0 then 1 else n

pub add_entry : Conn → ℕ → Entry → ℕ × Conn
unfolding next_id
add_entry c cap e = (
  e.id,
  record c { objects = c.objects ++ e ∷ []; objects_cap = cap; next_object_id = next_id e.id },
)

-- `isz_conn_register_object`; `realloc_ok` says whether a `realloc` would succeed.
unfoldable pub register : Conn → Bool → ℕ → Kind → ℕ × Conn
unfolding add_entry
register c realloc_ok handle kind =
    let e : Entry = record { id = c.next_object_id; handle = handle; kind = kind } in
    let bigger = if c.objects_cap == 0 then 8 else c.objects_cap * 2 in
    if length c.objects == c.objects_cap
    then (if realloc_ok then add_entry c bigger e else (0, c))
    else add_entry c c.objects_cap e

-- The first entry with this id.
unfoldable pub find : ℕ → List Entry → Option Entry
find id [] = none
find id (e ∷ es) = if e.id == id then some e else find id es

unfoldable pub of_kind : Kind → Option Entry → Option ℕ
of_kind kind none = none
of_kind kind (some e) = if kind_code e.kind == kind_code kind then some e.handle else none

-- `isz_conn_lookup_object`.
unfoldable pub lookup : Conn → ℕ → Kind → Option ℕ
unfolding of_kind
lookup c id kind = if id == 0 then none else of_kind kind (find id c.objects)

-- The index that the loop of `isz_conn_unregister_object` stops at.
unfoldable pub find_index : ℕ → List Entry → Option ℕ
find_index id [] = none
find_index id (e ∷ es) =
    let rest = find_index id es in
    if e.id == id then some 0 else elim rest [ none ↦ none | some i ↦ some (suc i) ]

-- The tail entry moves down to index `i`, and the array is one shorter.
move_down : List Entry → ℕ → ℕ → List Entry
move_down es i count = elim (get_elem? es count) [
  | none ↦ es
  | some last ↦ take count (if i == count then es else set es i last)
]

pub move_tail : List Entry → ℕ → List Entry
unfolding move_down
move_tail es i = move_down es i (length es - 1)

-- `isz_conn_unregister_object`.
unfoldable pub unregister : Conn → ℕ → Conn
unfolding move_tail
unregister c id = if id == 0 then c else elim (find_index id c.objects) [
  | none ↦ c
  | some i ↦ record c { objects = move_tail c.objects i }
]

-- No two entries have the same id.
abbrev pub Distinct : List Entry → Type 0
Distinct [] = Unit
Distinct (e ∷ es) = (find e.id es ≡ none) × Distinct es

-- The first of two that is there.
abbrev or_else : Option Entry → Option Entry → Option Entry
or_else none o = o
or_else (some e) o = some e

pub find-append :
    (id : ℕ) (xs ys : List Entry) → find id (xs ++ ys) ≡ or_else (find id xs) (find id ys)
unfolding find
find-append id [] ys = refl
find-append id (x ∷ xs) ys = ground (arith, find-append id xs ys)

pub find_id : (id : ℕ) (es : List Entry) {e : Entry} → find id es ≡ some e → e.id ≡ id
unfolding find
find_id id [] h = cc
find_id id (x ∷ xs) {e} h = ground (arith, find_id id xs {e = e})

pub Distinct-append :
    (xs : List Entry) (e : Entry) → Distinct xs → find e.id xs ≡ none → Distinct (xs ++ e ∷ [])
unfolding find
Distinct-append [] e d h = (refl, tt)
Distinct-append (x ∷ xs) e d h =
    ground (arith, find-append x.id xs (e ∷ []), Distinct-append xs e d.1)

-- The move is a removal that puts the last entry into the gap.
move_tail-swap_remove : (es : List Entry) (i : ℕ) → move_tail es i ≡ swap_remove es i
unfolding move_tail swap_remove
move_tail-swap_remove es i = refl

-- Where ids are distinct the order of the entries does not matter: the last may come first.
Distinct-append_inv :
    (ys : List Entry) (e : Entry) → Distinct (ys ++ e ∷ []) → Distinct ys × (find e.id ys ≡ none)
unfolding find
Distinct-append_inv [] e d = (tt, refl)
Distinct-append_inv (y ∷ ys) e d =
    ground (arith, find-append y.id ys (e ∷ []), Distinct-append_inv ys e d.1)

module _ (x : Entry) (xs : List Entry) (d : Distinct (x ∷ xs)) where
  split_last : Distinct (init_of x xs) × (find (last_of x xs).id (init_of x xs) ≡ none)
  split_last = Distinct-append_inv (init_of x xs) (last_of x xs) (subst Distinct (init-last x xs) d)

  find-rotate : (j : ℕ) → find j (last_of x xs ∷ init_of x xs) ≡ find j (x ∷ xs)
  unfolding find
  find-rotate j = rotated ∙ ap (find j) (sym (init-last x xs))
    where
      rotated : find j (last_of x xs ∷ init_of x xs) ≡ find j (init_of x xs ++ last_of x xs ∷ [])
      rotated = ground (arith, find-append j (init_of x xs) (last_of x xs ∷ []), split_last)

-- Removing the entry that the loop finds: its id is gone, the others answer as before.
module _ (id : ℕ) where
  pub find_index-find : (es : List Entry) → find_index id es ≡ none → find id es ≡ none
  unfolding find_index find
  find_index-find [] h = refl
  find_index-find (e ∷ es) h = ground (arith, find_index-find es)

  pub Removes : List Entry → List Entry → Type 0
  Removes es es' = Distinct es' × ((j : ℕ) → find j es' ≡ (if j == id then none else find j es))

  pub move_tail-Removes :
      (es : List Entry) (i : ℕ)
      → Distinct es
      → find_index id es ≡ some i
      → Removes es (move_tail es i)
  unfolding Removes find_index find init_of
  move_tail-Removes [] i d h = cc
  move_tail-Removes (e ∷ []) i d h =
      let gone : move_tail (e ∷ []) i ≡ [] =
        ground (arith, move_tail-swap_remove (e ∷ []) i, swap_remove_one e i) in
      rw gone (tt, λ j. ground arith)
  move_tail-Removes (e ∷ x ∷ xs) zero d h =
      let s = split_last x xs d.1 in
      rw (move_tail-swap_remove (e ∷ x ∷ xs) zero, swap_remove_first e x xs)
        ((s.1, s.0), λ j. find-rotate x xs d.1 j ∙ ground (arith, d.0))
  move_tail-Removes (e ∷ x ∷ xs) (suc i) d h =
      let found : find_index id (x ∷ xs) ≡ some i = ground arith in
      let ih = move_tail-Removes (x ∷ xs) i d.1 found in
      rw
        (
          move_tail-swap_remove (e ∷ x ∷ xs) (suc i),
          swap_remove_later e x xs i,
          sym (move_tail-swap_remove (x ∷ xs) i),
        )
        ((ground (arith, ih.1 e.id, d.0), ih.0), λ j. ground (arith, ih.1 j, d.0))
