-- ===== src/X11bridge/Atoms/Laws.antt =====
-- x11bridge/x11_atoms.c: an atom that is interned answers with its name.
use ishizue.Base.{
  ℕ, zero, suc, ◌+◌, ◌-◌, ◌≤◌, ◌<◌, ◌^◌, ◌≡◌, ◌≢◌, refl, ap, ◌∙◌, Bool, true, false, ◌&&◌, ◌⊎◌, inl,
  inr, Option, none, some, List, [], ◌∷◌, ◌++◌, arith, leb, ◌==◌, if◌then◌else◌, if_cases,
  Bool-cases, length, length-append, get_elem?,
}
use ishizue.X11bridge.Names.{predefined_names}
use ishizue.X11bridge.Atoms.{
  AtomEntry, AtomTable, first_dynamic, same_bytes, name_eq, index_of_name, find_name, add_atom,
  allocate, intern_dynamic, intern_at, intern, copy_name, name_of_dynamic, get_name,
}

-- The atoms are numbered on from `k`.
abbrev pub Numbered : ℕ → List AtomEntry → Type 0
Numbered k [] = Unit
Numbered k (e ∷ es) = (e.id ≡ k) × Numbered (k + 1) es

-- User-allocated atoms are numbered from 69, and the counter is behind them.
pub record IsValid (t : AtomTable) : Type 0 where
  pub numbered : Numbered first_dynamic t.entries
  pub next_free : t.next_atom ≡ first_dynamic + length t.entries

same_bytes-eq : (xs ys : List ℕ) → same_bytes xs ys ≡ true → xs ≡ ys
unfolding same_bytes
same_bytes-eq [] [] h = refl
same_bytes-eq [] (y ∷ ys) h = cc
same_bytes-eq (x ∷ xs) [] h = cc
same_bytes-eq (x ∷ xs) (y ∷ ys) h = ground (arith, same_bytes-eq xs ys)

name_eq-eq : (xs ys : List ℕ) → name_eq xs ys ≡ true → xs ≡ ys
unfolding name_eq
name_eq-eq xs ys h = ground (arith, same_bytes-eq xs ys)

index_of_name-get :
    (ps : List (List ℕ)) (name : List ℕ) (i : ℕ)
    → index_of_name ps name ≡ some i
    → (get_elem? ps i ≡ some name) × (i < length ps)
unfolding index_of_name
index_of_name-get [] name i h = cc
index_of_name-get (p ∷ ps) name zero h = ground (arith, name_eq-eq p name)
index_of_name-get (p ∷ ps) name (suc i) h = ground (arith, index_of_name-get ps name i)

-- A name that is found is the one that its atom answers with, and its atom is no predefined one.
find_name-name_of :
    (k : ℕ) (es : List AtomEntry) (name : List ℕ) (id : ℕ)
    → Numbered k es
    → find_name es name ≡ some id
    → (name_of_dynamic es id ≡ some name) × (k ≤ id)
unfolding find_name name_of_dynamic
find_name-name_of k [] name id n h = cc
find_name-name_of k (e ∷ es) name id n h =
    ground (arith, name_eq-eq e.name name, find_name-name_of (k + 1) es name id n.1)

-- The atom of a new entry at the end answers with its name, and the others keep theirs.
name_of-append :
    (k m : ℕ) (es : List AtomEntry) (name : List ℕ)
    → Numbered k es
    → m ≡ k + length es
    → name_of_dynamic (es ++ record { id = m; name = name } ∷ []) m ≡ some name
unfolding name_of_dynamic
name_of-append k m [] name n e = ground arith
name_of-append k m (x ∷ xs) name n e = ground (arith, n.0, name_of-append (k + 1) m xs name n.1)

name_of-append_old :
    (k m j : ℕ) (es : List AtomEntry) (name : List ℕ)
    → Numbered k es
    → m ≡ k + length es
    → j ≢ m
    → name_of_dynamic (es ++ record { id = m; name = name } ∷ []) j ≡ name_of_dynamic es j
unfolding name_of_dynamic
name_of-append_old k m j [] name n e ne = ground arith
name_of-append_old k m j (x ∷ xs) name n e ne =
    ground (arith, name_of-append_old (k + 1) m j xs name n.1)

Numbered-append :
    (k m : ℕ) (es : List AtomEntry) (name : List ℕ)
    → Numbered k es
    → m ≡ k + length es
    → Numbered k (es ++ record { id = m; name = name } ∷ [])
Numbered-append k m [] name n e = (omega arith, tt)
Numbered-append k m (x ∷ xs) name n e = (n.0, Numbered-append (k + 1) m xs name n.1 (omega arith))

-- What interning `name` gives: an atom that answers with the name, or 0 and no new entry. Every
-- atom but the next new one answers as before.
abbrev pub Interns : AtomTable → List ℕ → ℕ → ℕ × AtomTable → Type 0
Interns t name out_cap (atom, t') =
    IsValid t'
    × ((atom ≡ 0) × (t'.entries ≡ t.entries)
        ⊎ (atom ≢ 0) × (get_name t' atom out_cap ≡ (length name, name)))
    × ((j : ℕ) (c : ℕ) → (j ≡ t.next_atom) ⊎ (get_name t' j c ≡ get_name t j c))

-- A name that fits is copied whole.
copy_fits :
    (out_cap : ℕ) (name : List ℕ)
    → length name < out_cap
    → copy_name out_cap (some name) ≡ (length name, name)
unfolding copy_name
copy_fits out_cap name h = ground arith

get_dynamic :
    (t : AtomTable) (atom out_cap : ℕ) (name : List ℕ)
    → first_dynamic ≤ atom
    → length name < out_cap
    → name_of_dynamic t.entries atom ≡ some name
    → get_name t atom out_cap ≡ (length name, name)
unfolding get_name
get_dynamic t atom out_cap name h room e = ground (arith, copy_fits out_cap name room)

get_predefined :
    (t : AtomTable) (i out_cap : ℕ) (name : List ℕ)
    → i < 68
    → length name < out_cap
    → get_elem? predefined_names i ≡ some name
    → get_name t (i + 1) out_cap ≡ (length name, name)
unfolding get_name
get_predefined t i out_cap name h room e =
    let back : i + 1 - 1 ≡ i = omega arith in
    if_cases (λ r. r ≡ (length name, name)) (out_cap == 0) (λ z. absurd (ground arith))
      (λ _.
        if_cases (λ r. r ≡ (length name, name)) (leb 1 (i + 1) && leb (i + 1) 68)
          (λ _.
            ap (λ n. copy_name out_cap (get_elem? predefined_names n)) back
            ∙ ap (copy_name out_cap) e
            ∙ copy_fits out_cap name room)
          (λ z. absurd (ground arith)))

-- An atom answers by its entry alone.
same_answer :
    (t t' : AtomTable) (j c : ℕ)
    → name_of_dynamic t'.entries j ≡ name_of_dynamic t.entries j
    → get_name t' j c ≡ get_name t j c
unfolding get_name
same_answer t t' j c e = ground (arith, ap (copy_name c) e)

module _ (t : AtomTable) (name : List ℕ) (out_cap : ℕ) (v : IsValid t)
    (room : length name < out_cap) (few : t.next_atom + 1 < 2 ^ 32) where
  add_atom-Interns : (cap : ℕ) → Interns t name out_cap (add_atom t cap name)
  unfolding add_atom
  add_atom-Interns cap = (
    record {
      numbered = Numbered-append first_dynamic t.next_atom t.entries name v.numbered v.next_free;
      next_free = ground (
        arith,
        v.next_free,
        length-append t.entries (record { id = t.next_atom; name = name } ∷ []),
      );
    },
    inr (
      ground (arith, v.next_free),
      get_dynamic _ t.next_atom out_cap name (omega (arith, v.next_free)) room
          (name_of-append first_dynamic t.next_atom t.entries name v.numbered v.next_free),
    ),
    λ j c. elim (Bool-cases (j == t.next_atom)) [
      | inl e ↦ inl (ground arith)
      | inr e ↦ inr (
          same_answer t _ j c (
            name_of-append_old first_dynamic t.next_atom j t.entries name v.numbered v.next_free
              (ground arith)))
    ],
  )

  nothing-Interns : (cap : ℕ) → Interns t name out_cap (0, record t { cap = cap })
  nothing-Interns cap = (
    record { numbered = v.numbered; next_free = v.next_free },
    inl (refl, refl),
    λ j c. inr (same_answer t (record t { cap = cap }) j c refl),
  )

  allocate-Interns :
      (realloc_ok malloc_ok : Bool) → Interns t name out_cap (allocate t realloc_ok malloc_ok name)
  unfolding allocate
  allocate-Interns realloc_ok malloc_ok =
      if_cases (Interns t name out_cap)
        (length t.entries == t.cap && (if realloc_ok then false else true))
        (λ _. nothing-Interns t.cap)
        (λ _.
          if_cases (Interns t name out_cap) malloc_ok (λ _. add_atom-Interns _)
            (λ _. nothing-Interns _))

  intern_dynamic-Interns :
      (realloc_ok malloc_ok only : Bool) (o : Option ℕ)
      → find_name t.entries name ≡ o
      → Interns t name out_cap (intern_dynamic t realloc_ok malloc_ok name only o)
  unfolding intern_dynamic
  intern_dynamic-Interns realloc_ok malloc_ok only (some id) e =
      let f = find_name-name_of first_dynamic t.entries name id v.numbered e in
      (
        v,
        inr ((λ z. omega (arith, f.1)), get_dynamic t id out_cap name f.1 room f.0),
        λ j c. inr refl,
      )
  intern_dynamic-Interns realloc_ok malloc_ok only none e =
      if_cases (Interns t name out_cap) only (λ _. nothing-Interns t.cap)
        (λ _. allocate-Interns realloc_ok malloc_ok)

  intern_at-Interns :
      (realloc_ok malloc_ok only : Bool) (o : Option ℕ)
      → index_of_name predefined_names name ≡ o
      → Interns t name out_cap (intern_at t realloc_ok malloc_ok name only o)
  unfolding intern_at
  intern_at-Interns realloc_ok malloc_ok only (some i) e =
      let f = index_of_name-get predefined_names name i e in
      (v, inr ((λ z. omega arith), get_predefined t i out_cap name f.1 room f.0), λ j c. inr refl)
  intern_at-Interns realloc_ok malloc_ok only none e =
      intern_dynamic-Interns realloc_ok malloc_ok only (find_name t.entries name) refl

-- Interning a name in a well-formed table, before the counter wraps, gives 0 with no new entry, or
-- an atom for which `x11_atom_get_name` returns the name itself, for a buffer that holds it with
-- its NUL. Every atom but the next new one answers as before, and the table stays well formed.
pub intern-Interns :
    (t : AtomTable) (realloc_ok malloc_ok : Bool) (name : List ℕ) (only : Bool) (out_cap : ℕ)
    → IsValid t
    → length name < out_cap
    → t.next_atom + 1 < 2 ^ 32
    → Interns t name out_cap (intern t realloc_ok malloc_ok name only)
unfolding intern
intern-Interns t realloc_ok malloc_ok name only out_cap v room few =
    if_cases (Interns t name out_cap) (length name == 0)
      (λ _. nothing-Interns t name out_cap v room few t.cap)
      (λ _.
        intern_at-Interns t name out_cap v room few realloc_ok malloc_ok only
          (index_of_name predefined_names name) refl)
