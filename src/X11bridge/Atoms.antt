-- ===== src/X11bridge/Atoms.antt =====
-- x11bridge/x11_atoms.c: the table of atoms. A name is the list of its bytes, without the NUL. The
-- results of `realloc` and `malloc` are parameters.
pub mod Laws
use ishizue.Base.{
  ℕ, zero, suc, ◌+◌, ◌-◌, ◌*◌, ◌%◌, ◌^◌, Bool, true, false, ◌&&◌, Option, none, some, List, [], ◌∷◌,
  ◌++◌, ltb, leb, ◌==◌, if◌then◌else◌, length, take, get_elem?,
}
use ishizue.X11bridge.Names.{predefined_names}

-- `struct x11_atom_entry`.
pub record AtomEntry : Type 0 where
  pub id : ℕ
  pub name : List ℕ

-- The module's static variables.
pub record AtomTable : Type 0 where
  pub entries : List AtomEntry
  pub cap : ℕ
  pub next_atom : ℕ

-- X11_ATOM_FIRST_DYNAMIC.
abbrev pub first_dynamic : ℕ
first_dynamic = 69

abbrev pub no_atoms : AtomTable
no_atoms = record { entries = []; cap = 0; next_atom = first_dynamic }

-- `name_eq`, lengths first and then `memcmp`.
unfoldable pub same_bytes : List ℕ → List ℕ → Bool
same_bytes [] [] = true
same_bytes [] (y ∷ ys) = false
same_bytes (x ∷ xs) [] = false
same_bytes (x ∷ xs) (y ∷ ys) = x == y && same_bytes xs ys

unfoldable pub name_eq : List ℕ → List ℕ → Bool
unfolding same_bytes
name_eq stored name = length stored == length name && same_bytes stored name

-- The index of a name among the predefined ones.
unfoldable pub index_of_name : List (List ℕ) → List ℕ → Option ℕ
index_of_name [] name = none
index_of_name (p ∷ ps) name =
    let rest = index_of_name ps name in
    if name_eq p name then some 0 else elim rest [ none ↦ none | some i ↦ some (suc i) ]

-- The atom of a name among the user-allocated ones.
unfoldable pub find_name : List AtomEntry → List ℕ → Option ℕ
find_name [] name = none
find_name (e ∷ es) name = if name_eq e.name name then some e.id else find_name es name

unfoldable pub add_atom : AtomTable → ℕ → List ℕ → ℕ × AtomTable
add_atom t cap name = (
  t.next_atom,
  record {
    entries = t.entries ++ record { id = t.next_atom; name = name } ∷ [];
    cap = cap;
    next_atom = (t.next_atom + 1) % 2 ^ 32;
  },
)

-- Allocate a new atom.
unfoldable pub allocate : AtomTable → Bool → Bool → List ℕ → ℕ × AtomTable
unfolding add_atom
allocate t realloc_ok malloc_ok name =
    let bigger = if t.cap == 0 then 16 else t.cap * 2 in
    let full = length t.entries == t.cap in
    let cap = if full then bigger else t.cap in
    if full && (if realloc_ok then false else true)
    then (0, t)
    else if malloc_ok
    then add_atom t cap name
    else (0, record t { cap = cap })

unfoldable pub intern_dynamic : AtomTable → Bool → Bool → List ℕ → Bool → Option ℕ → ℕ × AtomTable
unfolding allocate
intern_dynamic t realloc_ok malloc_ok name only_if_exists (some id) = (id, t)
intern_dynamic t realloc_ok malloc_ok name only_if_exists none =
    if only_if_exists then (0, t) else allocate t realloc_ok malloc_ok name

-- Behind the search among the predefined names.
unfoldable pub intern_at : AtomTable → Bool → Bool → List ℕ → Bool → Option ℕ → ℕ × AtomTable
unfolding intern_dynamic find_name
intern_at t realloc_ok malloc_ok name only_if_exists (some i) = (i + 1, t)
intern_at t realloc_ok malloc_ok name only_if_exists none =
    intern_dynamic t realloc_ok malloc_ok name only_if_exists (find_name t.entries name)

-- `x11_atom_intern`; a NULL name counts as an empty one.
unfoldable pub intern : AtomTable → Bool → Bool → List ℕ → Bool → ℕ × AtomTable
unfolding intern_at index_of_name
intern t realloc_ok malloc_ok name only_if_exists =
    if length name == 0
    then (0, t)
    else intern_at t realloc_ok malloc_ok name only_if_exists (index_of_name predefined_names name)

-- The copy into a buffer of `out_cap` bytes, cut if it does not fit: the true length, and the bytes
-- before the NUL.
unfoldable pub copy_name : ℕ → Option (List ℕ) → ℕ × List ℕ
copy_name out_cap none = (0, [])
copy_name out_cap (some name) =
    (length name, if ltb out_cap (length name + 1) then take (out_cap - 1) name else name)

unfoldable pub name_of_dynamic : List AtomEntry → ℕ → Option (List ℕ)
name_of_dynamic [] atom = none
name_of_dynamic (e ∷ es) atom = if e.id == atom then some e.name else name_of_dynamic es atom

-- `x11_atom_get_name`; nothing is written where the buffer has no room at all.
unfoldable pub get_name : AtomTable → ℕ → ℕ → ℕ × List ℕ
unfolding copy_name name_of_dynamic
get_name t atom out_cap =
    if out_cap == 0
    then (0, [])
    else if leb 1 atom && leb atom 68
    then copy_name out_cap (get_elem? predefined_names (atom - 1))
    else copy_name out_cap (name_of_dynamic t.entries atom)
