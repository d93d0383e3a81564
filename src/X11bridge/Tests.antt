-- ===== src/X11bridge/Tests.antt =====
-- x11bridge/x11_atoms.c at concrete inputs: a predefined name, a new one, and the new one again.
use ishizue.Base.{ℕ, ◌≡◌, refl, true, false, List, [], ◌∷◌, arith}
use ishizue.X11bridge.Atoms.{
  no_atoms, intern, intern_at, intern_dynamic, allocate, add_atom, find_name, index_of_name,
  name_eq, same_bytes, get_name, copy_name, name_of_dynamic,
}
use ishizue.X11bridge.Atoms.Laws.{IsValid, Interns, intern-Interns}

-- "FONT", and "ab".
abbrev font : List ℕ
font = 70 ∷ 79 ∷ 78 ∷ 84 ∷ []

abbrev short : List ℕ
short = 97 ∷ 98 ∷ []

intern_outcomes :
    let t = (intern no_atoms true true short false).1 in
    ((intern no_atoms true true font false).0 ≡ 18)
    × ((intern no_atoms true true short true).0 ≡ 0)
    × ((intern no_atoms true true short false).0 ≡ 69)
    × ((intern t true true short true).0 ≡ 69)
    × (get_name t 69 8 ≡ (2, short))
    × (get_name t 69 2 ≡ (2, 97 ∷ []))
    × (get_name t 70 8 ≡ (0, []))
unfolding intern intern_at intern_dynamic allocate add_atom find_name index_of_name name_eq
    same_bytes get_name copy_name name_of_dynamic
intern_outcomes = (refl, refl, refl, refl, refl, refl, refl)

no_atoms-IsValid : IsValid no_atoms
no_atoms-IsValid = record { numbered = tt; next_free = refl }

intern-Interns_example : Interns no_atoms short 8 (intern no_atoms true true short false)
intern-Interns_example =
    intern-Interns no_atoms true true short false 8 no_atoms-IsValid (omega arith) (omega arith)
