-- ===== src/X11bridge/Names.antt =====
-- x11bridge/x11_atoms.c, X11_PREDEFINED_ATOM_NAMES: the 68 predefined names in atom order, in ASCII.
use Prim.Native.Nat.{ℕ}
use mathlib.Core.List.{List, [], ◌∷◌}

abbrev pub predefined_names : List (List ℕ)
predefined_names =
    (80 ∷ 82 ∷ 73 ∷ 77 ∷ 65 ∷ 82 ∷ 89 ∷ [])
    ∷ (83 ∷ 69 ∷ 67 ∷ 79 ∷ 78 ∷ 68 ∷ 65 ∷ 82 ∷ 89 ∷ [])
    ∷ (65 ∷ 82 ∷ 67 ∷ [])
    ∷ (65 ∷ 84 ∷ 79 ∷ 77 ∷ [])
    ∷ (66 ∷ 73 ∷ 84 ∷ 77 ∷ 65 ∷ 80 ∷ [])
    ∷ (67 ∷ 65 ∷ 82 ∷ 68 ∷ 73 ∷ 78 ∷ 65 ∷ 76 ∷ [])
    ∷ (67 ∷ 79 ∷ 76 ∷ 79 ∷ 82 ∷ 77 ∷ 65 ∷ 80 ∷ [])
    ∷ (67 ∷ 85 ∷ 82 ∷ 83 ∷ 79 ∷ 82 ∷ [])
    ∷ (67 ∷ 85 ∷ 84 ∷ 95 ∷ 66 ∷ 85 ∷ 70 ∷ 70 ∷ 69 ∷ 82 ∷ 48 ∷ [])
    ∷ (67 ∷ 85 ∷ 84 ∷ 95 ∷ 66 ∷ 85 ∷ 70 ∷ 70 ∷ 69 ∷ 82 ∷ 49 ∷ [])
    ∷ (67 ∷ 85 ∷ 84 ∷ 95 ∷ 66 ∷ 85 ∷ 70 ∷ 70 ∷ 69 ∷ 82 ∷ 50 ∷ [])
    ∷ (67 ∷ 85 ∷ 84 ∷ 95 ∷ 66 ∷ 85 ∷ 70 ∷ 70 ∷ 69 ∷ 82 ∷ 51 ∷ [])
    ∷ (67 ∷ 85 ∷ 84 ∷ 95 ∷ 66 ∷ 85 ∷ 70 ∷ 70 ∷ 69 ∷ 82 ∷ 52 ∷ [])
    ∷ (67 ∷ 85 ∷ 84 ∷ 95 ∷ 66 ∷ 85 ∷ 70 ∷ 70 ∷ 69 ∷ 82 ∷ 53 ∷ [])
    ∷ (67 ∷ 85 ∷ 84 ∷ 95 ∷ 66 ∷ 85 ∷ 70 ∷ 70 ∷ 69 ∷ 82 ∷ 54 ∷ [])
    ∷ (67 ∷ 85 ∷ 84 ∷ 95 ∷ 66 ∷ 85 ∷ 70 ∷ 70 ∷ 69 ∷ 82 ∷ 55 ∷ [])
    ∷ (68 ∷ 82 ∷ 65 ∷ 87 ∷ 65 ∷ 66 ∷ 76 ∷ 69 ∷ [])
    ∷ (70 ∷ 79 ∷ 78 ∷ 84 ∷ [])
    ∷ (73 ∷ 78 ∷ 84 ∷ 69 ∷ 71 ∷ 69 ∷ 82 ∷ [])
    ∷ (80 ∷ 73 ∷ 88 ∷ 77 ∷ 65 ∷ 80 ∷ [])
    ∷ (80 ∷ 79 ∷ 73 ∷ 78 ∷ 84 ∷ [])
    ∷ (82 ∷ 69 ∷ 67 ∷ 84 ∷ 65 ∷ 78 ∷ 71 ∷ 76 ∷ 69 ∷ [])
    ∷ (82 ∷ 69 ∷ 83 ∷ 79 ∷ 85 ∷ 82 ∷ 67 ∷ 69 ∷ 95 ∷ 77 ∷ 65 ∷ 78 ∷ 65 ∷ 71 ∷ 69 ∷ 82 ∷ [])
    ∷ (82 ∷ 71 ∷ 66 ∷ 95 ∷ 67 ∷ 79 ∷ 76 ∷ 79 ∷ 82 ∷ 95 ∷ 77 ∷ 65 ∷ 80 ∷ [])
    ∷ (82 ∷ 71 ∷ 66 ∷ 95 ∷ 66 ∷ 69 ∷ 83 ∷ 84 ∷ 95 ∷ 77 ∷ 65 ∷ 80 ∷ [])
    ∷ (82 ∷ 71 ∷ 66 ∷ 95 ∷ 66 ∷ 76 ∷ 85 ∷ 69 ∷ 95 ∷ 77 ∷ 65 ∷ 80 ∷ [])
    ∷ (82 ∷ 71 ∷ 66 ∷ 95 ∷ 68 ∷ 69 ∷ 70 ∷ 65 ∷ 85 ∷ 76 ∷ 84 ∷ 95 ∷ 77 ∷ 65 ∷ 80 ∷ [])
    ∷ (82 ∷ 71 ∷ 66 ∷ 95 ∷ 71 ∷ 82 ∷ 65 ∷ 89 ∷ 95 ∷ 77 ∷ 65 ∷ 80 ∷ [])
    ∷ (82 ∷ 71 ∷ 66 ∷ 95 ∷ 71 ∷ 82 ∷ 69 ∷ 69 ∷ 78 ∷ 95 ∷ 77 ∷ 65 ∷ 80 ∷ [])
    ∷ (82 ∷ 71 ∷ 66 ∷ 95 ∷ 82 ∷ 69 ∷ 68 ∷ 95 ∷ 77 ∷ 65 ∷ 80 ∷ [])
    ∷ (83 ∷ 84 ∷ 82 ∷ 73 ∷ 78 ∷ 71 ∷ [])
    ∷ (86 ∷ 73 ∷ 83 ∷ 85 ∷ 65 ∷ 76 ∷ 73 ∷ 68 ∷ [])
    ∷ (87 ∷ 73 ∷ 78 ∷ 68 ∷ 79 ∷ 87 ∷ [])
    ∷ (87 ∷ 77 ∷ 95 ∷ 67 ∷ 79 ∷ 77 ∷ 77 ∷ 65 ∷ 78 ∷ 68 ∷ [])
    ∷ (87 ∷ 77 ∷ 95 ∷ 72 ∷ 73 ∷ 78 ∷ 84 ∷ 83 ∷ [])
    ∷ (87 ∷ 77 ∷ 95 ∷ 67 ∷ 76 ∷ 73 ∷ 69 ∷ 78 ∷ 84 ∷ 95 ∷ 77 ∷ 65 ∷ 67 ∷ 72 ∷ 73 ∷ 78 ∷ 69 ∷ [])
    ∷ (87 ∷ 77 ∷ 95 ∷ 73 ∷ 67 ∷ 79 ∷ 78 ∷ 95 ∷ 78 ∷ 65 ∷ 77 ∷ 69 ∷ [])
    ∷ (87 ∷ 77 ∷ 95 ∷ 73 ∷ 67 ∷ 79 ∷ 78 ∷ 95 ∷ 83 ∷ 73 ∷ 90 ∷ 69 ∷ [])
    ∷ (87 ∷ 77 ∷ 95 ∷ 78 ∷ 65 ∷ 77 ∷ 69 ∷ [])
    ∷ (87 ∷ 77 ∷ 95 ∷ 78 ∷ 79 ∷ 82 ∷ 77 ∷ 65 ∷ 76 ∷ 95 ∷ 72 ∷ 73 ∷ 78 ∷ 84 ∷ 83 ∷ [])
    ∷ (87 ∷ 77 ∷ 95 ∷ 83 ∷ 73 ∷ 90 ∷ 69 ∷ 95 ∷ 72 ∷ 73 ∷ 78 ∷ 84 ∷ 83 ∷ [])
    ∷ (87 ∷ 77 ∷ 95 ∷ 90 ∷ 79 ∷ 79 ∷ 77 ∷ 95 ∷ 72 ∷ 73 ∷ 78 ∷ 84 ∷ 83 ∷ [])
    ∷ (77 ∷ 73 ∷ 78 ∷ 95 ∷ 83 ∷ 80 ∷ 65 ∷ 67 ∷ 69 ∷ [])
    ∷ (78 ∷ 79 ∷ 82 ∷ 77 ∷ 95 ∷ 83 ∷ 80 ∷ 65 ∷ 67 ∷ 69 ∷ [])
    ∷ (77 ∷ 65 ∷ 88 ∷ 95 ∷ 83 ∷ 80 ∷ 65 ∷ 67 ∷ 69 ∷ [])
    ∷ (69 ∷ 78 ∷ 68 ∷ 95 ∷ 83 ∷ 80 ∷ 65 ∷ 67 ∷ 69 ∷ [])
    ∷ (83 ∷ 85 ∷ 80 ∷ 69 ∷ 82 ∷ 83 ∷ 67 ∷ 82 ∷ 73 ∷ 80 ∷ 84 ∷ 95 ∷ 88 ∷ [])
    ∷ (83 ∷ 85 ∷ 80 ∷ 69 ∷ 82 ∷ 83 ∷ 67 ∷ 82 ∷ 73 ∷ 80 ∷ 84 ∷ 95 ∷ 89 ∷ [])
    ∷ (83 ∷ 85 ∷ 66 ∷ 83 ∷ 67 ∷ 82 ∷ 73 ∷ 80 ∷ 84 ∷ 95 ∷ 88 ∷ [])
    ∷ (83 ∷ 85 ∷ 66 ∷ 83 ∷ 67 ∷ 82 ∷ 73 ∷ 80 ∷ 84 ∷ 95 ∷ 89 ∷ [])
    ∷ (85 ∷ 78 ∷ 68 ∷ 69 ∷ 82 ∷ 76 ∷ 73 ∷ 78 ∷ 69 ∷ 95 ∷ 80 ∷ 79 ∷ 83 ∷ 73 ∷ 84 ∷ 73 ∷ 79 ∷ 78 ∷ [])
    ∷ (85 ∷ 78 ∷ 68 ∷ 69 ∷ 82 ∷ 76 ∷ 73 ∷ 78 ∷ 69 ∷ 95 ∷ 84 ∷ 72 ∷ 73 ∷ 67 ∷ 75 ∷ 78 ∷ 69 ∷ 83 ∷ 83
        ∷ [])
    ∷ (83 ∷ 84 ∷ 82 ∷ 73 ∷ 75 ∷ 69 ∷ 79 ∷ 85 ∷ 84 ∷ 95 ∷ 65 ∷ 83 ∷ 67 ∷ 69 ∷ 78 ∷ 84 ∷ [])
    ∷ (83 ∷ 84 ∷ 82 ∷ 73 ∷ 75 ∷ 69 ∷ 79 ∷ 85 ∷ 84 ∷ 95 ∷ 68 ∷ 69 ∷ 83 ∷ 67 ∷ 69 ∷ 78 ∷ 84 ∷ [])
    ∷ (73 ∷ 84 ∷ 65 ∷ 76 ∷ 73 ∷ 67 ∷ 95 ∷ 65 ∷ 78 ∷ 71 ∷ 76 ∷ 69 ∷ [])
    ∷ (88 ∷ 95 ∷ 72 ∷ 69 ∷ 73 ∷ 71 ∷ 72 ∷ 84 ∷ [])
    ∷ (81 ∷ 85 ∷ 65 ∷ 68 ∷ 95 ∷ 87 ∷ 73 ∷ 68 ∷ 84 ∷ 72 ∷ [])
    ∷ (87 ∷ 69 ∷ 73 ∷ 71 ∷ 72 ∷ 84 ∷ [])
    ∷ (80 ∷ 79 ∷ 73 ∷ 78 ∷ 84 ∷ 95 ∷ 83 ∷ 73 ∷ 90 ∷ 69 ∷ [])
    ∷ (82 ∷ 69 ∷ 83 ∷ 79 ∷ 76 ∷ 85 ∷ 84 ∷ 73 ∷ 79 ∷ 78 ∷ [])
    ∷ (67 ∷ 79 ∷ 80 ∷ 89 ∷ 82 ∷ 73 ∷ 71 ∷ 72 ∷ 84 ∷ [])
    ∷ (78 ∷ 79 ∷ 84 ∷ 73 ∷ 67 ∷ 69 ∷ [])
    ∷ (70 ∷ 79 ∷ 78 ∷ 84 ∷ 95 ∷ 78 ∷ 65 ∷ 77 ∷ 69 ∷ [])
    ∷ (70 ∷ 65 ∷ 77 ∷ 73 ∷ 76 ∷ 89 ∷ 95 ∷ 78 ∷ 65 ∷ 77 ∷ 69 ∷ [])
    ∷ (70 ∷ 85 ∷ 76 ∷ 76 ∷ 95 ∷ 78 ∷ 65 ∷ 77 ∷ 69 ∷ [])
    ∷ (67 ∷ 65 ∷ 80 ∷ 95 ∷ 72 ∷ 69 ∷ 73 ∷ 71 ∷ 72 ∷ 84 ∷ [])
    ∷ (87 ∷ 77 ∷ 95 ∷ 67 ∷ 76 ∷ 65 ∷ 83 ∷ 83 ∷ [])
    ∷ (87 ∷ 77 ∷ 95 ∷ 84 ∷ 82 ∷ 65 ∷ 78 ∷ 83 ∷ 73 ∷ 69 ∷ 78 ∷ 84 ∷ 95 ∷ 70 ∷ 79 ∷ 82 ∷ [])
    ∷ []
