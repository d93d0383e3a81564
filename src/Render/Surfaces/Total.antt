-- ===== src/Render/Surfaces/Total.antt =====
-- Sums over the surfaces: how one store, one removal or one new surface changes them.
use ishizue.Base.{ℕ, ◌+◌, ◌≡◌, some, List, [], ◌∷◌, ◌++◌, arith}
use ishizue.Render.Surfaces.{Surface, find, update, remove}

abbrev pub total : (Surface → ℕ) → List Surface → ℕ
total g [] = 0
total g (s ∷ ss) = g s + total g ss

pub total-append :
    (g : Surface → ℕ) (ss : List Surface) (s : Surface) → total g (ss ++ s ∷ []) ≡ total g ss + g s
total-append g [] s = omega arith
total-append g (t ∷ ss) s = omega (arith, total-append g ss s)

module _ (g : Surface → ℕ) (serial : ℕ) (s : Surface) where
  pub total-update :
      (f : Surface → Surface) (ss : List Surface)
      → find serial ss ≡ some s
      → total g (update serial f ss) + g s ≡ total g ss + g (f s)
  unfolding find update
  total-update f [] e = cc
  total-update f (t ∷ ss) e = ground (arith, total-update f ss)

  pub total-remove :
      (ss : List Surface) → find serial ss ≡ some s → total g (remove serial ss) + g s ≡ total g ss
  unfolding find remove
  total-remove [] e = cc
  total-remove (t ∷ ss) e = ground (arith, total-remove ss)

pub find_serial :
    (serial : ℕ) (s : Surface) (ss : List Surface) → find serial ss ≡ some s → s.serial ≡ serial
unfolding find
find_serial serial s [] e = cc
find_serial serial s (t ∷ ss) e = ground (arith, find_serial serial s ss)
