-- ===== src/Tinyisz/Windows/Cycle.antt =====
-- tinyisz/window.c, `tinyisz_wins_cycle`: the loop that brings a negative index back into range.
use ishizue.Base.{ℕ, zero, suc, ◌+◌, ◌-◌, ◌*◌, ◌<◌, ◌≡◌, true, false, arith, ltb, if_cases}
use ishizue.Base.Int.{ℤ, pos, negsuc}
use ishizue.Tinyisz.Windows.{raise}

-- The loop from -(m + 1), for a list that is not empty: m + 1 turns are enough, and then the sum is
-- an index of the list that differs from the start by a multiple of the list's length.
pub raise-ends :
    (fuel count m : ℕ)
    → 0 < count
    → m < fuel
    → (q : ℕ) × (raise fuel count (negsuc m) + (m + 1) ≡ q * count)
      × (raise fuel count (negsuc m) < count)
unfolding raise
raise-ends zero count m h f = absurd (omega arith)
raise-ends (suc fuel) count m h f =
    if_cases P (ltb m count) {x = pos (count - (m + 1))} {y = negsuc (m - count)}
      (λ e. let (s, b) = last e in (1, s, b))
      (λ e.
        let (q, sum, small) = raise-ends fuel count (m - count) h (ground (arith, e)) in
        (q + 1, more q e sum, small))
  where
    P : ℤ → Type 0
    P z = (q : ℕ) × (raise fuel count z + (m + 1) ≡ q * count) × (raise fuel count z < count)

    last :
        ltb m count ≡ true
        → (raise fuel count (pos (count - (m + 1))) + (m + 1) ≡ 1 * count)
          × (raise fuel count (pos (count - (m + 1))) < count)
    last e = ground arith

    more :
        (q : ℕ)
        → ltb m count ≡ false
        → raise fuel count (negsuc (m - count)) + (m - count + 1) ≡ q * count
        → raise fuel count (negsuc (m - count)) + (m + 1) ≡ (q + 1) * count
    more q e sum = grind arith
