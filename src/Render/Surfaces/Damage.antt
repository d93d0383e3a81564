-- ===== src/Render/Surfaces/Damage.antt =====
-- src/render/isz_surface.c, `isz_surface_damage`: the array grows enough, and not too much.
use ishizue.Base.{
  ℕ, zero, suc, ◌+◌, ◌*◌, ◌≤◌, ◌<◌, ◌≡◌, refl, Bool, some, List, ◌++◌, arith, ltb, ◌==◌,
  if◌then◌else◌, if_cases, length, length-append, ◌⊎◌, inl, inr,
}
use ishizue.Status.{Status, status_ok, resource_limit, no_memory}
use ishizue.Render.Surfaces.{Rect, Surface, World, find}
use ishizue.Render.Surfaces.Setters.{
  damage_surface, damage_found, store_damage, grown_cap, max_damage,
}

-- The doubling ends with room for all items, given a turn for each item that is missing.
grown_cap-enough :
    (fuel cap need : ℕ) → 0 < cap → need ≤ cap + fuel → need ≤ grown_cap fuel cap need
unfolding grown_cap
grown_cap-enough zero cap need p e = omega arith
grown_cap-enough (suc fuel) cap need p e = ground (arith, grown_cap-enough fuel (cap * 2) need)

-- It ends within the double of a bound on what is needed.
grown_cap-bound :
    (fuel cap need : ℕ) (b : ℕ) → need ≤ b → cap ≤ 2 * b → grown_cap fuel cap need ≤ 2 * b
unfolding grown_cap
grown_cap-bound zero cap need b p q = q
grown_cap-bound (suc fuel) cap need b p q = ground (arith, grown_cap-bound fuel (cap * 2) need b)

-- What `isz_surface_damage` gives, by its branches: the world as it was, or a store.
pub damage_found-cases {ℓ} :
    (P : Status × World → Type ℓ) (w : World) (serial : ℕ) (s : Surface) (realloc_ok : Bool)
    (rects : List Rect)
    → ((r : Status) → P (r, w))
    → ((cap : ℕ) → P (store_damage w serial s rects cap))
    → P (damage_found w serial (some s) realloc_ok rects)
unfolding damage_found
damage_found-cases P w serial s realloc_ok rects f g =
    if_cases P (length rects == 0) (λ _. f status_ok)
      λ _.
        if_cases P (ltb max_damage (length s.damage + length rects)) (λ _. f resource_limit)
          λ _.
            if_cases P (ltb s.damage_cap (length s.damage + length rects))
              (λ _. if_cases P realloc_ok (λ _. g _) (λ _. f no_memory)) (λ _. g s.damage_cap)

-- The damage fits the array, and the array is not large.
abbrev pub Fits : Surface → Type 0
Fits s = (length s.damage ≤ s.damage_cap) × (s.damage_cap ≤ 2 * max_damage)

-- The outcome of damaging `s`: the stored surface, or the reason why nothing changed.
abbrev pub Damages : World → ℕ → Surface → List Rect → Status × World → Type 0
Damages w serial s rects (r, w') =
    ((cap : ℕ) × ((r, w') ≡ store_damage w serial s rects cap)
      × (length (s.damage ++ rects) ≤ cap)
      × (cap ≤ 2 * max_damage)
      × (length (s.damage ++ rects) ≤ max_damage))
    ⊎ (w' ≡ w)
      × ((r ≡ resource_limit) × (max_damage < length (s.damage ++ rects))
          ⊎ (r ≡ no_memory) × (s.damage_cap < length (s.damage ++ rects))
          ⊎ (r ≡ status_ok) × (length rects ≡ 0))

module _ (w : World) (serial : ℕ) (s : Surface) (realloc_ok : Bool) (rects : List Rect) where
  damage_found-Damages :
      Fits s → Damages w serial s rects (damage_found w serial (some s) realloc_ok rects)
  unfolding damage_found
  damage_found-Damages v =
      let P = Damages w serial s rects in
      let need : ℕ = length s.damage + length rects in
      let first : ℕ = if s.damage_cap == 0 then 8 else s.damage_cap in
      let total = length-append s.damage rects in
      if_cases P (length rects == 0) (λ e. inr (refl, inr (inr (refl, ground (arith, e)))))
        λ _.
          if_cases P (ltb max_damage (length s.damage + length rects))
            (λ e. inr (refl, inl (refl, ground (arith, e, total))))
            λ e.
              if_cases P (ltb s.damage_cap (length s.damage + length rects))
                (λ k.
                  if_cases P realloc_ok
                    (λ _. inl (
                      _,
                      refl,
                      ground (arith, grown_cap-enough need first need, total),
                      ground (arith, grown_cap-bound need first need max_damage, e, v),
                      ground (arith, e, total),
                    ))
                    (λ _. inr (refl, inr (inl (refl, ground (arith, k, total))))))
                (λ k.
                  inl (s.damage_cap, refl, ground (arith, k, total), v.1, ground (arith, e, total)))

-- Damaging a surface whose damage fits its array of at most 512 rectangles: either the rectangles
-- are stored behind the others, at most 256 in all, in an array that holds them and has again at
-- most 512; or nothing changes, because they are more than 256, because they do not fit and there
-- is no memory, or because there are none (then with ISZ_OK).
pub damage_surface-Damages :
    (w : World) (serial : ℕ) (s : Surface) (realloc_ok : Bool) (rects : List Rect)
    → find serial w.surfaces ≡ some s
    → Fits s
    → Damages w serial s rects (damage_surface w serial realloc_ok rects)
unfolding damage_surface
damage_surface-Damages w serial s realloc_ok rects e v =
    rw e (damage_found-Damages w serial s realloc_ok rects v)
