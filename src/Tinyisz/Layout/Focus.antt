-- ===== src/Tinyisz/Layout/Focus.antt =====
-- tinyisz/layout.c: the layout leaves the focus alone.
use ishizue.Base.{
  ℕ, zero, suc, ◌<◌, ◌≡◌, refl, ◌∙◌, Bool, Option, none, some, ◌⊎◌, inl, inr, List, [], ◌∷◌, arith,
  ◌==◌, length,
}
use ishizue.Base.Int.{ℤ, pos, negsuc}
use ishizue.Tinyisz.Windows.{Window, WindowList}
use ishizue.Tinyisz.Windows.Focus.{IsValid, flag}
use ishizue.Tinyisz.Layout.{
  Layout, apply, laid_out, place, place_on, place_master, place_stack, place_in_stack,
}

-- The layout moves windows, but neither the focus nor their number.
module _ (count mw sw sh oh : ℕ) where
  length-place_stack :
      (i : ℕ) (ws : List Window) → length (place_stack count mw sw sh oh i ws) ≡ length ws
  unfolding place_stack
  length-place_stack i [] = refl
  length-place_stack i (w ∷ ws) = omega (arith, length-place_stack (suc i) ws)

  flag-place_stack :
      (i k : ℕ) (ws : List Window) → flag (place_stack count mw sw sh oh i ws) k ≡ flag ws k
  unfolding place_stack place_in_stack flag
  flag-place_stack i k [] = refl
  flag-place_stack i zero (w ∷ ws) = refl
  flag-place_stack i (suc k) (w ∷ ws) = flag-place_stack (suc i) k ws

length-place : (w h r : ℕ) (ws : List Window) → length (place w h r ws) ≡ length ws
unfolding place
length-place w h r [] = refl
length-place w h r (v ∷ vs) = omega (arith, length-place_stack _ _ _ _ _ 1 vs)

flag-place : (w h r k : ℕ) (ws : List Window) → flag (place w h r ws) k ≡ flag ws k
unfolding place place_master flag
flag-place w h r k [] = refl
flag-place w h r zero (v ∷ vs) = refl
flag-place w h r (suc k) (v ∷ vs) = flag-place_stack _ _ _ _ _ 1 k vs

placed-IsValid :
    (ws : List Window) (f : Option ℕ) (w h r : ℕ)
    → IsValid (record { wins = ws; focused_index = f })
    → IsValid (record { wins = place w h r ws; focused_index = f })
placed-IsValid ws f w h r v = record {
  bounded = omega (arith, length-place w h r ws, v.bounded);
  one_focus = same v.one_focus;
}
  where
    same :
        (length ws ≡ 0) × (f ≡ none)
          ⊎ (i : ℕ) × (i < length ws) × (f ≡ some i) × ((k : ℕ) → flag ws k ≡ (k == i))
        → (length (place w h r ws) ≡ 0) × (f ≡ none)
          ⊎ (i : ℕ) × (i < length (place w h r ws))
            × (f ≡ some i)
            × ((k : ℕ) → flag (place w h r ws) k ≡ (k == i))
    same (inl (e, n)) = inl (length-place w h r ws ∙ e, n)
    same (inr (i, lt, e, only)) =
        inr (i, omega (arith, length-place w h r ws), e, λ k. flag-place w h r k ws ∙ only k)

place_on-IsValid :
    (w h : ℤ) (r : ℕ) (ws : List Window) (f : Option ℕ) (seat : Bool) (out : Option ℕ)
    → let l : WindowList = record { wins = ws; focused_index = f } in
      IsValid l → IsValid (laid_out l seat out (place_on w h r ws)).0
unfolding place_on laid_out
place_on-IsValid (pos zero) h r ws f seat out v = v
place_on-IsValid (negsuc n) h r ws f seat out v = v
place_on-IsValid (pos (suc w)) (pos zero) r ws f seat out v = v
place_on-IsValid (pos (suc w)) (negsuc n) r ws f seat out v = v
place_on-IsValid (pos (suc w)) (pos (suc h)) r [] f seat out v = v
place_on-IsValid (pos (suc w)) (pos (suc h)) r (x ∷ xs) f seat out v =
    placed-IsValid (x ∷ xs) f (suc w) (suc h) r v

pub apply-IsValid :
    (ly : Layout) (l : WindowList) (seat : Bool) (out : Option ℕ)
    → IsValid l
    → IsValid (apply ly l seat out).0
unfolding apply
apply-IsValid ly l seat out v =
    place_on-IsValid ly.output_w ly.output_h ly.master_ratio_pct l.wins l.focused_index seat out v
