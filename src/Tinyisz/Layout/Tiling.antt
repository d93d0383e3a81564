-- ===== src/Tinyisz/Layout/Tiling.antt =====
-- tinyisz/layout.c: the windows tile the output.
use ishizue.Base.{
  ℕ, zero, suc, ◌+◌, ◌-◌, ◌*◌, ◌/◌, ◌^◌, ◌≤◌, ◌<◌, ◌≡◌, refl, Bool, true, false, ◌&&◌, Option, some,
  List, [], ◌∷◌, arith, ltb, leb, ◌==◌, if◌then◌else◌, if_cases, length,
}
use ishizue.Base.Int.{ℤ, pos, negsuc}
use ishizue.Tinyisz.Windows.{Window, contains, at_point}
use ishizue.Tinyisz.Layout.{
  Layout, place, place_master, place_in_stack, place_stack, stack_height, adjust_master,
  clamp_ratio, add_delta, apply, place_on, laid_out,
}

-- The number of windows that a point lies in.
pub hits : List Window → ℕ → ℕ → ℕ
hits [] px py = 0
hits (w ∷ ws) px py = (if contains w (pos px) (pos py) then 1 else 0) + hits ws px py

next_row : (i sh : ℕ) → 0 < i → (suc i - 1) * sh ≡ (i - 1) * sh + sh
next_row zero sh h = absurd (omega arith)
next_row (suc i) sh h =
    let a : suc (suc i) - 1 ≡ suc i = omega arith in
    let b : suc i - 1 ≡ i = omega arith in rw (a, b) (grind arith)

-- A window, then what lies below it.
column :
    (mw px py y y' h : ℕ) (below : ℕ)
    → y' ≡ y + h
    → below ≡ (if leb mw px && leb y' py then 1 else 0)
    → (if leb mw px && (leb y py && ltb py (y + h)) then 1 else 0) + below
      ≡ (if leb mw px && leb y py then 1 else 0)
column mw px py y y' h below e b = ground arith

last_cell :
    (mw px py y oh : ℕ)
    → py < oh
    → (if leb mw px && (leb y py && ltb py (y + (oh - y))) then 1 else 0) + 0
      ≡ (if leb mw px && leb y py then 1 else 0)
last_cell mw px py y oh h = ground arith

-- A window of the right column, hit by a point of the output.
cell :
    (w : Window) (px py : ℕ)
    → px < w.x + w.w
    → contains w (pos px) (pos py) ≡ leb w.x px && (leb w.y py && ltb py (w.y + w.h))
unfolding contains
cell w px py h = ground arith

-- The stack from index `i` on covers the right column from its own top down.
hits-place_stack :
    (mw sw sh oh i px py : ℕ) (count : ℕ) (w : Window) (ws : List Window)
    → i + length ws ≡ count - 1
    → 0 < i
    → px < mw + sw
    → py < oh
    → hits (place_stack count mw sw sh oh i (w ∷ ws)) px py
      ≡ (if leb mw px && leb ((i - 1) * sh) py then 1 else 0)
unfolding place_stack hits place_in_stack
hits-place_stack mw sw sh oh i px py count w [] e h hx hy =
    let at : (i == count - 1) ≡ true = ground arith in
    rw (cell (place_in_stack count mw sw sh oh i w) px py hx, at)
      (last_cell mw px py ((i - 1) * sh) oh hy)
hits-place_stack mw sw sh oh i px py count w (v ∷ vs) e h hx hy =
    let at : (i == count - 1) ≡ false = ground arith in
    let ih =
      hits-place_stack mw sw sh oh (suc i) px py count v vs (omega arith) (omega arith) hx hy in
    rw (cell (place_in_stack count mw sw sh oh i w) px py hx, at)
      (column mw px py ((i - 1) * sh) ((suc i - 1) * sh) sh _ (next_row i sh h) ih)

master_cell :
    (count mw oh px py : ℕ) (w : Window)
    → py < oh
    → contains (place_master count mw oh w) (pos px) (pos py) ≡ ltb px mw
unfolding place_master contains
master_cell count mw oh px py w h = ground arith

both_columns :
    (mw px y py : ℕ)
    → y ≡ 0
    → (if ltb px mw then 1 else 0) + (if leb mw px && leb y py then 1 else 0) ≡ 1
both_columns mw px y py e = ground arith

-- Two windows or more tile an output of this size.
hits-place :
    (ow oh ratio px py : ℕ) (m w : Window) (ws : List Window)
    → ratio ≤ 100
    → px < ow
    → py < oh
    → hits (place ow oh ratio (m ∷ w ∷ ws)) px py ≡ 1
unfolding place hits
hits-place ow oh ratio px py m w ws hr hx hy =
    let wide : ow * ratio ≤ ow * 100 = grind arith in
    let mw = ow * ratio / 100 in
    let narrow : mw ≤ ow = omega (arith, wide) in
    let sh = stack_height oh (length (w ∷ ws)) in
    rw
      (
        master_cell (suc (length (w ∷ ws))) mw oh px py m hy,
        hits-place_stack mw (ow - mw) sh oh 1 px py (suc (length (w ∷ ws))) w ws (omega arith)
            (omega arith) (omega (arith, narrow)) hy,
      )
      (both_columns mw px ((1 - 1) * sh) py (omega arith))

-- A point that lies in some window is found in one.
at_point-hits :
    (ws : List Window) (px py : ℕ)
    → 0 < hits ws px py
    → (w : Window) × (at_point ws (pos px) (pos py) ≡ some w)
      × (contains w (pos px) (pos py) ≡ true)
unfolding hits at_point
at_point-hits [] px py h = absurd (omega arith)
at_point-hits (v ∷ vs) px py h =
    if_cases Found (contains v (pos px) (pos py)) (λ e. (v, refl, e))
      (λ e. at_point-hits vs px py (ground (arith, e)))
  where
    Found : Option Window → Type 0
    Found o = (w : Window) × (o ≡ some w) × (contains w (pos px) (pos py) ≡ true)

-- After `tinyisz_layout_apply` on an output of some size, with two windows or more, a ratio of at
-- most 100 percent, and a width whose product with the ratio fits an int, the windows tile the output: every point of it lies in exactly one of them,
-- and `tinyisz_wins_at_point` finds one that holds the point.
pub apply-tiles :
    (ow oh ratio px py : ℕ) (m v : Window) (vs : List Window) (focus : Option ℕ) (seat : Bool)
    (out : Option ℕ)
    → ratio ≤ 100
    → ow * ratio < 2 ^ 31
    → px < ow
    → py < oh
    → let ly : Layout = record { output_w = pos ow; output_h = pos oh; master_ratio_pct = ratio } in
      let wins = (apply ly (record { wins = m ∷ v ∷ vs; focused_index = focus }) seat out).0.wins in
      (hits wins px py ≡ 1)
      × (w : Window) × (at_point wins (pos px) (pos py) ≡ some w)
      × (contains w (pos px) (pos py) ≡ true)
unfolding apply place_on laid_out
apply-tiles zero oh ratio px py m v vs focus seat out hr fits hx hy = absurd (omega arith)
apply-tiles (suc ow) zero ratio px py m v vs focus seat out hr fits hx hy = absurd (omega arith)
apply-tiles (suc ow) (suc oh) ratio px py m v vs focus seat out hr fits hx hy =
    let once = hits-place (suc ow) (suc oh) ratio px py m v vs hr hx hy in
    let (w, found, inside) =
      at_point-hits (place (suc ow) (suc oh) ratio (m ∷ v ∷ vs)) px py (omega (arith, once)) in
    (once, w, found, inside)

clamp_ratio_bounds : (v : ℤ) → (20 ≤ clamp_ratio v) × (clamp_ratio v ≤ 80)
unfolding clamp_ratio
clamp_ratio_bounds (pos v) = ground arith
clamp_ratio_bounds (negsuc v) = ground arith

-- However the master's ratio is adjusted, it ends between 20 and 80 percent, and the output's size
-- is as it was.
pub adjust_master_bounds :
    (ly : Layout) (delta : ℤ)
    → let ly' = adjust_master ly delta in
      (20 ≤ ly'.master_ratio_pct)
      × (ly'.master_ratio_pct ≤ 80)
      × (ly'.output_w ≡ ly.output_w)
      × (ly'.output_h ≡ ly.output_h)
unfolding adjust_master
adjust_master_bounds ly delta =
    let b = clamp_ratio_bounds (add_delta ly.master_ratio_pct delta) in (b.0, b.1, refl, refl)
