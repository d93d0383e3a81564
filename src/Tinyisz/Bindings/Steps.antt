-- ===== src/Tinyisz/Bindings/Steps.antt =====
-- tinyisz/input.c: each key and each motion keeps the window manager's state well formed: the
-- windows, the master's ratio and the pointer.
use ishizue.Base.{
  ℕ, zero, suc, ◌-◌, ◌≤◌, ◌<◌, ◌≡◌, refl, Bool, true, false, ◌&&◌, Option, none, some, List, [],
  arith, leb, ◌==◌, not, if_cases,
}
use ishizue.Base.Int.{ℤ, pos, negsuc}
use ishizue.Tinyisz.Windows.{WindowList, Call, remove_focused}
use ishizue.Tinyisz.Windows.Focus
use ishizue.Tinyisz.Windows.Focus.{
  flag, step-IsValid, adds, removes, focuses, cycles, nothing-IsValid,
}
use ishizue.Tinyisz.Layout.{adjust_master}
use ishizue.Tinyisz.Layout.Focus.{apply-IsValid}
use ishizue.Tinyisz.Layout.Tiling.{adjust_master_bounds}
use ishizue.Tinyisz.Bindings.{
  KeyCodes, Context, Effect, retile, handle_key, handle_shifted, handle_plain, focus_digit, has_mod,
  first_output, Motion, absolute, relative, add_int, clamp, move_pointer, follow_mouse,
}

-- A coordinate lies in an extent, if this is positive.
abbrev pub InExtent : ℤ → ℤ → Type 0
InExtent (pos (suc n)) p = (q : ℕ) × (p ≡ pos q) × (q < suc n)
InExtent (pos zero) p = Unit
InExtent (negsuc n) p = Unit

pub record IsValid (c : Context) : Type 0 where
  pub windows_valid : Focus.IsValid c.windows
  pub ratio_min : 20 ≤ c.layout.master_ratio_pct
  pub ratio_max : c.layout.master_ratio_pct ≤ 80
  pub x_in : InExtent c.output_w c.pointer_x
  pub y_in : InExtent c.output_h c.pointer_y

clamp-InExtent : (extent p : ℤ) → InExtent extent (clamp extent p)
unfolding clamp
clamp-InExtent (pos zero) p = tt
clamp-InExtent (negsuc n) p = tt
clamp-InExtent (pos (suc n)) (negsuc p) = (0, refl, omega arith)
clamp-InExtent (pos (suc n)) (pos p) =
    if_cases (InExtent (pos (suc n))) (leb (suc n) p) (λ _. (n, refl, omega arith))
      (λ e. (p, refl, ground arith))

pub retile-IsValid : (c : Context) (made : List Call) → IsValid c → IsValid (retile c made).0
unfolding retile
retile-IsValid c made v = record {
  windows_valid = apply-IsValid c.layout c.windows c.seat (first_output c.outputs) v.windows_valid;
  ratio_min = v.ratio_min;
  ratio_max = v.ratio_max;
  x_in = v.x_in;
  y_in = v.y_in;
}

-- Other windows, or another ratio.
pub with_windows :
    (c : Context) (l : WindowList)
    → IsValid c
    → Focus.IsValid l
    → IsValid (record c { windows = l })
with_windows c l v w = record {
  windows_valid = w;
  ratio_min = v.ratio_min;
  ratio_max = v.ratio_max;
  x_in = v.x_in;
  y_in = v.y_in;
}

with_ratio :
    (c : Context) (delta : ℤ)
    → IsValid c
    → IsValid (record c { layout = adjust_master c.layout delta })
with_ratio c delta v = record {
  windows_valid = v.windows_valid;
  ratio_min = (adjust_master_bounds c.layout delta).0;
  ratio_max = (adjust_master_bounds c.layout delta).1;
  x_in = v.x_in;
  y_in = v.y_in;
}

abbrev pub Valid0 : Context × List Effect → Type 0
Valid0 r = IsValid r.0

-- The windows after one of their operations, laid out again.
pub windows_step :
    (c : Context) (op : Focus.Op) (made : List Call)
    → IsValid c
    → Valid0 (retile (record c { windows = Focus.step c.windows op }) made)
windows_step c op made v =
    retile-IsValid _ made (with_windows c _ v (step-IsValid c.windows op v.windows_valid))

handle_shifted-IsValid :
    (k : KeyCodes) (c : Context) (code : ℕ) → IsValid c → Valid0 (handle_shifted k c code)
unfolding handle_shifted
handle_shifted-IsValid k c code v =
    if_cases Valid0 (code == k.key_q) (λ _. windows_step c removes (remove_focused c.windows).1 v)
      (λ _. if_cases Valid0 (code == k.key_esc) (λ _. with_exit) (λ _. v))
  where
    with_exit : IsValid (record c { exit = true })
    with_exit = record {
      windows_valid = v.windows_valid;
      ratio_min = v.ratio_min;
      ratio_max = v.ratio_max;
      x_in = v.x_in;
      y_in = v.y_in;
    }

handle_plain-IsValid :
    (k : KeyCodes) (c : Context) (code : ℕ) → IsValid c → Valid0 (handle_plain k c code)
unfolding handle_plain focus_digit
handle_plain-IsValid k c code v =
    if_cases Valid0 (code == k.key_enter) (λ _. v)
      (λ _.
        if_cases Valid0 (code == k.key_j) (λ _. windows_step c (cycles (pos 1)) [] v)
          (λ _.
            if_cases Valid0 (code == k.key_k) (λ _. windows_step c (cycles (negsuc 0)) [] v)
              (λ _.
                if_cases Valid0 (code == k.key_h)
                  (λ _. retile-IsValid _ [] (with_ratio c (negsuc 4) v))
                  (λ _.
                    if_cases Valid0 (code == k.key_l)
                      (λ _. retile-IsValid _ [] (with_ratio c (pos 5) v))
                      (λ _.
                        if_cases Valid0 (leb k.key_1 code && leb code k.key_9)
                          (λ _. windows_step c (focuses (code - k.key_1)) [] v) (λ _. v))))))

pub handle_key-IsValid :
    (k : KeyCodes) (c : Context) (code : ℕ) (press : Bool)
    → IsValid c
    → Valid0 (handle_key k c code press)
unfolding handle_key
handle_key-IsValid k c code press v =
    if_cases Valid0 (not press) (λ _. v)
      (λ _.
        if_cases Valid0 (not (has_mod c 6)) (λ _. v)
          (λ _.
            if_cases Valid0 (has_mod c 0) (λ _. handle_shifted-IsValid k c code v)
              (λ _. handle_plain-IsValid k c code v)))

pub move_pointer-IsValid : (c : Context) (m : Motion) → IsValid c → IsValid (move_pointer c m)
unfolding move_pointer
move_pointer-IsValid c (absolute ax ay) v = record {
  windows_valid = v.windows_valid;
  ratio_min = v.ratio_min;
  ratio_max = v.ratio_max;
  x_in = clamp-InExtent c.output_w ax;
  y_in = clamp-InExtent c.output_h ay;
}
move_pointer-IsValid c (relative dx dy) v = record {
  windows_valid = v.windows_valid;
  ratio_min = v.ratio_min;
  ratio_max = v.ratio_max;
  x_in = clamp-InExtent c.output_w (add_int c.pointer_x dx);
  y_in = clamp-InExtent c.output_h (add_int c.pointer_y dy);
}

pub follow_mouse-IsValid :
    (c : Context) (o : Option (ℕ × Bool)) → IsValid c → Valid0 (follow_mouse c o)
unfolding follow_mouse
follow_mouse-IsValid c none v = v
follow_mouse-IsValid c (some (i, true)) v = v
follow_mouse-IsValid c (some (i, false)) v = windows_step c (focuses i) [] v
