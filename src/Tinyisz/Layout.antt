-- ===== src/Tinyisz/Layout.antt =====
-- tinyisz/layout.h and layout.c: the master/stack layout. The sizes are C ints. Their sums and products
-- are those of the code where they fit an int; where `output_w * master_ratio_pct` does not, the C
-- behaviour is undefined, and the model says nothing of the code.
pub mod Tiling
pub mod Focus
use ishizue.Base.{
  ℕ, zero, suc, ◌+◌, ◌-◌, ◌*◌, ◌/◌, Bool, true, false, Option, none, some, List, [], ◌∷◌, ◌++◌, ltb,
  ◌==◌, if◌then◌else◌, length,
}
use ishizue.Base.Int.{ℤ, pos, negsuc}
use ishizue.Tinyisz.Windows.{
  Window, WindowList, Call, set_position, set_size, set_zpos, set_keyboard_focus, commit,
  focused_window,
}

-- `struct tinyisz_layout`. The ratio is never negative.
pub record Layout : Type 0 where
  pub output_w : ℤ
  pub output_h : ℤ
  pub master_ratio_pct : ℕ

-- `tinyisz_layout_init` and `tinyisz_layout_set_output`.
abbrev pub default_layout : Layout
default_layout = record { output_w = pos 0; output_h = pos 0; master_ratio_pct = 50 }

abbrev pub set_output_size : Layout → ℤ → ℤ → Layout
set_output_size ly w h = record ly { output_w = w; output_h = h }

clamp_ratio : ℤ → ℕ
clamp_ratio (negsuc n) = 20
clamp_ratio (pos v) = if ltb v 20 then 20 else if ltb 80 v then 80 else v

-- A sum of two ints.
add_delta : ℕ → ℤ → ℤ
add_delta r (pos d) = pos (r + d)
add_delta r (negsuc d) = if ltb d r then pos (r - (d + 1)) else negsuc (d - r)

-- `tinyisz_layout_adjust_master`.
unfoldable pub adjust_master : Layout → ℤ → Layout
unfolding clamp_ratio add_delta
adjust_master ly delta = record ly {
  master_ratio_pct = clamp_ratio (add_delta ly.master_ratio_pct delta);
}

-- The stacking position of the window at index `i`; the focused one is on top.
pub z_of : ℕ → ℕ → Bool → ℕ
z_of count i true = count + 1
z_of count i false = if i == 0 then count else count - i

-- The loop's body for the master, and for the stack from index `i` on; `count` is the number of
-- all windows.
pub place_master : ℕ → ℕ → ℕ → Window → Window
place_master count master_w output_h w = record w {
  x = 0;
  y = 0;
  w = master_w;
  h = output_h;
  zpos = z_of count 0 w.focused;
}

pub place_in_stack : ℕ → ℕ → ℕ → ℕ → ℕ → ℕ → Window → Window
place_in_stack count master_w stack_w stack_h output_h i w = record w {
  x = master_w;
  y = (i - 1) * stack_h;
  w = stack_w;
  h = if i == count - 1 then output_h - (i - 1) * stack_h else stack_h;
  zpos = z_of count i w.focused;
}

pub place_stack : ℕ → ℕ → ℕ → ℕ → ℕ → ℕ → List Window → List Window
unfolding place_in_stack
place_stack count master_w stack_w stack_h output_h i [] = []
place_stack count master_w stack_w stack_h output_h i (w ∷ ws) =
    place_in_stack count master_w stack_w stack_h output_h i w
    ∷ place_stack count master_w stack_w stack_h output_h (suc i) ws

-- `stack_h`, for this many windows in the stack.
pub stack_height : ℕ → ℕ → ℕ
stack_height output_h n_stack = if ltb 0 n_stack then output_h / n_stack else 0

-- The loop, on an output of this size.
pub place : ℕ → ℕ → ℕ → List Window → List Window
unfolding place_master place_stack stack_height
place output_w output_h ratio [] = []
place output_w output_h ratio (w ∷ ws) =
    let master_w = output_w * ratio / 100 in
    let n_stack = length ws in
    place_master (suc n_stack) master_w output_h w
    ∷ place_stack (suc n_stack) master_w (output_w - master_w) (stack_height output_h n_stack)
        output_h 1 ws

-- What the loop tells the library of each window.
pub tell : List Window → List Call
tell [] = []
tell (w ∷ ws) =
    set_position w.surf w.x w.y ∷ set_size w.surf w.w w.h ∷ set_zpos w.surf w.zpos ∷ tell ws

tell_commit : Option ℕ → List Call
tell_commit none = []
tell_commit (some out) = commit out ∷ []

surf_of : Option Window → Option ℕ
surf_of none = none
surf_of (some w) = some w.surf

-- `seat` is whether there is a seat.
tell_focus : Bool → WindowList → List Call
unfolding surf_of
tell_focus false l = []
tell_focus true l = set_keyboard_focus (surf_of (focused_window l)) ∷ []

-- The list after the loop, with nothing to lay out on an output of no size.
place_on : ℤ → ℤ → ℕ → List Window → Option (List Window)
unfolding place
place_on (pos (suc w)) (pos (suc h)) ratio (v ∷ vs) = some (place (suc w) (suc h) ratio (v ∷ vs))
place_on w h ratio vs = none

laid_out : WindowList → Bool → Option ℕ → Option (List Window) → WindowList × List Call
unfolding tell tell_focus tell_commit
laid_out l seat out none = (l, tell_commit out)
laid_out l seat out (some wins) =
    let l' = record l { wins = wins } in (l', tell wins ++ (tell_focus seat l' ++ tell_commit out))

-- `tinyisz_layout_apply`: the list and the library's calls.
pub apply : Layout → WindowList → Bool → Option ℕ → WindowList × List Call
unfolding place_on laid_out
apply ly l seat out =
    laid_out l seat out (place_on ly.output_w ly.output_h ly.master_ratio_pct l.wins)
