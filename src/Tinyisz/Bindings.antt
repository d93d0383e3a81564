-- ===== src/Tinyisz/Bindings.antt =====
-- tinyisz/input.h and input.c: what keys, the pointer and clients do to the windows. The key codes
-- of linux/input-event-codes.h are a parameter. A pointer position is a C int; the casts of the
-- event's doubles to int are the caller's. The server, the X11 display and the main loop's session
-- flag are not read here.
pub mod Steps
pub mod Session
use ishizue.Base.{
  ℕ, suc, ◌+◌, ◌-◌, ◌/◌, ◌%◌, ◌^◌, Bool, true, false, ◌&&◌, ◌||◌, not, Option, none, some, List, [],
  ◌∷◌, ◌++◌, ltb, leb, ◌==◌, if◌then◌else◌, length,
}
use ishizue.Base.Int.{ℤ, pos, negsuc}
use ishizue.Tinyisz.Windows.{
  Window, WindowList, Call, no_windows, add, remove_focused, focus_index, cycle, contains,
  destroy_all,
}
use ishizue.Tinyisz.Layout.{Layout, default_layout, set_output_size, adjust_master, apply}

-- KEY_Q, KEY_ESC and so on; the codes from KEY_1 to KEY_9 are consecutive.
pub record KeyCodes : Type 0 where
  pub key_q : ℕ
  pub key_esc : ℕ
  pub key_enter : ℕ
  pub key_j : ℕ
  pub key_k : ℕ
  pub key_h : ℕ
  pub key_l : ℕ
  pub key_1 : ℕ
  pub key_9 : ℕ

-- `struct tinyisz_ctx`; `seat` says whether there is one, and `exit` is what the flag points at.
pub record Context : Type 0 where
  pub seat : Bool
  pub outputs : List ℕ
  pub windows : WindowList
  pub layout : Layout
  pub output_w : ℤ
  pub output_h : ℤ
  pub mods_depressed : ℕ
  pub mods_latched : ℕ
  pub mods_locked : ℕ
  pub pointer_x : ℤ
  pub pointer_y : ℤ
  pub exit : Bool

-- The calls of the library, and the terminal that is spawned.
pub data Effect : Type 0 where
  calls : List Call → Effect
  spawn_terminal : Effect

-- `tinyisz_ctx_init`.
pub start : Bool → ℤ → ℤ → Context
start seat w h = record {
  seat = seat;
  outputs = [];
  windows = no_windows;
  layout = set_output_size default_layout w h;
  output_w = w;
  output_h = h;
  mods_depressed = 0;
  mods_latched = 0;
  mods_locked = 0;
  pointer_x = pos 0;
  pointer_y = pos 0;
  exit = false;
}

first_output : List ℕ → Option ℕ
first_output [] = none
first_output (o ∷ os) = some o

-- `retile`, behind the calls that were made before it.
pub retile : Context → List Call → Context × List Effect
unfolding first_output
retile c made =
    let (l, told) = apply c.layout c.windows c.seat (first_output c.outputs) in
    (record c { windows = l }, calls (made ++ told) ∷ [])

-- Whether a modifier bit, 2 ^ n, is set in the depressed or the latched modifiers.
has_mod : Context → ℕ → Bool
has_mod c n = c.mods_depressed / 2 ^ n % 2 == 1 || c.mods_latched / 2 ^ n % 2 == 1

-- With Super and Shift.
handle_shifted : KeyCodes → Context → ℕ → Context × List Effect
handle_shifted k c code =
    let (l, made) = remove_focused c.windows in
    if code == k.key_q
    then retile (record c { windows = l }) made
    else if code == k.key_esc
    then (record c { exit = true }, [])
    else (c, [])

focus_digit : KeyCodes → Context → ℕ → Context × List Effect
focus_digit k c code =
    if leb k.key_1 code && leb code k.key_9
    then retile (record c { windows = focus_index c.windows (code - k.key_1) }) []
    else (c, [])

-- With Super alone.
handle_plain : KeyCodes → Context → ℕ → Context × List Effect
unfolding focus_digit
handle_plain k c code =
    if code == k.key_enter
    then (c, spawn_terminal ∷ [])
    else if code == k.key_j
    then retile (record c { windows = cycle c.windows (pos 1) }) []
    else if code == k.key_k
    then retile (record c { windows = cycle c.windows (negsuc 0) }) []
    else if code == k.key_h
    then retile (record c { layout = adjust_master c.layout (negsuc 4) }) []
    else if code == k.key_l
    then retile (record c { layout = adjust_master c.layout (pos 5) }) []
    else focus_digit k c code

-- `handle_key`: MOD_SUPER is 2 ^ 6, MOD_SHIFT 2 ^ 0.
pub handle_key : KeyCodes → Context → ℕ → Bool → Context × List Effect
unfolding handle_shifted handle_plain has_mod
handle_key k c code press =
    if not press
    then (c, [])
    else if not (has_mod c 6)
    then (c, [])
    else if has_mod c 0
    then handle_shifted k c code
    else handle_plain k c code

-- `tinyisz_input_keyboard_modifiers`.
pub set_modifiers : Context → ℕ → ℕ → ℕ → Context
set_modifiers c d l lk = record c { mods_depressed = d; mods_latched = l; mods_locked = lk }

-- A pointer event: the absolute position, where the device supplies one, or the way it went.
pub data Motion : Type 0 where
  absolute relative : ℤ → ℤ → Motion

-- A sum of two ints, where it is one; behind that the C behaviour is undefined.
pub add_int : ℤ → ℤ → ℤ
add_int (pos a) (pos b) = pos (a + b)
add_int (pos a) (negsuc b) = if ltb b a then pos (a - (b + 1)) else negsuc (b - a)
add_int (negsuc a) (pos b) = if ltb a b then pos (b - (a + 1)) else negsuc (a - b)
add_int (negsuc a) (negsuc b) = negsuc (suc (a + b))

-- A coordinate that is brought into an extent, if this is positive.
pub clamp : ℤ → ℤ → ℤ
clamp (pos (suc n)) (pos p) = if leb (suc n) p then pos n else pos p
clamp (pos (suc n)) (negsuc p) = pos 0
clamp extent p = p

pub move_pointer : Context → Motion → Context
unfolding clamp add_int
move_pointer c (absolute ax ay) = record c {
  pointer_x = clamp c.output_w ax;
  pointer_y = clamp c.output_h ay;
}
move_pointer c (relative dx dy) = record c {
  pointer_x = clamp c.output_w (add_int c.pointer_x dx);
  pointer_y = clamp c.output_h (add_int c.pointer_y dy);
}

-- The index of the window at a point, with its `focused` flag.
pub window_at : List Window → ℤ → ℤ → Option (ℕ × Bool)
window_at [] px py = none
window_at (w ∷ ws) px py =
    if contains w px py
    then some (0, w.focused)
    else elim (window_at ws px py) [ none ↦ none | some (i, f) ↦ some (suc i, f) ]

pub follow_mouse : Context → Option (ℕ × Bool) → Context × List Effect
follow_mouse c none = (c, [])
follow_mouse c (some (i, true)) = (c, [])
follow_mouse c (some (i, false)) = retile (record c { windows = focus_index c.windows i }) []

-- `tinyisz_input_pointer_motion`.
pub pointer_motion : Context → Motion → Context × List Effect
unfolding follow_mouse window_at
pointer_motion c m =
    let c' = move_pointer c m in
    follow_mouse c' (window_at c'.windows.wins c'.pointer_x c'.pointer_y)

-- `tinyisz_ctx_add_output`; TINYISZ_MAX_OUTPUTS is 8.
pub add_output : Context → ℕ → Context × List Effect
add_output c out =
    let (l, told) = apply c.layout c.windows c.seat (some out) in
    if leb 8 (length c.outputs)
    then (c, [])
    else if length c.outputs == 0
    then (record c { outputs = out ∷ []; windows = l }, calls told ∷ [])
    else (record c { outputs = c.outputs ++ out ∷ [] }, [])

connect_on : Context → Option ℕ → Option ℕ → Context × List Effect
connect_on c created none = (c, [])
connect_on c created (some out) =
    let (fine, l, made) = add c.windows created out in retile (record c { windows = l }) made

-- `tinyisz_ctx_on_client_connect`, with what `isz_surface_create` returns.
pub client_connect : Context → Option ℕ → Context × List Effect
unfolding connect_on
client_connect c created = connect_on c created (first_output c.outputs)

-- `tinyisz_ctx_on_client_disconnect`.
pub client_disconnect : Context → Context × List Effect
client_disconnect c =
    let (l, made) = remove_focused c.windows in retile (record c { windows = l }) made

-- `tinyisz_ctx_destroy`.
pub tear_down : Context → Context × List Call
tear_down c = let (l, made) = destroy_all c.windows in (record c { windows = l }, made)
