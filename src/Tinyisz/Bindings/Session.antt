-- ===== src/Tinyisz/Bindings/Session.antt =====
-- tinyisz/input.c: whatever happens, the windows stay well formed, the master's ratio within its
-- bounds and the pointer on the output.
use ishizue.Base.{
  ℕ, zero, suc, refl, Bool, Option, none, some, List, [], ◌∷◌, arith, leb, ◌==◌, if_cases, length,
}
use ishizue.Base.Int.{ℤ, pos, negsuc}
use ishizue.Tinyisz.Windows.{add, remove_focused}
use ishizue.Tinyisz.Windows.Focus.{adds, removes, nothing-IsValid}
use ishizue.Tinyisz.Layout.Focus.{apply-IsValid}
use ishizue.Tinyisz.Bindings.{
  KeyCodes, Context, start, handle_key, first_output, set_modifiers, Motion, move_pointer,
  pointer_motion, add_output, connect_on, client_connect, client_disconnect,
}
use ishizue.Tinyisz.Bindings.Steps.{
  IsValid, InExtent, Valid0, with_windows, windows_step, handle_key-IsValid, move_pointer-IsValid,
  follow_mouse-IsValid,
}

pointer_motion-IsValid : (c : Context) (m : Motion) → IsValid c → Valid0 (pointer_motion c m)
unfolding pointer_motion
pointer_motion-IsValid c m v =
    follow_mouse-IsValid (move_pointer c m) _ (move_pointer-IsValid c m v)

with_outputs : (c : Context) (outs : List ℕ) → IsValid c → IsValid (record c { outputs = outs })
with_outputs c outs v = record {
  windows_valid = v.windows_valid;
  ratio_min = v.ratio_min;
  ratio_max = v.ratio_max;
  x_in = v.x_in;
  y_in = v.y_in;
}

add_output-IsValid : (c : Context) (out : ℕ) → IsValid c → Valid0 (add_output c out)
unfolding add_output
add_output-IsValid c out v =
    if_cases Valid0 (leb 8 (length c.outputs)) (λ _. v)
      (λ _.
        if_cases Valid0 (length c.outputs == 0)
          (λ _. with_outputs _ (out ∷ []) (
            with_windows c _ v
              (apply-IsValid c.layout c.windows c.seat (some out) v.windows_valid)))
          (λ _. with_outputs c _ v))

connect_on-IsValid :
    (c : Context) (created out : Option ℕ) → IsValid c → Valid0 (connect_on c created out)
unfolding connect_on
connect_on-IsValid c created none v = v
connect_on-IsValid c created (some out) v =
    windows_step c (adds created out) (add c.windows created out).2 v

-- What the main loop hands to the window manager.
pub data Event : Type 0 where
  key : ℕ → Bool → Event
  modifiers : ℕ → ℕ → ℕ → Event
  motion : Motion → Event
  output : ℕ → Event
  connects : Option ℕ → Event
  disconnects : Event

abbrev pub handle : KeyCodes → Context → Event → Context
handle k c (key code press) = (handle_key k c code press).0
handle k c (modifiers d l lk) = set_modifiers c d l lk
handle k c (motion m) = (pointer_motion c m).0
handle k c (output out) = (add_output c out).0
handle k c (connects created) = (client_connect c created).0
handle k c disconnects = (client_disconnect c).0

pub run : KeyCodes → Context → List Event → Context
run k c [] = c
run k c (e ∷ es) = run k (handle k c e) es

handle-IsValid : (k : KeyCodes) (c : Context) (e : Event) → IsValid c → IsValid (handle k c e)
unfolding set_modifiers client_connect client_disconnect
handle-IsValid k c (key code press) v = handle_key-IsValid k c code press v
handle-IsValid k c (modifiers d l lk) v = record {
  windows_valid = v.windows_valid;
  ratio_min = v.ratio_min;
  ratio_max = v.ratio_max;
  x_in = v.x_in;
  y_in = v.y_in;
}
handle-IsValid k c (motion m) v = pointer_motion-IsValid c m v
handle-IsValid k c (output out) v = add_output-IsValid c out v
handle-IsValid k c (connects created) v = connect_on-IsValid c created (first_output c.outputs) v
handle-IsValid k c disconnects v = windows_step c removes (remove_focused c.windows).1 v

run_from : (k : KeyCodes) (c : Context) (es : List Event) → IsValid c → IsValid (run k c es)
unfolding run
run_from k c [] v = v
run_from k c (e ∷ es) v = run_from k (handle k c e) es (handle-IsValid k c e v)

start-IsValid : (seat : Bool) (w h : ℤ) → IsValid (start seat w h)
unfolding start
start-IsValid seat w h = record {
  windows_valid = nothing-IsValid;
  ratio_min = omega arith;
  ratio_max = omega arith;
  x_in = origin w;
  y_in = origin h;
}
  where
    origin : (n : ℤ) → InExtent n (pos 0)
    origin (pos zero) = tt
    origin (pos (suc n)) = (0, refl, omega arith)
    origin (negsuc n) = tt

-- After any sequence of keys, pointer motions, outputs and clients from the start: at most 32
-- windows, exactly the one at the focused index focused, the master's ratio between 20 and 80
-- percent, and the pointer on the output, where this has a size.
pub run-start-IsValid :
    (k : KeyCodes) (seat : Bool) (w h : ℤ) (es : List Event) → IsValid (run k (start seat w h) es)
run-start-IsValid k seat w h es = run_from k (start seat w h) es (start-IsValid seat w h)
