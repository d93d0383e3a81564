-- ===== src/Tinyisz/Tests.antt =====
-- tinyisz/window.c, layout.c and input.c at concrete inputs.
use ishizue.Base.{ℕ, ◌≡◌, refl, true, false, some, none, List, [], ◌∷◌, arith, map}
use ishizue.Base.Int.{pos, negsuc}
use ishizue.Tinyisz.Windows.{
  Window, no_windows, add, remove_focused, cycle, focus_index, clear_focus, set_focus, compact,
  at_point, contains,
}
use ishizue.Tinyisz.Windows.Focus.{Op, adds, removes, cycles, run}
use ishizue.Tinyisz.Layout.{apply}
use ishizue.Tinyisz.Layout.Tiling.{hits, apply-tiles}
use ishizue.Tinyisz.Bindings.{KeyCodes, start, relative}
use ishizue.Tinyisz.Bindings.Steps
use ishizue.Tinyisz.Bindings.Session
use ishizue.Tinyisz.Bindings.Session.{
  key, modifiers, motion, output, connects, disconnects, run-start-IsValid,
}

abbrev window : ℕ → Window
window s = record { surf = s; out = 0; x = 0; y = 0; w = 0; h = 0; zpos = 0; focused = false }

-- Three windows, the focus moves back over the front to the last, which is then removed.
abbrev script : List Op
script =
    adds (some 5) 0
    ∷ adds (some 6) 0
    ∷ adds none 0
    ∷ adds (some 7) 0
    ∷ cycles (negsuc 0)
    ∷ removes
    ∷ []

run-script :
    let l = run no_windows script in
    (map (λ w. w.surf) l.wins ≡ 7 ∷ 6 ∷ []) × (l.focused_index ≡ some 0)
unfolding run add remove_focused cycle focus_index clear_focus set_focus compact
run-script = (refl, refl)

apply-tiles_example :
    let wins =
      (apply
        (record { output_w = pos 100; output_h = pos 50; master_ratio_pct = 60 })
        (record { wins = window 5 ∷ window 6 ∷ window 7 ∷ []; focused_index = some 0 })
        true
        (some 1)).0.wins in
    (hits wins 70 30 ≡ 1)
    × (w : Window) × (at_point wins (pos 70) (pos 30) ≡ some w)
    × (contains w (pos 70) (pos 30) ≡ true)
apply-tiles_example =
    apply-tiles 100 50 60 70 30 (window 5) (window 6) (window 7 ∷ []) (some 0) true (some 1)
      (omega arith) (omega arith) (omega arith) (omega arith)

-- A keyboard, and a session with Super held: two clients, the focus cycles, the master grows, the
-- pointer leaves through the corner, and a client goes.
abbrev keyboard : KeyCodes
keyboard = record {
  key_q = 16;
  key_esc = 1;
  key_enter = 28;
  key_j = 36;
  key_k = 37;
  key_h = 35;
  key_l = 38;
  key_1 = 2;
  key_9 = 10;
}

abbrev session : List Session.Event
session =
    output 1
    ∷ connects (some 5)
    ∷ connects (some 6)
    ∷ modifiers 64 0 0
    ∷ key 36 true
    ∷ key 38 true
    ∷ motion (relative (negsuc 9) (pos 700))
    ∷ disconnects
    ∷ []

run-start-IsValid_example :
    Steps.IsValid (Session.run keyboard (start true (pos 640) (pos 480)) session)
run-start-IsValid_example = run-start-IsValid keyboard true (pos 640) (pos 480) session
