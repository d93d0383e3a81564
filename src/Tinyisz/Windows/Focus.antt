-- ===== src/Tinyisz/Windows/Focus.antt =====
-- tinyisz/window.c: a list that is not empty has exactly one focused window, the one at the focused
-- index, after any sequence of operations.
use ishizue.Base.{
  ℕ, zero, suc, ◌≤◌, ◌<◌, ◌≡◌, refl, ◌∙◌, Bool, true, false, Option, none, some, ◌⊎◌, inl, inr,
  List, [], ◌∷◌, arith, leb, ◌==◌, if◌then◌else◌, if_cases, length,
}
use ishizue.Base.Int.{ℤ}
use ishizue.Tinyisz.Windows.{
  Window, WindowList, Call, max_windows, no_windows, clear_focus, set_focus, focus_index, add,
  add_created, compact, remove_focused, remove_index, cycle, destroy_all,
}

-- The `focused` flag at an index.
unfoldable pub flag : List Window → ℕ → Bool
flag [] k = false
flag (w ∷ ws) zero = w.focused
flag (w ∷ ws) (suc k) = flag ws k

-- The focused index is in the list, and the flag is set there and nowhere else.
pub record IsValid (l : WindowList) : Type 0 where
  pub bounded : length l.wins ≤ max_windows
  pub one_focus :
      (length l.wins ≡ 0) × (l.focused_index ≡ none)
      ⊎ (i : ℕ) × (i < length l.wins)
        × (l.focused_index ≡ some i)
        × ((k : ℕ) → flag l.wins k ≡ (k == i))

length-clear_focus : (ws : List Window) → length (clear_focus ws) ≡ length ws
unfolding clear_focus
length-clear_focus [] = refl
length-clear_focus (w ∷ ws) = omega (arith, length-clear_focus ws)

length-set_focus : (ws : List Window) (i : ℕ) → length (set_focus ws i) ≡ length ws
unfolding set_focus
length-set_focus [] i = refl
length-set_focus (w ∷ ws) zero = refl
length-set_focus (w ∷ ws) (suc i) = omega (arith, length-set_focus ws i)

flag-clear_focus : (ws : List Window) (k : ℕ) → flag (clear_focus ws) k ≡ false
unfolding clear_focus flag
flag-clear_focus [] k = refl
flag-clear_focus (w ∷ ws) zero = refl
flag-clear_focus (w ∷ ws) (suc k) = flag-clear_focus ws k

flag-set_focus :
    (ws : List Window) (i k : ℕ)
    → i < length ws
    → flag (set_focus ws i) k ≡ (if k == i then true else flag ws k)
unfolding set_focus flag
flag-set_focus [] i k h = absurd (omega arith)
flag-set_focus (w ∷ ws) zero zero h = refl
flag-set_focus (w ∷ ws) zero (suc k) h = ground arith
flag-set_focus (w ∷ ws) (suc i) zero h = ground arith
flag-set_focus (w ∷ ws) (suc i) (suc k) h = ground (arith, flag-set_focus ws i k)

-- The one place where the focus moves.
moved-IsValid :
    (ws : List Window) (j : ℕ)
    → length ws ≤ max_windows
    → j < length ws
    → IsValid (record { wins = set_focus (clear_focus ws) j; focused_index = some j })
moved-IsValid ws j b h =
    let n : length (set_focus (clear_focus ws) j) ≡ length ws =
      length-set_focus (clear_focus ws) j ∙ length-clear_focus ws in
    record {
      bounded = omega (arith, n);
      one_focus = inr (
        j,
        omega (arith, n),
        refl,
        λ k. ground (
          arith,
          flag-set_focus (clear_focus ws) j k,
          flag-clear_focus ws k,
          length-clear_focus ws,
        ),
      );
    }

focus_index-IsValid :
    (l : WindowList) (i : ℕ) → length l.wins ≤ max_windows → IsValid (focus_index l i)
unfolding focus_index
focus_index-IsValid l i b =
    if_cases IsValid (length l.wins == 0)
      (λ e. record { bounded = b; one_focus = inl (ground arith, refl) })
      (λ e. moved-IsValid l.wins _ b (ground arith))

length-compact : (ws : List Window) (i : ℕ) → length (compact ws i) ≤ length ws
unfolding compact
length-compact [] i = omega arith
length-compact (w ∷ ws) zero = omega arith
length-compact (w ∷ ws) (suc i) = omega (arith, length-compact ws i)

-- An operation of the window list.
pub data Op : Type 0 where
  adds : Option ℕ → ℕ → Op
  removes destroys : Op
  focuses : ℕ → Op
  cycles : ℤ → Op

abbrev pub step : WindowList → Op → WindowList
step l (adds created out) = (add l created out).1
step l removes = (remove_focused l).0
step l destroys = (destroy_all l).0
step l (focuses i) = focus_index l i
step l (cycles dir) = cycle l dir

unfoldable pub run : WindowList → List Op → WindowList
run l [] = l
run l (op ∷ ops) = run (step l op) ops

abbrev Valid1 : Bool × WindowList × List Call → Type 0
Valid1 r = IsValid r.1

abbrev Valid0 : WindowList × List Call → Type 0
Valid0 r = IsValid r.0

pub nothing-IsValid : IsValid no_windows
nothing-IsValid = record { bounded = omega arith; one_focus = inl (refl, refl) }

add_created-IsValid :
    (l : WindowList) (out : ℕ) (s : Option ℕ)
    → IsValid l
    → length l.wins < max_windows
    → Valid1 (add_created l out s)
unfolding add_created
add_created-IsValid l out none v h = v
add_created-IsValid l out (some s) v h = focus_index-IsValid _ 0 h

add-IsValid : (l : WindowList) (s : Option ℕ) (out : ℕ) → IsValid l → Valid1 (add l s out)
unfolding add
add-IsValid l s out v =
    if_cases Valid1 (leb max_windows (length l.wins)) (λ _. v)
      (λ e. add_created-IsValid l out s v (ground arith))

remove_index-IsValid : (l : WindowList) (fi : Option ℕ) → IsValid l → Valid0 (remove_index l fi)
unfolding remove_index
remove_index-IsValid l none v = v
remove_index-IsValid l (some fi) v =
    if_cases Valid0 (length l.wins == 0) (λ _. v)
      (λ _. focus_index-IsValid _ 0 (omega (arith, length-compact l.wins fi, v.bounded)))

pub step-IsValid : (l : WindowList) (op : Op) → IsValid l → IsValid (step l op)
unfolding cycle destroy_all remove_focused
step-IsValid l (adds s out) v = add-IsValid l s out v
step-IsValid l removes v = remove_index-IsValid l l.focused_index v
step-IsValid l destroys v = nothing-IsValid
step-IsValid l (focuses i) v = focus_index-IsValid l i v.bounded
step-IsValid l (cycles dir) v =
    if_cases IsValid (length l.wins == 0) (λ _. v) (λ _. focus_index-IsValid l _ v.bounded)

run_from : (l : WindowList) (ops : List Op) → IsValid l → IsValid (run l ops)
unfolding run
run_from l [] v = v
run_from l (op ∷ ops) v = run_from (step l op) ops (step-IsValid l op v)

-- After any sequence of operations from the empty list there are at most 32 windows; an empty list
-- has no focused index, and otherwise exactly the window at the focused index is marked focused.
pub run-IsValid : (ops : List Op) → IsValid (run no_windows ops)
run-IsValid ops = run_from no_windows ops nothing-IsValid
