-- ===== src/Tinyisz/Windows.antt =====
-- tinyisz/window.h and window.c: the window list. Index 0 is the master. A surface and an output
-- are numbers; the calls that go to the library are recorded, in order.
pub mod Focus
pub mod Cycle
use ishizue.Base.{
  ℕ, zero, suc, ◌+◌, ◌-◌, ◌%◌, Bool, true, false, ◌&&◌, Option, none, some, List, [], ◌∷◌, ltb, leb,
  ◌==◌, if◌then◌else◌, length, get_elem?,
}
use ishizue.Base.Int.{ℤ, pos, negsuc}

-- TINYISZ_MAX_WINDOWS.
abbrev pub max_windows : ℕ
max_windows = 32

-- `struct tinyisz_window`. The layout never stores a negative number here.
pub record Window : Type 0 where
  pub surf : ℕ
  pub out : ℕ
  pub x : ℕ
  pub y : ℕ
  pub w : ℕ
  pub h : ℕ
  pub zpos : ℕ
  pub focused : Bool

-- `struct tinyisz_window_list`: `wins[0 .. count)`, and `none` for a focused index of -1.
pub record WindowList : Type 0 where
  pub wins : List Window
  pub focused_index : Option ℕ

-- The library's calls.
pub data Call : Type 0 where
  set_plane_type set_plane_slot : ℕ → ℕ → Call
  set_output : ℕ → ℕ → Call
  set_position set_size : ℕ → ℕ → ℕ → Call
  set_zpos : ℕ → ℕ → Call
  destroy : ℕ → Call
  set_keyboard_focus : Option ℕ → Call
  commit : ℕ → Call

-- `tinyisz_wins_init`.
abbrev pub no_windows : WindowList
no_windows = record { wins = []; focused_index = none }

-- The loop that clears every `focused`, and the store behind it.
unfoldable pub clear_focus : List Window → List Window
clear_focus [] = []
clear_focus (w ∷ ws) = record w { focused = false } ∷ clear_focus ws

unfoldable pub set_focus : List Window → ℕ → List Window
set_focus [] i = []
set_focus (w ∷ ws) zero = record w { focused = true } ∷ ws
set_focus (w ∷ ws) (suc i) = w ∷ set_focus ws i

-- `tinyisz_wins_focus_index`.
unfoldable pub focus_index : WindowList → ℕ → WindowList
unfolding clear_focus set_focus
focus_index l i =
    let n = length l.wins in
    let j = if leb n i then n - 1 else i in
    if n == 0
    then record l { focused_index = none }
    else record { wins = set_focus (clear_focus l.wins) j; focused_index = some j }

-- The new window goes to the front, and is focused. ISZ_PLANE_PRIMARY is 0.
add_created : WindowList → ℕ → Option ℕ → Bool × WindowList × List Call
add_created l out none = (false, l, [])
add_created l out (some s) = (
  true,
  focus_index
      (record l {
        wins =
            record { surf = s; out = out; x = 0; y = 0; w = 0; h = 0; zpos = 0; focused = false }
            ∷ l.wins;
      })
      0,
  set_plane_type s 0 ∷ set_plane_slot s 0 ∷ set_output s out ∷ [],
)

-- `tinyisz_wins_add`, with what `isz_surface_create` returns: whether it succeeded, the list and
-- the library's calls.
unfoldable pub add : WindowList → Option ℕ → ℕ → Bool × WindowList × List Call
unfolding add_created
add l created out =
    if leb max_windows (length l.wins) then (false, l, []) else add_created l out created

-- The later entries shift down over index `i`.
unfoldable pub compact : List Window → ℕ → List Window
compact [] i = []
compact (w ∷ ws) zero = ws
compact (w ∷ ws) (suc i) = w ∷ compact ws i

pub destroyed : Option Window → List Call
destroyed none = []
destroyed (some w) = destroy w.surf ∷ []

remove_index : WindowList → Option ℕ → WindowList × List Call
unfolding compact destroyed
remove_index l none = (l, [])
remove_index l (some fi) = if length l.wins == 0 then (l, []) else (
  focus_index (record { wins = compact l.wins fi; focused_index = none }) 0,
  destroyed (get_elem? l.wins fi),
)

-- `tinyisz_wins_remove_focused`.
unfoldable pub remove_focused : WindowList → WindowList × List Call
unfolding remove_index
remove_focused l = remove_index l l.focused_index

-- `tinyisz_wins_focused`.
pub focused_window : WindowList → Option Window
focused_window l = elim l.focused_index [
  | none ↦ none
  | some i ↦ if leb (length l.wins) i then none else get_elem? l.wins i
]

-- `cur + dir`, and the loop that adds `count` while the sum is negative. Each turn adds one at
-- least, so that -(m + 1) is gone after m + 1 turns.
add_dir : ℕ → ℤ → ℤ
add_dir cur (pos d) = pos (cur + d)
add_dir cur (negsuc d) = if ltb d cur then pos (cur - (d + 1)) else negsuc (d - cur)

pub raise : ℕ → ℕ → ℤ → ℕ
raise fuel count (pos n) = n
raise zero count (negsuc m) = 0
raise (suc fuel) count (negsuc m) =
    raise fuel count (if ltb m count then pos (count - (m + 1)) else negsuc (m - count))

next_index : ℕ → ℕ → ℤ → ℕ
unfolding add_dir raise
next_index count cur dir = elim (add_dir cur dir) [
  | pos n ↦ n % count
  | negsuc m ↦ raise (m + 1) count (negsuc m) % count
]

abbrev or_zero : Option ℕ → ℕ
or_zero none = 0
or_zero (some i) = i

-- `tinyisz_wins_cycle`.
unfoldable pub cycle : WindowList → ℤ → WindowList
unfolding next_index
cycle l dir =
    if length l.wins == 0
    then l
    else focus_index l (next_index (length l.wins) (or_zero l.focused_index) dir)

-- Whether a point lies in a window: [x, x + w) by [y, y + h).
unfoldable pub contains : Window → ℤ → ℤ → Bool
contains w (pos px) (pos py) =
    leb w.x px && (ltb px (w.x + w.w) && (leb w.y py && ltb py (w.y + w.h)))
contains w px py = false

-- `tinyisz_wins_at_point`.
unfoldable pub at_point : List Window → ℤ → ℤ → Option Window
at_point [] px py = none
at_point (w ∷ ws) px py = if contains w px py then some w else at_point ws px py

pub destroy_wins : List Window → List Call
destroy_wins [] = []
destroy_wins (w ∷ ws) = destroy w.surf ∷ destroy_wins ws

-- `tinyisz_wins_destroy_all`.
pub destroy_all : WindowList → WindowList × List Call
unfolding destroy_wins
destroy_all l = (no_windows, destroy_wins l.wins)
