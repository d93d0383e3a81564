-- ===== src/Render/Surfaces.antt =====
-- src/render/isz_surface.c: the surfaces, and the idle inhibition of outputs that they add up to. A
-- surface is named by its serial; a pointer that is no surface's counts as NULL. An output is a
-- number. Serials and the inhibition count are unbounded.
pub mod Operations
pub mod Setters
pub mod Run
mod Tests
pub mod Damage
pub mod Lookups
pub mod Total
pub mod Inhibit
pub mod References
use ishizue.Base.{
  ℕ, zero, suc, Bool, true, false, Option, none, some, List, [], ◌∷◌, ◌++◌, ◌==◌, if◌then◌else◌,
}
use ishizue.Base.Int.{ℤ, pos, negsuc}
use ishizue.Render.Buffers.{Heap}
use ishizue.Render.Slots.{Reservation}

-- `enum isz_surface_kind`.
pub data SurfaceKind : Type 0 where
  normal subsurface popup layer_shell : SurfaceKind

-- `struct isz_rect`.
pub record Rect : Type 0 where
  pub x1 : ℤ
  pub y1 : ℤ
  pub x2 : ℤ
  pub y2 : ℤ

-- `struct isz_surface`, without its list nodes. The plane type and the plane slot (-1 in a new
-- surface) count only where their flag is set.
pub record Surface : Type 0 where
  pub serial : ℕ
  pub client_id : ℕ
  pub owned : Bool
  pub object_id : ℕ
  pub kind : SurfaceKind
  pub current : Option ℕ
  pub pending_release : Option ℕ
  pub damage : List Rect
  pub damage_cap : ℕ
  pub x : ℤ
  pub y : ℤ
  pub width : ℤ
  pub height : ℤ
  pub plane_type : ℕ
  pub plane_type_set : Bool
  pub plane_slot : ℕ
  pub plane_slot_set : Bool
  pub zpos : ℤ
  pub transform : ℕ
  pub output : Option ℕ
  pub parent : Option ℕ
  pub popup_x : ℤ
  pub popup_y : ℤ
  pub subsurface_flags : ℕ
  pub layer : ℕ
  pub idle_inhibit : Bool
  pub scale_numerator : ℕ
  pub scale_denominator : ℕ
  pub role : ℕ
  pub role_handle : ℕ

-- An ISZ_EVENT_IDLE_INHIBIT_ACTIVE or _INACTIVE; the wire message to the clients goes with it.
pub record IdleEvent : Type 0 where
  pub output : ℕ
  pub active : Bool

-- The surface list, the server's serial counter, the buffers, the plane slots that are reserved, the
-- outputs' `idle_inhibit_count`, and the idle events so far, the latest first.
pub record World : Type 0 where
  pub surfaces : List Surface
  pub next_serial : ℕ
  pub heap : Heap
  pub resv : List Reservation
  pub inhibit_count : ℕ → ℤ
  pub events : List IdleEvent

-- The surface behind a pointer, a store through it, and its removal from the list.
pub find : ℕ → List Surface → Option Surface
find serial [] = none
find serial (s ∷ ss) = if s.serial == serial then some s else find serial ss

pub update : ℕ → (Surface → Surface) → List Surface → List Surface
update serial f [] = []
update serial f (s ∷ ss) = if s.serial == serial then f s ∷ ss else s ∷ update serial f ss

pub remove : ℕ → List Surface → List Surface
remove serial [] = []
remove serial (s ∷ ss) = if s.serial == serial then ss else s ∷ remove serial ss

abbrev pub is_output : ℕ → Option ℕ → Bool
is_output out none = false
is_output out (some o) = o == out

-- A change by +1 (`true`) or -1.
abbrev pub adjusted : Bool → ℤ → ℤ
adjusted true (pos n) = pos (suc n)
adjusted true (negsuc zero) = pos 0
adjusted true (negsuc (suc n)) = negsuc n
adjusted false (pos zero) = negsuc 0
adjusted false (pos (suc n)) = pos n
adjusted false (negsuc n) = negsuc (suc n)

-- The event at a transition between 0 and a positive count.
abbrev pub transition : ℕ → ℤ → ℤ → List IdleEvent
transition out (pos zero) (pos (suc n)) = record { output = out; active = true } ∷ []
transition out (pos (suc n)) (pos zero) = record { output = out; active = false } ∷ []
transition out before after = []

-- `isz_surface_inhibit_adjust`.
pub inhibit_adjust : World → Option ℕ → Bool → World
inhibit_adjust w none up = w
inhibit_adjust w (some out) up =
    let before = w.inhibit_count out in
    let after = adjusted up before in
    record w {
      inhibit_count = λ o. if out == o then after else w.inhibit_count o;
      events = transition out before after ++ w.events;
    }
