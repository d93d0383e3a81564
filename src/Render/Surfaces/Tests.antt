-- ===== src/Render/Surfaces/Tests.antt =====
-- src/render/isz_surface.c at concrete inputs: two surfaces that inhibit idle on output 5, with
-- buffers that come and go.
use ishizue.Base.{◌≡◌, refl, true, some, List, [], ◌∷◌, arith, replicate, length}
use ishizue.Base.Int.{pos}
use ishizue.Status.{status_ok, resource_limit}
use ishizue.Render.Buffers.{Desc, import_buffer, let_go}
use ishizue.Render.Surfaces.{Rect, Surface, World, find, update, remove, inhibit_adjust}
use ishizue.Render.Surfaces.Operations.{
  blank, create_with, destroy, attach, detach, set_output, set_idle_inhibit,
}
use ishizue.Render.Surfaces.Setters.{damage_surface}
use ishizue.Render.Surfaces.Damage.{Damages, damage_surface-Damages}
use ishizue.Render.Surfaces.Run.{
  Op, run, empty_world, creates, attaches, detaches, destroys, sets_output, sets_idle_inhibit,
}
use ishizue.Render.Surfaces.Inhibit.{IsCounted}
use ishizue.Render.Surfaces.Inhibit.Session.{run-IsCounted}
use ishizue.Render.Surfaces.References.{IsOwned}
use ishizue.Render.Surfaces.References.Session.{run-IsOwned}

abbrev desc : Desc
desc = record {
  width = 640;
  height = 480;
  stride = 2560;
  offset = 0;
  format = 875713112;
  modifier = 0;
  alpha_mode = 0;
}

abbrev script : List Op
script =
    creates
    ∷ creates
    ∷ sets_output 1 5
    ∷ sets_output 2 5
    ∷ sets_idle_inhibit 1 true
    ∷ sets_idle_inhibit 2 true
    ∷ attaches 1 true (some 10) (some desc)
    ∷ attaches 1 true (some 11) (some desc)
    ∷ attaches 1 true (some 12) (some desc)
    ∷ attaches 2 true (some 13) (some desc)
    ∷ detaches 2
    ∷ destroys 1
    ∷ []

run-script :
    ((run empty_world script).inhibit_count 5 ≡ pos 1)
    × (length (run empty_world script).events ≡ 1)
    × ((run empty_world script).heap.closed ≡ 10 ∷ 13 ∷ 12 ∷ 11 ∷ [])
unfolding run destroy attach detach set_output set_idle_inhibit create_with find update remove
    inhibit_adjust import_buffer let_go
run-script = (refl, refl, refl)

run-IsCounted_example : IsCounted (run empty_world script)
run-IsCounted_example = run-IsCounted script

run-IsOwned_example : IsOwned (run empty_world script)
run-IsOwned_example = run-IsOwned script

abbrev corner : Rect
corner = record { x1 = pos 0; y1 = pos 0; x2 = pos 8; y2 = pos 8 }

abbrev damaged : Surface
damaged = record (blank 1) { damage = replicate 250 corner; damage_cap = 256 }

abbrev world : World
world = record empty_world { surfaces = damaged ∷ [] }

abbrev seven : List Rect
seven = replicate 7 corner

damage_outcomes :
    ((damage_surface world 1 true seven).0 ≡ resource_limit)
    × ((damage_surface world 1 true (corner ∷ [])).0 ≡ status_ok)
unfolding damage_surface find
damage_outcomes = (refl, refl)

damaged_found : find 1 world.surfaces ≡ some damaged
unfolding find
damaged_found = refl

damage_surface-Damages_example : Damages world 1 damaged seven (damage_surface world 1 true seven)
damage_surface-Damages_example =
    damage_surface-Damages world 1 damaged true seven damaged_found (omega arith, omega arith)
