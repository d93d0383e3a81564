-- ===== src/Render/Commit/Tests.antt =====
-- src/render/isz_commit.c at concrete inputs: a surface on output 1 with its buffer and slot 3, a
-- backend that accepts and one that refuses.
use ishizue.Base.{ℕ, ◌≡◌, refl, true, false, some, none, List, [], ◌∷◌, arith}
use ishizue.Status.{status_ok, commit_failed, commit_pending}
use ishizue.Backend.{Backend, Ops, ready, committing, commit_backend}
use ishizue.Render.Slots.{
  PlaneSlot, Reservation, resv_clear, held_by, holder_of, assign, slot_get, resv_find,
}
use ishizue.Base.Int.{pos}
use ishizue.Render.Surfaces.{Surface, World}
use ishizue.Render.Surfaces.Operations.{blank}
use ishizue.Render.Surfaces.Run.{empty_world}
use ishizue.Render.Commit.{
  Output, commit, reserve, validate_surface, rollback, on_output, clear_damage, presented,
}
use ishizue.Render.Commit.Laws.{Commits, commit-Commits}

abbrev slots : List PlaneSlot
slots = record { id = 3; plane_type = 0; formats = 7 ∷ []; supports_transform = false } ∷ []

abbrev surface : Surface
surface = record (blank 1) {
  output = some 1;
  plane_type_set = true;
  plane_slot = 3;
  plane_slot_set = true;
  damage = record { x1 = pos 0; y1 = pos 0; x2 = pos 8; y2 = pos 8 } ∷ [];
  damage_cap = 8;
}

abbrev out : Output
out = record { id = 1; disconnected = false; slots = slots }

abbrev world : World
world = record empty_world { surfaces = surface ∷ [] }

abbrev backend : Backend ℕ
backend = record { state = ready; last_error = status_ok; impl = 0 }

abbrev accepting : Ops ℕ
accepting = record {
  init = λ b. (status_ok, b);
  commit_op = λ b o f. (status_ok, b);
  read_events_op = λ b. (status_ok, b);
}

abbrev refusing : Ops ℕ
refusing = record accepting { commit_op = λ b o f. (commit_failed, b) }

abbrev held : List Reservation
held = record { out = 1; slot_id = 3; holder = 1 } ∷ []

commit_outcomes :
    ((commit world accepting backend out 0 true).status ≡ status_ok)
    × ((commit world accepting backend out 0 true).world.resv ≡ held)
    × ((commit world refusing backend out 0 true).status ≡ commit_failed)
    × ((commit world refusing backend out 0 true).world.resv ≡ [])
    × ((commit world accepting (record backend { state = committing }) out 0 true).status
        ≡ commit_pending)
unfolding commit reserve validate_surface rollback on_output clear_damage presented resv_clear
    held_by holder_of assign slot_get resv_find commit_backend
commit_outcomes = (refl, refl, refl, refl, refl)

commit-Commits_example :
    Commits world refusing backend out 0 (commit world refusing backend out 0 true)
commit-Commits_example = commit-Commits world refusing backend out 0 true (omega arith, tt)

distinct : holder_of 1 3 [] ≡ none
unfolding holder_of
distinct = refl
