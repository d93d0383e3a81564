-- ===== src/Backend/Tests.antt =====
-- src/backend/isz_backend.c and src/backend/isz_headless.c at concrete inputs.
use ishizue.Base.{◌≡◌, refl, true, false, some, none, List, [], ◌∷◌}
use ishizue.Status.{status_ok, drm_master}
use ishizue.Backend.{ready, error, Backend, create_backend, commit_backend}
use ishizue.Backend.States.{IsValid}
use ishizue.Backend.Session.{Call, commits, reads_events, run_calls}
use ishizue.Backend.Headless.{Headless, HeadlessOutput, Setup, Impl, headless_ops}
use ishizue.Backend.Headless.Ready.{run_calls-ready}

abbrev setup : Setup
setup = record {
  width = 0;
  height = 600;
  refresh_rate = 0;
  env_width = some 800;
  env_height = none;
  env_refresh = none;
  state_ok = true;
  realloc_ok = true;
  output_ok = true;
}

abbrev sample_output : HeadlessOutput
sample_output = record { id = 1; width = 800; height = 600; refresh_mhz = 60000; enabled = false }

abbrev state : Headless
state = record {
  outputs = sample_output ∷ [];
  output_cap = 4;
  next_id = 1;
  def_width = 800;
  def_height = 600;
  def_refresh_mhz = 60000;
  hooked = true;
  hook_calls = [];
}

abbrev backend : Backend Impl
backend = record {
  state = ready;
  last_error = status_ok;
  impl = some (record state { hooked = false });
}

created_backend : create_backend (headless_ops setup) true none ≡ some backend
unfolding create_backend headless_ops
created_backend = refl

calls : List Call
calls = commits 1 0 ∷ reads_events ∷ commits 2 1 ∷ []

run_calls-ready_example :
    ((run_calls (headless_ops setup) backend calls).state ≡ ready)
    × (commit_backend (headless_ops setup) (run_calls (headless_ops setup) backend calls) 1 0
        ≡ (status_ok, run_calls (headless_ops setup) backend calls))
run_calls-ready_example = run_calls-ready setup true backend calls 1 0 created_backend

backend-IsValid : IsValid backend
backend-IsValid = record { started = λ e. cc; on_record = λ e. cc }

-- A backend that has lost the display.
abbrev lost : Backend Impl
lost = record backend { state = error; last_error = drm_master }

lost-IsValid : IsValid lost
lost-IsValid = record { started = λ e. cc; on_record = λ e k. cc }
