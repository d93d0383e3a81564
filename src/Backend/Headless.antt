-- ===== src/Backend/Headless.antt =====
-- src/backend/isz_headless.c: the backend without a screen, its outputs and its configuration. What
-- `strtoul` makes of an environment variable is an argument; the hook is the list of what it is told.
pub mod Outputs
pub mod Ready
use ishizue.Base.{
  ℕ, zero, suc, ◌+◌, ◌*◌, ◌-◌, ◌^◌, ◌%◌, Bool, true, false, ◌||◌, Option, none, some, List, [], ◌∷◌,
  ◌++◌, ltb, leb, ◌==◌, if◌then◌else◌, length, map,
}
use ishizue.Status.{Status, status_ok, no_memory, invalid_arg}
use ishizue.Backend.{
  BackendState, uninitialized, ready, committing, error, Backend, Ops, finish_commit,
}

-- `struct isz_headless_output`; its name is made from the id.
pub record HeadlessOutput : Type 0 where
  pub id : ℕ
  pub width : ℕ
  pub height : ℕ
  pub refresh_mhz : ℕ
  pub enabled : Bool

-- What the hook is told: an output, and whether it was added.
pub record HookCall : Type 0 where
  pub about : HeadlessOutput
  pub added : Bool

-- `struct isz_headless_state`, and the calls of the hook so far.
pub record Headless : Type 0 where
  pub outputs : List HeadlessOutput
  pub output_cap : ℕ
  pub next_id : ℕ
  pub def_width : ℕ
  pub def_height : ℕ
  pub def_refresh_mhz : ℕ
  pub hooked : Bool
  pub hook_calls : List HookCall

-- `parse_u32_env`: the number that the whole of a variable's text stands for, if there is one.
abbrev pub parse_u32_env : Option ℕ → ℕ → ℕ
parse_u32_env none def = def
parse_u32_env (some v) def = if v == 0 || ltb (2 ^ 32 - 1) v then def else v

abbrev fire_hook : Headless → HeadlessOutput → Bool → Headless
fire_hook st o added = record st {
  hook_calls =
      if st.hooked
      then st.hook_calls ++ record { about = o; added = added } ∷ []
      else st.hook_calls;
}

-- The doubling of the array; one turn for each output that is needed is enough.
pub enough_cap : ℕ → ℕ → ℕ → ℕ
enough_cap zero cap need = cap
enough_cap (suc fuel) cap need =
    let rest = enough_cap fuel (cap * 2) need in if ltb cap need then rest else cap

-- `ensure_capacity`.
pub ensure_capacity : Headless → Bool → ℕ → Status × Headless
unfolding enough_cap
ensure_capacity st realloc_ok need =
    let first = if st.output_cap == 0 then 4 else st.output_cap * 2 in
    if leb need st.output_cap
    then (status_ok, st)
    else if realloc_ok
    then (status_ok, record st { output_cap = enough_cap need first need })
    else (no_memory, st)

-- The output behind `calloc`.
add_output : Headless → Bool → ℕ → ℕ → ℕ → Status × Headless
add_output st calloc_ok width height refresh_mhz =
    let o : HeadlessOutput = record {
      id = (st.next_id + 1) % 2 ^ 32;
      width = width;
      height = height;
      refresh_mhz = refresh_mhz;
      enabled = false;
    } in
    if calloc_ok
    then (
      status_ok,
      fire_hook (record st { next_id = o.id; outputs = st.outputs ++ o ∷ [] }) o true,
    )
    else (no_memory, st)

append_with : Status × Headless → Bool → ℕ → ℕ → ℕ → Status × Headless
unfolding add_output
append_with (status_ok, st) calloc_ok width height refresh_mhz =
    add_output st calloc_ok width height refresh_mhz
append_with r calloc_ok width height refresh_mhz = r

-- `append_output`.
pub append_output : Headless → Bool → Bool → ℕ → ℕ → ℕ → Status × Headless
unfolding ensure_capacity append_with
append_output st realloc_ok calloc_ok width height refresh_mhz =
    append_with (ensure_capacity st realloc_ok (length st.outputs + 1)) calloc_ok width height
      refresh_mhz

-- A field of the configuration where 0 means that it is not set, over a default.
abbrev pub or_default : ℕ → ℕ → ℕ
or_default v def = if v == 0 then def else v

-- `isz_headless_config`, where NULL is all zeros, the environment's three variables, and what the
-- allocations say.
pub record Setup : Type 0 where
  pub width : ℕ
  pub height : ℕ
  pub refresh_rate : ℕ
  pub env_width : Option ℕ
  pub env_height : Option ℕ
  pub env_refresh : Option ℕ
  pub state_ok : Bool
  pub realloc_ok : Bool
  pub output_ok : Bool

-- ISZ_HEADLESS_DEFAULT_WIDTH, _HEIGHT and _REFRESH below the configuration and the environment.
pub initial : Setup → Headless
initial c = record {
  outputs = [];
  output_cap = 0;
  next_id = 0;
  def_width = parse_u32_env c.env_width (or_default c.width 1024);
  def_height = parse_u32_env c.env_height (or_default c.height 768);
  def_refresh_mhz = parse_u32_env c.env_refresh (or_default c.refresh_rate 60000);
  hooked = false;
  hook_calls = [];
}

-- The private state, or NULL.
abbrev pub Impl : Type 0
Impl = Option Headless

with_first : Backend Impl → Status × Headless → Status × Backend Impl
with_first b (status_ok, st) = (status_ok, record b { impl = some st })
with_first b (s, st) = (s, record b { impl = none })

-- `isz_headless_init`.
headless_init : Setup → Backend Impl → Status × Backend Impl
unfolding initial with_first append_output
headless_init c b =
    let st = initial c in
    if c.state_ok
    then with_first b
        (append_output st c.realloc_ok c.output_ok st.def_width st.def_height st.def_refresh_mhz)
    else (no_memory, b)

-- `isz_headless_commit`.
headless_commit : Backend Impl → ℕ → ℕ → Status × Backend Impl
headless_commit b out flags = (status_ok, finish_commit b)

-- `isz_headless_ops`; `isz_headless_read_events` does nothing.
unfoldable pub headless_ops : Setup → Ops Impl
unfolding headless_init headless_commit
headless_ops c = record {
  init = headless_init c;
  commit_op = headless_commit;
  read_events_op = λ b. (status_ok, b);
}

-- The hook calls of `isz_headless_destroy`.
pub destroy_headless : Impl → List HookCall
destroy_headless none = []
destroy_headless (some st) =
    st.hook_calls
    ++ (if st.hooked then map (λ o. record { about = o; added = false }) st.outputs else [])

-- `isz_headless_set_output_hook`, for a hook or NULL.
pub set_output_hook : Impl → Bool → Impl
set_output_hook none hooked = none
set_output_hook (some st) hooked = some (record st { hooked = hooked })

-- `isz_headless_simulate_output_hotplug`.
pub simulate_output_hotplug : Impl → Bool → Bool → ℕ → ℕ → Status × Impl
unfolding append_output
simulate_output_hotplug none realloc_ok calloc_ok width height = (invalid_arg, none)
simulate_output_hotplug (some st) realloc_ok calloc_ok width height =
    let r = append_output st realloc_ok calloc_ok width height st.def_refresh_mhz in
    if width == 0 || height == 0 then (invalid_arg, some st) else (r.0, some r.1)
