-- ===== src/Backend/Headless/Outputs.antt =====
-- src/backend/isz_headless.c: the outputs are numbered from 1 in the order in which they appear, and
-- their array has room for them.
use ishizue.Base.{
  ℕ, zero, suc, ◌+◌, ◌*◌, ◌^◌, ◌%◌, ◌≤◌, ◌<◌, ◌≡◌, ◌⊎◌, refl, inl, inr, Bool, true, false, List, [],
  ◌∷◌, ◌++◌, arith, leb, ◌==◌, if◌then◌else◌, if_cases, length, length-append,
}
use ishizue.Status.{Status, status_ok, no_memory}
use ishizue.Backend.Headless.{
  HeadlessOutput, Headless, enough_cap, ensure_capacity, add_output, append_with, append_output,
  fire_hook,
}

enough_cap-enough :
    (fuel cap need : ℕ) → 0 < cap → need ≤ cap + fuel → need ≤ enough_cap fuel cap need
unfolding enough_cap
enough_cap-enough zero cap need p e = omega arith
enough_cap-enough (suc fuel) cap need p e = ground (arith, enough_cap-enough fuel (cap * 2) need)

-- The outputs are numbered from `n` on.
abbrev pub Numbered : ℕ → List HeadlessOutput → Type 0
Numbered n [] = Unit
Numbered n (o ∷ os) = (o.id ≡ n) × Numbered (n + 1) os

pub record IsValid (st : Headless) : Type 0 where
  pub numbered : Numbered 1 st.outputs
  pub counted : st.next_id ≡ length st.outputs
  pub room : length st.outputs ≤ st.output_cap

Numbered-append :
    (n : ℕ) (os : List HeadlessOutput) (o : HeadlessOutput)
    → Numbered n os
    → o.id ≡ n + length os
    → Numbered n (os ++ o ∷ [])
Numbered-append n [] o h e = (omega (arith, e), tt)
Numbered-append n (p ∷ os) o h e = (h.0, Numbered-append (n + 1) os o h.1 (omega (arith, e)))

-- What `append_output` does: a new output with the next number, of which the hook is told; or an
-- error, and the outputs and the hook's calls are as before.
abbrev pub Appends : Headless → ℕ → ℕ → ℕ → Status × Headless → Type 0
Appends st width height refresh_mhz (s, st') =
    let o : HeadlessOutput = record {
      id = length st.outputs + 1;
      width = width;
      height = height;
      refresh_mhz = refresh_mhz;
      enabled = false;
    } in
    IsValid st'
    × ((s ≡ status_ok)
          × (st'.outputs ≡ st.outputs ++ o ∷ [])
          × (st'.hook_calls ≡ (
              if st.hooked
              then st.hook_calls ++ record { about = o; added = true } ∷ []
              else st.hook_calls))
        ⊎ (s ≡ no_memory) × (st'.outputs ≡ st.outputs) × (st'.hook_calls ≡ st.hook_calls))

module _ (st : Headless) (calloc_ok : Bool) (width height refresh_mhz : ℕ) (v : IsValid st)
    (bound : length st.outputs + 1 < 2 ^ 32) where
  abbrev next_output : HeadlessOutput
  next_output = record {
    id = length st.outputs + 1;
    width = width;
    height = height;
    refresh_mhz = refresh_mhz;
    enabled = false;
  }

  next_is :
      (cap : ℕ)
      → length st.outputs + 1 ≤ cap
      → Appends st width height refresh_mhz (
        status_ok,
        fire_hook
            (record st {
              next_id = length st.outputs + 1;
              output_cap = cap;
              outputs = st.outputs ++ next_output ∷ [];
            })
            next_output
            true,
      )
  next_is cap r =
      let longer = length-append st.outputs (next_output ∷ []) in
      (
        record {
          numbered = Numbered-append 1 st.outputs next_output v.numbered (omega arith);
          counted = omega (arith, longer);
          room = omega (arith, longer, r);
        },
        inl (refl, refl, refl),
      )

  add_output-Appends :
      (cap : ℕ)
      → length st.outputs + 1 ≤ cap
      → Appends st width height refresh_mhz
          (add_output (record st { output_cap = cap }) calloc_ok width height refresh_mhz)
  unfolding add_output
  add_output-Appends cap r =
      if_cases (Appends st width height refresh_mhz) calloc_ok
        (λ _.
          let number : (st.next_id + 1) % 2 ^ 32 ≡ length st.outputs + 1 =
            ground (arith, v.counted, bound) in
          rw number (next_is cap r))
        (λ _. (
          record { numbered = v.numbered; counted = v.counted; room = omega (arith, r) },
          inr (refl, refl, refl),
        ))

-- `append_output` on outputs that are numbered and fit their array, below 2^32 outputs.
pub append_output-Appends :
    (st : Headless) (realloc_ok calloc_ok : Bool) (width height refresh_mhz : ℕ)
    → IsValid st
    → length st.outputs + 1 < 2 ^ 32
    → Appends st width height refresh_mhz
        (append_output st realloc_ok calloc_ok width height refresh_mhz)
unfolding append_output ensure_capacity append_with
append_output-Appends st realloc_ok calloc_ok width height refresh_mhz v bound =
    let need : ℕ = length st.outputs + 1 in
    let first : ℕ = if st.output_cap == 0 then 4 else st.output_cap * 2 in
    if_cases
      (λ (r : Status × Headless).
        Appends st width height refresh_mhz (append_with r calloc_ok width height refresh_mhz))
      (leb need st.output_cap)
      (λ e.
        add_output-Appends st calloc_ok width height refresh_mhz v bound st.output_cap
          (ground (arith, e)))
      (λ _.
        if_cases
          (λ (r : Status × Headless).
            Appends st width height refresh_mhz (append_with r calloc_ok width height refresh_mhz))
          realloc_ok
          (λ _.
            add_output-Appends st calloc_ok width height refresh_mhz v bound
              (enough_cap need first need)
              (enough_cap-enough need first need (ground arith) (omega arith)))
          (λ _. (v, inr (refl, refl, refl))))
