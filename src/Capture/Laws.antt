-- ===== src/Capture/Laws.antt =====
-- src/render/isz_capture.c: an output is captured once, with consent, and what becomes of its buffer.
use mathlib.Core.List.{
  map, Mem, Nodup, Nodup-cons, Perm, mem-cons, mem-cons_of_mem, mem-cons_self, not-mem-nil,
  perm_append_singleton,
}
use mathlib.Core.List.Perm
use mathlib.Core.Logic.Or
use mathlib.Core.Bool.{Bool-set}
use ishizue.Base.{
  ℕ, suc, ◌+◌, ◌≤◌, ◌<◌, ◌≡◌, ◌≢◌, ◌⊎◌, inl, inr, refl, sym, ap, subst, ◌∙◌, Bool, true, false,
  ◌&&◌, ◌||◌, Option, none, some, List, [], ◌∷◌, ◌++◌, arith, leb, ◌==◌, if_cases, length,
  length-append, get_elem?, All, All-append,
}
use ishizue.Base.Last.{swap_remove, swap_remove-Perm, length-swap_remove}
use ishizue.Status.{status_ok, invalid_arg}
use ishizue.Consent.{Entry, capture_check_consent}
use ishizue.Render.Buffers.{Desc}
use ishizue.Capture.{
  Capture, Captures, max_captures, find_from, capture_find, Started, start_with, start_new,
  start_admitted, capture_start, send_capture_done, get_owning_conn, owner_at, Stopped, stop_entry,
  stop_at, capture_stop,
}

abbrev pub outs : List Capture → List ℕ
outs es = map (λ (e : Capture). e.out) es

-- No output is captured twice, every entry of the table is active, and the table has its size.
pub record IsValid (es : List Capture) : Type 0 where
  pub distinct : Nodup (outs es)
  pub all_active : All (λ (e : Capture). e.active ≡ true) es
  pub room : length es ≤ max_captures

-- The search fails exactly at an output that is not captured.
find_none :
    (out i : ℕ) (es : List Capture)
    → All (λ (e : Capture). e.active ≡ true) es
    → find_from out i es ≡ none
    → Mem out (outs es)
    → ⊥
unfolding find_from
find_none out i [] a e m = not-mem-nil m
find_none out i (x ∷ es) a e m =
    Or.elim (λ p. absurd p) (mem-cons.0 m) (λ same. absurd (ground (arith, a.0, e, same)))
      (find_none out (i + 1) es a.1 (ground (arith, e)))

none_found : (out i : ℕ) (es : List Capture) → (Mem out (outs es) → ⊥) → find_from out i es ≡ none
unfolding find_from
none_found out i [] n = refl
none_found out i (x ∷ es) n =
    if_cases (λ (o : Option ℕ). o ≡ none) (x.out == out && x.active)
      (λ t.
        let same : x.out ≡ out = ground arith in
        absurd (n (subst (λ o. Mem o (outs (x ∷ es))) same mem-cons_self)))
      (λ _. none_found out (i + 1) es (λ m. n (mem-cons_of_mem x.out m)))

-- The entry that is found is one of the output.
pub record Found (out i : ℕ) (es : List Capture) (k : ℕ) : Type 0 where
  pub at : ℕ
  pub entry : Capture
  pub index : k ≡ at + i
  pub there : get_elem? es at ≡ some entry
  pub same_out : entry.out ≡ out

Found-entry_of :
    (out i : ℕ) (es : List Capture) (k : ℕ) → find_from out i es ≡ some k → Found out i es k
unfolding find_from
Found-entry_of out i [] k h = absurd (cc)
Found-entry_of out i (x ∷ es) k h =
    by_test (Found-entry_of out (i + 1) es k) (x.out == out && x.active) refl
  where
    by_test :
        (find_from out (i + 1) es ≡ some k → Found out (i + 1) es k)
        → (b : Bool) → (x.out == out && x.active) ≡ b
        → Found out i (x ∷ es) k
    by_test ih true t = record {
      at = 0;
      entry = x;
      index = ground arith;
      there = refl;
      same_out = ground arith;
    }
    by_test ih false t =
        let r = ih (ground arith) in
        record {
          at = suc r.at;
          entry = r.entry;
          index = omega (arith, r.index);
          there = r.there;
          same_out = r.same_out;
        }

-- What a start leads to: the capture is admitted and on the table, or the descriptor is closed, the
-- table is as before, and the caller is told why.
unfoldable pub Starts : Captures → ℕ → ℕ → ℕ → Desc → ℕ → Started → Type 0
Starts st srv out fd desc now r =
    IsValid r.state.table
    × ((r.status ≡ status_ok)
          × (r.closed ≡ [])
          × ((capture_check_consent st.grants srv out now).0 ≡ true)
          × (r.state.table
              ≡ st.table
                ++ record { out = out; dmabuf_fd = fd; desc = desc; active = true; owning_conn = 0 }
                  ∷ [])
        ⊎ (r.status ≢ status_ok) × (r.closed ≡ fd ∷ []) × (r.state.table ≡ st.table))

module _ (st : Captures) (srv out fd : ℕ) (desc : Desc) (now : ℕ) (v : IsValid st.table) where
  start_new-Starts :
      (grants : List Entry) (o : Option ℕ)
      → (capture_check_consent st.grants srv out now).0 ≡ true
      → capture_find out st.table ≡ o
      → Starts st srv out fd desc now (start_new (record st { grants = grants }) out fd desc o)
  unfolding Starts start_new start_with capture_find
  start_new-Starts grants (some i) c e = (v, inr (λ s. cc, refl, refl))
  start_new-Starts grants none c e =
      if_cases (Starts st srv out fd desc now) (leb max_captures (length st.table))
        (λ full. (v, inr (λ s. cc, refl, refl)))
        (λ room. (added (ground arith), inl (refl, refl, c, refl)))
    where
      added :
          length st.table < max_captures
          → IsValid (
              st.table
              ++ record { out = out; dmabuf_fd = fd; desc = desc; active = true; owning_conn = 0 }
                ∷ [])
      added room =
          let entry : Capture = record {
            out = out;
            dmabuf_fd = fd;
            desc = desc;
            active = true;
            owning_conn = 0;
          } in
          record {
            distinct =
                Perm.nodup
                  (Perm.map (λ (e : Capture). e.out)
                    (Perm.symm (perm_append_singleton entry st.table)))
                  (Nodup-cons.1 (find_none out 0 st.table v.all_active e, v.distinct));
            all_active = All-append _ st.table (entry ∷ []) v.all_active (refl, tt);
            room = omega (arith, length-append st.table (entry ∷ []));
          }

  -- A capture starts only with a grant that is live, of an output that is not captured, while the table
  -- has room; else the descriptor is closed and the table is as before. The table stays well formed.
  pub capture_start-Starts : Starts st srv out fd desc now (capture_start st srv out fd desc now)
  unfolding capture_start start_admitted Starts
  capture_start-Starts =
      if_cases (Starts st srv out fd desc now) (out == 0 || srv == 0)
        (λ t. (v, inr (λ s. cc, refl, refl)))
        (λ t. admitted (capture_check_consent st.grants srv out now) refl)
    where
      admitted :
          (r : Bool × List Entry)
          → capture_check_consent st.grants srv out now ≡ r
          → Starts st srv out fd desc now (start_admitted st out fd desc r)
      admitted (false, grants) e = (v, inr (λ s. cc, refl, refl))
      admitted (true, grants) e =
          start_new-Starts grants (capture_find out st.table)
            (ap (λ (r : Bool × List Entry). r.0) e) refl

-- What a stop leads to. No message is sent: the entry is off the table when its owner is looked up.
pub Stops : List Capture → ℕ → Stopped → Type 0
Stops es out r =
    IsValid r.table
    × (r.sent ≡ none)
    × ((r.status ≡ invalid_arg) × (r.table ≡ es) × (Mem out (outs es) → out ≡ 0)
        ⊎ (r.status ≡ status_ok) × ((e : Capture) × (e.out ≡ out) × Perm (e ∷ r.table) es))

All-perm : {P : Capture → Type 0} (es : List Capture) → ((e : Capture) → Mem e es → P e) → All P es
All-perm [] f = tt
All-perm (e ∷ es) f = (f e mem-cons_self, All-perm es (λ x m. f x (mem-cons_of_mem e m)))

All-Mem :
    (es : List Capture) (x : Capture)
    → All (λ (e : Capture). e.active ≡ true) es
    → Mem x es
    → x.active ≡ true
All-Mem [] x a m = absurd (not-mem-nil m)
All-Mem (e ∷ es) x a m =
    Or.elim (Bool-set x.active true) (mem-cons.0 m)
      (λ same. ap (λ (e : Capture). e.active) same ∙ a.0) (λ k. All-Mem es x a.1 k)

module _ (es : List Capture) (out : ℕ) (v : IsValid es) where
  module _ (k : ℕ) (e : Capture) (there : get_elem? es k ≡ some e) (same : e.out ≡ out) where
    left : List Capture
    left = swap_remove es k

    perm : Perm (e ∷ left) es
    unfolding left
    perm = swap_remove-Perm es k e there

    apart : (Mem e.out (outs left) → ⊥) × Nodup (outs left)
    unfolding left
    apart =
        Nodup-cons.0 (Perm.nodup (Perm.symm (Perm.map (λ (e : Capture). e.out) perm)) v.distinct)

    left-IsValid : IsValid left
    unfolding left
    left-IsValid = record {
      distinct = apart.1;
      all_active =
          All-perm left
            (λ x m. All-Mem es x v.all_active ((Perm.mem_iff perm).0 (mem-cons_of_mem e m)));
      room = omega (arith, length-swap_remove es k e there, v.room);
    }

    no_owner : capture_find out left ≡ none
    unfolding capture_find
    no_owner = none_found out 0 left (λ m. apart.0 (subst (λ o. Mem o (outs left)) (sym same) m))

    unsent : send_capture_done left out e.dmabuf_fd ≡ none
    unfolding send_capture_done get_owning_conn owner_at
    unsent = ground (arith, no_owner)

    stopped-Stops : Stops es out (stop_entry es out k (some e))
    unfolding Stops stop_entry left
    stopped-Stops = (left-IsValid, unsent, inr (refl, (e, same, perm)))

  found-Stops : (o : Option ℕ) → capture_find out es ≡ o → Stops es out (stop_at es out o)
  unfolding Stops stop_at capture_find
  found-Stops none h =
      (v, refl, inl (refl, refl, λ m. absurd (find_none out 0 es v.all_active h m)))
  found-Stops (some k) h =
      let f = Found-entry_of out 0 es k h in
      let there : get_elem? es k ≡ some f.entry =
        ap (get_elem? es) (omega (arith, f.index)) ∙ f.there in
      subst (λ o. Stops es out (stop_entry es out k o)) (sym there)
        (stopped-Stops k f.entry there f.same_out)

  -- A stop takes just the capture of the output off the table, or the output was not captured and the
  -- table is as before. In either case no CAPTURE_DONE is sent, whoever started the capture: the buffer
  -- is not handed back.
  pub capture_stop-Stops : Stops es out (capture_stop es out)
  unfolding capture_stop Stops
  capture_stop-Stops =
      if_cases (Stops es out) (out == 0) (λ t. (v, refl, inl (refl, refl, λ m. ground arith)))
        (λ t. found-Stops (capture_find out es) refl)
