-- ===== src/Consent/Laws.antt =====
-- src/isz_capture_consent.c: a grant admits its own key, for its time, and no other key.
use ishizue.Base.{
  ℕ, ◌+◌, ◌%◌, ◌^◌, ◌≤◌, ◌<◌, ◌≡◌, ◌≢◌, ◌⊎◌, inl, inr, refl, sym, ap, ◌∙◌, Bool, true, false, ◌||◌,
  Option, none, some, List, arith, ltb, ◌==◌, if_cases, Bool-cases, Option-cases, set, get_elem?,
  length, All,
}
use ishizue.Status.{Status, status_ok, resource_limit}
use ishizue.Consent.{
  Entry, Key, timeout_ns, uint64_max, kind_notification, matches, scan, find, grant, check,
  check_entry,
}
use ishizue.Consent.Search.{
  index_of, offset, scan_check, scan_grant, scan-within, scan_finds, live, index_of-live,
  live-set_other, index_of-set, get_elem?-set,
}

-- A key that the calls accept.
abbrev pub IsKey : Key → Type 0
IsKey k = (k.srv ≢ 0) × (k.output ≢ 0) × (k.kind ≤ kind_notification)

find_check : (k : Key) (es : List Entry) → find false k es ≡ index_of k es
unfolding find
find_check k es = scan_check k 0 none none uint64_max es ∙ from_zero (index_of k es)
  where
    from_zero : (o : Option ℕ) → offset 0 o ≡ o
    from_zero none = refl
    from_zero (some n) = ap (λ (m : ℕ). some m) (omega arith)

-- A check that succeeds has found a live entry.
check-live :
    (es : List Entry) (k : Key) (now : ℕ) → (check es k now).0 ≡ true → live k now es ≡ true
unfolding check check_entry
check-live es k now =
    if_cases P (k.srv == 0 || k.output == 0) (λ _ h. cc)
      (λ _.
        if_cases P (ltb kind_notification k.kind) (λ _ h. cc)
          (λ _. found (find false k es) (find_check k es)))
  where
    P : Bool × List Entry → Type 0
    P r = r.0 ≡ true → live k now es ≡ true

    entry :
        (n : ℕ) (o : Option Entry)
        → index_of k es ≡ some n
        → get_elem? es n ≡ o
        → P (check_entry es now n o)
    entry n none e g h = cc
    entry n (some x) e g h = ground (arith, index_of-live k now es n x e g)

    found :
        (o : Option ℕ)
        → o ≡ index_of k es
        → P (elim o [ none ↦ (false, es) | some i ↦ check_entry es now i (get_elem? es i) ])
    found none e = λ h. cc
    found (some n) e = entry n (get_elem? es n) (sym e) refl

-- The entry that a grant writes.
abbrev granted : Key → ℕ → Entry
granted k now = record {
  srv = k.srv;
  output = k.output;
  kind = k.kind;
  expires_ns = (now + timeout_ns) % 2 ^ 64;
  used = true;
}

matches-granted : (j k : Key) (now : ℕ) → matches j (granted k now) ≡ true → j ≡ k
unfolding matches
matches-granted j k now h = ground arith

matches_own : (k : Key) (now : ℕ) → matches k (granted k now) ≡ true
unfolding matches
matches_own k now = ground arith

-- A grant makes nothing live for another key.
grant_other :
    (es : List Entry) (k j : Key) (now t : ℕ)
    → j ≢ k
    → live j t (grant es k now).1 ≡ true
    → live j t es ≡ true
unfolding grant
grant_other es k j now t ne =
    if_cases P (k.srv == 0 || k.output == 0) (λ _ h. h)
      (λ _. if_cases P (ltb kind_notification k.kind) (λ _ h. h) (λ _. at_slot (find true k es)))
  where
    P : Status × List Entry → Type 0
    P r = live j t r.1 ≡ true → live j t es ≡ true

    differs : matches j (granted k now) ≡ false
    differs = elim (Bool-cases (matches j (granted k now))) [
      | inl e ↦ absurd (ne (matches-granted j k now e))
      | inr e ↦ e
    ]

    at_slot :
        (o : Option ℕ)
        → P (elim o [
          | none ↦ (resource_limit, es)
          | some i ↦ (status_ok, set es i (granted k now))
        ])
    at_slot none h = h
    at_slot (some i) h = live-set_other j t es i (granted k now) differs h

-- A check succeeds only by a grant for exactly its server, output and kind: if it succeeds after a
-- grant for another key, then the table held, before that grant, a used entry for the checked key
-- that had not expired.
pub check-grant_other :
    (es : List Entry) (k j : Key) (now t : ℕ)
    → j ≢ k
    → (check (grant es k now).1 j t).0 ≡ true
    → live j t es ≡ true
check-grant_other es k j now t ne h =
    grant_other es k j now t ne (check-live (grant es k now).1 j t h)

-- The slot that a grant takes: one exists, in the table, and it is the key's own if it has one.
slot_for :
    (es : List Entry) (k : Key)
    → 0 < length es
    → All (λ e. e.expires_ns < uint64_max) es
    → (n : ℕ) × (find true k es ≡ some n)
      × (n < length es)
      × ((index_of k es ≡ some n) ⊎ (index_of k es ≡ none))
unfolding find
slot_for es k room young = taken (scan true k 0 none none uint64_max es) refl
  where
    taken :
        (o : Option ℕ)
        → scan true k 0 none none uint64_max es ≡ o
        → (n : ℕ) × (scan true k 0 none none uint64_max es ≡ some n)
          × (n < length es)
          × ((index_of k es ≡ some n) ⊎ (index_of k es ≡ none))
    taken none e =
        absurd (ground (arith, scan_finds k 0 none none uint64_max es young (inl (room, refl))))
    taken (some n) e = (
      n,
      e,
      ground (arith, scan-within k 0 none none uint64_max es refl refl),
      elim (Option-cases (index_of k es)) [
        | inl q ↦ inr q
        | inr (m, q) ↦ inl (ground (arith, q, scan_grant k 0 none none uint64_max es m q))
      ],
    )

check_found :
    (es : List Entry) (k : Key) (t n : ℕ) (e : Entry)
    → IsKey k
    → index_of k es ≡ some n
    → get_elem? es n ≡ some e
    → e.used ≡ true
    → (check es k t).0 ≡ ltb t e.expires_ns
unfolding check check_entry
check_found es k t n e good i g u = ground (arith, find_check k es)

-- In a table with a slot at least, whose expiry times have not reached the largest value, a grant
-- for a valid key succeeds, and a check of the same key at any time t accepts exactly until 60
-- seconds after the grant (as long as that time is below 2^64).
pub check-grant :
    (es : List Entry) (k : Key) (now t : ℕ)
    → IsKey k
    → 0 < length es
    → All (λ e. e.expires_ns < uint64_max) es
    → now + timeout_ns < 2 ^ 64
    → ((grant es k now).0 ≡ status_ok)
      × ((check (grant es k now).1 k t).0 ≡ ltb t (now + timeout_ns))
unfolding grant
check-grant es k now t good room young small =
    let (n, f, lt, own) = slot_for es k room young in
    let e : grant es k now ≡ (status_ok, set es n (granted k now)) = ground (arith, f, good) in
    rw e (
      refl,
      check_found (set es n (granted k now)) k t n (granted k now) good
            (index_of-set k es n (granted k now) own lt refl (matches_own k now))
            (get_elem?-set es n (granted k now) lt) refl
          ∙ ap (ltb t) in_range,
    )
  where
    in_range : (now + timeout_ns) % 2 ^ 64 ≡ now + timeout_ns
    in_range = omega arith
