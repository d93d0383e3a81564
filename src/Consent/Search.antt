-- ===== src/Consent/Search.antt =====
-- src/isz_capture_consent.c, `isz_consent_find`: which slot the search gives, and what a write to
-- that slot does to later searches.
use ishizue.Base.{
  ℕ, zero, suc, ◌+◌, ◌-◌, ◌<◌, ◌≡◌, ◌⊎◌, inl, inr, refl, Bool, true, false, ◌&&◌, ◌||◌, Option,
  none, some, List, [], ◌∷◌, arith, ltb, if◌then◌else◌, if_cases, Bool-cases, set, get_elem?,
  length, All,
}
use ishizue.Consent.{Entry, Key, uint64_max, matches, scan, is_none}

-- The index of the entry that answers for a key: the first that is used and matches.
pub index_of : Key → List Entry → Option ℕ
index_of k [] = none
index_of k (e ∷ es) =
    let rest = index_of k es in
    if e.used && matches k e then some 0 else elim rest [ none ↦ none | some n ↦ some (suc n) ]

abbrev pub offset : ℕ → Option ℕ → Option ℕ
offset i none = none
offset i (some n) = some (i + n)

-- Both searches find it, the granting one if it is there.
pub scan_check :
    (k : Key) (i : ℕ) (f o : Option ℕ) (x : ℕ) (es : List Entry)
    → scan false k i f o x es ≡ offset i (index_of k es)
unfolding scan index_of
scan_check k i f o x [] = refl
scan_check k i f o x (e ∷ es) = ground (arith, scan_check k (i + 1) f o x es)

pub scan_grant :
    (k : Key) (i : ℕ) (f o : Option ℕ) (x : ℕ) (es : List Entry) (n : ℕ)
    → index_of k es ≡ some n
    → scan true k i f o x es ≡ some (i + n)
unfolding scan index_of
scan_grant k i f o x [] n h = cc
scan_grant k i f o x (e ∷ es) n h = ground (
  arith,
  scan_grant k (i + 1) (if is_none f then some i else f) o x es (n - 1),
  scan_grant k (i + 1) f (if ltb e.expires_ns x then some i else o)
      (if ltb e.expires_ns x then e.expires_ns else x) es (n - 1),
)

-- A slot that the granting search gives lies in the table.
abbrev pub within : ℕ → Option ℕ → Bool
within i none = true
within i (some n) = ltb n i

within_mono : (i : ℕ) (o : Option ℕ) → within i o ≡ true → within (i + 1) o ≡ true
within_mono i none h = refl
within_mono i (some n) h = ground arith

pub scan-within :
    (k : Key) (i : ℕ) (f o : Option ℕ) (x : ℕ) (es : List Entry)
    → within i f ≡ true
    → within i o ≡ true
    → within (i + length es) (scan true k i f o x es) ≡ true
unfolding scan
scan-within k i none none x [] hf ho = refl
scan-within k i none (some n) x [] hf ho = ground arith
scan-within k i (some n) o x [] hf ho = ground arith
scan-within k i f o x (e ∷ es) hf ho =
    let shift : i + 1 + length es ≡ i + suc (length es) = omega arith in
    elim (Bool-cases e.used) [
      | inl u ↦ elim (Bool-cases (matches k e)) [
        | inl m ↦ rw (u, m) (ground arith)
        | inr m ↦
            rw (u, m, ← shift)
              (scan-within k (i + 1) f (if ltb e.expires_ns x then some i else o)
                (if ltb e.expires_ns x then e.expires_ns else x) es (within_mono i f hf)
                (if_cases (λ q. within (i + 1) q ≡ true) (ltb e.expires_ns x) {x = some i} {y = o}
                  (λ _. ground arith) (λ _. within_mono i o ho)))
      ]
      | inr u ↦
          rw (u, ← shift)
            (scan-within k (i + 1) (if is_none f then some i else f) o x es
              (if_cases (λ q. within (i + 1) q ≡ true) (is_none f) {x = some i} {y = f}
                (λ _. ground arith) (λ _. within_mono i f hf))
              (within_mono i o ho))
    ]

-- With every expiry below the largest value a slot is always found.
pub scan_finds :
    (k : Key) (i : ℕ) (f o : Option ℕ) (x : ℕ) (es : List Entry)
    → All (λ e. e.expires_ns < uint64_max) es
    → (0 < length es) × (x ≡ uint64_max) ⊎ (is_none f ≡ false) ⊎ (is_none o ≡ false)
    → is_none (scan true k i f o x es) ≡ false
unfolding scan
scan_finds k i f o x [] a h = ground arith
scan_finds k i f o x (e ∷ es) a h = ground (
  arith,
  a.0,
  scan_finds k (i + 1) (if is_none f then some i else f) o x es a.1,
  scan_finds k (i + 1) f (if ltb e.expires_ns x then some i else o)
      (if ltb e.expires_ns x then e.expires_ns else x) es a.1,
)

-- Some entry is used, matches the key and has not expired at `t`.
abbrev pub live : Key → ℕ → List Entry → Bool
live k t [] = false
live k t (e ∷ es) = e.used && (matches k e && ltb t e.expires_ns) || live k t es

pub index_of-live :
    (k : Key) (t : ℕ) (es : List Entry) (n : ℕ) (e : Entry)
    → index_of k es ≡ some n
    → get_elem? es n ≡ some e
    → ltb t e.expires_ns ≡ true
    → live k t es ≡ true
unfolding index_of
index_of-live k t [] n e h g l = cc
index_of-live k t (x ∷ es) zero e h g l = ground arith
index_of-live k t (x ∷ es) (suc n) e h g l = ground (arith, index_of-live k t es n e)

-- Where the new entry does not match a key, it makes nothing live for that key.
pub live-set_other :
    (k : Key) (t : ℕ) (es : List Entry) (n : ℕ) (e : Entry)
    → matches k e ≡ false
    → live k t (set es n e) ≡ true
    → live k t es ≡ true
live-set_other k t [] n e m h = h
live-set_other k t (x ∷ es) zero e m h = ground arith
live-set_other k t (x ∷ es) (suc n) e m h = ground (arith, live-set_other k t es n e)

-- An entry written where the search pointed is the one found again.
pub index_of-set :
    (k : Key) (es : List Entry) (n : ℕ) (e : Entry)
    → (index_of k es ≡ some n) ⊎ (index_of k es ≡ none)
    → n < length es
    → e.used ≡ true
    → matches k e ≡ true
    → index_of k (set es n e) ≡ some n
unfolding index_of matches
index_of-set k [] n e h lt u m = absurd (omega arith)
index_of-set k (x ∷ es) zero e h lt u m = ground arith
index_of-set k (x ∷ es) (suc n) e h lt u m = ground (arith, index_of-set k es n e)

pub get_elem?-set :
    (es : List Entry) (n : ℕ) (e : Entry) → n < length es → get_elem? (set es n e) n ≡ some e
get_elem?-set [] n e h = absurd (omega arith)
get_elem?-set (x ∷ es) zero e h = refl
get_elem?-set (x ∷ es) (suc n) e h = get_elem?-set es n e (omega arith)
