-- ===== src/Render/Buffers/Cache/Probing.antt =====
-- src/buffer/isz_buffer.c: what a search that stops at the first free slot finds.
use mathlib.Core.Option.{some_inj}
use ishizue.Base.{
  ℕ, zero, suc, ◌+◌, ◌-◌, ◌%◌, ◌≤◌, ◌<◌, ◌≡◌, ◌≢◌, refl, sym, ap, ◌∙◌, Bool, true, false, Option,
  none, some, arith, ◌==◌, if_cases, ◌⊎◌, inl, inr,
}
use ishizue.Render.Buffers.Cache.{
  CacheEntry, BufferCache, cache_slots, cache_hash, probe, look_at, look_from, cache_lookup,
}

-- A slot of another descriptor.
abbrev pub IsOther : ℕ → Option CacheEntry → Type 0
IsOther fd o = (e : CacheEntry) × (o ≡ some e) × (e.fd ≢ fd)

-- Before an entry, the search for its descriptor meets entries of others only.
abbrev pub IsProbed : (ℕ → Option CacheEntry) → Type 0
IsProbed s =
    (fd k : ℕ) (e : CacheEntry)
    → k < cache_slots
    → s (probe fd k) ≡ some e
    → e.fd ≡ fd
    → (j : ℕ) → j < k
    → IsOther fd (s (probe fd j))

-- The steps of a search meet different slots, and all.
steps_differ : (h i j : ℕ) → i < 32 → j < 32 → (h + i) % 32 ≡ (h + j) % 32 → i ≡ j
steps_differ h i j a b e = omega (arith, a, b, e)

pub probe-differs :
    (fd i j : ℕ) → i < cache_slots → j < cache_slots → probe fd i ≡ probe fd j → i ≡ j
probe-differs fd i j a b e = steps_differ (cache_hash fd) i j a b e

steps_reach : (h i : ℕ) → i < 32 → (k : ℕ) × (k < 32) × ((h + k) % 32 ≡ i)
steps_reach h i a = ((i + 32 - h % 32) % 32, omega arith, omega (arith, a))

pub probe-reaches : (fd i : ℕ) → i < cache_slots → (k : ℕ) × (k < cache_slots) × (probe fd k ≡ i)
probe-reaches fd i a = steps_reach (cache_hash fd) i a

look_at-own :
    (fd : ℕ) (e : CacheEntry) (o : Option CacheEntry) (rest : Option ℕ)
    → o ≡ some e
    → e.fd ≡ fd
    → look_at fd o rest ≡ some e.buf
unfolding look_at
look_at-own fd e o rest h f = rw h (ground (arith, f))

look_at-other :
    (fd : ℕ) (o : Option CacheEntry) (rest : Option ℕ) → IsOther fd o → look_at fd o rest ≡ rest
unfolding look_at
look_at-other fd o rest (e, h, f) = rw h (ground (arith, f))

module _ (c : BufferCache) (fd : ℕ) where
  look_from-finds :
      (n i k : ℕ) (e : CacheEntry)
      → i ≤ k
      → k < i + n
      → ((j : ℕ) → j < k → IsOther fd (c.slots (probe fd j)))
      → c.slots (probe fd k) ≡ some e
      → e.fd ≡ fd
      → look_from n c fd i ≡ some e.buf
  unfolding look_from
  look_from-finds zero i k e a b before h f = absurd (omega (arith, a, b))
  look_from-finds (suc n) i k e a b before h f =
      by_test (i == k) refl (λ l. look_from-finds n (i + 1) k e l (omega (arith, b)) before h f)
    where
      by_test :
          (t : Bool)
          → (i == k) ≡ t
          → (i + 1 ≤ k → look_from n c fd (i + 1) ≡ some e.buf)
          → look_at fd (c.slots (probe fd i)) (look_from n c fd (i + 1)) ≡ some e.buf
      by_test true t ih =
          let same : i ≡ k = ground (arith, t) in
          look_at-own fd e (c.slots (probe fd i)) (look_from n c fd (i + 1))
            (ap (λ x. c.slots (probe fd x)) same ∙ h) f
      by_test false t ih =
          look_at-other fd (c.slots (probe fd i)) (look_from n c fd (i + 1))
            (before i (ground (arith, a, t)))
          ∙ ih (ground (arith, a, t))

  -- What is found is there.
  look_from-found :
      (n i b : ℕ)
      → look_from n c fd i ≡ some b
      → (k : ℕ) × (e : CacheEntry) × (k < i + n)
        × (c.slots (probe fd k) ≡ some e)
        × (e.fd ≡ fd)
        × (e.buf ≡ b)
  unfolding look_from look_at
  look_from-found zero i b h = absurd (cc)
  look_from-found (suc n) i b h =
      by_slot (c.slots (probe fd i)) refl h (look_from-found n (i + 1) b)
    where
      Found : Type 0
      Found =
          (k : ℕ) × (e : CacheEntry) × (k < i + suc n)
          × (c.slots (probe fd k) ≡ some e)
          × (e.fd ≡ fd)
          × (e.buf ≡ b)

      by_slot :
          (o : Option CacheEntry)
          → c.slots (probe fd i) ≡ o
          → look_at fd o (look_from n c fd (i + 1)) ≡ some b
          → (look_from n c fd (i + 1) ≡ some b
              → (k : ℕ) × (e : CacheEntry) × (k < i + 1 + n)
                × (c.slots (probe fd k) ≡ some e)
                × (e.fd ≡ fd)
                × (e.buf ≡ b))
          → Found
      by_slot none s g ih = absurd (cc)
      by_slot (some e) s g ih =
          if_cases (λ (o : Option ℕ). o ≡ some b → Found) (e.fd == fd)
            (λ t r. (i, e, omega arith, s, ground (arith, t), some_inj.0 r))
            (λ t r. let (k, x, l, m, f, w) = ih r in (k, x, omega (arith, l), m, f, w)) g

  pub lookup-finds :
      (k : ℕ) (e : CacheEntry)
      → IsProbed c.slots
      → k < cache_slots
      → c.slots (probe fd k) ≡ some e
      → e.fd ≡ fd
      → cache_lookup c fd ≡ some e.buf
  unfolding cache_lookup
  lookup-finds k e v a h f =
      look_from-finds cache_slots 0 k e (omega arith) a (λ j l. v fd k e a h f j l) h f

  pub lookup-found :
      (b : ℕ)
      → cache_lookup c fd ≡ some b
      → (k : ℕ) × (e : CacheEntry) × (k < cache_slots)
        × (c.slots (probe fd k) ≡ some e)
        × (e.fd ≡ fd)
        × (e.buf ≡ b)
  unfolding cache_lookup
  lookup-found b h = look_from-found cache_slots 0 b h

pub order : (a b : ℕ) → (a < b) ⊎ (a ≡ b) ⊎ (b < a)
order zero zero = inr (inl refl)
order zero (suc b) = inl (omega arith)
order (suc a) zero = inr (inr (omega arith))
order (suc a) (suc b) = elim (order a b) [
  | inl l ↦ inl (omega (arith, l))
  | inr (inl e) ↦ inr (inl (ap suc e))
  | inr (inr l) ↦ inr (inr (omega (arith, l)))
]

-- Two answers that give the same buffers are one.
pub same_answers :
    (x y : Option ℕ)
    → ((b : ℕ) → x ≡ some b → y ≡ some b)
    → ((b : ℕ) → y ≡ some b → x ≡ some b)
    → x ≡ y
same_answers none none f g = refl
same_answers none (some b) f g = g b refl
same_answers (some a) y f g = sym (f a refl)

pub missing : (o : Option ℕ) → ((b : ℕ) → o ≢ some b) → o ≡ none
missing none f = refl
missing (some b) f = absurd (f b refl)
