-- ===== src/Render/Buffers/Cache/Evictions.antt =====
-- src/buffer/isz_buffer.c: an eviction takes one entry out of the import cache, and moves others.
use mathlib.Core.Option.{some_inj}
use ishizue.Base.{
  ℕ, zero, suc, ◌+◌, ◌-◌, ◌%◌, ◌<◌, ◌≤◌, ◌≡◌, ◌≢◌, ◌↔◌, refl, sym, ap, subst, ◌∙◌, Bool, true,
  false, Option, none, some, arith, ◌==◌, leb, if_cases, ◌⊎◌, inl, inr,
}
use ishizue.Render.Buffers.{Heap, unref}
use ishizue.Render.Buffers.Cache.{
  CacheEntry, BufferCache, cache_slots, cache_hash, probe, put_slot, distance, look_at, look_from,
  cache_lookup, victim_at, victim_from, shift_at, shift_from, evict_at, cache_evict,
}
use ishizue.Render.Buffers.Cache.Probing.{
  IsOther, IsProbed, probe-reaches, lookup-finds, lookup-found, order, missing,
}

-- An entry of the table.
abbrev pub Holds : (ℕ → Option CacheEntry) → CacheEntry → Type 0
Holds s e = (i : ℕ) × (i < cache_slots) × (s i ≡ some e)

-- Two tables with the same entries.
abbrev pub SameEntries : (ℕ → Option CacheEntry) → (ℕ → Option CacheEntry) → Type 0
SameEntries s t = (e : CacheEntry) → (Holds s e → Holds t e) × (Holds t e → Holds s e)

taken {ℓ} : {A : Type ℓ} (o : Option A) (e : A) → o ≡ none → o ≡ some e → ⊥
taken o e f g = absurd (cc)

-- An entry is moved into a free slot.
move-SameEntries :
    (s : ℕ → Option CacheEntry) (hole cur : ℕ) (e : CacheEntry)
    → hole < cache_slots
    → cur < cache_slots
    → hole ≢ cur
    → s hole ≡ none
    → s cur ≡ some e
    → SameEntries s (put_slot (put_slot s hole (some e)) cur none)
move-SameEntries s hole cur e a b ne free there x = (to, from)
  where
    t : ℕ → Option CacheEntry
    t = put_slot (put_slot s hole (some e)) cur none

    at_hole : t hole ≡ some e
    at_hole = ground (arith, ne)

    elsewhere : (i : ℕ) → i ≢ hole → i ≢ cur → t i ≡ s i
    elsewhere i f g = ground (arith, f, g)

    at_cur : t cur ≡ none
    at_cur = ground arith

    to : Holds s x → Holds t x
    to (i, l, h) = by_test (i == cur) refl (i == hole) refl
      where
        by_test : (u : Bool) → (i == cur) ≡ u → (w : Bool) → (i == hole) ≡ w → Holds t x
        by_test true u w k = (hole, a, at_hole ∙ sym there ∙ ap s (sym (ground (arith, u))) ∙ h)
        by_test false u true k = absurd (taken (s i) x (ap s (ground (arith, k)) ∙ free) h)
        by_test false u false k = (i, l, elsewhere i (ground (arith, k)) (ground (arith, u)) ∙ h)

    from : Holds t x → Holds s x
    from (i, l, h) = by_test (i == cur) refl (i == hole) refl
      where
        by_test : (u : Bool) → (i == cur) ≡ u → (w : Bool) → (i == hole) ≡ w → Holds s x
        by_test true u w k = absurd (taken (t i) x (ap t (ground (arith, u)) ∙ at_cur) h)
        by_test false u true k = (cur, b, there ∙ sym at_hole ∙ ap t (sym (ground (arith, k))) ∙ h)
        by_test false u false k =
            (i, l, sym (elsewhere i (ground (arith, k)) (ground (arith, u))) ∙ h)

same_join : (s t u : ℕ → Option CacheEntry) → SameEntries s t → SameEntries t u → SameEntries s u
same_join s t u f g e = (λ h. (g e).0 ((f e).0 h), λ h. (f e).1 ((g e).1 h))

-- The slot behind the hole, around the end of the table.
cur-differs : (hole i : ℕ) → hole < 32 → 1 ≤ i → i < 32 → hole ≢ (hole + i) % 32
cur-differs hole i a b c e = omega (arith, a, b, c, e)

shift_from-SameEntries :
    (n : ℕ) (s : ℕ → Option CacheEntry) (i hole : ℕ)
    → 1 ≤ i
    → i + n ≤ cache_slots
    → hole < cache_slots
    → s hole ≡ none
    → SameEntries s (shift_from n s i hole)
unfolding shift_from shift_at
shift_from-SameEntries zero s i hole a b l free = λ e. (λ h. h, λ h. h)
shift_from-SameEntries (suc n) s i hole a b l free =
    by_slot (s cur) refl
      (λ t k m g. shift_from-SameEntries n t (i + 1) k (omega arith) (omega (arith, b)) m g)
  where
    cur : ℕ
    cur = (hole + i) % cache_slots

    by_slot :
        (o : Option CacheEntry)
        → s cur ≡ o
        → ((t : ℕ → Option CacheEntry) (k : ℕ)
            → k < cache_slots
            → t k ≡ none
            → SameEntries t (shift_from n t (i + 1) k))
        → SameEntries s (shift_at s hole cur o (λ t k. shift_from n t (i + 1) k))
    by_slot none h ih = λ e. (λ h. h, λ h. h)
    by_slot (some e) h ih =
        if_cases (SameEntries s) (leb (distance hole cur) (distance (cache_hash e.fd) cur))
          (λ _. ih s hole l free)
          (λ _.
            let moved = put_slot (put_slot s hole (some e)) cur none in
            same_join s moved (shift_from n moved (i + 1) cur)
              (move-SameEntries s hole cur e l (omega arith)
                (cur-differs hole i l a (omega (arith, b))) free h)
              (ih moved cur (omega arith) (ground arith)))

-- The search for the victim is the search of a lookup.
first_answer : Option (ℕ × ℕ) → Option ℕ
first_answer none = none
first_answer (some (at, b)) = some b

victim_at-lookup :
    (fd at : ℕ) (o : Option CacheEntry) (r : Option (ℕ × ℕ))
    → first_answer (victim_at fd at o r) ≡ look_at fd o (first_answer r)
unfolding victim_at look_at first_answer
victim_at-lookup fd at none r = refl
victim_at-lookup fd at (some e) r =
    if_cases (λ (x : Option (ℕ × ℕ)). first_answer x ≡ look_at fd (some e) (first_answer r))
      (e.fd == fd) (λ t. ground (arith, t)) (λ t. ground (arith, t))

victim_from-lookup :
    (n : ℕ) (c : BufferCache) (fd i : ℕ) → first_answer (victim_from n c fd i) ≡ look_from n c fd i
unfolding victim_from look_from first_answer
victim_from-lookup zero c fd i = refl
victim_from-lookup (suc n) c fd i =
    victim_at-lookup fd (probe fd i) (c.slots (probe fd i)) (victim_from n c fd (i + 1))
    ∙ ap (look_at fd (c.slots (probe fd i))) (victim_from-lookup n c fd (i + 1))

-- The victim is an entry for the descriptor, at one of the steps of its search.
Victim : BufferCache → ℕ → ℕ → ℕ × ℕ → Type 0
Victim c fd last (at, b) =
    (k : ℕ) × (e : CacheEntry) × (k < last)
    × (at ≡ probe fd k)
    × (c.slots (probe fd k) ≡ some e)
    × (e.fd ≡ fd)
    × (e.buf ≡ b)

victim_from-Victim :
    (n : ℕ) (c : BufferCache) (fd i : ℕ) (r : ℕ × ℕ)
    → victim_from n c fd i ≡ some r
    → Victim c fd (i + n) r
unfolding victim_from victim_at Victim
victim_from-Victim zero c fd i r h = absurd (cc)
victim_from-Victim (suc n) c fd i r h =
    by_slot (c.slots (probe fd i)) refl h (λ g. victim_from-Victim n c fd (i + 1) r g)
  where
    by_slot :
        (o : Option CacheEntry)
        → c.slots (probe fd i) ≡ o
        → victim_at fd (probe fd i) o (victim_from n c fd (i + 1)) ≡ some r
        → (victim_from n c fd (i + 1) ≡ some r → Victim c fd (i + 1 + n) r)
        → Victim c fd (i + suc n) r
    by_slot none s g ih = absurd (cc)
    by_slot (some e) s g ih =
        if_cases (λ (o : Option (ℕ × ℕ)). o ≡ some r → Victim c fd (i + suc n) r) (e.fd == fd)
          (λ t q.
            subst (Victim c fd (i + suc n)) (some_inj.0 q)
              (i, e, omega arith, refl, s, ground (arith, t), refl))
          (λ t q. subst (λ m. Victim c fd m r) (omega arith) (ih q)) g

-- What an eviction leads to: there is no entry for the descriptor and nothing changes, or its one entry is
-- taken out, all others stay in the table, and the reference to its buffer is given up.
pub Evicts : BufferCache → Heap → ℕ → BufferCache × Heap → Type 0
Evicts c h fd (c', h') =
    (cache_lookup c' fd ≡ none)
    × (((c' ≡ c) × (h' ≡ h) × ((e : CacheEntry) → Holds c.slots e → e.fd ≢ fd))
        ⊎ ((x : CacheEntry) × Holds c.slots x
            × (x.fd ≡ fd)
            × (h' ≡ unref h x.buf)
            × (c'.count ≡ c.count - 1)
            × ((e : CacheEntry) → Holds c'.slots e ↔ (Holds c.slots e × (e.fd ≢ fd)))))

module _ (c : BufferCache) (fd : ℕ) (v : IsProbed c.slots) where
  -- There is one entry for a descriptor.
  one_step :
      (i j : ℕ) (x y : CacheEntry)
      → i < cache_slots
      → j < cache_slots
      → c.slots (probe fd i) ≡ some x
      → c.slots (probe fd j) ≡ some y
      → x.fd ≡ fd
      → y.fd ≡ fd
      → i ≡ j
  one_step i j x y a b s t f g = elim (order i j) [
    | inl l ↦ absurd (clash i x s f (v fd j y b t g i l))
    | inr (inl e) ↦ e
    | inr (inr l) ↦ absurd (clash j y t g (v fd i x a s f j l))
  ]
    where
      clash :
          (k : ℕ) (z : CacheEntry)
          → c.slots (probe fd k) ≡ some z
          → z.fd ≡ fd
          → IsOther fd (c.slots (probe fd k))
          → ⊥
      clash k z s f (w, there, ne) =
          ne (ap (λ (q : CacheEntry). q.fd) (some_inj.0 (sym there ∙ s)) ∙ f)

  cleared :
      (k : ℕ) (x : CacheEntry)
      → k < cache_slots
      → c.slots (probe fd k) ≡ some x
      → x.fd ≡ fd
      → (e : CacheEntry)
      → Holds (put_slot c.slots (probe fd k) none) e ↔ (Holds c.slots e × (e.fd ≢ fd))
  cleared k x a s f e = (to, λ p. from p.0 p.1)
    where
      left : ℕ → Option CacheEntry
      left = put_slot c.slots (probe fd k) none

      to : Holds left e → Holds c.slots e × (e.fd ≢ fd)
      to (i, l, h) =
          if_cases (λ (o : Option CacheEntry). o ≡ some e → Holds c.slots e × (e.fd ≢ fd))
            (i == probe fd k) (λ t g. absurd (taken none e refl g))
            (λ t g. (
              (i, l, g),
              λ own.
                  let (j, b, at) = probe-reaches fd i l in
                  let same = one_step j k e x b a (ap c.slots at ∙ g) s own f in
                  absurd (ground (arith, t, sym at ∙ ap (probe fd) same)),
            ))
            h

      from : Holds c.slots e → e.fd ≢ fd → Holds left e
      from (i, l, h) ne = (
        i,
        l,
        if_cases (λ (o : Option CacheEntry). o ≡ some e) (i == probe fd k)
            (λ t.
              let same : some e ≡ some x = sym h ∙ ap c.slots (ground (arith, t)) ∙ s in
              absurd (ne (ap (λ (q : CacheEntry). q.fd) (some_inj.0 same) ∙ f)))
            (λ t. h),
      )

  module _ (h : Heap) where
    nothing-Evicts : cache_lookup c fd ≡ none → Evicts c h fd (c, h)
    unfolding Evicts
    nothing-Evicts gone = (gone, inl (refl, refl, absent))
      where
        absent : (e : CacheEntry) → Holds c.slots e → e.fd ≢ fd
        absent e (i, l, there) own =
            let (k, a, at) = probe-reaches fd i l in
            let found = lookup-finds c fd k e v a (ap c.slots at ∙ there) own in
            taken (cache_lookup c fd) e.buf gone found

    taken-Evicts :
        (k : ℕ) (x : CacheEntry)
        → k < cache_slots
        → c.slots (probe fd k) ≡ some x
        → x.fd ≡ fd
        → Evicts c h fd (evict_at c h (some (probe fd k, x.buf)))
    unfolding Evicts evict_at
    taken-Evicts k x a s f = (
      missing (cache_lookup after fd) λ b e.
          let (i, y, l, there, own, w) = lookup-found after fd b e in
          ((left y).0 (probe fd i, omega arith, there)).1 own,
      inr (x, (probe fd k, omega arith, s), f, refl, refl, left),
    )
      where
        hollow : ℕ → Option CacheEntry
        hollow = put_slot c.slots (probe fd k) none

        after : BufferCache
        after = record { slots = shift_from 31 hollow 1 (probe fd k); count = c.count - 1 }

        left : (e : CacheEntry) → Holds after.slots e ↔ (Holds c.slots e × (e.fd ≢ fd))
        left e =
            let same =
              shift_from-SameEntries 31 hollow 1 (probe fd k) (omega arith) (omega arith)
                (omega arith) (ground arith) e in
            let only = cleared k x a s f e in (λ p. only.0 (same.1 p), λ p. same.0 (only.1 p))

    evict_at-Evicts :
        (o : Option (ℕ × ℕ)) → victim_from cache_slots c fd 0 ≡ o → Evicts c h fd (evict_at c h o)
    unfolding evict_at first_answer cache_lookup Victim
    evict_at-Evicts none e =
        nothing-Evicts (sym (victim_from-lookup cache_slots c fd 0) ∙ ap first_answer e)
    evict_at-Evicts (some (at, b)) e =
        let (k, x, a, place, there, own, buf) = victim_from-Victim cache_slots c fd 0 (at, b) e in
        rw (place, sym buf) (taken-Evicts k x (omega (arith, a)) there own)

    -- In a table where every entry is met before a free slot, an eviction leaves no answer for the
    -- descriptor: nothing changes if it had none; otherwise its one entry is taken out, the
    -- reference to the buffer is given up, and every other entry is still somewhere in the table.
    pub cache_evict-Evicts : Evicts c h fd (cache_evict c h fd)
    unfolding cache_evict
    cache_evict-Evicts = evict_at-Evicts (victim_from cache_slots c fd 0) refl
