-- ===== src/Render/Buffers/Cache/Laws.antt =====
-- src/buffer/isz_buffer.c: what an insertion into the import cache changes.
use mathlib.Core.Option.{some_inj}
use ishizue.Base.{
  ℕ, zero, suc, ◌+◌, ◌<◌, ◌≡◌, ◌≢◌, refl, sym, ap, subst, ◌∙◌, Bool, true, false, Option, none,
  some, arith, ◌==◌, if◌then◌else◌, if_cases, ◌⊎◌, inl, inr,
}
use ishizue.Status.{Status, status_ok, resource_limit}
use ishizue.Render.Buffers.{Heap, ref, unref}
use ishizue.Render.Buffers.Cache.{
  CacheEntry, BufferCache, cache_slots, probe, put_slot, cache_lookup, insert_at, insert_from,
  cache_insert,
}
use ishizue.Render.Buffers.Cache.Probing.{
  IsOther, IsProbed, probe-differs, probe-reaches, order, lookup-finds, lookup-found, same_answers,
  missing,
}

-- A store of the entry `n` into the slot at step `k` for its descriptor, which is free or has an older
-- entry for it, and which only others stand before.
module _ (c : BufferCache) (count k : ℕ) (n : CacheEntry) (small : k < cache_slots)
    (before : (j : ℕ) → j < k → IsOther n.fd (c.slots (probe n.fd j)))
    (old : (x : CacheEntry) → c.slots (probe n.fd k) ≡ some x → x.fd ≡ n.fd)
    (v : IsProbed c.slots) where
  abbrev stored : BufferCache
  stored = record { slots = put_slot c.slots (probe n.fd k) (some n); count = count }

  stored-IsProbed : IsProbed stored.slots
  stored-IsProbed fd i e a h f j l = by_slot (probe fd i == probe n.fd k) refl h
    where
      at : ℕ → Option CacheEntry
      at x = put_slot c.slots (probe n.fd k) (some n) x

      kept : IsOther fd (c.slots (probe fd j)) → IsOther fd (at (probe fd j))
      kept (x, there, ne) =
          if_cases (IsOther fd) (probe fd j == probe n.fd k)
            (λ t.
              let same : c.slots (probe n.fd k) ≡ some x =
                ap c.slots (sym (ground (arith, t))) ∙ there in
              (n, refl, λ g. ne (old x same ∙ g)))
            (λ t. (x, there, ne))

      own : (probe fd i == probe n.fd k) ≡ true → n.fd ≡ fd → IsOther fd (at (probe fd j))
      own t g =
          let step : probe n.fd i ≡ probe n.fd k = ap (λ d. probe d i) g ∙ ground (arith, t) in
          let same : i ≡ k = probe-differs n.fd i k a small step in
          let first : IsOther fd (c.slots (probe fd j)) =
            subst (λ d. IsOther d (c.slots (probe d j))) g (before j (omega (arith, l, same))) in
          kept first

      by_slot :
          (t : Bool)
          → (probe fd i == probe n.fd k) ≡ t
          → (if t then some n else c.slots (probe fd i)) ≡ some e
          → IsOther fd (at (probe fd j))
      by_slot true t g = own t (ap (λ (x : CacheEntry). x.fd) (some_inj.0 g) ∙ f)
      by_slot false t g = kept (v fd i e a g f j l)

  stored-own : cache_lookup stored n.fd ≡ some n.buf
  stored-own =
      lookup-finds stored n.fd k n stored-IsProbed small
        (if_cases (λ (o : Option CacheEntry). o ≡ some n) (probe n.fd k == probe n.fd k) (λ _. refl)
          (λ t. absurd (ground (arith, t))))
        refl

  stored-other : (fd : ℕ) → fd ≢ n.fd → cache_lookup stored fd ≡ cache_lookup c fd
  stored-other fd ne = same_answers (cache_lookup stored fd) (cache_lookup c fd) after prior
    where
      after : (b : ℕ) → cache_lookup stored fd ≡ some b → cache_lookup c fd ≡ some b
      after b h =
          let (i, e, a, there, f, w) = lookup-found stored fd b h in
          if_cases (λ (o : Option CacheEntry). o ≡ some e → cache_lookup c fd ≡ some b)
            (probe fd i == probe n.fd k)
            (λ t g. absurd (ne (sym f ∙ ap (λ (x : CacheEntry). x.fd) (sym (some_inj.0 g)))))
            (λ t g. lookup-finds c fd i e v a g f ∙ ap some w) there

      prior : (b : ℕ) → cache_lookup c fd ≡ some b → cache_lookup stored fd ≡ some b
      prior b h =
          let (i, e, a, there, f, w) = lookup-found c fd b h in
          let away : stored.slots (probe fd i) ≡ some e =
            if_cases (λ (o : Option CacheEntry). o ≡ some e) (probe fd i == probe n.fd k)
              (λ t. absurd (ne (sym f ∙ old e (ap c.slots (sym (ground (arith, t))) ∙ there))))
              (λ t. there) in
          lookup-finds stored fd i e stored-IsProbed a away f ∙ ap some w

free_entry : (x : CacheEntry) {fd : ℕ} → ◌≡◌ {A = Option CacheEntry} none (some x) → x.fd ≡ fd
free_entry x e = absurd (cc)

-- What an insertion leads to: the descriptor answers with the buffer, the others answer as before,
-- and the references are those of the table; or the table is full of others.
pub Inserts : BufferCache → Heap → ℕ → ℕ → Status × BufferCache × Heap → Type 0
Inserts c h fd buf (r, c', h') =
    ((r ≡ status_ok)
      × IsProbed c'.slots
      × (cache_lookup c' fd ≡ some buf)
      × ((d : ℕ) → d ≢ fd → cache_lookup c' d ≡ cache_lookup c d)
      × ((cache_lookup c fd ≡ none) × (c'.count ≡ c.count + 1) × (h' ≡ ref h buf)
          ⊎ ((b : ℕ) × (cache_lookup c fd ≡ some b)
              × (c'.count ≡ c.count)
              × (h' ≡ ref (unref h b) buf))))
    ⊎ (r ≡ resource_limit)
      × (c' ≡ c)
      × (h' ≡ h)
      × (cache_lookup c fd ≡ none)
      × ((i : ℕ) → i < cache_slots → (e : CacheEntry) × (c.slots i ≡ some e))

module _ (c : BufferCache) (h : Heap) (fd buf : ℕ) (v : IsProbed c.slots) where
  -- Nothing is found when the search ends, at a free slot or at the end of the table.
  lookup-stops :
      (k : ℕ)
      → ((j : ℕ) → j < k → IsOther fd (c.slots (probe fd j)))
      → (k < cache_slots → c.slots (probe fd k) ≡ none)
      → cache_lookup c fd ≡ none
  lookup-stops k before free = missing (cache_lookup c fd) λ b e.
      let (i, x, a, there, f, w) = lookup-found c fd b e in
      elim (order i k) [
        | inl l ↦
            let (y, same, ne) = before i l in
            ne (ap (λ (z : CacheEntry). z.fd) (some_inj.0 (sym same ∙ there)) ∙ f)
        | inr (inl m) ↦
            let gone : none ≡ some x =
              sym (free (subst (λ z. z < cache_slots) m a))
              ∙ ap (λ z. c.slots (probe fd z)) (sym m)
              ∙ there in
            absurd (cc)
        | inr (inr l) ↦
            let (y, same, ne) = v fd i x a there f k l in
            let gone : none ≡ some y = sym (free (omega (arith, a, l))) ∙ same in absurd (cc)
      ]

  module _ (i : ℕ) (small : i < cache_slots)
      (before : (j : ℕ) → j < i → IsOther fd (c.slots (probe fd j))) where
    -- The slot at step `i` is free, or has an entry for the descriptor.
    free-Inserts :
        c.slots (probe fd i) ≡ none
        → (rest : Status × BufferCache × Heap)
        → Inserts c h fd buf (insert_at c h fd buf (probe fd i) none rest)
    unfolding insert_at Inserts
    free-Inserts s rest =
        let n : CacheEntry = record { fd = fd; buf = buf } in
        let old : (x : CacheEntry) → c.slots (probe fd i) ≡ some x → x.fd ≡ fd =
          λ x there. free_entry x (sym s ∙ there) in
        inl (
          refl,
          stored-IsProbed c (c.count + 1) i n small before old v,
          stored-own c (c.count + 1) i n small before old v,
          λ d ne. stored-other c (c.count + 1) i n small before old v d ne,
          inl (lookup-stops i before (λ _. s), refl, refl),
        )

    refreshed : CacheEntry → ℕ → Status × BufferCache × Heap
    refreshed e d = (
      status_ok,
      record c { slots = put_slot c.slots (probe fd i) (some (record { fd = d; buf = buf })) },
      ref (unref h e.buf) buf,
    )

    own-Inserts :
        (e : CacheEntry)
        → c.slots (probe fd i) ≡ some e
        → e.fd ≡ fd
        → Inserts c h fd buf (refreshed e e.fd)
    unfolding Inserts refreshed
    own-Inserts e s same =
        let n : CacheEntry = record { fd = fd; buf = buf } in
        let old : (x : CacheEntry) → c.slots (probe fd i) ≡ some x → x.fd ≡ fd =
          λ x there. ap (λ (z : CacheEntry). z.fd) (some_inj.0 (sym there ∙ s)) ∙ same in
        subst (λ d. Inserts c h fd buf (refreshed e d)) (sym same)
          (inl (
            refl,
            stored-IsProbed c c.count i n small before old v,
            stored-own c c.count i n small before old v,
            λ d ne. stored-other c c.count i n small before old v d ne,
            inr (e.buf, lookup-finds c fd i e v small s same, refl, refl),
          ))

    further :
        IsOther fd (c.slots (probe fd i)) → (j : ℕ) → j < i + 1 → IsOther fd (c.slots (probe fd j))
    further o j l = elim (order j i) [
      | inl m ↦ before j m
      | inr (inl m) ↦ subst (λ z. IsOther fd (c.slots (probe fd z))) (sym m) o
      | inr (inr m) ↦ absurd (omega (arith, l, m))
    ]

    insert_at-Inserts :
        (o : Option CacheEntry) (rest : Status × BufferCache × Heap)
        → c.slots (probe fd i) ≡ o
        → (IsOther fd (c.slots (probe fd i)) → Inserts c h fd buf rest)
        → Inserts c h fd buf (insert_at c h fd buf (probe fd i) o rest)
    unfolding insert_at refreshed
    insert_at-Inserts none rest s ih = free-Inserts s rest
    insert_at-Inserts (some e) rest s ih =
        if_cases (Inserts c h fd buf) (e.fd == fd) (λ t. own-Inserts e s (ground (arith, t)))
          (λ t. ih (e, s, ground (arith, t)))

  insert_from-Inserts :
      (n i : ℕ)
      → i + n ≡ cache_slots
      → ((j : ℕ) → j < i → IsOther fd (c.slots (probe fd j)))
      → Inserts c h fd buf (insert_from n c h fd buf i)
  unfolding insert_from Inserts
  insert_from-Inserts zero i e before = inr (
    refl,
    refl,
    refl,
    lookup-stops i before (λ l. absurd (omega (arith, e, l))),
    λ x l.
        let (k, a, at) = probe-reaches fd x l in
        let (y, there, ne) = before k (omega (arith, a, e)) in (y, ap c.slots (sym at) ∙ there),
  )
  insert_from-Inserts (suc n) i e before =
      let small : i < cache_slots = omega (arith, e) in
      insert_at-Inserts i small before (c.slots (probe fd i)) (insert_from n c h fd buf (i + 1))
        refl (λ o. insert_from-Inserts n (i + 1) (omega (arith, e)) (further i small before o))

  -- In a table where every entry is met before a free slot, as insertions into an empty table leave it
  -- but an eviction need not, an insertion makes the descriptor answer with the buffer and changes no
  -- other answer: it gives up the reference to the buffer that it replaces, even when that is the
  -- same one, and then takes one to the buffer; or it fails, with all slots taken by others, and
  -- changes nothing. Every entry is again met before a free slot.
  pub cache_insert-Inserts : Inserts c h fd buf (cache_insert c h fd buf)
  unfolding cache_insert
  cache_insert-Inserts =
      insert_from-Inserts cache_slots 0 (omega arith) (λ j l. absurd (omega (arith, l)))

pub cache_insert-IsProbed :
    (c : BufferCache) (h : Heap) (fd buf : ℕ)
    → IsProbed c.slots
    → IsProbed (cache_insert c h fd buf).1.slots
unfolding Inserts
cache_insert-IsProbed c h fd buf v =
    by_case (cache_insert c h fd buf) (cache_insert-Inserts c h fd buf v)
  where
    by_case : (r : Status × BufferCache × Heap) → Inserts c h fd buf r → IsProbed r.1.slots
    by_case (r, c', h') (inl p) = p.1
    by_case (r, c', h') (inr p) = subst (λ (d : BufferCache). IsProbed d.slots) (sym p.1) v
