-- ===== src/ThreadPool/Places.antt =====
-- src/util/isz_thread_pool.c: the places of the workers, and the items that they stand for.
use ishizue.Base.{
  ℕ, ◌<◌, ◌==◌, ==_iff, ==_refl, ◌≡◌, ◌≢◌, refl, sym, ◌∙◌, ap, subst, ◌⊎◌, inl, inr, Bool, true,
  false, List, [], ◌∷◌, ◌++◌, if◌then◌else◌, if_cases,
}
use ishizue.ThreadPool.{WorkItem, Worker}
use ishizue.ThreadPool.Histories.{Has, Has-add, Has_last, Has_split}

-- A worker of the pool is at this place.
pub record Holds (n : ℕ) (ws : ℕ → Worker) (w : Worker) : Type 0 where
  pub at : ℕ
  pub spawned : at < n
  pub place : ws at ≡ w

module _ (n : ℕ) (ws : ℕ → Worker) (i : ℕ) (w : Worker) where
  -- The places after one worker moved.
  abbrev pub placed : ℕ → Worker
  placed j = if j == i then w else ws j

  pub moved {ℓ} :
      {G : Type ℓ} (j : ℕ) (t : Worker) → (w ≡ t → G) → (ws j ≡ t → G) → placed j ≡ t → G
  moved {G = G} j t f g = if_cases (λ v. v ≡ t → G) (j == i) (λ _. f) (λ _. g)

  Holds-placed : (t : Worker) → ws i ≢ t → Holds n ws t → Holds n placed t
  Holds-placed t ne h = record {
    at = h.at;
    spawned = h.spawned;
    place =
        if_cases (λ v. v ≡ t) (h.at == i)
          (λ e. absurd (ne (ap ws (sym ((==_iff h.at i).0 e)) ∙ h.place))) (λ _. h.place);
  }

  Holds_own : i < n → Holds n placed w
  Holds_own lt = record {
    at = i;
    spawned = lt;
    place = subst (λ b. (if b then w else ws i) ≡ w) (sym (==_refl i)) refl;
  }

  -- A place that the worker left is another's, or the items that stood for it have moved on.
  pub kept {ℓ} : {G : Type ℓ} (t : Worker) → ws i ≢ t → G ⊎ Holds n ws t → G ⊎ Holds n placed t
  kept t ne (inl g) = inl g
  kept t ne (inr h) = inr (Holds-placed t ne h)

  -- The item that the worker stood for goes into a history.
  pub settle :
      (K : WorkItem → Worker) (item x : WorkItem) (xs : List WorkItem)
      → ws i ≡ K item
      → (K item ≡ K x → item ≡ x)
      → (Has x xs) ⊎ Holds n ws (K x)
      → (Has x (xs ++ item ∷ [])) ⊎ Holds n placed (K x)
  settle K item x xs e inj (inl m) = inl (Has-add x item xs m)
  settle K item x xs e inj (inr h) = by_place (h.at == i) refl
    where
      by_place : (b : Bool) → (h.at == i) ≡ b → (Has x (xs ++ item ∷ [])) ⊎ Holds n placed (K x)
      by_place true q =
          let same = inj (sym e ∙ ap ws (sym ((==_iff h.at i).0 q)) ∙ h.place) in
          inl (subst (λ y. Has y (xs ++ item ∷ [])) same (Has_last item xs))
      by_place false q = inr record {
        at = h.at;
        spawned = h.spawned;
        place = subst (λ b. (if b then w else ws h.at) ≡ K x) (sym q) h.place;
      }

  -- The item at the end of a history is the worker's, each other one was settled before.
  pub entrust :
      {P : WorkItem → Type 0} (K : WorkItem → Worker) (item x : WorkItem) (xs : List WorkItem)
      → w ≡ K item
      → i < n
      → ws i ≢ K x
      → ((y : WorkItem) → Has y xs → P y ⊎ Holds n ws (K y))
      → Has x (xs ++ item ∷ [])
      → P x ⊎ Holds n placed (K x)
  entrust K item x xs e lt ne old h = elim (Has_split x item xs h) [
    | inl m ↦ kept (K x) ne (old x m)
    | inr s ↦ inr (subst (λ t. Holds n placed t) (e ∙ ap K (sym s)) (Holds_own lt))
  ]
