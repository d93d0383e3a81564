-- ===== src/ThreadPool/Histories.antt =====
-- src/util/isz_thread_pool.c: items in the histories of a pool.
use ishizue.Base.{◌≡◌, refl, ◌⊎◌, inl, inr, List, [], ◌∷◌, ◌++◌}

module _ {A : Type 0} where
  -- The item is in the history.
  abbrev pub Has : A → List A → Type 0
  Has x [] = ⊥
  Has x (y ∷ ys) = (x ≡ y) ⊎ Has x ys

  -- An item at the end of a history.
  pub Has-add : (x y : A) (xs : List A) → Has x xs → Has x (xs ++ y ∷ [])
  Has-add x y [] h = absurd h
  Has-add x y (z ∷ xs) (inl e) = inl e
  Has-add x y (z ∷ xs) (inr h) = inr (Has-add x y xs h)

  pub Has_last : (y : A) (xs : List A) → Has y (xs ++ y ∷ [])
  Has_last y [] = inl refl
  Has_last y (z ∷ xs) = inr (Has_last y xs)

  pub Has_split : (x y : A) (xs : List A) → Has x (xs ++ y ∷ []) → (Has x xs) ⊎ (x ≡ y)
  Has_split x y [] (inl e) = inr e
  Has_split x y [] (inr h) = absurd h
  Has_split x y (z ∷ xs) (inl e) = inl (inl e)
  Has_split x y (z ∷ xs) (inr h) = elim (Has_split x y xs h) [ inl m ↦ inl (inr m) | inr e ↦ inr e ]
