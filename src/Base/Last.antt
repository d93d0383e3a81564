-- ===== src/Base/Last.antt =====
-- An array whose last entry moves into the place of one that is removed.
use Prim.Native.Nat.{ℕ, zero, suc, ◌-◌}
use mathlib.Core.Path.{◌≡◌, refl, ap, sym, subst, ◌∙◌}
use mathlib.Core.List.{List, [], ◌∷◌, ◌++◌, Perm, perm_append_singleton}
use mathlib.Core.List.Perm
use mathlib.Core.Option.{none, some, some_inj}
use native.Mathlib.Omega.{arith}
use ishizue.Base.Lists.{length, get_elem?, set, take}
use ishizue.Base.Tests.{◌==◌, if◌then◌else◌}

module _ {ℓ} {A : Type ℓ} where
  -- The last entry moves down to index `i`, and the array is one shorter.
  moved : List A → ℕ → ℕ → List A
  moved es i count = elim (get_elem? es count) [
    | none ↦ es
    | some last ↦ take count (if i == count then es else set es i last)
  ]

  unfoldable pub swap_remove : List A → ℕ → List A
  unfolding moved
  swap_remove es i = moved es i (length es - 1)

  -- The array without its last entry, and that entry moved to the front of the rest.
  unfoldable pub init_of : A → List A → List A
  init_of e [] = []
  init_of e (x ∷ xs) = e ∷ init_of x xs

  unfoldable pub last_of : A → List A → A
  last_of e [] = e
  last_of e (x ∷ xs) = last_of x xs

  pub init-last : (e : A) (xs : List A) → e ∷ xs ≡ init_of e xs ++ last_of e xs ∷ []
  unfolding init_of last_of
  init-last e [] = refl
  init-last e (x ∷ xs) = ap (◌∷◌ e) (init-last x xs)

  get_elem?-last : (e : A) (xs : List A) → get_elem? (e ∷ xs) (length xs) ≡ some (last_of e xs)
  unfolding last_of
  get_elem?-last e [] = refl
  get_elem?-last e (x ∷ xs) = get_elem?-last x xs

  take-init : (e : A) (xs : List A) → take (length xs) (e ∷ xs) ≡ init_of e xs
  unfolding init_of
  take-init e [] = refl
  take-init e (x ∷ xs) = ap (◌∷◌ e) (take-init x xs)

  swap_remove-cons :
      (e : A) (xs : List A) (i : ℕ)
      → swap_remove (e ∷ xs) i ≡ (
          if i == length xs then init_of e xs else take (length xs) (set (e ∷ xs) i (last_of e xs)))
  unfolding swap_remove
  swap_remove-cons e xs i =
      let n : suc (length xs) - 1 ≡ length xs = omega arith in
      ap (moved (e ∷ xs) i) n ∙ ground (arith, get_elem?-last e xs, take-init e xs)

  pub swap_remove_first :
      (e x : A) (xs : List A) → swap_remove (e ∷ x ∷ xs) zero ≡ last_of x xs ∷ init_of x xs
  unfolding last_of
  swap_remove_first e x xs = swap_remove-cons e (x ∷ xs) zero ∙ ground (arith, take-init x xs)

  pub swap_remove_later :
      (e x : A) (xs : List A) (i : ℕ)
      → swap_remove (e ∷ x ∷ xs) (suc i) ≡ e ∷ swap_remove (x ∷ xs) i
  unfolding last_of init_of
  swap_remove_later e x xs i =
      rw (swap_remove-cons e (x ∷ xs) (suc i), swap_remove-cons x xs i) (ground arith)

  pub swap_remove_one : (e : A) (i : ℕ) → swap_remove (e ∷ []) i ≡ []
  unfolding init_of
  swap_remove_one e i = swap_remove-cons e [] i ∙ ground arith

  perm_last : (x : A) (xs : List A) → Perm (last_of x xs ∷ init_of x xs) (x ∷ xs)
  perm_last x xs =
      subst (Perm (last_of x xs ∷ init_of x xs)) (sym (init-last x xs))
        (Perm.symm (perm_append_singleton (last_of x xs) (init_of x xs)))

  -- The entry that is removed and the others are the array, in another order.
  pub swap_remove-Perm :
      (es : List A) (i : ℕ) (e : A) → get_elem? es i ≡ some e → Perm (e ∷ swap_remove es i) es
  swap_remove-Perm [] i e h = absurd (cc)
  swap_remove-Perm (x ∷ []) zero e h =
      subst (λ y. Perm (y ∷ swap_remove (x ∷ []) zero) (x ∷ [])) (some_inj.0 h)
        (subst (λ zs. Perm (x ∷ zs) (x ∷ [])) (sym (swap_remove_one x zero)) (Perm.refl (x ∷ [])))
  swap_remove-Perm (x ∷ []) (suc i) e h = absurd (cc)
  swap_remove-Perm (x ∷ y ∷ xs) zero e h =
      subst (λ z. Perm (z ∷ swap_remove (x ∷ y ∷ xs) zero) (x ∷ y ∷ xs)) (some_inj.0 h)
        (subst (λ zs. Perm (x ∷ zs) (x ∷ y ∷ xs)) (sym (swap_remove_first x y xs))
          (Perm.cons x (perm_last y xs)))
  swap_remove-Perm (x ∷ y ∷ xs) (suc i) e h =
      subst (λ zs. Perm (e ∷ zs) (x ∷ y ∷ xs)) (sym (swap_remove_later x y xs i))
        (Perm.trans (Perm.swap x e (swap_remove (y ∷ xs) i))
          (Perm.cons x (swap_remove-Perm (y ∷ xs) i e h)))

  length-init_of : (x : A) (xs : List A) → length (init_of x xs) ≡ length xs
  unfolding init_of
  length-init_of x [] = refl
  length-init_of x (y ∷ xs) = ap suc (length-init_of y xs)

  pub length-swap_remove :
      (es : List A) (i : ℕ) (e : A)
      → get_elem? es i ≡ some e
      → suc (length (swap_remove es i)) ≡ length es
  length-swap_remove [] i e h = absurd (cc)
  length-swap_remove (x ∷ []) i e h = ap (λ (zs : List A). suc (length zs)) (swap_remove_one x i)
  length-swap_remove (x ∷ y ∷ xs) zero e h =
      ap (λ (zs : List A). suc (length zs)) (swap_remove_first x y xs)
      ∙ ap (λ n. suc (suc n)) (length-init_of y xs)
  length-swap_remove (x ∷ y ∷ xs) (suc i) e h =
      ap (λ (zs : List A). suc (length zs)) (swap_remove_later x y xs i)
      ∙ ap suc (length-swap_remove (y ∷ xs) i e h)
