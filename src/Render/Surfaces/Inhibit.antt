-- ===== src/Render/Surfaces/Inhibit.antt =====
-- src/render/isz_surface.c: an output's count of inhibiting surfaces, and the events about it.
pub mod Steps
pub mod Session
use ishizue.Base.{
  ℕ, zero, suc, ◌+◌, ◌-◌, ◌<◌, ◌≡◌, refl, sym, Bool, true, false, ◌&&◌, Option, none, some, List,
  [], ◌∷◌, ◌++◌, arith, ltb, ◌==◌, if◌then◌else◌, if_cases, not, Option-cases, ==_iff, ==_refl,
  subst, ◌∙◌, inl, inr,
}
use ishizue.Base.Int.{ℤ, pos, negsuc}
use ishizue.Render.Surfaces.{
  Surface, IdleEvent, World, find, update, remove, is_output, inhibit_adjust, adjusted, transition,
}
use ishizue.Render.Surfaces.Total.{total, total-append, total-update, total-remove, find_serial}

-- Whether the surface inhibits idle on `out`.
abbrev pub inhibits : ℕ → Surface → ℕ
inhibits out s = if s.idle_inhibit && is_output out s.output then 1 else 0

-- What a listener that replays the events, the latest first, knows of an output: whether it is
-- inhibited. An event that tells what was known already gives `none`.
pub told : ℕ → List IdleEvent → Option Bool
told out [] = some false
told out (e ∷ es) =
    let known = told out es in
    if e.output == out
    then elim known [
      | none ↦ none
      | some b ↦ if (if b then e.active else not e.active) then none else some e.active
    ]
    else known

-- The counts are `t`, and the listeners know.
abbrev pub Counts : World → (ℕ → ℕ) → Type 0
Counts w t =
    (out : ℕ) → (w.inhibit_count out ≡ pos (t out)) × (told out w.events ≡ some (ltb 0 (t out)))

-- Each output's count is the number of the surfaces that inhibit idle on it.
abbrev pub IsCounted : World → Type 0
IsCounted w = Counts w (λ out. total (inhibits out) w.surfaces)

abbrev pub plus : Option ℕ → (ℕ → ℕ) → ℕ → ℕ
plus o t out = if is_output out o then t out + 1 else t out

abbrev pub minus : Option ℕ → (ℕ → ℕ) → ℕ → ℕ
minus o t out = if is_output out o then t out - 1 else t out

-- An event is about one output.
told-transition_ne :
    (out o : ℕ) (c c' : ℤ) (es : List IdleEvent)
    → (o == out) ≡ false
    → told out (transition o c c' ++ es) ≡ told out es
unfolding told
told-transition_ne out o (pos zero) (pos zero) es ne = refl
told-transition_ne out o (pos zero) (pos (suc n)) es ne = ground (arith, ne)
told-transition_ne out o (pos zero) (negsuc n) es ne = refl
told-transition_ne out o (pos (suc m)) (pos zero) es ne = ground (arith, ne)
told-transition_ne out o (pos (suc m)) (pos (suc n)) es ne = refl
told-transition_ne out o (pos (suc m)) (negsuc n) es ne = refl
told-transition_ne out o (negsuc m) c' es ne = refl

-- The count of `o` goes up from `n`, or down to `n`.
told-up :
    (o n : ℕ) (es : List IdleEvent)
    → told o es ≡ some (ltb 0 n)
    → told o (transition o (pos n) (pos (suc n)) ++ es) ≡ some true
unfolding told
told-up o zero es e = ground (arith, e)
told-up o (suc n) es e = ground (arith, e)

told-down :
    (o n : ℕ) (es : List IdleEvent)
    → told o es ≡ some (ltb 0 (suc n))
    → told o (transition o (pos (suc n)) (pos n) ++ es) ≡ some (ltb 0 n)
unfolding told
told-down o zero es e = ground (arith, e)
told-down o (suc n) es e = ground (arith, e)

-- The value at the output itself, and at another one.
Value : ℕ → ℤ → List IdleEvent → ℕ → Type 0
Value out c es n = (c ≡ pos n) × (told out es ≡ some (ltb 0 n))

up-Value :
    (o : ℕ) (c : ℤ) (es : List IdleEvent) (n : ℕ)
    → Value o c es n
    → Value o (adjusted true c) (transition o c (adjusted true c) ++ es) (n + 1)
unfolding Value
up-Value o c es n (e, k) = rw e (ground arith, ground (arith, told-up o n es k))

down-Value :
    (o : ℕ) (c : ℤ) (es : List IdleEvent) (n : ℕ)
    → 0 < n
    → Value o c es n
    → Value o (adjusted false c) (transition o c (adjusted false c) ++ es) (n - 1)
unfolding Value
down-Value o c es zero p v = absurd (omega arith)
down-Value o c es (suc n) p (e, k) = rw e (ground arith, ground (arith, told-down o n es k))

module _ (w : World) (t : ℕ → ℕ) (h : Counts w t) where
  -- The events of one output change nothing for another.
  adjust-Counts :
      (o : ℕ) (up : Bool) (f : ℕ → ℕ)
      → (let c' = adjusted up (w.inhibit_count o) in
          Value o c' (transition o (w.inhibit_count o) c' ++ w.events) (f (t o)))
      → Counts (inhibit_adjust w (some o) up) (λ out. if o == out then f (t out) else t out)
  unfolding inhibit_adjust Value
  adjust-Counts o up f v out = by_test (o == out) refl
    where
      after : ℤ
      after = adjusted up (w.inhibit_count o)

      events : List IdleEvent
      events = transition o (w.inhibit_count o) after ++ w.events

      by_test :
          (b : Bool)
          → (o == out) ≡ b
          → Value out
              (if b then after else w.inhibit_count out)
              events
              (if b then f (t out) else t out)
      by_test true e = subst (λ p. Value p after events (f (t p))) ((==_iff o out).0 e) v
      by_test false ne =
          ((h out).0, told-transition_ne out o (w.inhibit_count o) after w.events ne ∙ (h out).1)

  pub inhibit_adjust-plus : (o : Option ℕ) → Counts (inhibit_adjust w o true) (plus o t)
  unfolding inhibit_adjust Value
  inhibit_adjust-plus none out = h out
  inhibit_adjust-plus (some o) out =
      adjust-Counts o true (λ n. n + 1) (up-Value o (w.inhibit_count o) w.events (t o) (h o)) out

  pub inhibit_adjust-minus :
      (o : Option ℕ)
      → ((out : ℕ) → is_output out o ≡ true → 0 < t out)
      → Counts (inhibit_adjust w o false) (minus o t)
  unfolding inhibit_adjust Value
  inhibit_adjust-minus none p out = h out
  inhibit_adjust-minus (some o) p out =
      adjust-Counts o false (λ n. n - 1)
        (down-Value o (w.inhibit_count o) w.events (t o) (p o (==_refl o)) (h o)) out

-- Only the counts and the events of a world matter.
pub Counts-ext :
    (w : World) (t t' : ℕ → ℕ) → ((out : ℕ) → t out ≡ t' out) → Counts w t → Counts w t'
Counts-ext w t t' e h out =
    subst (λ n. (w.inhibit_count out ≡ pos n) × (told out w.events ≡ some (ltb 0 n))) (e out)
      (h out)
