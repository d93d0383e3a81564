-- ===== src/Render/Commit/Rollback.antt =====
-- src/render/isz_commit.c: the release of the slots that a commit newly reserved brings back the table
-- from before.
use ishizue.Base.{
  ℕ, ◌≡◌, refl, sym, ◌∙◌, Bool, true, false, Option, none, some, List, [], ◌∷◌, arith, ◌==◌, ◌&&◌,
  if◌then◌else◌, inl, inr,
}
use ishizue.Render.Slots.{Reservation, holder_of, resv_clear}
use ishizue.Render.Slots.Release.{Distinct, resv_clear-Releases, Releases}
use ishizue.Render.Commit.{CommitReservation, rollback}

-- Who holds which slot of which output, and the change of one of them.
abbrev pub Holders : Type 0
Holders = ℕ → ℕ → Option ℕ

abbrev pub put : ℕ → ℕ → Option ℕ → Holders → Holders
put out slot v f o t = if o == out && t == slot then v else f o t

-- From `f`, the newly reserved slots, each of them free before, lead to `g`.
abbrev pub AddsOne : Bool → ℕ → CommitReservation → (Holders → Type 0) → Holders → Type 0
AddsOne true out e rest f = (f out e.slot_id ≡ none) × rest (put out e.slot_id (some e.surf) f)
AddsOne false out e rest f = rest f

abbrev pub Adds : ℕ → List CommitReservation → Holders → Holders → Type 0
Adds out [] g f = (o t : ℕ) → g o t ≡ f o t
Adds out (e ∷ es) g f = AddsOne e.newly_reserved out e (Adds out es g) f

AddsOne-map :
    (b : Bool) (out : ℕ) (e : CommitReservation) (P Q : Holders → Type 0) (f f' : Holders)
    → ((o t : ℕ) → f o t ≡ f' o t)
    → ((h h' : Holders) → ((o t : ℕ) → h o t ≡ h' o t) → P h → Q h')
    → AddsOne b out e P f
    → AddsOne b out e Q f'
AddsOne-map true out e P Q f f' p k a =
    (sym (p out e.slot_id) ∙ a.0, k _ _ (λ o t. ground (arith, p o t)) a.1)
AddsOne-map false out e P Q f f' p k a = k f f' p a

-- Only the holders matter.
pub Adds-ext :
    (out : ℕ) (es : List CommitReservation) (g g' f f' : Holders)
    → ((o t : ℕ) → g o t ≡ g' o t)
    → ((o t : ℕ) → f o t ≡ f' o t)
    → Adds out es g f
    → Adds out es g' f'
Adds-ext out [] g g' f f' q p a = λ o t. sym (q o t) ∙ a o t ∙ p o t
Adds-ext out (e ∷ es) g g' f f' q p a =
    AddsOne-map e.newly_reserved out e (Adds out es g) (Adds out es g') f f' p
      (λ h h' k. Adds-ext out es g g' h h' q k) a

-- A slot that was taken before the others came is still taken, and may be freed first.
Freed : ℕ → ℕ → ℕ → List CommitReservation → Holders → Holders → Type 0
Freed out slot surf es g f =
    f out slot ≡ none
    → Adds out es g (put out slot (some surf) f)
    → (g out slot ≡ some surf) × Adds out es (put out slot none g) f

AddsOne-free :
    (b : Bool) (out slot surf : ℕ) (e : CommitReservation) (es : List CommitReservation)
    (g f : Holders)
    → ((h : Holders) → Freed out slot surf es g h)
    → f out slot ≡ none
    → AddsOne b out e (Adds out es g) (put out slot (some surf) f)
    → (g out slot ≡ some surf) × AddsOne b out e (Adds out es (put out slot none g)) f
unfolding Freed
AddsOne-free false out slot surf e es g f ih n k = ih f n k
AddsOne-free true out slot surf e es g f ih n (free, k) =
    let f' : Holders = put out e.slot_id (some e.surf) f in
    let before : f out e.slot_id ≡ none = ground (arith, free) in
    let other : (slot == e.slot_id) ≡ false = ground (arith, free) in
    let here : f' out slot ≡ none = ground (arith, n, other) in
    let r = ih f' here (
      Adds-ext out es g g _ (put out slot (some surf) f') (λ o t. refl)
        (λ o t. ground (arith, other)) k) in
    (r.0, (before, r.1))

Adds_free :
    (out slot surf : ℕ) (es : List CommitReservation) (g f : Holders) → Freed out slot surf es g f
unfolding Freed
Adds_free out slot surf [] g f n a = (ground (arith, a out slot), λ o t. ground (arith, a o t, n))
Adds_free out slot surf (e ∷ es) g f n a =
    AddsOne-free e.newly_reserved out slot surf e es g f (Adds_free out slot surf es g) n a

-- The turn of the rollback that frees one slot, for what the other turns do.
rollback_one :
    (b : Bool) (out : ℕ) (e : CommitReservation) (es : List CommitReservation)
    (rs : List Reservation) (f : Holders)
    → ((rs' : List Reservation)
        → Distinct rs'
        → Adds out es (λ o t. holder_of o t rs') f
        → (o t : ℕ) → holder_of o t (rollback out es rs') ≡ f o t)
    → Distinct rs
    → AddsOne b out e (Adds out es (λ o t. holder_of o t rs)) f
    → (o t : ℕ)
    → holder_of o t (rollback out es (if b then resv_clear rs out e.slot_id e.surf else rs)) ≡ f o t
unfolding Freed
rollback_one false out e es rs f ih d k = ih rs d k
rollback_one true out e es rs f ih d (free, k) =
    freed (Adds_free out e.slot_id e.surf es (λ o t. holder_of o t rs) f free k)
      (resv_clear-Releases rs out e.slot_id e.surf d)
  where
    rs' : List Reservation
    rs' = resv_clear rs out e.slot_id e.surf

    freed :
        (holder_of out e.slot_id rs ≡ some e.surf)
          × Adds out es (put out e.slot_id none (λ o t. holder_of o t rs)) f
        → Releases rs out e.slot_id e.surf rs'
        → (o t : ℕ) → holder_of o t (rollback out es rs') ≡ f o t
    freed (held, a') (inr (ne, same)) = absurd (ne held)
    freed (held, a') (inl (_, (d', holders))) =
        ih rs' d' (Adds-ext out es _ _ f f (λ o t. ground (arith, holders o t)) (λ o t. refl) a')

-- Rolling back brings every slot of every output the holder that it had before.
pub rollback-Adds :
    (out : ℕ) (es : List CommitReservation) (rs : List Reservation) (f : Holders)
    → Distinct rs
    → Adds out es (λ o t. holder_of o t rs) f
    → (o t : ℕ) → holder_of o t (rollback out es rs) ≡ f o t
unfolding rollback
rollback-Adds out [] rs f d a = a
rollback-Adds out (e ∷ es) rs f d a =
    rollback_one e.newly_reserved out e es rs f (λ rs' d' a'. rollback-Adds out es rs' f d' a') d a
