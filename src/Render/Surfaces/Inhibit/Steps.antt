-- ===== src/Render/Surfaces/Inhibit/Steps.antt =====
-- src/render/isz_surface.c: every call on the surfaces keeps the outputs' inhibition counted.
use ishizue.Base.{
  ℕ, ◌+◌, ◌-◌, ◌≤◌, ◌≡◌, refl, Bool, true, false, ◌&&◌, none, some, arith, if◌then◌else◌, if_cases,
  not,
}
use ishizue.Status.{Status}
use ishizue.Render.Surfaces.{Surface, World, find, update, is_output, inhibit_adjust}
use ishizue.Render.Surfaces.Operations.{
  create_with, blank, destroy_found, uninhibit, set_output_found, move_inhibit, clear_output_found,
  set_idle_found,
}
use ishizue.Render.Surfaces.Total.{total, total-append, total-update, total-remove}
use ishizue.Render.Surfaces.Inhibit.{
  inhibits, Counts, IsCounted, plus, minus, inhibit_adjust-plus, inhibit_adjust-minus, Counts-ext,
}

-- The counts and the events are those of `w`; each output's inhibiting surfaces are as many.
pub same :
    (w w' : World)
    → (w'.inhibit_count ≡ w.inhibit_count) × (w'.events ≡ w.events)
    → ((out : ℕ) → total (inhibits out) w'.surfaces ≡ total (inhibits out) w.surfaces)
    → IsCounted w
    → IsCounted w'
same w w' e k h out = rw (e.0, e.1, k out) (h out)

-- A new surface inhibits nothing.
pub create_with-IsCounted :
    (w : World) (f : Surface → Surface)
    → (f (blank (w.next_serial + 1))).idle_inhibit ≡ false
    → IsCounted w
    → IsCounted (create_with w f)
unfolding create_with
create_with-IsCounted w f e h =
    same w (create_with w f) (refl, refl)
      (λ out.
        ground (arith, total-append (inhibits out) w.surfaces (f (blank (w.next_serial + 1))), e))
      h

module _ (w : World) (h : IsCounted w) where
  -- The sum over the surfaces, for the surface `s` that a pointer stands for.
  abbrev sum : ℕ → ℕ
  sum out = total (inhibits out) w.surfaces

  module _ (serial : ℕ) (s : Surface) (e : find serial w.surfaces ≡ some s) where
    inhibits-le : (out : ℕ) → inhibits out s ≤ sum out
    inhibits-le out = omega (arith, total-remove (inhibits out) serial s w.surfaces e)

    uninhibit-Counts : Counts (uninhibit w s) (λ out. sum out - inhibits out s)
    uninhibit-Counts =
        if_cases (λ w'. Counts w' (λ out. sum out - inhibits out s)) s.idle_inhibit
          (λ on.
            Counts-ext (inhibit_adjust w s.output false) (minus s.output sum) _
              (λ out. ground (arith, on))
              (inhibit_adjust-minus w sum h s.output
                (λ out k. ground (arith, inhibits-le out, on, k))))
          (λ off. Counts-ext w sum _ (λ out. ground (arith, off)) h)

    pub destroyed-IsCounted : IsCounted (destroy_found w serial (some s))
    unfolding destroy_found
    destroyed-IsCounted =
        Counts-ext (uninhibit w s) (λ out. sum out - inhibits out s) _
          (λ out. omega (arith, total-remove (inhibits out) serial s w.surfaces e)) uninhibit-Counts

    -- A store through the pointer, in a world with the counts that this store gives.
    stored :
        (w' : World) (t : ℕ → ℕ) (f : Surface → Surface)
        → Counts w' t
        → ((out : ℕ) → t out + inhibits out s ≡ sum out + inhibits out (f s))
        → Counts w' (λ out. total (inhibits out) (update serial f w.surfaces))
    stored w' t f k e' =
        Counts-ext w' t _
          (λ out. omega (arith, total-update (inhibits out) serial s f w.surfaces e, e' out)) k

    pub set_output-Counts : (out : ℕ) → IsCounted (set_output_found w serial (some s) out).1
    unfolding set_output_found move_inhibit
    set_output-Counts out =
        let f : Surface → Surface = λ t. record t { output = some out } in
        if_cases (λ w'. Counts w' (λ o. total (inhibits o) (update serial f w.surfaces)))
          (s.idle_inhibit && not (is_output out s.output))
          (λ on.
            stored (inhibit_adjust (inhibit_adjust w s.output false) (some out) true)
              (plus (some out) (minus s.output sum)) f
              (inhibit_adjust-plus (inhibit_adjust w s.output false) (minus s.output sum)
                (inhibit_adjust-minus w sum h s.output
                  (λ o k. ground (arith, inhibits-le o, on, k)))
                (some out))
              (λ o. ground (arith, on, inhibits-le o)))
          (λ off. stored w sum f h (λ o. ground (arith, off)))

    pub clear_output-Counts : IsCounted (clear_output_found w serial (some s)).1
    unfolding clear_output_found
    clear_output-Counts =
        stored (uninhibit w s) (λ out. sum out - inhibits out s) (λ t. record t { output = none })
          uninhibit-Counts (λ out. ground (arith, inhibits-le out))

    pub set_idle-Counts : (b : Bool) → IsCounted (set_idle_found w serial (some s) b).1
    unfolding set_idle_found
    set_idle-Counts b =
        let f : Surface → Surface = λ t. record t { idle_inhibit = b } in
        if_cases (λ (o : Status × World). IsCounted o.1) (if s.idle_inhibit then b else not b)
          (λ _. h) (λ ne. adjusted_by b ne)
      where
        adjusted_by :
            (b : Bool)
            → (if s.idle_inhibit then b else not b) ≡ false
            → Counts (inhibit_adjust w s.output b) (λ out.
              total (inhibits out) (update serial (λ t. record t { idle_inhibit = b }) w.surfaces))
        adjusted_by true ne =
            stored (inhibit_adjust w s.output true) (plus s.output sum)
              (λ t. record t { idle_inhibit = true }) (inhibit_adjust-plus w sum h s.output)
              (λ o. ground (arith, ne))
        adjusted_by false ne =
            stored (inhibit_adjust w s.output false) (minus s.output sum)
              (λ t. record t { idle_inhibit = false })
              (inhibit_adjust-minus w sum h s.output (λ o k. ground (arith, inhibits-le o, ne, k)))
              (λ o. ground (arith, ne, inhibits-le o))
