-- ===== src/Allowlist/Cgroups.antt =====
-- src/isz_allowlist.c: the answer over the buffer that the loops rewrite, and the one over its lines.
use ishizue.Base.{
  ℕ, zero, suc, ◌<◌, ◌≡◌, ◌≢◌, refl, sym, ap, subst, ◌∙◌, Bool, true, false, ◌||◌, none, some, List,
  [], ◌∷◌, ◌++◌, map, append_assoc, append-nil, arith, ◌==◌, if◌then◌else◌, if_cases, length,
  length-append, take, drop, set, ◌⊎◌, inl, inr, All,
}
use ishizue.Base.Bytes.{byte_at}
use ishizue.Allowlist.{
  strchr, first_path, strip_path, cgroup_line_path, test_path, walk_line, walk_on, walk,
  matches_lines, matches_cgroup,
}
use ishizue.Allowlist.Lines.{IsText, IsLine, strchr-line, strchr-line_nul, test-line_nul}

-- The lines of a text, each without its newline.
onto_first : ℕ → List (List ℕ) → List (List ℕ)
onto_first x [] = (x ∷ []) ∷ []
onto_first x (l ∷ ls) = (x ∷ l) ∷ ls

pub lines : List ℕ → List (List ℕ)
unfolding onto_first
lines [] = []
lines (x ∷ xs) = let rest = lines xs in if x == 10 then [] ∷ rest else onto_first x rest

-- Its lines have no newline.
pub lines-IsLine : (text : List ℕ) → IsText text → All IsLine (lines text)
unfolding lines onto_first
lines-IsLine [] v = tt
lines-IsLine (x ∷ xs) v = by_test (x == 10) refl (lines xs) (lines-IsLine xs v.1)
  where
    onto : (x ≢ 0) × (x ≢ 10) → (ls : List (List ℕ)) → All IsLine ls → All IsLine (onto_first x ls)
    onto n [] w = ((n, tt), tt)
    onto n (l ∷ ls) w = ((n, w.0), w.1)

    by_test :
        (b : Bool)
        → (x == 10) ≡ b
        → (ls : List (List ℕ)) → All IsLine ls
        → All IsLine (if x == 10 then [] ∷ ls else onto_first x ls)
    by_test true t ls w = rw t (tt, w)
    by_test false t ls w = rw t (onto (v.0, ground (arith, t)) ls w)

-- Whether one line, or one of a list, has its path at or below a stored one.
unfoldable pub below_line : List ℕ → List ℕ → Bool
below_line path l = test_path path (cgroup_line_path l)

unfoldable pub below_any : List ℕ → List (List ℕ) → Bool
unfolding below_line
below_any path [] = false
below_any path (l ∷ ls) = let rest = below_any path ls in if below_line path l then true else rest

-- Whether the first of the lines is below one of the stored paths.
unfoldable pub first_below : List (List ℕ) → List (List ℕ) → Bool
unfolding below_line
first_below cs [] = false
first_below [] (l ∷ ls) = false
first_below (c ∷ cs) (l ∷ ls) =
    let rest = first_below cs (l ∷ ls) in if below_line c l then true else rest

-- A text is one line without a newline, or a line, a newline and more text.
Split : List ℕ → Type 0
Split text =
    IsLine text × (text ≡ [] ⊎ lines text ≡ text ∷ [])
    ⊎ ((l : List ℕ) × (r : List ℕ) × (text ≡ l ++ 10 ∷ r)
        × (strchr 10 text ≡ some (length l))
        × (lines text ≡ l ∷ lines r)
        × IsLine l
        × IsText r)

text-Split : (text : List ℕ) → IsText text → Split text
unfolding Split lines strchr onto_first
text-Split [] v = inl (tt, inl refl)
text-Split (x ∷ xs) v = by_test (x == 10) (text-Split xs v.1) refl
  where
    by_rest : (x == 10) ≡ false → Split xs → Split (x ∷ xs)
    by_rest t (inl (w, inl e)) = inl (((v.0, ground (arith, t)), w), inr (rw (t, e) refl))
    by_rest t (inl (w, inr e)) = inl (((v.0, ground (arith, t)), w), inr (rw (t, e) refl))
    by_rest t (inr (l, r, e, at, ls, w, u)) = inr (
      x ∷ l,
      r,
      ap (◌∷◌ x) e,
      ground (arith, t, at, v.0),
      rw (t, ls) refl,
      ((v.0, ground (arith, t)), w),
      u,
    )

    by_test : (b : Bool) → Split xs → (x == 10) ≡ b → Split (x ∷ xs)
    by_test true r t =
        inr ([], xs, ap (λ y. y ∷ xs) (ground (arith, t)), rw t refl, rw t refl, tt, v.1)
    by_test false r t = by_rest t r

-- The buffer in which the newlines are 0.
pub cut : List ℕ → List ℕ
cut text = map (λ x. if x == 10 then 0 else x) text

cut-line : (l r : List ℕ) → IsLine l → cut (l ++ r) ≡ l ++ cut r
unfolding cut
cut-line [] r v = refl
cut-line (x ∷ l) r v = ground (arith, cut-line l r v.1, v.0.1)

cut-newline : (r : List ℕ) → cut (10 ∷ r) ≡ 0 ∷ cut r
unfolding cut
cut-newline r = refl

-- Reaching over a line.
set-behind : (l r : List ℕ) → set (l ++ 10 ∷ r) (length l) 0 ≡ l ++ 0 ∷ r
set-behind [] r = refl
set-behind (x ∷ l) r = ap (◌∷◌ x) (set-behind l r)

drop-behind : (l r : List ℕ) → drop (suc (length l)) (l ++ 0 ∷ r) ≡ r
drop-behind [] r = refl
drop-behind (x ∷ l) r = drop-behind l r

take-behind : (l r : List ℕ) → take (suc (length l)) (l ++ 0 ∷ r) ≡ l ++ 0 ∷ []
take-behind [] r = refl
take-behind (x ∷ l) r = ap (◌∷◌ x) (take-behind l r)

-- The loop for one path answers for all lines, and leaves the buffer cut where it finds none.
abbrev pub Walks : List ℕ → List ℕ → Bool × List ℕ → Type 0
Walks path text r = (r.0 ≡ below_any path (lines text)) × (r.0 ≡ false → r.1 ≡ cut text)

cut_behind :
    (path l r rest : List ℕ)
    → IsLine l
    → rest ≡ cut r
    → take (suc (length l)) (l ++ 0 ∷ r) ++ rest ≡ cut (l ++ 10 ∷ r)
cut_behind path l r rest v e =
    let c : cut (l ++ 10 ∷ r) ≡ l ++ (0 ∷ cut r) =
      cut-line l (10 ∷ r) v ∙ ap (◌++◌ l) (cut-newline r) in
    rw (take-behind l r, c, e) (append_assoc l (0 ∷ []) (cut r))

walk_line-Walks :
    (path l r : List ℕ) (w : Bool × List ℕ)
    → IsLine l
    → Walks path r w
    → ((walk_line path (l ++ 0 ∷ r) (length l) w).0 ≡ below_any path (l ∷ lines r))
      × ((walk_line path (l ++ 0 ∷ r) (length l) w).0 ≡ false
          → (walk_line path (l ++ 0 ∷ r) (length l) w).1 ≡ cut (l ++ 10 ∷ r))
unfolding walk_line below_any below_line
walk_line-Walks path l r (hit, rest) v w =
    rw (test-line_nul path l r v) (by_test (test_path path (cgroup_line_path l)) refl)
  where
    step : Bool → Bool × List ℕ
    step b = if b then (true, l ++ 0 ∷ r) else (hit, take (suc (length l)) (l ++ 0 ∷ r) ++ rest)

    by_test :
        (b : Bool)
        → test_path path (cgroup_line_path l) ≡ b
        → ((step b).0 ≡ (if b then true else below_any path (lines r)))
          × ((step b).0 ≡ false → (step b).1 ≡ cut (l ++ 10 ∷ r))
    by_test true t = (refl, λ e. absurd (cc))
    by_test false t = (w.0, λ e. cut_behind path l r rest v (w.1 e))

walk-none :
    (fuel : ℕ) (path text : List ℕ)
    → (byte_at text 0 == 0) ≡ false
    → strchr 10 text ≡ none
    → walk (suc fuel) path text ≡ (below_line path text, text)
unfolding walk walk_on below_line
walk-none fuel path text z e = rw (z, e) refl

walk-some :
    (fuel : ℕ) (path l r : List ℕ)
    → (byte_at (l ++ 10 ∷ r) 0 == 0) ≡ false
    → strchr 10 (l ++ 10 ∷ r) ≡ some (length l)
    → walk (suc fuel) path (l ++ 10 ∷ r) ≡ walk_line path (l ++ 0 ∷ r) (length l) (walk fuel path r)
unfolding walk walk_on
walk-some fuel path l r z e = rw (z, e, set-behind l r, drop-behind l r) refl

walk-empty : (fuel : ℕ) (path : List ℕ) → Walks path [] (walk (suc fuel) path [])
unfolding walk below_any lines cut
walk-empty fuel path = (refl, λ e. refl)

one_cut : (text : List ℕ) → IsLine text → cut text ≡ text
unfolding cut
one_cut text w = sym (ap cut (append-nil text)) ∙ cut-line text [] w ∙ append-nil text

one_line :
    (path text : List ℕ)
    → IsLine text
    → lines text ≡ text ∷ []
    → Walks path text (below_line path text, text)
unfolding below_any cut
one_line path text w e = (rw e (ground arith), λ _. sym (one_cut text w))

walk-Walks :
    (fuel : ℕ) (path text : List ℕ)
    → length text < fuel
    → IsText text
    → Walks path text (walk fuel path text)
unfolding Split
walk-Walks zero path text f v = absurd (omega (arith, f))
walk-Walks (suc fuel) path [] f v = walk-empty fuel path
walk-Walks (suc fuel) path (x ∷ xs) f v =
    by_split (λ r k u. walk-Walks fuel path r k u) (text-Split (x ∷ xs) v)
  where
    text : List ℕ
    text = x ∷ xs

    started : (byte_at text 0 == 0) ≡ false
    started = ground (arith, v.0)

    by_split :
        ((r : List ℕ) → length r < fuel → IsText r → Walks path r (walk fuel path r))
        → Split text
        → Walks path text (walk (suc fuel) path text)
    by_split ih (inl (w, inl e)) = absurd (ground (arith, ap length e))
    by_split ih (inl (w, inr e)) =
        subst (Walks path text) (sym (walk-none fuel path text started (strchr-line text w)))
          (one_line path text w e)
    by_split ih (inr (l, r, e, at, ls, w, u)) =
        let shorter : length r < fuel = omega (arith, f, ap length e, length-append l (10 ∷ r)) in
        let step =
          walk-some fuel path l r (subst (λ t. (byte_at t 0 == 0) ≡ false) e started)
            (subst (λ t. strchr 10 t ≡ some (length l)) e at) in
        let found = walk_line-Walks path l r (walk fuel path r) w (ih r shorter u) in
        rw (e, step, subst (λ t. lines t ≡ l ∷ lines r) e ls) found

-- Where a line ends with 0, the loop sees nothing behind it.
walk-stopped :
    (fuel : ℕ) (path l r : List ℕ)
    → IsLine l
    → walk (suc fuel) path (l ++ 0 ∷ r) ≡ (below_line path l, l ++ 0 ∷ r)
unfolding walk below_line cgroup_line_path first_path strip_path strchr test_path
walk-stopped fuel path [] r v = refl
walk-stopped fuel path (x ∷ l) r v =
    walk-none fuel path ((x ∷ l) ++ 0 ∷ r) (ground (arith, v.0.0)) (strchr-line_nul (x ∷ l) r v)
    ∙ ap (λ b. (b, (x ∷ l) ++ 0 ∷ r)) (test-line_nul path (x ∷ l) r v)

-- Where the loop sees one line and leaves the buffer as it is, so it is for all paths.
stopped-first_below :
    (cs : List (List ℕ)) (buf l : List ℕ) (ls : List (List ℕ))
    → ((fuel : ℕ) (path : List ℕ) → walk (suc fuel) path buf ≡ (below_line path l, buf))
    → matches_lines cs buf ≡ first_below cs (l ∷ ls)
unfolding matches_lines first_below
stopped-first_below [] buf l ls e = refl
stopped-first_below (c ∷ cs) buf l ls e =
    rw (e (length buf) c, stopped-first_below cs buf l ls e) refl

nothing-first_below : (cs : List (List ℕ)) → matches_lines cs [] ≡ false
unfolding matches_lines walk
nothing-first_below [] = refl
nothing-first_below (c ∷ cs) = nothing-first_below cs

cut-first_below :
    (cs : List (List ℕ)) (text : List ℕ)
    → IsText text
    → matches_lines cs (cut text) ≡ first_below cs (lines text)
unfolding Split cut first_below lines
cut-first_below cs [] v = nothing-first_below cs
cut-first_below cs (x ∷ xs) v = by_split (text-Split (x ∷ xs) v)
  where
    text : List ℕ
    text = x ∷ xs

    by_split : Split text → matches_lines cs (cut text) ≡ first_below cs (lines text)
    by_split (inl (w, inl e)) = absurd (ground (arith, ap length e))
    by_split (inl (w, inr e)) =
        rw (e, one_cut text w)
          (stopped-first_below cs text text []
            (λ fuel path. walk-none fuel path text (ground (arith, v.0)) (strchr-line text w)))
    by_split (inr (l, r, e, at, ls, w, u)) =
        rw (ls, ap cut e, cut-line l (10 ∷ r) w, cut-newline r)
          (stopped-first_below cs (l ++ 0 ∷ cut r) l (lines r)
            (λ fuel path. walk-stopped fuel path l (cut r) w))

-- For a cgroup file without 0 bytes, the answer over the buffer in which the loops replace newlines is
-- this: the first stored path is compared with every line of the file, each further one only with
-- the first line.
pub matches_cgroup-lines :
    (c : List ℕ) (cs : List (List ℕ)) (text : List ℕ)
    → IsText text
    → matches_cgroup (c ∷ cs) (some text)
      ≡ (below_any c (lines text) || first_below cs (lines text))
unfolding matches_cgroup matches_lines
matches_cgroup-lines c cs text v =
    let w = walk-Walks (suc (length text)) c text (omega arith) v in
    if_cases (λ (b : Bool). b ≡ (below_any c (lines text) || first_below cs (lines text)))
      (walk (suc (length text)) c text).0
      (λ t. ap (λ b. b || first_below cs (lines text)) (sym t ∙ w.0))
      (λ t.
        ap (matches_lines cs) (w.1 t)
        ∙ cut-first_below cs text v
        ∙ ap (λ b. b || first_below cs (lines text)) (sym t ∙ w.0))
