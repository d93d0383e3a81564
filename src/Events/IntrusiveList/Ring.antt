-- ===== src/Events/IntrusiveList/Ring.antt =====
-- src/util/isz_list.h: what it means that a ring of nodes is a sequence.
use ishizue.Base.{ℕ, ◌≡◌, ◌≢◌, refl, sym, ◌∙◌, ap, subst, List, [], ◌∷◌, ◌++◌, All}
use ishizue.Events.IntrusiveList.{Memory}

-- From `a`, the links forward lead through the nodes of the list, and those backward lead back.
abbrev pub Links : Memory → ℕ → List ℕ → Type 0
Links h a [] = Unit
Links h a (x ∷ xs) = ((h a).next ≡ x) × ((h x).prev ≡ a) × Links h x xs

abbrev pub last_of : ℕ → List ℕ → ℕ
last_of a [] = a
last_of a (x ∷ xs) = last_of x xs

-- The nodes whose links forward count.
abbrev pub sources : ℕ → List ℕ → List ℕ
sources a [] = []
sources a (x ∷ xs) = a ∷ sources x xs

abbrev pub Distinct : List ℕ → Type 0
Distinct [] = Unit
Distinct (x ∷ xs) = All (λ y. x ≢ y) xs × Distinct xs

-- The ring at the head `l` holds the sequence `xs`.
pub record IsRing (h : Memory) (l : ℕ) (xs : List ℕ) : Type 0 where
  pub links : Links h l (xs ++ l ∷ [])
  pub distinct : Distinct (l ∷ xs)

pub Links-frame :
    (h k : Memory) (a : ℕ) (xs : List ℕ)
    → All (λ x. (k x).next ≡ (h x).next) (sources a xs)
    → All (λ x. (k x).prev ≡ (h x).prev) xs
    → Links h a xs
    → Links k a xs
Links-frame h k a [] f b v = tt
Links-frame h k a (x ∷ xs) f b v = (f.0 ∙ v.0, b.0 ∙ v.1, Links-frame h k x xs f.1 b.1 v.2)

pub Links-join :
    (h : Memory) (a : ℕ) (us : List ℕ) (w : ℕ) (vs : List ℕ)
    → Links h a us
    → (h (last_of a us)).next ≡ w
    → (h w).prev ≡ last_of a us
    → Links h w vs
    → Links h a (us ++ w ∷ vs)
Links-join h a [] w vs v f b t = (f, b, t)
Links-join h a (u ∷ us) w vs v f b t = (v.0, v.1, Links-join h u us w vs v.2 f b t)

pub Links-split :
    (h : Memory) (a : ℕ) (us : List ℕ) (w : ℕ) (vs : List ℕ)
    → Links h a (us ++ w ∷ vs)
    → Links h a us × ((h (last_of a us)).next ≡ w) × ((h w).prev ≡ last_of a us) × Links h w vs
Links-split h a [] w vs v = (tt, v.0, v.1, v.2)
Links-split h a (u ∷ us) w vs v =
    let r = Links-split h u us w vs v.2 in ((v.0, v.1, r.0), r.1, r.2, r.3)

pub sources-append : (a : ℕ) (us : List ℕ) (w : ℕ) → sources a (us ++ w ∷ []) ≡ a ∷ us
sources-append a [] w = refl
sources-append a (u ∷ us) w = ap (◌∷◌ a) (sources-append u us w)

module _ (P : ℕ → Type 0) where
  pub All-split : (us vs : List ℕ) → All P (us ++ vs) → All P us × All P vs
  All-split [] vs h = (tt, h)
  All-split (u ∷ us) vs h = let r = All-split us vs h.1 in ((h.0, r.0), r.1)

  pub All-join : (us vs : List ℕ) → All P us → All P vs → All P (us ++ vs)
  All-join [] vs h k = k
  All-join (u ∷ us) vs h k = (h.0, All-join us vs h.1 k)

  pub All-last_of : (a : ℕ) (us : List ℕ) → All P (a ∷ us) → P (last_of a us)
  All-last_of a [] h = h.0
  All-last_of a (u ∷ us) h = All-last_of u us h.1

  pub All-sources : (a : ℕ) (us : List ℕ) → All P (a ∷ us) → All P (sources a us)
  All-sources a [] h = tt
  All-sources a (u ∷ us) h = (h.0, All-sources u us h.1)

pub All-map : (P Q : ℕ → Type 0) (us : List ℕ) → ((x : ℕ) → P x → Q x) → All P us → All Q us
All-map P Q [] f h = tt
All-map P Q (u ∷ us) f h = (f u h.0, All-map P Q us f h.1)

pub All-both : (P Q : ℕ → Type 0) (us : List ℕ) → All P us → All Q us → All (λ x. P x × Q x) us
All-both P Q [] h k = tt
All-both P Q (u ∷ us) h k = ((h.0, k.0), All-both P Q us h.1 k.1)

-- The last node is no source of the links before it.
pub last-sources :
    (a : ℕ) (us : List ℕ) → Distinct (a ∷ us) → All (λ x. x ≢ last_of a us) (sources a us)
last-sources a [] d = tt
last-sources a (u ∷ us) d = (All-last_of _ u us d.0, last-sources u us d.1)

-- A node inside a list of distinct ones is none of the others.
pub Distinct-split :
    (us : List ℕ) (w : ℕ) (vs : List ℕ)
    → Distinct (us ++ w ∷ vs)
    → All (λ x. x ≢ w) us × All (λ x. x ≢ w) vs × Distinct (us ++ vs)
Distinct-split [] w vs d = (tt, All-map _ _ vs (λ x n e. n (sym e)) d.0, d.1)
Distinct-split (u ∷ us) w vs d =
    let r = Distinct-split us w vs d.1 in
    let s = All-split _ us (w ∷ vs) d.0 in ((s.1.0, r.0), r.1, (All-join _ us vs s.0 s.1.1, r.2))

pub Distinct-join :
    (us : List ℕ) (w : ℕ) (vs : List ℕ)
    → All (λ x. x ≢ w) (us ++ vs)
    → Distinct (us ++ vs)
    → Distinct (us ++ w ∷ vs)
Distinct-join [] w vs n d = (All-map _ _ vs (λ x m e. m (sym e)) n, d)
Distinct-join (u ∷ us) w vs n d =
    let s = All-split _ us vs d.0 in
    (All-join _ us (w ∷ vs) s.0 (n.0, s.1), Distinct-join us w vs n.1 d.1)

-- The nodes behind are none of those before, the last included.
pub last-behind :
    (a : ℕ) (us ws : List ℕ) → Distinct (a ∷ us ++ ws) → All (λ x. x ≢ last_of a us) ws
last-behind a [] ws d = All-map _ _ ws (λ x n e. n (sym e)) d.0
last-behind a (u ∷ us) ws d = last-behind u us ws d.1

-- Between the nodes `us` behind the head `l` and the node `q` with `vs` behind it, no link but the one
-- that joins them starts at the last of `us`, or leads back from `q`.
pub record IsCut (l : ℕ) (us : List ℕ) (q : ℕ) (vs : List ℕ) : Type 0 where
  pub front_next : All (λ x. x ≢ last_of l us) (sources l us)
  pub front_prev : All (λ x. x ≢ q) us
  pub back_next : All (λ x. x ≢ last_of l us) (sources q vs)
  pub back_prev : All (λ x. x ≢ q) vs

pub end-IsCut : (l : ℕ) (us : List ℕ) → Distinct (l ∷ us) → IsCut l us l []
end-IsCut l us d = record {
  front_next = last-sources l us d;
  front_prev = All-map _ _ us (λ x n e. n (sym e)) d.0;
  back_next = tt;
  back_prev = tt;
}

pub inner-IsCut :
    (l : ℕ) (us : List ℕ) (w : ℕ) (ws : List ℕ)
    → Distinct (l ∷ us ++ w ∷ ws)
    → IsCut l us w (ws ++ l ∷ [])
inner-IsCut l us w ws d =
    let s = Distinct-split (l ∷ us) w ws d in
    record {
      front_next = last-sources l us (front l us (w ∷ ws) d);
      front_prev = s.0.1;
      back_next =
          subst (All (λ x. x ≢ last_of l us)) (sym (sources-append w ws l))
            (last-behind l us (w ∷ ws) d);
      back_prev = All-join _ ws (l ∷ []) s.1 (s.0.0, tt);
    }
  where
    front : (a : ℕ) (us vs : List ℕ) → Distinct (a ∷ us ++ vs) → Distinct (a ∷ us)
    front a [] vs d = (tt, tt)
    front a (u ∷ us) vs d = ((All-split _ (u ∷ us) vs d.0).0, front u us vs d.1)
