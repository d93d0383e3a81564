-- ===== src/Events/IntrusiveList/Refines.antt =====
-- src/util/isz_list.h: the operations on nodes are those on sequences.
use ishizue.Base.{
  ℕ, ◌≡◌, ◌≢◌, refl, sym, ◌∙◌, ap, subst, List, [], ◌∷◌, ◌++◌, append-nil, append_assoc, All, arith,
}
use ishizue.Events.IntrusiveList.{Memory, init_list, insert, push_back, push_front, remove}
use ishizue.Events.IntrusiveList.Ring.{
  Links, last_of, sources, Distinct, IsRing, Links-frame, Links-join, Links-split, All-split,
  All-join, All-last_of, All-sources, All-map, All-both, Distinct-split, Distinct-join, IsCut,
  end-IsCut, inner-IsCut,
}

-- The memory behind the stores of `isz_list_insert`.
module _ (h : Memory) (n p q : ℕ) where
  insert-next : (x : ℕ) → (x ≢ n) × (x ≢ p) → (insert h n p q x).next ≡ (h x).next
  unfolding insert
  insert-next x a = ground arith

  insert-prev : (x : ℕ) → (x ≢ n) × (x ≢ q) → (insert h n p q x).prev ≡ (h x).prev
  unfolding insert
  insert-prev x a = ground arith

  insert-next_p : p ≢ n → (insert h n p q p).next ≡ n
  unfolding insert
  insert-next_p a = ground arith

  insert-prev_q : q ≢ n → (insert h n p q q).prev ≡ n
  unfolding insert
  insert-prev_q a = ground arith

  insert-next_n : (insert h n p q n).next ≡ q
  unfolding insert
  insert-next_n = ground arith

  insert-prev_n : (insert h n p q n).prev ≡ p
  unfolding insert
  insert-prev_n = ground arith

-- And behind those of `isz_list_remove`, of a node that is linked to two others.
module _ (h : Memory) (n p q : ℕ) (before : (h n).prev ≡ p) (behind : (h n).next ≡ q) where
  remove-next : (x : ℕ) → (x ≢ n) × (x ≢ p) → (remove h n x).next ≡ (h x).next
  unfolding remove
  remove-next x a = ground arith

  remove-prev : p ≢ n → (x : ℕ) → (x ≢ n) × (x ≢ q) → (remove h n x).prev ≡ (h x).prev
  unfolding remove
  remove-prev d x a = ground arith

  remove-next_p : p ≢ n → (remove h n p).next ≡ q
  unfolding remove
  remove-next_p a = ground arith

  remove-prev_q : p ≢ n → q ≢ n → (remove h n q).prev ≡ p
  unfolding remove
  remove-prev_q a b = ground arith

  remove_alone : ((remove h n n).next ≡ n) × ((remove h n n).prev ≡ n)
  unfolding remove
  remove_alone = ground arith

-- A node of the ring is another than the one that is inserted or removed.
abbrev Avoids : ℕ → List ℕ → Type 0
Avoids n xs = All (λ x. x ≢ n) xs

module _ (h : Memory) (l : ℕ) (us : List ℕ) (q : ℕ) (vs : List ℕ) (n : ℕ) (c : IsCut l us q vs)
    (front : Avoids n (l ∷ us)) (back : Avoids n (q ∷ vs)) where
  insert-Links : Links h l (us ++ q ∷ vs) → Links (insert h n (last_of l us) q) l (us ++ n ∷ q ∷ vs)
  insert-Links v =
      let p = last_of l us in
      let r = Links-split h l us q vs v in
      Links-join (insert h n p q) l us n (q ∷ vs)
        (Links-frame h (insert h n p q) l us
          (All-map _ _ (sources l us) (insert-next h n p q)
            (All-both _ _ (sources l us) (All-sources _ l us front) c.front_next))
          (All-map _ _ us (insert-prev h n p q) (All-both _ _ us front.1 c.front_prev)) r.0)
        (insert-next_p h n p q (All-last_of _ l us front)) (insert-prev_n h n p q)
        (
          insert-next_n h n p q,
          insert-prev_q h n p q back.0,
          Links-frame h (insert h n p q) q vs
              (All-map _ _ (sources q vs) (insert-next h n p q)
                (All-both _ _ (sources q vs) (All-sources _ q vs back) c.back_next))
              (All-map _ _ vs (insert-prev h n p q) (All-both _ _ vs back.1 c.back_prev)) r.3,
        )

  remove-Links : Links h l (us ++ n ∷ q ∷ vs) → Links (remove h n) l (us ++ q ∷ vs)
  remove-Links v =
      let p = last_of l us in
      let r = Links-split h l us n (q ∷ vs) v in
      let apart = All-last_of _ l us front in
      Links-join (remove h n) l us q vs
        (Links-frame h (remove h n) l us
          (All-map _ _ (sources l us) (remove-next h n p q r.2 r.3.0)
            (All-both _ _ (sources l us) (All-sources _ l us front) c.front_next))
          (All-map _ _ us (remove-prev h n p q r.2 r.3.0 apart)
            (All-both _ _ us front.1 c.front_prev))
          r.0)
        (remove-next_p h n p q r.2 r.3.0 apart) (remove-prev_q h n p q r.2 r.3.0 apart back.0)
        (Links-frame h (remove h n) q vs
          (All-map _ _ (sources q vs) (remove-next h n p q r.2 r.3.0)
            (All-both _ _ (sources q vs) (All-sources _ q vs back) c.back_next))
          (All-map _ _ vs (remove-prev h n p q r.2 r.3.0 apart)
            (All-both _ _ vs back.1 c.back_prev))
          r.3.2)

init-IsRing : (h : Memory) (l : ℕ) → IsRing (init_list h l) l []
unfolding init_list
init-IsRing h l = record { links = (ground arith, ground arith, tt); distinct = (tt, tt) }

module _ (h : Memory) (l : ℕ) where
  insert_ring :
      (us ws : List ℕ) (n q : ℕ) (vs : List ℕ)
      → (ws ++ l ∷ []) ≡ q ∷ vs
      → IsCut l us q vs
      → Avoids n (l ∷ us ++ ws)
      → IsRing h l (us ++ ws)
      → IsRing (insert h n (last_of l us) q) l (us ++ n ∷ ws)
  insert_ring us ws n q vs e c a v =
      let s = All-split _ (l ∷ us) ws a in
      record {
        links =
            subst (Links (insert h n (last_of l us) q) l)
              (ap (λ zs. us ++ n ∷ zs) (sym e) ∙ sym (append_assoc us (n ∷ ws) (l ∷ [])))
              (insert-Links h l us q vs n c s.0
                (subst (Avoids n) e (All-join _ ws (l ∷ []) s.1 (a.0, tt)))
                (subst (Links h l) (append_assoc us ws (l ∷ []) ∙ ap (λ zs. us ++ zs) e) v.links));
        distinct = Distinct-join (l ∷ us) n ws a v.distinct;
      }

  remove_ring :
      (us ws : List ℕ) (n q : ℕ) (vs : List ℕ)
      → (ws ++ l ∷ []) ≡ q ∷ vs
      → IsCut l us q vs
      → IsRing h l (us ++ n ∷ ws)
      → IsRing (remove h n) l (us ++ ws)
  remove_ring us ws n q vs e c v =
      let s = Distinct-split (l ∷ us) n ws v.distinct in
      record {
        links =
            subst (Links (remove h n) l)
              (ap (λ zs. us ++ zs) (sym e) ∙ sym (append_assoc us ws (l ∷ [])))
              (remove-Links h l us q vs n c s.0
                (subst (Avoids n) e (All-join _ ws (l ∷ []) s.1 (s.0.0, tt)))
                (subst (Links h l) (append_assoc us (n ∷ ws) (l ∷ []) ∙ ap (λ zs. us ++ n ∷ zs) e)
                  v.links));
        distinct = s.2;
      }

  -- A new node is pushed behind the last of a ring, and before its first.
  pub push-IsRing :
      (xs : List ℕ) (n : ℕ)
      → Avoids n (l ∷ xs)
      → IsRing h l xs
      → IsRing (push_back h l n) l (xs ++ n ∷ []) × IsRing (push_front h l n) l (n ∷ xs)
  unfolding push_back push_front
  push-IsRing xs n a v = (at_end, at_front xs a v)
    where
      at_end : IsRing (insert h n (h l).prev l) l (xs ++ n ∷ [])
      at_end =
          let same = append-nil xs in
          subst (λ p. IsRing (insert h n p l) l (xs ++ n ∷ []))
            (sym (Links-split h l xs l [] v.links).2)
            (insert_ring xs [] n l [] refl (end-IsCut l xs v.distinct)
              (subst (λ zs. Avoids n (l ∷ zs)) (sym same) a) (subst (IsRing h l) (sym same) v))

      at_front :
          (xs : List ℕ)
          → Avoids n (l ∷ xs)
          → IsRing h l xs
          → IsRing (insert h n l (h l).next) l (n ∷ xs)
      at_front [] a v =
          subst (λ q. IsRing (insert h n l q) l (n ∷ [])) (sym v.links.0)
            (insert_ring [] [] n l [] refl (end-IsCut l [] v.distinct) a v)
      at_front (x ∷ xs) a v =
          subst (λ q. IsRing (insert h n l q) l (n ∷ x ∷ xs)) (sym v.links.0)
            (insert_ring [] (x ∷ xs) n x (xs ++ l ∷ []) refl (inner-IsCut l [] x xs v.distinct) a v)

  -- A node that is removed leaves the other nodes in their order.
  pub remove-IsRing :
      (us : List ℕ) (n : ℕ) (ws : List ℕ)
      → IsRing h l (us ++ n ∷ ws)
      → IsRing (remove h n) l (us ++ ws)
  remove-IsRing us n [] v =
      let s = Distinct-split (l ∷ us) n [] v.distinct in
      remove_ring us [] n l [] refl
        (end-IsCut l us (subst (λ zs. Distinct (l ∷ zs)) (append-nil us) s.2)) v
  remove-IsRing us n (w ∷ ws) v =
      let s = Distinct-split (l ∷ us) n (w ∷ ws) v.distinct in
      remove_ring us (w ∷ ws) n w (ws ++ l ∷ []) refl (inner-IsCut l us w ws s.2) v
