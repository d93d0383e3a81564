-- ===== src/Events/Listeners/Rounds.antt =====
-- src/isz_listeners.c: a round over the listeners of a bucket.
use ishizue.Base.{
  ℕ, zero, suc, ◌<◌, ◌==◌, ==_ne, ==_refl, ◌≡◌, ◌≢◌, ◌⊎◌, inl, inr, refl, sym, ap, subst, false,
  none, some, List, [], ◌∷◌, ◌++◌, append_assoc, All, arith, length, if◌then◌else◌, if_cases,
}
use ishizue.Base.Int.{pos}
use ishizue.Status.{status_ok, no_memory}
use ishizue.Events.IntrusiveList.{Memory, remove}
use ishizue.Events.IntrusiveList.Ring.{Links, IsRing, Links-split, Distinct-split}
use ishizue.Events.IntrusiveList.Refines.{push-IsRing, remove-IsRing}
use ishizue.Events.Listeners.{
  Server, listener_bucket, add_listener, add_node, remove_listener, remove_from, emit_event,
  call_from,
}

-- The first node of a sequence, or its head behind the last.
abbrev first_of : ℕ → List ℕ → ℕ
first_of l [] = l
first_of l (x ∷ xs) = x

-- In a ring, a node leads on to the first behind it and is not the head.
module _ (h : Memory) (l : ℕ) (us : List ℕ) (n : ℕ) (ws : List ℕ)
    (v : IsRing h l (us ++ n ∷ ws)) where
  ring-next : (h n).next ≡ first_of l ws
  ring-next =
      next_of ws
        (Links-split h l us n (ws ++ l ∷ [])
          (subst (Links h l) (append_assoc us (n ∷ ws) (l ∷ [])) v.links)).3
    where
      next_of : (ws : List ℕ) → Links h n (ws ++ l ∷ []) → (h n).next ≡ first_of l ws
      next_of [] k = k.0
      next_of (w ∷ ws) k = k.0

  ring-ne : (n == l) ≡ false
  ring-ne = ==_ne n l (λ e. (Distinct-split (l ∷ us) n ws v.distinct).0.0 (sym e))

ring-first : (h : Memory) (l : ℕ) (xs : List ℕ) → IsRing h l xs → (h l).next ≡ first_of l xs
ring-first h l [] v = v.links.0
ring-first h l (x ∷ xs) v = v.links.0

-- A listener that does nothing to the ring, or removes itself.
abbrev pub IsPolite : (Server → ℕ → Server) → Type 0
IsPolite call =
    (srv : Server) (n : ℕ)
    → ((call srv n).memory ≡ srv.memory) ⊎ ((call srv n).memory ≡ remove srv.memory n)

module _ (call : Server → ℕ → Server) (polite : IsPolite call) (l : ℕ) where
  call_from-all :
      (fuel : ℕ) (srv : Server) (us ws : List ℕ)
      → length ws < fuel
      → IsRing srv.memory l (us ++ ws)
      → (call_from fuel call srv l (first_of l ws)).0 ≡ ws
  unfolding call_from
  call_from-all zero srv us ws f v = absurd (omega arith)
  call_from-all (suc fuel) srv us [] f v = rw (==_refl l) refl
  call_from-all (suc fuel) srv us (w ∷ ws) f v =
      rw (ring-ne srv.memory l us w ws v, ring-next srv.memory l us w ws v)
        (ap (◌∷◌ w) (elim (polite srv w) [
          | inl e ↦ call_from-all fuel (call srv w) (us ++ w ∷ []) ws (omega arith) (
              subst (λ h. IsRing h l ((us ++ w ∷ []) ++ ws)) (sym e)
                (subst (IsRing srv.memory l) (sym (append_assoc us (w ∷ []) ws)) v))
          | inr e ↦
              call_from-all fuel (call srv w) us ws (omega arith)
                (subst (λ h. IsRing h l (us ++ ws)) (sym e) (remove-IsRing srv.memory l us w ws v))
        ]))

  -- An event of a running server calls every listener of its bucket once, in the order of the ring,
  -- if a listener does nothing to the ring but remove itself; the loop ends, one turn for each
  -- listener and one more being enough. The bucket of a type of 32 or more is the one of 0, which has
  -- the listeners that were registered for such types.
  pub emit_event-Calls :
      (fuel : ℕ) (srv : Server) (t : ℕ) (xs : List ℕ)
      → srv.destroying ≡ false
      → srv.heads (listener_bucket t) ≡ l
      → IsRing srv.memory l xs
      → length xs < fuel
      → (emit_event fuel call srv t).0 ≡ xs
  unfolding emit_event
  emit_event-Calls fuel srv t xs d e v f =
      if_cases (λ (r : List ℕ × Server). r.0 ≡ xs) srv.destroying (λ t. absurd (cc))
        (λ _. rw (e, ring-first srv.memory l xs v) (call_from-all fuel srv [] xs f v))

-- The listeners of a ring with this function, and the others.
pub with_fn : (ℕ → ℕ) → ℕ → List ℕ → List ℕ
with_fn fns fn [] = []
with_fn fns fn (x ∷ xs) = let rest = with_fn fns fn xs in if fns x == fn then x ∷ rest else rest

pub without_fn : (ℕ → ℕ) → ℕ → List ℕ → List ℕ
without_fn fns fn [] = []
without_fn fns fn (x ∷ xs) =
    let rest = without_fn fns fn xs in if fns x == fn then rest else x ∷ rest

-- What a removal from the ring of these nodes leaves: the other nodes in order, and it frees the rest.
pub record Removes (l : ℕ) (srv : Server) (fn : ℕ) (us xs : List ℕ) (r : List ℕ × Server)
    : Type 0 where
  pub freed : r.0 ≡ with_fn srv.fns fn xs
  pub left : IsRing r.1.memory l (us ++ without_fn srv.fns fn xs)
  pub same_fns : r.1.fns ≡ srv.fns

module _ (l fn : ℕ) where
  remove_from-Removes :
      (fuel : ℕ) (srv : Server) (us ws : List ℕ)
      → length ws < fuel
      → IsRing srv.memory l (us ++ ws)
      → Removes l srv fn us ws (remove_from fuel srv l (first_of l ws) fn)
  unfolding remove_from with_fn without_fn
  remove_from-Removes zero srv us ws f v = absurd (omega arith)
  remove_from-Removes (suc fuel) srv us [] f v =
      rw (==_refl l) record { freed = refl; left = v; same_fns = refl }
  remove_from-Removes (suc fuel) srv us (w ∷ ws) f v =
      rw (ring-ne srv.memory l us w ws v, ring-next srv.memory l us w ws v)
        (if_cases (Removes l srv fn us (w ∷ ws)) (srv.fns w == fn)
          (λ t.
            let r =
              remove_from-Removes fuel (record srv { memory = remove srv.memory w }) us ws
                (omega arith) (remove-IsRing srv.memory l us w ws v) in
            record { freed = rw t (ap (◌∷◌ w) r.freed); left = rw t r.left; same_fns = r.same_fns })
          (λ t.
            let r =
              remove_from-Removes fuel srv (us ++ w ∷ []) ws (omega arith)
                (subst (IsRing srv.memory l) (sym (append_assoc us (w ∷ []) ws)) v) in
            record {
              freed = rw t r.freed;
              left =
                  rw t (
                    subst (IsRing _ l) (append_assoc us (w ∷ []) (without_fn srv.fns fn ws))
                      r.left);
              same_fns = r.same_fns;
            }))

-- The listener `n` has this function and data, and the others have theirs.
pub record Stores (srv : Server) (n fn userdata : ℕ) (r : Server) : Type 0 where
  pub own_fn : r.fns n ≡ fn
  pub own_userdata : r.userdata n ≡ userdata
  pub other_fns : (x : ℕ) → x ≢ n → r.fns x ≡ srv.fns x
  pub other_userdata : (x : ℕ) → x ≢ n → r.userdata x ≡ srv.userdata x

add_node-Stores :
    (srv : Server) (l fn userdata n : ℕ)
    → Stores srv n fn userdata (add_node srv l fn userdata (some n)).1
unfolding add_node
add_node-Stores srv l fn userdata n = record {
  own_fn = rw (==_refl n) refl;
  own_userdata = rw (==_refl n) refl;
  other_fns = λ x ne. rw (==_ne x n ne) refl;
  other_userdata = λ x ne. rw (==_ne x n ne) refl;
}

-- A registration puts the new listener behind those of its bucket with the function and the data that
-- were given, and leaves those of the others, or tells why not and changes nothing; a removal takes exactly the listeners with the function off the ring, in one turn for
-- each listener and one more, and frees just them. The bucket of a type of 32 or more is the one of 0,
-- which these types share.
pub listeners-Change :
    (fuel : ℕ) (srv : Server) (t fn userdata n : ℕ) (xs : List ℕ)
    → fn ≢ 0
    → t ≢ 0
    → IsRing srv.memory (srv.heads (listener_bucket t)) xs
    → All (λ x. x ≢ n) (srv.heads (listener_bucket t) ∷ xs)
    → length xs < fuel
    → (add_listener srv (pos t) fn userdata none ≡ (no_memory, srv))
      × ((add_listener srv (pos t) fn userdata (some n)).0 ≡ status_ok)
      × IsRing
          (add_listener srv (pos t) fn userdata (some n)).1.memory
          (srv.heads (listener_bucket t))
          (xs ++ n ∷ [])
      × Stores srv n fn userdata (add_listener srv (pos t) fn userdata (some n)).1
      × ((remove_listener fuel srv (pos t) fn).0 ≡ status_ok)
      × Removes
          (srv.heads (listener_bucket t))
          srv
          fn
          []
          xs
          ((remove_listener fuel srv (pos t) fn).1, (remove_listener fuel srv (pos t) fn).2)
unfolding add_listener add_node remove_listener
listeners-Change fuel srv t fn userdata n xs some_fn some_type v a f =
    let l = srv.heads (listener_bucket t) in
    rw (==_ne fn 0 some_fn, ==_ne t 0 some_type)
      (
        refl,
        refl,
        (push-IsRing srv.memory l xs n a v).0,
        add_node-Stores srv l fn userdata n,
        refl,
        rw (ring-first srv.memory l xs v) (remove_from-Removes l fn fuel srv [] xs f v),
      )
