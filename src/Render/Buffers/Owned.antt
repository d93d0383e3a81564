-- ===== src/Render/Buffers/Owned.antt =====
-- src/buffer/isz_buffer.c: a buffer whose reference count is the number of its references stays so
-- under an import and when a reference is let go; it is freed exactly when the last one goes.
use ishizue.Base.{
  ℕ, zero, suc, ◌+◌, ◌-◌, ◌≤◌, ◌<◌, ◌≡◌, refl, subst, ◌∙◌, Bool, true, false, Option, none, some,
  List, [], ◌∷◌, ◌++◌, arith, ltb, ◌==◌, ◌||◌, if◌then◌else◌, if_cases, length, get_elem?, ◌⊎◌, inl,
  inr, ==_iff,
}
use ishizue.Render.Buffers.{
  Buffer, Desc, Heap, Imported, imported, refused, import_buffer, import_desc, allocate, close_fd,
  modify, release, unref, drop_ref, let_go,
}

-- Whether a pointer is `a`.
abbrev pub points_at : ℕ → Option ℕ → ℕ
points_at a none = 0
points_at a (some b) = if b == a then 1 else 0

-- A buffer that `n` references point at: without any it was freed, once; otherwise they are counted
-- and it was never freed. Nothing points at what is no buffer.
abbrev pub Holds : Option Buffer → ℕ → Type 0
Holds none n = n ≡ 0
Holds (some b) n = (n ≡ 0) × (b.frees ≡ 1) ⊎ (0 < n) × (b.refcount ≡ n) × (b.frees ≡ 0)

-- The buffers with the numbers of their references.
abbrev pub Owned : Heap → (ℕ → ℕ) → Type 0
Owned h t = (a : ℕ) → Holds (get_elem? h.cells a) (t a)

pub Owned-ext : (h : Heap) (t t' : ℕ → ℕ) → ((a : ℕ) → t a ≡ t' a) → Owned h t → Owned h t'
Owned-ext h t t' e o a = subst (Holds (get_elem? h.cells a)) (e a) (o a)

-- A store through a pointer changes one buffer.
modify_self :
    (cells : List Buffer) (a : ℕ) (f : Buffer → Buffer) (n m : ℕ)
    → ((c : Buffer) → Holds (some c) n → Holds (some (f c)) m)
    → (n ≡ 0 → m ≡ 0)
    → Holds (get_elem? cells a) n
    → Holds (get_elem? (modify cells a f) a) m
modify_self [] a f n m k z h = z h
modify_self (c ∷ cells) zero f n m k z h = k c h
modify_self (c ∷ cells) (suc a) f n m k z h = modify_self cells a f n m k z h

modify_ne :
    (cells : List Buffer) (a b : ℕ) (f : Buffer → Buffer)
    → (a == b) ≡ false
    → get_elem? (modify cells a f) b ≡ get_elem? cells b
modify_ne [] a b f e = refl
modify_ne (c ∷ cells) zero zero f e = cc
modify_ne (c ∷ cells) zero (suc b) f e = refl
modify_ne (c ∷ cells) (suc a) zero f e = refl
modify_ne (c ∷ cells) (suc a) (suc b) f e = modify_ne cells a b f (ground (arith, e))

drop_ref-Holds : (n : ℕ) (b : Buffer) → 0 < n → Holds (some b) n → Holds (some (drop_ref b)) (n - 1)
drop_ref-Holds n b p (inl (z, _)) = absurd (omega arith)
drop_ref-Holds n b p (inr (_, r, f)) =
    if_cases (λ b'. Holds (some b') (n - 1)) (ltb 1 b.refcount)
      (λ more. inr (ground arith, ground arith, f)) (λ last. inl (ground arith, ground arith))

-- `isz_buffer_release` and `isz_buffer_unref` on a pointer that counts.
pub let_go-Owned :
    (h : Heap) (t : ℕ → ℕ) (o : Option ℕ)
    → Owned h t
    → ((a : ℕ) → points_at a o ≤ t a)
    → Owned (let_go h o) (λ a. t a - points_at a o)
unfolding let_go release unref
let_go-Owned h t none k p a = subst (Holds (get_elem? h.cells a)) (omega arith) (k a)
let_go-Owned h t (some b) k p a = by_test (b == a) refl
  where
    rel : Buffer → Buffer
    rel c = record c { released = true }

    by_test :
        (e : Bool)
        → (b == a) ≡ e
        → Holds
            (get_elem? (modify (modify h.cells b rel) b drop_ref) a)
            (t a - (if e then 1 else 0))
    by_test true e =
        let same : b ≡ a = (==_iff b a).0 e in
        let here : 1 ≤ t b = ground (arith, p b) in
        subst (λ a. Holds (get_elem? (modify (modify h.cells b rel) b drop_ref) a) (t a - 1)) same
          (modify_self (modify h.cells b rel) b drop_ref (t b) (t b - 1)
            (λ c. drop_ref-Holds (t b) c here) (λ z. omega arith)
            (modify_self h.cells b rel (t b) (t b) (λ c x. x) (λ z. z) (k b)))
    by_test false e =
        let gone : get_elem? (modify (modify h.cells b rel) b drop_ref) a ≡ get_elem? h.cells a =
          modify_ne (modify h.cells b rel) b a drop_ref e ∙ modify_ne h.cells b a rel e in
        rw gone (subst (Holds (get_elem? h.cells a)) (omega arith) (k a))

-- `isz_buffer_import`: a buffer with one reference, or none.
abbrev pub gained : ℕ → Imported → ℕ
gained a (imported b) = points_at a (some b)
gained a (refused e) = 0

append-Holds :
    (cells : List Buffer) (b : Buffer) (a n : ℕ)
    → b.frees ≡ 0
    → b.refcount ≡ 1
    → Holds (get_elem? cells a) n
    → Holds (get_elem? (cells ++ b ∷ []) a) (n + (if length cells == a then 1 else 0))
append-Holds [] b zero n f r h = inr (omega arith, omega (arith, r, h), f)
append-Holds [] b (suc a) n f r h = ground (arith, h)
append-Holds (c ∷ cells) b zero n f r h = subst (Holds (some c)) (ground arith) h
append-Holds (c ∷ cells) b (suc a) n f r h =
    subst (Holds (get_elem? (cells ++ b ∷ []) a)) (ground arith) (append-Holds cells b a n f r h)

pub import_buffer-Owned :
    (h : Heap) (t : ℕ → ℕ) (alloc_ok : Bool) (client_id : ℕ) (fd : Option ℕ) (d : Option Desc)
    → Owned h t
    → let r = import_buffer h alloc_ok client_id fd d in Owned r.1 (λ a. t a + gained a r.0)
unfolding import_buffer import_desc allocate close_fd
import_buffer-Owned h t alloc_ok client_id none d k = Owned-ext h t _ (λ a. omega arith) k
import_buffer-Owned h t alloc_ok client_id (some fd) none k = Owned-ext h t _ (λ a. omega arith) k
import_buffer-Owned h t alloc_ok client_id (some fd) (some d) k =
    let P : Imported × Heap → Type 0 = λ r. Owned r.1 (λ a. t a + gained a r.0) in
    if_cases P (d.width == 0 || (d.height == 0 || d.stride == 0))
      (λ _. Owned-ext h t _ (λ a. omega arith) k)
      (λ _.
        if_cases P alloc_ok (λ _ a. append-Holds h.cells _ a (t a) refl refl (k a))
          (λ _. Owned-ext h t _ (λ a. omega arith) k))
