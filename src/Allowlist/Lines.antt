-- ===== src/Allowlist/Lines.antt =====
-- src/isz_allowlist.c: a line in a buffer with 0 behind it is tested as the line alone is.
use ishizue.Base.{
  ℕ, zero, suc, ◌≤◌, ◌≡◌, ◌≢◌, refl, ap, ◌∙◌, Bool, true, false, ◌&&◌, ◌||◌, Option, none, some,
  List, [], ◌∷◌, ◌++◌, arith, leb, ◌==◌, length, drop, drop-append_le, All,
}
use ishizue.Base.Bytes.{byte_at}
use ishizue.Allowlist.{
  strchr, strlen, second_path, first_path, strip, strip_path, cgroup_line_path, same_prefix,
  is_below, test_path,
}

-- Bytes without 0, and bytes without a newline.
abbrev pub IsText : List ℕ → Type 0
IsText l = All (λ x. x ≢ 0) l

abbrev pub IsLine : List ℕ → Type 0
IsLine l = All (λ x. (x ≢ 0) × (x ≢ 10)) l

pub drop-IsLine : (n : ℕ) (l : List ℕ) → IsLine l → IsLine (drop n l)
drop-IsLine zero l v = v
drop-IsLine (suc n) [] v = v
drop-IsLine (suc n) (x ∷ l) v = drop-IsLine n l v.1

strchr-lt : (c : ℕ) (l : List ℕ) (i : ℕ) → strchr c l ≡ some i → suc i ≤ length l
unfolding strchr
strchr-lt c [] i e = absurd (cc)
strchr-lt c (x ∷ l) i e = by_rest (strchr c l) refl (λ j k. strchr-lt c l j k)
  where
    by_rest :
        (o : Option ℕ)
        → strchr c l ≡ o
        → ((j : ℕ) → o ≡ some j → suc j ≤ length l)
        → suc i ≤ suc (length l)
    by_rest none t ih = ground (arith, e, t)
    by_rest (some j) t ih = ground (arith, e, t, ih j refl)

strchr-nul : (c : ℕ) (l r : List ℕ) → c ≢ 0 → IsLine l → strchr c (l ++ 0 ∷ r) ≡ strchr c l
unfolding strchr
strchr-nul c [] r n v = ground (arith, n)
strchr-nul c (x ∷ l) r n v = rw (strchr-nul c l r n v.1) refl

pub strchr-line : (l : List ℕ) → IsLine l → strchr 10 l ≡ none
unfolding strchr
strchr-line [] v = refl
strchr-line (x ∷ l) v = ground (arith, strchr-line l v.1, v.0.0, v.0.1)

pub strchr-line_nul : (l r : List ℕ) → IsLine l → strchr 10 (l ++ 0 ∷ r) ≡ none
strchr-line_nul l r v = strchr-nul 10 l r (ground arith) v ∙ strchr-line l v

strlen-nul : (l r : List ℕ) → IsLine l → strlen (l ++ 0 ∷ r) ≡ length l
unfolding strlen
strlen-nul [] r v = refl
strlen-nul (x ∷ l) r v = ground (arith, strlen-nul l r v.1, v.0.0)

pub strlen-line : (l : List ℕ) → IsLine l → strlen l ≡ length l
unfolding strlen
strlen-line [] v = refl
strlen-line (x ∷ l) v = ground (arith, strlen-line l v.1, v.0.0)

same_prefix-nul :
    (path l r : List ℕ)
    → length path ≤ length l
    → (same_prefix path (l ++ 0 ∷ r) ≡ same_prefix path l)
      × (byte_at (l ++ 0 ∷ r) (length path) ≡ byte_at l (length path))
unfolding same_prefix
same_prefix-nul [] [] r h = (refl, refl)
same_prefix-nul [] (x ∷ l) r h = (refl, refl)
same_prefix-nul (a ∷ path) [] r h = absurd (omega (arith, h))
same_prefix-nul (a ∷ path) (x ∷ l) r h =
    let ih = same_prefix-nul path l r (omega (arith, h)) in (rw ih.0 refl, ih.1)

is_below-nul : (path l r : List ℕ) → IsLine l → is_below path (l ++ 0 ∷ r) ≡ is_below path l
unfolding is_below
is_below-nul path l r v =
    rw (strlen-nul l r v, strlen-line l v) (by_test (leb (length path) (length l)) refl)
  where
    by_test :
        (b : Bool)
        → leb (length path) (length l) ≡ b
        → (b
            && (same_prefix path (l ++ 0 ∷ r)
                && (length l == length path || byte_at (l ++ 0 ∷ r) (length path) == 47)))
          ≡ (b
              && (same_prefix path l && (length l == length path || byte_at l (length path) == 47)))
    by_test true t = let p = same_prefix-nul path l r (ground (arith, t)) in rw (p.0, p.1) refl
    by_test false t = refl

-- Where a character is, the line goes on behind it before the 0.
drop-nul :
    (c : ℕ) (l r : List ℕ) (i : ℕ)
    → strchr c l ≡ some i
    → drop (suc i) (l ++ 0 ∷ r) ≡ drop (suc i) l ++ 0 ∷ r
drop-nul c l r i e = drop-append_le (suc i) l (0 ∷ r) (strchr-lt c l i e)

-- The 0 and what is behind it stay behind the path.
pub with_tail : List ℕ → Option (List ℕ) → Option (List ℕ)
with_tail t none = none
with_tail t (some p) = some (p ++ t)

pub IsFound : Option (List ℕ) → Type 0
IsFound none = Unit
IsFound (some p) = IsLine p

second_path-nul :
    (l r : List ℕ) (o : Option ℕ)
    → IsLine l
    → strchr 58 l ≡ o
    → (second_path o (l ++ 0 ∷ r) ≡ with_tail (0 ∷ r) (second_path o l)) × IsFound (second_path o l)
unfolding second_path with_tail IsFound
second_path-nul l r none v e = (refl, tt)
second_path-nul l r (some j) v e = (ap some (drop-nul 58 l r j e), drop-IsLine (suc j) l v)

first_path-nul :
    (l r : List ℕ) (o : Option ℕ)
    → IsLine l
    → strchr 58 l ≡ o
    → (first_path o (l ++ 0 ∷ r) ≡ with_tail (0 ∷ r) (first_path o l)) × IsFound (first_path o l)
unfolding first_path with_tail IsFound
first_path-nul l r none v e = (refl, tt)
first_path-nul l r (some i) v e =
    let rest = drop (suc i) l in
    let w = drop-IsLine (suc i) l v in
    rw (drop-nul 58 l r i e, strchr-nul 58 rest r (ground arith) w)
      (second_path-nul rest r (strchr 58 rest) w refl)

strip_path-line : (o : Option (List ℕ)) → IsFound o → strip_path o ≡ o
unfolding strip_path strip IsFound
strip_path-line none v = refl
strip_path-line (some p) v = rw (strchr-line p v) refl

strip_path-nul :
    (o : Option (List ℕ)) (r : List ℕ)
    → IsFound o
    → strip_path (with_tail (0 ∷ r) o) ≡ with_tail (0 ∷ r) o
unfolding strip_path strip IsFound with_tail
strip_path-nul none r v = refl
strip_path-nul (some p) r v = rw (strchr-line_nul p r v) refl

pub cgroup_line_path-line :
    (l : List ℕ) → IsLine l → cgroup_line_path l ≡ first_path (strchr 58 l) l
unfolding cgroup_line_path
cgroup_line_path-line l v =
    strip_path-line (first_path (strchr 58 l) l) (first_path-nul l [] (strchr 58 l) v refl).1

cgroup_line_path-nul :
    (l r : List ℕ)
    → IsLine l
    → (cgroup_line_path (l ++ 0 ∷ r) ≡ with_tail (0 ∷ r) (cgroup_line_path l))
      × IsFound (cgroup_line_path l)
unfolding cgroup_line_path
cgroup_line_path-nul l r v =
    let f = first_path-nul l r (strchr 58 l) v refl in
    rw (strchr-nul 58 l r (ground arith) v, strip_path-line (first_path (strchr 58 l) l) f.1, f.0)
      (strip_path-nul (first_path (strchr 58 l) l) r f.1, f.1)

test_path-nul :
    (path r : List ℕ) (o : Option (List ℕ))
    → IsFound o
    → test_path path (with_tail (0 ∷ r) o) ≡ test_path path o
unfolding test_path IsFound with_tail
test_path-nul path r none v = refl
test_path-nul path r (some p) v = is_below-nul path p r v

-- A line is tested the same with a 0 behind it.
pub test-line_nul :
    (path l r : List ℕ)
    → IsLine l
    → test_path path (cgroup_line_path (l ++ 0 ∷ r)) ≡ test_path path (cgroup_line_path l)
test-line_nul path l r v =
    let f = cgroup_line_path-nul l r v in
    ap (test_path path) f.0 ∙ test_path-nul path r (cgroup_line_path l) f.1
