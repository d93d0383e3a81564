-- ===== src/Dispatch/Handlers/Damaged.antt =====
-- src/isz_client_dispatch.c: from the bytes of a SURFACE_DAMAGE to the damage of the surface.
use ishizue.Base.{
  ℕ, zero, suc, ◌+◌, ◌-◌, ◌*◌, ltb, false, ◌≡◌, refl, ap, sym, subst, ◌∙◌, Bool, true, Option, some,
  List, [], ◌∷◌, ◌++◌, arith, length, drop, ◌==◌, if_cases,
}
use ishizue.Base.Bytes.{put_u32_le, IsU32}
use ishizue.Base.Int.{to_u32, IsI32}
use ishizue.Status.{Status, status_ok}
use ishizue.Conn.{Conn, Env}
use ishizue.Protocol.Payload.{read_u32_checked}
use ishizue.Render.Surfaces.{Rect, Surface, World, find}
use ishizue.Render.Surfaces.Setters.{damage_surface, damage_found}
use ishizue.Dispatch.{Host, surface_damage}
use ishizue.Dispatch.Parse.Encoded.{read_u32_checked-put, read_i32-put}
use ishizue.Dispatch.Handlers.{surface_of, silent, told_status}
use ishizue.Dispatch.Handlers.Damage.{parse_damage, read_rects, damage_object, handle_damage}
use ishizue.Dispatch.Handlers.Switch.{handle, Dispatched, replied, handle_client_message}

-- The payload of a client's request: the surface, the number of rectangles, and their corners.
abbrev pub put_rects : List Rect → List ℕ → List ℕ
put_rects [] rest = rest
put_rects (r ∷ rs) rest =
    put_u32_le (to_u32 r.x1)
    ++ (put_u32_le (to_u32 r.y1)
        ++ (put_u32_le (to_u32 r.x2) ++ (put_u32_le (to_u32 r.y2) ++ put_rects rs rest)))

abbrev pub encoded_damage : ℕ → List Rect → List ℕ → List ℕ
encoded_damage id rs rest = put_u32_le id ++ (put_u32_le (length rs) ++ put_rects rs rest)

-- The corners are signed 32-bit numbers.
abbrev pub AreI32 : List Rect → Type 0
AreI32 [] = Unit
AreI32 (r ∷ rs) = IsI32 r.x1 × IsI32 r.y1 × IsI32 r.x2 × IsI32 r.y2 × AreI32 rs

length-put_rects :
    (rs : List Rect) (rest : List ℕ) → length (put_rects rs rest) ≡ length rs * 16 + length rest
unfolding put_u32_le
length-put_rects [] rest = omega arith
length-put_rects (r ∷ rs) rest = omega (arith, length-put_rects rs rest)

drop-nil : (n : ℕ) → drop {A = ℕ} n [] ≡ []
drop-nil zero = refl
drop-nil (suc n) = refl

drop-drop : (k n : ℕ) (p : List ℕ) → drop k (drop n p) ≡ drop (n + k) p
drop-drop k zero p = ap (λ m. drop m p) (omega arith)
drop-drop k (suc n) [] = drop-nil k ∙ sym (drop-nil (suc n + k))
drop-drop k (suc n) (x ∷ p) =
    let e : suc (n + k) ≡ suc n + k = omega arith in drop-drop k n p ∙ ap (λ m. drop m (x ∷ p)) e

read-put_rects :
    (rs : List Rect) (rest p : List ℕ) (off : ℕ)
    → AreI32 rs
    → drop off p ≡ put_rects rs rest
    → read_rects (length rs) p off ≡ rs
unfolding read_rects put_u32_le
read-put_rects [] rest p off v e = refl
read-put_rects (r ∷ rs) rest p off (a, b, c, d, v) e =
    let behind : (k : ℕ) → drop (off + k) p ≡ drop k (put_rects (r ∷ rs) rest) =
      λ k. sym (drop-drop k off p) ∙ ap (drop k) e in
    rw
      (
        read_i32-put p _ off r.x1 a e,
        read_i32-put p _ (off + 4) r.y1 b (behind 4),
        read_i32-put p _ (off + 8) r.x2 c (behind 8),
        read_i32-put p _ (off + 12) r.y2 d (behind 12),
        read-put_rects rs rest p (off + 16) v (behind 16),
      )
      refl

-- What a handler tells is sent, or queued; the surfaces are as the call has left them.
told-Dispatched :
    (env : Env) (c : Conn) (fds : List (Option ℕ)) (r : Status × World)
    → let h = told_status c fds surface_damage r in
      let d = replied env h h.reply in
      (d.status ≡ status_ok) × (d.world ≡ r.1) × (r.0 ≡ status_ok → (d.conn ≡ c) × (d.wire ≡ []))
unfolding told_status replied
told-Dispatched env c fds (status_ok, w) = (refl, refl, λ _. (refl, refl))
told-Dispatched env c fds (e, w) = (refl, refl, λ ok. absurd (ground (arith, ok)))

module _ (id : ℕ) (rs : List Rect) (rest : List ℕ) where
  length-encoded_damage : length (encoded_damage id rs rest) ≡ 8 + length rs * 16 + length rest
  unfolding put_u32_le
  length-encoded_damage = omega (arith, length-put_rects rs rest)

  drop-encoded_damage_number :
      drop 4 (encoded_damage id rs rest) ≡ put_u32_le (length rs) ++ put_rects rs rest
  unfolding put_u32_le
  drop-encoded_damage_number = refl

  drop-encoded_damage_rects : drop 8 (encoded_damage id rs rest) ≡ put_rects rs rest
  unfolding put_u32_le
  drop-encoded_damage_rects = refl

  parse_damage-encoded_damage :
      IsU32 id
      → IsU32 (length rs)
      → parse_damage (encoded_damage id rs rest) ≡ some (id, length rs, 8)
  unfolding parse_damage
  parse_damage-encoded_damage h k =
      let p = encoded_damage id rs rest in
      let long = length-encoded_damage in
      let a : read_u32_checked p 0 (length p) ≡ some (id, 4) =
        read_u32_checked-put p _ 0 (omega (arith, long)) id h refl in
      let b : read_u32_checked p 4 (length p) ≡ some (length rs, 8) =
        read_u32_checked-put p _ 4 (omega (arith, long)) (length rs) k drop-encoded_damage_number in
      let fits : ltb (length p - 8) (length rs * 16) ≡ false = ground (arith, long) in
      rw (a, b, fits) refl

-- No rectangles are no error.
told_nothing :
    (c : Conn) (w : World) (n : ℕ) (s : Surface) (ok : Bool) (fds : List (Option ℕ))
    → find n w.surfaces ≡ some s
    → silent c (damage_surface w n ok []).1 fds
      ≡ told_status c fds surface_damage (damage_surface w n ok [])
unfolding damage_surface damage_found told_status
told_nothing c w n s ok fds found = rw found refl

-- The rectangles of the request, and what is told.
handled :
    (host : Host) (c : Conn) (w : World) (id n : ℕ) (s : Surface) (rs : List Rect) (rest : List ℕ)
    (fds : List (Option ℕ))
    → host.rects_ok ≡ true
    → AreI32 rs
    → surface_of c id ≡ some n
    → find n w.surfaces ≡ some s
    → handle_damage host c w (encoded_damage id rs rest) fds (some (id, length rs, 8))
      ≡ told_status c fds surface_damage (damage_surface w n host.damage_ok rs)
unfolding handle_damage damage_object
handled host c w id n s [] rest fds ok v e found =
    rw e (told_nothing c w n s host.damage_ok fds found)
handled host c w id n s (r ∷ rs) rest fds ok v e found =
    let some_left : (length (r ∷ rs) == 0) ≡ false = ground arith in
    rw
      (
        e,
        some_left,
        ok,
        read-put_rects (r ∷ rs) rest (encoded_damage id (r ∷ rs) rest) 8 v
            (drop-encoded_damage_rects id (r ∷ rs) rest),
      )
      refl

-- A client that has finished its handshake writes the id of one of its surfaces, a number of
-- rectangles and their signed 32-bit corners, whatever follows them, and there is memory to read
-- them: then the call returns ISZ_OK and has done what `isz_surface_damage` does with exactly these
-- rectangles, and where that succeeds nothing is sent.
pub handle_client_message-Damages :
    (host : Host) (env : Env) (c : Conn) (w : World) (id n : ℕ) (s : Surface) (rs : List Rect)
    (rest : List ℕ) (fds : List (Option ℕ))
    → c.handshake_done ≡ true
    → host.rects_ok ≡ true
    → IsU32 id
    → IsU32 (length rs)
    → AreI32 rs
    → surface_of c id ≡ some n
    → find n w.surfaces ≡ some s
    → let d = handle_client_message host env c w surface_damage (encoded_damage id rs rest) fds in
      let r = damage_surface w n host.damage_ok rs in
      (d.status ≡ status_ok) × (d.world ≡ r.1) × (r.0 ≡ status_ok → (d.conn ≡ c) × (d.wire ≡ []))
unfolding handle_client_message handle
handle_client_message-Damages host env c w id n s rs rest fds done ok h k v e found =
    let r = damage_surface w n host.damage_ok rs in
    let P : Dispatched → Type 0 = λ d.
      (d.status ≡ status_ok) × (d.world ≡ r.1) × (r.0 ≡ status_ok → (d.conn ≡ c) × (d.wire ≡ [])) in
    let run =
      ap (handle_damage host c w (encoded_damage id rs rest) fds)
        (parse_damage-encoded_damage id rs rest h k)
      ∙ handled host c w id n s rs rest fds ok v e found in
    if_cases P c.handshake_done
      (λ _. subst (λ h. P (replied env h h.reply)) (sym run) (told-Dispatched env c fds r))
      (λ no. absurd (ground (arith, done, no)))
