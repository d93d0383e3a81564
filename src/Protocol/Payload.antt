-- ===== src/Protocol/Payload.antt =====
-- src/protocol/isz_protocol.c, the payload helpers `isz_proto_write_*`, `isz_proto_read_*` and
-- `isz_proto_read_*_checked`. A write returns the buffer beside the offset behind what it wrote.
-- Bytes written past the end of the buffer, where C has undefined behaviour, are dropped here; the
-- theorems ask for the room.
use ishizue.Base.{
  ℕ, zero, suc, ◌+◌, ◌-◌, ◌*◌, ◌/◌, ◌%◌, ◌^◌, ◌≤◌, ◌<◌, ◌≡◌, refl, ap, ◌∙◌, ◌⊎◌, ◌↔◌, ◌||◌, Option,
  none, some, List, [], ◌∷◌, ◌++◌, arith, ltb, if◌then◌else◌, length, drop, get_or,
}
use ishizue.Base.Bytes.{IsU32, byte_at, put_u32_le, get_u32_le, get-put_u32_le}
use ishizue.Base.Int.{ℤ, to_u32, of_u32, IsI32, of_u32-to_u32, to_u32-lt}

-- Stores at consecutive addresses, from an offset on.
unfoldable pub overwrite : List ℕ → ℕ → List ℕ → List ℕ
overwrite [] off bs = []
overwrite (x ∷ xs) zero [] = x ∷ xs
overwrite (x ∷ xs) zero (b ∷ bs) = b ∷ overwrite xs zero bs
overwrite (x ∷ xs) (suc off) bs = x ∷ overwrite xs off bs

put_u64_le : ℕ → List ℕ
put_u64_le v =
    v % 256
    ∷ v / 2 ^ 8 % 256
    ∷ v / 2 ^ 16 % 256
    ∷ v / 2 ^ 24 % 256
    ∷ v / 2 ^ 32 % 256
    ∷ v / 2 ^ 40 % 256
    ∷ v / 2 ^ 48 % 256
    ∷ v / 2 ^ 56 % 256
    ∷ []

unfoldable pub get_u64_le : List ℕ → ℕ
get_u64_le p =
    byte_at p 0
    + byte_at p 1 * 2 ^ 8
    + byte_at p 2 * 2 ^ 16
    + byte_at p 3 * 2 ^ 24
    + byte_at p 4 * 2 ^ 32
    + byte_at p 5 * 2 ^ 40
    + byte_at p 6 * 2 ^ 48
    + byte_at p 7 * 2 ^ 56

pub write_u32 : List ℕ → ℕ → ℕ → ℕ × List ℕ
write_u32 buf off v = (off + 4, overwrite buf off (put_u32_le v))

pub write_i32 : List ℕ → ℕ → ℤ → ℕ × List ℕ
write_i32 buf off v = (off + 4, overwrite buf off (put_u32_le (to_u32 v)))

pub write_u64 : List ℕ → ℕ → ℕ → ℕ × List ℕ
write_u64 buf off v = (off + 8, overwrite buf off (put_u64_le v))

pub write_u8 : List ℕ → ℕ → ℕ → ℕ × List ℕ
write_u8 buf off v = (off + 1, overwrite buf off (v ∷ []))

unfoldable pub read_u32 : List ℕ → ℕ → ℕ
read_u32 buf off = get_u32_le (drop off buf)

unfoldable pub read_i32 : List ℕ → ℕ → ℤ
read_i32 buf off = of_u32 (get_u32_le (drop off buf))

unfoldable pub read_u64 : List ℕ → ℕ → ℕ
read_u64 buf off = get_u64_le (drop off buf)

pub read_u8 : List ℕ → ℕ → ℕ
read_u8 buf off = byte_at (drop off buf) 0

-- The checked reads: the value and the new offset, or `none` for false.
unfoldable pub read_u32_checked : List ℕ → ℕ → ℕ → Option (ℕ × ℕ)
read_u32_checked buf off payload_len =
    if ltb payload_len off || ltb (payload_len - off) 4
    then none
    else some (read_u32 buf off, off + 4)

unfoldable pub read_i32_checked : List ℕ → ℕ → ℕ → Option (ℤ × ℕ)
read_i32_checked buf off payload_len =
    if ltb payload_len off || ltb (payload_len - off) 4
    then none
    else some (read_i32 buf off, off + 4)

unfoldable pub read_u64_checked : List ℕ → ℕ → ℕ → Option (ℕ × ℕ)
read_u64_checked buf off payload_len =
    if ltb payload_len off || ltb (payload_len - off) 8
    then none
    else some (read_u64 buf off, off + 8)

-- What a write has stored is found at its offset.
drop-overwrite :
    (buf : List ℕ) (off : ℕ) (bs : List ℕ)
    → off + length bs ≤ length buf
    → (rest : List ℕ) × (drop off (overwrite buf off bs) ≡ bs ++ rest)
unfolding overwrite
drop-overwrite [] zero [] h = ([], refl)
drop-overwrite [] (suc off) bs h = absurd (omega arith)
drop-overwrite [] zero (b ∷ bs) h = absurd (omega arith)
drop-overwrite (x ∷ xs) zero [] h = (x ∷ xs, refl)
drop-overwrite (x ∷ xs) zero (b ∷ bs) h =
    let (rest, e) = drop-overwrite xs zero bs (omega arith) in (rest, ap (◌∷◌ b) e)
drop-overwrite (x ∷ xs) (suc off) bs h = drop-overwrite xs off bs (omega arith)

pub length-overwrite :
    (buf : List ℕ) (off : ℕ) (bs : List ℕ) → length (overwrite buf off bs) ≡ length buf
unfolding overwrite
length-overwrite [] off bs = refl
length-overwrite (x ∷ xs) zero [] = refl
length-overwrite (x ∷ xs) zero (b ∷ bs) = ap suc (length-overwrite xs zero bs)
length-overwrite (x ∷ xs) (suc off) bs = ap suc (length-overwrite xs off bs)

pub overwrite_outside :
    (buf : List ℕ) (off : ℕ) (bs : List ℕ) (i : ℕ)
    → (i < off) ⊎ (off + length bs ≤ i)
    → get_or (overwrite buf off bs) i 0 ≡ get_or buf i 0
unfolding overwrite
overwrite_outside [] off bs i h = refl
overwrite_outside (x ∷ xs) zero [] i h = refl
overwrite_outside (x ∷ xs) zero (b ∷ bs) zero h = ground arith
overwrite_outside (x ∷ xs) zero (b ∷ bs) (suc i) h = overwrite_outside xs zero bs i (omega arith)
overwrite_outside (x ∷ xs) (suc off) bs zero h = refl
overwrite_outside (x ∷ xs) (suc off) bs (suc i) h = overwrite_outside xs off bs i (omega arith)

module _ (buf : List ℕ) (off : ℕ) where
  read-write_u32 :
      (v : ℕ) → IsU32 v → off + 4 ≤ length buf → read_u32 (write_u32 buf off v).1 off ≡ v
  unfolding read_u32 write_u32 put_u32_le
  read-write_u32 v h room =
      let (rest, e) = drop-overwrite buf off (put_u32_le v) room in
      ap get_u32_le e ∙ get-put_u32_le v rest h

  read-write_i32 :
      (v : ℤ) → IsI32 v → off + 4 ≤ length buf → read_i32 (write_i32 buf off v).1 off ≡ v
  unfolding read_i32 write_i32 put_u32_le
  read-write_i32 v h room =
      let (rest, e) = drop-overwrite buf off (put_u32_le (to_u32 v)) room in
      ap of_u32 (ap get_u32_le e ∙ get-put_u32_le (to_u32 v) rest (to_u32-lt v)) ∙ of_u32-to_u32 v h

  get-put_u64_le : (v : ℕ) (rest : List ℕ) → v < 2 ^ 64 → get_u64_le (put_u64_le v ++ rest) ≡ v
  unfolding get_u64_le put_u64_le
  get-put_u64_le v rest h = omega arith

  read-write_u64 :
      (v : ℕ) → v < 2 ^ 64 → off + 8 ≤ length buf → read_u64 (write_u64 buf off v).1 off ≡ v
  unfolding read_u64 write_u64 put_u64_le
  read-write_u64 v h room =
      let (rest, e) = drop-overwrite buf off (put_u64_le v) room in
      ap get_u64_le e ∙ get-put_u64_le v rest h

-- With eight bytes of room behind the offset, what `write_u32`, `write_i32`, `write_u64` and
-- `write_u8` store, for a value of the type, the matching read gives back.
pub read-write :
    (buf : List ℕ) (off v w b : ℕ) (i : ℤ)
    → IsU32 v
    → IsI32 i
    → w < 2 ^ 64
    → off + 8 ≤ length buf
    → (read_u32 (write_u32 buf off v).1 off ≡ v)
      × (read_i32 (write_i32 buf off i).1 off ≡ i)
      × (read_u64 (write_u64 buf off w).1 off ≡ w)
      × (read_u8 (write_u8 buf off b).1 off ≡ b)
unfolding write_u8 read_u8
read-write buf off v w b i hv hi hw room = (
  read-write_u32 buf off v hv (omega arith),
  read-write_i32 buf off i hi (omega arith),
  read-write_u64 buf off w hw room,
  ap (λ p. byte_at p 0) (drop-overwrite buf off (b ∷ []) (omega arith)).1,
)

-- A 32-bit write changes no byte outside its four, and not the buffer's length.
write_u32_frame :
    (buf : List ℕ) (off v i : ℕ)
    → (i < off) ⊎ (off + 4 ≤ i)
    → (get_or (write_u32 buf off v).1 i 0 ≡ get_or buf i 0)
      × (length (write_u32 buf off v).1 ≡ length buf)
unfolding write_u32 put_u32_le
write_u32_frame buf off v i h =
    (overwrite_outside buf off (put_u32_le v) i h, length-overwrite buf off (put_u32_le v))

-- A checked 32-bit read succeeds exactly when four bytes of the payload are left at the offset;
-- the new offset is then still within the payload, and the value is the unchecked read's.
pub read_u32_checked_iff :
    (buf : List ℕ) (off payload_len v off' : ℕ)
    → (read_u32_checked buf off payload_len ≡ some (v, off'))
      ↔ ((off + 4 ≤ payload_len) × (v ≡ read_u32 buf off) × (off' ≡ off + 4))
unfolding read_u32_checked
read_u32_checked_iff buf off payload_len v off' = (λ h. ground arith, λ h. ground arith)

-- A field written at an offset and read back by the checked reader, at a payload that holds it.
pub read_checked-write_u32 :
    (buf : List ℕ) (off payload_len v : ℕ)
    → IsU32 v
    → off + 4 ≤ payload_len
    → payload_len ≤ length buf
    → read_u32_checked (write_u32 buf off v).1 off payload_len ≡ some (v, (write_u32 buf off v).0)
unfolding read_u32_checked write_u32
read_checked-write_u32 buf off payload_len v h fits room =
    ground (arith, read-write_u32 buf off v h)
