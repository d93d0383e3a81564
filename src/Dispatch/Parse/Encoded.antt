-- ===== src/Dispatch/Parse/Encoded.antt =====
-- src/isz_client_dispatch.c: the handlers read back what a client has written with the payload
-- helpers.
use ishizue.Base.{ℕ, ◌+◌, ◌≤◌, ◌≡◌, refl, ap, ◌∙◌, some, List, ◌++◌, arith, length, drop}
use ishizue.Base.Bytes.{put_u32_le, get_u32_le, get-put_u32_le, IsU32}
use ishizue.Base.Int.{ℤ, to_u32, of_u32, IsI32, of_u32-to_u32, to_u32-lt}
use ishizue.Protocol.Payload.{read_u32_checked, read_i32_checked, read_u32, read_i32}
use ishizue.Dispatch.Parse.{parse_pair}

-- A field that starts at an offset.
pub read_i32-put :
    (p rest : List ℕ) (n : ℕ) (v : ℤ)
    → IsI32 v
    → drop n p ≡ put_u32_le (to_u32 v) ++ rest
    → read_i32 p n ≡ v
unfolding read_i32
read_i32-put p rest n v h e =
    ap (λ q. of_u32 (get_u32_le q)) e
    ∙ ap of_u32 (get-put_u32_le (to_u32 v) rest (to_u32-lt v))
    ∙ of_u32-to_u32 v h

module _ (p rest : List ℕ) (n : ℕ) (room : n + 4 ≤ length p) where
  pub read_u32_checked-put :
      (v : ℕ)
      → IsU32 v
      → drop n p ≡ put_u32_le v ++ rest
      → read_u32_checked p n (length p) ≡ some (v, n + 4)
  unfolding read_u32_checked read_u32
  read_u32_checked-put v h e = ground (arith, ap get_u32_le e ∙ get-put_u32_le v rest h)

  read_i32_checked-put :
      (v : ℤ)
      → IsI32 v
      → drop n p ≡ put_u32_le (to_u32 v) ++ rest
      → read_i32_checked p n (length p) ≡ some (v, n + 4)
  unfolding read_i32_checked
  read_i32_checked-put v h e = ground (arith, read_i32-put p rest n v h e)

-- The payload of a request with an id and two signed values.
abbrev pub encoded_pair : ℕ → ℤ → ℤ → List ℕ → List ℕ
encoded_pair id x y rest =
    put_u32_le id ++ (put_u32_le (to_u32 x) ++ (put_u32_le (to_u32 y) ++ rest))

module _ (id : ℕ) (x y : ℤ) (rest : List ℕ) where
  length-encoded_pair : length (encoded_pair id x y rest) ≡ 12 + length rest
  unfolding put_u32_le
  length-encoded_pair = omega arith

  drop-encoded_pair_first :
      drop 4 (encoded_pair id x y rest) ≡ put_u32_le (to_u32 x) ++ (put_u32_le (to_u32 y) ++ rest)
  unfolding put_u32_le
  drop-encoded_pair_first = refl

  drop-encoded_pair_second : drop 8 (encoded_pair id x y rest) ≡ put_u32_le (to_u32 y) ++ rest
  unfolding put_u32_le
  drop-encoded_pair_second = refl

pub parse_pair-encoded_pair :
    (id : ℕ) (x y : ℤ) (rest : List ℕ)
    → IsU32 id
    → IsI32 x
    → IsI32 y
    → parse_pair (encoded_pair id x y rest) ≡ some (id, x, y)
unfolding parse_pair
parse_pair-encoded_pair id x y rest h k l =
    let p = encoded_pair id x y rest in
    let long = length-encoded_pair id x y rest in
    let a : read_u32_checked p 0 (length p) ≡ some (id, 4) =
      read_u32_checked-put p _ 0 (omega (arith, long)) id h refl in
    let b : read_i32_checked p 4 (length p) ≡ some (x, 8) =
      read_i32_checked-put p _ 4 (omega (arith, long)) x k (drop-encoded_pair_first id x y rest) in
    let c : read_i32_checked p 8 (length p) ≡ some (y, 12) =
      read_i32_checked-put p _ 8 (omega (arith, long)) y l (drop-encoded_pair_second id x y rest) in
    rw (a, b, c) refl
