-- ===== src/Base/Bytes.antt =====
-- src/protocol/isz_protocol.c, the byte-order helpers: words as little- and big-endian bytes.
-- A shift is a division or a product by a power of two, `& 0xff` a remainder. The bytes that a
-- read joins by `|` hold disjoint bits, so `|` is `+`. A read past the end of the list gives 0;
-- every caller checks the length first.
use ishizue.Base.Lists.{get_or, All}
use Prim.Native.Nat.{ℕ, ◌+◌, ◌*◌, ◌/◌, ◌%◌, ◌^◌, ◌<◌}
use mathlib.Core.Path.{◌≡◌}
use mathlib.Core.List.{List, [], ◌∷◌, ◌++◌}
use native.Mathlib.Omega.{arith}

abbrev pub IsByte : ℕ → Type 0
IsByte b = b < 256

abbrev pub IsU32 : ℕ → Type 0
IsU32 v = v < 2 ^ 32

abbrev pub byte_at : List ℕ → ℕ → ℕ
byte_at p i = get_or p i 0

unfoldable pub put_u32_le : ℕ → List ℕ
put_u32_le v = v % 256 ∷ v / 2 ^ 8 % 256 ∷ v / 2 ^ 16 % 256 ∷ v / 2 ^ 24 % 256 ∷ []

unfoldable pub get_u32_le : List ℕ → ℕ
get_u32_le p = byte_at p 0 + byte_at p 1 * 2 ^ 8 + byte_at p 2 * 2 ^ 16 + byte_at p 3 * 2 ^ 24

unfoldable pub put_u32_be : ℕ → List ℕ
put_u32_be v = v / 2 ^ 24 % 256 ∷ v / 2 ^ 16 % 256 ∷ v / 2 ^ 8 % 256 ∷ v % 256 ∷ []

unfoldable pub get_u32_be : List ℕ → ℕ
get_u32_be p = byte_at p 0 * 2 ^ 24 + byte_at p 1 * 2 ^ 16 + byte_at p 2 * 2 ^ 8 + byte_at p 3

pub get-put_u32_le : (v : ℕ) (rest : List ℕ) → IsU32 v → get_u32_le (put_u32_le v ++ rest) ≡ v
unfolding get_u32_le put_u32_le
get-put_u32_le v rest h = omega arith

pub get-put_u32_be : (v : ℕ) (rest : List ℕ) → IsU32 v → get_u32_be (put_u32_be v ++ rest) ≡ v
unfolding get_u32_be put_u32_be
get-put_u32_be v rest h = omega arith

pub get_u32_le-lt : (p : List ℕ) → All IsByte p → IsU32 (get_u32_le p)
unfolding get_u32_le
get_u32_le-lt [] h = omega arith
get_u32_le-lt (a ∷ []) h = omega arith
get_u32_le-lt (a ∷ b ∷ []) h = omega arith
get_u32_le-lt (a ∷ b ∷ c ∷ []) h = omega arith
get_u32_le-lt (a ∷ b ∷ c ∷ d ∷ r) h = omega arith
