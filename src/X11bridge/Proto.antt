-- ===== src/X11bridge/Proto.antt =====
-- x11bridge/x11_proto.c: fields in the client's byte order, and the messages as the stores that build
-- them in a buffer of zeros. A byte order that is not X11_BYTE_ORDER_MSB counts as the other one.
pub mod Events
pub mod Replies
pub mod Setup
mod Framing
mod Sizes
mod Fields
mod Greeting
mod Tests
use ishizue.Base.{
  ℕ, ◌+◌, ◌-◌, ◌*◌, ◌/◌, ◌%◌, ◌^◌, Bool, true, false, List, [], ◌∷◌, length, replicate, drop,
}
use ishizue.Base.Bytes.{byte_at, put_u32_le, get_u32_le, put_u32_be, get_u32_be}
use ishizue.Base.Int.{ℤ, pos, negsuc}
use ishizue.Protocol.Payload.{overwrite}

pub data ByteOrder : Type 0 where
  lsb_first : ByteOrder
  msb_first : ByteOrder

-- `x11_get_u16`, `x11_get_u32`.
unfoldable pub get_u16 : List ℕ → ByteOrder → ℕ
get_u16 p msb_first = byte_at p 0 * 2 ^ 8 + byte_at p 1
get_u16 p lsb_first = byte_at p 0 + byte_at p 1 * 2 ^ 8

unfoldable pub get_u32 : List ℕ → ByteOrder → ℕ
get_u32 p msb_first = get_u32_be p
get_u32 p lsb_first = get_u32_le p

-- `x11_put_u16`, `x11_put_u32`.
unfoldable pub put_u16 : ℕ → ByteOrder → List ℕ
put_u16 v msb_first = v / 2 ^ 8 % 256 ∷ v % 256 ∷ []
put_u16 v lsb_first = v % 256 ∷ v / 2 ^ 8 % 256 ∷ []

unfoldable pub put_u32 : ℕ → ByteOrder → List ℕ
put_u32 v msb_first = put_u32_be v
put_u32 v lsb_first = put_u32_le v

-- `x11_pad4`: the mask clears the two low bits.
unfoldable pub pad4 : ℕ → ℕ
pad4 n = (n + 3) / 4 * 4

-- `(uint16_t)x` and `x ? 1u : 0u`.
unfoldable pub to_u16 : ℤ → ℕ
to_u16 (pos n) = n % 2 ^ 16
to_u16 (negsuc n) = 2 ^ 16 - 1 - n % 2 ^ 16

abbrev pub flag : Bool → ℕ
flag true = 1
flag false = 0

-- A store of a builder: the offset and the bytes.
pub record Write : Type 0 where
  pub at : ℕ
  pub bytes : List ℕ

unfoldable pub byte : ℕ → ℕ → Write
byte off v = record { at = off; bytes = v ∷ [] }

unfoldable pub half : ℕ → ℕ → ByteOrder → Write
half off v o = record { at = off; bytes = put_u16 v o }

unfoldable pub word : ℕ → ℕ → ByteOrder → Write
word off v o = record { at = off; bytes = put_u32 v o }

unfoldable pub write_all : List Write → List ℕ → List ℕ
write_all [] buf = buf
write_all (w ∷ ws) buf = write_all ws (overwrite buf w.at w.bytes)

-- `memset` to zero, and the stores.
unfoldable pub fill : ℕ → List Write → List ℕ
unfolding write_all
fill size ws = write_all ws (replicate size 0)
