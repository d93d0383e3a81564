-- ===== src/Protocol.antt =====
-- src/protocol/isz_protocol.h and isz_protocol.c: the wire format, and the stateless encoder and
-- decoder of one frame. A frame is a 32-bit little-endian length, which counts the message id and
-- the payload, then the message id, then the payload. The children model the payload cursor, the
-- reassembling reader, the socket writers and the connection magic.
pub mod Frame
pub mod Payload
pub mod Recv
pub mod Socket
mod Tests
use ishizue.Base.{
  ℕ, suc, ◌+◌, ◌-◌, ◌%◌, ◌^◌, ◌≡◌, Bool, true, false, ◌&&◌, Option, none, some, List, [], ◌++◌, ltb,
  if◌then◌else◌, length, take, drop,
}
use ishizue.Base.Bytes.{put_u32_le, get_u32_le}

-- The values of `errno` that the protocol code sets or tests.
pub data Errno : Type 0 where
  einval emsgsize ebadmsg eio eintr eagain ewouldblock : Errno
  other_errno : ℕ → Errno

pub data Result {ℓ} (A : Type ℓ) : Type ℓ where
  ok : A → Result A
  err : Errno → Result A

-- ISZ_PROTO_MAX_MESSAGE, ISZ_PROTO_MAX_FDS, ISZ_MSG_HEADER_SIZE, sizeof(uint32_t).
abbrev pub max_message : ℕ
max_message = 8192

abbrev pub max_fds : ℕ
max_fds = 8

abbrev pub header_size : ℕ
header_size = 8

abbrev pub word_size : ℕ
word_size = 4

abbrev pub is_null {ℓ} : {A : Type ℓ} → Option A → Bool
is_null none = true
is_null (some a) = false

-- The bytes behind a pointer that may be NULL.
abbrev pub bytes_of : Option (List ℕ) → List ℕ
bytes_of none = []
bytes_of (some p) = p

-- `isz_proto_encode`: the number of bytes written and the bytes, or the errno behind a 0.
-- `payload` is the pointer with the bytes that it points at.
unfoldable pub encode : ℕ → ℕ → Option (List ℕ) → ℕ → Result (ℕ × List ℕ)
encode out_buf_len msg_id payload payload_len =
    if ltb 0 payload_len && is_null payload
    then err einval
    else if ltb (max_message - header_size) payload_len
    then err emsgsize
    else if ltb out_buf_len (header_size + payload_len)
    then err emsgsize
    else ok (
      header_size + payload_len,
      put_u32_le ((word_size + payload_len) % 2 ^ 32)
          ++ (put_u32_le msg_id ++ take payload_len (bytes_of payload)),
    )

-- What `isz_proto_decode` returns: 0, (size_t)-1 with errno, or the frame's size with the message
-- id and the payload's slice of the buffer.
pub data Decoded : Type 0 where
  incomplete : Decoded
  bad : Errno → Decoded
  message : ℕ → ℕ → List ℕ → Decoded

-- The checks on the length field, and then on the bytes at hand.
unfoldable pub decode_body : List ℕ → ℕ → Decoded
decode_body buf len_field =
    if ltb len_field word_size
    then bad ebadmsg
    else if ltb (max_message - word_size) len_field
    then bad emsgsize
    else if ltb (length buf) (word_size + len_field)
    then incomplete
    else message (word_size + len_field) (get_u32_le (drop word_size buf))
        (take (len_field - word_size) (drop header_size buf))

-- `isz_proto_decode`.
unfoldable pub decode : List ℕ → Decoded
unfolding decode_body
decode buf = if ltb (length buf) word_size then incomplete else decode_body buf (get_u32_le buf)
