-- ===== src/Protocol/Frame.antt =====
-- src/protocol/isz_protocol.c, `isz_proto_encode` and `isz_proto_decode`: frames survive the trip,
-- also when they arrive in pieces or with more behind them.
use ishizue.Base.{
  ℕ, ◌+◌, ◌-◌, ◌≤◌, ◌<◌, ◌≡◌, refl, some, List, [], ◌∷◌, ◌++◌, arith, length, take, drop,
  length-append, length-take, length-drop, take_of_length_le, take-append_le, drop-append_le,
  get_or-take, append-nil,
}
use ishizue.Base.Bytes.{IsU32, put_u32_le, get_u32_le}
use ishizue.Protocol.{ok, encode, incomplete, bad, message, Errno, decode, max_message, header_size}

-- The read of a word looks at four bytes only.
pub get_u32_le-append : (xs ys : List ℕ) → 4 ≤ length xs → get_u32_le (xs ++ ys) ≡ get_u32_le xs
unfolding get_u32_le
get_u32_le-append [] ys h = absurd (omega arith)
get_u32_le-append (a ∷ []) ys h = absurd (omega arith)
get_u32_le-append (a ∷ b ∷ []) ys h = absurd (omega arith)
get_u32_le-append (a ∷ b ∷ c ∷ []) ys h = absurd (omega arith)
get_u32_le-append (a ∷ b ∷ c ∷ d ∷ xs) ys h = refl

pub get_u32_le-take : (k : ℕ) (xs : List ℕ) → 4 ≤ k → get_u32_le (take k xs) ≡ get_u32_le xs
unfolding get_u32_le
get_u32_le-take k xs h =
    ground (
      arith,
      get_or-take k xs 0 0,
      get_or-take k xs 1 0,
      get_or-take k xs 2 0,
      get_or-take k xs 3 0,
    )

-- A decoded message lies within the buffer and within the protocol's limit, and its payload is the
-- whole frame but the header.
pub decode_bounds :
    (buf : List ℕ) {total id : ℕ} {p : List ℕ}
    → decode buf ≡ message total id p
    → (total ≤ length buf) × (total ≤ max_message) × (length p + header_size ≡ total)
unfolding decode
decode_bounds buf h =
    ground (arith, length-take (get_u32_le buf - 4) (drop 8 buf), length-drop 8 buf)

pub decode-append_message :
    (xs ys : List ℕ) {total id : ℕ} {p : List ℕ}
    → decode xs ≡ message total id p
    → decode (xs ++ ys) ≡ message total id p
unfolding decode
decode-append_message xs ys h = ground (
  arith,
  length-append xs ys,
  get_u32_le-append xs ys,
  length-drop 4 xs,
  length-drop 8 xs,
  drop-append_le 4 xs ys,
  drop-append_le 8 xs ys,
  get_u32_le-append (drop 4 xs) ys,
  take-append_le (get_u32_le xs - 4) (drop 8 xs) ys,
)

pub decode-append_bad : (xs ys : List ℕ) {e : Errno} → decode xs ≡ bad e → decode (xs ++ ys) ≡ bad e
unfolding decode
decode-append_bad xs ys h = ground (arith, length-append xs ys, get_u32_le-append xs ys)

-- The frame that `encode` writes for the payload `p`.
abbrev pub frame : ℕ → List ℕ → List ℕ
frame id p = put_u32_le (4 + length p) ++ (put_u32_le id ++ p)

length-put_u32_le : (v : ℕ) → length (put_u32_le v) ≡ 4
unfolding put_u32_le
length-put_u32_le v = refl

pub length-frame : (id : ℕ) (p : List ℕ) → length (frame id p) ≡ header_size + length p
unfolding put_u32_le
length-frame id p = omega arith

pub encode-frame :
    (n id : ℕ) (p : List ℕ)
    → length p ≤ max_message - header_size
    → header_size + length p ≤ n
    → encode n id (some p) (length p) ≡ ok (header_size + length p, frame id p)
unfolding encode
encode-frame n id p h room = ground (arith, take_of_length_le (length p) p)

drop-frame : (id : ℕ) (p rest : List ℕ) → drop 8 (frame id p ++ rest) ≡ p ++ rest
unfolding put_u32_le
drop-frame id p rest = refl

get_id-frame : (id : ℕ) (p rest : List ℕ) → IsU32 id → get_u32_le (drop 4 (frame id p ++ rest)) ≡ id
unfolding put_u32_le get_u32_le
get_id-frame id p rest h = omega arith

get_length-frame :
    (id : ℕ) (p rest : List ℕ)
    → length p ≤ max_message - header_size
    → get_u32_le (frame id p ++ rest) ≡ 4 + length p
unfolding put_u32_le get_u32_le
get_length-frame id p rest h = omega arith

pub decode-frame :
    (id : ℕ) (p rest : List ℕ)
    → length p ≤ max_message - header_size
    → IsU32 id
    → decode (frame id p ++ rest) ≡ message (header_size + length p) id p
unfolding decode
decode-frame id p rest h hid = ground (
  arith,
  length-append (frame id p) rest,
  length-frame id p,
  get_length-frame id p rest,
  get_id-frame id p rest,
  drop-frame id p rest,
  take-append_le (length p) p rest,
  take_of_length_le (length p) p,
)

-- A proper prefix of a frame is never taken for a message or an error.
pub decode-take_frame :
    (id : ℕ) (p : List ℕ) (k : ℕ)
    → length p ≤ max_message - header_size
    → k < header_size + length p
    → decode (take k (frame id p)) ≡ incomplete
unfolding decode
decode-take_frame id p k h hk = ground (
  arith,
  length-take k (frame id p),
  length-frame id p,
  get_u32_le-take k (frame id p),
  get_length-frame id p [],
  append-nil (frame id p),
)

-- Encoding a payload of at most 8184 bytes, into a buffer with room for it, succeeds with a frame
-- of 8 + len bytes. Decoding that frame, whatever follows it in the buffer, gives back the message
-- id and the payload, and the size that was written. Decoding only the first k bytes of it, for any
-- k below its size, says that the frame is incomplete.
pub decode-encode :
    (n id : ℕ) (p rest : List ℕ) (k : ℕ)
    → length p ≤ max_message - header_size
    → header_size + length p ≤ n
    → IsU32 id
    → k < header_size + length p
    → (out : List ℕ) × (encode n id (some p) (length p) ≡ ok (header_size + length p, out))
      × (length out ≡ header_size + length p)
      × (decode (out ++ rest) ≡ message (header_size + length p) id p)
      × (decode (take k out) ≡ incomplete)
decode-encode n id p rest k h room hid hk = (
  frame id p,
  encode-frame n id p h room,
  length-frame id p,
  decode-frame id p rest h hid,
  decode-take_frame id p k h hk,
)
