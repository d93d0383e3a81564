-- ===== src/Protocol/Tests.antt =====
-- src/protocol/isz_protocol.c: the codec, the payload cursor and the magic at concrete inputs.
use ishizue.Base.{
  ℕ, ◌≡◌, ◌≢◌, refl, some, none, List, [], ◌∷◌, ◌++◌, arith, length, take, replicate,
}
use ishizue.Base.Bytes.{put_u32_le, get_u32_le, put_u32_be, get_u32_be}
use ishizue.Base.Int.{negsuc, of_u32}
use ishizue.Protocol.{
  ok, emsgsize, ebadmsg, eio, eintr, eagain, encode, incomplete, bad, message, decode,
}
use ishizue.Protocol.Frame.{decode-encode}
use ishizue.Protocol.Payload.{read_i32, read_u32_checked, read_i32_checked, read_u64_checked}
use ishizue.Protocol.Socket.{
  SendResult, RecvResult, wrote, refused, sent, send_frame, send_all, protocol_magic, would_block,
  send_error, send_with_fds, bytes, recv_failed, hello, send_magic, send_version_reply,
  recv_version_reply, all_of_it,
}

-- Message 7 with the payload 1, 2.
abbrev sample : List ℕ
sample = 6 ∷ 0 ∷ 0 ∷ 0 ∷ 7 ∷ 0 ∷ 0 ∷ 0 ∷ 1 ∷ 2 ∷ []

encode_one : encode 16 7 (some (1 ∷ 2 ∷ [])) 2 ≡ ok (10, sample)
unfolding encode put_u32_le
encode_one = refl

decode_one : decode (sample ++ 9 ∷ []) ≡ message 10 7 (1 ∷ 2 ∷ [])
unfolding decode get_u32_le
decode_one = refl

-- A length field below 4, and one above 8188.
decode_refuses :
    (decode (3 ∷ 0 ∷ 0 ∷ 0 ∷ []) ≡ bad ebadmsg) × (decode (253 ∷ 31 ∷ 0 ∷ 0 ∷ []) ≡ bad emsgsize)
unfolding decode get_u32_le
decode_refuses = (refl, refl)

decode-encode_example :
    (out : List ℕ) × (encode 16 7 (some (1 ∷ 2 ∷ [])) 2 ≡ ok (10, out))
    × (length out ≡ 10)
    × (decode (out ++ 9 ∷ []) ≡ message 10 7 (1 ∷ 2 ∷ []))
    × (decode (take 9 out) ≡ incomplete)
decode-encode_example =
    decode-encode 16 7 (1 ∷ 2 ∷ []) (9 ∷ []) 9 (omega arith) (omega arith) (omega arith)
      (omega arith)

abbrev blank : List ℕ
blank = replicate 12 0

-- The signed read at the sign bit, and a read that does not fit.
checked_reads :
    (read_i32_checked (255 ∷ 255 ∷ 255 ∷ 255 ∷ []) 0 4 ≡ some (negsuc 0, 4))
    × (read_u64_checked sample 3 10 ≡ none)
    × (read_u32_checked sample 11 10 ≡ none)
unfolding read_i32_checked read_u64_checked read_u32_checked read_i32 get_u32_le of_u32
checked_reads = (refl, refl, refl)

-- A short `sendmsg` is an error, not a partial success.
send_outcomes :
    (send_with_fds 7 (some (1 ∷ 2 ∷ [])) 2 none 0 (wrote 10) ≡ sent 10)
    × (send_with_fds 7 (some (1 ∷ 2 ∷ [])) 2 none 0 (wrote 9) ≡ send_error eio)
    × (send_with_fds 7 (some (1 ∷ 2 ∷ [])) 2 none 0 (refused eagain) ≡ would_block)
unfolding send_with_fds send_frame encode put_u32_le
send_outcomes = (refl, refl, refl)

version_reply :
    ((send_version_reply 1 (wrote 2 ∷ wrote 2 ∷ [])).1 ≡ 1 ∷ 0 ∷ 0 ∷ 0 ∷ [])
    × (recv_version_reply (bytes (1 ∷ []) ∷ bytes (0 ∷ 0 ∷ 0 ∷ []) ∷ []) ≡ hello 1)
unfolding send_version_reply recv_version_reply send_all put_u32_le get_u32_le
version_reply = (refl, refl)

-- "ISZH" and version 1, sent in two portions and received in three with an interruption.
abbrev opening_sends : List SendResult
opening_sends = wrote 3 ∷ refused eintr ∷ wrote 5 ∷ []

abbrev opening_pieces : List RecvResult
opening_pieces =
    bytes (73 ∷ [])
    ∷ recv_failed eintr
    ∷ bytes (83 ∷ 90 ∷ 72 ∷ 1 ∷ [])
    ∷ bytes (0 ∷ 0 ∷ 0 ∷ [])
    ∷ []

opening_sent : (send_magic 1 opening_sends).0 ≡ all_of_it
unfolding send_magic send_all put_u32_be put_u32_le
opening_sent = refl

opening_out : 73 ∷ 83 ∷ 90 ∷ 72 ∷ 1 ∷ 0 ∷ 0 ∷ 0 ∷ [] ≡ (send_magic 1 opening_sends).1
unfolding send_magic send_all put_u32_be put_u32_le
opening_out = refl

no_magic : get_u32_be (71 ∷ 69 ∷ 84 ∷ 32 ∷ 47 ∷ 0 ∷ 0 ∷ 0 ∷ []) ≢ protocol_magic
unfolding get_u32_be
no_magic e = omega arith
