-- ===== src/Protocol/Socket.antt =====
-- src/protocol/isz_protocol.c, the socket writers and the connection magic. The kernel is a
-- parameter: the results of the `sendmsg`, `send` and `recv` calls to come.
use ishizue.Base.{
  ℕ, zero, suc, ◌-◌, ◌≤◌, ◌<◌, ◌≡◌, refl, ap, ◌∙◌, ◌≢◌, ◌&&◌, ◌||◌, Option, List, [], ◌∷◌, ◌++◌,
  arith, ltb, ◌==◌, if◌then◌else◌, length, take, drop, length-append, take-append-drop,
}
use ishizue.Base.Bytes.{IsU32, put_u32_le, get_u32_le, put_u32_be, get_u32_be, get-put_u32_le}
use ishizue.Protocol.{
  Errno, einval, emsgsize, eio, eintr, eagain, ewouldblock, ok, err, max_message, max_fds,
  header_size, is_null, encode,
}

-- What `sendmsg` or `send` returns: a number of bytes, or -1 with errno.
pub data SendResult : Type 0 where
  wrote : ℕ → SendResult
  refused : Errno → SendResult

-- What `isz_proto_send_frame` returns: the frame's size, 0, or -1 with errno.
pub data Sent : Type 0 where
  sent : ℕ → Sent
  would_block : Sent
  send_error : Errno → Sent

send_refused : Errno → Sent
send_refused eagain = would_block
send_refused ewouldblock = would_block
send_refused e = send_error e

after_sendmsg : ℕ → SendResult → Sent
unfolding send_refused
after_sendmsg frame_len (refused e) = send_refused e
after_sendmsg frame_len (wrote n) = if n == frame_len then sent frame_len else send_error eio

-- `isz_proto_send_frame`, with the result of its `sendmsg`.
unfoldable pub send_frame : ℕ → Option (List ℕ) → ℕ → SendResult → Sent
unfolding after_sendmsg
send_frame frame_len fds n_fds kernel =
    if ltb frame_len header_size || ltb max_message frame_len
    then send_error emsgsize
    else if ltb max_fds n_fds
    then send_error emsgsize
    else if ltb 0 n_fds && is_null fds
    then send_error einval
    else after_sendmsg frame_len kernel

-- The part of a frame that has gone out although `isz_proto_send_frame` returns -1: what `sendmsg` took
-- of it in a partial write.
unfoldable pub cut_of : List ℕ → Sent → SendResult → List ℕ
cut_of frame (send_error eio) (wrote n) = take n frame
cut_of frame s k = []

-- `isz_proto_send_with_fds`.
unfoldable pub send_with_fds : ℕ → Option (List ℕ) → ℕ → Option (List ℕ) → ℕ → SendResult → Sent
send_with_fds msg_id payload payload_len fds n_fds kernel =
    if ltb 0 payload_len && is_null payload
    then send_error einval
    else if ltb (max_message - header_size) payload_len
    then send_error emsgsize
    else elim (encode max_message msg_id payload payload_len) [
      | err e ↦ send_error e
      | ok (total, buf) ↦ send_frame total fds n_fds kernel
    ]

-- How a blocking transfer of a whole buffer ends: all of it went through, -1, or the call still
-- blocks when the kernel's results are used up.
pub data Transfer : Type 0 where
  all_of_it broken blocked : Transfer

-- `isz_send_all`: `rest` is `buf[off .. len)`. Also gives the bytes that went out.
unfoldable pub send_all : List ℕ → List SendResult → Transfer × List ℕ
send_all [] ks = (all_of_it, [])
send_all (b ∷ rest) [] = (blocked, [])
send_all (b ∷ rest) (refused eintr ∷ ks) = send_all (b ∷ rest) ks
send_all (b ∷ rest) (refused e ∷ ks) = (broken, [])
send_all (b ∷ rest) (wrote n ∷ ks) =
    let (t, out) = send_all (drop n (b ∷ rest)) ks in
    if n == 0 then (broken, []) else (t, take n (b ∷ rest) ++ out)

-- What `recv` returns: bytes (none when the peer has closed), or -1 with errno.
pub data RecvResult : Type 0 where
  bytes : List ℕ → RecvResult
  recv_failed : Errno → RecvResult

-- `isz_recv_all`: `len` bytes are wanted, `len - off` of them still. Gives the bytes received.
pub recv_all : ℕ → List RecvResult → Transfer × List ℕ
recv_all zero ks = (all_of_it, [])
recv_all (suc n) [] = (blocked, [])
recv_all (suc n) (recv_failed eintr ∷ ks) = recv_all (suc n) ks
recv_all (suc n) (recv_failed e ∷ ks) = (broken, [])
recv_all (suc n) (bytes bs ∷ ks) =
    let (t, got) = recv_all (suc n - length bs) ks in
    if length bs == 0 then (broken, []) else (t, bs ++ got)

-- ISZ_PROTOCOL_MAGIC, "ISZH", and ISZ_PROTOCOL_VERSION.
abbrev pub protocol_magic : ℕ
protocol_magic = 0x4953_5A48

abbrev pub protocol_version : ℕ
protocol_version = 1

-- `isz_proto_send_magic`.
unfoldable pub send_magic : ℕ → List SendResult → Transfer × List ℕ
send_magic version = send_all (put_u32_be protocol_magic ++ put_u32_le version)

-- What `isz_proto_recv_magic` returns: the version, -1, -2, or it blocks.
pub data Hello : Type 0 where
  hello : ℕ → Hello
  hello_broken hello_wrong_magic hello_blocked : Hello

check_magic : Transfer × List ℕ → Hello
check_magic (all_of_it, buf) =
    if get_u32_be buf == protocol_magic then hello (get_u32_le (drop 4 buf)) else hello_wrong_magic
check_magic (broken, buf) = hello_broken
check_magic (blocked, buf) = hello_blocked

pub recv_magic : List RecvResult → Hello
unfolding check_magic
recv_magic ks = check_magic (recv_all 8 ks)

-- `isz_proto_send_version_reply` and `isz_proto_recv_version_reply`.
unfoldable pub send_version_reply : ℕ → List SendResult → Transfer × List ℕ
send_version_reply version = send_all (put_u32_le version)

read_version : Transfer × List ℕ → Hello
read_version (all_of_it, buf) = hello (get_u32_le buf)
read_version (broken, buf) = hello_broken
read_version (blocked, buf) = hello_blocked

unfoldable pub recv_version_reply : List RecvResult → Hello
unfolding read_version recv_all
recv_version_reply ks = read_version (recv_all 4 ks)

-- The bytes that the results deliver; each brings at most what was asked for, and some byte.
abbrev pub delivered : List RecvResult → List ℕ
delivered [] = []
delivered (bytes bs ∷ ks) = bs ++ delivered ks
delivered (recv_failed e ∷ ks) = delivered ks

abbrev pub Healthy : ℕ → List RecvResult → Type 0
Healthy want [] = Unit
Healthy want (bytes bs ∷ ks) = (0 < length bs) × (length bs ≤ want) × Healthy (want - length bs) ks
Healthy want (recv_failed e ∷ ks) = (e ≡ eintr) × Healthy want ks

-- A healthy `recv_all` that has been given enough returns exactly the bytes delivered.
recv_all-delivered :
    (want : ℕ) (ks : List RecvResult)
    → Healthy want ks
    → length (delivered ks) ≡ want
    → recv_all want ks ≡ (all_of_it, delivered ks)
unfolding recv_all
recv_all-delivered zero [] h e = refl
recv_all-delivered zero (bytes bs ∷ ks) h e =
    absurd (omega (arith, length-append bs (delivered ks)))
recv_all-delivered zero (recv_failed c ∷ ks) h e = recv_all-delivered zero ks h.1 e
recv_all-delivered (suc n) [] h e = absurd (omega arith)
recv_all-delivered (suc n) (recv_failed c ∷ ks) h e =
    rw (h.0, recv_all) (recv_all-delivered (suc n) ks h.1 e)
recv_all-delivered (suc n) (bytes bs ∷ ks) h e =
    ground
      (arith, recv_all-delivered (suc n - length bs) ks h.2, length-append bs (delivered ks), h.0)

-- What `send_all` reports as done has gone out whole, in whatever portions.
send_all-all :
    (buf : List ℕ) (ks : List SendResult)
    → (send_all buf ks).0 ≡ all_of_it
    → (send_all buf ks).1 ≡ buf
unfolding send_all
send_all-all [] ks h = refl
send_all-all (b ∷ rest) [] h = cc
send_all-all (b ∷ rest) (refused e ∷ ks) h = ground (arith, send_all-all (b ∷ rest) ks)
send_all-all (b ∷ rest) (wrote n ∷ ks) h =
    ground (arith, send_all-all (drop n (b ∷ rest)) ks, take-append-drop n (b ∷ rest))

hello-opening :
    (v : ℕ) → IsU32 v → check_magic (all_of_it, put_u32_be protocol_magic ++ put_u32_le v) ≡ hello v
unfolding check_magic put_u32_be get_u32_be put_u32_le
hello-opening v h = ap hello (get-put_u32_le v [] h)

-- The opening of a connection: when `isz_proto_send_magic` has sent everything, in whatever
-- portions, and the kernel delivers those bytes to the peer, in whatever pieces and with
-- interruptions, then `isz_proto_recv_magic` returns the version that was sent.
pub recv_magic-send_magic :
    (version : ℕ) (ks : List SendResult) (rs : List RecvResult)
    → IsU32 version
    → (send_magic version ks).0 ≡ all_of_it
    → delivered rs ≡ (send_magic version ks).1
    → Healthy 8 rs
    → recv_magic rs ≡ hello version
unfolding send_magic recv_magic put_u32_be put_u32_le
recv_magic-send_magic version ks rs v done arrives ok_rs =
    let opening = put_u32_be protocol_magic ++ put_u32_le version in
    let same : delivered rs ≡ opening = arrives ∙ send_all-all opening ks done in
    rw (recv_all-delivered 8 rs ok_rs (ap length same ∙ length-opening version), same)
      (hello-opening version v)
  where
    length-opening : (v : ℕ) → length (put_u32_be protocol_magic ++ put_u32_le v) ≡ 8
    length-opening v = refl

-- A peer that opens with eight other bytes is told apart: the call returns -2 unless the first
-- four bytes are the magic, whatever version follows.
recv_magic-wrong :
    (rs : List RecvResult)
    → Healthy 8 rs
    → length (delivered rs) ≡ 8
    → get_u32_be (delivered rs) ≢ protocol_magic
    → recv_magic rs ≡ hello_wrong_magic
unfolding recv_magic
recv_magic-wrong rs h e ne = rw (recv_all-delivered 8 rs h e) (ground arith)
