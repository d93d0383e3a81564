-- ===== src/Dispatch/Clipboard/Laws.antt =====
-- src/isz_client_dispatch.c: what the clipboard hands on, and what becomes of the descriptors.
use ishizue.Base.{ℕ, List, ◌++◌, length}
use ishizue.Base.Bytes.{put_u32_le}
use ishizue.Status.{Status}
use ishizue.Conn.{Conn}

-- The payload of CLIPBOARD_SET.
abbrev pub encoded_set : ℕ → List ℕ → List ℕ → List ℕ
encoded_set i mime rest = put_u32_le i ++ (put_u32_le (length mime) ++ (mime ++ rest))
