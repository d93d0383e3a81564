-- ===== src/Dispatch/Clipboard/Tests.antt =====
-- src/isz_client_dispatch.c: a clipboard that is set twice and asked.
use ishizue.Base.{ℕ, true, some, List, [], ◌∷◌}
use ishizue.Protocol.Socket.{wrote}
use ishizue.Conn.{Env}
use ishizue.Dispatch.Clipboard.{ClipboardSlot}

abbrev before : ClipboardSlot
before = record { fd = some 20; mime = 116 ∷ [] }

-- "text".
abbrev text : List ℕ
text = 116 ∷ 101 ∷ 120 ∷ 116 ∷ []

abbrev env : Env
env = record { sendmsg = wrote 12; malloc_ok = true; dups = [] }
