-- ===== src/X11bridge/Proto/Tests.antt =====
-- x11bridge/x11_proto.c: messages at concrete fields.
use ishizue.Base.{◌*◌, ℕ, ◌+◌, true, false, List, [], ◌∷◌, arith}
use ishizue.X11bridge.Proto.{lsb_first, msb_first, pad4}
use ishizue.X11bridge.Proto.Replies.{
  build_get_window_attributes_reply, build_query_best_size_reply, build_query_tree_reply,
  build_get_atom_name_reply,
}
use ishizue.X11bridge.Proto.Setup.{build_setup_success}
use ishizue.X11bridge.Proto.Sizes.{Fits, SendsLess, replies_overlong}
use ishizue.X11bridge.Proto.Greeting.{Greets, setup-Greets}

-- "Ishizue".
abbrev vendor : List ℕ
vendor = 73 ∷ 115 ∷ 104 ∷ 105 ∷ 122 ∷ 117 ∷ 101 ∷ []

replies_overlong_example :
    SendsLess lsb_first 44 24
      (build_get_window_attributes_reply 0 33 1 0 0 0 0 false false 2 true 34 0 0 0 5 lsb_first)
    × SendsLess lsb_first 16 16 (build_query_best_size_reply 0 33 5 lsb_first)
    × Fits lsb_first 64 (32 + 2 * 4) 24 (build_query_tree_reply 64 0 33 (7 ∷ 8 ∷ []) 5 lsb_first)
    × Fits lsb_first 64 (32 + pad4 7) 24 (build_get_atom_name_reply 64 vendor 5 lsb_first)
replies_overlong_example =
    replies_overlong 64 (7 ∷ 8 ∷ []) vendor 0 33 1 0 0 0 0 2 34 0 0 0 5 false false true lsb_first
      (omega arith) (omega arith)

setup-Greets_example :
    Greets msb_first 256 vendor (build_setup_success 256 msb_first 11 0 4194304 2097151 vendor)
setup-Greets_example = setup-Greets 11 0 4194304 2097151 vendor 256 msb_first
