-- ===== src/X11bridge/Proto/Framing.antt =====
-- x11bridge/x11_proto.c: where a client that reads by the rules of X11 takes a message to end.
use ishizue.Base.{ℕ, ◌+◌, ◌*◌, ◌≡◌, refl, Bool, List, ◌==◌, if◌then◌else◌, length, drop}
use ishizue.Base.Bytes.{byte_at, put_u32_le, get_u32_le, put_u32_be, get_u32_be}
use ishizue.Base.Int.{ℤ}
use ishizue.Protocol.Payload.{overwrite}
use ishizue.X11bridge.Proto.{
  ByteOrder, lsb_first, msb_first, get_u32, put_u16, put_u32, byte, half, word, write_all, fill,
}
use ishizue.X11bridge.Proto.Events.{
  build_error, build_map_notify, build_unmap_notify, build_configure_notify, build_destroy_notify,
  build_property_notify, build_selection_clear, build_selection_request, build_selection_notify,
  build_graphics_exposure, build_no_expose, build_expose,
}
use ishizue.X11bridge.Proto.Replies.{
  build_get_geometry_reply, build_intern_atom_reply, build_get_selection_owner_reply,
  build_query_pointer_reply,
}

-- The size that X11 gives a message from the server: 32 bytes, and for a reply, which begins with 1,
-- four bytes more for each unit of its length field.
unfoldable pub announced : ByteOrder → List ℕ → ℕ
announced o bs = if byte_at bs 0 == 1 then 32 + 4 * get_u32 (drop 4 bs) o else 32

abbrev pub IsFramed : ByteOrder → List ℕ → Type 0
IsFramed o bs = announced o bs ≡ length bs

-- The error, each event, and the replies to GetGeometry, InternAtom, GetSelectionOwner and QueryPointer
-- are as long as X11 says, whatever their fields and in either byte order.
pub messages-IsFramed :
    (a b c d e f g h s : ℕ) (x y z w : ℤ) (p : Bool) (o : ByteOrder)
    → IsFramed o (build_error a b c d e o)
      × IsFramed o (build_map_notify a b p s o)
      × IsFramed o (build_unmap_notify a b p s o)
      × IsFramed o (build_configure_notify a b c x y d e f p s o)
      × IsFramed o (build_destroy_notify a b s o)
      × IsFramed o (build_property_notify a b c d s o)
      × IsFramed o (build_selection_clear a b c s o)
      × IsFramed o (build_selection_request a b c d e f s o)
      × IsFramed o (build_selection_notify a b c d e s o)
      × IsFramed o (build_graphics_exposure a b c d e f g h s o)
      × IsFramed o (build_no_expose a b c s o)
      × IsFramed o (build_expose a b c d e f s o)
      × IsFramed o (build_get_geometry_reply a b x y c d e s o)
      × IsFramed o (build_intern_atom_reply a s o)
      × IsFramed o (build_get_selection_owner_reply a s o)
      × IsFramed o (build_query_pointer_reply p a b x y z w c s o)
unfolding build_error build_map_notify build_unmap_notify build_configure_notify
    build_destroy_notify build_property_notify build_selection_clear build_selection_request
    build_selection_notify build_graphics_exposure build_no_expose build_expose
    build_get_geometry_reply build_intern_atom_reply build_get_selection_owner_reply
    build_query_pointer_reply fill write_all byte half word overwrite put_u16 put_u32 put_u32_le
    put_u32_be announced get_u32 get_u32_le get_u32_be
messages-IsFramed a b c d e f g h s x y z w p lsb_first =
    (refl, refl, refl, refl, refl, refl, refl, refl, refl, refl, refl, refl, refl, refl, refl, refl)
messages-IsFramed a b c d e f g h s x y z w p msb_first =
    (refl, refl, refl, refl, refl, refl, refl, refl, refl, refl, refl, refl, refl, refl, refl, refl)
