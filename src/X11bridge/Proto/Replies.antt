-- ===== src/X11bridge/Proto/Replies.antt =====
-- x11bridge/x11_proto.c: the replies. A buffer that is too small gives `none`, for the size 0.
use ishizue.Base.{
  ℕ, ◌+◌, ◌*◌, ◌/◌, Bool, Option, none, some, List, [], ◌∷◌, ◌++◌, ltb, length, replicate,
  if◌then◌else◌,
}
use ishizue.Base.Int.{ℤ}
use ishizue.Protocol.Payload.{overwrite}
use ishizue.X11bridge.Proto.{
  ByteOrder, Write, byte, half, word, fill, flag, to_u16, pad4, write_all,
}

-- `x11_build_get_geometry_reply`.
unfoldable pub build_get_geometry_reply : ℕ → ℕ → ℤ → ℤ → ℕ → ℕ → ℕ → ℕ → ByteOrder → List ℕ
build_get_geometry_reply depth root_xid x y width height border_width sequence o = fill 32 (
    byte 0 1
    ∷ byte 1 depth
    ∷ half 2 sequence o
    ∷ word 4 0 o
    ∷ word 8 root_xid o
    ∷ half 12 (to_u16 x) o
    ∷ half 14 (to_u16 y) o
    ∷ half 16 width o
    ∷ half 18 height o
    ∷ half 20 border_width o
    ∷ [])

-- `x11_build_intern_atom_reply`.
unfoldable pub build_intern_atom_reply : ℕ → ℕ → ByteOrder → List ℕ
build_intern_atom_reply atom sequence o =
    fill 32 (byte 0 1 ∷ half 2 sequence o ∷ word 4 0 o ∷ word 8 atom o ∷ [])

-- `x11_build_get_selection_owner_reply`.
unfoldable pub build_get_selection_owner_reply : ℕ → ℕ → ByteOrder → List ℕ
build_get_selection_owner_reply owner sequence o =
    fill 32 (byte 0 1 ∷ half 2 sequence o ∷ word 4 0 o ∷ word 8 owner o ∷ [])

-- `x11_build_query_pointer_reply`.
unfoldable pub build_query_pointer_reply : Bool → ℕ → ℕ → ℤ → ℤ → ℤ → ℤ → ℕ → ℕ → ByteOrder → List ℕ
build_query_pointer_reply same_screen root child root_x root_y win_x win_y mask sequence o =
    fill 32 (
      byte 0 1
      ∷ byte 1 (flag same_screen)
      ∷ half 2 sequence o
      ∷ word 4 0 o
      ∷ word 8 root o
      ∷ word 12 child o
      ∷ half 16 (to_u16 root_x) o
      ∷ half 18 (to_u16 root_y) o
      ∷ half 20 (to_u16 win_x) o
      ∷ half 22 (to_u16 win_y) o
      ∷ half 24 mask o
      ∷ [])

-- `x11_build_get_window_attributes_reply`.
unfoldable pub build_get_window_attributes_reply :
    ℕ → ℕ → ℕ → ℕ → ℕ → ℕ → ℕ → Bool → Bool → ℕ → Bool → ℕ → ℕ → ℕ → ℕ → ℕ → ByteOrder → List ℕ
build_get_window_attributes_reply backing_store visual window_class bit_gravity win_gravity
      backing_planes backing_pixel override_redirect save_under map_state map_installed colormap
      all_event_masks your_event_mask do_not_propagate_mask sequence o =
    fill 44 (
      byte 0 1
      ∷ byte 1 backing_store
      ∷ half 2 sequence o
      ∷ word 4 9 o
      ∷ word 8 visual o
      ∷ half 12 window_class o
      ∷ byte 14 bit_gravity
      ∷ byte 15 win_gravity
      ∷ word 16 backing_planes o
      ∷ word 20 backing_pixel o
      ∷ byte 24 (flag override_redirect)
      ∷ byte 25 (flag save_under)
      ∷ byte 26 map_state
      ∷ byte 27 (flag map_installed)
      ∷ word 28 colormap o
      ∷ word 32 all_event_masks o
      ∷ word 36 your_event_mask o
      ∷ half 40 do_not_propagate_mask o
      ∷ [])

-- `x11_build_query_best_size_reply`.
unfoldable pub build_query_best_size_reply : ℕ → ℕ → ℕ → ByteOrder → List ℕ
build_query_best_size_reply width height sequence o =
    fill 16 (byte 0 1 ∷ half 2 sequence o ∷ word 4 0 o ∷ half 8 width o ∷ half 10 height o ∷ [])

-- `x11_build_get_property_reply`.
unfoldable pub build_get_property_reply :
    ℕ → ℕ → ℕ → ℕ → ℕ → List ℕ → ℕ → ByteOrder → Option (List ℕ)
build_get_property_reply out_cap format type bytes_after value_len value sequence o =
    let padded = pad4 (length value) in
    if ltb out_cap (32 + padded)
    then none
    else some (
        overwrite
          (write_all
            (byte 0 1
              ∷ byte 1 format
              ∷ half 2 sequence o
              ∷ word 4 (padded / 4) o
              ∷ word 8 type o
              ∷ word 12 bytes_after o
              ∷ word 16 value_len o
              ∷ [])
            (replicate 32 0 ++ replicate padded 0))
          32 value)

-- The loop over the children in `x11_build_query_tree_reply`.
unfoldable pub put_children : List ℕ → ℕ → ByteOrder → List ℕ → List ℕ
put_children [] off o buf = buf
put_children (c ∷ cs) off o buf = put_children cs (off + 4) o (write_all (word off c o ∷ []) buf)

-- `x11_build_query_tree_reply`.
unfoldable pub tree_header : ℕ → ℕ → ℕ → ℕ → ByteOrder → List Write
tree_header root parent n sequence o =
    byte 0 1
    ∷ half 2 sequence o
    ∷ word 4 (6 + n) o
    ∷ word 8 root o
    ∷ word 12 parent o
    ∷ half 16 n o
    ∷ []

unfoldable pub build_query_tree_reply : ℕ → ℕ → ℕ → List ℕ → ℕ → ByteOrder → Option (List ℕ)
build_query_tree_reply out_cap root parent children sequence o =
    let n = length children in
    let total = 32 + n * 4 in
    if ltb out_cap total
    then none
    else some (
        put_children children 32 o (
          write_all (tree_header root parent n sequence o) (replicate 32 0 ++ replicate (n * 4) 0)))

-- `x11_build_get_atom_name_reply`.
unfoldable pub build_get_atom_name_reply : ℕ → List ℕ → ℕ → ByteOrder → Option (List ℕ)
build_get_atom_name_reply out_cap name sequence o =
    let padded = pad4 (length name) in
    if ltb out_cap (32 + padded)
    then none
    else some (
        overwrite
          (write_all
            (byte 0 1 ∷ half 2 sequence o ∷ word 4 (padded / 4 + 6) o ∷ half 8 (length name) o ∷ [])
            (replicate 32 0 ++ replicate padded 0))
          32 name)
