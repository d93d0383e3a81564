-- ===== src/X11bridge/Proto/Events.antt =====
-- x11bridge/x11_proto.c: the error and the events, each of 32 bytes.
use ishizue.Base.{ℕ, Bool, List, [], ◌∷◌}
use ishizue.Base.Int.{ℤ}
use ishizue.X11bridge.Proto.{ByteOrder, byte, half, word, fill, flag, to_u16}

-- `x11_build_error`.
unfoldable pub build_error : ℕ → ℕ → ℕ → ℕ → ℕ → ByteOrder → List ℕ
build_error error_code sequence bad_value major_opcode minor_opcode o = fill 32 (
    byte 0 0
    ∷ byte 1 error_code
    ∷ half 2 sequence o
    ∷ word 4 bad_value o
    ∷ byte 8 minor_opcode
    ∷ byte 9 major_opcode
    ∷ [])

-- `x11_build_map_notify`.
unfoldable pub build_map_notify : ℕ → ℕ → Bool → ℕ → ByteOrder → List ℕ
build_map_notify event window override_redirect sequence o = fill 32 (
    byte 0 19
    ∷ byte 1 (flag override_redirect)
    ∷ half 2 sequence o
    ∷ word 4 event o
    ∷ word 8 window o
    ∷ [])

-- `x11_build_unmap_notify`.
unfoldable pub build_unmap_notify : ℕ → ℕ → Bool → ℕ → ByteOrder → List ℕ
build_unmap_notify event window from_configure sequence o = fill 32 (
    byte 0 18
    ∷ byte 1 (flag from_configure)
    ∷ half 2 sequence o
    ∷ word 4 event o
    ∷ word 8 window o
    ∷ [])

-- `x11_build_configure_notify`.
unfoldable pub build_configure_notify :
    ℕ → ℕ → ℕ → ℤ → ℤ → ℕ → ℕ → ℕ → Bool → ℕ → ByteOrder → List ℕ
build_configure_notify event window above_sibling x y width height border_width override_redirect
      sequence o =
    fill 32 (
      byte 0 22
      ∷ half 2 sequence o
      ∷ word 4 event o
      ∷ word 8 window o
      ∷ word 12 above_sibling o
      ∷ half 16 (to_u16 x) o
      ∷ half 18 (to_u16 y) o
      ∷ half 20 width o
      ∷ half 22 height o
      ∷ half 24 border_width o
      ∷ byte 26 (flag override_redirect)
      ∷ [])

-- `x11_build_destroy_notify`.
unfoldable pub build_destroy_notify : ℕ → ℕ → ℕ → ByteOrder → List ℕ
build_destroy_notify event window sequence o =
    fill 32 (byte 0 17 ∷ half 2 sequence o ∷ word 4 event o ∷ word 8 window o ∷ [])

-- `x11_build_property_notify`.
unfoldable pub build_property_notify : ℕ → ℕ → ℕ → ℕ → ℕ → ByteOrder → List ℕ
build_property_notify window atom time state sequence o = fill 32 (
    byte 0 28
    ∷ half 2 sequence o
    ∷ word 4 window o
    ∷ word 8 atom o
    ∷ word 12 time o
    ∷ byte 16 state
    ∷ [])

-- `x11_build_selection_clear`.
unfoldable pub build_selection_clear : ℕ → ℕ → ℕ → ℕ → ByteOrder → List ℕ
build_selection_clear time owner selection_atom sequence o =
    fill 32 (
      byte 0 29
      ∷ half 2 sequence o
      ∷ word 4 time o
      ∷ word 8 owner o
      ∷ word 12 selection_atom o
      ∷ [])

-- `x11_build_selection_request`.
unfoldable pub build_selection_request : ℕ → ℕ → ℕ → ℕ → ℕ → ℕ → ℕ → ByteOrder → List ℕ
build_selection_request time owner requestor selection_atom target_atom property_atom sequence o =
    fill 32 (
      byte 0 30
      ∷ half 2 sequence o
      ∷ word 4 time o
      ∷ word 8 owner o
      ∷ word 12 requestor o
      ∷ word 16 selection_atom o
      ∷ word 20 target_atom o
      ∷ word 24 property_atom o
      ∷ [])

-- `x11_build_selection_notify`.
unfoldable pub build_selection_notify : ℕ → ℕ → ℕ → ℕ → ℕ → ℕ → ByteOrder → List ℕ
build_selection_notify time requestor selection_atom target_atom property_atom sequence o =
    fill 32 (
      byte 0 31
      ∷ half 2 sequence o
      ∷ word 4 time o
      ∷ word 8 requestor o
      ∷ word 12 selection_atom o
      ∷ word 16 target_atom o
      ∷ word 20 property_atom o
      ∷ [])

-- `x11_build_graphics_exposure`.
unfoldable pub build_graphics_exposure : ℕ → ℕ → ℕ → ℕ → ℕ → ℕ → ℕ → ℕ → ℕ → ByteOrder → List ℕ
build_graphics_exposure drawable x y width height minor_opcode count major_opcode sequence o =
    fill 32 (
      byte 0 13
      ∷ half 2 sequence o
      ∷ word 4 drawable o
      ∷ half 8 x o
      ∷ half 10 y o
      ∷ half 12 width o
      ∷ half 14 height o
      ∷ half 16 minor_opcode o
      ∷ half 18 count o
      ∷ byte 20 major_opcode
      ∷ [])

-- `x11_build_no_expose`.
unfoldable pub build_no_expose : ℕ → ℕ → ℕ → ℕ → ByteOrder → List ℕ
build_no_expose drawable minor_opcode major_opcode sequence o = fill 32 (
    byte 0 14
    ∷ half 2 sequence o
    ∷ word 4 drawable o
    ∷ half 8 minor_opcode o
    ∷ byte 10 major_opcode
    ∷ [])

-- `x11_build_expose`.
unfoldable pub build_expose : ℕ → ℕ → ℕ → ℕ → ℕ → ℕ → ℕ → ByteOrder → List ℕ
build_expose window x y width height count sequence o = fill 32 (
    byte 0 12
    ∷ half 2 sequence o
    ∷ word 4 window o
    ∷ half 8 x o
    ∷ half 10 y o
    ∷ half 12 width o
    ∷ half 14 height o
    ∷ half 16 count o
    ∷ [])
