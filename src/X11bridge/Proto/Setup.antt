-- ===== src/X11bridge/Proto/Setup.antt =====
-- x11bridge/x11_proto.c: `x11_build_setup_success`, the reply to a client's setup request. The vendor
-- is the list of its bytes without the NUL; `none` stands for the size 0.
use ishizue.Base.{
  ℕ, ◌+◌, ◌-◌, ◌/◌, Option, none, some, List, [], ◌∷◌, ◌++◌, ltb, if◌then◌else◌, length, replicate,
}
use ishizue.X11bridge.Proto.{
  ByteOrder, lsb_first, msb_first, Write, byte, half, word, pad4, write_all,
}

-- 1 for X11_BYTE_ORDER_MSB, else 0.
image_byte_order : ByteOrder → ℕ
image_byte_order msb_first = 1
image_byte_order lsb_first = 0

-- The fixed header, struct x11_setup_success.
unfoldable pub setup_header : ByteOrder → ℕ → ℕ → ℕ → ℕ → ℕ → ℕ → List Write
unfolding image_byte_order
setup_header o major minor total base mask vlen =
    byte 0 1
    ∷ half 2 major o
    ∷ half 4 minor o
    ∷ half 6 ((total - 8) / 4) o
    ∷ word 8 11800000 o
    ∷ word 12 base o
    ∷ word 16 mask o
    ∷ word 20 0 o
    ∷ half 24 vlen o
    ∷ half 26 65535 o
    ∷ byte 28 1
    ∷ byte 29 3
    ∷ byte 30 (image_byte_order o)
    ∷ byte 31 (image_byte_order o)
    ∷ byte 32 32
    ∷ byte 33 32
    ∷ byte 34 8
    ∷ byte 35 255
    ∷ []

-- The three pixmap formats, each a struct x11_pixmap_format.
unfoldable pub setup_formats : ℕ → List Write
setup_formats at =
    byte at 1
    ∷ byte (at + 1) 1
    ∷ byte (at + 2) 32
    ∷ byte (at + 8) 24
    ∷ byte (at + 9) 32
    ∷ byte (at + 10) 32
    ∷ byte (at + 16) 32
    ∷ byte (at + 17) 32
    ∷ byte (at + 18) 32
    ∷ []

-- The root screen, struct x11_root_screen.
unfoldable pub setup_root : ByteOrder → ℕ → List Write
setup_root o at =
    word at 256 o
    ∷ word (at + 4) 34 o
    ∷ word (at + 8) 16777215 o
    ∷ word (at + 12) 0 o
    ∷ word (at + 16) 0 o
    ∷ half (at + 20) 1024 o
    ∷ half (at + 22) 768 o
    ∷ half (at + 24) 200 o
    ∷ half (at + 26) 150 o
    ∷ half (at + 28) 1 o
    ∷ half (at + 30) 1 o
    ∷ word (at + 32) 33 o
    ∷ byte (at + 36) 2
    ∷ byte (at + 37) 0
    ∷ byte (at + 38) 24
    ∷ byte (at + 39) 1
    ∷ []

-- The depth and its visual, struct x11_depth and struct x11_visualtype.
unfoldable pub setup_depth : ByteOrder → ℕ → List Write
setup_depth o at =
    byte at 24
    ∷ half (at + 2) 1 o
    ∷ word (at + 8) 33 o
    ∷ byte (at + 12) 2
    ∷ half (at + 14) 256 o
    ∷ word (at + 16) 16711680 o
    ∷ word (at + 20) 65280 o
    ∷ word (at + 24) 255 o
    ∷ byte (at + 28) 8
    ∷ []

-- The stores behind the header: the vendor's name, the formats, the screen and the depth.
unfoldable pub setup_body : ByteOrder → List ℕ → List Write
unfolding setup_formats setup_root setup_depth
setup_body o vendor =
    let fmts = 40 + pad4 (length vendor) in
    record { at = 40; bytes = vendor } ∷ setup_formats fmts
    ++ setup_root o (fmts + 24)
    ++ setup_depth o (fmts + 64)

-- `x11_build_setup_success`.
unfoldable pub build_setup_success : ℕ → ByteOrder → ℕ → ℕ → ℕ → ℕ → List ℕ → Option (List ℕ)
unfolding setup_header setup_body
build_setup_success out_cap o major minor base mask vendor =
    let total = 40 + pad4 (length vendor) + 24 + 40 + 32 in
    if ltb 252 (length vendor)
    then none
    else if ltb out_cap total
    then none
    else some (
        write_all (setup_body o vendor) (
          write_all (setup_header o major minor total base mask (length vendor))
            (replicate 40 0 ++ replicate (pad4 (length vendor) + 24 + 40 + 32) 0)))
