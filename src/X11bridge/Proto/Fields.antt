-- ===== src/X11bridge/Proto/Fields.antt =====
-- x11bridge/x11_proto.c: a client finds the fields of an event where X11 puts them.
use ishizue.Base.{ℕ, ◌<◌, ◌^◌, ◌≡◌, refl, Bool, List, ◌++◌, arith, drop}
use ishizue.Base.Bytes.{IsU32, byte_at, put_u32_le, put_u32_be, get-put_u32_le, get-put_u32_be}
use ishizue.Base.Int.{ℤ, pos, negsuc}
use ishizue.Protocol.Payload.{overwrite}
use ishizue.X11bridge.Proto.{
  ByteOrder, lsb_first, msb_first, get_u16, get_u32, put_u16, put_u32, to_u16, flag, byte, half,
  word, write_all, fill,
}
use ishizue.X11bridge.Proto.Events.{build_configure_notify}

abbrev pub IsU16 : ℕ → Type 0
IsU16 v = v < 2 ^ 16

get-put_u32 :
    (v : ℕ) (rest : List ℕ) (o : ByteOrder) → IsU32 v → get_u32 (put_u32 v o ++ rest) o ≡ v
unfolding get_u32 put_u32
get-put_u32 v rest lsb_first h = get-put_u32_le v rest h
get-put_u32 v rest msb_first h = get-put_u32_be v rest h

get-put_u16 :
    (v : ℕ) (rest : List ℕ) (o : ByteOrder) → IsU16 v → get_u16 (put_u16 v o ++ rest) o ≡ v
unfolding get_u16 put_u16
get-put_u16 v rest lsb_first h = omega arith
get-put_u16 v rest msb_first h = omega arith

to_u16-lt : (x : ℤ) → IsU16 (to_u16 x)
unfolding to_u16
to_u16-lt (pos n) = omega arith
to_u16-lt (negsuc n) = omega arith

-- The 16- and 32-bit field of a message at an offset.
abbrev pub half_at : List ℕ → ℕ → ByteOrder → ℕ
half_at bs off o = get_u16 (drop off bs) o

abbrev pub word_at : List ℕ → ℕ → ByteOrder → ℕ
word_at bs off o = get_u32 (drop off bs) o

-- In either byte order, every field of a ConfigureNotify event stands where X11 has it: sequence,
-- the three windows, position, size, border and the flag.
pub configure-Reads :
    (event window above width height border_width sequence : ℕ) (x y : ℤ) (p : Bool) (o : ByteOrder)
    → IsU32 event
    → IsU32 window
    → IsU32 above
    → IsU16 width
    → IsU16 height
    → IsU16 border_width
    → IsU16 sequence
    → let bs =
        build_configure_notify event window above x y width height border_width p sequence o in
      (byte_at bs 0 ≡ 22)
      × (half_at bs 2 o ≡ sequence)
      × (word_at bs 4 o ≡ event)
      × (word_at bs 8 o ≡ window)
      × (word_at bs 12 o ≡ above)
      × (half_at bs 16 o ≡ to_u16 x)
      × (half_at bs 18 o ≡ to_u16 y)
      × (half_at bs 20 o ≡ width)
      × (half_at bs 22 o ≡ height)
      × (half_at bs 24 o ≡ border_width)
      × (byte_at bs 26 ≡ flag p)
unfolding build_configure_notify fill write_all byte half word overwrite put_u16 put_u32 put_u32_le
    put_u32_be
configure-Reads event window above width height border sequence x y p lsb_first he hw ha hx hy hb
      hs =
    (
      refl,
      get-put_u16 sequence _ lsb_first hs,
      get-put_u32 event _ lsb_first he,
      get-put_u32 window _ lsb_first hw,
      get-put_u32 above _ lsb_first ha,
      get-put_u16 (to_u16 x) _ lsb_first (to_u16-lt x),
      get-put_u16 (to_u16 y) _ lsb_first (to_u16-lt y),
      get-put_u16 width _ lsb_first hx,
      get-put_u16 height _ lsb_first hy,
      get-put_u16 border _ lsb_first hb,
      refl,
    )
configure-Reads event window above width height border sequence x y p msb_first he hw ha hx hy hb
      hs =
    (
      refl,
      get-put_u16 sequence _ msb_first hs,
      get-put_u32 event _ msb_first he,
      get-put_u32 window _ msb_first hw,
      get-put_u32 above _ msb_first ha,
      get-put_u16 (to_u16 x) _ msb_first (to_u16-lt x),
      get-put_u16 (to_u16 y) _ msb_first (to_u16-lt y),
      get-put_u16 width _ msb_first hx,
      get-put_u16 height _ msb_first hy,
      get-put_u16 border _ msb_first hb,
      refl,
    )
