-- ===== src/X11bridge/Proto/Greeting.antt =====
-- x11bridge/x11_proto.c: the setup reply ends where its length field says.
use ishizue.Base.{
  ℕ, ◌+◌, ◌*◌, ◌≤◌, ◌<◌, ◌≡◌, ◌⊎◌, inl, inr, refl, sym, subst, ◌∙◌, Option, none, some, List, [],
  ◌∷◌, ◌++◌, arith, All, length, length-append, length-replicate, replicate, if_cases, ltb, get_or,
}
use ishizue.Base.Bytes.{byte_at, put_u32_le, put_u32_be}
use ishizue.Protocol.Payload.{overwrite, length-overwrite, overwrite_outside}
use ishizue.X11bridge.Proto.{
  ByteOrder, lsb_first, msb_first, get_u16, put_u16, put_u32, pad4, Write, byte, half, word,
  write_all,
}
use ishizue.X11bridge.Proto.Setup.{
  build_setup_success, setup_header, setup_body, setup_formats, setup_root, setup_depth,
}

length-write_all : (ws : List Write) (buf : List ℕ) → length (write_all ws buf) ≡ length buf
unfolding write_all
length-write_all [] buf = refl
length-write_all (w ∷ ws) buf =
    length-write_all ws (overwrite buf w.at w.bytes) ∙ length-overwrite buf w.at w.bytes

write_all_before :
    (ws : List Write) (buf : List ℕ) (i : ℕ)
    → All (λ (w : Write). i < w.at) ws
    → get_or (write_all ws buf) i 0 ≡ get_or buf i 0
unfolding write_all
write_all_before [] buf i h = refl
write_all_before (w ∷ ws) buf i h =
    write_all_before ws (overwrite buf w.at w.bytes) i h.1
    ∙ overwrite_outside buf w.at w.bytes i (inl h.0)

-- The size that X11 gives the setup reply: 8 bytes, and four for each unit of its length field.
pub announced_setup : ByteOrder → List ℕ → ℕ
announced_setup o bs = 8 + 4 * get_u16 (byte_at bs 6 ∷ byte_at bs 7 ∷ []) o

-- The reply is refused for a long vendor or a small buffer, or has the announced size.
pub Greets : ByteOrder → ℕ → List ℕ → Option (List ℕ) → Type 0
Greets o out_cap vendor none = (252 < length vendor) ⊎ (out_cap < 136 + pad4 (length vendor))
Greets o out_cap vendor (some bs) =
    (length vendor ≤ 252)
    × (length bs ≤ out_cap)
    × (length bs ≡ 136 + pad4 (length vendor))
    × (announced_setup o bs ≡ length bs)

body_behind :
    (o : ByteOrder) (vendor : List ℕ) (i : ℕ)
    → i < 40
    → All (λ (w : Write). i < w.at) (setup_body o vendor)
unfolding setup_body setup_formats setup_root setup_depth byte half word
body_behind o vendor i h = ground arith

module _ (major minor base mask : ℕ) (vendor : List ℕ) where
  abbrev greeting : ByteOrder → List ℕ
  greeting o =
      write_all
        (setup_header o major minor (40 + pad4 (length vendor) + 24 + 40 + 32) base mask
          (length vendor))
        (replicate 40 0 ++ replicate (pad4 (length vendor) + 24 + 40 + 32) 0)

  greeting-length :
      (o : ByteOrder)
      → length vendor ≤ 252
      → announced_setup o (greeting o) ≡ 136 + pad4 (length vendor)
  unfolding setup_header announced_setup write_all byte half word overwrite put_u16 put_u32
      put_u32_le put_u32_be get_u16 pad4
  greeting-length lsb_first h = omega arith
  greeting-length msb_first h = omega arith

  greeted-length :
      (o : ByteOrder)
      → length (write_all (setup_body o vendor) (greeting o)) ≡ 136 + pad4 (length vendor)
  greeted-length o = omega (
    arith,
    length-write_all (setup_body o vendor) (greeting o),
    length-write_all
        (setup_header o major minor (40 + pad4 (length vendor) + 24 + 40 + 32) base mask
          (length vendor))
        (replicate 40 0 ++ replicate (pad4 (length vendor) + 24 + 40 + 32) 0),
    length-append {A = ℕ} (replicate 40 0) (replicate (pad4 (length vendor) + 24 + 40 + 32) 0),
    length-replicate {A = ℕ} 40 0,
    length-replicate {A = ℕ} (pad4 (length vendor) + 24 + 40 + 32) 0,
  )

  -- The length field is the header's, whatever is stored behind it.
  greeted-announced :
      (o : ByteOrder)
      → announced_setup o (write_all (setup_body o vendor) (greeting o))
        ≡ announced_setup o (greeting o)
  unfolding announced_setup
  greeted-announced o =
      rw
        (
          write_all_before (setup_body o vendor) (greeting o) 6
              (body_behind o vendor 6 (omega arith)),
          write_all_before (setup_body o vendor) (greeting o) 7
              (body_behind o vendor 7 (omega arith)),
        )
        refl

  -- The reply to a setup request is refused for a vendor of more than 252 bytes or a buffer without
  -- room, or is 136 bytes and the padded vendor long, which its length field says.
  pub setup-Greets :
      (out_cap : ℕ) (o : ByteOrder)
      → Greets o out_cap vendor (build_setup_success out_cap o major minor base mask vendor)
  unfolding build_setup_success Greets
  setup-Greets out_cap o =
      if_cases (Greets o out_cap vendor) (ltb 252 (length vendor)) (λ t. inl (ground arith))
        (λ f.
          if_cases (Greets o out_cap vendor)
            (ltb out_cap (40 + pad4 (length vendor) + 24 + 40 + 32)) (λ t. inr (ground arith))
            (λ g. greets (ground arith) (ground arith)))
    where
      greets :
          length vendor ≤ 252
          → 136 + pad4 (length vendor) ≤ out_cap
          → Greets o out_cap vendor (some (write_all (setup_body o vendor) (greeting o)))
      greets short room = (
        short,
        subst (λ n. n ≤ out_cap) (sym (greeted-length o)) room,
        greeted-length o,
        greeted-announced o ∙ greeting-length o short ∙ sym (greeted-length o),
      )
