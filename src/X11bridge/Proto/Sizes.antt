-- ===== src/X11bridge/Proto/Sizes.antt =====
-- x11bridge/x11_proto.c: the replies that carry data, and the four that announce too much.
use ishizue.Base.{
  ℕ, zero, suc, ◌+◌, ◌*◌, ◌≤◌, ◌<◌, ◌^◌, ◌≡◌, refl, ap, sym, subst, ◌∙◌, Bool, Option, none, some,
  List, [], ◌∷◌, ◌++◌, arith, if◌then◌else◌, length, length-append, length-replicate, replicate,
  if_cases, ltb,
}
use ishizue.Base.Bytes.{put_u32_le, get_u32_le, put_u32_be, get_u32_be}
use ishizue.Protocol.Payload.{overwrite, length-overwrite}
use ishizue.X11bridge.Proto.{
  ByteOrder, lsb_first, msb_first, get_u32, put_u16, put_u32, pad4, byte, half, word, write_all,
  fill,
}
use ishizue.X11bridge.Proto.Replies.{
  build_get_window_attributes_reply, build_query_best_size_reply, build_get_property_reply,
  build_query_tree_reply, build_get_atom_name_reply, put_children, tree_header,
}
use ishizue.X11bridge.Proto.Framing.{announced}

-- A reply of this size, for which X11 takes `excess` bytes more, where the buffer has room for it.
pub Fits : ByteOrder → ℕ → ℕ → ℕ → Option (List ℕ) → Type 0
Fits o out_cap size excess none = out_cap < size
Fits o out_cap size excess (some bs) =
    (size ≤ out_cap) × (length bs ≡ size) × (announced o bs ≡ size + excess)

-- The room test of a builder.
fits :
    (o : ByteOrder) (out_cap size excess : ℕ) (bs : List ℕ)
    → length bs ≡ size
    → announced o bs ≡ size + excess
    → Fits o out_cap size excess (if ltb out_cap size then none else some bs)
unfolding Fits
fits o out_cap size excess bs l a =
    if_cases (Fits o out_cap size excess) (ltb out_cap size) (λ t. ground arith)
      (λ t. (ground arith, l, a))

zeros_kept : (n : ℕ) (bs : List ℕ) → length (overwrite (replicate n 0) 0 bs) ≡ n
zeros_kept n bs = length-overwrite (replicate n 0) 0 bs ∙ length-replicate n 0

-- The reply to GetProperty is refused for lack of room, or has the padded value behind its 32 bytes
-- and announces just that, for a value of less than 2 ^ 31 bytes.
pub property-Fits :
    (out_cap format type bytes_after value_len : ℕ) (value : List ℕ) (sequence : ℕ) (o : ByteOrder)
    → length value < 2 ^ 31
    → Fits o out_cap
        (32 + pad4 (length value))
        0
        (build_get_property_reply out_cap format type bytes_after value_len value sequence o)
unfolding build_get_property_reply fill write_all byte half word overwrite put_u16 put_u32
    put_u32_le put_u32_be announced get_u32 get_u32_le get_u32_be pad4
property-Fits out_cap format type bytes_after value_len value sequence lsb_first small =
    fits lsb_first out_cap _ 0 _ (omega (arith, zeros_kept (pad4 (length value)) value))
      (omega arith)
property-Fits out_cap format type bytes_after value_len value sequence msb_first small =
    fits msb_first out_cap _ 0 _ (omega (arith, zeros_kept (pad4 (length value)) value))
      (omega arith)

name-Fits :
    (out_cap : ℕ) (name : List ℕ) (sequence : ℕ) (o : ByteOrder)
    → length name < 2 ^ 16
    → Fits o out_cap
        (32 + pad4 (length name))
        24
        (build_get_atom_name_reply out_cap name sequence o)
unfolding build_get_atom_name_reply fill write_all byte half word overwrite put_u16 put_u32
    put_u32_le put_u32_be announced get_u32 get_u32_le get_u32_be pad4
name-Fits out_cap name sequence lsb_first small =
    fits lsb_first out_cap _ 24 _ (omega (arith, zeros_kept (pad4 (length name)) name))
      (omega arith)
name-Fits out_cap name sequence msb_first small =
    fits msb_first out_cap _ 24 _ (omega (arith, zeros_kept (pad4 (length name)) name))
      (omega arith)

overwrite_behind :
    (p t : List ℕ) (off k : ℕ) (bs : List ℕ)
    → off ≡ length p + k
    → overwrite (p ++ t) off bs ≡ p ++ overwrite t k bs
unfolding overwrite
overwrite_behind [] t off k bs e = ap (λ i. overwrite t i bs) (omega arith)
overwrite_behind (x ∷ p) t zero k bs e = absurd (omega arith)
overwrite_behind (x ∷ p) t (suc off) k bs e =
    ap (◌∷◌ x) (overwrite_behind p t off k bs (omega arith))

children_behind :
    (p t cs : List ℕ) (off k : ℕ) (o : ByteOrder)
    → off ≡ length p + k
    → put_children cs off o (p ++ t) ≡ p ++ put_children cs k o t
unfolding put_children write_all word
children_behind p t [] off k o e = refl
children_behind p t (c ∷ cs) off k o e =
    ap (λ b. put_children cs (off + 4) o b) (overwrite_behind p t off k (put_u32 c o) e)
    ∙ children_behind p (overwrite t k (put_u32 c o)) cs (off + 4) (k + 4) o (omega arith)

length-put_children :
    (cs : List ℕ) (off : ℕ) (o : ByteOrder) (buf : List ℕ)
    → length (put_children cs off o buf) ≡ length buf
unfolding put_children write_all word
length-put_children [] off o buf = refl
length-put_children (c ∷ cs) off o buf =
    length-put_children cs (off + 4) o (overwrite buf off (put_u32 c o))
    ∙ length-overwrite buf off (put_u32 c o)

-- The children behind a head of 32 bytes leave the head alone.
put_children-Fits :
    (o : ByteOrder) (out_cap : ℕ) (head children : List ℕ)
    → length head ≡ 32
    → ((rest : List ℕ) → announced o (head ++ rest) ≡ 32 + length children * 4 + 24)
    → Fits o out_cap (32 + length children * 4) 24 (
        if ltb out_cap (32 + length children * 4)
        then none
        else some (put_children children 32 o (head ++ replicate (length children * 4) 0)))
put_children-Fits o out_cap head children l a =
    let zeros : List ℕ = replicate (length children * 4) 0 in
    subst
      (λ bs.
        Fits o out_cap (32 + length children * 4) 24
          (if ltb out_cap (32 + length children * 4) then none else some bs))
      (sym (children_behind head zeros children 32 0 o (omega arith)))
      (fits o out_cap _ 24 _
        (omega (
          arith,
          length-append head (put_children children 0 o zeros),
          length-put_children children 0 o zeros,
          length-replicate {A = ℕ} (length children * 4) 0,
        ))
        (a (put_children children 0 o zeros)))

tree-Fits :
    (out_cap root parent : ℕ) (children : List ℕ) (sequence : ℕ) (o : ByteOrder)
    → length children < 2 ^ 16
    → Fits o out_cap
        (32 + length children * 4)
        24
        (build_query_tree_reply out_cap root parent children sequence o)
unfolding build_query_tree_reply tree_header announced get_u32 get_u32_le get_u32_be fill write_all
    byte half word overwrite put_u16 put_u32 put_u32_le put_u32_be
tree-Fits out_cap root parent children sequence lsb_first small =
    put_children-Fits lsb_first out_cap
      (write_all (tree_header root parent (length children) sequence lsb_first) (replicate 32 0))
      children refl (λ rest. omega arith)
tree-Fits out_cap root parent children sequence msb_first small =
    put_children-Fits msb_first out_cap
      (write_all (tree_header root parent (length children) sequence msb_first) (replicate 32 0))
      children refl (λ rest. omega arith)

-- A reply of this size, for which X11 takes `excess` bytes more.
abbrev pub SendsLess : ByteOrder → ℕ → ℕ → List ℕ → Type 0
SendsLess o size excess bs = (length bs ≡ size) × (announced o bs ≡ size + excess)

-- Four replies announce more than they send, so that the next message is taken for their rest: the
-- one to GetWindowAttributes has 44 bytes and announces 24 more, to QueryBestSize 16 and 16 more; to
-- QueryTree with less than 2 ^ 16 children and to GetAtomName with less than 2 ^ 16 bytes, where there
-- is room for them, have 32 and those of the children or the padded name, and announce 24 more.
pub replies_overlong :
    (out_cap : ℕ) (children name : List ℕ) (a b c d e f g h i j k l s : ℕ) (p q r : Bool)
    (o : ByteOrder)
    → length children < 2 ^ 16
    → length name < 2 ^ 16
    → SendsLess o 44 24 (build_get_window_attributes_reply a b c d e f g p q h r i j k l s o)
      × SendsLess o 16 16 (build_query_best_size_reply a b s o)
      × Fits o out_cap
          (32 + length children * 4)
          24
          (build_query_tree_reply out_cap a b children s o)
      × Fits o out_cap (32 + pad4 (length name)) 24 (build_get_atom_name_reply out_cap name s o)
unfolding announced build_get_window_attributes_reply build_query_best_size_reply get_u32 get_u32_le
    get_u32_be fill write_all byte half word overwrite put_u16 put_u32 put_u32_le put_u32_be
replies_overlong out_cap children name a b c d e f g h i j k l s p q r lsb_first small short = (
  (refl, refl),
  (refl, refl),
  tree-Fits out_cap a b children s lsb_first small,
  name-Fits out_cap name s lsb_first short,
)
replies_overlong out_cap children name a b c d e f g h i j k l s p q r msb_first small short = (
  (refl, refl),
  (refl, refl),
  tree-Fits out_cap a b children s msb_first small,
  name-Fits out_cap name s msb_first short,
)
