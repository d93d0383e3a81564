-- ===== src/Dispatch/Parse.antt =====
-- src/isz_client_dispatch.c: how the handlers read their payloads, with the checked readers.
pub mod Encoded
use ishizue.Base.{ℕ, Option, none, some, List, leb, if◌then◌else◌, length}
use ishizue.Base.Int.{ℤ}
use ishizue.Protocol.Payload.{read_u32_checked, read_i32_checked, read_u64_checked, read_u8}
use ishizue.Render.Buffers.{Desc}

-- The next field, and what follows it.
abbrev pub and_then {ℓ κ} :
    {A : Type ℓ} {B : Type κ} → Option (A × ℕ) → (A → ℕ → Option B) → Option B
and_then none f = none
and_then (some (a, off)) f = f a off

-- `u32 id`.
pub parse_id : List ℕ → Option ℕ
parse_id p = and_then (read_u32_checked p 0 (length p)) (λ id off. some id)

-- `u32 id, i32 value`.
pub parse_value : List ℕ → Option (ℕ × ℤ)
parse_value p =
    and_then (read_u32_checked p 0 (length p))
      λ id off. and_then (read_i32_checked p off (length p)) (λ v off. some (id, v))

-- `u32 id, i32 x, i32 y`.
pub parse_pair : List ℕ → Option (ℕ × ℤ × ℤ)
parse_pair p = and_then (read_u32_checked p 0 (length p)) λ id off.
    and_then (read_i32_checked p off (length p))
      λ x off. and_then (read_i32_checked p off (length p)) (λ y off. some (id, x, y))

-- The payload of SURFACE_ATTACH_BUFFER.
pub record AttachRequest : Type 0 where
  pub surface_id : ℕ
  pub fd_index : ℕ
  pub desc : Desc

pub parse_attach : List ℕ → Option AttachRequest
parse_attach p = and_then (read_u32_checked p 0 (length p)) λ id off.
    and_then (read_u32_checked p off (length p)) λ fd_index off.
      and_then (read_u32_checked p off (length p)) λ w off.
        and_then (read_u32_checked p off (length p)) λ h off.
          and_then (read_u32_checked p off (length p)) λ stride off.
            and_then (read_u32_checked p off (length p)) λ offset off.
              and_then (read_u32_checked p off (length p)) λ format off.
                and_then (read_u64_checked p off (length p)) λ modifier off.
                  if leb (length p) off
                  then none
                  else some (record {
                    surface_id = id;
                    fd_index = fd_index;
                    desc = record {
                      width = w;
                      height = h;
                      stride = stride;
                      offset = offset;
                      format = format;
                      modifier = modifier;
                      alpha_mode = read_u8 p off;
                    };
                  })
