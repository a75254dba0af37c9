-- ===== src/Entity/Flags.antt =====
-- baselib/Flags.h, and the flags of adchpp/Entity.h.
pub mod Laws
use adchubd.Base.{
  ℕ, ◌-◌, ◌^◌, Bool, true, false, not, Bytes, ◌==◌, if◌then◌else◌, bit_and, bit_or, codes,
}
use adchubd.Entity.{Entity}
use adchubd.Entity.Fields.{set_field}
use adchubd.StrUtil.{to_string}

-- `flags |= flag` and `flags &= ~flag` on 32 bits.
unfoldable pub set_bits : ℕ → ℕ → ℕ
set_bits flags flag = bit_or flags flag

unfoldable pub unset_bits : ℕ → ℕ → ℕ
unset_bits flags flag = bit_and flags (2 ^ 32 - 1 - flag)

unfoldable pub is_set_in : ℕ → ℕ → Bool
is_set_in flags flag = bit_and flags flag == flag

abbrev pub flag_bot : ℕ
flag_bot = 0x01

abbrev pub flag_hub : ℕ
flag_hub = 0x20

abbrev pub flag_registered : ℕ
flag_registered = 0x02

abbrev pub flag_op : ℕ
flag_op = 0x04

abbrev pub mask_client_type : ℕ
mask_client_type = 0x7F

abbrev pub flag_ok_ip : ℕ
flag_ok_ip = 0x400

abbrev pub flag_ghost : ℕ
flag_ghost = 0x800

abbrev pub flag_validate_hbri : ℕ
flag_validate_hbri = 0x1000

abbrev pub is_set : Entity → ℕ → Bool
is_set e flag = is_set_in e.flags flag

-- The field CT follows the bits of the client type.
abbrev pub with_client_type : Entity → ℕ → Entity
with_client_type e flag =
    if not (bit_and flag mask_client_type == 0)
    then set_field e (codes "CT") (to_string (bit_and e.flags mask_client_type))
    else e

unfoldable pub set_flag : Entity → ℕ → Entity
set_flag e flag = with_client_type (record e { flags = set_bits e.flags flag }) flag

unfoldable pub unset_flag : Entity → ℕ → Entity
unset_flag e flag = with_client_type (record e { flags = unset_bits e.flags flag }) flag
