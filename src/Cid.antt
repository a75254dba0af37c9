-- ===== src/Cid.antt =====
-- adchpp/CID.h: the id of a client, 24 bytes, which are written as 39 letters.
use adchubd.Base.{ℕ, Bytes, ◌==◌, if◌then◌else◌, length, take}
use adchubd.Base32.{zeros, to_base32, from_base32}

abbrev pub size : ℕ
size = 24

abbrev pub base32_size : ℕ
base32_size = 39

-- `CID()`
abbrev pub empty : Bytes
empty = zeros size

-- `CID(base32)`; a text of another length is cut, or goes on with zero bytes, which end it.
unfoldable pub from_text : Bytes → Bytes
from_text base32 =
    from_base32 (if length base32 == base32_size then base32 else take base32_size base32) size

unfoldable pub to_text : Bytes → Bytes
to_text cid = to_base32 cid
