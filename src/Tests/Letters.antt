-- ===== src/Tests/Letters.antt =====
-- baselib/Base32.cpp at concrete inputs.
use adchubd.Base.{◌≡◌, refl, ◌∷◌, [], arith, codes}
use adchubd.Base32.{
  to_base32, from_base32, encode_loop, decode_loop, base32_value, crossing, within, zeros,
}
use adchubd.Base32.RoundTrip.{from_base32-to_base32}

to_base32_run : to_base32 (codes "foobar") ≡ codes "MZXW6YTBOI"
unfolding to_base32 encode_loop crossing within
to_base32_run = refl

-- Lower case is read as upper case, and other characters are passed over.
from_base32_run : from_base32 (codes "mz-XW6") 3 ≡ codes "foo"
unfolding from_base32 decode_loop base32_value zeros
from_base32_run = refl

from_base32-to_base32_example : from_base32 (to_base32 (0 ∷ 255 ∷ 171 ∷ [])) 3 ≡ 0 ∷ 255 ∷ 171 ∷ []
from_base32-to_base32_example = from_base32-to_base32 (0 ∷ 255 ∷ 171 ∷ []) (omega arith)
