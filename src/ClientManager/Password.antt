-- ===== src/ClientManager/Password.antt =====
-- adchpp/ClientManager.cpp: `verifyPassword`, which plugins call for the answer to a request of a
-- password.
use adchubd.Base.{◌↔◌, ◌<◌, ◌≡◌, ap, sym, ◌∙◌, Bool, true, ◌++◌, Bytes, All, same, same_iff, length}
use adchubd.Base32.{from_base32, to_base32}
use adchubd.Base32.RoundTrip.{from_base32-to_base32}
use adchubd.Cid.{size}
use adchubd.ClientManager.Externals.{Externals}

-- To update a hash with one text and then with another is to hash both as one text. `from_base32` stops
-- at a zero byte of the text, as the source does, which passes `c_str()`.
unfoldable pub verify_password : Externals → Bytes → Bytes → Bytes → Bool
verify_password x password salt supplied_hash =
    same (x.tiger (password ++ salt)) (from_base32 supplied_hash size)

-- The text in base 32 of any 24 bytes is accepted for a password and a salt exactly if these bytes are
-- the hash of both.
pub verify_password-to_base32 :
    (x : Externals) (password salt hash : Bytes)
    → length hash ≡ size
    → All (λ c. c < 256) hash
    → (verify_password x password salt (to_base32 hash) ≡ true)
      ↔ (x.tiger (password ++ salt) ≡ hash)
unfolding verify_password
verify_password-to_base32 x password salt hash l b =
    let read : from_base32 (to_base32 hash) size ≡ hash =
      ap (from_base32 (to_base32 hash)) (sym l) ∙ from_base32-to_base32 hash b in
    let (to, from) = same_iff (x.tiger (password ++ salt)) (from_base32 (to_base32 hash) size) in
    ((λ h. to h ∙ read), λ h. from (h ∙ sym read))
