-- ===== src/ClientManager/Sid.antt =====
-- adchpp/ClientManager.cpp: `makeSID`.
use adchubd.Base.{
  ℕ, ◌/◌, ◌%◌, ◌<◌, ◌≡◌, ◌≢◌, refl, ◌∙◌, ap, Bool, true, false, not, ◌&&◌, ◌||◌, List, [], ◌∷◌,
  Option, none, some, ◌==◌, leb, if◌then◌else◌, get_or, bit_and, arith, ◌⊎◌, inl, inr, Option-cases,
  All,
}
use adchubd.Base.Bits.{agree_below, agree_below_sound, bit_and-mod}
use adchubd.Base.Dict.{find, nat_eq}
use adchubd.AdcCommand.{to_sid, from_sid, hub_sid, invalid_sid}
use adchubd.Base32.{base32_alphabet}
use adchubd.AdcCommand.Words.{from_sid-to_sid}
use adchubd.ClientManager.{ClientManager}

unfoldable pub letter : ℕ → ℕ
letter value = get_or base32_alphabet (bit_and value 31) 0

-- The four letters that a random value gives.
unfoldable pub sid_of : ℕ → ℕ
sid_of value = to_sid (
    letter value
    ∷ letter (value / 32)
    ∷ letter (value / 32 / 32)
    ∷ letter (value / 32 / 32 / 32)
    ∷ [])

unfoldable pub is_free : ClientManager → ℕ → Bool
is_free m sid = elim (find sid m.entities) [ none ↦ true | some a ↦ false ]

-- The loop on the values that `Util::rand` returns, round by round: `none` if the loop goes on.
unfoldable pub make_sid : ClientManager → List ℕ → Option ℕ
make_sid m [] = none
make_sid m (value ∷ values) =
    let rest = make_sid m values in
    let sid = sid_of value in if not (sid == 0) && is_free m sid then some sid else rest

-- A letter of the alphabet.
abbrev pub is_letter : ℕ → Bool
is_letter c = leb b'A' c && leb c b'Z' || leb b'2' c && leb c b'7'

letter-is_letter : (value : ℕ) → is_letter (letter value) ≡ true
unfolding agree_below letter
letter-is_letter value =
    ap (λ v. is_letter (get_or base32_alphabet v 0)) (bit_and-mod 5 value)
    ∙ agree_below_sound 32 (λ v. is_letter (get_or base32_alphabet v 0)) (λ v. true) (value % 32)
        (omega arith) refl

is_letter-bounds : (c : ℕ) → is_letter c ≡ true → 0 < c × c < 128
is_letter-bounds c h = ground arith

letter-bounds : (value : ℕ) → 0 < letter value × letter value < 128
letter-bounds value = is_letter-bounds (letter value) (letter-is_letter value)

from_sid-sid_of :
    (value : ℕ)
    → from_sid (sid_of value)
      ≡ letter value
        ∷ letter (value / 32)
        ∷ letter (value / 32 / 32)
        ∷ letter (value / 32 / 32 / 32)
        ∷ []
unfolding sid_of
from_sid-sid_of value =
    from_sid-to_sid (letter value) (letter (value / 32)) (letter (value / 32 / 32))
      (letter (value / 32 / 32 / 32))
      (
        bound value,
        (bound (value / 32), (bound (value / 32 / 32), (bound (value / 32 / 32 / 32), tt))),
      )
  where
    bound : (v : ℕ) → letter v < 256
    bound v = omega (arith, letter-bounds v)

-- A SID that four letters spell, which neither the hub nor an entity in `entities` has, and which is
-- not the one that stands for none. An entity that is logging in is not in `entities`.
pub record IsNew (m : ClientManager) (sid : ℕ) : Type 0 where
  pub spelled : All (λ c. is_letter c ≡ true) (from_sid sid)
  pub not_hub : sid ≢ hub_sid
  pub not_invalid : sid ≢ invalid_sid
  pub unused : find sid m.entities ≡ none

sid_of-bounds : (value : ℕ) → 0 < sid_of value × sid_of value < invalid_sid
unfolding sid_of to_sid
sid_of-bounds value = omega (
  arith,
  letter-bounds value,
  letter-bounds (value / 32),
  letter-bounds (value / 32 / 32),
  letter-bounds (value / 32 / 32 / 32),
)

sid_of-IsNew :
    (m : ClientManager) (value : ℕ) → find (sid_of value) m.entities ≡ none → IsNew m (sid_of value)
sid_of-IsNew m value e = record {
  spelled = rw (from_sid-sid_of value) (
    letter-is_letter value,
    (
      letter-is_letter (value / 32),
      (letter-is_letter (value / 32 / 32), (letter-is_letter (value / 32 / 32 / 32), tt)),
    ),
  );
  not_hub = λ h. absurd (omega (arith, sid_of-bounds value));
  not_invalid = λ h. absurd (omega (arith, sid_of-bounds value));
  unused = e;
}

-- From any sequence of random values, `makeSID` either returns a SID that four letters of the
-- alphabet spell, which is neither the one of the hub nor the invalid one and is not a key of
-- `entities`, where those in NORMAL stand, or it goes on, and then every value gave a key of `entities`.
-- Entities that are logging in may have the SID.
pub make_sid-IsNew :
    (m : ClientManager) (values : List ℕ)
    → ((sid : ℕ) × (make_sid m values ≡ some sid) × IsNew m sid)
      ⊎ ((make_sid m values ≡ none) × All (λ v. find (sid_of v) m.entities ≢ none) values)
unfolding make_sid is_free
make_sid-IsNew m [] = inr (refl, tt)
make_sid-IsNew m (v ∷ values) = elim (Option-cases (find (sid_of v) m.entities)) [
  | inl e ↦ inl (sid_of v, ground (arith, sid_of-bounds v), sid_of-IsNew m v e)
  | inr (a, e) ↦ elim (make_sid-IsNew m values) [
    | inl (sid, made, new) ↦ inl (sid, ground arith, new)
    | inr (made, taken) ↦ inr (ground arith, ((λ h. cc), taken))
  ]
]
