-- ===== src/Tests/Utf8.antt =====
-- baselib/Text.cpp and baselib/StrUtil.h at concrete inputs.
use adchubd.Base.{◌≡◌, refl, [], ◌∷◌, ◌++◌, true, false, arith, Bytes, ◌↔◌, drop, length}
use adchubd.StrUtil.{to_string, string_to_uint}
use adchubd.StrUtil.Decimal.{string_to_uint-to_string}
use adchubd.Text.Utf8.{
  validate_loop, decode2, decode3, decode4, no_cont, good, utf8_to_wc, wc_to_utf8, validate_utf8,
  is_scalar,
}
use adchubd.Text.Utf8.Valid.{IsUtf8, validate_utf8_iff, utf8_to_wc_iff}

-- "a", the euro sign, and a musical clef outside the basic plane.
abbrev mixed : Bytes
mixed = 0x61 ∷ 0xE2 ∷ 0x82 ∷ 0xAC ∷ 0xF0 ∷ 0x9D ∷ 0x84 ∷ 0x9E ∷ []

validate_utf8-mixed : validate_utf8 mixed ≡ true
unfolding validate_utf8 validate_loop utf8_to_wc decode2 decode3 decode4 no_cont
validate_utf8-mixed = refl

-- An overlong slash, a surrogate, and a cut character.
validate_utf8_wrong :
    (validate_utf8 (0xC0 ∷ 0xAF ∷ []) ≡ false)
    × (validate_utf8 (0xED ∷ 0xA0 ∷ 0x80 ∷ []) ≡ false)
    × (validate_utf8 (0xE2 ∷ 0x82 ∷ []) ≡ false)
unfolding validate_utf8 validate_loop utf8_to_wc decode2 decode3 decode4 no_cont
validate_utf8_wrong = (refl, refl, refl)

validate_utf8_iff_example : (validate_utf8 mixed ≡ true) ↔ IsUtf8 mixed
validate_utf8_iff_example = validate_utf8_iff mixed (omega arith)

utf8_to_wc_iff_example : (utf8_to_wc 0xE2 (0x82 ∷ 0xAC ∷ 0x21 ∷ []) ≡ good 3 0x20AC) ↔ (
    (is_scalar 0x20AC ≡ true)
    × (3 ≡ length (wc_to_utf8 0x20AC))
    × (0xE2 ∷ 0x82 ∷ 0xAC ∷ 0x21 ∷ [] ≡ wc_to_utf8 0x20AC ++ drop 2 (0x82 ∷ 0xAC ∷ 0x21 ∷ [])))
utf8_to_wc_iff_example = utf8_to_wc_iff 0xE2 3 0x20AC (0x82 ∷ 0xAC ∷ 0x21 ∷ []) (omega arith)

string_to_uint-to_string_example : string_to_uint 32 (to_string 4096) ≡ 4096
string_to_uint-to_string_example = string_to_uint-to_string 32 4096 (omega arith) (omega arith)
