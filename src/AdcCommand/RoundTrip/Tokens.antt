-- ===== src/AdcCommand/RoundTrip/Tokens.antt =====
-- The loop of `parse` over one written parameter, with any text behind it.
use adchubd.Base.{
  ℕ, ◌≡◌, ◌≢◌, refl, sym, ◌∙◌, arith, [], ◌∷◌, ◌++◌, Bytes, ◌==◌, All, append-nil, append_assoc,
  Bool-cases, inl, inr,
}
use adchubd.AdcCommand.Parse.{Scan, ok, err, ◌>>=◌, push, clear, end_param, unescape, plain, scan}
use adchubd.AdcCommand.Print.{escape_byte, escape}

-- `escape` with no accumulator.
pub escaped : Bytes → Bytes
escaped [] = []
escaped (c ∷ s) = escape_byte c ++ escaped s

pub escape-escaped : (s out : Bytes) → escape s out ≡ out ++ escaped s
unfolding escape escaped
escape-escaped [] out = sym (append-nil out)
escape-escaped (c ∷ s) out = rw (escape-escaped s) (append_assoc out (escape_byte c) (escaped s))

abbrev pub with_cur : Scan → Bytes → Scan
with_cur s p = record s { cur = p }

abbrev pub IsPlain : ℕ → Type 0
IsPlain c = (c ≢ b' ') × (c ≢ b'\\')

pub scan-plain :
    (s : Scan) (c : ℕ) (rest : Bytes) → IsPlain c → scan s (c ∷ rest) ≡ scan (push s c) rest
unfolding scan plain
scan-plain s c [] h = ground arith
scan-plain s c (d ∷ rest) h = ground arith

pub scan_space :
    (s : Scan) (rest : Bytes) → scan s (b' ' ∷ rest) ≡ (end_param s >>= λ t. scan (clear t) rest)
unfolding scan plain
scan_space s [] =
    elim (end_param s) as (λ r. ((r >>= λ t. ok (clear t)) ≡ (r >>= λ t. ok (clear t)))) [
      | ok t ↦ refl
      | err e ↦ refl
    ]
scan_space s (d ∷ rest) =
    elim (end_param s)
      as (λ r.
        (((r >>= λ t. ok (clear t)) >>= λ t. scan t (d ∷ rest))
          ≡ (r >>= λ t. scan (clear t) (d ∷ rest)))) [ ok t ↦ refl | err e ↦ refl ]

scan-escape_byte :
    (s : Scan) (c : ℕ) (rest : Bytes) → scan s (escape_byte c ++ rest) ≡ scan (push s c) rest
unfolding escape_byte
scan-escape_byte s c rest = elim (Bool-cases (c == b' ')) [
  | inl e ↦ unfold scan unescape in ground arith
  | inr e ↦ elim (Bool-cases (c == b'\n')) [
    | inl f ↦ unfold scan unescape in ground arith
    | inr f ↦ elim (Bool-cases (c == b'\\')) [
      | inl g ↦ unfold scan unescape in ground arith
      | inr g ↦ rw (e, f, g) (scan-plain s c rest (ground arith))
    ]
  ]
]

-- The text `t` puts the bytes `p` behind the parameter that is read, whatever follows.
abbrev pub Spells : Bytes → Bytes → Type 0
Spells t p = (s : Scan) (rest : Bytes) → scan s (t ++ rest) ≡ scan (with_cur s (s.cur ++ p)) rest

pub Spells-plain : (t : Bytes) → All IsPlain t → Spells t t
Spells-plain [] h s rest = rw append-nil
Spells-plain (c ∷ t) h s rest =
    scan-plain s c (t ++ rest) h.0 ∙ Spells-plain t h.1 (push s c) rest ∙ rw append_assoc

pub Spells-escaped : (p : Bytes) → Spells (escaped p) p
unfolding escaped
Spells-escaped [] s rest = rw append-nil
Spells-escaped (c ∷ p) s rest =
    rw append_assoc (
      scan-escape_byte s c (escaped p ++ rest) ∙ Spells-escaped p (push s c) rest ∙ rw append_assoc)
