-- ===== src/Text/Utf8/Valid.antt =====
-- `utf8ToWc` undoes `wcToUtf8`, and `validateUtf8` accepts the texts that `wcToUtf8` can write.
use adchubd.Base.{
  ℕ, zero, suc, ◌+◌, ◌-◌, ◌/◌, ◌%◌, ◌≤◌, ◌<◌, ◌≡◌, refl, sym, ◌∙◌, ap, arith, [], ◌∷◌, ◌++◌, ◌↔◌,
  inl, inr, true, Bytes, ltb, drop, length, All, All-drop, length-drop, Bool-cases,
}
use adchubd.Text.Utf8.{
  Decoded, good, bad, no_cont, decode2, decode3, decode4, utf8_to_wc, wc_to_utf8, is_scalar,
  validate_loop, validate_utf8,
}
use adchubd.Text.Utf8.Masks.{is_cont}
use adchubd.Text.Utf8.Encode.{encode1, encode2, encode3, encode4}
use adchubd.Text.Utf8.Decode.{
  utf8_to_wc_lead, word2, word3, high4, word4, utf8_to_wc_four, decode4-Cont,
}

abbrev pub IsByte : ℕ → Type 0
IsByte b = b < 256

-- `utf8ToWc` reads the code point `v` at the front of `s`, and `rest` is left.
pub record Reads (v : ℕ) (rest s : Bytes) : Type 0 where
  pub head : ℕ
  pub behind : Bytes
  pub count : ℕ
  pub splits : s ≡ head ∷ behind
  pub decodes : utf8_to_wc head behind ≡ good count v
  pub leaves : drop (count - 1) behind ≡ rest
  pub measures : count ≡ length (wc_to_utf8 v)

module _ (v : ℕ) (rest : Bytes) where
  Reads-one : v < 128 → Reads v rest (wc_to_utf8 v ++ rest)
  Reads-one h = record {
    head = v;
    behind = rest;
    count = 1;
    splits = rw (encode1 v h);
    decodes = ground (arith, utf8_to_wc_lead v rest (omega arith));
    leaves = refl;
    measures = rw (encode1 v h);
  }

  Reads-two : 128 ≤ v → v < 2048 → Reads v rest (wc_to_utf8 v ++ rest)
  Reads-two lo hi = record {
    head = 192 + v / 64;
    behind = (128 + v % 64) ∷ rest;
    count = 2;
    splits = rw (encode2 v lo hi);
    decodes = rw (utf8_to_wc_lead (192 + v / 64) ((128 + v % 64) ∷ rest) (omega arith)) (
        unfold decode2 no_cont in
        ground (arith, is_cont (128 + v % 64) (omega arith), word2 (192 + v / 64) (128 + v % 64)));
    leaves = refl;
    measures = rw (encode2 v lo hi);
  }

  Reads-three : 2048 ≤ v → v < 65536 → is_scalar v ≡ true → Reads v rest (wc_to_utf8 v ++ rest)
  Reads-three lo hi h = record {
    head = 224 + v / 4096;
    behind = (128 + v / 64 % 64) ∷ (128 + v % 64) ∷ rest;
    count = 3;
    splits = rw (encode3 v lo hi);
    decodes =
        rw
          (utf8_to_wc_lead (224 + v / 4096) ((128 + v / 64 % 64) ∷ (128 + v % 64) ∷ rest)
            (omega arith))
          (unfold decode3 no_cont in
            ground (
              arith,
              is_cont (128 + v / 64 % 64) (omega arith),
              is_cont (128 + v % 64) (omega arith),
              word3 (224 + v / 4096) (128 + v / 64 % 64) (128 + v % 64),
            ));
    leaves = refl;
    measures = rw (encode3 v lo hi);
  }

  Reads-four : 65536 ≤ v → v < 1114112 → Reads v rest (wc_to_utf8 v ++ rest)
  Reads-four lo hi = record {
    head = 240 + v / 262144;
    behind = (128 + v / 4096 % 64) ∷ (128 + v / 64 % 64) ∷ (128 + v % 64) ∷ rest;
    count = 4;
    splits = rw (encode4 v lo hi);
    decodes =
        utf8_to_wc_four (240 + v / 262144) _ (omega arith) (omega arith)
        ∙ decode4-Cont (240 + v / 262144) (128 + v / 4096 % 64) (128 + v / 64 % 64) (128 + v % 64) v
            rest (omega arith) (omega arith) (omega arith) (omega arith) lo hi;
    leaves = refl;
    measures = rw (encode4 v lo hi);
  }

  pub Reads-encode : is_scalar v ≡ true → Reads v rest (wc_to_utf8 v ++ rest)
  Reads-encode h = elim (Bool-cases (ltb v 128)) [
    | inl small ↦ Reads-one (ground arith)
    | inr a ↦ elim (Bool-cases (ltb v 2048)) [
      | inl small ↦ Reads-two (ground arith) (ground arith)
      | inr b ↦ elim (Bool-cases (ltb v 65536)) [
        | inl small ↦ Reads-three (ground arith) (ground arith) h
        | inr c ↦ Reads-four (ground arith) (ground arith)
      ]
    ]
  ]

-- What a successful read says of the bytes: they are the encoding of a scalar value.
abbrev Sound : ℕ → Bytes → ℕ → ℕ → Type 0
Sound b rest n wc =
    (is_scalar wc ≡ true) × (1 ≤ n) × (b ∷ rest ≡ wc_to_utf8 wc ++ drop (n - 1) rest)

decode2-Sound :
    (b : ℕ) (rest : Bytes) (n wc : ℕ)
    → 192 ≤ b
    → b < 224
    → All IsByte rest
    → decode2 b rest ≡ good n wc
    → Sound b rest n wc
unfolding decode2 no_cont
decode2-Sound b [] n wc lo hi h e = cc
decode2-Sound b (c ∷ rest) n wc lo hi h e = ground (arith, is_cont c h.0, word2 b c, encode2 wc)

decode3-Sound :
    (b : ℕ) (rest : Bytes) (n wc : ℕ)
    → 224 ≤ b
    → b < 240
    → All IsByte rest
    → decode3 b rest ≡ good n wc
    → Sound b rest n wc
unfolding decode3 no_cont
decode3-Sound b [] n wc lo hi h e = cc
decode3-Sound b (c ∷ []) n wc lo hi h e = ground (arith, is_cont c h.0)
decode3-Sound b (c ∷ d ∷ rest) n wc lo hi h e =
    ground (arith, is_cont c h.0, is_cont d h.1.0, word3 b c d, encode3 wc)

decode4-Sound :
    (b : ℕ) (rest : Bytes) (n wc : ℕ)
    → 240 ≤ b
    → b < 248
    → All IsByte rest
    → decode4 b rest ≡ good n wc
    → Sound b rest n wc
unfolding decode4 no_cont
decode4-Sound b [] n wc lo hi h e = cc
decode4-Sound b (c ∷ []) n wc lo hi h e = ground (arith, is_cont c h.0)
decode4-Sound b (c ∷ d ∷ []) n wc lo hi h e = ground (arith, is_cont c h.0, is_cont d h.1.0)
decode4-Sound b (c ∷ d ∷ t ∷ rest) n wc lo hi h e =
    ground (
      arith,
      is_cont c h.0,
      is_cont d h.1.0,
      is_cont t h.1.1.0,
      high4 b c,
      word4 b c d t,
      encode4 wc,
    )

utf8_to_wc-Sound :
    (b : ℕ) (rest : Bytes) (n wc : ℕ)
    → b < 256
    → All IsByte rest
    → utf8_to_wc b rest ≡ good n wc
    → Sound b rest n wc
utf8_to_wc-Sound b rest n wc hb h e =
    let e' = rw (utf8_to_wc_lead b rest hb) at e in
    ground (
      arith,
      encode1 b,
      decode2-Sound b rest n wc,
      decode3-Sound b rest n wc,
      decode4-Sound b rest n wc,
    )

-- The texts that are encodings of scalar values, one after the other.
pub data IsUtf8 : Bytes → Type 0 where
  end : IsUtf8 []
  scalar :
      (v : ℕ) {s rest : Bytes}
      → is_scalar v ≡ true
      → s ≡ wc_to_utf8 v ++ rest
      → IsUtf8 rest
      → IsUtf8 s

validate_loop-scalar :
    (fuel v : ℕ) (s rest : Bytes)
    → s ≡ wc_to_utf8 v ++ rest
    → is_scalar v ≡ true
    → length s ≤ suc fuel
    → ((length rest ≤ fuel) × (validate_loop (suc fuel) s ≡ validate_loop fuel rest))
unfolding validate_loop
validate_loop-scalar fuel v s rest e h le =
    let r = Reads-encode v rest h in
    let e' = e ∙ r.splits in
    (
      omega (arith, ap length (sym r.leaves), ap length e', length-drop (r.count - 1) r.behind),
      rw e' (rw (r.decodes, validate_loop, r.leaves)),
    )

IsUtf8→validate_loop :
    (fuel : ℕ) {s : Bytes} → IsUtf8 s → length s ≤ fuel → validate_loop fuel s ≡ true
unfolding validate_loop
IsUtf8→validate_loop fuel end le = refl
IsUtf8→validate_loop zero (scalar v {s} {rest} h e t) le =
    absurd (omega (arith, ap length (e ∙ (Reads-encode v rest h).splits)))
IsUtf8→validate_loop (suc fuel) (scalar v {s} {rest} h e t) le =
    let (le', eq) = validate_loop-scalar fuel v s rest e h le in
    eq ∙ IsUtf8→validate_loop fuel t le'

validate_loop_step :
    (fuel c : ℕ) (rest : Bytes)
    → All IsByte (c ∷ rest)
    → ((s : Bytes) → All IsByte s → validate_loop fuel s ≡ true → IsUtf8 s)
    → (d : Decoded) → utf8_to_wc c rest ≡ d
    → validate_loop (suc fuel) (c ∷ rest) ≡ true
    → IsUtf8 (c ∷ rest)
unfolding validate_loop
validate_loop_step fuel c rest b ih (good n wc) e h =
    let (sc, pos, eq) = utf8_to_wc-Sound c rest n wc b.0 b.1 e in
    scalar wc sc eq (ih _ (All-drop IsByte (n - 1) rest b.1) (rw (e, validate_loop) at h))
validate_loop_step fuel c rest b ih (bad n) e h = let h' = rw (e, validate_loop) at h in cc

validate_loop→IsUtf8 :
    (fuel : ℕ) (s : Bytes) → All IsByte s → validate_loop fuel s ≡ true → IsUtf8 s
unfolding validate_loop
validate_loop→IsUtf8 fuel [] b h = end
validate_loop→IsUtf8 zero (c ∷ rest) b h = cc
validate_loop→IsUtf8 (suc fuel) (c ∷ rest) b h =
    validate_loop_step fuel c rest b (validate_loop→IsUtf8 fuel) (utf8_to_wc c rest) refl h

-- `validateUtf8` accepts a byte string exactly when it is a sequence of encodings, as `wcToUtf8`
-- writes them, of Unicode scalar values (code points up to 0x10FFFF that are no surrogates).
pub validate_utf8_iff : (s : Bytes) → All IsByte s → (validate_utf8 s ≡ true) ↔ IsUtf8 s
unfolding validate_utf8
validate_utf8_iff s b =
    (validate_loop→IsUtf8 (length s) s b, λ u. IsUtf8→validate_loop (length s) u (omega arith))

-- `utf8ToWc` returns the length `n` and the code point `v` exactly when `v` is a scalar value,
-- the bytes begin with its encoding by `wcToUtf8`, and `n` is the length of that encoding.
pub utf8_to_wc_iff :
    (b n v : ℕ) (rest : Bytes)
    → All IsByte (b ∷ rest)
    → (utf8_to_wc b rest ≡ good n v) ↔ (
        (is_scalar v ≡ true)
        × (n ≡ length (wc_to_utf8 v))
        × (b ∷ rest ≡ wc_to_utf8 v ++ drop (n - 1) rest))
utf8_to_wc_iff b n v rest h = (forth, back)
  where
    meets :
        is_scalar v ≡ true
        → b ∷ rest ≡ wc_to_utf8 v ++ drop (n - 1) rest
        → utf8_to_wc b rest ≡ good (length (wc_to_utf8 v)) v
    meets sc e =
        let r = Reads-encode v (drop (n - 1) rest) sc in cc (e, r.splits, r.decodes, r.measures)

    forth :
        utf8_to_wc b rest ≡ good n v
        → (is_scalar v ≡ true)
          × (n ≡ length (wc_to_utf8 v))
          × (b ∷ rest ≡ wc_to_utf8 v ++ drop (n - 1) rest)
    forth d =
        let (sc, pos, e) = utf8_to_wc-Sound b rest n v h.0 h.1 d in (sc, cc (d, meets sc e), e)

    back :
        (is_scalar v ≡ true)
          × (n ≡ length (wc_to_utf8 v))
          × (b ∷ rest ≡ wc_to_utf8 v ++ drop (n - 1) rest)
        → utf8_to_wc b rest ≡ good n v
    back (sc, len, e) = meets sc e ∙ rw len
