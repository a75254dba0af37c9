-- ===== src/SimpleXmlReader/Declaration.antt =====
-- baselib/SimpleXMLReader.cpp: the version and the encoding of an XML declaration.
use adchubd.Base.{
  ℕ, zero, suc, ◌+◌, true, false, not, ◌&&◌, ◌||◌, [], ◌∷◌, Bytes, ◌==◌, if◌then◌else◌, length,
  drop,
}
use adchubd.SimpleXmlReader.{
  ParseState, Reader, Outcome, went, thrown, hangs, append, advance_pos, enter, need_chars, char_at,
  in_range, max_value_size,
}
use adchubd.SimpleXmlReader.Texts.{entref, is_quote}

-- The loop over the digits behind the first one, which stand at `n` and later. The range of the test is
-- that of the source: the characters 0 to 9, which are no digits.
unfoldable pub version_loop : ℕ → ℕ → Bytes → Reader → Outcome
version_loop sep n [] r = went true r
version_loop sep n (c ∷ s) r =
    let rest = version_loop sep (n + 1) s r in
    if c == sep
    then went true (enter ParseState.decl_encoding (advance_pos (n + 1) r))
    else if not (in_range c 0 9)
    then went false r
    else rest

unfoldable pub decl_version_num : Reader → Outcome
decl_version_num r =
    if not (need_chars 5 r)
    then went true r
    else if (char_at r 0 == b'"' || char_at r 0 == b'\'')
        && (char_at r 1 == b'1' && char_at r 2 == b'.')
    then (if not (in_range (char_at r 3) b'0' b'9')
        then went false r
        else version_loop (char_at r 0) 4 (drop 4 r.buf) r)
    else went false r

abbrev pub put_encoding : Bytes → Reader → Reader
put_encoding e r = record r { encoding = e }

-- What follows `entref` in a round: the loop goes on, or ends.
abbrev pub again : Outcome → (Reader → Outcome) → Outcome
again (thrown e) next = thrown e
again hangs next = hangs
again (went true r) next = next r
again (went false r) next = went false r

-- `to_lower` and `charset_from_string` are those of baselib/Text.cpp.
module _ (to_lower : Bytes → Bytes) (charset_from_string : Bytes → ℕ) where
  abbrev pub encoding_ended : Reader → Reader
  encoding_ended r = record r {
    encoding = to_lower r.encoding;
    charset = charset_from_string (to_lower r.encoding);
  }

  -- The loop of `declEncodingValue`. A round that does not advance comes again, so that the loop never
  -- ends if there are more rounds than characters.
  unfoldable pub encoding_loop : ℕ → Reader → Outcome
  encoding_loop zero r = hangs
  encoding_loop (suc fuel) r = elim (need_chars 1 r) [
    | false ↦ went true r
    | true ↦ elim (is_quote r.state (char_at r 0)) [
      | true ↦ went true (enter ParseState.decl_standalone (advance_pos 1 (encoding_ended r)))
      | false ↦ elim (char_at r 0 == b'&') [
        | true ↦ again (entref put_encoding r.encoding r) (λ r'. encoding_loop fuel r')
        | false ↦
            append r r.encoding max_value_size (char_at r 0 ∷ [])
              (λ t. encoding_loop fuel (advance_pos 1 (put_encoding t r)))
      ]
    ]
  ]

  unfoldable pub decl_encoding_value : Reader → Outcome
  decl_encoding_value r = encoding_loop (suc (length r.buf)) r
