-- ===== src/SimpleXmlReader/Texts.antt =====
-- baselib/SimpleXMLReader.cpp: entities, attribute values, content, comments and CDATA sections.
use adchubd.Base.{
  ℕ, ◌+◌, Bool, true, false, not, ◌&&◌, ◌||◌, [], ◌∷◌, ◌++◌, Option, none, some, Bytes, ltb, leb,
  ◌==◌, same, if◌then◌else◌, length, take, drop, get_or, is_empty, codes,
}
use adchubd.SimpleXmlReader.{
  ParseState, Reader, Outcome, went, error, append, advance_pos, enter, need_chars, char_at,
  in_range, span, max_value_size,
}
use adchubd.SimpleXmlReader.Elements.{last_attrib, pop, as_utf8}

abbrev pub is_digit : ℕ → Bool
is_digit c = in_range c b'0' b'9'

abbrev pub is_x_digit : ℕ → Bool
is_x_digit c = is_digit c || in_range c b'A' b'F' || in_range c b'a' b'f'

-- The references by number, of at most five digits or four hexadecimal ones, stand for nothing. `n`
-- is how many characters stand before the digits.
unfoldable pub number_ref : (ℕ → Bool) → ℕ → ℕ → Bytes → Option (Bytes × ℕ)
number_ref p n most s =
    let digits = length (span p (drop n s)).0 in
    if ltb 0 digits && (leb digits most && get_or s (n + digits) 0 == b';')
    then some ([], n + digits + 1)
    else none

abbrev pub begins : Bytes → Bytes → Bool
begins name s = same (take (length name) s) name

-- What the reference at the beginning, with its ampersand, stands for, and its length.
unfoldable pub reference : Bytes → Option (Bytes × ℕ)
reference s =
    if begins (codes "lt;") (drop 1 s)
    then some (b'<' ∷ [], 4)
    else if begins (codes "gt;") (drop 1 s)
    then some (b'>' ∷ [], 4)
    else if begins (codes "amp;") (drop 1 s)
    then some (b'&' ∷ [], 5)
    else if begins (codes "quot;") (drop 1 s)
    then some (b'"' ∷ [], 6)
    else if begins (codes "apos;") (drop 1 s)
    then some (b'\'' ∷ [], 6)
    else if not (get_or s 1 0 == b'#')
    then none
    else if get_or s 2 0 == b'x' || get_or s 2 0 == b'X'
    then number_ref is_x_digit 3 4 s
    else number_ref is_digit 2 5 s

abbrev pub put_reference : (Bytes → Reader → Reader) → Bytes → Option (Bytes × ℕ) → Reader → Outcome
put_reference put d none r = went false r
put_reference put d (some (c, n)) r = went true (advance_pos n (put (d ++ c) r))

-- `entref(d)`, where `put` stores the text.
unfoldable pub entref : (Bytes → Reader → Reader) → Bytes → Reader → Outcome
entref put d r =
    if leb max_value_size (length d + 1)
    then error r (codes "Buffer overflow")
    else if ltb 6 (length r.buf)
    then put_reference put d (reference r.buf) r
    else went true r

abbrev pub quote_of : ParseState → Option ℕ
quote_of ParseState.element_attr_value_apos = some b'\''
quote_of ParseState.element_attr_value_quot = some b'"'
quote_of ParseState.decl_encoding_name_apos = some b'\''
quote_of ParseState.decl_encoding_name_quot = some b'"'
quote_of st = none

abbrev pub is_quote : ParseState → ℕ → Bool
is_quote st c = elim (quote_of st) [ none ↦ false | some q ↦ c == q ]

abbrev pub with_value : Bytes → Reader → Reader
with_value v r = record r { attribs = ((last_attrib r.attribs).0, v) ∷ pop r.attribs }

abbrev pub in_value : ParseState → ℕ → Bool
in_value st c = not (is_quote st c || c == b'&')

module _ (to_utf8 : Bytes → ℕ → Bytes) where
  -- The value up to a quote or a reference, or to the end of the buffer.
  abbrev pub element_attr_value_at : Bytes × Bytes → Reader → Outcome
  element_attr_value_at (v, []) r =
      append r (last_attrib r.attribs).1 max_value_size v
        (λ t. went true (advance_pos (length v) (with_value t r)))
  element_attr_value_at (v, c ∷ s) r = append r (last_attrib r.attribs).1 max_value_size v (λ t.
      if is_quote r.state c
      then went true (
          enter ParseState.element_attr
            (advance_pos (length v + 1) (with_value (as_utf8 to_utf8 t r.charset) r)))
      else entref with_value t (advance_pos (length v) (with_value t r)))

  unfoldable pub element_attr_value : Reader → Outcome
  element_attr_value r = element_attr_value_at (span (in_value r.state) r.buf) r

abbrev pub put_value : Bytes → Reader → Reader
put_value v r = record r { value = v }

unfoldable pub content : Reader → Outcome
content r =
    if not (need_chars 1 r)
    then went true r
    else if char_at r 0 == b'<'
    then (if not (is_empty r.value)
        then error r (codes "Mixed content not supported")
        else went false r)
    else if char_at r 0 == b'&'
    then entref put_value r.value r
    else append r r.value max_value_size (char_at r 0 ∷ [])
        (λ t. went true (advance_pos 1 (put_value t r)))

-- The loop of `comment` on the buffer.
unfoldable pub comment_loop : Bytes → Reader → Outcome
comment_loop [] r = went true r
comment_loop (c ∷ s) r =
    let rest = comment_loop s (advance_pos 1 r) in
    if not (c == b'-')
    then rest
    else if not (need_chars 3 r)
    then went true r
    else if char_at r 1 == b'-' && char_at r 2 == b'>'
    then went true (enter ParseState.content (advance_pos 3 r))
    else rest

unfoldable pub comment : Reader → Outcome
comment r = comment_loop r.buf r

-- The loop of `cdata`.
unfoldable pub cdata_loop : Bytes → Reader → Outcome
cdata_loop [] r = went true r
cdata_loop (c ∷ s) r =
    let rest = cdata_loop s (advance_pos 1 r) in
    if not (c == b']')
    then rest
    else if not (need_chars 2 r)
    then went true r
    else if char_at r 1 == b']'
    then went true (enter ParseState.content (advance_pos 2 r))
    else rest

unfoldable pub cdata : Reader → Outcome
cdata r = cdata_loop r.buf r
