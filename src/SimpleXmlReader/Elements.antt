-- ===== src/SimpleXmlReader/Elements.antt =====
-- baselib/SimpleXMLReader.cpp: the functions for elements and attributes. The functions on the
-- innermost element and the last attribute are called in states that there is one in.
use adchubd.Base.{
  ℕ, ◌+◌, Bool, true, false, not, ◌&&◌, ◌||◌, List, [], ◌∷◌, ◌++◌, Bytes, leb, ◌==◌, same,
  if◌then◌else◌, length, take, codes,
}
use adchubd.SimpleXmlReader.{
  ParseState, Reader, Outcome, went, error, append, advance_pos, enter, need_chars, char_at, span,
  is_space, is_name_char, is_name_start_char, max_name_size, max_nesting, charset_utf8, start_tag,
  end_tag,
}

unfoldable pub element : Reader → Outcome
element r =
    if not (need_chars 2 r)
    then went true r
    else if char_at r 0 == b'<' && is_name_start_char (char_at r 1)
    then (if leb max_nesting (length r.elements)
        then error r (codes "Max nesting exceeded")
        else went true (
            enter ParseState.element_name
              (advance_pos 2 (record r { elements = (char_at r 1 ∷ []) ∷ r.elements }))))
    else went false r

abbrev pub top : List Bytes → Bytes
top [] = []
top (e ∷ es) = e

abbrev pub pop {ℓ} : {A : Type ℓ} → List A → List A
pop [] = []
pop (e ∷ es) = es

abbrev pub with_top : Bytes → Reader → Reader
with_top name r = record r { elements = name ∷ pop r.elements }

unfoldable pub oldest_first : List (Bytes × Bytes) → List (Bytes × Bytes)
oldest_first [] = []
oldest_first (a ∷ as_before) = oldest_first as_before ++ a ∷ []

-- `cb->startTag(elements.back(), attribs, simple); attribs.clear()`
abbrev pub tell_start : Bool → Reader → Reader
tell_start simple r = record r {
  told = start_tag (top r.elements) (oldest_first r.attribs) simple ∷ r.told;
  attribs = [];
}

-- What `elementName` does where the name has ended.
abbrev pub name_ended : ℕ → ℕ → Reader → Outcome
name_ended n c r =
    if is_space c
    then went true (enter ParseState.element_attr (advance_pos n r))
    else if c == b'/'
    then went true (enter ParseState.element_end_simple (advance_pos n r))
    else went true (enter ParseState.content (advance_pos n (tell_start false r)))

abbrev pub ends_name : ℕ → Bool
ends_name c = is_space c || c == b'/' || c == b'>'

abbrev pub element_name_at : Bytes × Bytes → Reader → Outcome
element_name_at (name, []) r =
    append r (top r.elements) max_name_size name
      (λ t. went true (advance_pos (length name) (with_top t r)))
element_name_at (name, c ∷ s) r =
    if not (ends_name c)
    then went false r
    else append r (top r.elements) max_name_size name
        (λ t. name_ended (length name + 1) c (with_top t r))

unfoldable pub element_name : Reader → Outcome
element_name r = element_name_at (span is_name_char r.buf) r

unfoldable pub element_attr : Reader → Outcome
element_attr r =
    if not (need_chars 1 r)
    then went true r
    else if is_name_start_char (char_at r 0)
    then went true (
        enter ParseState.element_attr_name
          (advance_pos 1 (record r { attribs = (char_at r 0 ∷ [], []) ∷ r.attribs })))
    else went false r

abbrev pub last_attrib : List (Bytes × Bytes) → Bytes × Bytes
last_attrib [] = ([], [])
last_attrib (a ∷ before) = a

abbrev pub with_name : Bytes → Reader → Reader
with_name name r = record r { attribs = (name, (last_attrib r.attribs).1) ∷ pop r.attribs }

abbrev pub element_attr_name_at : Bytes × Bytes → Reader → Outcome
element_attr_name_at (name, []) r =
    append r (last_attrib r.attribs).0 max_name_size name
      (λ t. went true (advance_pos (length name) (with_name t r)))
element_attr_name_at (name, c ∷ s) r =
    if not (is_space c || c == b'=')
    then went false r
    else append r (last_attrib r.attribs).0 max_name_size name (λ t. went true (
        enter (if is_space c then ParseState.element_attr_eq else ParseState.element_attr_value)
          (advance_pos (length name + 1) (with_name t r))))

unfoldable pub element_attr_name : Reader → Outcome
element_attr_name r = element_attr_name_at (span is_name_char r.buf) r

-- `elementEndSimple` and `elementEndComplex`
unfoldable pub element_end_simple : Reader → Outcome
element_end_simple r =
    if not (need_chars 1 r)
    then went true r
    else if char_at r 0 == b'>'
    then went true (
        enter ParseState.content
          (advance_pos 1 (record (tell_start true r) { elements = pop r.elements })))
    else went false r

unfoldable pub element_end_complex : Reader → Outcome
element_end_complex r =
    if not (need_chars 1 r)
    then went true r
    else if char_at r 0 == b'>'
    then went true (enter ParseState.content (advance_pos 1 (tell_start false r)))
    else went false r

abbrev pub element_end_of : List Bytes → Reader → Outcome
element_end_of [] r = went false r
element_end_of (name ∷ outer) r =
    if not (need_chars (length name) r)
    then went true r
    else if same (take (length name) r.buf) name
    then went true (enter ParseState.element_end_end (advance_pos (length name) r))
    else went false r

unfoldable pub element_end : Reader → Outcome
element_end r = element_end_of r.elements r

-- `to_utf8` converts from a character set.
abbrev pub as_utf8 : (Bytes → ℕ → Bytes) → Bytes → ℕ → Bytes
as_utf8 to_utf8 s charset = if charset == charset_utf8 then s else to_utf8 s charset

unfoldable pub element_end_end : (Bytes → ℕ → Bytes) → Reader → Outcome
element_end_end to_utf8 r =
    if not (need_chars 1 r)
    then went true r
    else if char_at r 0 == b'>'
    then went true (
        enter ParseState.content (
          advance_pos 1 (record r {
            told = end_tag (top r.elements) (as_utf8 to_utf8 r.value r.charset) ∷ r.told;
            value = [];
            elements = pop r.elements;
          })))
    else went false r
