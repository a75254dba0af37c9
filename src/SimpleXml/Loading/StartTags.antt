-- ===== src/SimpleXml/Loading/StartTags.antt =====
-- baselib/SimpleXMLReader.cpp: a start tag that baselib/SimpleXML.cpp has written is read back.
use adchubd.Base.{
  ℕ, suc, ◌+◌, ◌-◌, ◌≤◌, ◌<◌, ◌≡◌, refl, sym, ap, ◌∙◌, true, false, List, [], ◌∷◌, ◌++◌,
  append_assoc, append-nil, Bytes, ◌==◌, ltb, length, length-append, drop, take, codes, All, arith,
}
use adchubd.SimpleXml.{escaped, attrib_string, opening, tabs}
use adchubd.SimpleXml.Loading.Values.{process_step, drop_suc-append}
use adchubd.SimpleXml.Loading.Attribs.{
  IsName, IsNameBytes, span-name, written, one, after_name, IsAttrib, attrib_read, more,
  more_rounds, more_pos, newest, length-more, more_read,
}
use adchubd.SimpleXmlReader.{
  ParseState, Reader, went, charset_utf8, max_name_size, max_nesting, is_name_char,
  is_name_start_char, skip_space, skip_loop, literal, agrees, start_tag,
}
use adchubd.SimpleXmlReader.Elements.{
  element, element_name, element_name_at, element_attr, element_end_complex, oldest_first,
  name_ended, ends_name,
}
use adchubd.SimpleXmlReader.Process.{Result, round, process, code, same_state, cleared, or_error}

pub oldest_first-newest :
    (attribs read : List (Bytes × Bytes))
    → oldest_first (newest attribs read) ≡ oldest_first read ++ attribs
unfolding newest oldest_first
oldest_first-newest [] read = sym (append-nil (oldest_first read))
oldest_first-newest (a ∷ attribs) read =
    oldest_first-newest attribs (a ∷ read) ∙ append_assoc (oldest_first read) (a ∷ []) attribs

-- A space in front of what `appendAttribString` appends.
attrib_string-more :
    (attribs : List (Bytes × Bytes)) → b' ' ∷ attrib_string attribs ≡ more attribs (b' ' ∷ [])
unfolding attrib_string more
attrib_string-more [] = refl
attrib_string-more ((name, v) ∷ attribs) =
    ap (λ (t : Bytes). b' ' ∷ written name v (drop 1 (b'"' ∷ t))) (attrib_string-more attribs)

pub take-length-append : (s t : Bytes) → take (length s) (s ++ t) ≡ s
take-length-append [] t = refl
take-length-append (c ∷ s) t = ap (λ (u : Bytes). c ∷ u) (take-length-append s t)

more-append :
    (attribs : List (Bytes × Bytes)) (s t : Bytes) → more attribs (s ++ t) ≡ more attribs s ++ t
unfolding more
more-append [] s t = refl
more-append ((name, v) ∷ attribs) s t =
    ap (λ (u : Bytes). b' ' ∷ written name v u) (more-append attribs s t)
    ∙ ap (λ (u : Bytes). b' ' ∷ (name ++ (codes "=\"" ++ u)))
        (sym (append_assoc (escaped true v) (b'"' ∷ more attribs s) t))
    ∙ ap (λ (u : Bytes). b' ' ∷ u)
        (sym (append_assoc name (codes "=\"" ++ (escaped true v ++ b'"' ∷ more attribs s)) t))

-- What is written of a start tag, but for its end.
pub opening-more :
    (name t : Bytes) (attribs : List (Bytes × Bytes))
    → opening 0 name attribs ++ t ≡ b'<' ∷ (name ++ more attribs t)
unfolding tabs
opening-more name t attribs =
    let start = b'<' ∷ (name ++ more attribs []) in
    let shorter : length (start ++ b' ' ∷ []) - 1 ≡ length start =
      omega (arith, length-append start (b' ' ∷ [])) in
    let whole : (b'<' ∷ (name ++ b' ' ∷ [])) ++ attrib_string attribs ≡ start ++ b' ' ∷ [] =
      ap (λ (u : Bytes). b'<' ∷ u)
        (append_assoc name (b' ' ∷ []) (attrib_string attribs)
          ∙ ap (λ (u : Bytes). name ++ u)
              (attrib_string-more attribs ∙ more-append attribs [] (b' ' ∷ []))
          ∙ sym (append_assoc name (more attribs []) (b' ' ∷ []))) in
    ap (λ (u : Bytes). take (length u - 1) u ++ t) whole
    ∙ ap (λ (n : ℕ). take n (start ++ b' ' ∷ []) ++ t) shorter
    ∙ ap (λ (u : Bytes). u ++ t) (take-length-append start (b' ' ∷ []))
    ∙ ap (λ (u : Bytes). b'<' ∷ u)
        (append_assoc name (more attribs []) t
          ∙ ap (λ (u : Bytes). name ++ u) (sym (more-append attribs [] t)))

length-opening :
    (name t : Bytes) (attribs : List (Bytes × Bytes))
    → length (opening 0 name attribs) + length t ≡ length name + length (more attribs t) + 1
length-opening name t attribs = omega (
  arith,
  ap length (opening-more name t attribs),
  length-append (opening 0 name attribs) t,
  length-append name (more attribs t),
)

length-written :
    (name v rest : Bytes)
    → length (written name v rest) ≡ length name + length (escaped true v) + 3 + length rest
length-written name v rest = omega (
  arith,
  length-append name (codes "=\"" ++ (escaped true v ++ b'"' ∷ rest)),
  length-append (escaped true v) (b'"' ∷ rest),
)

more_pos_lem :
    (attribs : List (Bytes × Bytes)) (rest : Bytes) (pos : ℕ)
    → more_pos attribs pos + length rest ≡ pos + length (more attribs rest)
unfolding more more_pos after_name
more_pos_lem [] rest pos = refl
more_pos_lem ((name, v) ∷ attribs) rest pos = omega (
  arith,
  more_pos_lem attribs rest (after_name (pos + 1) name v),
  length-append name (codes "=\"" ++ (escaped true v ++ b'"' ∷ more attribs rest)),
  length-append (escaped true v) (b'"' ∷ more attribs rest),
)

abbrev pub at_content : Reader → ℕ → Bytes → Reader
at_content r pos buf = record r { buf = buf; pos = pos; attribs = []; state = ParseState.content }

-- Within a tag with this name so far.
abbrev pub at_name : Reader → ParseState → ℕ → Bytes → Bytes → List (Bytes × Bytes) → Reader
at_name r st pos buf name attribs = record r {
  buf = buf;
  pos = pos;
  attribs = attribs;
  state = st;
  elements = name ∷ r.elements;
}

-- Behind a start tag that the callback was told of.
abbrev pub tag_told : Reader → Bytes → List (Bytes × Bytes) → ℕ → Bytes → Reader
tag_told r name attribs pos buf = record r {
  buf = buf;
  pos = pos;
  attribs = [];
  value = [];
  state = ParseState.content;
  elements = name ∷ r.elements;
  told = start_tag name attribs false ∷ r.told;
}

module _ (to_utf8 : Bytes → ℕ → Bytes) (to_lower : Bytes → Bytes) (charset_from_string : Bytes → ℕ)
    (r : Reader) where
  abbrev pub go : ℕ → Reader → Result
  go = process to_utf8 to_lower charset_from_string

  not_mark : (c : ℕ) → is_name_start_char c ≡ true → (c == b'!') ≡ false
  not_mark c h = ground arith

  pub open_round :
      (fuel pos c : ℕ) (t : Bytes)
      → is_name_start_char c ≡ true
      → length r.elements < max_nesting
      → go (suc fuel) (at_content r pos (b'<' ∷ c ∷ t))
        ≡ go fuel (at_name r ParseState.element_name (pos + 2) t (c ∷ []) [])
  unfolding round code element literal agrees skip_space skip_loop
  open_round fuel pos c t h n =
      let m = not_mark c h in
      process_step to_utf8 to_lower charset_from_string fuel true (at_content r pos (b'<' ∷ c ∷ t))
        (at_name r ParseState.element_name (pos + 2) t (c ∷ []) []) refl (ground arith) refl

  pub name_round :
      (fuel pos x : ℕ) (s t first : Bytes) (next : Reader)
      → IsNameBytes s
      → length first + length s ≤ max_name_size
      → is_name_char x ≡ false
      → ends_name x ≡ true
      → name_ended
          (length s + 1)
          x
          (at_name r ParseState.element_name pos (s ++ x ∷ t) (first ++ s) [])
        ≡ went true next
      → same_state ParseState.element_name next.state ≡ false
      → go (suc fuel) (at_name r ParseState.element_name pos (s ++ x ∷ t) first [])
        ≡ go fuel (cleared (at_name r ParseState.element_name pos (s ++ x ∷ t) first []) next)
  unfolding round code element_name
  name_round fuel pos x s t first next h l n e k m =
      let from = at_name r ParseState.element_name pos (s ++ x ∷ t) first [] in
      let fits : ltb max_name_size (length first + length s) ≡ false = ground arith in
      process_step to_utf8 to_lower charset_from_string fuel true from next refl
        (ap
            (λ (p : Bytes × Bytes).
              or_error (codes "Error while parsing element start") (element_name_at p from))
            (span-name s x t h n)
          ∙ rw (fits, e) (ap (or_error (codes "Error while parsing element start")) k))
        (rw m refl)

  pub complex_round :
      (fuel pos : ℕ) (t name : Bytes) (attribs : List (Bytes × Bytes))
      → go (suc fuel) (at_name r ParseState.element_attr pos (b'>' ∷ t) name attribs)
        ≡ go fuel (tag_told r name (oldest_first attribs) (pos + 1) t)
  unfolding round code element_attr element_end_complex
  complex_round fuel pos t name attribs =
      process_step to_utf8 to_lower charset_from_string fuel true
        (at_name r ParseState.element_attr pos (b'>' ∷ t) name attribs)
        (record (tag_told r name (oldest_first attribs) (pos + 1) t) { value = r.value }) refl
        (ground arith) refl

  -- The rounds for a start tag, and those of `fuel`.
  abbrev pub tag_rounds : List (Bytes × Bytes) → ℕ → ℕ
  tag_rounds [] fuel = suc (suc fuel)
  tag_rounds ((name, v) ∷ attribs) fuel = suc (suc (one v (more_rounds attribs (suc fuel))))

  abbrev pub tag_pos : Bytes → List (Bytes × Bytes) → ℕ → ℕ
  tag_pos name attribs pos = pos + length (opening 0 name attribs) + 1

  plain_tag :
      (c : ℕ) (s rest : Bytes) (pos fuel : ℕ)
      → IsName (c ∷ s)
      → length r.elements < max_nesting
      → go (suc (suc fuel)) (at_content r pos (b'<' ∷ c ∷ (s ++ b'>' ∷ rest)))
        ≡ go fuel (tag_told r (c ∷ s) [] (pos + 2 + (length s + 1)) rest)
  unfolding oldest_first code
  plain_tag c s rest pos fuel h n =
      open_round (suc fuel) pos c (s ++ b'>' ∷ rest) h.0 n
      ∙ name_round fuel (pos + 2) b'>' s rest (c ∷ [])
          (record (tag_told r (c ∷ s) [] (pos + 2 + (length s + 1)) rest) { value = r.value }) h.1
          (omega (arith, h.2)) refl refl (rw (drop_suc-append s b'>' rest) refl) refl

  attribs_tag :
      (c : ℕ) (s name v rest : Bytes) (attribs : List (Bytes × Bytes)) (pos fuel : ℕ)
      → IsName (c ∷ s)
      → All IsAttrib ((name, v) ∷ attribs)
      → r.charset ≡ charset_utf8
      → 0 < length rest
      → length r.elements < max_nesting
      → go
          (tag_rounds ((name, v) ∷ attribs) fuel)
          (at_content r pos (b'<' ∷ c ∷ (s ++ more ((name, v) ∷ attribs) (b'>' ∷ rest))))
        ≡ go fuel (
            tag_told r
              (c ∷ s)
              ((name, v) ∷ attribs)
              (more_pos attribs (after_name (pos + 2 + (length s + 1)) name v) + 1)
              rest)
  unfolding more newest code oldest_first
  attribs_tag c s name v rest attribs pos fuel h a u l n =
      let inner : Reader = record r { elements = (c ∷ s) ∷ r.elements } in
      let tail = more attribs (b'>' ∷ rest) in
      let first = written name v tail in
      let start = pos + 2 + (length s + 1) in
      let second = after_name start name v in
      open_round (suc (one v (more_rounds attribs (suc fuel)))) pos c (s ++ b' ' ∷ first) h.0 n
      ∙ name_round (one v (more_rounds attribs (suc fuel))) (pos + 2) b' ' s first (c ∷ [])
          (at_name r ParseState.element_attr start first (c ∷ s) []) h.1 (omega (arith, h.2)) refl
          refl (rw (drop_suc-append s b' ' first) refl) refl
      ∙ attrib_read to_utf8 to_lower charset_from_string inner name v tail start
          (more_rounds attribs (suc fuel)) [] a.0 u
          (omega (arith, length-more attribs (b'>' ∷ rest)))
      ∙ more_read to_utf8 to_lower charset_from_string inner attribs ((name, v) ∷ []) (b'>' ∷ rest)
          second (suc fuel) a.1 u (omega arith)
      ∙ complex_round fuel (more_pos attribs second) rest (c ∷ s) (newest attribs ((name, v) ∷ []))
      ∙ ap
          (λ (read : List (Bytes × Bytes)).
            go fuel (tag_told r (c ∷ s) read (more_pos attribs second + 1) rest))
          (oldest_first-newest ((name, v) ∷ attribs) [])

  -- A reader of UTF-8 is in the contents of a tag, and what comes next is a start tag as SimpleXML writes
  -- it, with something behind it. If its names are names that the reader takes, its texts are short
  -- enough, and tags are not nested too deeply, then `process` tells the callback of this tag with these
  -- attributes, in their order, and goes on behind it, within the tag.
  pub process-opening :
      (name rest : Bytes) (attribs : List (Bytes × Bytes)) (pos fuel : ℕ)
      → IsName name
      → All IsAttrib attribs
      → r.charset ≡ charset_utf8
      → 0 < length rest
      → length r.elements < max_nesting
      → go (tag_rounds attribs fuel) (at_content r pos (opening 0 name attribs ++ b'>' ∷ rest))
        ≡ go fuel (tag_told r name attribs (tag_pos name attribs pos) rest)
  unfolding more after_name
  process-opening [] rest attribs pos fuel h a u l n = absurd h
  process-opening (c ∷ s) rest [] pos fuel h a u l n =
      ap (λ (t : Bytes). go (suc (suc fuel)) (at_content r pos t))
        (opening-more (c ∷ s) (b'>' ∷ rest) [])
      ∙ plain_tag c s rest pos fuel h n
      ∙ ap (λ (k : ℕ). go fuel (tag_told r (c ∷ s) [] k rest))
          (omega (arith, length-opening (c ∷ s) [] []))
  process-opening (c ∷ s) rest ((name, v) ∷ attribs) pos fuel h a u l n =
      ap (λ (t : Bytes). go (tag_rounds ((name, v) ∷ attribs) fuel) (at_content r pos t))
        (opening-more (c ∷ s) (b'>' ∷ rest) ((name, v) ∷ attribs))
      ∙ attribs_tag c s name v rest attribs pos fuel h a u l n
      ∙ ap (λ (k : ℕ). go fuel (tag_told r (c ∷ s) ((name, v) ∷ attribs) k rest))
          (omega (
            arith,
            length-opening (c ∷ s) [] ((name, v) ∷ attribs),
            more_pos_lem attribs [] (after_name (pos + 2 + (length s + 1)) name v),
            length-written name v (more attribs []),
          ))
