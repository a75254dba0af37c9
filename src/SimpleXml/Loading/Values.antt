-- ===== src/SimpleXml/Loading/Values.antt =====
-- baselib/SimpleXMLReader.cpp: an attribute value that baselib/SimpleXML.cpp has written is read back.
use adchubd.Base.{
  ℕ, suc, ◌+◌, ◌≤◌, ◌<◌, ◌≡◌, refl, sym, ap, ap₂, ◌∙◌, Bool, true, false, List, [], ◌∷◌, ◌++◌,
  append_assoc, append-nil, Bytes, some, Bool-cases, ◌==◌, ◌&&◌, ltb, leb, if◌then◌else◌, length,
  length-append, drop, codes, All, All-append, arith, inl, inr, same,
}
use adchubd.SimpleXml.{any_special, needs_escape, escaped, escape, escape_char, is_special}
use adchubd.SimpleXml.Escaped.{Special, special, less, amp, greater, apos, quot}
use adchubd.SimpleXmlReader.{ParseState, Reader, went, span, charset_utf8, max_value_size}
use adchubd.SimpleXmlReader.Elements.{as_utf8}
use adchubd.SimpleXmlReader.Texts.{
  entref, reference, element_attr_value, element_attr_value_at, in_value, with_value,
}
use adchubd.SimpleXmlReader.Process.{round, process, code, same_state, cleared, or_error}

-- The characters that need no escape.
abbrev IsPlain : Bytes → Type 0
IsPlain = All (λ c. is_special true c ≡ false)

pub drop-length-append : (s t : Bytes) → drop (length s) (s ++ t) ≡ t
drop-length-append [] t = refl
drop-length-append (c ∷ s) t = drop-length-append s t

pub drop_suc-append : (s : Bytes) (c : ℕ) (t : Bytes) → drop (length s + 1) (s ++ c ∷ t) ≡ t
drop_suc-append s c t =
    ap (λ (u : Bytes). drop (length s + 1) u) (sym (append_assoc s (c ∷ []) t))
    ∙ ap (λ (n : ℕ). drop n ((s ++ c ∷ []) ++ t)) (sym (length-append s (c ∷ [])))
    ∙ drop-length-append (s ++ c ∷ []) t

abbrev quoted : ℕ → Bool
quoted = in_value ParseState.element_attr_value_quot

-- A chunk of the value ends at a quotation mark or an ampersand.
span-plain :
    (s : Bytes) (c : ℕ) (t : Bytes)
    → IsPlain s
    → quoted c ≡ false
    → span quoted (s ++ c ∷ t) ≡ (s, c ∷ t)
unfolding span
span-plain [] c t h e = ground arith
span-plain (x ∷ s) c t h e =
    let inside : quoted x ≡ true = ground arith in rw (inside, span-plain s c t h.1 e) refl

-- In a value, with its name, what of it has been read, and the attributes before it.
abbrev pub at_value : Reader → ℕ → Bytes → Bytes → Bytes → List (Bytes × Bytes) → Reader
at_value r pos buf name value before = record r {
  buf = buf;
  pos = pos;
  attribs = (name, value) ∷ before;
  state = ParseState.element_attr_value_quot;
}

module _ (to_utf8 : Bytes → ℕ → Bytes) (r : Reader) (name : Bytes)
    (before : List (Bytes × Bytes)) where
  -- The closing quotation mark.
  value_quote :
      (pos : ℕ) (s rest value : Bytes)
      → IsPlain s
      → r.charset ≡ charset_utf8
      → length value + length s ≤ max_value_size
      → element_attr_value to_utf8 (at_value r pos (s ++ b'"' ∷ rest) name value before)
        ≡ went true (record (at_value r (pos + (length s + 1)) rest name (value ++ s) before) {
          state = ParseState.element_attr;
        })
  unfolding element_attr_value
  value_quote pos s rest value h u l =
      let fits : ltb max_value_size (length value + length s) ≡ false = ground arith in
      let utf8 : as_utf8 to_utf8 (value ++ s) r.charset ≡ value ++ s = ground arith in
      ap
        (λ (p : Bytes × Bytes).
          element_attr_value_at to_utf8 p (at_value r pos (s ++ b'"' ∷ rest) name value before))
        (span-plain s b'"' rest h refl)
      ∙ rw (fits, utf8, drop_suc-append s b'"' rest) refl

  entref_lem :
      (pos c n : ℕ) (buf value : Bytes)
      → reference buf ≡ some (c ∷ [], n)
      → 6 < length buf
      → length value + 1 < max_value_size
      → entref with_value value (at_value r pos buf name value before)
        ≡ went true (at_value r (pos + n) (drop n buf) name (value ++ c ∷ []) before)
  unfolding entref
  entref_lem pos c n buf value e l m =
      let fits : leb max_value_size (length value + 1) ≡ false = ground arith in
      let room : ltb 6 (length buf) ≡ true = ground arith in rw (fits, room, e) refl

  -- A reference.
  value_amp :
      (pos c : ℕ) (s esc rest value : Bytes)
      → IsPlain s
      → reference (b'&' ∷ (esc ++ rest)) ≡ some (c ∷ [], suc (length esc))
      → 5 < length esc + length rest
      → length value + length s + 1 < max_value_size
      → element_attr_value to_utf8 (at_value r pos (s ++ b'&' ∷ (esc ++ rest)) name value before)
        ≡ went true (
            at_value r
              (pos + length s + suc (length esc))
              rest
              name
              ((value ++ s) ++ c ∷ [])
              before)
  unfolding element_attr_value
  value_amp pos c s esc rest value h e l m =
      let fits : ltb max_value_size (length value + length s) ≡ false = ground arith in
      ap
        (λ (p : Bytes × Bytes).
          element_attr_value_at to_utf8 p
            (at_value r pos (s ++ b'&' ∷ (esc ++ rest)) name value before))
        (span-plain s b'&' (esc ++ rest) h refl)
      ∙ rw (fits, drop-length-append s (b'&' ∷ (esc ++ rest)))
          (entref_lem (pos + length s) c (suc (length esc)) (b'&' ∷ (esc ++ rest)) (value ++ s) e
            (omega (arith, length-append esc rest)) (omega (arith, length-append value s)))
      ∙ ap
          (λ (t : Bytes).
            went true (
              at_value r (pos + length s + suc (length esc)) t name ((value ++ s) ++ c ∷ [])
                before))
          (drop-length-append esc rest)

  -- A character that is escaped.
  value_reference :
      (pos c : ℕ) (s rest value : Bytes)
      → IsPlain s
      → Special true c
      → 2 < length rest
      → length value + length s + 1 < max_value_size
      → element_attr_value to_utf8 (at_value r pos (s ++ (escape_char c ++ rest)) name value before)
        ≡ went true (
            at_value r
              (pos + length s + length (escape_char c))
              rest
              name
              ((value ++ s) ++ c ∷ [])
              before)
  unfolding escape_char reference same
  value_reference pos c s rest value h less l m =
      value_amp pos b'<' s (codes "lt;") rest value h refl (omega arith) m
  value_reference pos c s rest value h amp l m =
      value_amp pos b'&' s (codes "amp;") rest value h refl (omega arith) m
  value_reference pos c s rest value h greater l m =
      value_amp pos b'>' s (codes "gt;") rest value h refl (omega arith) m
  value_reference pos c s rest value h (apos e) l m =
      value_amp pos b'\'' s (codes "apos;") rest value h refl (omega arith) m
  value_reference pos c s rest value h (quot e) l m =
      value_amp pos b'"' s (codes "quot;") rest value h refl (omega arith) m

-- The rounds of `process` for a value, and those of `fuel`: one for each reference, and one for the end.
unfoldable pub rounds : Bytes → ℕ → ℕ
rounds [] fuel = suc fuel
rounds (c ∷ v) fuel = if is_special true c then suc (rounds v fuel) else rounds v fuel

escape-special :
    (c : ℕ) (v : Bytes)
    → is_special true c ≡ true
    → escape true (c ∷ v) ≡ escape_char c ++ escape true v
unfolding escape
escape-special c v h = rw h refl

escape-plain :
    (c : ℕ) (v : Bytes) → is_special true c ≡ false → escape true (c ∷ v) ≡ c ∷ escape true v
unfolding escape
escape-plain c v h = rw h refl

-- What is written without a test is what `escape` makes of it.
escape_none : (v : Bytes) → any_special true v ≡ false → escape true v ≡ v
unfolding any_special escape
escape_none [] h = refl
escape_none (c ∷ v) h = ground (arith, escape_none v)

escaped-escape : (v : Bytes) → escaped true v ≡ escape true v
unfolding needs_escape
escaped-escape v = ground (arith, escape_none v)

further : (pos a b : ℕ) → 0 < b → (pos == pos + a + b) ≡ false
further pos a b h = ground arith

length-escape_char : (c : ℕ) → 0 < length (escape_char c)
unfolding escape_char
length-escape_char c = ground arith

module _ (to_utf8 : Bytes → ℕ → Bytes) (to_lower : Bytes → Bytes)
    (charset_from_string : Bytes → ℕ) where
  pub process_step :
      (fuel : ℕ) (b : Bool) (r next : Reader)
      → same_state r.state ParseState.end ≡ false
      → round to_utf8 to_lower charset_from_string r.state r ≡ went b next
      → (same_state r.state next.state && r.pos == next.pos) ≡ false
      → process to_utf8 to_lower charset_from_string (suc fuel) r
        ≡ process to_utf8 to_lower charset_from_string fuel (cleared r next)
  unfolding process
  process_step fuel b r next before gone moves = rw (before, gone, moves, process) refl

  module _ (r : Reader) (name rest : Bytes) (before : List (Bytes × Bytes)) where
    -- Behind the value.
    abbrev pub value_ended : ℕ → Bytes → Reader
    value_ended pos value = record (at_value r pos rest name value before) {
      state = ParseState.element_attr;
    }

    value_step :
        (fuel pos : ℕ) (buf value : Bytes) (next : Reader)
        → element_attr_value to_utf8 (at_value r pos buf name value before) ≡ went true next
        → (same_state ParseState.element_attr_value_quot next.state && pos == next.pos) ≡ false
        → process to_utf8 to_lower charset_from_string
            (suc fuel)
            (at_value r pos buf name value before)
          ≡ process to_utf8 to_lower charset_from_string fuel
              (cleared (at_value r pos buf name value before) next)
    unfolding round code
    value_step fuel pos buf value next e moves =
        process_step fuel true (at_value r pos buf name value before) next refl
          (ap (or_error (codes "Expecting attribute value")) e) moves

    value_read :
        (v s value value' buf : Bytes) (pos pos' fuel : ℕ)
        → IsPlain s
        → r.charset ≡ charset_utf8
        → 1 < length rest
        → length value + length s + length v + 1 < max_value_size
        → buf ≡ s ++ (escape true v ++ b'"' ∷ rest)
        → pos' ≡ pos + length s + length (escape true v) + 1
        → value' ≡ (value ++ s) ++ v
        → process to_utf8 to_lower charset_from_string
            (rounds v fuel)
            (at_value r pos buf name value before)
          ≡ process to_utf8 to_lower charset_from_string fuel (value_ended pos' value')
    unfolding escape rounds round code
    value_read [] s value value' buf pos pos' fuel h u l m eb ep ev =
        ap
          (λ (t : Bytes).
            process to_utf8 to_lower charset_from_string (suc fuel)
              (at_value r pos t name value before))
          eb
        ∙ value_step fuel pos (s ++ b'"' ∷ rest) value
            (value_ended (pos + (length s + 1)) (value ++ s))
            (value_quote to_utf8 r name before pos s rest value h u (omega arith)) refl
        ∙ ap₂
            (λ (n : ℕ) (t : Bytes).
              process to_utf8 to_lower charset_from_string fuel (value_ended n t))
            (omega arith) (sym (ev ∙ append-nil (value ++ s)))
    value_read (c ∷ v) s value value' buf pos pos' fuel h u l m eb ep ev =
        elim (Bool-cases (is_special true c)) [
          | inl special_c ↦
              let after = escape true v ++ b'"' ∷ rest in
              let esc = escape_char c in
              let next_pos = pos + length s + length esc in
              let next_value = (value ++ s) ++ c ∷ [] in
              let whole : buf ≡ s ++ (esc ++ after) =
                eb
                ∙ rw special_c
                    (ap (λ (t : Bytes). s ++ t) (append_assoc esc (escape true v) (b'"' ∷ rest))) in
              rw special_c (
                ap
                  (λ (t : Bytes).
                    process to_utf8 to_lower charset_from_string (suc (rounds v fuel))
                      (at_value r pos t name value before))
                  whole
                ∙ value_step (rounds v fuel) pos (s ++ (esc ++ after)) value
                    (at_value r next_pos after name next_value before)
                    (value_reference to_utf8 r name before pos c s after value h
                      (special true c special_c)
                      (omega (arith, length-append (escape true v) (b'"' ∷ rest))) (omega arith))
                    (further pos (length s) (length esc) (length-escape_char c))
                ∙ value_read v [] next_value value' after next_pos pos' fuel tt u l
                    (omega (arith, length-append value s, length-append (value ++ s) (c ∷ []))) refl
                    (omega (
                      arith,
                      ep,
                      ap length (escape-special c v special_c),
                      length-append esc (escape true v),
                    ))
                    (ev
                      ∙ sym (append_assoc (value ++ s) (c ∷ []) v)
                      ∙ ap (λ (t : Bytes). t ++ v) (sym (append-nil next_value))))
          | inr plain ↦ rw plain (
              value_read v (s ++ c ∷ []) value value' buf pos pos' fuel
                (All-append (λ (x : ℕ). is_special true x ≡ false) s (c ∷ []) h (plain, tt)) u l
                (omega (arith, length-append s (c ∷ [])))
                (eb
                  ∙ ap (λ (t : Bytes). s ++ (t ++ b'"' ∷ rest)) (escape-plain c v plain)
                  ∙ sym (append_assoc s (c ∷ []) (escape true v ++ b'"' ∷ rest)))
                (omega (arith, ep, ap length (escape-plain c v plain), length-append s (c ∷ [])))
                (ev
                  ∙ sym (append_assoc (value ++ s) (c ∷ []) v)
                  ∙ ap (λ (t : Bytes). t ++ v) (append_assoc value s (c ∷ []))))
        ]

    -- A reader of UTF-8 is behind the opening quotation mark of an attribute whose value SimpleXML has
    -- written, with at least two characters behind the closing one. If the value is short enough for the
    -- reader, then after one round of `process` for each character that was escaped, and one more, the
    -- value of the attribute is what was written, the reader is behind the closing quotation mark, and
    -- nothing else has changed.
    pub process-escaped :
        (v : Bytes) (pos fuel : ℕ)
        → r.charset ≡ charset_utf8
        → 1 < length rest
        → length v + 1 < max_value_size
        → process to_utf8 to_lower charset_from_string
            (rounds v fuel)
            (at_value r pos (escaped true v ++ b'"' ∷ rest) name [] before)
          ≡ process to_utf8 to_lower charset_from_string fuel
              (value_ended (pos + length (escaped true v) + 1) v)
    process-escaped v pos fuel u l m =
        value_read v [] [] v (escaped true v ++ b'"' ∷ rest) pos (pos + length (escaped true v) + 1)
          fuel tt u l (omega arith) (ap (λ (t : Bytes). t ++ b'"' ∷ rest) (escaped-escape v))
          (omega (arith, ap length (escaped-escape v))) refl
