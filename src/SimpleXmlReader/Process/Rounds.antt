-- ===== src/SimpleXmlReader/Process/Rounds.antt =====
-- baselib/SimpleXMLReader.cpp: the rounds of `process` take characters off the buffer or end the loop.
use adchubd.Base.{
  ℕ, zero, suc, ◌+◌, ◌*◌, ◌<◌, ◌≡◌, inl, inr, refl, ap, Bool, true, false, Bytes, Bool-cases, subst,
  ◌==◌, ◌&&◌, length, codes, ◌⊎◌, ◌++◌, arith,
}
use adchubd.SimpleXmlReader.{ParseState, Reader, Outcome, thrown, hangs, went}
use adchubd.SimpleXmlReader.Process.{
  Result, threw, hung, returned, out_of_rounds, code, round, process, parse, bom, same_state,
  cleared,
}
use adchubd.SimpleXmlReader.Process.Adv.{
  Adv, Good, amps, weight, Good-or_else, or_space-Good, or_error-Good, character-Good, literal-Good,
  skip_space-Good,
}
use adchubd.SimpleXmlReader.Process.Pieces.{
  element-Good, element_name-Good, element_attr-Good, element_attr_name-Good,
  element_end_simple-Good, element_end_complex-Good, element_end-Good, element_end_end-Good,
  element_attr_value-Good, content-Good, comment-Good, cdata-Good, decl_version_num-Good,
  decl_encoding_value-Good,
}

pub Outcome-cases :
    (o : Outcome)
    → ((e : Bytes) × o ≡ thrown e) ⊎ ((o ≡ hangs) ⊎ ((b : Bool) × (r : Reader) × o ≡ went b r))
Outcome-cases (thrown e) = inl (e, refl)
Outcome-cases hangs = inr (inl refl)
Outcome-cases (went b r) = inr (inr (b, r, refl))

-- How a run from a reader may end.
abbrev pub Finished : Reader → Result → Type 0
Finished r (threw e) = Unit {0}
Finished r hung = 0 < amps r.buf
Finished r (returned true next) = length next.buf + next.pos ≡ length r.buf + r.pos
Finished r (returned false next) = Unit {0}
Finished r out_of_rounds = ⊥

-- The reader with a text behind what is left of its buffer.
abbrev pub given : Bytes → Reader → Reader
given text r = record r { buf = r.buf ++ text }

Finished-later :
    (r next : Reader) (o : Result) → Adv r next → Finished (cleared r next) o → Finished r o
Finished-later r next (threw e) g h = tt
Finished-later r next hung g h = ground arith
Finished-later r next (returned true last) g h = ground arith
Finished-later r next (returned false last) g h = tt
Finished-later r next out_of_rounds g h = absurd h

lighter :
    (r next : Reader) (fuel : ℕ)
    → Adv r next
    → (same_state r.state next.state && r.pos == next.pos) ≡ false
    → weight r < suc fuel
    → weight (cleared r next) < fuel
lighter r next fuel g moves h = ground arith

module _ (to_utf8 : Bytes → ℕ → Bytes) (to_lower : Bytes → Bytes)
    (charset_from_string : Bytes → ℕ) where
  round-Good :
      (st : ParseState) (r : Reader)
      → r.state ≡ st
      → Good r (round to_utf8 to_lower charset_from_string st r)
  unfolding round code
  round-Good ParseState.start r e = or_space-Good _ r _ (
      Good-or_else r _ _ (literal-Good bom false ParseState.start r (omega arith)) (λ r1.
        Good-or_else r1 _ _
          (literal-Good (codes "<?xml") true ParseState.decl_version r1 (omega arith))
          (λ r2.
            Good-or_else r2 _ _
              (literal-Good (codes "<!--") false ParseState.comment r2 (omega arith))
              (λ r3. element-Good r3))))
  round-Good ParseState.decl_version r e = or_space-Good _ r _ (
      Good-or_else r _ _ (skip_space-Good false r)
        (λ r1. literal-Good (codes "version") false ParseState.decl_version_eq r1 (omega arith)))
  round-Good ParseState.decl_version_eq r e =
      or_space-Good _ r _ (character-Good b'=' ParseState.decl_version_num r)
  round-Good ParseState.decl_version_num r e = or_space-Good _ r _ (decl_version_num-Good r)
  round-Good ParseState.decl_encoding r e = or_space-Good _ r _ (
      Good-or_else r _ _
        (literal-Good (codes "encoding") false ParseState.decl_encoding_eq r (omega arith))
        (λ r1.
          Good-or_else r1 _ _
            (literal-Good (codes "standalone") false ParseState.decl_standalone_eq r1 (omega arith))
            (λ r2. literal-Good (codes "?>") false ParseState.content r2 (omega arith))))
  round-Good ParseState.decl_encoding_eq r e =
      or_space-Good _ r _ (character-Good b'=' ParseState.decl_encoding_name r)
  round-Good ParseState.decl_encoding_name r e = or_space-Good _ r _ (
      Good-or_else r _ _ (character-Good b'\'' ParseState.decl_encoding_name_apos r)
        (λ r1. character-Good b'"' ParseState.decl_encoding_name_quot r1))
  round-Good ParseState.decl_encoding_name_apos r e =
      or_space-Good _ r _ (decl_encoding_value-Good to_lower charset_from_string r)
  round-Good ParseState.decl_encoding_name_quot r e =
      or_space-Good _ r _ (decl_encoding_value-Good to_lower charset_from_string r)
  round-Good ParseState.decl_standalone r e = or_space-Good _ r _ (
      Good-or_else r _ _
        (literal-Good (codes "standalone") false ParseState.decl_standalone_eq r (omega arith))
        (λ r1. literal-Good (codes "?>") false ParseState.content r1 (omega arith)))
  round-Good ParseState.decl_standalone_eq r e =
      or_space-Good _ r _ (character-Good b'=' ParseState.decl_standalone_yes r)
  round-Good ParseState.decl_standalone_yes r e = or_space-Good _ r _ (
      Good-or_else r _ _ (literal-Good (codes "\"yes\"") false ParseState.decl_end r (omega arith))
        (λ r1. literal-Good (codes "'yes'") false ParseState.decl_end r1 (omega arith)))
  round-Good ParseState.decl_end r e =
      or_space-Good _ r _ (literal-Good (codes "?>") false ParseState.content r (omega arith))
  round-Good ParseState.element_name r e = or_error-Good _ r _ (element_name-Good r)
  round-Good ParseState.element_end_simple r e = or_error-Good _ r _ (element_end_simple-Good r)
  round-Good ParseState.element_end r e = or_space-Good _ r _ (element_end-Good r (ap code e))
  round-Good ParseState.element_end_end r e = or_space-Good _ r _ (element_end_end-Good to_utf8 r)
  round-Good ParseState.element_attr r e = or_space-Good _ r _ (
      Good-or_else r _ _ (element_attr-Good r) (λ r1.
        Good-or_else r1 _ _ (element_end_complex-Good r1)
          (λ r2. character-Good b'/' ParseState.element_end_simple r2)))
  round-Good ParseState.element_attr_name r e = or_error-Good _ r _ (element_attr_name-Good r)
  round-Good ParseState.element_attr_eq r e =
      or_space-Good _ r _ (character-Good b'=' ParseState.element_attr_value r)
  round-Good ParseState.element_attr_value r e = or_space-Good _ r _ (
      Good-or_else r _ _ (character-Good b'\'' ParseState.element_attr_value_apos r)
        (λ r1. character-Good b'"' ParseState.element_attr_value_quot r1))
  round-Good ParseState.element_attr_value_apos r e =
      or_error-Good _ r _ (element_attr_value-Good to_utf8 r)
  round-Good ParseState.element_attr_value_quot r e =
      or_error-Good _ r _ (element_attr_value-Good to_utf8 r)
  round-Good ParseState.comment r e = or_error-Good _ r _ (comment-Good r)
  round-Good ParseState.cdata r e = or_error-Good _ r _ (cdata-Good r)
  round-Good ParseState.content r e = or_error-Good _ r _ (
      Good-or_else r _ _ (skip_space-Good true r) (λ r1.
        Good-or_else r1 _ _ (literal-Good (codes "<!--") false ParseState.comment r1 (omega arith))
          (λ r2.
            Good-or_else r2 _ _
              (literal-Good (codes "<![CDATA[") false ParseState.cdata r2 (omega arith))
              (λ r3. Good-or_else r3 _ _ (element-Good r3) (λ r4.
                Good-or_else r4 _ _
                  (literal-Good (codes "</") false ParseState.element_end r4 (omega arith))
                  (λ r5. content-Good r5))))))
  round-Good ParseState.end r e = tt

  process-Finished :
      (fuel : ℕ) (r : Reader)
      → weight r < fuel
      → Finished r (process to_utf8 to_lower charset_from_string fuel r)
  unfolding process
  process-Finished zero r h = absurd (omega arith)
  process-Finished (suc fuel) r h = elim (Bool-cases (same_state r.state ParseState.end)) [
    | inl at_end ↦ rw (at_end, process) tt
    | inr before ↦ elim (Outcome-cases (round to_utf8 to_lower charset_from_string r.state r)) [
      | inl (e, threw_e) ↦ rw (before, threw_e, process) tt
      | inr (inl hanging) ↦
          rw (before, hanging, process) (subst (Good r) hanging (round-Good r.state r refl))
      | inr (inr (b, next, gone)) ↦
          let g = subst (Good r) gone (round-Good r.state r refl) in
          elim (Bool-cases (same_state r.state next.state && r.pos == next.pos)) [
            | inl stands ↦ rw (before, gone, stands, process) g.0
            | inr moves ↦
                rw (before, gone, moves, process)
                  (Finished-later r next _ g
                    (process-Finished fuel (cleared r next) (lighter r next fuel g moves h)))
          ]
    ]
  ]

  -- Whatever the reader has read, `parse` comes to an end on any text, as two rounds for each character in
  -- the buffer and two more are enough, or there is an ampersand in the buffer and it comes to the endless
  -- loop of `declEncodingValue`. Where it returns for more data, its position has gone on by the number of
  -- the characters that it took off the buffer.
  pub parse-Finished :
      (text : Bytes) (r : Reader)
      → Finished (given text r) (parse to_utf8 to_lower charset_from_string text r)
  unfolding parse
  parse-Finished text r =
      process-Finished (2 * length (r.buf ++ text) + 2) (given text r) (ground arith)
