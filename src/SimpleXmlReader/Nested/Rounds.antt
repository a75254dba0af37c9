-- ===== src/SimpleXmlReader/Nested/Rounds.antt =====
-- baselib/SimpleXMLReader.cpp: `process` keeps the tags nested.
use adchubd.Base.{
  [], sym, ℕ, zero, suc, ◌≡◌, inl, inr, refl, ap, subst, Bool, true, false, Bytes, Bool-cases, ◌==◌,
  ◌&&◌, codes, arith,
}
use adchubd.SimpleXmlReader.{ParseState, Reader, Outcome, went, skip_space, space_or_error}
use adchubd.SimpleXmlReader.Process.{
  Result, threw, hung, returned, out_of_rounds, round, process, parse, bom, same_state, cleared,
  or_space, or_error, new_reader,
}
use adchubd.SimpleXmlReader.Process.Rounds.{Outcome-cases, given}
use adchubd.SimpleXmlReader.Nested.{
  opens, Phase, phase, outside, pending, with_attrib, closing, Holds, At, Nested, Same, Same-refl,
  At-Same, Does, Does-or_else,
}
use adchubd.SimpleXmlReader.Nested.Pieces.{
  skip_space-Does, literal-Does, character-Does, element-Does, element_name-Does, element_attr-Does,
  element_attr_name-Does, element_end_simple-Does, element_end_complex-Does, element_end-Does,
  element_end_end-Does, element_attr_value-Does, content-Does, comment-Does, cdata-Does,
  decl_version_num-Does, decl_encoding_value-Does,
}

or_error-Does :
    (p : Phase) (message : Bytes) (r : Reader) (o : Outcome)
    → At p r
    → Does r o
    → Does r (or_error message o)
or_error-Does p message r o a d = Does-or_else p r o _ a d (λ s b. tt)

or_space-Does :
    (p : Phase) (message : Bytes) (r : Reader) (o : Outcome)
    → At p r
    → Does r o
    → Does r (or_space message o)
unfolding space_or_error
or_space-Does p message r o a d =
    Does-or_else p r o _ a d
      (λ s b. Does-or_else p s (skip_space false s) _ b (skip_space-Does false s) (λ t c. tt))

-- A reader in a state.
in_state : (st : ParseState) (r : Reader) → r.state ≡ st → Nested r → At (phase st) r
in_state st r e n = (ap phase e, subst (λ (s : ParseState). Holds (phase s) r) e n)

Nested-Same : (r s : Reader) → Nested r → Same r s → Nested s
Nested-Same r s n e =
    let a = At-Same (phase r.state) r s (refl, n) e in
    subst (λ (p : Phase). Holds p s) (sym a.0) a.1

module _ (to_utf8 : Bytes → ℕ → Bytes) (to_lower : Bytes → Bytes)
    (charset_from_string : Bytes → ℕ) where
  round-Does :
      (st : ParseState) (r : Reader)
      → At (phase st) r
      → Does r (round to_utf8 to_lower charset_from_string st r)
  unfolding round
  round-Does ParseState.start r a = or_space-Does outside _ r _ a (
      Does-or_else outside r _ _ a (literal-Does outside bom false ParseState.start r a refl)
        (λ r1 a1.
          Does-or_else outside r1 _ _ a1
            (literal-Does outside (codes "<?xml") true ParseState.decl_version r1 a1 refl)
            (λ r2 a2.
              Does-or_else outside r2 _ _ a2
                (literal-Does outside (codes "<!--") false ParseState.comment r2 a2 refl)
                (λ r3 a3. element-Does r3 a3))))
  round-Does ParseState.decl_version r a = or_space-Does outside _ r _ a (
      Does-or_else outside r _ _ a (skip_space-Does false r) (λ r1 a1.
        literal-Does outside (codes "version") false ParseState.decl_version_eq r1 a1 refl))
  round-Does ParseState.decl_version_eq r a =
      or_space-Does outside _ r _ a
        (character-Does outside b'=' ParseState.decl_version_num r a refl)
  round-Does ParseState.decl_version_num r a =
      or_space-Does outside _ r _ a (decl_version_num-Does r a)
  round-Does ParseState.decl_encoding r a = or_space-Does outside _ r _ a (
      Does-or_else outside r _ _ a
        (literal-Does outside (codes "encoding") false ParseState.decl_encoding_eq r a refl)
        (λ r1 a1.
          Does-or_else outside r1 _ _ a1
            (literal-Does outside (codes "standalone") false ParseState.decl_standalone_eq r1 a1
              refl)
            (λ r2 a2. literal-Does outside (codes "?>") false ParseState.content r2 a2 refl)))
  round-Does ParseState.decl_encoding_eq r a =
      or_space-Does outside _ r _ a
        (character-Does outside b'=' ParseState.decl_encoding_name r a refl)
  round-Does ParseState.decl_encoding_name r a = or_space-Does outside _ r _ a (
      Does-or_else outside r _ _ a
        (character-Does outside b'\'' ParseState.decl_encoding_name_apos r a refl)
        (λ r1 a1. character-Does outside b'"' ParseState.decl_encoding_name_quot r1 a1 refl))
  round-Does ParseState.decl_encoding_name_apos r a =
      or_space-Does outside _ r _ a (decl_encoding_value-Does to_lower charset_from_string r a)
  round-Does ParseState.decl_encoding_name_quot r a =
      or_space-Does outside _ r _ a (decl_encoding_value-Does to_lower charset_from_string r a)
  round-Does ParseState.decl_standalone r a = or_space-Does outside _ r _ a (
      Does-or_else outside r _ _ a
        (literal-Does outside (codes "standalone") false ParseState.decl_standalone_eq r a refl)
        (λ r1 a1. literal-Does outside (codes "?>") false ParseState.content r1 a1 refl))
  round-Does ParseState.decl_standalone_eq r a =
      or_space-Does outside _ r _ a
        (character-Does outside b'=' ParseState.decl_standalone_yes r a refl)
  round-Does ParseState.decl_standalone_yes r a = or_space-Does outside _ r _ a (
      Does-or_else outside r _ _ a
        (literal-Does outside (codes "\"yes\"") false ParseState.decl_end r a refl)
        (λ r1 a1. literal-Does outside (codes "'yes'") false ParseState.decl_end r1 a1 refl))
  round-Does ParseState.decl_end r a =
      or_space-Does outside _ r _ a
        (literal-Does outside (codes "?>") false ParseState.content r a refl)
  round-Does ParseState.element_name r a = or_error-Does pending _ r _ a (element_name-Does r a)
  round-Does ParseState.element_end_simple r a =
      or_error-Does pending _ r _ a (element_end_simple-Does r a)
  round-Does ParseState.element_end r a = or_space-Does outside _ r _ a (element_end-Does r a)
  round-Does ParseState.element_end_end r a =
      or_space-Does closing _ r _ a (element_end_end-Does to_utf8 r a)
  round-Does ParseState.element_attr r a = or_space-Does pending _ r _ a (
      Does-or_else pending r _ _ a (element_attr-Does r a) (λ r1 a1.
        Does-or_else pending r1 _ _ a1 (element_end_complex-Does r1 a1)
          (λ r2 a2. character-Does pending b'/' ParseState.element_end_simple r2 a2 refl)))
  round-Does ParseState.element_attr_name r a =
      or_error-Does with_attrib _ r _ a (element_attr_name-Does r a)
  round-Does ParseState.element_attr_eq r a =
      or_space-Does with_attrib _ r _ a
        (character-Does with_attrib b'=' ParseState.element_attr_value r a refl)
  round-Does ParseState.element_attr_value r a = or_space-Does with_attrib _ r _ a (
      Does-or_else with_attrib r _ _ a
        (character-Does with_attrib b'\'' ParseState.element_attr_value_apos r a refl)
        (λ r1 a1. character-Does with_attrib b'"' ParseState.element_attr_value_quot r1 a1 refl))
  round-Does ParseState.element_attr_value_apos r a = element_attr_value-Does to_utf8 _ r a
  round-Does ParseState.element_attr_value_quot r a = element_attr_value-Does to_utf8 _ r a
  round-Does ParseState.comment r a = or_error-Does outside _ r _ a (comment-Does r a)
  round-Does ParseState.cdata r a = or_error-Does outside _ r _ a (cdata-Does r a)
  round-Does ParseState.content r a = or_error-Does outside _ r _ a (
      Does-or_else outside r _ _ a (skip_space-Does true r) (λ r1 a1.
        Does-or_else outside r1 _ _ a1
          (literal-Does outside (codes "<!--") false ParseState.comment r1 a1 refl)
          (λ r2 a2.
            Does-or_else outside r2 _ _ a2
              (literal-Does outside (codes "<![CDATA[") false ParseState.cdata r2 a2 refl)
              (λ r3 a3. Does-or_else outside r3 _ _ a3 (element-Does r3 a3) (λ r4 a4.
                Does-or_else outside r4 _ _ a4
                  (literal-Does outside (codes "</") false ParseState.element_end r4 a4 refl)
                  (λ r5 a5. content-Does r5))))))
  round-Does ParseState.end r a = tt

  went_on : (r s : Reader) (b : Bool) → Nested r → Does r (went b s) → Nested s
  went_on r s true n (inl e) = Nested-Same r s n e
  went_on r s true n (inr m) = m
  went_on r s false n e = Nested-Same r s n e

  cleared-Same : (r s : Reader) → Same s (cleared r s)
  cleared-Same r s = ground arith

  -- The states of a reader before each round of `process`, whatever blocks of text it is given.
  pub data Reads : Reader → Type 0 where
    begun : {r : Reader} → r ≡ new_reader → Reads r
    more : {r s : Reader} (text : Bytes) → Reads r → s ≡ given text r → Reads s
    next_round :
        {r s next : Reader} (b : Bool)
        → Reads r
        → round to_utf8 to_lower charset_from_string r.state r ≡ went b next
        → s ≡ cleared r next
        → Reads s

  pub Reads-Nested : {r : Reader} → Reads r → Nested r
  unfolding opens
  Reads-Nested (begun e) = subst Nested (sym e) refl
  Reads-Nested (more {r} text w e) =
      subst Nested (sym e) (Nested-Same r (given text r) (Reads-Nested w) (Same-refl r))
  Reads-Nested (next_round {r} {s} {next} b w gone e) =
      let n = Reads-Nested w in
      let m = went_on r next b n (subst (Does r) gone (round-Does r.state r (refl, n))) in
      subst Nested (sym e) (Nested-Same next (cleared r next) m (cleared-Same r next))

  abbrev pub Ends : Result → Type 0
  Ends (threw e) = Unit {0}
  Ends hung = Unit {0}
  Ends (returned true s) = Reads s
  Ends (returned false s) = Nested s
  Ends out_of_rounds = Unit {0}

  -- A round that changes nothing ends the loop, with nothing to clear.
  cleared_same :
      (r s : Reader) → (same_state r.state s.state && r.pos == s.pos) ≡ true → cleared r s ≡ s
  cleared_same r s h = ground arith

  process-Ends :
      (fuel : ℕ) (r : Reader) → Reads r → Ends (process to_utf8 to_lower charset_from_string fuel r)
  unfolding process
  process-Ends zero r w = tt
  process-Ends (suc fuel) r w = elim (Bool-cases (same_state r.state ParseState.end)) [
    | inl at_end ↦
        rw (at_end, process) (Nested-Same r (record r { buf = [] }) (Reads-Nested w) (Same-refl r))
    | inr before ↦ elim (Outcome-cases (round to_utf8 to_lower charset_from_string r.state r)) [
      | inl (e, threw_e) ↦ rw (before, threw_e, process) tt
      | inr (inl hanging) ↦ rw (before, hanging, process) tt
      | inr (inr (b, next, gone)) ↦
          let u = next_round b w gone refl in
          elim (Bool-cases (same_state r.state next.state && r.pos == next.pos)) [
            | inl stands ↦
                rw (before, gone, stands, process) (subst Reads (cleared_same r next stands) u)
            | inr moves ↦ rw (before, gone, moves, process) (process-Ends fuel (cleared r next) u)
          ]
    ]
  ]

  -- In every state that a reader gets to, round by round, on any blocks of text: each end tag that the
  -- callback was told of has the name of the innermost tag that was open; the elements are the tags that
  -- are open and, within the brackets of a start tag, the one that is being read; and the reader has an
  -- element in each state in which it looks at the last element, and an attribute in each one in which it
  -- looks at the last attribute. A state in which `parse` returns for more data is such a state again.
  pub parse-Nested :
      (text : Bytes) (r : Reader)
      → Reads r
      → Nested r × Ends (parse to_utf8 to_lower charset_from_string text r)
  unfolding parse
  parse-Nested text r w = (Reads-Nested w, process-Ends _ (given text r) (more text w refl))
