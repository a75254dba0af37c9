-- ===== src/SimpleXmlReader/Process.antt =====
-- baselib/SimpleXMLReader.cpp: `process` and `parse`.
pub mod Adv
pub mod Pieces
pub mod Rounds
use adchubd.Base.{
  ℕ, zero, suc, ◌+◌, ◌*◌, Bool, true, false, not, ◌&&◌, ◌||◌, List, [], ◌∷◌, ◌++◌, Bytes, ◌==◌,
  if◌then◌else◌, length, codes,
}
use adchubd.SimpleXmlReader.{
  ParseState, Reader, Outcome, went, thrown, hangs, or_else, error, literal, character, skip_space,
  space_or_error, charset_utf8,
}
use adchubd.SimpleXmlReader.Elements.{
  element, element_name, element_attr, element_attr_name, element_end_simple, element_end_complex,
  element_end, element_end_end,
}
use adchubd.SimpleXmlReader.Texts.{element_attr_value, content, comment, cdata}
use adchubd.SimpleXmlReader.Declaration.{decl_version_num, decl_encoding_value}

-- How `process` ends: by an exception, never, in need of more data or at the end, or, in the model
-- alone, for lack of rounds.
pub data Result : Type 0 where
  threw : Bytes → Result
  hung : Result
  returned : Bool → Reader → Result
  out_of_rounds : Result

-- A number for each state, to compare them.
unfoldable pub code : ParseState → ℕ
code ParseState.start = 0
code ParseState.decl_version = 1
code ParseState.decl_version_eq = 2
code ParseState.decl_version_num = 3
code ParseState.decl_encoding = 4
code ParseState.decl_encoding_eq = 5
code ParseState.decl_encoding_name = 6
code ParseState.decl_encoding_name_apos = 7
code ParseState.decl_encoding_name_quot = 8
code ParseState.decl_standalone = 9
code ParseState.decl_standalone_eq = 10
code ParseState.decl_standalone_yes = 11
code ParseState.decl_end = 12
code ParseState.element_name = 13
code ParseState.element_attr = 14
code ParseState.element_attr_name = 15
code ParseState.element_attr_eq = 16
code ParseState.element_attr_value = 17
code ParseState.element_attr_value_quot = 18
code ParseState.element_attr_value_apos = 19
code ParseState.element_end_simple = 20
code ParseState.element_end = 21
code ParseState.element_end_end = 22
code ParseState.comment = 23
code ParseState.cdata = 24
code ParseState.content = 25
code ParseState.end = 26

abbrev pub same_state : ParseState → ParseState → Bool
same_state a b = code a == code b

abbrev pub or_error : Bytes → Outcome → Outcome
or_error message o = or_else o (λ r. error r message)

abbrev pub or_space : Bytes → Outcome → Outcome
or_space message o = or_else o (λ r. space_or_error message r)

abbrev pub bom : Bytes
bom = 0xef ∷ 0xbb ∷ 0xbf ∷ []

abbrev pub is_content : ParseState → Bool
is_content ParseState.content = true
is_content st = false

-- The white space of contents that turned out to be elements or comments is dropped.
abbrev pub cleared : Reader → Reader → Reader
cleared old r =
    if is_content r.state && not (same_state r.state old.state) then record r { value = [] } else r

-- The conversion from a character set, and `toLower` and `charsetFromString` of baselib/Text.cpp.
module _ (to_utf8 : Bytes → ℕ → Bytes) (to_lower : Bytes → Bytes)
    (charset_from_string : Bytes → ℕ) where
  -- The `switch` of `process`, but for the state `end`, of which `process` takes care.
  unfoldable pub round : ParseState → Reader → Outcome
  round ParseState.start r = or_space (codes "Expecting XML declaration, element or comment") (
      or_else (literal bom false ParseState.start r) (λ r1.
        or_else (literal (codes "<?xml") true ParseState.decl_version r1)
          (λ r2. or_else (literal (codes "<!--") false ParseState.comment r2) (λ r3. element r3))))
  round ParseState.decl_version r = or_space (codes "Expecting version") (
      or_else (skip_space false r)
        (λ r1. literal (codes "version") false ParseState.decl_version_eq r1))
  round ParseState.decl_version_eq r =
      or_space (codes "Expecting =") (character b'=' ParseState.decl_version_num r)
  round ParseState.decl_version_num r =
      or_space (codes "Expecting version number") (decl_version_num r)
  round ParseState.decl_encoding r = or_space (codes "Expecting encoding | standalone | ?>") (
      or_else (literal (codes "encoding") false ParseState.decl_encoding_eq r) (λ r1.
        or_else (literal (codes "standalone") false ParseState.decl_standalone_eq r1)
          (λ r2. literal (codes "?>") false ParseState.content r2)))
  round ParseState.decl_encoding_eq r =
      or_space (codes "Expecting =") (character b'=' ParseState.decl_encoding_name r)
  round ParseState.decl_encoding_name r = or_space (codes "Expecting encoding name start") (
      or_else (character b'\'' ParseState.decl_encoding_name_apos r)
        (λ r1. character b'"' ParseState.decl_encoding_name_quot r1))
  round ParseState.decl_encoding_name_apos r =
      or_space (codes "Expecting encoding value")
        (decl_encoding_value to_lower charset_from_string r)
  round ParseState.decl_encoding_name_quot r =
      or_space (codes "Expecting encoding value")
        (decl_encoding_value to_lower charset_from_string r)
  round ParseState.decl_standalone r = or_space (codes "Expecting standalone | ?>") (
      or_else (literal (codes "standalone") false ParseState.decl_standalone_eq r)
        (λ r1. literal (codes "?>") false ParseState.content r1))
  round ParseState.decl_standalone_eq r =
      or_space (codes "Expecting =") (character b'=' ParseState.decl_standalone_yes r)
  round ParseState.decl_standalone_yes r = or_space (codes "Expecting standalone=yes") (
      or_else (literal (codes "\"yes\"") false ParseState.decl_end r)
        (λ r1. literal (codes "'yes'") false ParseState.decl_end r1))
  round ParseState.decl_end r =
      or_space (codes "Expecting ?>") (literal (codes "?>") false ParseState.content r)
  round ParseState.element_name r =
      or_error (codes "Error while parsing element start") (element_name r)
  round ParseState.element_end_simple r = or_error (codes "Expecting >") (element_end_simple r)
  round ParseState.element_end r = or_space (codes "Expecting element end") (element_end r)
  round ParseState.element_end_end r = or_space (codes "Expecting >") (element_end_end to_utf8 r)
  round ParseState.element_attr r = or_space (codes "Expecting attribute | /> | >") (
      or_else (element_attr r) (λ r1.
        or_else (element_end_complex r1) (λ r2. character b'/' ParseState.element_end_simple r2)))
  round ParseState.element_attr_name r =
      or_error (codes "Expecting attribute name") (element_attr_name r)
  round ParseState.element_attr_eq r =
      or_space (codes "Expecting attribute =") (character b'=' ParseState.element_attr_value r)
  round ParseState.element_attr_value r = or_space (codes "Expecting attribute value start") (
      or_else (character b'\'' ParseState.element_attr_value_apos r)
        (λ r1. character b'"' ParseState.element_attr_value_quot r1))
  round ParseState.element_attr_value_apos r =
      or_error (codes "Expecting attribute value") (element_attr_value to_utf8 r)
  round ParseState.element_attr_value_quot r =
      or_error (codes "Expecting attribute value") (element_attr_value to_utf8 r)
  round ParseState.comment r = or_error (codes "Error while parsing comment") (comment r)
  round ParseState.cdata r = or_error (codes "Error while parsing CDATA") (cdata r)
  round ParseState.content r = or_error (codes "Expecting content, element or comment") (
      or_else (skip_space true r) (λ r1.
        or_else (literal (codes "<!--") false ParseState.comment r1) (λ r2.
          or_else (literal (codes "<![CDATA[") false ParseState.cdata r2) (λ r3.
            or_else (element r3) (λ r4.
              or_else (literal (codes "</") false ParseState.element_end r4) (λ r5. content r5))))))
  round ParseState.end r = error r (codes "Unexpected state")

  -- The `while` loop. A round that changes neither the state nor the position ends it.
  unfoldable pub process : ℕ → Reader → Result
  process zero r = out_of_rounds
  process (suc fuel) r = elim (same_state r.state ParseState.end) [
    | true ↦ returned false (record r { buf = [] })
    | false ↦ elim (round r.state r) [
      | thrown e ↦ threw e
      | hangs ↦ hung
      | went b next ↦ elim (same_state r.state next.state && r.pos == next.pos) [
        | true ↦ returned true next
        | false ↦ process fuel (cleared r next)
      ]
    ]
  ]

  -- `parse(data, len)`, with two rounds for each character, and two more.
  unfoldable pub parse : Bytes → Reader → Result
  parse text r =
      let given = record r { buf = r.buf ++ text } in process (2 * length given.buf + 2) given

-- The constructor.
abbrev pub new_reader : Reader
new_reader = record {
  buf = [];
  pos = 0;
  attribs = [];
  value = [];
  encoding = [];
  charset = charset_utf8;
  state = ParseState.start;
  elements = [];
  told = [];
}
