-- ===== src/Tests/Xml.antt =====
-- baselib/SimpleXML.cpp and baselib/SimpleXMLReader.cpp at concrete inputs.
use adchubd.Base.{
  ◌++◌, arith, length, suc, ℕ, Bytes, List, ◌≡◌, refl, true, false, [], ◌∷◌, codes, All, is_empty,
  same,
}
use adchubd.SimpleXmlReader.{
  Told, start_tag, end_tag, literal, agrees, character, skip_loop, skip_space, space_or_error, span,
}
use adchubd.SimpleXmlReader.Elements.{
  element, element_name, oldest_first, element_attr, element_attr_name, element_end_simple,
  element_end_complex, element_end, element_end_end,
}
use adchubd.SimpleXmlReader.Texts.{
  number_ref, reference, entref, element_attr_value, content, comment_loop, comment, cdata_loop,
  cdata,
}
use adchubd.SimpleXmlReader.Declaration.{
  version_loop, decl_version_num, encoding_loop, decl_encoding_value,
}
use adchubd.SimpleXmlReader.Process.{
  Result, threw, hung, returned, out_of_rounds, code, round, process, parse, new_reader,
}
use adchubd.SimpleXmlReader.Process.Rounds.{Finished, given, parse-Finished}
use adchubd.SimpleXml.{
  escape, escape_char, unescape, unescape_loop, entity, tag, no_tags, tags, to_xml, to_xml_all,
  opening, attrib_string, tabs, needs_escape, any_special,
}
use adchubd.SimpleXml.Tree.{SimpleXml, new_root, reset_current_child, onto, print, within, children}
use adchubd.SimpleXml.Tree.Visits.{Visited, named, count, visit, visit-named}
use adchubd.SimpleXml.Loading.{loaded, build, close_all, from_xml}
use adchubd.SimpleXml.Loading.StartTags.{
  go, at_content, tag_rounds, tag_told, tag_pos, process-opening,
}
use adchubd.SimpleXml.Loading.Loads.{Loads, from_xml-Loads}
use adchubd.SimpleXmlReader.Nested.{Nested}
use adchubd.SimpleXmlReader.Nested.Rounds.{Ends, begun, parse-Nested}
use adchubd.SimpleXml.Escaped.{is_markup, unescape-escape}

to_xml_run :
    to_xml 0 (
      tag
        (codes "a")
        []
        []
        (tags (tag (codes "b") ((codes "x", codes "1<2") ∷ []) (codes "&c") no_tags) no_tags))
    ≡ codes "<a>\r\n\t<b x=\"1&lt;2\">&amp;c</b>\r\n</a>\r\n"
unfolding to_xml to_xml_all attrib_string tabs needs_escape any_special escape escape_char is_empty
to_xml_run = refl

-- An ampersand that begins no escape stays, and what an escape stands for is not read again.
unescape_run : unescape true (codes "&amp;lt; & &quot;") ≡ codes "&lt; & \""
unfolding unescape unescape_loop entity same
unescape_run = refl

unescape-escape_example :
    All (λ x. is_markup true x ≡ false) (escape true (codes "<\"&amp;\">"))
    × (unescape true (escape true (codes "<\"&amp;\">")) ≡ codes "<\"&amp;\">")
unescape-escape_example = unescape-escape true (codes "<\"&amp;\">")

abbrev utf8_alone : Bytes → ℕ → Bytes
utf8_alone s charset = s

abbrev lower_already : Bytes → Bytes
lower_already s = s

abbrev always_utf8 : Bytes → ℕ
always_utf8 s = 8

-- What a run gives: how it ended, what the callback was told, and the position.
abbrev summary : Result → ℕ × List Told × ℕ
summary (threw e) = (0, [], 0)
summary hung = (1, [], 0)
summary (returned more r) = (2, r.told, r.pos)
summary out_of_rounds = (3, [], 0)

abbrev read : Bytes → ℕ × List Told × ℕ
read text = summary (parse utf8_alone lower_already always_utf8 text new_reader)

abbrev document : Bytes
document =
    codes "<?xml version=\"1.0\" encoding='utf-8'?>\n<a b=\"1 &lt; 2\"><!-- x --><c/>t &amp; u</a>"

read_run : read document ≡ (
  2,
  end_tag (codes "a") (codes "t & u")
      ∷ start_tag (codes "c") [] true
      ∷ start_tag (codes "a") ((codes "b", codes "1 < 2") ∷ []) false
      ∷ [],
  length document,
)
unfolding parse process round literal agrees character skip_loop skip_space space_or_error code span
    element element_name oldest_first element_attr element_attr_name element_end_simple
    element_end_complex element_end element_end_end number_ref reference entref element_attr_value
    content comment_loop comment cdata_loop cdata version_loop decl_version_num encoding_loop
    decl_encoding_value same
read_run = refl

hung_run : (read (codes "<?xml version=\"1.0\" encoding=\"a&b\"?>")).0 ≡ 1
unfolding parse process round literal agrees character skip_loop skip_space space_or_error code span
    reference entref version_loop decl_version_num encoding_loop decl_encoding_value same
hung_run = refl

parse-Finished_example :
    Finished
      (given document new_reader)
      (parse utf8_alone lower_already always_utf8 document new_reader)
parse-Finished_example = parse-Finished utf8_alone lower_already always_utf8 document new_reader

parse-Nested_example :
    Nested new_reader
    × Ends utf8_alone lower_already always_utf8
        (parse utf8_alone lower_already always_utf8 document new_reader)
parse-Nested_example =
    parse-Nested utf8_alone lower_already always_utf8 document new_reader (begun refl)

from_xml-Loads_example : Loads document (from_xml utf8_alone lower_already always_utf8 document)
from_xml-Loads_example = from_xml-Loads utf8_alone lower_already always_utf8 document

-- What `fromXML` loads, printed again.
abbrev again_printed : Bytes → Bytes
again_printed text = elim (from_xml utf8_alone lower_already always_utf8 text) [
  | loaded x ↦ print x
  | other ↦ []
]

-- A text that ends within its tags is loaded.
truncated_run : again_printed (codes "<a><b c=\"1\">") ≡ codes "<a>\r\n\t<b c=\"1\"/>\r\n</a>\r\n"
unfolding from_xml build close_all print within onto to_xml to_xml_all attrib_string tabs
    needs_escape any_special escape escape_char is_empty parse process round literal agrees
    character skip_loop skip_space space_or_error code span element element_name oldest_first
    element_attr element_attr_name element_end_simple element_end_complex element_end
    element_end_end number_ref reference entref element_attr_value content same
truncated_run = refl

-- Two tags of the name "b" around one of another name.
abbrev three_tags : SimpleXml
three_tags = record new_root {
  after = tags (tag (codes "b") ((codes "i", codes "1") ∷ []) [] no_tags) (
      tags (tag (codes "c") [] [] no_tags) (tags (tag (codes "b") [] (codes "x") no_tags) no_tags));
}

-- What the client does with a tag that it steps into.
abbrev marked : SimpleXml → SimpleXml
marked x = record x { attribs = (codes "seen", codes "1") ∷ x.attribs; found = true }

visit-named_example :
    Visited (named (codes "b") (children three_tags)) three_tags (
      visit marked (codes "b") (suc (count (children three_tags))) (reset_current_child three_tags))
visit-named_example = visit-named marked (λ x. refl) (codes "b") three_tags

named_run :
    named (codes "b") (children three_tags)
    ≡ tags
        (tag (codes "b") ((codes "i", codes "1") ∷ []) [] no_tags)
        (tags (tag (codes "b") [] (codes "x") no_tags) no_tags)
unfolding named onto same
named_run = refl

-- A value with each character that is escaped.
abbrev marks : Bytes
marks = codes "<a & 'b' \">"

process-opening_example :
    go utf8_alone lower_already always_utf8 new_reader
      (tag_rounds utf8_alone lower_already always_utf8 new_reader ((codes "b", marks) ∷ []) 4)
      (at_content new_reader 0 (opening 0 (codes "a") ((codes "b", marks) ∷ []) ++ codes ">x"))
    ≡ go utf8_alone lower_already always_utf8 new_reader 4 (
        tag_told new_reader
          (codes "a")
          ((codes "b", marks) ∷ [])
          (tag_pos utf8_alone lower_already always_utf8 new_reader
            (codes "a")
            ((codes "b", marks) ∷ [])
            0)
          (codes "x"))
process-opening_example =
    process-opening utf8_alone lower_already always_utf8 new_reader (codes "a") (codes "x")
      ((codes "b", marks) ∷ []) 0 4 (refl, tt, omega arith)
      (((refl, tt, omega arith), omega arith), tt) refl (omega arith) (omega arith)
