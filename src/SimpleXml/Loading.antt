-- ===== src/SimpleXml/Loading.antt =====
-- baselib/SimpleXML.h and baselib/SimpleXML.cpp: `TagReader`, which builds a tree from what the reader
-- tells, and `fromXML`.
pub mod Loads
pub mod Values
pub mod Attribs
pub mod StartTags
use adchubd.Base.{ℕ, Bool, true, false, List, [], ◌∷◌, Bytes, codes, if◌then◌else◌}
use adchubd.SimpleXml.{Tag, tag, Tags, no_tags, tags}
use adchubd.SimpleXml.Tree.{SimpleXml, new_root, reversed}
use adchubd.SimpleXmlReader.{Told, start_tag, end_tag}
use adchubd.SimpleXmlReader.Process.{
  Result, threw, hung, returned, out_of_rounds, parse, new_reader,
}

-- A tag that is being built, with its children so far, the newest first.
pub record Opened : Type 0 where
  pub name : Bytes
  pub attribs : List (Bytes × Bytes)
  pub text : Bytes
  pub kids : Tags

-- `cur`, and the tags around it, the innermost first.
pub record TagReader : Type 0 where
  pub cur : Opened
  pub outer : List Opened

-- What `fromXML` does: it throws what the reader throws, one of two exceptions of its own, never ends, or
-- loads a tree. In the model alone it may lack rounds.
pub data Loaded : Type 0 where
  threw_in_reader : Bytes → Loaded
  invalid_end_tag invalid_file never_ended lacked_rounds : Loaded
  loaded : SimpleXml → Loaded

abbrev pub closed : Opened → Tag
closed o = tag o.name o.attribs o.text (reversed o.kids)

abbrev pub with_kid : Tag → Opened → Opened
with_kid t o = record o { kids = tags t o.kids }

abbrev pub opened_tag : Bytes → List (Bytes × Bytes) → Opened
opened_tag name attribs = record { name = name; attribs = attribs; text = []; kids = no_tags }

-- A tag is among the children of `cur` from its start on. Here it gets there when it is closed.
abbrev pub start_in : Bytes → List (Bytes × Bytes) → Bool → TagReader → TagReader
start_in name attribs true t = record t { cur = with_kid (closed (opened_tag name attribs)) t.cur }
start_in name attribs false t = record { cur = opened_tag name attribs; outer = t.cur ∷ t.outer }

pub data Building : Type 0 where
  building : TagReader → Building
  bad_end : Building

abbrev pub end_in : Bytes → Opened → List Opened → Building
end_in text cur [] = bad_end
end_in text cur (p ∷ outer) =
    building (record { cur = with_kid (closed (record cur { text = text })) p; outer = outer })

-- A call of the callback.
abbrev pub on_told : Told → Building → Building
on_told t bad_end = bad_end
on_told (start_tag name attribs simple) (building b) = building (start_in name attribs simple b)
on_told (end_tag name text) (building b) = end_in text b.cur b.outer

abbrev pub at_root : TagReader
at_root = record { cur = opened_tag (codes "BOGUSROOT") []; outer = [] }

-- The calls of the callback, the newest first.
unfoldable pub build : List Told → Building
build [] = building at_root
build (t ∷ before) = on_told t (build before)

-- The tree with those tags closed that are still open.
unfoldable pub close_all : Opened → List Opened → Opened
close_all cur [] = cur
close_all cur (p ∷ outer) = close_all (with_kid (closed cur) p) outer

-- `if (root.children.size() != 1) throw ...`, and otherwise the place is the root again.
abbrev pub check_root : Tags → Loaded
check_root no_tags = invalid_file
check_root (tags t no_tags) = loaded (record new_root { after = tags t no_tags })
check_root (tags t (tags u ts)) = invalid_file

abbrev pub finish_building : Building → Loaded
finish_building bad_end = invalid_end_tag
finish_building (building b) = check_root (close_all b.cur b.outer).kids

-- What `fromXML` does behind the reader. The calls of the callback are made here after the run, which
-- comes to the same, since none of them throws.
abbrev pub finish_reading : Result → Loaded
finish_reading (threw e) = threw_in_reader e
finish_reading hung = never_ended
finish_reading (returned more r) = finish_building (build r.told)
finish_reading out_of_rounds = lacked_rounds

module _ (to_utf8 : Bytes → ℕ → Bytes) (to_lower : Bytes → Bytes)
    (charset_from_string : Bytes → ℕ) where
  -- The tree of before is deleted.
  unfoldable pub from_xml : Bytes → Loaded
  from_xml text = finish_reading (parse to_utf8 to_lower charset_from_string text new_reader)
