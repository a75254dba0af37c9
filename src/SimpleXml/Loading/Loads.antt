-- ===== src/SimpleXml/Loading/Loads.antt =====
-- baselib/SimpleXML.cpp: how `fromXML` ends.
use adchubd.Base.{
  ℕ, ◌<◌, ◌≡◌, refl, ap, ◌∙◌, subst, true, false, List, [], ◌∷◌, Bytes, Option, none, some, same,
  Bool-cases, arith, inl, inr,
}
use adchubd.SimpleXml.{Tag, Tags, no_tags, tags}
use adchubd.SimpleXml.Tree.{onto, children}
use adchubd.SimpleXml.Tree.Visits.{count}
use adchubd.SimpleXml.Loading.{
  Opened, Loaded, threw_in_reader, invalid_end_tag, invalid_file, never_ended, lacked_rounds,
  loaded, Building, building, bad_end, with_kid, end_in, on_told, build, close_all, check_root,
  finish_building, finish_reading, from_xml,
}
use adchubd.SimpleXmlReader.Elements.{pop}
use adchubd.SimpleXmlReader.{Told, start_tag, end_tag, Reader}
use adchubd.SimpleXmlReader.Process.{
  Result, threw, hung, returned, out_of_rounds, parse, new_reader,
}
use adchubd.SimpleXmlReader.Process.Adv.{amps}
use adchubd.SimpleXmlReader.Process.Rounds.{Finished, given, parse-Finished}
use adchubd.SimpleXmlReader.Nested.{
  opens, opened, closes, Phase, outside, pending, with_attrib, closing, Holds, Nested, phase,
}
use adchubd.SimpleXmlReader.Nested.Rounds.{begun, Ends, Reads-Nested, parse-Nested}

-- The names of the tags that are being built, without the root.
unfoldable names : Opened → List Opened → List Bytes
names cur [] = []
names cur (p ∷ outer) = cur.name ∷ names p outer

names-with_kid :
    (t : Tag) (p : Opened) (outer : List Opened) → names (with_kid t p) outer ≡ names p outer
unfolding names
names-with_kid t p [] = refl
names-with_kid t p (q ∷ outer) = refl

-- The tags that are being built are those that are open.
abbrev Tracks : Building → Option (List Bytes) → Type 0
Tracks b none = Unit {0}
Tracks bad_end (some ns) = ⊥
Tracks (building b) (some ns) = names b.cur b.outer ≡ ns

end_in-Tracks :
    (name text : Bytes) (cur : Opened) (outer : List Opened) (ns : List Bytes)
    → names cur outer ≡ ns
    → Tracks (end_in text cur outer) (closes name (some ns))
unfolding names
end_in-Tracks name text cur outer [] e = tt
end_in-Tracks name text cur [] (n ∷ ns) e = absurd (cc)
end_in-Tracks name text cur (p ∷ outer) (n ∷ ns) e = elim (Bool-cases (same name n)) [
  | inl yes_same ↦ rw yes_same (names-with_kid _ p outer ∙ cc)
  | inr differs ↦ rw differs tt
]

simple-Tracks :
    (name : Bytes) (attribs : List (Bytes × Bytes)) (b : Building) (o : Option (List Bytes))
    → Tracks b o
    → Tracks (on_told (start_tag name attribs true) b) o
simple-Tracks name attribs b none h = tt
simple-Tracks name attribs bad_end (some ns) h = h
simple-Tracks name attribs (building b) (some ns) h = names-with_kid _ b.cur b.outer ∙ h

start-Tracks :
    (name : Bytes) (attribs : List (Bytes × Bytes)) (b : Building) (o : Option (List Bytes))
    → Tracks b o
    → Tracks (on_told (start_tag name attribs false) b) (opened name o)
unfolding names
start-Tracks name attribs b none h = tt
start-Tracks name attribs bad_end (some ns) h = h
start-Tracks name attribs (building b) (some ns) h = ap (λ (l : List Bytes). name ∷ l) h

end-Tracks :
    (name text : Bytes) (b : Building) (o : Option (List Bytes))
    → Tracks b o
    → Tracks (on_told (end_tag name text) b) (closes name o)
end-Tracks name text b none h = tt
end-Tracks name text bad_end (some ns) h = absurd h
end-Tracks name text (building b) (some ns) h = end_in-Tracks name text b.cur b.outer ns h

build-Tracks : (told : List Told) → Tracks (build told) (opens told)
unfolding build opens names
build-Tracks [] = refl
build-Tracks (start_tag name attribs true ∷ before) =
    simple-Tracks name attribs (build before) (opens before) (build-Tracks before)
build-Tracks (start_tag name attribs false ∷ before) =
    start-Tracks name attribs (build before) (opens before) (build-Tracks before)
build-Tracks (end_tag name text ∷ before) =
    end-Tracks name text (build before) (opens before) (build-Tracks before)

Nested-opens : (p : Phase) (r : Reader) → Holds p r → (ns : List Bytes) × (opens r.told ≡ some ns)
Nested-opens outside r h = (r.elements, h)
Nested-opens pending r h = (pop r.elements, h.0)
Nested-opens with_attrib r h = (pop r.elements, h.0)
Nested-opens closing r h = (r.elements, h.0)

-- How `fromXML` may end: with the exception of the reader; with an ampersand in the text, never; with the
-- exception that there is not one tag at the root; or with a tree that has one, and the place at the root.
abbrev pub Loads : Bytes → Loaded → Type 0
Loads text (threw_in_reader e) = Unit {0}
Loads text invalid_end_tag = ⊥
Loads text invalid_file = Unit {0}
Loads text never_ended = 0 < amps text
Loads text lacked_rounds = ⊥
Loads text (loaded x) = (x.outer ≡ []) × (count (children x) ≡ 1)

check_root-Loads : (text : Bytes) (ts : Tags) → Loads text (check_root ts)
unfolding count onto
check_root-Loads text no_tags = tt
check_root-Loads text (tags t no_tags) = (refl, omega arith)
check_root-Loads text (tags t (tags u ts)) = tt

built-Loads :
    (text : Bytes) (b : Building) (ns : List Bytes)
    → Tracks b (some ns)
    → Loads text (finish_building b)
built-Loads text bad_end ns h = h
built-Loads text (building b) ns h = check_root-Loads text (close_all b.cur b.outer).kids

told-Loads : (text : Bytes) (r : Reader) → Nested r → Loads text (finish_building (build r.told))
told-Loads text r n =
    let (ns, e) = Nested-opens (phase r.state) r n in
    built-Loads text (build r.told) ns (subst (Tracks (build r.told)) e (build-Tracks r.told))

module _ (to_utf8 : Bytes → ℕ → Bytes) (to_lower : Bytes → Bytes)
    (charset_from_string : Bytes → ℕ) where
  read-Loads :
      (text : Bytes) (o : Result)
      → Finished (given text new_reader) o
      → Ends to_utf8 to_lower charset_from_string o
      → Loads text (finish_reading o)
  read-Loads text (threw e) f h = tt
  read-Loads text hung f h = f
  read-Loads text (returned true r) f h =
      told-Loads text r (Reads-Nested to_utf8 to_lower charset_from_string h)
  read-Loads text (returned false r) f h = told-Loads text r h
  read-Loads text out_of_rounds f h = f

  -- Whatever the text is, `fromXML` throws what the reader throws, or throws that there is not exactly one
  -- tag at the root, or loads a tree with one and stands at the root of it; or there is an ampersand in the
  -- text and the reader comes to its endless loop. No end tag is ever without its start tag, so that the
  -- exception for that is not thrown.
  pub from_xml-Loads :
      (text : Bytes) → Loads text (from_xml to_utf8 to_lower charset_from_string text)
  unfolding from_xml
  from_xml-Loads text =
      read-Loads text (parse to_utf8 to_lower charset_from_string text new_reader)
        (parse-Finished to_utf8 to_lower charset_from_string text new_reader)
        (parse-Nested to_utf8 to_lower charset_from_string text new_reader (begun refl)).1
