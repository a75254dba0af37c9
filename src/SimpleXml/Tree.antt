-- ===== src/SimpleXml/Tree.antt =====
-- baselib/SimpleXML.cpp and baselib/SimpleXML.h: the tree of a `SimpleXML` and its current place. The
-- pointers `current` and `currentChild` are the place itself: the current tag, its children before
-- `currentChild`, the nearest first, and those from there on, and the same for each tag around it.
pub mod Visits
use adchubd.Base.{
  ℕ, Bool, true, false, not, ◌&&◌, List, [], ◌∷◌, ◌++◌, Bytes, same, if◌then◌else◌, is_empty,
  get_or, ◌==◌, codes,
}
use adchubd.SimpleXml.{Tag, tag, Tags, no_tags, tags, to_xml}
use adchubd.StrUtil.{to_int}

-- A tag around the current one, without the child that leads to it.
pub record Around : Type 0 where
  pub name : Bytes
  pub attribs : List (Bytes × Bytes)
  pub text : Bytes
  pub before : Tags
  pub after : Tags

-- `outer` has the tags around the current one, the innermost first. `after` has no tags where
-- `currentChild` is the end.
pub record SimpleXml : Type 0 where
  pub name : Bytes
  pub attribs : List (Bytes × Bytes)
  pub text : Bytes
  pub before : Tags
  pub after : Tags
  pub found : Bool
  pub outer : List Around

pub data Failure : Type 0 where
  empty_tag_name only_one_root no_tag_selected already_lowest : Failure

-- What a call does: an exception, the use of an iterator that is the end, or another state.
pub data Moved : Type 0 where
  refused : Failure → Moved
  undefined : Moved
  moved : SimpleXml → Moved

-- The tags of the first list behind one another in front of the second, the first one last.
unfoldable pub onto : Tags → Tags → Tags
onto no_tags ts = ts
onto (tags t before) ts = onto before (tags t ts)

abbrev pub children : SimpleXml → Tags
children x = onto x.before x.after

abbrev pub new_root : SimpleXml
new_root = record {
  name = codes "BOGUSROOT";
  attribs = [];
  text = [];
  before = no_tags;
  after = no_tags;
  found = false;
  outer = [];
}

abbrev pub reset_current_child : SimpleXml → SimpleXml
reset_current_child x = record x { before = no_tags; after = children x; found = false }

-- `++currentChild`, unless it is the end.
abbrev pub next_child : SimpleXml → SimpleXml
next_child x = elim x.after [
  | no_tags ↦ x
  | tags t ts ↦ record x { before = tags t x.before; after = ts }
]

abbrev pub past_found : SimpleXml → SimpleXml
past_found x = if x.found then next_child x else x

abbrev pub is_named : Bytes → Tag → Bool
is_named wanted (tag name attribs text ts) = same name wanted

-- The loop of `findChild`: where it stops.
unfoldable pub find_loop : Bytes → Tags → Tags → Tags × Tags
find_loop wanted before no_tags = (before, no_tags)
find_loop wanted before (tags t ts) =
    let rest = find_loop wanted (tags t before) ts in
    if is_named wanted t then (before, tags t ts) else rest

abbrev pub is_end : Tags → Bool
is_end no_tags = true
is_end (tags t ts) = false

-- `findChild`, which leaves `found` alone where there is no such child.
unfoldable pub find_child : Bytes → SimpleXml → SimpleXml × Bool
find_child wanted x =
    let start = past_found x in
    let place = find_loop wanted start.before start.after in
    let there = record start { before = place.0; after = place.1 } in
    if is_end (place.1) then (there, false) else (record there { found = true }, true)

unfoldable pub get_next_child : SimpleXml → SimpleXml × Bool
get_next_child x =
    let start = past_found x in
    (record start { found = not (is_end start.after) }, not (is_end start.after))

unfoldable pub step_in : SimpleXml → Moved
step_in x = elim x.after [
  | no_tags ↦ undefined
  | tags t ts ↦ elim t [
    | tag name attribs text kids ↦ moved record {
      name = name;
      attribs = attribs;
      text = text;
      before = no_tags;
      after = kids;
      found = false;
      outer =
          record {
            name = x.name;
            attribs = x.attribs;
            text = x.text;
            before = x.before;
            after = ts;
          }
          ∷ x.outer;
    }
  ]
]

-- The current tag with all its children.
abbrev pub current : SimpleXml → Tag
current x = tag x.name x.attribs x.text (children x)

unfoldable pub step_out : SimpleXml → Moved
step_out x = elim x.outer [
  | [] ↦ refused already_lowest
  | p ∷ outer ↦ moved record {
    name = p.name;
    attribs = p.attribs;
    text = p.text;
    before = p.before;
    after = tags (current x) p.after;
    found = true;
    outer = outer;
  }
]

abbrev pub is_root : SimpleXml → Bool
is_root x = elim x.outer [ [] ↦ true | p ∷ outer ↦ false ]

-- The tags of a list in the opposite order.
abbrev pub reversed : Tags → Tags
reversed ts = onto ts no_tags

unfoldable pub add_tag : Bytes → Bytes → SimpleXml → Moved
add_tag name text x =
    if is_empty name
    then refused empty_tag_name
    else if is_root x && not (is_end (children x))
    then refused only_one_root
    else moved (record x {
      before = reversed (children x);
      after = tags (tag name [] text no_tags) no_tags;
    })

unfoldable pub add_attrib : Bytes → Bytes → SimpleXml → Moved
add_attrib name value x =
    if is_root x
    then refused no_tag_selected
    else moved (record x { attribs = x.attribs ++ (name, value) ∷ [] })

abbrev pub with_attrib : Bytes → Bytes → Tag → Tag
with_attrib name value (tag n attribs text ts) = tag n (attribs ++ (name, value) ∷ []) text ts

unfoldable pub add_child_attrib : Bytes → Bytes → SimpleXml → Moved
add_child_attrib name value x = elim x.after [
  | no_tags ↦ undefined
  | tags t ts ↦ moved (record x { after = tags (with_attrib name value t) ts })
]

abbrev pub add_child_attrib_if_not_empty : Bytes → Bytes → SimpleXml → Moved
add_child_attrib_if_not_empty name value x =
    if not (is_empty value) then add_child_attrib name value x else moved x

-- `Tag::getAttrib`
unfoldable pub get_attrib : List (Bytes × Bytes) → Bytes → Bytes → Bytes
get_attrib [] name default = default
get_attrib ((n, value) ∷ attribs) name default =
    if same n name then value else get_attrib attribs name default

-- What is asked of a child.
abbrev pub get_child_attrib : Bytes → Bytes → Tag → Bytes
get_child_attrib name default (tag n attribs text ts) = get_attrib attribs name default

unfoldable pub get_int_child_attrib : Bytes → Bytes → Tag → ℕ
get_int_child_attrib name default t = to_int (get_child_attrib name default t)

unfoldable pub get_bool_child_attrib : Bytes → Tag → Bool
get_bool_child_attrib name t =
    let value = get_child_attrib name [] t in not (is_empty value) && get_or value 0 0 == b'1'

-- The tag with the tags around it.
unfoldable pub within : Tag → List Around → Tag
within t [] = t
within t (p ∷ outer) = within (tag p.name p.attribs p.text (onto p.before (tags t p.after))) outer

-- The whole tree, from the bogus root.
abbrev pub document : SimpleXml → Tag
document x = within (current x) x.outer

abbrev pub first_child : Tag → Bytes
first_child (tag name attribs text no_tags) = []
first_child (tag name attribs text (tags t ts)) = to_xml 0 t

-- `toXML()`
unfoldable pub print : SimpleXml → Bytes
print x = first_child (document x)
