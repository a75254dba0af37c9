-- ===== src/SimpleXml.antt =====
-- baselib/SimpleXML.cpp and baselib/SimpleXML.h: the escapes of XML texts and attributes, and the
-- printing of a tree of tags. Only the encoding UTF-8 is considered.
pub mod Escaped
pub mod Tree
pub mod Loading
use adchubd.Base.{
  ℕ, zero, suc, ◌+◌, ◌-◌, Bool, true, false, ◌&&◌, ◌||◌, List, [], ◌∷◌, ◌++◌, Option, none, some,
  Bytes, ◌==◌, same, if◌then◌else◌, length, take, drop, is_empty, codes,
}

-- Whether a character is one of `chars`.
abbrev pub is_special : Bool → ℕ → Bool
is_special is_attrib c =
    c == b'<' || c == b'&' || c == b'>' || (is_attrib && (c == b'\'' || c == b'"'))

-- The `switch` of `escape`.
unfoldable pub escape_char : ℕ → Bytes
escape_char c =
    if c == b'<'
    then codes "&lt;"
    else if c == b'&'
    then codes "&amp;"
    else if c == b'>'
    then codes "&gt;"
    else if c == b'\''
    then codes "&apos;"
    else codes "&quot;"

-- `escape` of a text to be written.
unfoldable pub escape : Bool → Bytes → Bytes
escape is_attrib [] = []
escape is_attrib (c ∷ s) =
    (if is_special is_attrib c then escape_char c else c ∷ []) ++ escape is_attrib s

-- `str.compare(i + 1, n, name, n) == 0`, where `s` is what stands behind the ampersand.
abbrev pub begins : Bytes → Bytes → Bool
begins name s = same (take (length name) s) name

-- What an ampersand stands for: the character, and the number of characters behind the ampersand
-- that are replaced.
unfoldable pub entity : Bool → Bytes → ℕ × ℕ
entity is_attrib s =
    if begins (codes "lt;") s
    then (b'<', 3)
    else if begins (codes "amp;") s
    then (b'&', 4)
    else if begins (codes "gt;") s
    then (b'>', 3)
    else if is_attrib && begins (codes "apos;") s
    then (b'\'', 5)
    else if is_attrib && begins (codes "quot;") s
    then (b'"', 5)
    else (b'&', 0)

-- The loop of `escape` of a text that has been read. Each round passes a character, so that the length
-- is enough fuel.
unfoldable pub unescape_loop : ℕ → Bool → Bytes → Bytes
unescape_loop zero is_attrib s = s
unescape_loop (suc fuel) is_attrib [] = []
unescape_loop (suc fuel) is_attrib (c ∷ s) = elim (c == b'&') [
  | false ↦ c ∷ unescape_loop fuel is_attrib s
  | true ↦ let e = entity is_attrib s in e.0 ∷ unescape_loop fuel is_attrib (drop (e.1) s)
]

unfoldable pub unescape : Bool → Bytes → Bytes
unescape is_attrib s = unescape_loop (length s) is_attrib s

unfoldable pub any_special : Bool → Bytes → Bool
any_special is_attrib [] = false
any_special is_attrib (c ∷ s) = is_special is_attrib c || any_special is_attrib s

-- `needsEscape`
unfoldable pub needs_escape : Bool → Bool → Bytes → Bool
needs_escape is_attrib is_loading s = if is_loading then has_amp s else any_special is_attrib s
  where
    has_amp : Bytes → Bool
    has_amp [] = false
    has_amp (c ∷ t) = c == b'&' || has_amp t

abbrev pub escaped : Bool → Bytes → Bytes
escaped is_attrib s = if needs_escape is_attrib false s then escape is_attrib s else s

-- A tag without its parent, with its children in a list of their own.
mutual
  pub data Tag : Type 0 where
    tag : Bytes → List (Bytes × Bytes) → Bytes → Tags → Tag

  pub data Tags : Type 0 where
    no_tags : Tags
    tags : Tag → Tags → Tags

-- `appendAttribString`, whose last act is to erase the last character.
unfoldable pub attrib_string : List (Bytes × Bytes) → Bytes
attrib_string [] = []
attrib_string ((name, value) ∷ attribs) =
    name ++ (codes "=\"" ++ (escaped true value ++ (codes "\" " ++ attrib_string attribs)))

abbrev pub append_attrib_string : Bytes → List (Bytes × Bytes) → Bytes
append_attrib_string tmp attribs =
    (λ (t : Bytes). take (length t - 1) t) (tmp ++ attrib_string attribs)

unfoldable pub tabs : ℕ → Bytes
tabs zero = []
tabs (suc n) = b'\t' ∷ tabs n

abbrev pub is_leaf : Tags → Bool
is_leaf no_tags = true
is_leaf (tags t ts) = false

abbrev pub opening : ℕ → Bytes → List (Bytes × Bytes) → Bytes
opening indent name attribs =
    append_attrib_string (tabs indent ++ (b'<' ∷ (name ++ b' ' ∷ []))) attribs

abbrev pub closing : Bytes → Bytes
closing name = codes "</" ++ (name ++ codes ">\r\n")

-- `toXML`: what is written to the stream.
unfoldable mutual
  unfolding attrib_string tabs needs_escape

  pub to_xml : ℕ → Tag → Bytes
  to_xml indent (tag name attribs text no_tags) =
      if is_empty text
      then opening indent name attribs ++ codes "/>\r\n"
      else opening indent name attribs ++ (b'>' ∷ (escaped false text ++ closing name))
  to_xml indent (tag name attribs text (tags t ts)) =
      opening indent name attribs
      ++ (codes ">\r\n" ++ (to_xml_all (suc indent) (tags t ts) ++ (tabs indent ++ closing name)))

  pub to_xml_all : ℕ → Tags → Bytes
  to_xml_all indent no_tags = []
  to_xml_all indent (tags t ts) = to_xml indent t ++ to_xml_all indent ts
