-- ===== src/SimpleXmlReader.antt =====
-- baselib/SimpleXMLReader.h and baselib/SimpleXMLReader.cpp: the reader of XML, its state and what its
-- functions have in common. The buffer is what is left of it from `bufPos` on, so that to erase what has
-- been read does nothing; `pos` tells how far the reader is.
pub mod Elements
pub mod Texts
pub mod Declaration
pub mod Process
pub mod Nested
use adchubd.Base.{
  ℕ, zero, suc, ◌+◌, ◌-◌, Bool, true, false, not, ◌&&◌, ◌||◌, List, [], ◌∷◌, ◌++◌, Option, none,
  some, Bytes, ltb, leb, ◌==◌, if◌then◌else◌, length, drop, get_or, codes,
}
use adchubd.StrUtil.{to_string}

pub data ParseState : Type 0 where
  start : ParseState
  decl_version decl_version_eq decl_version_num : ParseState
  decl_encoding decl_encoding_eq decl_encoding_name : ParseState
  decl_encoding_name_apos decl_encoding_name_quot : ParseState
  decl_standalone decl_standalone_eq decl_standalone_yes decl_end : ParseState
  element_name element_attr element_attr_name element_attr_eq : ParseState
  element_attr_value element_attr_value_quot element_attr_value_apos : ParseState
  element_end_simple element_end element_end_end : ParseState
  comment cdata content end : ParseState

-- What the callback is told.
pub data Told : Type 0 where
  start_tag : Bytes → List (Bytes × Bytes) → Bool → Told
  end_tag : Bytes → Bytes → Told

-- `elements`, `attribs` and `told` have the newest first.
pub record Reader : Type 0 where
  pub buf : Bytes
  pub pos : ℕ
  pub attribs : List (Bytes × Bytes)
  pub value : Bytes
  pub encoding : Bytes
  pub charset : ℕ
  pub state : ParseState
  pub elements : List Bytes
  pub told : List Told

-- A function throws, never ends, or returns a Boolean.
pub data Outcome : Type 0 where
  thrown : Bytes → Outcome
  hangs : Outcome
  went : Bool → Reader → Outcome

abbrev pub max_name_size : ℕ
max_name_size = 260

abbrev pub max_value_size : ℕ
max_value_size = 65536

abbrev pub max_nesting : ℕ
max_nesting = 256

-- `Text::CHARSET_UTF8`
abbrev pub charset_utf8 : ℕ
charset_utf8 = 8

abbrev pub is_space : ℕ → Bool
is_space c = c == 0x20 || c == 0x09 || c == 0x0d || c == 0x0a

abbrev pub in_range : ℕ → ℕ → ℕ → Bool
in_range c a b = leb a c && leb c b

abbrev pub is_name_start_char : ℕ → Bool
is_name_start_char c = c == b':' || in_range c b'A' b'Z' || c == b'_' || in_range c b'a' b'z'

abbrev pub is_name_char : ℕ → Bool
is_name_char c = is_name_start_char c || c == b'-' || c == b'.' || in_range c b'0' b'9'

abbrev pub need_chars : ℕ → Reader → Bool
need_chars n r = leb n (length r.buf)

-- Behind the end of a string the zero is read that ends it.
abbrev pub char_at : Reader → ℕ → ℕ
char_at r n = get_or r.buf n 0

abbrev pub advance_pos : ℕ → Reader → Reader
advance_pos n r = record r { buf = drop n r.buf; pos = r.pos + n }

abbrev pub enter : ParseState → Reader → Reader
enter st r = record r { state = st }

abbrev pub error : Reader → Bytes → Outcome
error r message = thrown (to_string r.pos ++ (codes ": " ++ message))

-- `append`: the text goes on in `k`, unless it gets too long.
abbrev pub append : Reader → Bytes → ℕ → Bytes → (Bytes → Outcome) → Outcome
append r str max_len more k =
    if ltb max_len (length str + length more)
    then error r (codes "Buffer overflow")
    else k (str ++ more)

-- `a || b`
abbrev pub or_else : Outcome → (Reader → Outcome) → Outcome
or_else (thrown e) next = thrown e
or_else hangs next = hangs
or_else (went true r) next = went true r
or_else (went false r) next = next r

-- The first bytes that a test holds of, and the others.
unfoldable pub span : (ℕ → Bool) → Bytes → Bytes × Bytes
span p [] = ([], [])
span p (c ∷ s) = let rest = span p s in if p c then (c ∷ rest.0, rest.1) else ([], c ∷ s)

unfoldable pub agrees : Bytes → Bytes → Bool
agrees [] s = true
agrees (l ∷ lit) [] = true
agrees (l ∷ lit) (c ∷ s) = c == l && agrees lit s

-- `literal` with a space behind it, where `rest` is what follows the literal.
abbrev pub literal_space : ℕ → Bytes → ParseState → Reader → Outcome
literal_space len [] st r = went true r
literal_space len (c ∷ rest) st r =
    if is_space c then went true (enter st (advance_pos (len + 1) r)) else went false r

unfoldable pub literal : Bytes → Bool → ParseState → Reader → Outcome
literal lit with_space st r =
    if not (agrees lit r.buf)
    then went false r
    else if ltb (length r.buf) (length lit)
    then went true r
    else if with_space
    then literal_space (length lit) (drop (length lit) r.buf) st r
    else went true (enter st (advance_pos (length lit) r))

unfoldable pub character : ℕ → ParseState → Reader → Outcome
character c st r =
    if not (need_chars 1 r)
    then went true r
    else if char_at r 0 == c
    then went true (enter st (advance_pos 1 r))
    else went false r

-- The loop of `skipSpace` on the buffer.
unfoldable pub skip_loop : Bool → Bytes → Bool → Reader → Outcome
skip_loop store [] skipped r = went skipped r
skip_loop store (c ∷ s) skipped r =
    let rest =
      skip_loop store s true
        (advance_pos 1 (if store then record r { value = r.value ++ c ∷ [] } else r)) in
    if is_space c
    then (if store && ltb max_value_size (length r.value + 1)
        then error r (codes "Buffer overflow")
        else rest)
    else went skipped r

unfoldable pub skip_space : Bool → Reader → Outcome
skip_space store r = if not (need_chars 1 r) then went true r else skip_loop store r.buf false r

unfoldable pub space_or_error : Bytes → Reader → Outcome
space_or_error message r = or_else (skip_space false r) (λ r'. error r' message)
