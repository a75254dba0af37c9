-- ===== src/AdcCommand/Params.antt =====
-- adchpp/AdcCommand.cpp: `getParam`, `delParam` and `hasFlag`, which look for a parameter by its two
-- letters from a given position on. The comparison reads two bytes of every parameter; behind the
-- terminating zero of an empty one the model reads another zero.
pub mod Laws
use adchubd.Base.{
  ℕ, zero, suc, ◌+◌, ◌*◌, Bool, true, false, ◌&&◌, List, [], ◌∷◌, ◌++◌, Option, none, some, Bytes,
  ◌==◌, if◌then◌else◌, get_or, length, drop, take,
}
use adchubd.AdcCommand.{AdcCommand, to_field, reset_buffer}

abbrev pub is_named : Bytes → Bytes → Bool
is_named name p = to_field name == to_field p

-- The loop of `getParam`, from the parameter at `start` on: the value without its name.
unfoldable pub find_param : Bytes → List Bytes → Option Bytes
find_param name [] = none
find_param name (p ∷ ps) = if is_named name p then some (drop 2 p) else find_param name ps

unfoldable pub get_param : AdcCommand → Bytes → ℕ → Option Bytes
get_param c name start = find_param name (drop start c.parameters)

-- The loop of `delParam`: the parameters without the first one of that name, if there is one.
unfoldable pub erase_param : Bytes → List Bytes → Option (List Bytes)
erase_param name [] = none
erase_param name (p ∷ ps) =
    if is_named name p
    then some ps
    else elim (erase_param name ps) [ none ↦ none | some qs ↦ some (p ∷ qs) ]

unfoldable pub del_param : AdcCommand → Bytes → ℕ → AdcCommand × Bool
del_param c name start = elim (erase_param name (drop start c.parameters)) [
  | none ↦ (c, false)
  | some ps ↦ (reset_buffer (record c { parameters = take start c.parameters ++ ps }), true)
]

-- `hasFlag`: a parameter of that name that is three bytes long and ends in "1".
unfoldable pub find_flag : Bytes → List Bytes → Bool
find_flag name [] = false
find_flag name (p ∷ ps) =
    if is_named name p && (length p == 3 && get_or p 2 0 == b'1') then true else find_flag name ps

unfoldable pub has_flag : AdcCommand → Bytes → ℕ → Bool
has_flag c name start = find_flag name (drop start c.parameters)
