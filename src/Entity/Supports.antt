-- ===== src/Entity/Supports.antt =====
-- adchpp/Entity.cpp: the features of SUP, and those of the field SU, by which commands are filtered.
pub mod Laws
pub mod Filters
pub mod Removing
use adchubd.Base.{
  ℕ, zero, suc, ◌+◌, ◌-◌, ◌*◌, ◌%◌, Bool, true, false, not, ◌&&◌, List, [], ◌∷◌, ◌++◌, Option, none,
  some, Bytes, ◌==◌, ltb, leb, if◌then◌else◌, length, drop, is_empty, codes, take, get_or,
}
use adchubd.AdcCommand.{AdcCommand, to_field, to_four_cc, from_sid}
use adchubd.Entity.{Entity}
use adchubd.Entity.Fields.{su, lookup, assign}

-- `std::find(…) != end`
unfoldable pub contains : ℕ → List ℕ → Bool
contains x [] = false
contains x (y ∷ ys) = if y == x then true else contains x ys

-- `erase` at the first place found.
unfoldable pub erase_first : ℕ → List ℕ → List ℕ
erase_first x [] = []
erase_first x (y ∷ ys) = if y == x then ys else y ∷ erase_first x ys

unfoldable pub add_supports : Entity → ℕ → Entity × Bool
add_supports e feature =
    if contains feature e.supports
    then (e, false)
    else (record e { supports = e.supports ++ feature ∷ []; sup = none }, true)

unfoldable pub remove_supports : Entity → ℕ → Entity × Bool
remove_supports e feature =
    if contains feature e.supports
    then (record e { supports = erase_first feature e.supports; sup = none }, true)
    else (e, false)

abbrev pub has_support : Entity → ℕ → Bool
has_support e feature = contains feature e.supports

-- One round of `updateSupports`.
unfoldable pub update_support : Entity → Bytes → Entity
update_support e str =
    if not (length str == 6)
    then e
    else if get_or str 0 0 == b'A' && get_or str 1 0 == b'D'
    then (add_supports e (to_four_cc (drop 2 str))).0
    else if get_or str 0 0 == b'R' && get_or str 1 0 == b'M'
    then (remove_supports e (to_four_cc (drop 2 str))).0
    else e

unfoldable pub update_supports_loop : Entity → List Bytes → Entity
update_supports_loop e [] = e
update_supports_loop e (p ∷ ps) = update_supports_loop (update_support e p) ps

unfoldable pub update_supports : Entity → AdcCommand → Entity
update_supports e cmd = update_supports_loop e cmd.parameters

abbrev pub has_client_support : Entity → ℕ → Bool
has_client_support e feature = contains feature e.filters

-- One round of the loop of `isFiltered`, at the first byte of an entry.
unfoldable pub drops : List ℕ → Bytes → Bool
drops filters entry =
    if get_or entry 0 0 == b'-'
    then contains (to_four_cc (drop 1 entry)) filters
    else if get_or entry 0 0 == b'+'
    then not (contains (to_four_cc (drop 1 entry)) filters)
    else false

unfoldable pub filter_loop : ℕ → List ℕ → Bytes → Bool
filter_loop fuel filters [] = false
filter_loop zero filters (c ∷ s) = false
filter_loop (suc fuel) filters (c ∷ s) =
    let rest = filter_loop fuel filters (drop 5 (c ∷ s)) in
    if drops filters (c ∷ s) then true else rest

unfoldable pub is_filtered : Entity → Bytes → Bool
is_filtered e features =
    if is_empty e.filters then true else filter_loop (length features) e.filters features

-- `string::find`: the first position at which `needle` stands.
unfoldable pub begins : Bytes → Bytes → Bool
begins [] s = true
begins (c ∷ n) [] = false
begins (c ∷ n) (d ∷ s) = c == d && begins n s

unfoldable pub find_bytes : Bytes → Bytes → Option ℕ
find_bytes needle [] = if begins needle [] then some 0 else none
find_bytes needle (c ∷ s) =
    if begins needle (c ∷ s)
    then some 0
    else elim (find_bytes needle s) [ none ↦ none | some p ↦ some (suc p) ]

abbrev pub ends_in_comma : Bytes → Bool
ends_in_comma [] = false
ends_in_comma (c ∷ []) = c == b','
ends_in_comma (c ∷ d ∷ s) = ends_in_comma (d ∷ s)

-- `removeClientSupport` throws `std::out_of_range` where `erase` starts behind the end, and reads
-- through `end()` where there is no field SU; both are faults.
pub data Outcome : Type 0 where
  done : Entity → Bool → Outcome
  fault : Outcome

-- `infSupports.erase(n - 1)` for a vector of `n` elements: `n - 1` wraps around at 0.
unfoldable pub cut_after : ℕ → Bytes → Option Bytes
cut_after n s =
    if n == 0 then none else if ltb (length s) (n - 1) then none else some (take (n - 1) s)

-- The change of the text of the field SU.
unfoldable pub strip_feature : ℕ → ℕ → Bytes → Option Bytes
strip_feature count feature value = elim (find_bytes (from_sid feature) value) [
  | none ↦ none
  | some p ↦
      let left = take p value ++ drop (p + 5) value in
      if not (is_empty left) && ends_in_comma left then cut_after count left else some left
]

unfoldable pub remove_client_support : Entity → ℕ → Outcome
remove_client_support e feature =
    if not (contains feature e.filters) then done e false else elim (lookup su e.fields) [
      | none ↦ fault
      | some value ↦ elim (strip_feature (length e.supports) feature value) [
        | none ↦ fault
        | some left ↦
            done
              (record e {
                filters = erase_first feature e.filters;
                fields = assign su left e.fields;
              })
              true
      ]
    ]
