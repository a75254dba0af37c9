-- ===== src/Entity/Fields.antt =====
-- adchpp/Entity.cpp: the INF fields of an entity.
pub mod Laws
use adchubd.Base.{
  ℕ, zero, suc, ◌+◌, ◌*◌, ◌%◌, Bool, true, false, not, ◌&&◌, List, [], ◌∷◌, ◌++◌, Option, none,
  some, Bytes, ◌==◌, ltb, leb, if◌then◌else◌, length, drop, is_empty, codes, take,
}
use adchubd.AdcCommand.{AdcCommand, to_field, to_four_cc}
use adchubd.Entity.{Entity}

-- `std::map<uint16_t, string>`, by increasing keys.
unfoldable pub lookup : ℕ → List (ℕ × Bytes) → Option Bytes
lookup k [] = none
lookup k ((j, v) ∷ m) = if j == k then some v else lookup k m

unfoldable pub assign : ℕ → Bytes → List (ℕ × Bytes) → List (ℕ × Bytes)
assign k v [] = (k, v) ∷ []
assign k v ((j, w) ∷ m) =
    if j == k then (k, v) ∷ m else if ltb k j then (k, v) ∷ (j, w) ∷ m else (j, w) ∷ assign k v m

unfoldable pub remove : ℕ → List (ℕ × Bytes) → List (ℕ × Bytes)
remove k [] = []
remove k ((j, w) ∷ m) = if j == k then m else (j, w) ∷ remove k m

abbrev pub su : ℕ
su = to_field (codes "SU")

abbrev pub pd : ℕ
pd = to_field (codes "PD")

abbrev pub or_empty : Option Bytes → Bytes
or_empty none = []
or_empty (some v) = v

unfoldable pub get_field : Entity → Bytes → Bytes
get_field e name = or_empty (lookup (to_field name) e.fields)

unfoldable pub has_field : Entity → Bytes → Bool
has_field e name = elim (lookup (to_field name) e.fields) [ none ↦ false | some v ↦ true ]

-- `for (i = 0; i < size; i += 5) push_back(toFourCC(data + i))`: a code at every fifth byte. The
-- fuel is the length, which the position passes before that many rounds.
unfoldable pub four_ccs : ℕ → Bytes → List ℕ
four_ccs fuel [] = []
four_ccs zero (c ∷ s) = []
four_ccs (suc fuel) (c ∷ s) = to_four_cc (c ∷ s) ∷ four_ccs fuel (drop 5 (c ∷ s))

-- The filters that a value of the field SU stands for.
unfoldable pub filters_of : Bytes → List ℕ
filters_of value = if (length value + 1) % 5 == 0 then four_ccs (length value) value else []

unfoldable pub set_field : Entity → Bytes → Bytes → Entity
set_field e name value = record e {
  filters = if to_field name == su then filters_of value else e.filters;
  fields =
      if is_empty value
      then remove (to_field name) e.fields
      else assign (to_field name) value e.fields;
  inf = none;
}

-- `isFieldSupported`
abbrev pub is_field_supported : ℕ → Bool
is_field_supported code = not (code == pd)

unfoldable pub update_field : Entity → Bytes → Entity
update_field e p =
    if ltb (length p) 2
    then e
    else if is_field_supported (to_field p)
    then set_field e p (drop 2 p)
    else e

unfoldable pub update_loop : Entity → List Bytes → Entity
update_loop e [] = e
update_loop e (p ∷ ps) = update_loop (update_field e p) ps

unfoldable pub update_fields : Entity → AdcCommand → Entity
update_fields e cmd = update_loop e cmd.parameters
