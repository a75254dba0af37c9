-- ===== src/Entity/Info.antt =====
-- adchpp/Entity.cpp: `getAllFields`, `getINF` and `getSUP`, with the buffers that they keep.
pub mod Cache
pub mod Stale
use adchubd.Base.{
  ℕ, ◌+◌, ◌*◌, ◌%◌, ◌/◌, Bool, true, false, List, [], ◌∷◌, ◌++◌, Option, none, some, Bytes, ◌==◌,
  if◌then◌else◌, codes, is_empty, not,
}
use adchubd.AdcCommand.{AdcCommand, new_command, add_named, hub_sid, to_cmd, from_sid}
use adchubd.AdcCommand.Print.{to_string}
use adchubd.Entity.{Entity}

abbrev pub from_field : ℕ → Bytes
from_field code = (code % 256) ∷ (code / 256 % 256) ∷ []

abbrev pub cmd_inf : ℕ
cmd_inf = to_cmd b'I' b'N' b'F'

abbrev pub cmd_sup : ℕ
cmd_sup = to_cmd b'S' b'U' b'P'

unfoldable pub add_fields : AdcCommand → List (ℕ × Bytes) → AdcCommand
add_fields cmd [] = cmd
add_fields cmd ((code, value) ∷ fs) = add_fields (add_named cmd (from_field code) value) fs

unfoldable pub get_all_fields : Entity → AdcCommand → AdcCommand × Bool
get_all_fields e cmd = (add_fields cmd e.fields, not (is_empty e.fields))

unfoldable pub add_features : AdcCommand → List ℕ → AdcCommand
add_features cmd [] = cmd
add_features cmd (f ∷ fs) = add_features (add_named cmd (codes "AD") (from_sid f)) fs

-- The hub itself sends with the type I, everybody else is broadcast.
abbrev pub own_type : Entity → ℕ
own_type e = if e.sid == hub_sid then b'I' else b'B'

-- What `getINF` and `getSUP` write when no buffer is kept.
unfoldable pub render_inf : Entity → Bytes
render_inf e = to_string (get_all_fields e (new_command cmd_inf (own_type e) e.sid)).0

unfoldable pub render_sup : Entity → Bytes
render_sup e = to_string (add_features (new_command cmd_sup (own_type e) e.sid) e.supports)

unfoldable pub kept_inf : Entity → Option Bytes → Entity × Bytes
kept_inf e (some b) = (e, b)
kept_inf e none = (record e { inf = some (render_inf e) }, render_inf e)

unfoldable pub get_inf : Entity → Entity × Bytes
get_inf e = kept_inf e e.inf

unfoldable pub kept_sup : Entity → Option Bytes → Entity × Bytes
kept_sup e (some b) = (e, b)
kept_sup e none = (record e { sup = some (render_sup e) }, render_sup e)

unfoldable pub get_sup : Entity → Entity × Bytes
get_sup e = kept_sup e e.sup
