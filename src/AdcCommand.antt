-- ===== src/AdcCommand.antt =====
-- adchpp/AdcCommand.h and adchpp/AdcCommand.cpp: an ADC command, its codes and its accessors.
-- A `char` is its byte, and a `string` is a list of bytes. The casts of the source between bytes
-- and integers read the lowest byte first, as the union of `cmd` and `cmdInt` supposes.
pub mod Words
pub mod Codes
pub mod Parse
pub mod Print
pub mod Params
pub mod RoundTrip
use adchubd.Base.{
  ℕ, suc, ◌+◌, ◌-◌, ◌*◌, ◌/◌, ◌%◌, ◌^◌, ◌<◌, Bool, true, false, not, ◌&&◌, ◌||◌, List, [], ◌∷◌,
  ◌++◌, Option, none, some, Bytes, ◌==◌, if◌then◌else◌, get_or, length, ltb, codes,
}
use adchubd.StrUtil.{to_string}

pub data Priority : Type 0 where
  normal low ignore : Priority

abbrev pub hub_sid : ℕ
hub_sid = 2 ^ 32 - 1

abbrev pub invalid_sid : ℕ
invalid_sid = 2 ^ 32 - 2

pub record AdcCommand : Type 0 where
  pub parameters : List Bytes
  pub features : Bytes
  pub buffer : Option Bytes
  pub cmd_int : ℕ
  pub priority : Priority
  pub from : ℕ
  pub to : ℕ
  pub type : ℕ

-- `from_sid` writes the four bytes of an integer, `to_sid` reads four bytes. What stands behind
-- the end of the string is read as the terminating zero.
unfoldable pub from_sid : ℕ → Bytes
from_sid w = (w % 256) ∷ (w / 256 % 256) ∷ (w / 65536 % 256) ∷ (w / 16777216 % 256) ∷ []

unfoldable pub to_sid : Bytes → ℕ
to_sid s = get_or s 0 0 + get_or s 1 0 * 256 + get_or s 2 0 * 65536 + get_or s 3 0 * 16777216

-- `toCMD(a, b, c)`.
abbrev pub to_cmd : ℕ → ℕ → ℕ → ℕ
to_cmd a b c = a + b * 256 + c * 65536

-- `toField` reads two bytes of a name.
abbrev pub to_field : Bytes → ℕ
to_field s = get_or s 0 0 + get_or s 1 0 * 256

-- `toFourCC` reads four bytes, as `to_sid` does.
abbrev pub to_four_cc : Bytes → ℕ
to_four_cc s = to_sid s

-- The constructor `AdcCommand(cmd, type, from)`.
abbrev pub new_command : ℕ → ℕ → ℕ → AdcCommand
new_command cmd type from = record {
  parameters = [];
  features = [];
  buffer = none;
  cmd_int = cmd;
  priority = normal;
  from = from;
  to = invalid_sid;
  type = type;
}

-- The command that the constructors from a line hand to `parse`.
abbrev pub blank : AdcCommand
blank = new_command 0 0 invalid_sid

unfoldable pub get_four_cc : AdcCommand → Bytes
get_four_cc c =
    c.type ∷ (c.cmd_int % 256) ∷ (c.cmd_int / 256 % 256) ∷ (c.cmd_int / 65536 % 256) ∷ []

abbrev pub reset_buffer : AdcCommand → AdcCommand
reset_buffer c = record c { buffer = none }

unfoldable pub add_param : AdcCommand → Bytes → AdcCommand
add_param c p = reset_buffer (record c { parameters = c.parameters ++ p ∷ [] })

abbrev pub add_named : AdcCommand → Bytes → Bytes → AdcCommand
add_named c name value = add_param c (name ++ value)

-- Values of `Severity` and of `Error`.
abbrev pub sev_success : ℕ
sev_success = 0

abbrev pub sev_recoverable : ℕ
sev_recoverable = 1

abbrev pub sev_fatal : ℕ
sev_fatal = 2

abbrev pub error_protocol_generic : ℕ
error_protocol_generic = 40

-- The constructor `AdcCommand(sev, err, desc)`: a status message of the hub.
unfoldable pub status : ℕ → ℕ → Bytes → AdcCommand
status sev err desc =
    let code = if sev == 0 && err == 0 then codes "000" else to_string (sev * 100 + err) in
    add_param (add_param (new_command (to_cmd b'S' b'T' b'A') b'I' hub_sid) code) desc

-- `getParam(n)`: empty behind the last parameter.
abbrev pub param_at : AdcCommand → ℕ → Bytes
param_at c n = if ltb n (length c.parameters) then get_or c.parameters n [] else []

-- The types that a command can have.
abbrev pub is_type : ℕ → Bool
is_type t =
    t == b'B'
    || t == b'C'
    || t == b'D'
    || t == b'E'
    || t == b'F'
    || t == b'I'
    || t == b'H'
    || t == b'U'

abbrev pub has_from : ℕ → Bool
has_from t = t == b'B' || t == b'D' || t == b'E' || t == b'F'

abbrev pub has_to : ℕ → Bool
has_to t = t == b'D' || t == b'E'
