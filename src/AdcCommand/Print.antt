-- ===== src/AdcCommand/Print.antt =====
-- adchpp/AdcCommand.cpp: `escape`, `toString` and `getBuffer`.
use adchubd.Base.{ℕ, List, [], ◌∷◌, ◌++◌, none, some, Bytes, ◌==◌, if◌then◌else◌}
use adchubd.AdcCommand.{AdcCommand, from_sid, has_from, has_to}

-- What one round of the loop appends.
unfoldable pub escape_byte : ℕ → Bytes
escape_byte c =
    if c == b' '
    then b'\\' ∷ b's' ∷ []
    else if c == b'\n'
    then b'\\' ∷ b'n' ∷ []
    else if c == b'\\'
    then b'\\' ∷ b'\\' ∷ []
    else c ∷ []

-- `escape(s, out)` appends to `out`.
unfoldable pub escape : Bytes → Bytes → Bytes
escape [] out = out
escape (c ∷ s) out = escape s (out ++ escape_byte c)

-- `tmp += cmdChar` appends the bytes of `cmdInt` before its first zero byte. Where all four are
-- set the source runs on into the next field; no command code sets the fourth.
unfoldable pub up_to_zero : Bytes → Bytes
up_to_zero [] = []
up_to_zero (c ∷ s) = if c == 0 then [] else c ∷ up_to_zero s

unfoldable pub append_params : List Bytes → Bytes → Bytes
append_params [] tmp = tmp
append_params (p ∷ ps) tmp = append_params ps (escape p (tmp ++ b' ' ∷ []))

-- `toString` where no buffer is kept.
unfoldable pub render : AdcCommand → Bytes
render c =
    let head = (c.type ∷ []) ++ up_to_zero (from_sid c.cmd_int) in
    let sent = if has_from c.type then head ++ (b' ' ∷ from_sid c.from) else head in
    let addressed = if has_to c.type then sent ++ (b' ' ∷ from_sid c.to) else sent in
    let featured = if c.type == b'F' then addressed ++ (b' ' ∷ c.features) else addressed in
    append_params c.parameters featured ++ b'\n' ∷ []

unfoldable pub to_string : AdcCommand → Bytes
to_string c = elim c.buffer [ some b ↦ b | none ↦ render c ]

-- `getBuffer` fills the kept buffer and hands it out.
unfoldable pub get_buffer : AdcCommand → AdcCommand × Bytes
get_buffer c = elim c.buffer [
  | some b ↦ (c, b)
  | none ↦ (record c { buffer = some (to_string c) }, to_string c)
]
