-- ===== src/AdcCommand/Parse.antt =====
-- adchpp/AdcCommand.cpp: `parse`. An exception is a value; the command that `parse` was filling is
-- lost with it, as it is in the constructors that call it.
pub mod Pieces
pub mod Loop
pub mod Safe
use adchubd.Base.{
  ℕ, ◌≡◌, refl, ◌⊎◌, inl, inr, ◌+◌, ◌-◌, ◌*◌, ◌/◌, ◌%◌, Bool, true, false, not, ◌&&◌, [], ◌∷◌, ◌++◌,
  some, Bytes, ◌==◌, if◌then◌else◌, length, take, is_empty,
}
use adchubd.AdcCommand.{AdcCommand, blank, to_cmd, to_sid, hub_sid, is_type, has_from, has_to}
use adchubd.Text.Utf8.{validate_utf8}

pub data ParseError : Type 0 where
  too_short invalid_type missing_space escape_at_eol unknown_escape sid_length : ParseError
  feature_length invalid_utf8 missing_from missing_feature missing_to : ParseError

pub data Result {ℓ} (A : Type ℓ) : Type ℓ where
  ok : A → Result A
  err : ParseError → Result A

infixl 5 ◌>>=◌
abbrev pub ◌>>=◌ {ℓ κ} : {A : Type ℓ} {B : Type κ} → Result A → (A → Result B) → Result B
ok a >>= f = f a
err e >>= f = err e

pub bind_assoc {ℓ κ μ} :
    {A : Type ℓ} {B : Type κ} {C : Type μ} (m : Result A) (f : A → Result B) (g : B → Result C)
    → ((m >>= f) >>= g) ≡ (m >>= λ a. f a >>= g)
bind_assoc (ok a) f g = refl
bind_assoc (err e) f g = refl

pub bind_ext {ℓ κ} :
    {A : Type ℓ} {B : Type κ} (m : Result A) (f g : A → Result B)
    → ((a : A) → f a ≡ g a)
    → (m >>= f) ≡ (m >>= g)
bind_ext (ok a) f g h = h a
bind_ext (err e) f g h = refl

pub Result-cases {ℓ} :
    {A : Type ℓ} (r : Result A) → ((a : A) × (r ≡ ok a)) ⊎ ((e : ParseError) × (r ≡ err e))
Result-cases (ok a) = inl (a, refl)
Result-cases (err e) = inr (e, refl)

-- The variables of `parse`: the command, the parameter that is read, and the three flags.
pub record Scan : Type 0 where
  pub command : AdcCommand
  pub cur : Bytes
  pub to_set : Bool
  pub feature_set : Bool
  pub from_set : Bool

abbrev pub push : Scan → ℕ → Scan
push s c = record s { cur = s.cur ++ c ∷ [] }

abbrev pub clear : Scan → Scan
clear s = record s { cur = [] }

abbrev pub wants_from : Scan → Bool
wants_from s = has_from s.command.type && not s.from_set

abbrev pub wants_to : Scan → Bool
wants_to s = has_to s.command.type && not s.to_set

abbrev pub wants_features : Scan → Bool
wants_features s = s.command.type == b'F' && not s.feature_set

-- The block that a parameter ends with, behind a space and at the end of the line.
unfoldable pub end_param : Scan → Result Scan
end_param s =
    if wants_from s
    then if not (length s.cur == 4)
      then err sid_length
      else ok (record s { command = record (s.command) { from = to_sid s.cur }; from_set = true })
    else if wants_to s
    then if not (length s.cur == 4)
      then err sid_length
      else ok (record s { command = record (s.command) { to = to_sid s.cur }; to_set = true })
    else if wants_features s
    then if not (length s.cur % 5 == 0)
      then err feature_length
      else ok (record s { command = record (s.command) { features = s.cur }; feature_set = true })
    else if not (validate_utf8 s.cur)
    then err invalid_utf8
    else ok (record s {
      command = record (s.command) { parameters = s.command.parameters ++ s.cur ∷ [] };
    })

-- The byte behind a backslash.
unfoldable pub unescape : ℕ → Result ℕ
unescape c =
    if c == b's'
    then ok b' '
    else if c == b'n'
    then ok b'\n'
    else if c == b'\\'
    then ok b'\\'
    else err unknown_escape

-- `case ' '` and `default`.
unfoldable pub plain : Scan → ℕ → Result Scan
plain s c = if c == b' ' then (do t ← end_param s; ok (clear t)) else ok (push s c)

-- The loop, on the bytes that are left.
unfoldable pub scan : Scan → Bytes → Result Scan
scan s [] = ok s
scan s (c ∷ []) = if c == b'\\' then err escape_at_eol else plain s c
scan s (c ∷ d ∷ rest) =
    if c == b'\\'
    then (do e ← unescape d; scan (push s e) rest)
    else (do t ← plain s c; scan t (d ∷ rest))

-- The three checks at the end.
unfoldable pub check : Scan → Result AdcCommand
check s =
    if wants_from s
    then err missing_from
    else if wants_features s
    then err missing_feature
    else if wants_to s
    then err missing_to
    else ok s.command

-- What follows the loop.
unfoldable pub finish : Scan → Result AdcCommand
finish s = if not (is_empty s.cur) then (do t ← end_param s; check t) else check s

abbrev pub start : AdcCommand → Scan
start c = record { command = c; cur = []; to_set = false; feature_set = false; from_set = false }

-- The type and the code, which the loop does not change. `cmd[3]` keeps its value.
abbrev pub with_head : AdcCommand → ℕ → ℕ → ℕ → ℕ → AdcCommand
with_head c t x y z = record c {
  type = t;
  to = if t == b'H' then hub_sid else c.to;
  cmd_int = to_cmd x y z + c.cmd_int / 16777216 * 16777216;
}

-- The last byte of the line, its line feed, is not read.
unfoldable pub parse : AdcCommand → Bytes → Result AdcCommand
parse c (t ∷ x ∷ y ∷ z ∷ space ∷ rest) =
    if not (is_type t)
    then err invalid_type
    else if not (space == b' ')
    then err missing_space
    else do s ← scan (start (with_head c t x y z)) (take (length rest - 1) rest); finish s
parse c _ = err too_short

-- The constructors from a string and from a buffer.
abbrev pub parse_line : Bytes → Result AdcCommand
parse_line line = parse blank line

abbrev pub parse_buffer : Bytes → Result AdcCommand
parse_buffer b = parse (record blank { buffer = some b }) b
