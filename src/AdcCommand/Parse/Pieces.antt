-- ===== src/AdcCommand/Parse/Pieces.antt =====
-- The text that a piece of a line stands for, and where in the line `parse` is.
use adchubd.Base.{ℕ, ◌≡◌, sym, ap, ◌∙◌, false, [], ◌∷◌, ◌++◌, append_assoc, Bytes, ◌==◌}
use adchubd.AdcCommand.Parse.{ok, unescape}

-- What a piece of the line stands for: a pair of a backslash and a letter is one byte, and no space is
-- left alone.
pub data Stands : Bytes → Bytes → Type 0 where
  nothing : Stands [] []
  byte :
      {piece text : Bytes}
      → Stands piece text
      → (c : ℕ) → (c == b' ') ≡ false
      → (c == b'\\') ≡ false
      → Stands (piece ++ c ∷ []) (text ++ c ∷ [])
  pair :
      {piece text : Bytes}
      → Stands piece text
      → (c d : ℕ) → unescape c ≡ ok d
      → Stands (piece ++ b'\\' ∷ c ∷ []) (text ++ d ∷ [])

-- A space or the end.
abbrev pub Ends : Bytes → Type 0
Ends [] = Unit {0}
Ends (c ∷ s) = c ≡ b' '

-- A text that stands in the line, behind a space and up to the next one or the end.
pub record Stood (line text : Bytes) : Type 0 where
  pub before : Bytes
  pub piece : Bytes
  pub after : Bytes
  pub split : line ≡ before ++ b' ' ∷ (piece ++ after)
  pub ends : Ends after
  pub stands : Stands piece text

-- Where the loop is in the line: what it has read of a parameter, and what is left.
pub record At (line text rest : Bytes) : Type 0 where
  pub before : Bytes
  pub piece : Bytes
  pub split : line ≡ before ++ b' ' ∷ (piece ++ rest)
  pub stands : Stands piece text

pub At-Stood : (line text rest : Bytes) → Ends rest → At line text rest → Stood line text
At-Stood line text rest e a = record {
  before = a.before;
  piece = a.piece;
  after = rest;
  split = a.split;
  ends = e;
  stands = a.stands;
}

pub At-byte :
    (line text rest : Bytes) (c : ℕ)
    → (c == b' ') ≡ false
    → (c == b'\\') ≡ false
    → At line text (c ∷ rest)
    → At line (text ++ c ∷ []) rest
At-byte line text rest c n m a = record {
  before = a.before;
  piece = a.piece ++ c ∷ [];
  split =
      a.split ∙ ap (λ (u : Bytes). a.before ++ b' ' ∷ u) (sym (append_assoc a.piece (c ∷ []) rest));
  stands = byte a.stands c n m;
}

pub At-pair :
    (line text rest : Bytes) (c d : ℕ)
    → unescape c ≡ ok d
    → At line text (b'\\' ∷ c ∷ rest)
    → At line (text ++ d ∷ []) rest
At-pair line text rest c d e a = record {
  before = a.before;
  piece = a.piece ++ b'\\' ∷ c ∷ [];
  split =
      a.split
      ∙ ap (λ (u : Bytes). a.before ++ b' ' ∷ u) (sym (append_assoc a.piece (b'\\' ∷ c ∷ []) rest));
  stands = pair a.stands c d e;
}

pub At-space : (line text rest : Bytes) → At line text (b' ' ∷ rest) → At line [] rest
At-space line text rest a = record {
  before = a.before ++ b' ' ∷ a.piece;
  piece = [];
  split = a.split ∙ sym (append_assoc a.before (b' ' ∷ a.piece) (b' ' ∷ rest));
  stands = nothing;
}
