-- ===== src/AdcCommand/RoundTrip/Line.antt =====
-- The loop of `parse` and what follows it, over a line of written parameters.
use adchubd.Base.{◌≡◌, ◌≢◌, refl, ◌∙◌, List, [], ◌∷◌, ◌++◌, map, Bytes, is_empty}
use adchubd.AdcCommand.{AdcCommand}
use adchubd.AdcCommand.Parse.{
  Scan, Result, ◌>>=◌, bind_assoc, bind_ext, clear, end_param, scan, check, finish,
}
use adchubd.AdcCommand.RoundTrip.Tokens.{with_cur, Spells, scan_space}

-- A parameter as it is written, and its value.
pub record Token : Type 0 where
  pub text : Bytes
  pub value : Bytes
  pub spells : Spells text value

-- Each token behind a space.
abbrev pub spaced : List Token → Bytes
spaced [] = []
spaced (t ∷ ts) = b' ' ∷ (t.text ++ spaced ts)

abbrev pub values : List Token → List Bytes
values = map (λ t. t.value)

-- The parameters are ended one after the other; the last step is that of `finish`.
pub run : Scan → Bytes → List Token → Result AdcCommand
run s v [] = finish (with_cur s v)
run s v (t ∷ ts) = end_param (with_cur s v) >>= λ u. run (clear u) t.value ts

scan-run :
    (s : Scan) (v : Bytes) (ts : List Token)
    → (scan (with_cur s v) (spaced ts) >>= finish) ≡ run s v ts
unfolding run scan
scan-run s v [] = refl
scan-run s v (t ∷ ts) = rw scan_space (
    bind_assoc (end_param (with_cur s v)) _ finish
    ∙ bind_ext (end_param (with_cur s v)) _ _
        λ u. rw (t.spells (clear u) (spaced ts)) (scan-run (clear u) t.value ts))

run-clear : (s : Scan) (v : Bytes) (ts : List Token) → run (clear s) v ts ≡ run s v ts
unfolding run
run-clear s v [] = refl
run-clear s v (t ∷ ts) = refl

-- The whole line, from its first parameter on.
pub scan-tokens :
    (s : Scan) (t : Token) (ts : List Token)
    → (scan (clear s) (t.text ++ spaced ts) >>= finish) ≡ run s t.value ts
scan-tokens s t ts =
    rw (t.spells (clear s) (spaced ts)) (scan-run (clear s) t.value ts ∙ run-clear s t.value ts)

-- Every value is ended, and the flags are checked.
unfoldable pub end_all : Scan → List Bytes → Result AdcCommand
end_all s [] = check s
end_all s (v ∷ vs) = end_param (with_cur s v) >>= λ u. end_all u vs

-- The last of the values is not empty.
abbrev pub EndsFull : Bytes → List Bytes → Type 0
EndsFull v [] = v ≢ []
EndsFull v (w ∷ ws) = EndsFull w ws

pub run-end_all :
    (s : Scan) (v : Bytes) (ts : List Token)
    → EndsFull v (values ts)
    → run s v ts ≡ end_all s (v ∷ values ts)
unfolding run end_all finish is_empty
run-end_all s [] [] h = absurd (h refl)
run-end_all s (c ∷ v) [] h = refl
run-end_all s v (t ∷ ts) h =
    bind_ext (end_param (with_cur s v)) _ _ λ u. run-end_all (clear u) t.value ts h
