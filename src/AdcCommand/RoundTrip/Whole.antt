-- ===== src/AdcCommand/RoundTrip/Whole.antt =====
-- The whole line: what `toString` writes, `parse` reads back.
use adchubd.Base.{
  subst, ℕ, ◌+◌, ◌-◌, ◌/◌, ◌%◌, ◌≡◌, refl, sym, ap, ◌∙◌, arith, Bool, true, false, List, [], ◌∷◌,
  ◌++◌, map, Bytes, none, ◌==◌, if◌then◌else◌, All, append-nil, append_assoc, Bool-cases, inl, inr,
  length, take, length-append,
}
use adchubd.AdcCommand.{AdcCommand, from_sid, to_cmd, has_from, has_to}
use adchubd.AdcCommand.Parse.{ok, parse, parse_line}
use adchubd.AdcCommand.Print.{append_params, render, to_string, up_to_zero}
use adchubd.AdcCommand.RoundTrip.Tokens.{
  IsPlain, Spells-plain, Spells-escaped, escaped, escape-escaped,
}
use adchubd.AdcCommand.RoundTrip.Line.{
  Token, spaced, values, scan-tokens, end_all, EndsFull, run-end_all,
}
use adchubd.AdcCommand.RoundTrip.Header.{
  IsSendable, on_wire, started, senders, addressees, selectors, header_values, end_all-header,
}

-- The written parameters of a command.
raw : (t : Bytes) → All IsPlain t → Token
raw t h = record { text = t; value = t; spells = Spells-plain t h }

param_token : Bytes → Token
param_token p = record { text = escaped p; value = p; spells = Spells-escaped p }

tokens : (c : AdcCommand) → IsSendable c → List Token
unfolding raw param_token
tokens c v =
    (if has_from c.type then raw (from_sid c.from) v.from_plain ∷ [] else [])
    ++ ((if has_to c.type then raw (from_sid c.to) v.to_plain ∷ [] else [])
        ++ ((if c.type == b'F' then raw c.features v.features_plain ∷ [] else [])
            ++ map param_token c.parameters))

values-param_token : (ps : List Bytes) → values (map param_token ps) ≡ ps
unfolding param_token
values-param_token [] = refl
values-param_token (p ∷ ps) = ap (◌∷◌ p) (values-param_token ps)

values-tokens : (c : AdcCommand) (v : IsSendable c) → values (tokens c v) ≡ header_values c
unfolding tokens header_values senders addressees selectors
values-tokens c v = elim (Bool-cases (c.type == b'F')) [
  | inl f ↦ ground (arith, values-param_token c.parameters)
  | inr f ↦ elim (Bool-cases (has_to c.type)) [
    | inl t ↦ ground (arith, values-param_token c.parameters)
    | inr t ↦ ground (arith, values-param_token c.parameters)
  ]
]

append_params-spaced :
    (ps : List Bytes) (tmp : Bytes) → append_params ps tmp ≡ tmp ++ spaced (map param_token ps)
unfolding append_params param_token
append_params-spaced [] tmp = sym (append-nil tmp)
append_params-spaced (p ∷ ps) tmp =
    rw (append_params-spaced ps) (simp (escape-escaped, append_assoc))

code :
    (c : AdcCommand)
    → IsSendable c
    → up_to_zero (from_sid c.cmd_int)
      ≡ (c.cmd_int % 256) ∷ (c.cmd_int / 256 % 256) ∷ (c.cmd_int / 65536) ∷ []
unfolding up_to_zero from_sid
code c v = ground arith

spaced-append : (ts us : List Token) → spaced (ts ++ us) ≡ spaced ts ++ spaced us
spaced-append [] us = refl
spaced-append (t ∷ ts) us = rw (spaced-append ts us) (ap (◌∷◌ b' ') (sym (append_assoc t.text _ _)))

-- Appending the optional parameters one by one writes them in order.
assemble :
    (hf ht f : Bool) (head : Bytes) (a b d : Token) (ps : List Token)
    → (let sent = if hf then head ++ (b' ' ∷ a.text) else head in
        let addressed = if ht then sent ++ (b' ' ∷ b.text) else sent in
        let featured = if f then addressed ++ (b' ' ∷ d.text) else addressed in
        featured ++ spaced ps)
      ≡ head
        ++ spaced (
            (if hf then a ∷ [] else [])
            ++ ((if ht then b ∷ [] else []) ++ ((if f then d ∷ [] else []) ++ ps)))
assemble false false false head a b d ps = refl
assemble true true true head a b d ps = simp append_assoc
assemble true true false head a b d ps = simp append_assoc
assemble true false true head a b d ps = simp append_assoc
assemble true false false head a b d ps = simp append_assoc
assemble false true true head a b d ps = simp append_assoc
assemble false true false head a b d ps = simp append_assoc
assemble false false true head a b d ps = simp append_assoc

render-tokens :
    (c : AdcCommand) (v : IsSendable c)
    → render c
      ≡ c.type
        ∷ (c.cmd_int % 256)
        ∷ (c.cmd_int / 256 % 256)
        ∷ (c.cmd_int / 65536)
        ∷ (spaced (tokens c v) ++ b'\n' ∷ [])
unfolding render tokens raw
render-tokens c v =
    rw (append_params-spaced, code c v)
      (ap (λ s. s ++ b'\n' ∷ [])
        (assemble (has_from c.type) (has_to c.type) (c.type == b'F')
          (c.type ∷ (c.cmd_int % 256) ∷ (c.cmd_int / 256 % 256) ∷ (c.cmd_int / 65536) ∷ [])
          (raw (from_sid c.from) v.from_plain) (raw (from_sid c.to) v.to_plain)
          (raw c.features v.features_plain) (map param_token c.parameters)))

take-length : (xs ys : Bytes) → take (length xs) (xs ++ ys) ≡ xs
take-length [] ys = refl
take-length (x ∷ xs) ys = ap (◌∷◌ x) (take-length xs ys)

take_init : (xs : Bytes) (y : ℕ) → take (length (xs ++ y ∷ []) - 1) (xs ++ y ∷ []) ≡ xs
take_init xs y =
    let e : length (xs ++ y ∷ []) - 1 ≡ length xs = omega (arith, length-append xs (y ∷ [])) in
    rw e (take-length xs (y ∷ []))

-- At least one parameter is written, and the last one is not empty.
abbrev pub IsClosed : List Bytes → Type 0
IsClosed [] = ⊥
IsClosed (v ∷ vs) = EndsFull v vs

parse-spaced :
    (c : AdcCommand) (v : IsSendable c) (ts : List Token)
    → IsClosed (values ts)
    → parse_line (
        c.type
        ∷ (c.cmd_int % 256)
        ∷ (c.cmd_int / 256 % 256)
        ∷ (c.cmd_int / 65536)
        ∷ (spaced ts ++ b'\n' ∷ []))
      ≡ end_all (started c) (values ts)
unfolding parse
parse-spaced c v [] h = absurd h
parse-spaced c v (t ∷ ts) h =
    let e : to_cmd (c.cmd_int % 256) (c.cmd_int / 256 % 256) (c.cmd_int / 65536) + 0 ≡ c.cmd_int =
      omega (arith, v.code_bound) in
    rw (v.known_type, take_init (t.text ++ spaced ts) b'\n', e)
      (scan-tokens (started c) t ts ∙ run-end_all (started c) t.value ts h)

-- Parsing undoes printing. For a sendable command without a kept buffer, whose line has at least
-- one parameter behind the code and does not end in an empty one, `parse` of `toString` gives the
-- type, the code, the parameters, and the addressing that belongs to the type; what the line
-- does not carry has its initial value.
pub parse-to_string :
    (c : AdcCommand)
    → IsSendable c
    → c.buffer ≡ none
    → IsClosed (header_values c)
    → parse_line (to_string c) ≡ ok (on_wire c)
unfolding to_string
parse-to_string c v b h =
    rw (b, to_string, render-tokens c v)
      (parse-spaced c v (tokens c v) (subst IsClosed (sym (values-tokens c v)) h)
        ∙ rw (values-tokens c v) (end_all-header c v))
