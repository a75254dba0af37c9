-- ===== src/AdcCommand/Parse/Safe.antt =====
-- What every command that `parse` returns satisfies.
use adchubd.Base.{
  ℕ, ◌%◌, ◌≡◌, refl, ap, subst, drop, arith, true, [], ◌∷◌, Bytes, ◌==◌, length, take, ◌-◌, take,
  is_empty, Bool-cases, inl, inr,
}
use adchubd.AdcCommand.{AdcCommand, is_type, has_from, has_to, blank}
use adchubd.AdcCommand.Parse.{
  Scan, Result, ok, err, ◌>>=◌, start, with_head, end_param, scan, check, finish, parse, parse_line,
  wants_from, wants_to, wants_features,
}
use adchubd.AdcCommand.Parse.Pieces.{nothing, At, At-Stood}
use adchubd.AdcCommand.Parse.Loop.{Valid, IsRead, Inv, Goes, end_param-Inv, scan-Inv, start-Inv}

-- The line behind its code, without its last byte.
abbrev pub inside : Bytes → Bytes
inside line = b' ' ∷ take (length line - 6) (drop 5 line)

-- A command that went through `parse`: its type is one of the eight, its SIDs stand in the line, as
-- parameters of four bytes, where the type has them, its feature list has a length divisible by five,
-- and its parameters are UTF-8.
pub record IsWellFormed (line : Bytes) (c : AdcCommand) : Type 0 where
  pub known_type : is_type c.type ≡ true
  pub from_read : has_from c.type ≡ true → IsRead line c.from
  pub to_read : has_to c.type ≡ true → IsRead line c.to
  pub features_length : (c.type == b'F') ≡ true → length c.features % 5 ≡ 0
  pub parameters_valid : Valid c.parameters

abbrev Checked : Bytes → AdcCommand → Result AdcCommand → Type 0
Checked line c (ok d) = (d.type ≡ c.type) × IsWellFormed line d
Checked line c (err e) = Unit

module _ (line : Bytes) (c : AdcCommand) (known : is_type c.type ≡ true) where
  check-Checked : (s : Scan) → Inv line c s → Checked line c (check s)
  unfolding check
  check-Checked s v = elim (Bool-cases (wants_from s)) [
    | inl a ↦ rw a tt
    | inr a ↦ elim (Bool-cases (wants_features s)) [
      | inl b ↦ rw (a, b) tt
      | inr b ↦ elim (Bool-cases (wants_to s)) [
        | inl d ↦ rw (a, b, d) tt
        | inr d ↦
            rw (a, b, d)
              (
                v.same_type,
                record {
                  known_type = rw v.same_type known;
                  from_read = λ h. v.from_read (ground arith);
                  to_read = λ h. v.to_read (ground arith);
                  features_length = λ h. v.features_read (ground arith);
                  parameters_valid = v.parameters_valid;
                },
              )
      ]
    ]
  ]

  Checked-bind :
      {B : Type 0} (r : Result B) (f : B → Result AdcCommand)
      → ((a : B) → r ≡ ok a → Checked line c (f a))
      → Checked line c (r >>= f)
  Checked-bind (ok a) f h = h a refl
  Checked-bind (err e) f h = tt

  finish-Checked : (s : Scan) → Inv line c s → At line s.cur [] → Checked line c (finish s)
  unfolding finish
  finish-Checked s v at = elim (Bool-cases (is_empty s.cur)) [
    | inl e ↦ rw e (check-Checked s v)
    | inr e ↦ rw e (
        Checked-bind (end_param s) _ λ t h.
          check-Checked t (rw h at (end_param-Inv line c s v (At-Stood line s.cur [] tt at))))
  ]

inside-rest :
    (t x y z space : ℕ) (rest : Bytes)
    → b' ' ∷ take (length rest - 1) rest ≡ inside (t ∷ x ∷ y ∷ z ∷ space ∷ rest)
inside-rest t x y z space rest = ap (λ (n : ℕ). b' ' ∷ take n rest) (omega arith)

parse-Checked :
    (t : ℕ) (line : Bytes)
    → Checked (inside (t ∷ line)) (record blank { type = t }) (parse_line (t ∷ line))
unfolding parse
parse-Checked t [] = tt
parse-Checked t (x ∷ []) = tt
parse-Checked t (x ∷ y ∷ []) = tt
parse-Checked t (x ∷ y ∷ z ∷ []) = tt
parse-Checked t (x ∷ y ∷ z ∷ space ∷ rest) = elim (Bool-cases (is_type t)) [
  | inr e ↦ rw e tt
  | inl known ↦ elim (Bool-cases (space == b' ')) [
    | inr e ↦ rw (known, e) tt
    | inl e ↦
        let c = with_head blank t x y z in
        let body = take (length rest - 1) rest in
        let line = b' ' ∷ body in
        let begun : At line [] body = record {
          before = [];
          piece = [];
          split = refl;
          stands = nothing;
        } in
        rw (known, e)
          (subst
            (λ (u : Bytes).
              Checked u (record blank { type = t }) (scan (start c) body >>= λ s. finish s))
            (inside-rest t x y z space rest)
            (Checked-bind line c known (scan (start c) body) finish λ s h.
              let (v, at) =
                subst (Goes line c []) h
                  (scan-Inv line c (start c) body (start-Inv line c tt) begun) in
              finish-Checked line c known s v at))
  ]
]

-- Whatever bytes a client sends, a command that `parse` returns for them has the type that the line
-- begins with, one of the eight. Where the type has a SID of the sender or of the receiver, that SID is
-- made of exactly four bytes that stand in the line, with its escapes undone, between a space and the
-- next one or the end. The feature list of a command of the type F has a length divisible by five, and
-- all parameters are UTF-8.
pub parse-IsWellFormed :
    (t : ℕ) (line : Bytes) (d : AdcCommand)
    → parse_line (t ∷ line) ≡ ok d
    → (d.type ≡ t) × IsWellFormed (inside (t ∷ line)) d
parse-IsWellFormed t line d e = rw e at (parse-Checked t line)
