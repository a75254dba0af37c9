-- ===== src/AdcCommand/Parse/Loop.antt =====
-- What the loop of `parse` keeps.
use adchubd.Base.{
  ℕ, ◌%◌, ◌≡◌, refl, subst, ==_iff, arith, Bool, true, false, not, List, [], ◌∷◌, ◌++◌, Bytes, ◌==◌,
  if◌then◌else◌, length, All, All-append, Bool-cases, inl, inr,
}
use adchubd.AdcCommand.{AdcCommand, to_sid}
use adchubd.AdcCommand.Parse.{
  Scan, ParseError, Result, ok, err, ◌>>=◌, push, clear, start, end_param, plain, unescape, scan,
  wants_from, wants_to, wants_features,
}
use adchubd.AdcCommand.Parse.Pieces.{Stood, At, At-Stood, At-byte, At-pair, At-space}
use adchubd.Text.Utf8.{validate_utf8}

abbrev pub Valid : List Bytes → Type 0
Valid ps = All (λ p. validate_utf8 p ≡ true) ps

-- A SID whose four bytes stand in the line.
abbrev pub IsRead : Bytes → ℕ → Type 0
IsRead line sid = (s : Bytes) × (length s ≡ 4) × (sid ≡ to_sid s) × Stood line s

-- What the loop keeps: the type and the code stay those of the head, and each set flag means that
-- its part was read from a parameter of the right length.
pub record Inv (line : Bytes) (c : AdcCommand) (s : Scan) : Type 0 where
  pub same_type : s.command.type ≡ c.type
  pub same_code : s.command.cmd_int ≡ c.cmd_int
  pub same_buffer : s.command.buffer ≡ c.buffer
  pub from_read : s.from_set ≡ true → IsRead line s.command.from
  pub to_read : s.to_set ≡ true → IsRead line s.command.to
  pub to_kept : s.to_set ≡ false → s.command.to ≡ c.to
  pub features_read : s.feature_set ≡ true → length s.command.features % 5 ≡ 0
  pub parameters_valid : Valid s.command.parameters

abbrev pub Keeps : Bytes → AdcCommand → Result Scan → Type 0
Keeps line c (ok s) = Inv line c s
Keeps line c (err e) = Unit

module _ (line : Bytes) (c : AdcCommand) where
  from-Inv :
      (s : Scan)
      → Inv line c s
      → Stood line s.cur
      → length s.cur ≡ 4
      → Inv line c
          (record s { command = record (s.command) { from = to_sid s.cur }; from_set = true })
  from-Inv s v a l = record {
    same_type = v.same_type;
    same_code = v.same_code;
    same_buffer = v.same_buffer;
    from_read = λ _. (s.cur, l, refl, a);
    to_read = v.to_read;
    to_kept = v.to_kept;
    features_read = v.features_read;
    parameters_valid = v.parameters_valid;
  }

  to-Inv :
      (s : Scan)
      → Inv line c s
      → Stood line s.cur
      → length s.cur ≡ 4
      → Inv line c (record s { command = record (s.command) { to = to_sid s.cur }; to_set = true })
  to-Inv s v a l = record {
    same_type = v.same_type;
    same_code = v.same_code;
    same_buffer = v.same_buffer;
    from_read = v.from_read;
    to_read = λ _. (s.cur, l, refl, a);
    to_kept = λ e. cc;
    features_read = v.features_read;
    parameters_valid = v.parameters_valid;
  }

  features-Inv :
      (s : Scan)
      → Inv line c s
      → length s.cur % 5 ≡ 0
      → Inv line c
          (record s { command = record (s.command) { features = s.cur }; feature_set = true })
  features-Inv s v l = record {
    same_type = v.same_type;
    same_code = v.same_code;
    same_buffer = v.same_buffer;
    from_read = v.from_read;
    to_read = v.to_read;
    to_kept = v.to_kept;
    features_read = λ _. l;
    parameters_valid = v.parameters_valid;
  }

  parameter-Inv :
      (s : Scan)
      → Inv line c s
      → validate_utf8 s.cur ≡ true
      → Inv line c (record s {
        command = record (s.command) { parameters = s.command.parameters ++ s.cur ∷ [] };
      })
  parameter-Inv s v l = record {
    same_type = v.same_type;
    same_code = v.same_code;
    same_buffer = v.same_buffer;
    from_read = v.from_read;
    to_read = v.to_read;
    to_kept = v.to_kept;
    features_read = v.features_read;
    parameters_valid =
        All-append (λ p. validate_utf8 p ≡ true) s.command.parameters (s.cur ∷ [])
          v.parameters_valid (l, tt);
  }

  -- A test that fails makes no command; one that passes hands its fact on.
  guarded :
      (b : Bool) (e : ParseError) (s : Scan)
      → (b ≡ true → Inv line c s)
      → Keeps line c (if not b then err e else ok s)
  guarded true e s h = h refl
  guarded false e s h = tt

  pub end_param-Inv : (s : Scan) → Inv line c s → Stood line s.cur → Keeps line c (end_param s)
  unfolding end_param
  end_param-Inv s v at = elim (Bool-cases (wants_from s)) [
    | inl a ↦ rw a (guarded _ _ _ λ l. from-Inv s v at (ground arith))
    | inr a ↦ elim (Bool-cases (wants_to s)) [
      | inl b ↦ rw (a, b) (guarded _ _ _ λ l. to-Inv s v at (ground arith))
      | inr b ↦ elim (Bool-cases (wants_features s)) [
        | inl f ↦ rw (a, b, f) (guarded _ _ _ λ l. features-Inv s v (ground arith))
        | inr f ↦ rw (a, b, f) (guarded _ _ _ λ l. parameter-Inv s v l)
      ]
    ]
  ]

  with_cur-Inv : (s : Scan) (p : Bytes) → Inv line c s → Inv line c (record s { cur = p })
  with_cur-Inv s p v = record {
    same_type = v.same_type;
    same_code = v.same_code;
    same_buffer = v.same_buffer;
    from_read = v.from_read;
    to_read = v.to_read;
    to_kept = v.to_kept;
    features_read = v.features_read;
    parameters_valid = v.parameters_valid;
  }

  -- What a step of the loop leaves, where it leaves anything.
  abbrev pub Goes : Bytes → Result Scan → Type 0
  Goes rest (ok s) = Inv line c s × At line s.cur rest
  Goes rest (err e) = Unit

  plain-Inv :
      (s : Scan) (b : ℕ) (rest : Bytes)
      → (b == b'\\') ≡ false
      → Inv line c s
      → At line s.cur (b ∷ rest)
      → Goes rest (plain s b)
  unfolding plain
  plain-Inv s b rest m v at = elim (Bool-cases (b == b' ')) [
    | inl e ↦
        let here : At line s.cur (b' ' ∷ rest) =
          subst (λ (x : ℕ). At line s.cur (x ∷ rest)) ((==_iff b b' ').0 e) at in
        rw e (
          next (end_param s) (At-space line s.cur rest here)
            (end_param-Inv s v (At-Stood line s.cur (b' ' ∷ rest) refl here)))
    | inr e ↦ rw e (with_cur-Inv s _ v, At-byte line s.cur rest b e m at)
  ]
    where
      next :
          (r : Result Scan) → At line [] rest → Keeps line c r → Goes rest (r >>= λ t. ok (clear t))
      next (ok t) a k = (with_cur-Inv t [] k, a)
      next (err e) a k = tt

  Goes-bind :
      {B : Type 0} (r : Result B) (f : B → Result Scan)
      → ((a : B) → r ≡ ok a → Goes [] (f a))
      → Goes [] (r >>= f)
  Goes-bind (ok a) f h = h a refl
  Goes-bind (err e) f h = tt

  pub scan-Inv :
      (s : Scan) (rest : Bytes) → Inv line c s → At line s.cur rest → Goes [] (scan s rest)
  unfolding scan
  scan-Inv s [] v at = (v, at)
  scan-Inv s (b ∷ []) v at = elim (Bool-cases (b == b'\\')) [
    | inl e ↦ rw e tt
    | inr e ↦ rw e (plain-Inv s b [] e v at)
  ]
  scan-Inv s (b ∷ d ∷ rest) v at = elim (Bool-cases (b == b'\\')) [
    | inl e ↦
        let here : At line s.cur (b'\\' ∷ d ∷ rest) =
          subst (λ (x : ℕ). At line s.cur (x ∷ d ∷ rest)) ((==_iff b b'\\').0 e) at in
        rw e (
          Goes-bind (unescape d) _ λ x h.
            scan-Inv (push s x) rest (with_cur-Inv s _ v) (At-pair line s.cur rest d x h here))
    | inr e ↦ rw e (
        Goes-bind (plain s b) _ λ t h.
          let (k, a) = subst (Goes (d ∷ rest)) h (plain-Inv s b (d ∷ rest) e v at) in
          scan-Inv t (d ∷ rest) k a)
  ]

pub start-Inv : (line : Bytes) (c : AdcCommand) → Valid c.parameters → Inv line c (start c)
start-Inv line c h = record {
  same_type = refl;
  same_code = refl;
  same_buffer = refl;
  from_read = λ e. cc;
  to_read = λ e. cc;
  to_kept = λ _. refl;
  features_read = λ e. cc;
  parameters_valid = h;
}
