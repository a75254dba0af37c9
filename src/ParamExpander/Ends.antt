-- ===== src/ParamExpander/Ends.antt =====
-- `formatParams` comes to an end.
use adchubd.Base.{
  ℕ, zero, suc, ◌+◌, ◌-◌, ◌≤◌, ◌<◌, ◌≡◌, inl, inr, refl, subst, Bool, true, ◌++◌, Option, none,
  some, Bytes, Bool-cases, Option-cases, arith, ltb, ◌==◌, length, drop, get_or,
}
use adchubd.ParamExpander.{ParamExpander, find_char, at_percent, format_loop}

find_char-le : (c : ℕ) (s : Bytes) (from : ℕ) {i : ℕ} → find_char c s from ≡ some i → from ≤ i
unfolding find_char
find_char-le c s from e = ground arith

-- The loop goes on behind the percent sign.
abbrev Behind : ℕ → Option ℕ → Type 0
Behind pos none = Unit {0}
Behind pos (some next) = pos ≤ next

below : (a b : ℕ) → ltb a b ≡ true → a < b
below a b h = ground arith

module _ (ex : ParamExpander) (filter : Bool) where
  at_percent-Behind :
      (s : Bytes) (prev pos : ℕ) (out : Bytes) → Behind pos (at_percent ex filter s prev pos out).1
  unfolding at_percent
  at_percent-Behind s prev pos out = elim (Bool-cases (get_or s pos 0 == b'%')) [
    | inl percent ↦ rw percent (omega arith)
    | inr other ↦ elim (Bool-cases (get_or s pos 0 == b'[')) [
      | inr letter ↦ rw (other, letter) (omega arith)
      | inl bracket ↦ elim (Option-cases (find_char b']' s (pos + 1))) [
        | inl open_end ↦ rw (other, bracket, open_end) tt
        | inr (i, e) ↦ rw (other, bracket, e) (omega (arith, find_char-le b']' s (pos + 1) e))
      ]
    ]
  ]

  pub format_loop-ends :
      (fuel : ℕ) (s : Bytes) (prev : ℕ) (out : Bytes)
      → length s < fuel + prev
      → 0 < fuel
      → (r : Bytes) × (format_loop ex filter fuel s prev out ≡ some r)
  unfolding format_loop
  format_loop-ends zero s prev out room some_fuel = absurd (omega arith)
  format_loop-ends (suc fuel) s prev out room some_fuel = elim (Bool-cases (ltb prev (length s))) [
    | inr over ↦ rw (over, format_loop) (out, refl)
    | inl more ↦ elim (Option-cases (find_char b'%' s prev)) [
      | inl plain ↦ rw (more, plain, format_loop) (out ++ drop prev s, refl)
      | inr (at, e) ↦ elim (Bool-cases (at == length s - 1)) [
        | inl last ↦ rw (more, e, last, format_loop) (out ++ drop prev s, refl)
        | inr inside ↦
            let step = at_percent ex filter s prev (at + 1) out in
            let behind = at_percent-Behind s prev (at + 1) out in
            elim (Option-cases (step.1)) [
              | inl left ↦ rw (more, e, inside, left, format_loop) (step.0, refl)
              | inr (next, go) ↦
                  let room' : length s < fuel + next =
                    omega (
                      arith,
                      subst (Behind (at + 1)) go behind,
                      find_char-le b'%' s prev e,
                      room,
                    ) in
                  rw (more, e, inside, go, format_loop)
                    (format_loop-ends fuel s next (step.0) room'
                      (omega (arith, below prev (length s) more, room)))
            ]
      ]
    ]
  ]
