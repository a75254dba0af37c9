-- ===== src/ParamExpander/Doubled.antt =====
-- `formatParams` leaves a text without parameters alone.
use adchubd.Base.{
  ℕ, zero, suc, ◌+◌, ◌-◌, ◌≤◌, ◌<◌, ◌≡◌, ◌⊎◌, inl, inr, refl, sym, ap, ap₂, ◌∙◌, subst, Bool, true,
  false, [], ◌∷◌, ◌++◌, append_assoc, append-nil, none, some, Bytes, Bool-cases, arith, ltb, ◌==◌,
  ==_iff, if◌then◌else◌, length, take, drop, get_or, length-append,
}
use adchubd.ParamExpander.{
  ParamExpander, index_of, find_char, at_percent, format_loop, format_params, append_part,
}
use adchubd.ParamExpander.Ends.{format_loop-ends}

find_char-none :
    (c : ℕ) (s : Bytes) (from : ℕ) {t : Bytes}
    → drop from s ≡ t
    → index_of c t ≡ none
    → find_char c s from ≡ none
unfolding find_char
find_char-none c s from at e = rw (at, e, find_char) refl

find_char-some :
    (c : ℕ) (s : Bytes) (from : ℕ) {t : Bytes} {i : ℕ}
    → drop from s ≡ t
    → index_of c t ≡ some i
    → find_char c s from ≡ some (from + i)
unfolding find_char
find_char-some c s from at e = rw (at, e, find_char) refl

-- Every percent sign twice.
unfoldable pub doubled : Bytes → Bytes
doubled [] = []
doubled (c ∷ t) = if c == b'%' then b'%' ∷ b'%' ∷ doubled t else c ∷ doubled t

-- The part of a text before its first percent sign, and the part behind it.
record Split (t : Bytes) : Type 0 where
  before : Bytes
  behind : Bytes
  whole : t ≡ before ++ b'%' ∷ behind
  twice : doubled t ≡ before ++ b'%' ∷ b'%' ∷ doubled behind
  first : index_of b'%' (doubled t) ≡ some (length before)

abbrev Plain : Bytes → Type 0
Plain t = (index_of b'%' (doubled t) ≡ none) × (doubled t ≡ t)

split : (t : Bytes) → Plain t ⊎ Split t
unfolding doubled index_of
split [] = inl (refl, refl)
split (c ∷ t) = elim (Bool-cases (c == b'%')) [
  | inl sign ↦
      let e : c ≡ b'%' = (==_iff c b'%').0 sign in
      inr (record {
        before = [];
        behind = t;
        whole = ap (λ (x : ℕ). x ∷ t) e;
        twice = rw sign refl;
        first = rw sign refl;
      })
  | inr other ↦ elim (split t) [
    | inl (none_here, same) ↦ inl (rw (other, other, none_here) refl, rw other (ap (◌∷◌ c) same))
    | inr p ↦ inr (record {
      before = c ∷ p.before;
      behind = p.behind;
      whole = ap (◌∷◌ c) p.whole;
      twice = rw other (ap (◌∷◌ c) p.twice);
      first = rw (other, other, p.first) refl;
    })
  ]
]

drop-length : (pre t : Bytes) → drop (length pre) (pre ++ t) ≡ t
drop-length [] t = refl
drop-length (x ∷ pre) t = drop-length pre t

take-length : (u t : Bytes) (c : ℕ) → take (suc (length u)) (u ++ c ∷ t) ≡ u ++ c ∷ []
take-length [] t c = refl
take-length (x ∷ u) t c = ap (◌∷◌ x) (take-length u t c)

get_or-length : (pre t : Bytes) (i d : ℕ) → get_or (pre ++ t) (length pre + i) d ≡ get_or t i d
get_or-length [] t i d = ap (λ (n : ℕ). get_or t n d) (omega arith)
get_or-length (x ∷ pre) t i d =
    subst (λ (n : ℕ). get_or (x ∷ (pre ++ t)) n d ≡ get_or t i d)
      (let e : suc (length pre + i) ≡ suc (length pre) + i = omega arith in e)
      (get_or-length pre t i d)

module _ (ex : ParamExpander) (filter : Bool) where
  at_percent-sign :
      (s : Bytes) (prev pos : ℕ) (out : Bytes)
      → get_or s pos 0 ≡ b'%'
      → at_percent ex filter s prev pos out ≡ (append_part out s prev (pos - prev), some (pos + 1))
  unfolding at_percent
  at_percent-sign s prev pos out e = rw ((==_iff (get_or s pos 0) b'%').1 e) refl

  -- The round for a percent sign that another one follows.
  format_loop-sign :
      (fuel : ℕ) (s : Bytes) (prev at : ℕ) (out : Bytes)
      → find_char b'%' s prev ≡ some at
      → prev < length s
      → at + 1 < length s
      → get_or s (at + 1) 0 ≡ b'%'
      → format_loop ex filter (suc fuel) s prev out
        ≡ format_loop ex filter fuel s (at + 1 + 1) (append_part out s prev (at + 1 - prev))
  unfolding format_loop
  format_loop-sign fuel s prev at out e more inside sign =
      let t : ltb prev (length s) ≡ true = ground arith in
      let f : (at == length s - 1) ≡ false = ground arith in
      rw (t, e, f, at_percent-sign s prev (at + 1) out sign, format_loop)
        (rw (at_percent-sign s prev (at + 1) out sign) refl)

  format_loop-plain :
      (fuel : ℕ) (s : Bytes) (prev : ℕ) (out : Bytes)
      → find_char b'%' s prev ≡ none
      → prev < length s
      → format_loop ex filter (suc fuel) s prev out ≡ some (out ++ drop prev s)
  unfolding format_loop
  format_loop-plain fuel s prev out e more =
      let t : ltb prev (length s) ≡ true = ground arith in rw (t, e, format_loop) refl

  format_loop-over :
      (fuel : ℕ) (s : Bytes) (prev : ℕ) (out : Bytes)
      → length s ≤ prev
      → format_loop ex filter (suc fuel) s prev out ≡ some out
  unfolding format_loop
  format_loop-over fuel s prev out over =
      let t : ltb prev (length s) ≡ false = ground arith in rw (t, format_loop) refl

  -- The loop where the rest of the text has no percent sign.
  format_loop-rest :
      (fuel : ℕ) (s pre t out : Bytes)
      → s ≡ pre ++ t
      → index_of b'%' t ≡ none
      → format_loop ex filter (suc fuel) s (length pre) out ≡ some (out ++ t)
  format_loop-rest fuel s pre [] out e plain =
      format_loop-over fuel s (length pre) out (omega (arith, ap length e, length-append pre []))
      ∙ ap some (sym (append-nil out))
  format_loop-rest fuel s pre (c ∷ t) out e plain =
      let at : drop (length pre) s ≡ c ∷ t =
        ap (λ (u : Bytes). drop (length pre) u) e ∙ drop-length pre (c ∷ t) in
      format_loop-plain fuel s (length pre) out (find_char-none b'%' s (length pre) at plain)
        (omega (arith, ap length e, length-append pre (c ∷ t)))
      ∙ ap (λ (u : Bytes). some (out ++ u)) at

  -- The round for a doubled percent sign.
  format_loop-pair :
      (fuel : ℕ) (s pre u rest out : Bytes)
      → s ≡ pre ++ (u ++ b'%' ∷ b'%' ∷ rest)
      → index_of b'%' (u ++ b'%' ∷ b'%' ∷ rest) ≡ some (length u)
      → format_loop ex filter (suc fuel) s (length pre) out
        ≡ format_loop ex filter fuel s
            (length (pre ++ (u ++ b'%' ∷ b'%' ∷ [])))
            (out ++ (u ++ b'%' ∷ []))
  format_loop-pair fuel s pre u rest out e here =
      let lp = length pre in
      let lu = length u in
      let t = u ++ b'%' ∷ b'%' ∷ rest in
      let at : drop lp s ≡ t = ap (λ (v : Bytes). drop lp v) e ∙ drop-length pre t in
      let sized : length s ≡ lp + (lu + suc (suc (length rest))) =
        omega (arith, ap length e, length-append pre t, length-append u (b'%' ∷ b'%' ∷ rest)) in
      let sign : get_or s (lp + lu + 1) 0 ≡ b'%' =
        ap (λ (v : Bytes). get_or v (lp + lu + 1) 0) e
        ∙ (ap (λ (n : ℕ). get_or (pre ++ t) n 0)
              (let q : lp + lu + 1 ≡ lp + (lu + 1) = omega arith in q)
            ∙ (get_or-length pre t (lu + 1) 0 ∙ get_or-length u (b'%' ∷ b'%' ∷ rest) 1 0)) in
      let part : append_part out s lp (lp + lu + 1 - lp) ≡ out ++ (u ++ b'%' ∷ []) =
        ap₂ (λ (n : ℕ) (v : Bytes). out ++ take n v)
          (let q : lp + lu + 1 - lp ≡ suc lu = omega arith in q) at
        ∙ ap (λ (v : Bytes). out ++ v) (take-length u (b'%' ∷ rest) b'%') in
      let next : lp + lu + 1 + 1 ≡ length (pre ++ (u ++ b'%' ∷ b'%' ∷ [])) =
        omega
          (arith, length-append pre (u ++ b'%' ∷ b'%' ∷ []), length-append u (b'%' ∷ b'%' ∷ [])) in
      format_loop-sign fuel s lp (lp + lu) out (find_char-some b'%' s lp at here)
        (omega (arith, sized)) (omega (arith, sized)) sign
      ∙ ap₂ (λ (n : ℕ) (v : Bytes). format_loop ex filter fuel s n v) next part

  -- The loop at a place where the rest of the text has every percent sign twice.
  format_loop-doubled :
      (fuel : ℕ) (s pre t out : Bytes)
      → s ≡ pre ++ doubled t
      → length s < fuel + length pre
      → format_loop ex filter fuel s (length pre) out ≡ some (out ++ t)
  format_loop-doubled zero s pre t out e room =
      absurd (omega (arith, ap length e, length-append pre (doubled t)))
  format_loop-doubled (suc fuel) s pre t out e room = elim (split t) [
    | inl (none_here, same) ↦
        format_loop-rest fuel s pre t out (e ∙ ap (λ (u : Bytes). pre ++ u) same)
          (ap (index_of b'%') (sym same) ∙ none_here)
    | inr p ↦
        let u = p.before in
        let rest = doubled p.behind in
        let e' : s ≡ pre ++ (u ++ b'%' ∷ b'%' ∷ rest) = e ∙ ap (λ (v : Bytes). pre ++ v) p.twice in
        let pre' = pre ++ (u ++ b'%' ∷ b'%' ∷ []) in
        let e'' : s ≡ pre' ++ rest =
          e'
          ∙ (ap (λ (v : Bytes). pre ++ v) (sym (append_assoc u (b'%' ∷ b'%' ∷ []) rest))
              ∙ sym (append_assoc pre (u ++ b'%' ∷ b'%' ∷ []) rest)) in
        let room' : length s < fuel + length pre' = omega (
          arith,
          room,
          length-append pre (u ++ b'%' ∷ b'%' ∷ []),
          length-append u (b'%' ∷ b'%' ∷ []),
        ) in
        format_loop-pair fuel s pre u rest out e' (ap (index_of b'%') (sym p.twice) ∙ p.first)
        ∙ format_loop-doubled fuel s pre' p.behind (out ++ (u ++ b'%' ∷ [])) e'' room'
        ∙ ap some (
            append_assoc out (u ++ b'%' ∷ []) p.behind
            ∙ ap (λ (v : Bytes). out ++ v) (append_assoc u (b'%' ∷ []) p.behind ∙ sym p.whole))
  ]

-- `formatParams` comes to an end for every text, whatever the parameters stand for; and it gives back
-- a text in which every percent sign has been doubled before.
pub format_params-ends :
    (ex : ParamExpander) (filter : Bool)
    → ((s : Bytes) → (r : Bytes) × (format_params ex filter s ≡ some r))
      × ((t : Bytes) → format_params ex filter (doubled t) ≡ some t)
unfolding format_params
format_params-ends ex filter = (
  λ s. format_loop-ends ex filter (suc (length s)) s 0 [] (omega arith) (omega arith),
  λ t.
      format_loop-doubled ex filter (suc (length (doubled t))) (doubled t) [] t [] refl
        (omega arith),
)
