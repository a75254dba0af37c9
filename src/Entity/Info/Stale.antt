-- ===== src/Entity/Info/Stale.antt =====
-- `removeClientSupport` changes the field SU and keeps the INF that shows the old one.
use adchubd.Base.{
  ℕ, zero, suc, ◌+◌, ◌-◌, ◌<◌, ◌≤◌, ◌≡◌, arith, true, [], ◌∷◌, ◌++◌, some, Bytes, length, drop,
  take, Option-cases, inl, inr, length-append, length-drop,
}
use adchubd.AdcCommand.{from_sid}
use adchubd.AdcCommand.Words.{length-from_sid}
use adchubd.Entity.{Entity}
use adchubd.Entity.Fields.{su, lookup, or_empty}
use adchubd.Entity.Fields.Laws.{lookup-assign}
use adchubd.Entity.Supports.{
  begins, find_bytes, cut_after, strip_feature, done, remove_client_support,
}
use adchubd.Entity.Info.{kept_inf, get_inf}

begins-length : (n s : Bytes) → begins n s ≡ true → length n ≤ length s
unfolding begins
begins-length [] s h = omega arith
begins-length (c ∷ n) [] h = cc
begins-length (c ∷ n) (d ∷ s) h = ground (arith, begins-length n s)

find_bytes-bound : (n s : Bytes) (p : ℕ) → find_bytes n s ≡ some p → p + length n ≤ length s
unfolding find_bytes
find_bytes-bound n [] p h = ground (arith, begins-length n [])
find_bytes-bound n (c ∷ s) p h = elim (Option-cases (find_bytes n s)) [
  | inl e ↦ ground (arith, begins-length n (c ∷ s))
  | inr (q, e) ↦ ground (arith, begins-length n (c ∷ s), find_bytes-bound n s q e)
]

length-take-le : (n : ℕ) (s : Bytes) → (length (take n s) ≤ n) × (length (take n s) ≤ length s)
length-take-le zero s = omega arith
length-take-le (suc n) [] = omega arith
length-take-le (suc n) (c ∷ s) = omega (arith, length-take-le n s)

length-cut_after : (n : ℕ) (s t : Bytes) → cut_after n s ≡ some t → length t ≤ length s
unfolding cut_after
length-cut_after n s t h = ground (arith, length-take-le (n - 1) s)

length-strip_feature :
    (count feature : ℕ) (value left : Bytes)
    → strip_feature count feature value ≡ some left
    → length left < length value
unfolding strip_feature
length-strip_feature count feature value left h =
    elim (Option-cases (find_bytes (from_sid feature) value)) [
      | inl e ↦ ground arith
      | inr (p, e) ↦
          let rest = take p value ++ drop (p + 5) value in
          ground (
            arith,
            find_bytes-bound (from_sid feature) value p e,
            length-from_sid feature,
            length-append (take p value) (drop (p + 5) value),
            length-take-le p value,
            length-drop (p + 5) value,
            length-cut_after count rest left,
          )
    ]

-- Whenever `removeClientSupport` takes a feature away from an entity that keeps an INF, the text of
-- its field SU gets shorter, and `getINF` still hands out the INF that was kept before.
pub remove_client_support_stale :
    (e d : Entity) (feature : ℕ) (b : Bytes)
    → e.inf ≡ some b
    → remove_client_support e feature ≡ done d true
    → (length (or_empty (lookup su d.fields)) < length (or_empty (lookup su e.fields)))
      × ((get_inf d).1 ≡ b)
unfolding remove_client_support get_inf kept_inf
remove_client_support_stale e d feature b k h = elim (Option-cases (lookup su e.fields)) [
  | inl n ↦ ground arith
  | inr (value, s) ↦ elim (Option-cases (strip_feature (length e.supports) feature value)) [
    | inl n ↦ ground arith
    | inr (left, t) ↦ ground (
      arith,
      length-strip_feature (length e.supports) feature value left t,
      lookup-assign su su left e.fields,
    )
  ]
]
