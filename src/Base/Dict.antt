-- ===== src/Base/Dict.antt =====
-- Maps as association lists. `find`, `insert` (which keeps an old binding, as `map::insert` does)
-- and `erase` of the C++ containers; a new key goes to the end.
use mathlib.Core.Path.{◌≡◌, refl, sym, ◌∙◌}
use mathlib.Core.Logic.{◌≢◌, ◌↔◌, ◌⊎◌, inl, inr}
use mathlib.Core.Bool.{Bool, true, false}
use mathlib.Core.List.{List, [], ◌∷◌}
use mathlib.Core.Option.{Option, none, some, some-injective}
use Prim.Native.Nat.{ℕ}
use native.Mathlib.Omega.{arith}
use adchubd.Base.Tests.{
  Bytes, ◌==◌ as eq_nat, ==_iff, same, same_iff, if◌then◌else◌, Bool-cases, Option-cases,
}

pub record Eq {ℓ} (A : Type ℓ) : Type ℓ where
  pub beq : A → A → Bool
  pub beq_iff : (a b : A) → (beq a b ≡ true) ↔ (a ≡ b)

instance abbrev pub nat_eq : Eq ℕ
nat_eq = record { beq = eq_nat; beq_iff = ==_iff }

instance abbrev pub bytes_eq : Eq Bytes
bytes_eq = record { beq = same; beq_iff = same_iff }

module _ {ℓ κ} {K : Type ℓ} {V : Type κ} ⦃e : Eq K⦄ where
  unfoldable pub find : K → List (K × V) → Option V
  find k [] = none
  find k ((j, v) ∷ m) = if e.beq j k then some v else find k m

  unfoldable pub insert : K → V → List (K × V) → List (K × V)
  insert k v [] = (k, v) ∷ []
  insert k v ((j, w) ∷ m) = if e.beq j k then (j, w) ∷ m else (j, w) ∷ insert k v m

  unfoldable pub erase : K → List (K × V) → List (K × V)
  erase k [] = []
  erase k ((j, w) ∷ m) = if e.beq j k then erase k m else (j, w) ∷ erase k m

  pub find-insert :
      (k j : K) (v : V) (m : List (K × V))
      → find j (insert k v m)
        ≡ elim (find j m) [ some w ↦ some w | none ↦ if e.beq k j then some v else none ]
  unfolding find insert
  find-insert k j v [] = ground arith
  find-insert k j v ((i, w) ∷ m) =
      ground (arith, e.beq_iff k j, e.beq_iff i k, e.beq_iff i j, find-insert k j v m)

  pub find-erase :
      (k j : K) (m : List (K × V)) → find j (erase k m) ≡ (if e.beq k j then none else find j m)
  unfolding find erase
  find-erase k j [] = ground arith
  find-erase k j ((i, w) ∷ m) =
      ground (arith, e.beq_iff k j, e.beq_iff i k, e.beq_iff i j, find-erase k j m)

  -- What stands in a map after `insert` stood in it before, or is the new entry.
  pub find-insert_cases :
      (k j : K) (v w : V) (m : List (K × V))
      → find j (insert k v m) ≡ some w
      → (find j m ≡ some w) ⊎ ((k ≡ j) × (v ≡ w))
  find-insert_cases k j v w m h = elim (Option-cases (find j m)) [
    | inr (u, q) ↦ inl (q ∙ sym (find-insert k j v m ∙ rw q refl) ∙ h)
    | inl q ↦ elim (Bool-cases (e.beq k j)) [
      | inl t ↦
          inr (
            (e.beq_iff k j).0 t,
            some-injective _ _ (sym (find-insert k j v m ∙ rw (q, t) refl) ∙ h),
          )
      | inr t ↦
          (let bad : none ≡ some w = sym (find-insert k j v m ∙ rw (q, t) refl) ∙ h in absurd (cc))
    ]
  ]

  pub find-insert_old :
      (k j : K) (v w : V) (m : List (K × V)) → find j m ≡ some w → find j (insert k v m) ≡ some w
  find-insert_old k j v w m h = find-insert k j v m ∙ rw h refl

  pub find-insert_new :
      (k : K) (v : V) (m : List (K × V)) → find k m ≡ none → find k (insert k v m) ≡ some v
  find-insert_new k v m h = find-insert k k v m ∙ rw (h, (e.beq_iff k k).1 refl) refl

  pub find-insert_own : (k : K) (v : V) (m : List (K × V)) → find k (insert k v m) ≢ none
  find-insert_own k v m h = elim (Option-cases (find k m)) [
    | inl q ↦ let bad = sym h ∙ find-insert_new k v m q in absurd (cc)
    | inr (w, q) ↦ let bad = sym h ∙ find-insert_old k k v w m q in absurd (cc)
  ]

  pub find-erase_still : (k j : K) (m : List (K × V)) → find j m ≡ none → find j (erase k m) ≡ none
  find-erase_still k j m h =
      find-erase k j m ∙ elim (Bool-cases (e.beq k j)) [ inl t ↦ rw t refl | inr t ↦ rw t h ]

-- An entry that a test has not taken out.
pub some_of_if {ℓ} :
    {A : Type ℓ} (t : Bool) (o : Option A) (w : A)
    → (if t then none else o) ≡ some w
    → (t ≡ false) × (o ≡ some w)
some_of_if true o w h = absurd (cc)
some_of_if false o w h = (refl, h)
