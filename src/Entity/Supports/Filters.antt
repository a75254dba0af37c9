-- ===== src/Entity/Supports/Filters.antt =====
-- The field SU as a list of features, and the selection of receivers by features.
use adchubd.Base.{
  ℕ, zero, suc, ◌+◌, ◌*◌, ◌%◌, ◌^◌, ◌<◌, ◌≤◌, ◌≡◌, refl, ap, arith, Bool, true, not, ◌&&◌, ◌||◌,
  List, [], ◌∷◌, ◌++◌, Bytes, length, drop, is_empty, All,
}
use adchubd.AdcCommand.{from_sid}
use adchubd.AdcCommand.Words.{to_sid-from_sid, to_sid-append}
use adchubd.Entity.{Entity}
use adchubd.Entity.Fields.{four_ccs, filters_of}
use adchubd.Entity.Supports.{contains, drops, filter_loop, is_filtered}

-- The features with commas between them.
unfoldable pub joined : List ℕ → Bytes
joined [] = []
joined (f ∷ []) = from_sid f
joined (f ∷ g ∷ fs) = from_sid f ++ (b',' ∷ joined (g ∷ fs))

abbrev pub IsWord : ℕ → Type 0
IsWord f = f < 2 ^ 32

length-joined : (f : ℕ) (fs : List ℕ) → length (joined (f ∷ fs)) + 1 ≡ 5 * (length fs + 1)
unfolding joined from_sid
length-joined f [] = omega arith
length-joined f (g ∷ fs) = omega (arith, length-joined g fs)

four_ccs-joined :
    (fuel : ℕ) (f : ℕ) (fs : List ℕ)
    → All IsWord (f ∷ fs)
    → length (joined (f ∷ fs)) ≤ fuel
    → four_ccs fuel (joined (f ∷ fs)) ≡ f ∷ fs
unfolding joined from_sid four_ccs
four_ccs-joined zero f [] h le = absurd (omega arith)
four_ccs-joined zero f (g ∷ fs) h le = absurd (omega (arith, length-joined f (g ∷ fs)))
four_ccs-joined (suc n) f [] h le = ground (arith, to_sid-from_sid f h.0)
four_ccs-joined (suc n) f (g ∷ fs) h le =
    rw (to_sid-append f (b',' ∷ joined (g ∷ fs)) h.0)
      (ap (◌∷◌ f) (four_ccs-joined n g fs h.1 (omega arith)))

-- A client that announces distinct or repeated features, each a 32-bit code, with commas between
-- them in the field SU gets exactly these as its filters, in order.
filters_of-joined : (fs : List ℕ) → All IsWord fs → filters_of (joined fs) ≡ fs
unfolding filters_of
filters_of-joined [] h = unfold joined in refl
filters_of-joined (f ∷ fs) h =
    let e : (length (joined (f ∷ fs)) + 1) % 5 ≡ 0 = omega (arith, length-joined f fs) in
    rw e (four_ccs-joined (length (joined (f ∷ fs))) f fs h (omega arith))

-- One entry of the feature list of a command of the type F.
pub data Selector : Type 0 where
  need : ℕ → Selector
  forbid : ℕ → Selector

abbrev pub code : Selector → ℕ
code (need f) = f
code (forbid f) = f

abbrev pub sign : Selector → ℕ
sign (need f) = b'+'
sign (forbid f) = b'-'

unfoldable pub written : List Selector → Bytes
written [] = []
written (s ∷ ss) = sign s ∷ (from_sid (code s) ++ written ss)

unfoldable pub holds : List ℕ → Selector → Bool
holds filters (need f) = contains f filters
holds filters (forbid f) = not (contains f filters)

unfoldable pub admits : List ℕ → List Selector → Bool
admits filters [] = true
admits filters (s ∷ ss) = holds filters s && admits filters ss

drops-written :
    (filters : List ℕ) (s : Selector) (rest : Bytes)
    → IsWord (code s)
    → drops filters (sign s ∷ (from_sid (code s) ++ rest)) ≡ not (holds filters s)
unfolding drops holds
drops-written filters (need f) rest h = rw (to_sid-append f rest h)
drops-written filters (forbid f) rest h = rw (to_sid-append f rest h) (ground arith)

length-written : (ss : List Selector) → length (written ss) ≡ 5 * length ss
unfolding written from_sid
length-written [] = refl
length-written (s ∷ ss) = omega (arith, length-written ss)

drop_four : (f : ℕ) (s : Bytes) → drop 4 (from_sid f ++ s) ≡ s
unfolding from_sid
drop_four f s = refl

filter_loop-written :
    (fuel : ℕ) (filters : List ℕ) (ss : List Selector)
    → All (λ s. IsWord (code s)) ss
    → length ss ≤ fuel
    → filter_loop fuel filters (written ss) ≡ not (admits filters ss)
unfolding filter_loop written admits
filter_loop-written fuel filters [] h le = refl
filter_loop-written zero filters (s ∷ ss) h le = absurd (omega arith)
filter_loop-written (suc n) filters (s ∷ ss) h le =
    rw (drops-written filters s (written ss) h.0, drop_four (code s) (written ss))
      (ground (arith, filter_loop-written n filters ss h.1))

-- `isFiltered` lets exactly the entities pass that have filters at all, have every feature that the
-- list asks for with "+", and have none that it excludes with "-".
pub is_filtered-written :
    (e : Entity) (ss : List Selector)
    → All (λ s. IsWord (code s)) ss
    → is_filtered e (written ss) ≡ (is_empty e.filters || not (admits e.filters ss))
unfolding is_filtered
is_filtered-written e ss h =
    ground (arith, filter_loop-written (length (written ss)) e.filters ss h, length-written ss)
