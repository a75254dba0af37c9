-- ===== src/Entity/Supports/Laws.antt =====
-- The SUP features of an entity as a set.
use adchubd.Base.{
  ℕ, ◌≡◌, refl, arith, true, false, not, ◌||◌, List, [], ◌∷◌, ◌++◌, Bytes, ◌==◌, if◌then◌else◌,
  drop, Bool-cases, inl, inr,
}
use adchubd.AdcCommand.{AdcCommand, to_four_cc}
use adchubd.Entity.{Entity}
use adchubd.Entity.Supports.{
  contains, erase_first, add_supports, remove_supports, has_support, update_support,
  update_supports_loop, update_supports,
}

-- No feature is listed twice.
abbrev pub IsDistinct : List ℕ → Type 0
IsDistinct [] = Unit {0}
IsDistinct (x ∷ xs) = (contains x xs ≡ false) × IsDistinct xs

contains-append : (x y : ℕ) (xs : List ℕ) → contains x (xs ++ y ∷ []) ≡ (contains x xs || y == x)
unfolding contains
contains-append x y [] = ground arith
contains-append x y (z ∷ xs) = ground (arith, contains-append x y xs)

contains-erase_first :
    (x y : ℕ) (xs : List ℕ)
    → IsDistinct xs
    → contains x (erase_first y xs) ≡ (if y == x then false else contains x xs)
unfolding contains erase_first
contains-erase_first x y [] h = ground arith
contains-erase_first x y (z ∷ xs) h = elim (Bool-cases (z == y)) [
  | inl e ↦ ground arith
  | inr e ↦ ground (arith, contains-erase_first x y xs h.1)
]

append-IsDistinct :
    (x : ℕ) (xs : List ℕ) → IsDistinct xs → contains x xs ≡ false → IsDistinct (xs ++ x ∷ [])
unfolding contains
append-IsDistinct x [] h n = (refl, tt)
append-IsDistinct x (y ∷ xs) h n =
    ground (arith, contains-append y x xs, append-IsDistinct x xs h.1)

erase_first-IsDistinct : (x : ℕ) (xs : List ℕ) → IsDistinct xs → IsDistinct (erase_first x xs)
unfolding erase_first
erase_first-IsDistinct x [] h = tt
erase_first-IsDistinct x (y ∷ xs) h =
    ground (arith, contains-erase_first y x xs h.1, erase_first-IsDistinct x xs h.1)

-- `addSupports` and `removeSupports` say whether they changed anything, which they do exactly when
-- the feature was missing, or was there; the other features stay, and none is listed twice.
record Changes (e : Entity) (feature : ℕ) : Type 0 where
  added : (add_supports e feature).1 ≡ not (has_support e feature)
  removed : (remove_supports e feature).1 ≡ has_support e feature
  has_added :
      (other : ℕ)
      → has_support (add_supports e feature).0 other
        ≡ (if feature == other then true else has_support e other)
  has_removed :
      (other : ℕ)
      → has_support (remove_supports e feature).0 other
        ≡ (if feature == other then false else has_support e other)
  added_distinct : IsDistinct (add_supports e feature).0.supports
  removed_distinct : IsDistinct (remove_supports e feature).0.supports

-- For an entity whose features are distinct, adding and removing one are the operations of a set:
-- the results tell what changed, membership changes for that feature alone, and the list stays
-- free of repetitions.
add_supports-Changes : (e : Entity) (feature : ℕ) → IsDistinct e.supports → Changes e feature
unfolding add_supports remove_supports
add_supports-Changes e feature h = elim (Bool-cases (contains feature e.supports)) [
  | inl y ↦ record {
    added = ground arith;
    removed = ground arith;
    has_added = λ o. ground arith;
    has_removed = λ o. ground (arith, contains-erase_first o feature e.supports h);
    added_distinct = ground arith;
    removed_distinct = ground (arith, erase_first-IsDistinct feature e.supports h);
  }
  | inr n ↦ record {
    added = ground arith;
    removed = ground arith;
    has_added = λ o. ground (arith, contains-append o feature e.supports);
    has_removed = λ o. ground arith;
    added_distinct = ground (arith, append-IsDistinct feature e.supports h);
    removed_distinct = ground arith;
  }
]

update_support-IsDistinct :
    (e : Entity) (p : Bytes) → IsDistinct e.supports → IsDistinct (update_support e p).supports
unfolding update_support
update_support-IsDistinct e p h = ground (
  arith,
  (add_supports-Changes e (to_four_cc (drop 2 p)) h).added_distinct,
  (add_supports-Changes e (to_four_cc (drop 2 p)) h).removed_distinct,
)

update_loop-IsDistinct :
    (ps : List Bytes) (e : Entity)
    → IsDistinct e.supports
    → IsDistinct (update_supports_loop e ps).supports
unfolding update_supports_loop
update_loop-IsDistinct [] e h = h
update_loop-IsDistinct (p ∷ ps) e h = update_loop-IsDistinct ps _ (update_support-IsDistinct e p h)

-- No SUP command, whatever its parameters, makes a feature be listed twice.
update_supports-IsDistinct :
    (e : Entity) (cmd : AdcCommand)
    → IsDistinct e.supports
    → IsDistinct (update_supports e cmd).supports
unfolding update_supports
update_supports-IsDistinct e cmd h = update_loop-IsDistinct cmd.parameters e h
