-- ===== src/Entity/Supports/Removing.antt =====
-- What `removeClientSupport` does to the text of the field SU.
use adchubd.Base.{
  ℕ, zero, suc, ◌+◌, ◌-◌, ◌≤◌, ◌≡◌, refl, ap, arith, true, false, ◌||◌, [], ◌∷◌, ◌++◌, some, Bytes,
  ◌==◌, ltb, if◌then◌else◌, length, drop, is_empty, take, length-append, append-nil,
}
use adchubd.AdcCommand.{from_sid}
use adchubd.AdcCommand.Words.{length-from_sid}
use adchubd.Entity.{Entity}
use adchubd.Entity.Fields.{su, lookup, assign}
use adchubd.Entity.Supports.{
  contains, erase_first, find_bytes, ends_in_comma, cut_after, strip_feature, done, fault,
  remove_client_support,
}

take-length : (xs ys : Bytes) → take (length xs) (xs ++ ys) ≡ xs
take-length [] ys = refl
take-length (x ∷ xs) ys = ap (◌∷◌ x) (take-length xs ys)

drop_past : (n : ℕ) (xs : Bytes) → length xs ≤ n → drop n xs ≡ []
drop_past zero [] h = refl
drop_past zero (x ∷ xs) h = absurd (omega arith)
drop_past (suc n) [] h = refl
drop_past (suc n) (x ∷ xs) h = drop_past n xs (omega arith)

ends_in_comma-append : (front : Bytes) → ends_in_comma (front ++ b',' ∷ []) ≡ true
ends_in_comma-append [] = refl
ends_in_comma-append (x ∷ []) = refl
ends_in_comma-append (x ∷ y ∷ front) = ends_in_comma-append (y ∷ front)

is_empty-append : (front : Bytes) (c : ℕ) → is_empty (front ++ c ∷ []) ≡ false
unfolding is_empty
is_empty-append [] c = refl
is_empty-append (x ∷ front) c = refl

-- The text without the last feature, with the comma that stood before it.
abbrev pub cut_text : Bytes → Bytes
cut_text front = front ++ b',' ∷ []

strip_feature_last :
    (count feature : ℕ) (front : Bytes)
    → find_bytes (from_sid feature) (cut_text front ++ from_sid feature)
      ≡ some (length (cut_text front))
    → strip_feature count feature (cut_text front ++ from_sid feature)
      ≡ cut_after count (cut_text front)
unfolding strip_feature
strip_feature_last count feature front e =
    let past : drop (length (cut_text front) + 5) (cut_text front ++ from_sid feature) ≡ [] =
      drop_past (length (cut_text front) + 5) (cut_text front ++ from_sid feature) (
        omega
          (arith, length-append (cut_text front) (from_sid feature), length-from_sid feature)) in
    rw (e, strip_feature)
      (rw (
        past,
        take-length (cut_text front) (from_sid feature),
        append-nil,
        is_empty-append front b',',
        ends_in_comma-append front,
      ))

-- Where the feature to remove is the last one of several in the field SU, the text is cut by the
-- number of SUP features of the entity, and not by its own length: with `count` SUP features it
-- keeps its first `count - 1` bytes, and the call throws if that is more than it has, or if there
-- are no SUP features.
pub remove_client_support_last :
    (e : Entity) (feature : ℕ) (front : Bytes)
    → contains feature e.filters ≡ true
    → lookup su e.fields ≡ some (cut_text front ++ from_sid feature)
    → find_bytes (from_sid feature) (cut_text front ++ from_sid feature)
      ≡ some (length (cut_text front))
    → remove_client_support e feature ≡ (
        if length e.supports == 0 || ltb (length (cut_text front)) (length e.supports - 1)
        then fault
        else done
            (record e {
              filters = erase_first feature e.filters;
              fields = assign su (take (length e.supports - 1) (cut_text front)) e.fields;
            })
            true)
unfolding remove_client_support
remove_client_support_last e feature front has stored found =
    rw (has, stored, strip_feature_last (length e.supports) feature front found)
      (unfold cut_after in ground arith)
