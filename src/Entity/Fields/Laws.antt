-- ===== src/Entity/Fields/Laws.antt =====
-- The fields of an entity as a map, and what an INF command changes in it.
use adchubd.Base.{
  ℕ, suc, ◌<◌, ◌≡◌, ◌≢◌, refl, ap, ◌∙◌, arith, false, not, ◌&&◌, List, [], ◌∷◌, none, some, Bytes,
  ◌==◌, ltb, if◌then◌else◌, length, drop, is_empty, Bool-cases, inl, inr,
}
use adchubd.AdcCommand.{AdcCommand, to_field}
use adchubd.Entity.{Entity}
use adchubd.Entity.Fields.{
  lookup, assign, remove, su, pd, or_empty, get_field, filters_of, set_field, update_field,
  update_loop, update_fields,
}

-- The keys of a `std::map` increase.
abbrev pub Above : ℕ → List (ℕ × Bytes) → Type 0
Above n [] = Unit {0}
Above n ((k, v) ∷ m) = (n < k) × Above k m

abbrev pub IsOrdered : List (ℕ × Bytes) → Type 0
IsOrdered [] = Unit {0}
IsOrdered ((k, v) ∷ m) = Above k m

Above→IsOrdered : (n : ℕ) (m : List (ℕ × Bytes)) → Above n m → IsOrdered m
Above→IsOrdered n [] a = tt
Above→IsOrdered n ((k, v) ∷ m) a = a.1

Above-mono : (n k : ℕ) (m : List (ℕ × Bytes)) → n < k → Above k m → Above n m
Above-mono n k [] h a = tt
Above-mono n k ((j, v) ∷ m) h a = (omega arith, a.1)

lookup-Above : (n k : ℕ) (m : List (ℕ × Bytes)) → Above n m → k < suc n → lookup k m ≡ none
unfolding lookup
lookup-Above n k [] a h = refl
lookup-Above n k ((j, v) ∷ m) a h = ground (arith, lookup-Above j k m a.1)

pub lookup-assign :
    (k j : ℕ) (v : Bytes) (m : List (ℕ × Bytes))
    → lookup j (assign k v m) ≡ (if k == j then some v else lookup j m)
unfolding lookup assign
lookup-assign k j v [] = refl
lookup-assign k j v ((i, w) ∷ m) = ground (arith, lookup-assign k j v m)

pub lookup-remove :
    (k j : ℕ) (m : List (ℕ × Bytes))
    → IsOrdered m
    → lookup j (remove k m) ≡ (if k == j then none else lookup j m)
unfolding lookup remove
lookup-remove k j [] h = ground arith
lookup-remove k j ((i, w) ∷ m) h =
    ground (arith, lookup-remove k j m (Above→IsOrdered i m h), lookup-Above i j m h)

Above-assign :
    (n k : ℕ) (v : Bytes) (m : List (ℕ × Bytes)) → n < k → Above n m → Above n (assign k v m)
unfolding assign
Above-assign n k v [] h a = (h, tt)
Above-assign n k v ((i, w) ∷ m) h a = ground (arith, Above-assign i k v m)

pub assign-IsOrdered :
    (k : ℕ) (v : Bytes) (m : List (ℕ × Bytes)) → IsOrdered m → IsOrdered (assign k v m)
unfolding assign
assign-IsOrdered k v [] h = tt
assign-IsOrdered k v ((i, w) ∷ m) h = ground (arith, Above-assign i k v m)

Above-remove : (n k : ℕ) (m : List (ℕ × Bytes)) → Above n m → Above n (remove k m)
unfolding remove
Above-remove n k [] a = tt
Above-remove n k ((i, w) ∷ m) a = ground (arith, Above-remove i k m, Above-mono n i m)

remove-IsOrdered : (k : ℕ) (m : List (ℕ × Bytes)) → IsOrdered m → IsOrdered (remove k m)
unfolding remove
remove-IsOrdered k [] h = tt
remove-IsOrdered k ((i, w) ∷ m) h = ground (arith, Above-remove i k m, Above→IsOrdered i m)

-- What the fields keep between calls: increasing keys, and the filters are those of the field SU.
pub record IsConsistent (e : Entity) : Type 0 where
  pub ordered : IsOrdered e.fields
  pub filters_match : e.filters ≡ filters_of (or_empty (lookup su e.fields))

pub fields-set_field :
    (e : Entity) (name value : Bytes)
    → IsOrdered e.fields
    → IsOrdered (set_field e name value).fields
unfolding set_field is_empty
fields-set_field e name [] h = remove-IsOrdered (to_field name) e.fields h
fields-set_field e name (c ∷ value) h = assign-IsOrdered (to_field name) (c ∷ value) e.fields h

lookup-set_field :
    (e : Entity) (name value : Bytes) (j : ℕ)
    → IsOrdered e.fields
    → or_empty (lookup j (set_field e name value).fields)
      ≡ (if to_field name == j then value else or_empty (lookup j e.fields))
unfolding set_field is_empty
lookup-set_field e name [] j h = ground (arith, lookup-remove (to_field name) j e.fields h)
lookup-set_field e name (c ∷ value) j h =
    ground (arith, lookup-assign (to_field name) j (c ∷ value) e.fields)

-- After `setField` the field has the value given, the empty one included, which removes the
-- entry; every other field is unchanged.
get_field-set_field :
    (e : Entity) (name other value : Bytes)
    → IsConsistent e
    → get_field (set_field e name value) other
      ≡ (if to_field name == to_field other then value else get_field e other)
unfolding get_field
get_field-set_field e name other value h = lookup-set_field e name value (to_field other) h.ordered

-- `setField` keeps the order of the map, and keeps the filters in step with the field SU.
pub set_field-IsConsistent :
    (e : Entity) (name value : Bytes) → IsConsistent e → IsConsistent (set_field e name value)
set_field-IsConsistent e name value h = record {
  ordered = fields-set_field e name value h.ordered;
  filters_match = elim (Bool-cases (to_field name == su)) [
    | inl y ↦ rw (lookup-set_field e name value su h.ordered) (unfold set_field in rw y)
    | inr n ↦
        rw (lookup-set_field e name value su h.ordered) (unfold set_field in rw n h.filters_match)
  ];
}

update_field-IsConsistent :
    (e : Entity) (p : Bytes) → IsConsistent e → IsConsistent (update_field e p)
unfolding update_field
update_field-IsConsistent e p h = elim (Bool-cases (ltb (length p) 2)) [
  | inl a ↦ rw a h
  | inr a ↦ elim (Bool-cases (to_field p == pd)) [
    | inl b ↦ rw (a, b) h
    | inr b ↦ rw (a, b) (set_field-IsConsistent e p (drop 2 p) h)
  ]
]

update_loop-IsConsistent :
    (ps : List Bytes) (e : Entity) → IsConsistent e → IsConsistent (update_loop e ps)
unfolding update_loop
update_loop-IsConsistent [] e h = h
update_loop-IsConsistent (p ∷ ps) e h =
    update_loop-IsConsistent ps _ (update_field-IsConsistent e p h)

pub update_fields-IsConsistent :
    (e : Entity) (cmd : AdcCommand) → IsConsistent e → IsConsistent (update_fields e cmd)
unfolding update_fields
update_fields-IsConsistent e cmd h = update_loop-IsConsistent cmd.parameters e h

-- The value that a list of parameters leaves in the field `j`: that of the last one of the name.
unfoldable pub last_value : ℕ → Bytes → List Bytes → Bytes
last_value j old [] = old
last_value j old (p ∷ ps) =
    last_value j (if not (ltb (length p) 2) && to_field p == j then drop 2 p else old) ps

pub update_field-IsOrdered :
    (e : Entity) (p : Bytes) → IsOrdered e.fields → IsOrdered (update_field e p).fields
unfolding update_field
update_field-IsOrdered e p h = elim (Bool-cases (ltb (length p) 2)) [
  | inl a ↦ rw a h
  | inr a ↦ elim (Bool-cases (to_field p == pd)) [
    | inl b ↦ rw (a, b) h
    | inr b ↦ rw (a, b) (fields-set_field e p (drop 2 p) h)
  ]
]

update_loop-IsOrdered :
    (ps : List Bytes) (e : Entity) → IsOrdered e.fields → IsOrdered (update_loop e ps).fields
unfolding update_loop
update_loop-IsOrdered [] e h = h
update_loop-IsOrdered (p ∷ ps) e h = update_loop-IsOrdered ps _ (update_field-IsOrdered e p h)

pub update_fields-IsOrdered :
    (e : Entity) (cmd : AdcCommand) → IsOrdered e.fields → IsOrdered (update_fields e cmd).fields
unfolding update_fields
update_fields-IsOrdered e cmd h = update_loop-IsOrdered cmd.parameters e h

pub update_loop-last_value :
    (ps : List Bytes) (e : Entity) (j : ℕ)
    → IsOrdered e.fields
    → j ≢ pd
    → or_empty (lookup j (update_loop e ps).fields) ≡ last_value j (or_empty (lookup j e.fields)) ps
unfolding update_loop last_value
update_loop-last_value [] e j h ne = refl
update_loop-last_value (p ∷ ps) e j h ne =
    update_loop-last_value ps (update_field e p) j (update_field-IsOrdered e p h) ne
    ∙ ap (λ v. last_value j v ps) one
  where
    one : or_empty (lookup j (update_field e p).fields) ≡ (
        if not (ltb (length p) 2) && to_field p == j
        then drop 2 p
        else or_empty (lookup j e.fields))
    one = unfold update_field in ground (arith, lookup-set_field e p (drop 2 p) j h)

pub get_field-update_fields :
    (e : Entity) (cmd : AdcCommand) (name : Bytes)
    → IsOrdered e.fields
    → to_field name ≢ pd
    → get_field (update_fields e cmd) name
      ≡ last_value (to_field name) (get_field e name) cmd.parameters
unfolding get_field update_fields
get_field-update_fields e cmd name h ne =
    update_loop-last_value cmd.parameters e (to_field name) h ne

lookup-set_field_ne :
    (e : Entity) (name value : Bytes) (j : ℕ)
    → IsOrdered e.fields
    → (to_field name == j) ≡ false
    → lookup j (set_field e name value).fields ≡ lookup j e.fields
unfolding set_field is_empty
lookup-set_field_ne e name [] j h ne = ground (arith, lookup-remove (to_field name) j e.fields h)
lookup-set_field_ne e name (c ∷ value) j h ne =
    ground (arith, lookup-assign (to_field name) j (c ∷ value) e.fields)

update_field-pd :
    (e : Entity) (p : Bytes)
    → IsOrdered e.fields
    → lookup pd (update_field e p).fields ≡ lookup pd e.fields
unfolding update_field
update_field-pd e p h = elim (Bool-cases (ltb (length p) 2)) [
  | inl a ↦ rw a
  | inr a ↦ elim (Bool-cases (to_field p == pd)) [
    | inl b ↦ rw (a, b)
    | inr b ↦ rw (a, b) (lookup-set_field_ne e p (drop 2 p) pd h b)
  ]
]

pub update_loop-pd :
    (ps : List Bytes) (e : Entity)
    → IsOrdered e.fields
    → lookup pd (update_loop e ps).fields ≡ lookup pd e.fields
unfolding update_loop
update_loop-pd [] e h = refl
update_loop-pd (p ∷ ps) e h =
    update_loop-pd ps _ (update_field-IsOrdered e p h) ∙ update_field-pd e p h

-- For an entity whose fields have increasing keys, as those of a `std::map` have, the private id stays
-- private: no INF command, whatever its parameters, puts a value
-- in the field PD or changes the one that is there.
pub update_fields-pd :
    (e : Entity) (cmd : AdcCommand)
    → IsOrdered e.fields
    → lookup pd (update_fields e cmd).fields ≡ lookup pd e.fields
unfolding update_fields
update_fields-pd e cmd h = update_loop-pd cmd.parameters e h
