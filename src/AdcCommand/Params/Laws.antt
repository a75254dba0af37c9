-- ===== src/AdcCommand/Params/Laws.antt =====
-- `getParam`, `delParam` and `hasFlag` agree on the first parameter of a name.
use adchubd.Base.{
  ℕ, ◌<◌, ◌≡◌, ◌⊎◌, ◌↔◌, refl, ap, arith, Bool, true, false, ◌&&◌, List, [], ◌∷◌, ◌++◌, none, some,
  Bytes, ◌==◌, get_or, length, drop, take, All, Bool-cases, inl, inr,
}
use adchubd.AdcCommand.{AdcCommand}
use adchubd.AdcCommand.Params.{
  is_named, find_param, get_param, erase_param, del_param, find_flag, has_flag,
}

-- No parameter of that name.
abbrev pub Lacks : Bytes → List Bytes → Type 0
Lacks name ps = All (λ p. is_named name p ≡ false) ps

-- The first parameter of that name, and what stands on both sides of it.
pub record First (name : Bytes) (ps : List Bytes) : Type 0 where
  pub before : List Bytes
  pub found : Bytes
  pub behind : List Bytes
  pub splits : ps ≡ before ++ found ∷ behind
  pub lacks : Lacks name before
  pub named : is_named name found ≡ true

First-cons :
    {name : Bytes} {ps : List Bytes} (p : Bytes)
    → is_named name p ≡ false
    → First name ps
    → First name (p ∷ ps)
First-cons p miss f = record {
  before = p ∷ f.before;
  found = f.found;
  behind = f.behind;
  splits = ap (◌∷◌ p) f.splits;
  lacks = (miss, f.lacks);
  named = f.named;
}

First-cases : (name : Bytes) (ps : List Bytes) → Lacks name ps ⊎ First name ps
First-cases name [] = inl tt
First-cases name (p ∷ ps) = elim (Bool-cases (is_named name p)) [
  | inl hit ↦
      inr (record { before = []; found = p; behind = ps; splits = refl; lacks = tt; named = hit })
  | inr miss ↦ elim (First-cases name ps) [
    | inl l ↦ inl (miss, l)
    | inr f ↦ inr (First-cons p miss f)
  ]
]

module _ (name : Bytes) where
  find_param-Lacks : (ps : List Bytes) → Lacks name ps → find_param name ps ≡ none
  unfolding find_param
  find_param-Lacks [] l = refl
  find_param-Lacks (p ∷ ps) l = rw l.0 (find_param-Lacks ps l.1)

  erase_param-Lacks : (ps : List Bytes) → Lacks name ps → erase_param name ps ≡ none
  unfolding erase_param
  erase_param-Lacks [] l = refl
  erase_param-Lacks (p ∷ ps) l = rw (l.0, erase_param-Lacks ps l.1)

  find_flag-Lacks : (ps : List Bytes) → Lacks name ps → find_flag name ps ≡ false
  unfolding find_flag
  find_flag-Lacks [] l = refl
  find_flag-Lacks (p ∷ ps) l = rw l.0 (find_flag-Lacks ps l.1)

  module _ (found : Bytes) (behind : List Bytes) (hit : is_named name found ≡ true) where
    find_param_first :
        (before : List Bytes)
        → Lacks name before
        → find_param name (before ++ found ∷ behind) ≡ some (drop 2 found)
    unfolding find_param
    find_param_first [] l = rw hit
    find_param_first (p ∷ ps) l = rw l.0 (find_param_first ps l.1)

    erase_param_first :
        (before : List Bytes)
        → Lacks name before
        → erase_param name (before ++ found ∷ behind) ≡ some (before ++ behind)
    unfolding erase_param
    erase_param_first [] l = rw hit
    erase_param_first (p ∷ ps) l = rw (l.0, erase_param_first ps l.1)

-- No parameter of that name stands at or behind `start`: `getParam` and `hasFlag` say no, and
-- `delParam` changes nothing.
pub record Misses (c : AdcCommand) (name : Bytes) (start : ℕ) : Type 0 where
  pub lacks : Lacks name (drop start c.parameters)
  pub get_none : get_param c name start ≡ none
  pub flag_false : has_flag c name start ≡ false
  pub del_none : del_param c name start ≡ (c, false)

-- The first one is what `getParam` reads and what `delParam` takes out, with the kept buffer; the
-- other parameters stay, in order.
pub record Hits (c : AdcCommand) (name : Bytes) (start : ℕ) : Type 0 where
  pub first : First name (drop start c.parameters)
  pub get_first : get_param c name start ≡ some (drop 2 first.found)
  pub del_first : del_param c name start ≡ (
    record c {
      parameters = take start c.parameters ++ (first.before ++ first.behind);
      buffer = none;
    },
    true,
  )

-- For every command, name and start, either there is no parameter of that name, and `getParam`,
-- `hasFlag` and `delParam` all report that and leave the command alone, or `getParam` returns the
-- value of the first one and `delParam` removes exactly that one and the kept buffer.
pub get_param-del_param :
    (c : AdcCommand) (name : Bytes) (start : ℕ) → Misses c name start ⊎ Hits c name start
unfolding get_param del_param has_flag
get_param-del_param c name start = elim (First-cases name (drop start c.parameters)) [
  | inl l ↦ inl (record {
    lacks = l;
    get_none = find_param-Lacks name _ l;
    flag_false = find_flag-Lacks name _ l;
    del_none = rw (erase_param-Lacks name _ l, del_param);
  })
  | inr f ↦ inr (record {
    first = f;
    get_first = rw f.splits (find_param_first name f.found f.behind f.named f.before f.lacks);
    del_first =
        let e : erase_param name (drop start c.parameters) ≡ some (f.before ++ f.behind) =
          rw f.splits (erase_param_first name f.found f.behind f.named f.before f.lacks) in
        rw (e, del_param);
  })
]

-- Some parameter of the list is exactly `p`.
pub data Holds (p : Bytes) : List Bytes → Type 0 where
  here : {q : Bytes} {ps : List Bytes} → q ≡ p → Holds p (q ∷ ps)
  there : {q : Bytes} {ps : List Bytes} → Holds p ps → Holds p (q ∷ ps)

abbrev pub IsByteList : Bytes → Type 0
IsByteList p = All (λ b. b < 256) p

module _ (a b : ℕ) (ha : a < 256) (hb : b < 256) where
  abbrev flag : Bytes
  flag = a ∷ b ∷ b'1' ∷ []

  abbrev tests : Bytes → Bool
  tests p = is_named (a ∷ b ∷ []) p && (length p == 3 && get_or p 2 0 == b'1')

  tests→flag : (p : Bytes) → IsByteList p → tests p ≡ true → p ≡ flag
  tests→flag [] h t = ground arith
  tests→flag (x ∷ []) h t = ground arith
  tests→flag (x ∷ y ∷ []) h t = ground arith
  tests→flag (x ∷ y ∷ z ∷ []) h t = ground arith
  tests→flag (x ∷ y ∷ z ∷ w ∷ r) h t = ground arith

  flag→tests : (p : Bytes) → p ≡ flag → tests p ≡ true
  flag→tests p e = rw e (ground arith)

  find_flag→Holds :
      (ps : List Bytes) → All IsByteList ps → find_flag (a ∷ b ∷ []) ps ≡ true → Holds flag ps
  unfolding find_flag
  find_flag→Holds [] h e = cc
  find_flag→Holds (p ∷ ps) h e = elim (Bool-cases (tests p)) [
    | inl t ↦ here (tests→flag p h.0 t)
    | inr f ↦ there (find_flag→Holds ps h.1 (rw f at e))
  ]

  Holds→find_flag : {ps : List Bytes} → Holds flag ps → find_flag (a ∷ b ∷ []) ps ≡ true
  unfolding find_flag
  Holds→find_flag (here {q} e) = rw (flag→tests q e)
  Holds→find_flag (there {q} m) = ground (arith, Holds→find_flag m)

  -- For a two-letter name, `hasFlag` is true exactly when a parameter at or behind `start` is that
  -- name followed by "1" and nothing else.
  pub has_flag_iff :
      (c : AdcCommand) (start : ℕ)
      → All IsByteList (drop start c.parameters)
      → (has_flag c (a ∷ b ∷ []) start ≡ true) ↔ Holds flag (drop start c.parameters)
  unfolding has_flag
  has_flag_iff c start h = (find_flag→Holds _ h, Holds→find_flag)
