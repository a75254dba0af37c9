-- ===== src/SimpleXml/Tree/Visits.antt =====
-- baselib/SimpleXML.cpp: a client's loop over the children of a name, which steps into each of them.
use adchubd.Base.{
  ◌⊎◌, subst, sym, ℕ, zero, suc, ◌+◌, ◌<◌, ◌≡◌, refl, ap, ◌∙◌, Bool, true, false, List, ◌∷◌, Bytes,
  Option, none, some, Bool-cases, if◌then◌else◌, arith, inl, inr,
}
use adchubd.SimpleXml.{Tag, tag, Tags, no_tags, tags}
use adchubd.SimpleXml.Tree.{
  Around, SimpleXml, Moved, moved, refused, undefined, onto, children, reset_current_child,
  past_found, is_named, is_end, find_loop, find_child, step_in, step_out, current,
}

-- The tags of a name.
unfoldable pub named : Bytes → Tags → Tags
named wanted no_tags = no_tags
named wanted (tags t ts) = if is_named wanted t then tags t (named wanted ts) else named wanted ts

unfoldable pub count : Tags → ℕ
count no_tags = 0
count (tags t ts) = count ts + 1

abbrev with_first : Tag → Option (Tags × SimpleXml) → Option (Tags × SimpleXml)
with_first t none = none
with_first t (some (ts, x)) = some (tags t ts, x)

abbrev go_on :
    Option (Tag × SimpleXml) → (SimpleXml → Option (Tags × SimpleXml)) → Option (Tags × SimpleXml)
go_on none next = none
go_on (some (t, x)) next = with_first t (next x)

abbrev outside : Tag → Moved → Option (Tag × SimpleXml)
outside t (moved x) = some (t, x)
outside t (refused e) = none
outside t undefined = none

-- The tag that was stepped into, and where `body` and `stepOut` lead from there.
abbrev inside : (SimpleXml → SimpleXml) → Moved → Option (Tag × SimpleXml)
inside body (moved x) = outside (current x) (step_out (body x))
inside body (refused e) = none
inside body undefined = none

-- What a round does with the result of `findChild`.
abbrev visit_round :
    (SimpleXml → SimpleXml)
    → SimpleXml × Bool
    → (SimpleXml → Option (Tags × SimpleXml))
    → Option (Tags × SimpleXml)
visit_round body (x, false) next = some (no_tags, x)
visit_round body (x, true) next = go_on (inside body (step_in x)) next

-- `while (x.findChild(wanted)) { x.stepIn(); body; x.stepOut(); }`: the tags that were stepped into, in
-- order, and the last state, unless a step fails or there are no more rounds.
unfoldable pub visit : (SimpleXml → SimpleXml) → Bytes → ℕ → SimpleXml → Option (Tags × SimpleXml)
visit body wanted zero x = none
visit body wanted (suc fuel) x = visit_round body (find_child wanted x) (visit body wanted fuel)

-- The children that `findChild` looks at.
abbrev pub remaining : SimpleXml → Tags
remaining x = (past_found x).after

-- What a search leaves of a list with `k` tags, those of the name being `l`.
abbrev Leaves : Bytes → Tags → ℕ → Tags → Type 0
Leaves wanted l k no_tags = l ≡ no_tags
Leaves wanted l k (tags t rest) = (l ≡ tags t (named wanted rest)) × (count rest < k)

Leaves-suc :
    (wanted : Bytes) (l : Tags) (k : ℕ) (ts : Tags)
    → Leaves wanted l k ts
    → Leaves wanted l (k + 1) ts
Leaves-suc wanted l k no_tags h = h
Leaves-suc wanted l k (tags t rest) h = (h.0, omega arith)

find_loop-Leaves :
    (wanted : Bytes) (before ts : Tags)
    → Leaves wanted (named wanted ts) (count ts) (find_loop wanted before ts).1
unfolding find_loop named count
find_loop-Leaves wanted before no_tags = refl
find_loop-Leaves wanted before (tags t ts) = elim (Bool-cases (is_named wanted t)) [
  | inl yes_named ↦ rw yes_named (refl, omega arith)
  | inr other ↦ rw other (
      Leaves-suc wanted (named wanted ts) (count ts) _ (find_loop-Leaves wanted (tags t before) ts))
]

abbrev around : SimpleXml → Tags → Around
around x rest = record {
  name = x.name;
  attribs = x.attribs;
  text = x.text;
  before = x.before;
  after = rest;
}

abbrev entered : SimpleXml → Tag → Tags → SimpleXml
entered x (tag name attribs text kids) rest = record {
  name = name;
  attribs = attribs;
  text = text;
  before = no_tags;
  after = kids;
  found = false;
  outer = around x rest ∷ x.outer;
}

step_in_lem :
    (x : SimpleXml) (t : Tag) (rest : Tags)
    → x.after ≡ tags t rest
    → step_in x ≡ moved (entered x t rest)
unfolding step_in
step_in_lem x (tag name attribs text kids) rest e = ground arith

current-entered : (x : SimpleXml) (t : Tag) (rest : Tags) → current (entered x t rest) ≡ t
unfolding onto
current-entered x (tag name attribs text kids) rest = refl

outer-entered :
    (x : SimpleXml) (t : Tag) (rest : Tags) → (entered x t rest).outer ≡ around x rest ∷ x.outer
outer-entered x (tag name attribs text kids) rest = refl

step_out_lem :
    (x : SimpleXml) (p : Around) (outer : List Around)
    → x.outer ≡ p ∷ outer
    → step_out x
      ≡ moved (record {
        name = p.name;
        attribs = p.attribs;
        text = p.text;
        before = p.before;
        after = tags (current x) p.after;
        found = true;
        outer = outer;
      })
unfolding step_out
step_out_lem x p outer e = ground arith

-- The state is the one given but for the place among the children.
abbrev pub SameTag : SimpleXml → SimpleXml → Type 0
SameTag x y = (y.name ≡ x.name) × (y.attribs ≡ x.attribs) × (y.text ≡ x.text) × (y.outer ≡ x.outer)

-- The loop comes to an end, has stepped into these tags, and is where it began.
abbrev pub Visited : Tags → SimpleXml → Option (Tags × SimpleXml) → Type 0
Visited ts x none = ⊥
Visited ts x (some (seen, last)) = (seen ≡ ts) × SameTag x last × (remaining last ≡ no_tags)

Tags-cases : (ts : Tags) → (ts ≡ no_tags) ⊎ (t : Tag) × (rest : Tags) × (ts ≡ tags t rest)
Tags-cases no_tags = inl refl
Tags-cases (tags t rest) = inr (t, rest, refl)

past_found-SameTag : (x : SimpleXml) → SameTag x (past_found x)
past_found-SameTag x = ground arith

-- Where `findChild` comes to, and the state there.
abbrev there : Bytes → SimpleXml → Tags × Tags
there wanted x = find_loop wanted (past_found x).before (remaining x)

abbrev stopped : Bytes → SimpleXml → SimpleXml
stopped wanted x = record (past_found x) { before = (there wanted x).0; after = (there wanted x).1 }

abbrev arrived : Bytes → SimpleXml → SimpleXml
arrived wanted x = record (stopped wanted x) { found = true }

find_child_none :
    (wanted : Bytes) (x : SimpleXml)
    → (there wanted x).1 ≡ no_tags
    → find_child wanted x ≡ (stopped wanted x, false)
unfolding find_child
find_child_none wanted x e =
    ap (λ (b : Bool). if b then (stopped wanted x, false) else (arrived wanted x, true))
      (ap is_end e)

find_child_some :
    (wanted : Bytes) (x : SimpleXml) (t : Tag) (rest : Tags)
    → (there wanted x).1 ≡ tags t rest
    → find_child wanted x ≡ (arrived wanted x, true)
unfolding find_child
find_child_some wanted x t rest e =
    ap (λ (b : Bool). if b then (stopped wanted x, false) else (arrived wanted x, true))
      (ap is_end e)

remaining_none : (x : SimpleXml) → x.after ≡ no_tags → remaining x ≡ no_tags
remaining_none x e = ground arith

with_first-Visited :
    (x y : SimpleXml) (t : Tag) (ts : Tags) (o : Option (Tags × SimpleXml))
    → SameTag x y
    → Visited ts y o
    → Visited (tags t ts) x (with_first t o)
with_first-Visited x y t ts none s v = v
with_first-Visited x y t ts (some (seen, last)) s v = ground arith

module _ (body : SimpleXml → SimpleXml)
    (comes_back : (x : SimpleXml) → (body x).outer ≡ x.outer) where
  abbrev back : SimpleXml → Tag → Tags → SimpleXml
  back x t rest = record x { after = tags (current (body (entered x t rest))) rest; found = true }

  -- At a child, the loop steps into it and comes back to it.
  trip :
      (x : SimpleXml) (t : Tag) (rest : Tags)
      → x.after ≡ tags t rest
      → inside body (step_in x) ≡ some (t, back x t rest)
  trip x t rest e =
      let into = entered x t rest in
      ap (inside body) (step_in_lem x t rest e)
      ∙ ap (outside (current into)) (
          step_out_lem (body into) (around x rest) x.outer
            (comes_back into ∙ outer-entered x t rest))
      ∙ ap (λ (u : Tag). some (u, back x t rest)) (current-entered x t rest)

  visit-Visited :
      (wanted : Bytes) (fuel : ℕ) (x : SimpleXml)
      → count (remaining x) < fuel
      → Visited (named wanted (remaining x)) x (visit body wanted fuel x)
  unfolding visit
  visit-Visited wanted zero x h = absurd (omega arith)
  visit-Visited wanted (suc fuel) x h =
      let left = find_loop-Leaves wanted (past_found x).before (remaining x) in
      elim (Tags-cases (there wanted x).1) [
        | inl nothing ↦
            let l =
              subst (Leaves wanted (named wanted (remaining x)) (count (remaining x))) nothing
                left in
            rw (find_child_none wanted x nothing, visit)
              (sym l, past_found-SameTag x, remaining_none (stopped wanted x) nothing)
        | inr (t, rest, e) ↦
            let l =
              subst (Leaves wanted (named wanted (remaining x)) (count (remaining x))) e left in
            let came = back (arrived wanted x) t rest in
            let seen = visit-Visited wanted fuel came (omega arith) in
            let one_round =
              ap (λ (p : SimpleXml × Bool). visit_round body p (visit body wanted fuel))
                (find_child_some wanted x t rest e)
              ∙ ap (λ (o : Option (Tag × SimpleXml)). go_on o (visit body wanted fuel))
                  (trip (arrived wanted x) t rest e) in
            subst (λ (ts : Tags). Visited ts x (visit body wanted (suc fuel) x)) (sym l.0)
              (subst (Visited (tags t (named wanted rest)) x) (sym one_round) (
                with_first-Visited x came t (named wanted rest) (visit body wanted fuel came)
                  (past_found-SameTag x) seen))
      ]

  -- A client resets the place among the children of a tag and, for each child that `findChild` finds for
  -- a name, steps in, does something that ends at the same level, and steps out. Then no step fails, the
  -- loop ends, it has stepped into the children of this name, each one once and in order, and it is at
  -- the tag where it began, with no child left to look at.
  pub visit-named :
      (wanted : Bytes) (x : SimpleXml)
      → Visited
          (named wanted (children x))
          x
          (visit body wanted (suc (count (children x))) (reset_current_child x))
  visit-named wanted x =
      visit-Visited wanted (suc (count (children x))) (reset_current_child x) (omega arith)
