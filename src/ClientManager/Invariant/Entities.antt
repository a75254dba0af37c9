-- ===== src/ClientManager/Invariant/Entities.antt =====
-- The operations on one entity that keep its names, its marks and its kind.
use adchubd.Base.{
  ℕ, ◌≡◌, refl, sym, ◌∙◌, ap, subst, Bool, true, false, List, [], ◌∷◌, Option, none, some, Bytes,
  codes, arith, Bool-cases, Option-cases, inl, inr, if◌then◌else◌, ltb, not, ◌&&◌, ◌==◌, length,
  get_or,
}
use mathlib.Core.Option.{some-injective}
use adchubd.AdcCommand.{AdcCommand, to_field}
use adchubd.Entity.{Entity}
use adchubd.Entity.Fields.{
  get_field, lookup, assign, su, pd, set_field, update_field, update_loop, update_fields,
}
use adchubd.Entity.Fields.Laws.{lookup-assign, assign-IsOrdered, IsOrdered}
use adchubd.Entity.Flags.{is_set, set_flag, unset_flag, flag_ghost, flag_validate_hbri}
use adchubd.Entity.Flags.Laws.{is_set-set_flag_ne}
use adchubd.Entity.Info.{get_inf, get_sup, kept_inf, kept_sup}
use adchubd.Entity.Supports.{
  update_support, update_supports_loop, update_supports, add_supports, remove_supports, contains,
  remove_client_support, Outcome, done, fault, strip_feature, erase_first,
}
use adchubd.ClientManager.Removal.{is_normal}
use adchubd.ClientManager.Leaving.{is_protocol}
use adchubd.ClientManager.Hbri.{await, removed, strip_supports, ◌>>=◌}
use adchubd.ClientManager.Invariant.{SameId, SameId-refl, SameId-trans, is_early}

-- The fields that the names come from, and all others that matter here.
SameId-plain :
    {e f : Entity}
    → e.kind ≡ f.kind
    → e.sid ≡ f.sid
    → e.cid ≡ f.cid
    → e.fields ≡ f.fields
    → is_set e flag_ghost ≡ is_set f flag_ghost
    → e.state ≡ f.state
    → SameId e f
SameId-plain k s c fs g st = record {
  kind = k;
  sid = s;
  cid = c;
  nick = unfold get_field in rw fs refl;
  ghost = g;
  normal = λ h. ap is_normal (sym st) ∙ h;
  early = λ h. ap is_early st ∙ h;
  protocol = λ h. ap is_protocol st ∙ h;
  ordered = λ h. subst IsOrdered fs h;
  fields = λ j n. ap (lookup j) fs;
}

pub get_inf-SameId : (e : Entity) → SameId e ((get_inf e).0)
unfolding get_inf kept_inf
get_inf-SameId e = elim (Option-cases e.inf) [
  | inl h ↦ rw h (SameId-plain refl refl refl refl refl refl)
  | inr (b, h) ↦ rw h (SameId-plain refl refl refl refl refl refl)
]

pub get_sup-SameId : (e : Entity) → SameId e ((get_sup e).0)
unfolding get_sup kept_sup
get_sup-SameId e = elim (Option-cases e.sup) [
  | inl h ↦ rw h (SameId-plain refl refl refl refl refl refl)
  | inr (b, h) ↦ rw h (SameId-plain refl refl refl refl refl refl)
]

pub set_flag-SameId : (e : Entity) → SameId e (set_flag e flag_validate_hbri)
set_flag-SameId e =
    let g =
      sym (is_set-set_flag_ne e flag_validate_hbri flag_ghost (omega arith) (omega arith) refl).0 in
    unfold set_flag in SameId-plain refl refl refl refl (unfold set_flag in g) refl

pub unset_flag-SameId : (e : Entity) → SameId e (unset_flag e flag_validate_hbri)
unset_flag-SameId e =
    let g =
      sym (is_set-set_flag_ne e flag_validate_hbri flag_ghost (omega arith) (omega arith) refl).1 in
    unfold unset_flag in SameId-plain refl refl refl refl (unfold unset_flag in g) refl

pub await-SameId : (e : Entity) → SameId e (await e)
unfolding await
await-SameId e =
    let s = set_flag-SameId e in
    elim (Bool-cases (is_normal (set_flag e flag_validate_hbri).state)) [
      | inl h ↦ rw h s
      | inr h ↦ rw h (
          SameId-trans s (record {
            kind = refl;
            sid = refl;
            cid = refl;
            nick = unfold get_field in refl;
            ghost = refl;
            normal = λ t. absurd (cc);
            early = λ t. absurd (cc);
            protocol = λ t. absurd (cc);
            ordered = λ t. t;
            fields = λ j n. refl;
          }))
    ]

if-SameId : {e f g : Entity} (t : Bool) → SameId e f → SameId e g → SameId e (if t then f else g)
if-SameId true p q = p
if-SameId false p q = q

add_supports-SameId : (e : Entity) (feature : ℕ) → SameId e ((add_supports e feature).0)
unfolding add_supports
add_supports-SameId e feature = elim (Bool-cases (contains feature e.supports)) [
  | inl h ↦ rw h (SameId-refl e)
  | inr h ↦ rw h (SameId-plain refl refl refl refl refl refl)
]

remove_supports-SameId : (e : Entity) (feature : ℕ) → SameId e ((remove_supports e feature).0)
unfolding remove_supports
remove_supports-SameId e feature = elim (Bool-cases (contains feature e.supports)) [
  | inl h ↦ rw h (SameId-plain refl refl refl refl refl refl)
  | inr h ↦ rw h (SameId-refl e)
]

update_support-SameId : (e : Entity) (p : Bytes) → SameId e (update_support e p)
unfolding update_support
update_support-SameId e p = if-SameId (not (length p == 6)) (SameId-refl e) (
    if-SameId (get_or p 0 0 == b'A' && get_or p 1 0 == b'D') (add_supports-SameId e _) (
      if-SameId (get_or p 0 0 == b'R' && get_or p 1 0 == b'M') (remove_supports-SameId e _)
        (SameId-refl e)))

update_supports_loop-SameId : (ps : List Bytes) (e : Entity) → SameId e (update_supports_loop e ps)
unfolding update_supports_loop
update_supports_loop-SameId [] e = SameId-refl e
update_supports_loop-SameId (p ∷ ps) e =
    SameId-trans (update_support-SameId e p) (update_supports_loop-SameId ps (update_support e p))

pub update_supports-SameId : (e : Entity) (cmd : AdcCommand) → SameId e (update_supports e cmd)
unfolding update_supports
update_supports-SameId e cmd = update_supports_loop-SameId cmd.parameters e

-- An entity that comes out of `removeClientSupport` is the one that went in.
abbrev IsSame : Entity → Outcome → Type 0
IsSame e (done f b) = SameId e f
IsSame e fault = Unit {0}

set_su-SameId :
    (e : Entity) (filters : List ℕ) (text : Bytes)
    → SameId e (record e { filters = filters; fields = assign su text e.fields })
set_su-SameId e filters text = record {
  kind = refl;
  sid = refl;
  cid = refl;
  nick = unfold get_field in rw (lookup-assign su (to_field (codes "NI")) text e.fields) refl;
  ghost = refl;
  normal = λ h. h;
  early = λ h. h;
  protocol = λ h. h;
  ordered = λ h. assign-IsOrdered su text e.fields h;
  fields = λ j n. sym (lookup-assign su j text e.fields ∙ rw n refl);
}

remove_client_support-IsSame :
    (e : Entity) (feature : ℕ) → IsSame e (remove_client_support e feature)
unfolding remove_client_support
remove_client_support-IsSame e feature = elim (Bool-cases (contains feature e.filters)) [
  | inr h ↦ rw h (SameId-refl e)
  | inl h ↦ elim (Option-cases (lookup su e.fields)) [
    | inl l ↦ rw (h, l) tt
    | inr (value, l) ↦ elim (Option-cases (strip_feature (length e.supports) feature value)) [
      | inl k ↦ rw (h, l, k) tt
      | inr (text, k) ↦ rw (h, l, k) (set_su-SameId e (erase_first feature e.filters) text)
    ]
  ]
]

removed-IsSame : (e f : Entity) (o : Outcome) → IsSame e o → removed o ≡ some f → SameId e f
unfolding removed
removed-IsSame e f (done g b) s h = subst (λ x. SameId e x) (some-injective _ _ h) s
removed-IsSame e f fault s h = absurd (cc)

-- The first step of a chain has a result where the chain has one.
pub bind_some {ℓ κ} :
    {A : Type ℓ} {B : Type κ} (o : Option A) (f : A → Option B) (r : B)
    → (o >>= f) ≡ some r
    → (x : A) × (o ≡ some x) × (f x ≡ some r)
bind_some none f r h = absurd (cc)
bind_some (some x) f r h = (x, refl, h)

pub strip_supports-SameId : (v6 : Bool) (e f : Entity) → strip_supports v6 e ≡ some f → SameId e f
unfolding strip_supports
strip_supports-SameId v6 e f h =
    let (g, first, rest) = bind_some (removed (remove_client_support e _)) _ f h in
    SameId-trans (removed-IsSame e g _ (remove_client_support-IsSame e _) first)
      (removed-IsSame g f _ (remove_client_support-IsSame g _) rest)

-- What `updateFields` leaves as it was.
pub record Marks (e f : Entity) : Type 0 where
  pub kind : e.kind ≡ f.kind
  pub sid : e.sid ≡ f.sid
  pub cid : e.cid ≡ f.cid
  pub flags : e.flags ≡ f.flags
  pub state : e.state ≡ f.state

update_field-Marks : (e : Entity) (p : Bytes) → Marks e (update_field e p)
unfolding update_field set_field
update_field-Marks e p = elim (Bool-cases (ltb (length p) 2)) [
  | inl t ↦ rw t (record { kind = refl; sid = refl; cid = refl; flags = refl; state = refl })
  | inr t ↦ elim (Bool-cases (to_field p == pd)) [
    | inl u ↦ rw (t, u) (record { kind = refl; sid = refl; cid = refl; flags = refl; state = refl })
    | inr u ↦ rw (t, u) (record { kind = refl; sid = refl; cid = refl; flags = refl; state = refl })
  ]
]

update_loop-Marks : (ps : List Bytes) (e : Entity) → Marks e (update_loop e ps)
unfolding update_loop
update_loop-Marks [] e = record { kind = refl; sid = refl; cid = refl; flags = refl; state = refl }
update_loop-Marks (p ∷ ps) e =
    let h = update_field-Marks e p in
    let r = update_loop-Marks ps (update_field e p) in
    record {
      kind = h.kind ∙ r.kind;
      sid = h.sid ∙ r.sid;
      cid = h.cid ∙ r.cid;
      flags = h.flags ∙ r.flags;
      state = h.state ∙ r.state;
    }

pub update_fields-Marks : (e : Entity) (cmd : AdcCommand) → Marks e (update_fields e cmd)
unfolding update_fields
update_fields-Marks e cmd = update_loop-Marks cmd.parameters e
