-- ===== src/ClientManager/Invariant/Claims.antt =====
-- What an INF that is accepted does to the names: the CID and the nick that it claims.
use adchubd.Base.{
  ℕ, ◌≡◌, ◌≢◌, refl, sym, ◌∙◌, ap, subst, true, false, List, [], Option, none, some, Bytes,
  Bool-cases, inl, inr, ◌⊎◌, ◌==◌, ==_iff, ==_refl,
}
use mathlib.Core.Option.{some-injective}
use adchubd.Base.Dict.{find, nat_eq, bytes_eq}
use adchubd.Cid
use adchubd.Entity.{Entity}
use adchubd.Entity.Fields.Laws.{IsOrdered}
use adchubd.Entity.Flags.{is_set, flag_ghost}
use adchubd.ClientManager.{ClientManager, deref}
use adchubd.ClientManager.Removal.{put, is_normal, is_client}
use adchubd.ClientManager.Removal.Removed.{find-put}
use adchubd.ClientManager.Invariant.{Live, Inv, nick_of, is_early}
use adchubd.ClientManager.Invariant.Names.{LiveClient}

-- An entity behind `put`.
pub put_cases :
    (a : ℕ) (p : Entity) (m : ClientManager) (c : ℕ) (x : Entity)
    → deref (put a p m) c ≡ some x
    → ((a ≡ c) × (p ≡ x)) ⊎ (((a == c) ≡ false) × (deref m c ≡ some x))
put_cases a p m c x h = elim (Bool-cases (a == c)) [
  | inl t ↦ inl ((==_iff a c).0 t, some-injective _ _ (sym (find-put a p m c ∙ rw t refl) ∙ h))
  | inr t ↦ inr (t, sym (find-put a p m c ∙ rw t refl) ∙ h)
]

-- The manager with another entity at an address, and other nicks and CIDs.
abbrev pub renamed :
    ℕ → Entity → List (Bytes × ℕ) → List (Bytes × ℕ) → ClientManager → ClientManager
renamed a p nicks cids m = record (put a p m) { nicks = nicks; cids = cids }

-- What a claim has to keep: the entity stays live and in its state, each entry is an old one of
-- another entity or names the entity by what it has now, and the entries of the others and its own
-- are there.
pub record Renames (b : Option ℕ) (a : ℕ) (f p : Entity) (m : ClientManager)
    (nicks cids : List (Bytes × ℕ)) : Type 0 where
  pub kind : f.kind ≡ p.kind
  pub sid : f.sid ≡ p.sid
  pub ghost : is_set f flag_ghost ≡ is_set p flag_ghost
  pub state : f.state ≡ p.state
  pub ordered : IsOrdered p.fields
  pub nick_named :
      (k : Bytes) (c : ℕ)
      → find k nicks ≡ some c
      → ((a ≡ c) × (nick_of p ≡ k) × (k ≢ [])) ⊎ (((a == c) ≡ false) × (find k m.nicks ≡ some c))
  pub cid_named :
      (k : Bytes) (c : ℕ)
      → find k cids ≡ some c
      → ((a ≡ c) × (p.cid ≡ k)) ⊎ (((a == c) ≡ false) × (find k m.cids ≡ some c))
  pub nick_kept :
      (k : Bytes) (c : ℕ)
      → k ≢ []
      → (a == c) ≡ false
      → find k m.nicks ≡ some c
      → find k nicks ≡ some c
  pub cid_kept :
      (k : Bytes) (c : ℕ) → (a == c) ≡ false → find k m.cids ≡ some c → find k cids ≡ some c
  pub nick_own : nick_of p ≢ [] → find (nick_of p) nicks ≡ some a
  pub cid_own : p.cid ≢ Cid.empty → find p.cid cids ≡ some a
  pub early :
      is_early p.state ≡ true
      → find a m.closing ≡ none
      → b ≢ some a
      → (p.cid ≡ Cid.empty) × ((k : Bytes) → find k cids ≢ some a)

pub Renames-Inv :
    (b0 b : Option ℕ) (a : ℕ) (f p : Entity) (m : ClientManager) (nicks cids : List (Bytes × ℕ))
    → LiveClient m a f
    → Renames b a f p m nicks cids
    → ((c : ℕ) → (a == c) ≡ false → b0 ≢ some c)
    → Inv b0 m
    → Inv b (renamed a p nicks cids m)
Renames-Inv b0 b a f p m nicks cids (at, fresh, k) r others v = record {
  listed = λ sid c h. elim (Bool-cases (a == c)) [
    | inl t ↦
        let (x, at', fresh', p') = v.listed sid c h in
        let q : some f ≡ some x = sym at ∙ ap (deref m) ((==_iff a c).0 t) ∙ at' in
        (
          p,
          find-put a p m c ∙ rw t refl,
          sym r.ghost ∙ fresh,
          (
            sym r.sid ∙ ap (λ z. z.sid) (some-injective _ _ q) ∙ p'.0,
            ap is_normal (sym r.state) ∙ ap (λ z. is_normal z.state) (some-injective _ _ q) ∙ p'.1,
          ),
        )
    | inr t ↦
        let (x, at', fresh', p') = v.listed sid c h in (x, find-put a p m c ∙ rw t at', fresh', p')
  ];
  named = λ key c h. elim (r.nick_named key c h) [
    | inl (s, q, ne) ↦
        subst
          (λ z.
            Live (λ e. (nick_of e ≡ key) × (is_client e.kind ≡ true) × (key ≢ []))
              (renamed a p nicks cids m) z)
          s (p, own, sym r.ghost ∙ fresh, (q, ap is_client (sym r.kind) ∙ k, ne))
    | inr (t, old) ↦
        let (x, at', fresh', p') = v.named key c old in (x, find-put a p m c ∙ rw t at', fresh', p')
  ];
  identified = λ key c h. elim (r.cid_named key c h) [
    | inl (s, q) ↦
        subst
          (λ z. Live (λ e. (e.cid ≡ key) × (is_client e.kind ≡ true)) (renamed a p nicks cids m) z)
          s (p, own, sym r.ghost ∙ fresh, (q, ap is_client (sym r.kind) ∙ k))
    | inr (t, old) ↦
        let (x, at', fresh', p') = v.identified key c old in
        (x, find-put a p m c ∙ rw t at', fresh', p')
  ];
  nick_held = λ c x h fresh' k' ne. elim (put_cases a p m c x h) [
    | inl (s, q) ↦
        ap (λ z. find (nick_of z) nicks) (sym q)
        ∙ r.nick_own (λ z. ne (ap nick_of (sym q) ∙ z))
        ∙ ap some s
    | inr (t, at') ↦ r.nick_kept (nick_of x) c ne t (v.nick_held c x at' fresh' k' ne)
  ];
  cid_held = λ c x h fresh' k' ne. elim (put_cases a p m c x h) [
    | inl (s, q) ↦
        ap (λ z. find z.cid cids) (sym q)
        ∙ r.cid_own (λ z. ne (ap (λ e. e.cid) (sym q) ∙ z))
        ∙ ap some s
    | inr (t, at') ↦ r.cid_kept x.cid c t (v.cid_held c x at' fresh' k' ne)
  ];
  unclaimed = λ c x key h early open' idle. elim (put_cases a p m c x h) [
    | inl (s, q) ↦
        let u =
          r.early (ap (λ e. is_early e.state) q ∙ early) (ap (λ z. find z m.closing) s ∙ open')
            (λ z. idle (z ∙ ap some s)) in
        (ap (λ e. e.cid) (sym q) ∙ u.0, λ z. u.1 key (z ∙ ap some (sym s)))
    | inr (t, at') ↦
        let u = v.unclaimed c x key at' early open' (others c t) in
        (
          u.0,
          λ z. elim (r.cid_named key c z) [
            | inl (s, q) ↦ let bad = (==_iff a c).1 s in cc
            | inr (t', old) ↦ u.1 old
          ],
        )
  ];
  ordered = λ c x h. elim (put_cases a p m c x h) [
    | inl (s, q) ↦ subst (λ z. IsOrdered z.fields) q r.ordered
    | inr (t, at') ↦ v.ordered c x at'
  ];
}
  where
    own : deref (put a p m) a ≡ some p
    own = find-put a p m a ∙ rw (==_refl a) refl
