-- ===== src/ClientManager/Invariant/Changes.antt =====
-- The operations that change the maps: `entities.insert`, and `removeEntity`.
use adchubd.Base.{
  ℕ, ◌≡◌, ◌≢◌, refl, sym, ◌∙◌, ap, subst, true, false, Option, some, Bytes, arith, Bool-cases, inl,
  inr, ◌⊎◌, ◌&&◌, ◌==◌, ==_iff, ==_refl, same, same_iff,
}
use mathlib.Core.Option.{some-injective}
use adchubd.Base.Dict.{find, insert, nat_eq, bytes_eq, find-insert_cases, some_of_if}
use adchubd.Entity.{Entity, State}
use adchubd.Entity.Fields.{get_field}
use adchubd.Entity.Fields.Laws.{IsOrdered}
use adchubd.Entity.Flags.{is_set, set_flag, flag_ghost}
use adchubd.Entity.Flags.Laws.{is_set-set_flag}
use adchubd.ClientManager.{ClientManager, deref}
use adchubd.ClientManager.Removal.{
  put, is_normal, is_client, set_state, remove_logins, remove_entity,
}
use adchubd.ClientManager.Removal.Removed.{
  find-put, Removed, remove_entity-Removed, remove_logins-SameNames,
}
use adchubd.ClientManager.Login.{admit}
use adchubd.ClientManager.Invariant.{Live, Inv, SameId, Kept-trans, nick_of, is_early}
use adchubd.ClientManager.Invariant.Names.{Kept-Inv, LiveClient}
use adchubd.ClientManager.Invariant.Quiet.{logs-Kept, put-Kept}
use adchubd.ClientManager.Invariant.Moves.{remove_logins-Kept}

-- An entity in NORMAL is entered into `entities`.
list-Inv :
    {b : Option ℕ} (a : ℕ) (e : Entity) (m : ClientManager)
    → deref m a ≡ some e
    → is_set e flag_ghost ≡ false
    → is_normal e.state ≡ true
    → Inv b m
    → Inv b (record m { entities = insert e.sid a m.entities })
list-Inv a e m at fresh h v = record {
  listed = λ sid c k. elim (find-insert_cases e.sid sid a c m.entities k) [
    | inl l ↦ v.listed sid c l
    | inr (s, q) ↦
        subst (λ x. Live (λ f. (f.sid ≡ sid) × (is_normal f.state ≡ true)) m x) q
          (e, at, fresh, (s, h))
  ];
  named = v.named;
  identified = v.identified;
  nick_held = v.nick_held;
  cid_held = v.cid_held;
  unclaimed = v.unclaimed;
  ordered = v.ordered;
}

pub admit-Inv :
    {b : Option ℕ} (a : ℕ) (m : ClientManager) (e : Entity)
    → deref m a ≡ some e
    → is_set e flag_ghost ≡ false
    → Inv b m
    → Inv b (admit a m)
unfolding admit set_state
admit-Inv a m e at fresh v =
    let m1 = remove_logins a e m in
    let e' : Entity = record e { state = State.normal } in
    let at1 : deref m1 a ≡ some e = ap (find a) (remove_logins-SameNames a e m).heap ∙ at in
    let m2 = put a e' m1 in
    let k = Kept-trans (remove_logins-Kept a e m) (put-Kept a e e' m1 at1 (normal-SameId e)) in
    let at2 : deref m2 a ≡ some e' = find-put a e' m1 a ∙ rw (==_refl a) refl in
    Kept-Inv (rw (admit, at, set_state, at1) (logs-Kept refl refl refl refl refl))
      (list-Inv a e' m2 at2 fresh refl (Kept-Inv k v))
  where
    normal-SameId : (e : Entity) → SameId e (record e { state = State.normal })
    normal-SameId e = record {
      kind = refl;
      sid = refl;
      cid = refl;
      nick = unfold get_field in refl;
      ghost = refl;
      normal = λ h. refl;
      early = λ h. absurd (cc);
      protocol = λ h. absurd (cc);
      ordered = λ h. h;
      fields = λ j n. refl;
    }

module _ {m n : ClientManager} {a : ℕ} {e : Entity} (r : Removed a e m n)
    (at : deref m a ≡ some e) where
  -- Whoever else was live is so, and the entries of the entity itself are gone.
  gone : {P : Entity → Type 0} (c : ℕ) → (P e → ⊥) → Live P m c → Live P n c
  gone {P} c absent (f, at', fresh, p) = elim (Bool-cases (a == c)) [
    | inl t ↦
        let q : some e ≡ some f = sym at ∙ ap (deref m) ((==_iff a c).0 t) ∙ at' in
        absurd (absent (subst P (sym (some-injective _ _ q)) p))
    | inr t ↦ (f, r.others c t ∙ at', fresh, p)
  ]

  -- An entity in the manager that is left is the ghost, or was there before.
  pub left_cases :
      (c : ℕ) (f : Entity)
      → deref n c ≡ some f
      → ((a ≡ c) × (f ≡ set_flag e flag_ghost)) ⊎ (((a == c) ≡ false) × (deref m c ≡ some f))
  left_cases c f h = elim (Bool-cases (a == c)) [
    | inl t ↦
        let s = (==_iff a c).0 t in
        inl (s, some-injective _ _ (sym h ∙ ap (deref n) (sym s) ∙ r.ghost))
    | inr t ↦ inr (t, sym (r.others c t) ∙ h)
  ]

  ghostly : (f : Entity) → f ≡ set_flag e flag_ghost → is_set f flag_ghost ≢ false
  ghostly f q fresh =
      let t =
        sym fresh
        ∙ ap (λ x. is_set x flag_ghost) q
        ∙ (is_set-set_flag e flag_ghost (omega arith) (omega arith)).0 in
      cc

  -- What an entity was before, as far as `unclaimed` speaks of it.
  before :
      (c : ℕ) (f : Entity)
      → deref n c ≡ some f
      → (x : Entity) × (deref m c ≡ some x)
        × (is_early x.state ≡ is_early f.state)
        × (f.cid ≡ x.cid)
  unfolding set_flag
  before c f h = elim (left_cases c f h) [
    | inl (s, q) ↦
        (e, ap (deref m) (sym s) ∙ at, ap (λ x. is_early x.state) (sym q), ap (λ x. x.cid) q)
    | inr (t, at') ↦ (f, at', refl, refl)
  ]

  pub Removed-Inv :
      (b : Option ℕ) → is_client e.kind ≡ true → is_set e flag_ghost ≡ false → Inv b m → Inv b n
  unfolding set_flag
  Removed-Inv b k fresh v = record {
    listed = λ sid c h.
        let (t, l) =
          some_of_if (is_normal e.state && e.sid == sid) (find sid m.entities) c
            (sym (r.entities sid) ∙ h) in
        gone c
          (λ p.
            let u : (is_normal e.state && e.sid == sid) ≡ true =
              rw p.1 ((==_iff e.sid sid).1 p.0) in
            cc)
          (v.listed sid c l);
    named = λ nick c h.
        let (t, l) =
          some_of_if (same (nick_of e) nick) (find nick m.nicks) c (sym (r.nicks nick) ∙ h) in
        gone c (λ p. let u : same (nick_of e) nick ≡ true = (same_iff _ _).1 p.0 in cc)
          (v.named nick c l);
    identified = λ cid c h.
        let (t, l) = some_of_if (same e.cid cid) (find cid m.cids) c (sym (r.cids cid) ∙ h) in
        gone c (λ p. let u : same e.cid cid ≡ true = (same_iff _ _).1 p.0 in cc)
          (v.identified cid c l);
    nick_held = λ c f h fresh' k' ne. elim (left_cases c f h) [
      | inl (s, q) ↦ absurd (ghostly f q fresh')
      | inr (t, at') ↦ r.nicks (nick_of f) ∙ elim (Bool-cases (same (nick_of e) (nick_of f))) [
        | inl u ↦
            let q = (same_iff _ _).0 u in
            let z : some a ≡ some c =
              sym (v.nick_held a e at fresh k (λ z. ne (sym q ∙ z)))
              ∙ ap (λ x. find x m.nicks) q
              ∙ v.nick_held c f at' fresh' k' ne in
            let bad : (a == c) ≡ true = (==_iff a c).1 (some-injective _ _ z) in absurd (cc)
        | inr u ↦ rw u (v.nick_held c f at' fresh' k' ne)
      ]
    ];
    cid_held = λ c f h fresh' k' ne. elim (left_cases c f h) [
      | inl (s, q) ↦ absurd (ghostly f q fresh')
      | inr (t, at') ↦ r.cids (f.cid) ∙ elim (Bool-cases (same (e.cid) (f.cid))) [
        | inl u ↦
            let q = (same_iff _ _).0 u in
            let z : some a ≡ some c =
              sym (v.cid_held a e at fresh k (λ z. ne (sym q ∙ z)))
              ∙ ap (λ x. find x m.cids) q
              ∙ v.cid_held c f at' fresh' k' ne in
            let bad : (a == c) ≡ true = (==_iff a c).1 (some-injective _ _ z) in absurd (cc)
        | inr u ↦ rw u (v.cid_held c f at' fresh' k' ne)
      ]
    ];
    unclaimed = λ c f cid h early open' idle.
        let (x, at', early', same') = before c f h in
        let u =
          v.unclaimed c x cid at' (early' ∙ early) (ap (find c) (sym r.closing) ∙ open') idle in
        (same' ∙ u.0, λ z. u.1 (some_of_if _ _ c (sym (r.cids cid) ∙ z)).1);
    ordered = λ c f h. elim (left_cases c f h) [
      | inl (s, q) ↦ subst (λ x. IsOrdered x.fields) (sym q) (v.ordered a e at)
      | inr (t, at') ↦ v.ordered c f at'
    ];
  }

pub remove_entity-Inv :
    {b : Option ℕ} (a reason : ℕ) (info : Bytes) (m : ClientManager) (e : Entity)
    → LiveClient m a e
    → Inv b m
    → Inv b (remove_entity a reason info m)
remove_entity-Inv {b} a reason info m e (at, fresh, k) v =
    Removed-Inv (remove_entity-Removed a reason info m e at fresh) at b k fresh v
