-- ===== src/ClientManager/Invariant/Cids.antt =====
-- The CID that an INF claims.
use adchubd.Base.{
  ℕ, ◌≡◌, ◌≢◌, refl, sym, ◌∙◌, ap, subst, true, false, [], Option, none, some, Bytes, codes,
  Bool-cases, Option-cases, inl, inr, ◌==◌, ==_iff, ==_refl, same, same_iff,
}
use mathlib.Core.Option.{some-injective}
use adchubd.Base.Dict.{
  find, insert, nat_eq, bytes_eq, find-insert_cases, find-insert_old, find-insert_new, some_of_if,
}
use adchubd.Entity.{Entity, State}
use adchubd.Entity.Fields.{get_field}
use adchubd.ClientManager.{ClientManager, deref}
use adchubd.ClientManager.Removal.Removed.{find-put, remove_entity-Removed}
use adchubd.ClientManager.Leaving.{at_state, is_identify, disconnect_error}
use adchubd.ClientManager.Inf.{drop_other, set_cid, claim_cid}
use adchubd.ClientManager.Invariant.{Inv, nick_of, is_early}
use adchubd.ClientManager.Invariant.Names.{Kept-Inv, LiveClient}
use adchubd.ClientManager.Invariant.Quiet.{disconnect_for-Kept, disconnect_for-heap}
use adchubd.Reason.{reason_cid_taken}
use adchubd.AdcCommand.Codes.{error_cid_taken}
use adchubd.ClientManager.Invariant.Changes.{remove_entity-Inv}
use adchubd.ClientManager.Invariant.Claims.{renamed, Renames, Renames-Inv}

-- What is left when whoever has the CID is gone: the entity itself is as it was, no CID or nick is
-- new, and the CID is free.
record Dropped (a : ℕ) (e : Entity) (cid : Bytes) (m n : ClientManager) : Type 0 where
  here : deref n a ≡ some e
  cids_sub : (k : Bytes) (c : ℕ) → find k n.cids ≡ some c → find k m.cids ≡ some c
  nicks_none : (k : Bytes) → find k m.nicks ≡ none → find k n.nicks ≡ none
  free : find cid n.cids ≡ none
  inv : Inv none n

drop_other-Dropped :
    (a : ℕ) (e : Entity) (cid : Bytes) (m : ClientManager)
    → LiveClient m a e
    → find cid m.cids ≢ some a
    → Inv none m
    → Dropped a e cid m (drop_other cid m)
unfolding drop_other
drop_other-Dropped a e cid m l other v = elim (Option-cases (find cid m.cids)) [
  | inl h ↦
      rw (drop_other, h)
        (record { here = l.0; cids_sub = λ k c q. q; nicks_none = λ k q. q; free = h; inv = v })
  | inr (o, h) ↦
      let d = disconnect_error o reason_cid_taken (codes "CID taken") error_cid_taken [] m in
      let k =
        disconnect_for-Kept o reason_cid_taken (codes "CID taken") error_cid_taken [] true m in
      let vd = Kept-Inv k v in
      let (x, at, fresh, p) = vd.identified cid o (ap (find cid) (sym k.cids) ∙ h) in
      let r = remove_entity-Removed o reason_cid_taken [] d x at fresh in
      let ne : (o == a) ≡ false = elim (Bool-cases (o == a)) [
        | inl t ↦ absurd (other (h ∙ ap some ((==_iff o a).0 t)))
        | inr t ↦ t
      ] in
      rw (drop_other, h)
        (record {
          here =
              r.others a ne
              ∙ ap (find a) (
                  disconnect_for-heap o reason_cid_taken (codes "CID taken") error_cid_taken [] true
                    m)
              ∙ l.0;
          cids_sub = λ key c q.
              ap (find key) k.cids
              ∙ (some_of_if (same x.cid key) (find key d.cids) c (sym (r.cids key) ∙ q)).1;
          nicks_none = λ key q.
              r.nicks key ∙ elim (Bool-cases (same (get_field x (codes "NI")) key)) [
                | inl t ↦ rw t refl
                | inr t ↦ rw t (ap (find key) (sym k.nicks) ∙ q)
              ];
          free = r.cids cid ∙ rw ((same_iff x.cid cid).1 p.0) refl;
          inv = remove_entity-Inv o reason_cid_taken [] d x (at, fresh, p.1) vd;
        })
]

-- The claim of the CID, in IDENTIFY: from here to the end of the login the client counts as busy.
cid-Renames :
    (a : ℕ) (e : Entity) (cid : Bytes) (m n : ClientManager)
    → LiveClient m a e
    → ((k : Bytes) → find k m.cids ≢ some a)
    → Dropped a e cid m n
    → Renames (some a) a e (record e { cid = cid }) n n.nicks (insert cid a n.cids)
cid-Renames a e cid m n l none' d = record {
  kind = refl;
  sid = refl;
  ghost = refl;
  state = refl;
  ordered = d.inv.ordered a e d.here;
  nick_named = λ key c h. elim (Bool-cases (a == c)) [
    | inr t ↦ inr (t, h)
    | inl t ↦
        let s = (==_iff a c).0 t in
        let (x, at, fresh, p) = d.inv.named key c h in
        let q : e ≡ x = some-injective _ _ (sym d.here ∙ ap (deref n) s ∙ at) in
        inl (s, unfold get_field in ap nick_of q ∙ p.0, p.2)
  ];
  cid_named = λ key c h. elim (find-insert_cases cid key a c n.cids h) [
    | inr (q, s) ↦ inl (s, q)
    | inl old ↦ elim (Bool-cases (a == c)) [
      | inr t ↦ inr (t, old)
      | inl t ↦ absurd (none' key (d.cids_sub key a (old ∙ ap some (sym ((==_iff a c).0 t)))))
    ]
  ];
  nick_kept = λ key c ne t h. h;
  cid_kept = λ key c t h. find-insert_old cid key a c n.cids h;
  nick_own = λ ne. unfold get_field in d.inv.nick_held a e d.here l.1 l.2 ne;
  cid_own = λ ne. find-insert_new cid a n.cids d.free;
  early = λ early open' idle. absurd (idle refl);
}

-- What holds between the claim of the CID and that of the nick.
pub record Claimed (a : ℕ) (e f : Entity) (b : Option ℕ) (m n : ClientManager) : Type 0 where
  pub live : LiveClient n a f
  pub nick : nick_of e ≡ nick_of f
  pub state : e.state ≡ f.state
  pub nicks_none : (k : Bytes) → find k m.nicks ≡ none → find k n.nicks ≡ none
  pub inv : Inv b n

claim_cid-eq :
    (a : ℕ) (e : Entity) (cid : Bytes) (m : ClientManager)
    → at_state is_identify m a ≡ true
    → deref (drop_other cid m) a ≡ some e
    → claim_cid a cid m
      ≡ renamed a
          (record e { cid = cid })
          (drop_other cid m).nicks
          (insert cid a (drop_other cid m).cids)
          (drop_other cid m)
unfolding claim_cid set_cid
claim_cid-eq a e cid m h at = rw (claim_cid, h, set_cid, at) refl

early_identify : (s : State) → is_identify s ≡ true → is_early s ≡ true
early_identify State.protocol h = refl
early_identify State.identify h = refl
early_identify State.verify h = absurd (cc)
early_identify State.normal h = absurd (cc)
early_identify State.hbri h = absurd (cc)
early_identify State.transfer h = absurd (cc)

-- In IDENTIFY the entity has the CID afterwards, and whoever had it before is gone.
pub claim_cid-Claimed :
    (a : ℕ) (e : Entity) (cid : Bytes) (m : ClientManager)
    → LiveClient m a e
    → is_identify e.state ≡ true
    → find a m.closing ≡ none
    → Inv none m
    → Claimed a e (record e { cid = cid }) (some a) m (claim_cid a cid m)
unfolding at_state
claim_cid-Claimed a e cid m l h open' v =
    let none' : (k : Bytes) → find k m.cids ≢ some a =
      λ k. (v.unclaimed a e k l.0 (early_identify e.state h) open' (λ z. absurd (cc))).1 in
    let n = drop_other cid m in
    let d = drop_other-Dropped a e cid m l (none' cid) v in
    let p : Entity = record e { cid = cid } in
    subst (λ o. Claimed a e p (some a) m o)
      (sym (claim_cid-eq a e cid m (rw (at_state, l.0) h) d.here))
      (record {
        live = (find-put a p n a ∙ rw (==_refl a) refl, l.1, l.2);
        nick = unfold get_field in refl;
        state = refl;
        nicks_none = d.nicks_none;
        inv =
            Renames-Inv none (some a) a e p n n.nicks (insert cid a n.cids) (d.here, l.1, l.2)
              (cid-Renames a e cid m n l none' d) (λ c t z. absurd (cc)) d.inv;
      })

-- Elsewhere nothing changes.
pub claim_cid-later :
    (a : ℕ) (e : Entity) (cid : Bytes) (m : ClientManager)
    → LiveClient m a e
    → is_identify e.state ≡ false
    → Inv none m
    → Claimed a e e none m (claim_cid a cid m)
unfolding claim_cid at_state
claim_cid-later a e cid m l h v =
    rw (claim_cid, at_state, l.0, h)
      (record { live = l; nick = refl; state = refl; nicks_none = λ k q. q; inv = v })
