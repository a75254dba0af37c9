-- ===== src/ClientManager/Invariant/Names.antt =====
-- Nobody shares a SID, a nick or a CID where `Inv` holds, and `Kept` keeps `Inv`.
use adchubd.Base.{ℕ, ◌≡◌, ◌≢◌, sym, ◌∙◌, ap, true, false, [], Option, some}
use mathlib.Core.Option.{some-injective}
use adchubd.Base.Dict.{find, nat_eq, bytes_eq}
use adchubd.Cid
use adchubd.Entity.{Entity}
use adchubd.Entity.Flags.{is_set, flag_ghost}
use adchubd.ClientManager.{ClientManager, deref}
use adchubd.ClientManager.Removal.{is_client}
use adchubd.ClientManager.Invariant.{Live, Inv, SameId, Kept, nick_of, forward, backward}

Live-mono :
    {P Q : Entity → Type 0} (m n : ClientManager) (a : ℕ)
    → Kept m n
    → ((e f : Entity) → SameId e f → P e → Q f)
    → Live P m a
    → Live Q n a
Live-mono m n a k keep (e, at, fresh, p) =
    let (f, at', s) = forward (k.heap a) at in (f, at', sym s.ghost ∙ fresh, keep e f s p)

pub Kept-Inv : {b : Option ℕ} {m n : ClientManager} → Kept m n → Inv b m → Inv b n
Kept-Inv {b} {m} {n} k v = record {
  listed = λ sid a h.
      Live-mono m n a k (λ e f s p. (sym s.sid ∙ p.0, s.normal p.1))
        (v.listed sid a (rw k.entities h));
  named = λ nick a h.
      Live-mono m n a k (λ e f s p. (sym s.nick ∙ p.0, ap is_client (sym s.kind) ∙ p.1, p.2))
        (v.named nick a (rw k.nicks h));
  identified = λ cid a h.
      Live-mono m n a k (λ e f s p. (sym s.cid ∙ p.0, ap is_client (sym s.kind) ∙ p.1))
        (v.identified cid a (rw k.cids h));
  nick_held = λ a f at fresh c ne.
      let (e, at', s) = backward (k.heap a) at in
      ap (λ x. find x n.nicks) (sym s.nick)
      ∙ ap (find (nick_of e)) (sym k.nicks)
      ∙ v.nick_held a e at' (s.ghost ∙ fresh) (ap is_client s.kind ∙ c) (λ h. ne (sym s.nick ∙ h));
  cid_held = λ a f at fresh c ne.
      let (e, at', s) = backward (k.heap a) at in
      ap (λ x. find x n.cids) (sym s.cid)
      ∙ ap (find e.cid) (sym k.cids)
      ∙ v.cid_held a e at' (s.ghost ∙ fresh) (ap is_client s.kind ∙ c) (λ h. ne (sym s.cid ∙ h));
  unclaimed = λ a f cid at early open' idle.
      let (e, at', s) = backward (k.heap a) at in
      let u = v.unclaimed a e cid at' (s.early early) (k.closing a open') idle in
      (sym s.cid ∙ u.0, λ h. u.1 (rw k.cids h));
  ordered = λ a f at. let (e, at', s) = backward (k.heap a) at in s.ordered (v.ordered a e at');
}

-- A client that has not been removed, at an address.
abbrev pub LiveClient : ClientManager → ℕ → Entity → Type 0
LiveClient m a e = (deref m a ≡ some e) × (is_set e flag_ghost ≡ false) × (is_client e.kind ≡ true)

-- Two live clients with the same nick, which is not empty, are one, and so are two with the same CID,
-- which is not that of zeros.
pub Inv-unique :
    {b : Option ℕ} (m : ClientManager) (a c : ℕ) (e f : Entity)
    → Inv b m
    → LiveClient m a e
    → LiveClient m c f
    → (nick_of e ≡ nick_of f → nick_of e ≢ [] → a ≡ c) × (e.cid ≡ f.cid → e.cid ≢ Cid.empty → a ≡ c)
Inv-unique m a c e f v (at, fresh, k) (at', fresh', k') = (
  λ same' ne. some-injective _ _ (
      sym (v.nick_held a e at fresh k ne)
      ∙ ap (λ x. find x m.nicks) same'
      ∙ v.nick_held c f at' fresh' k' (λ h. ne (same' ∙ h))),
  λ same' ne. some-injective _ _ (
      sym (v.cid_held a e at fresh k ne)
      ∙ ap (λ x. find x m.cids) same'
      ∙ v.cid_held c f at' fresh' k' (λ h. ne (same' ∙ h))),
)
