-- ===== src/ClientManager/Invariant/Steps.antt =====
-- What can happen to the hub while clients come, send commands and leave, and what holds then.
use adchubd.Base.{
  ℕ, ◌≡◌, ◌≢◌, refl, sym, ◌∙◌, ap, subst, Bool, true, false, [], ◌∷◌, ◌++◌, none, some, Bytes,
  codes, Bool-cases, inl, inr, ◌==◌, ==_iff,
}
use mathlib.Core.Option.{some-injective}
use adchubd.Base.Dict.{find, erase, nat_eq, bytes_eq, find-erase, some_of_if}
use adchubd.Cid
use adchubd.AdcCommand.{AdcCommand, hub_sid}
use adchubd.Entity.{Entity, Kind}
use adchubd.Entity.Fields.{get_field, set_field, lookup}
use adchubd.Entity.Fields.Laws.{IsOrdered, fields-set_field}
use adchubd.Entity.Flags.{is_set, set_flag, set_bits, flag_ghost, flag_hub}
use adchubd.ClientManager.{ClientManager, deref, Socket}
use adchubd.ClientManager.Externals.{Externals}
use adchubd.ClientManager.Hbri.{Env}
use adchubd.ClientManager.Removal.{put, is_client, remove_entity}
use adchubd.ClientManager.Removal.Removed.{find-put}
use adchubd.ClientManager.Arrival.{new_entity, new_hub, new_manager, handle_incoming, on_connected}
use adchubd.ClientManager.Tcp.{close_at}
use adchubd.ClientManager.Receive.{on_receive}
use adchubd.ClientManager.Invariant.{Inv, nick_of}
use adchubd.ClientManager.Invariant.Names.{Kept-Inv, LiveClient, Inv-unique}
use adchubd.ClientManager.Invariant.Quiet.{logs-Kept}
use adchubd.ClientManager.Invariant.Moves.{close_at-Kept}
use adchubd.ClientManager.Invariant.Changes.{remove_entity-Inv}
use adchubd.ClientManager.Invariant.Claims.{put_cases}
use adchubd.ClientManager.Invariant.Receiving.{Admissible, on_receive-Inv}

-- A client comes at an address at which nobody is.
pub handle_incoming-Inv :
    (a : ℕ) (s : Socket) (sid : ℕ) (m : ClientManager)
    → find a m.heap ≡ none
    → Inv none m
    → Inv none (handle_incoming a s sid m)
unfolding handle_incoming get_field
handle_incoming-Inv a s sid m nobody v =
    let new = new_entity Kind.client sid in
    let elsewhere : (c : ℕ) (e : Entity) → deref m c ≡ some e → deref (put a new m) c ≡ some e =
      λ c e at. elim (Bool-cases (a == c)) [
        | inl t ↦ let bad = sym nobody ∙ ap (deref m) ((==_iff a c).0 t) ∙ at in absurd (cc)
        | inr t ↦ find-put a new m c ∙ rw t at
      ] in
    let stranger : (c : ℕ) (k : Bytes) → a ≡ c → find k m.cids ≢ some c = λ c k q z.
      let (f, at, r, p) = v.identified k c z in let bad = sym nobody ∙ ap (deref m) q ∙ at in cc in
    record {
      listed = λ k c h. let (e, at, r, p) = v.listed k c h in (e, elsewhere c e at, r, p);
      named = λ k c h. let (e, at, r, p) = v.named k c h in (e, elsewhere c e at, r, p);
      identified = λ k c h. let (e, at, r, p) = v.identified k c h in (e, elsewhere c e at, r, p);
      nick_held = λ c e h r k ne. elim (put_cases a new m c e h) [
        | inl (q, n) ↦ absurd (ne (ap nick_of (sym n) ∙ unfold lookup in refl))
        | inr (t, at) ↦ v.nick_held c e at r k ne
      ];
      cid_held = λ c e h r k ne. elim (put_cases a new m c e h) [
        | inl (q, n) ↦ absurd (ne (ap (λ z. z.cid) (sym n)))
        | inr (t, at) ↦ v.cid_held c e at r k ne
      ];
      unclaimed = λ c e k h early open' idle. elim (put_cases a new m c e h) [
        | inl (q, n) ↦ (ap (λ z. z.cid) (sym n), λ z. stranger c k q z)
        | inr (t, at) ↦ v.unclaimed c e k at early open' idle
      ];
      ordered = λ c e h. elim (put_cases a new m c e h) [
        | inl (q, n) ↦ subst (λ z. IsOrdered z.fields) n tt
        | inr (t, at) ↦ v.ordered c e at
      ];
    }

-- The program deletes an entity that has been removed.
pub delete-Inv :
    (a : ℕ) (m : ClientManager) (e : Entity)
    → deref m a ≡ some e
    → is_set e flag_ghost ≡ true
    → Inv none m
    → Inv none (record m { heap = erase a m.heap })
delete-Inv a m e at ghost v =
    let n = record m { heap = erase a m.heap } in
    let keep : (c : ℕ) (f : Entity)
        → deref m c ≡ some f
        → is_set f flag_ghost ≡ false
        → deref n c ≡ some f =
      λ c f h fresh. elim (Bool-cases (a == c)) [
        | inl t ↦
            let q = some-injective _ _ (sym at ∙ ap (deref m) ((==_iff a c).0 t) ∙ h) in
            let bad = sym fresh ∙ ap (λ z. is_set z flag_ghost) (sym q) ∙ ghost in absurd (cc)
        | inr t ↦ find-erase a c m.heap ∙ rw t h
      ] in
    let back : (c : ℕ) (f : Entity) → deref n c ≡ some f → deref m c ≡ some f =
      λ c f h. (some_of_if (a == c) (find c m.heap) f (sym (find-erase a c m.heap) ∙ h)).1 in
    record {
      listed = λ k c h. let (f, h', r, p) = v.listed k c h in (f, keep c f h' r, r, p);
      named = λ k c h. let (f, h', r, p) = v.named k c h in (f, keep c f h' r, r, p);
      identified = λ k c h. let (f, h', r, p) = v.identified k c h in (f, keep c f h' r, r, p);
      nick_held = λ c f h. v.nick_held c f (back c f h);
      cid_held = λ c f h. v.cid_held c f (back c f h);
      unclaimed = λ c f k h. v.unclaimed c f k (back c f h);
      ordered = λ c f h. v.ordered c f (back c f h);
    }

only_hub : (c : ℕ) (hub e : Entity) → find c ((0, hub) ∷ []) ≡ some e → hub ≡ e
unfolding find
only_hub c hub e h = elim (Bool-cases (0 == c)) [
  | inl t ↦ let q : find c ((0, hub) ∷ []) ≡ some hub = rw t refl in some-injective _ _ (sym q ∙ h)
  | inr t ↦ let q : find c ((0, hub) ∷ []) ≡ none = rw t refl in let bad = sym q ∙ h in absurd (cc)
]

hub_marks :
    (name version : Bytes)
    → (is_client (new_hub name version).kind ≡ false) × ((new_hub name version).cid ≡ Cid.empty)
unfolding new_hub set_field set_flag
hub_marks name version = (refl, refl)

hub-IsOrdered : (name version : Bytes) → IsOrdered (new_hub name version).fields
unfolding new_hub set_flag
hub-IsOrdered name version =
    let new = new_entity Kind.hub hub_sid in
    let e1 = set_field new (codes "NI") (codes "adchpp") in
    let e2 = set_field e1 (codes "HI") (codes "1") in
    let e3 = set_field e2 (codes "DE") (name ++ (b' ' ∷ version)) in
    let e4 = set_field e3 (codes "AP") name in
    let e5 = set_field e4 (codes "VE") version in
    let h1 = fields-set_field new (codes "NI") (codes "adchpp") tt in
    let h2 = fields-set_field e1 (codes "HI") (codes "1") h1 in
    let h3 = fields-set_field e2 (codes "DE") (name ++ (b' ' ∷ version)) h2 in
    let h4 = fields-set_field e3 (codes "AP") name h3 in
    fields-set_field (record e5 { flags = set_bits e5.flags flag_hub }) (codes "CT") _
      (fields-set_field e4 (codes "VE") version h4)

pub new_manager-Inv : (name version : Bytes) → Inv none (new_manager name version)
unfolding new_manager find
new_manager-Inv name version =
    let hub = new_hub name version in
    let only : (c : ℕ) (e : Entity) → deref (new_manager name version) c ≡ some e → hub ≡ e =
      λ c e h. only_hub c hub e h in
    record {
      listed = λ k c h. absurd (cc);
      named = λ k c h. absurd (cc);
      identified = λ k c h. absurd (cc);
      nick_held = λ c e h r k ne.
          let bad = sym (hub_marks name version).0 ∙ ap (λ z. is_client z.kind) (only c e h) ∙ k in
          absurd (cc);
      cid_held = λ c e h r k ne.
          let bad = sym (hub_marks name version).0 ∙ ap (λ z. is_client z.kind) (only c e h) ∙ k in
          absurd (cc);
      unclaimed = λ c e k h early open' idle.
          (ap (λ z. z.cid) (sym (only c e h)) ∙ (hub_marks name version).1, λ z. cc);
      ordered = λ c e h. subst (λ z. IsOrdered z.fields) (only c e h) (hub-IsOrdered name version);
    }

module _ {ℓ} {P : Type ℓ} (x : Externals)
    (signal_receive : ℕ → AdcCommand → ClientManager → P → P × AdcCommand × Bool)
    (signal_send : ℕ → AdcCommand → ClientManager → P → P × Bool) where
  -- A client comes, is connected, sends a command while it has not been told to disconnect, is told
  -- to, is removed, and is deleted. Validations over a second connection and bots are left out.
  pub data Step : ClientManager × P → ClientManager × P → Type ℓ where
    comes :
        (a : ℕ) (c : Socket) (sid : ℕ) (m : ClientManager) (p : P)
        → find a m.heap ≡ none
        → Step (m, p) (handle_incoming a c sid m, p)
    connects :
        (env : Env) (a : ℕ) (m : ClientManager) (p : P) → Step (m, p) (on_connected env a m, p)
    sends :
        (env : Env) (a : ℕ) (cmd : AdcCommand) (s t : ClientManager × P) (e : Entity)
        → LiveClient s.0 a e
        → find a s.0.closing ≡ none
        → Admissible (signal_receive a cmd s.0 s.1).1
        → on_receive x signal_receive signal_send env a cmd s ≡ some t
        → Step s t
    closes : (a reason : ℕ) (m : ClientManager) (p : P) → Step (m, p) (close_at a reason m, p)
    leaves :
        (a reason : ℕ) (info : Bytes) (m : ClientManager) (p : P) (e : Entity)
        → LiveClient m a e
        → Step (m, p) (remove_entity a reason info m, p)
    deletes :
        (a : ℕ) (m : ClientManager) (p : P) (e : Entity)
        → deref m a ≡ some e
        → is_set e flag_ghost ≡ true
        → Step (m, p) (record m { heap = erase a m.heap }, p)

  -- What the hub gets to from its start.
  pub data Reach (name version : Bytes) (p : P) : ClientManager × P → Type ℓ where
    starts : Reach name version p (new_manager name version, p)
    then_step :
        (s t : ClientManager × P) → Reach name version p s → Step s t → Reach name version p t

  pub Step-Inv : (s t : ClientManager × P) → Step s t → Inv none s.0 → Inv none t.0
  unfolding on_connected
  Step-Inv s t (comes a c sid m p h) v = handle_incoming-Inv a c sid m h v
  Step-Inv s t (connects env a m p) v = Kept-Inv (logs-Kept refl refl refl refl refl) v
  Step-Inv s t (sends env a cmd _ _ e l h ok q) v =
      on_receive-Inv x env signal_receive signal_send a cmd s t e l h ok v q
  Step-Inv s t (closes a reason m p) v = Kept-Inv (close_at-Kept a reason m) v
  Step-Inv s t (leaves a reason info m p e l) v = remove_entity-Inv a reason info m e l v
  Step-Inv s t (deletes a m p e at h) v = delete-Inv a m e at h v

  -- In every state that the hub gets to from its start by the steps above, the maps and the entities
  -- agree as `Inv` says: every entry of `entities`, `nicks` and `cids` names an entity that has not
  -- been removed and has that SID, nick or CID, whoever stands in `entities` is in NORMAL, every
  -- client that has not been removed stands under its nick and its CID, and a client before the end
  -- of IDENTIFY that is not being disconnected has no CID. The INFs that plugins let pass are ones
  -- whose last nick is the first one and not empty.
  pub Reach-Inv :
      (name version : Bytes) (p : P) (s : ClientManager × P) → Reach name version p s → Inv none s.0
  Reach-Inv name version p s starts = new_manager-Inv name version
  Reach-Inv name version p t (then_step s _ r step) =
      Step-Inv s t step (Reach-Inv name version p s r)

  -- In every state that the hub gets to from its start by the steps above, two clients that have not
  -- been removed are the same one if they have the same nick, and it is not empty, or the same CID,
  -- and it is not that of zeros. The INFs that plugins let pass are ones whose last nick is the first
  -- one and not empty.
  pub Reach-unique :
      (name version : Bytes) (p : P) (s : ClientManager × P) (a c : ℕ) (e f : Entity)
      → Reach name version p s
      → LiveClient s.0 a e
      → LiveClient s.0 c f
      → (nick_of e ≡ nick_of f → nick_of e ≢ [] → a ≡ c)
        × (e.cid ≡ f.cid → e.cid ≢ Cid.empty → a ≡ c)
  Reach-unique name version p s a c e f r l k =
      Inv-unique s.0 a c e f (Reach-Inv name version p s r) l k
