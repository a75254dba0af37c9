-- ===== src/ClientManager/Invariant.antt =====
-- What holds of the maps of adchpp/ClientManager.cpp between two events, and the operations that leave
-- it alone because they change no name.
pub mod Names
pub mod Entities
pub mod Quiet
pub mod Moves
pub mod Changes
pub mod Claims
pub mod Nicks
pub mod Cids
pub mod Accept
pub mod Entering
pub mod Commands
pub mod Checking
pub mod Inf
pub mod Receiving
pub mod Steps
use adchubd.Base.{
  subst, ℕ, ◌==◌, ◌≡◌, ◌≢◌, refl, sym, ◌∙◌, Bool, true, false, List, [], ◌∷◌, Option, none, some,
  Bytes, codes, arith,
}
use adchubd.Base.Dict.{find, nat_eq, bytes_eq}
use adchubd.Cid
use mathlib.Core.Option.{some-injective}
use adchubd.Entity.{Entity, Kind, State}
use adchubd.Entity.Fields.{get_field, su, lookup}
use adchubd.Entity.Fields.Laws.{IsOrdered}
use adchubd.Entity.Flags.{is_set, flag_ghost}
use adchubd.ClientManager.{ClientManager, deref}
use adchubd.ClientManager.Removal.{is_normal, is_client}
use adchubd.ClientManager.Leaving.{is_protocol}

abbrev pub nick_of : Entity → Bytes
nick_of e = get_field e (codes "NI")

-- Before a login has claimed a CID.
abbrev pub is_early : State → Bool
is_early State.protocol = true
is_early State.identify = true
is_early _ = false

-- An entity that is there and has not been removed.
abbrev pub Live : (Entity → Type 0) → ClientManager → ℕ → Type 0
Live P m a = (e : Entity) × (deref m a ≡ some e) × (is_set e flag_ghost ≡ false) × P e

-- Every entry of the maps names a live entity that has the SID, nick or CID; whoever stands in
-- `entities` is in NORMAL, and nicks and CIDs are those of clients, as long as no bot is registered.
-- A live client with a nick or a CID stands under it. A client that has not logged in has claimed
-- no CID, unless it is being disconnected or its INF is being handled.
pub record Inv (busy : Option ℕ) (m : ClientManager) : Type 0 where
  pub listed :
      (sid a : ℕ)
      → find sid m.entities ≡ some a
      → Live (λ e. (e.sid ≡ sid) × (is_normal e.state ≡ true)) m a
  pub named :
      (nick : Bytes) (a : ℕ)
      → find nick m.nicks ≡ some a
      → Live (λ e. (nick_of e ≡ nick) × (is_client e.kind ≡ true) × (nick ≢ [])) m a
  pub identified :
      (cid : Bytes) (a : ℕ)
      → find cid m.cids ≡ some a
      → Live (λ e. (e.cid ≡ cid) × (is_client e.kind ≡ true)) m a
  pub nick_held :
      (a : ℕ) (e : Entity)
      → deref m a ≡ some e
      → is_set e flag_ghost ≡ false
      → is_client e.kind ≡ true
      → nick_of e ≢ []
      → find (nick_of e) m.nicks ≡ some a
  pub cid_held :
      (a : ℕ) (e : Entity)
      → deref m a ≡ some e
      → is_set e flag_ghost ≡ false
      → is_client e.kind ≡ true
      → e.cid ≢ Cid.empty
      → find e.cid m.cids ≡ some a
  pub unclaimed :
      (a : ℕ) (e : Entity) (cid : Bytes)
      → deref m a ≡ some e
      → is_early e.state ≡ true
      → find a m.closing ≡ none
      → busy ≢ some a
      → (e.cid ≡ Cid.empty) × (find cid m.cids ≢ some a)
  pub ordered : (a : ℕ) (e : Entity) → deref m a ≡ some e → IsOrdered e.fields

-- Two entities with the same names, marks and fields but for SU, of which the second is at least as far
-- in its login.
pub record SameId (e f : Entity) : Type 0 where
  pub kind : e.kind ≡ f.kind
  pub sid : e.sid ≡ f.sid
  pub cid : e.cid ≡ f.cid
  pub nick : nick_of e ≡ nick_of f
  pub ghost : is_set e flag_ghost ≡ is_set f flag_ghost
  pub normal : is_normal e.state ≡ true → is_normal f.state ≡ true
  pub early : is_early f.state ≡ true → is_early e.state ≡ true
  pub protocol : is_protocol f.state ≡ true → is_protocol e.state ≡ true
  pub ordered : IsOrdered e.fields → IsOrdered f.fields
  pub fields : (j : ℕ) → (su == j) ≡ false → lookup j e.fields ≡ lookup j f.fields

pub data Corr : Option Entity → Option Entity → Type 0 where
  nobody : Corr none none
  somebody : {e f : Entity} → SameId e f → Corr (some e) (some f)

-- The maps are as they were, the entities too but for what `SameId` lets change, and nobody has been
-- taken back from disconnecting.
pub record Kept (m n : ClientManager) : Type 0 where
  pub entities : m.entities ≡ n.entities
  pub nicks : m.nicks ≡ n.nicks
  pub cids : m.cids ≡ n.cids
  pub heap : (a : ℕ) → Corr (deref m a) (deref n a)
  pub closing : (a : ℕ) → find a n.closing ≡ none → find a m.closing ≡ none

pub SameId-refl : (e : Entity) → SameId e e
SameId-refl e = record {
  kind = refl;
  sid = refl;
  cid = refl;
  nick = refl;
  ghost = refl;
  normal = λ h. h;
  early = λ h. h;
  protocol = λ h. h;
  ordered = λ h. h;
  fields = λ j n. refl;
}

pub SameId-trans : {e f g : Entity} → SameId e f → SameId f g → SameId e g
SameId-trans p q = record {
  kind = p.kind ∙ q.kind;
  sid = p.sid ∙ q.sid;
  cid = p.cid ∙ q.cid;
  nick = p.nick ∙ q.nick;
  ghost = p.ghost ∙ q.ghost;
  normal = λ h. q.normal (p.normal h);
  early = λ h. p.early (q.early h);
  protocol = λ h. p.protocol (q.protocol h);
  ordered = λ h. q.ordered (p.ordered h);
  fields = λ j n. p.fields j n ∙ q.fields j n;
}

pub Corr-refl : (o : Option Entity) → Corr o o
Corr-refl none = nobody
Corr-refl (some e) = somebody (SameId-refl e)

Corr-trans : {o p q : Option Entity} → Corr o p → Corr p q → Corr o q
Corr-trans nobody nobody = nobody
Corr-trans (somebody h) (somebody k) = somebody (SameId-trans h k)

pub Kept-refl : (m : ClientManager) → Kept m m
Kept-refl m = record {
  entities = refl;
  nicks = refl;
  cids = refl;
  heap = λ a. Corr-refl (deref m a);
  closing = λ a h. h;
}

pub Kept-trans : {m n o : ClientManager} → Kept m n → Kept n o → Kept m o
Kept-trans p q = record {
  entities = p.entities ∙ q.entities;
  nicks = p.nicks ∙ q.nicks;
  cids = p.cids ∙ q.cids;
  heap = λ a. Corr-trans (p.heap a) (q.heap a);
  closing = λ a h. p.closing a (q.closing a h);
}

-- What there was is still there, and what there is was there.
pub forward :
    {o p : Option Entity} {e : Entity}
    → Corr o p
    → o ≡ some e
    → (f : Entity) × (p ≡ some f) × SameId e f
forward nobody h = absurd (cc)
forward (somebody {e} {f} s) h = (f, refl, subst (λ x. SameId x f) (some-injective _ _ h) s)

pub backward :
    {o p : Option Entity} {f : Entity}
    → Corr o p
    → p ≡ some f
    → (e : Entity) × (o ≡ some e) × SameId e f
backward nobody h = absurd (cc)
backward (somebody {e} {f} s) h = (e, refl, subst (λ x. SameId e x) (some-injective _ _ h) s)
