-- ===== src/ClientManager/Removal/Removed.antt =====
-- adchpp/ClientManager.cpp: what `removeEntity` leaves behind.
use adchubd.Base.{
  ℕ, ◌≡◌, refl, sym, ◌∙◌, ap, Bool, true, false, List, [], ◌∷◌, ◌++◌, none, some, Bytes, ◌&&◌, ◌==◌,
  same, if◌then◌else◌, codes, arith, Bool-cases, inl, inr, Option-cases, ==_refl,
}
use adchubd.Base.Dict.{find, erase, nat_eq, bytes_eq, find-insert, find-erase}
use adchubd.Entity.{Entity}
use adchubd.Entity.Fields.{get_field}
use adchubd.Entity.Flags.{is_set, set_flag, flag_ghost}
use adchubd.AdcCommand.Print.{to_string}
use adchubd.Entity.Flags.Laws.{is_set-set_flag}
use adchubd.ClientManager.{ClientManager, left, deref}
use adchubd.ClientManager.Routing.{write, send_to_all, send_all_loop}
use adchubd.ClientManager.Removal.{
  put, is_client, is_normal, remove_logins, quit, forget, remove_entity,
}

-- Two managers with the same entities and names.
pub record SameNames (m n : ClientManager) : Type 0 where
  pub heap : m.heap ≡ n.heap
  pub entities : m.entities ≡ n.entities
  pub nicks : m.nicks ≡ n.nicks
  pub cids : m.cids ≡ n.cids
  pub closing : m.closing ≡ n.closing

pub send_all_loop-SameNames :
    (es : List (ℕ × ℕ)) (line : Bytes) (m : ClientManager) → SameNames (send_all_loop es line m) m
unfolding send_all_loop
send_all_loop-SameNames [] line m = record {
  heap = refl;
  entities = refl;
  nicks = refl;
  cids = refl;
  closing = refl;
}
send_all_loop-SameNames ((sid, a) ∷ es) line m =
    let r = send_all_loop-SameNames es line (write m a line) in
    record {
      heap = r.heap;
      entities = r.entities;
      nicks = r.nicks;
      cids = r.cids;
      closing = r.closing;
    }

pub remove_logins-SameNames :
    (a : ℕ) (e : Entity) (m : ClientManager) → SameNames (remove_logins a e m) m
unfolding remove_logins
remove_logins-SameNames a e m = elim (Bool-cases (is_client e.kind)) [
  | inl t ↦
      rw t (record { heap = refl; entities = refl; nicks = refl; cids = refl; closing = refl })
  | inr t ↦
      rw t (record { heap = refl; entities = refl; nicks = refl; cids = refl; closing = refl })
]

-- The manager without the names of an entity, which has the flag of a ghost.
pub record Removed (a : ℕ) (e : Entity) (m n : ClientManager) : Type 0 where
  pub ghost : deref n a ≡ some (set_flag e flag_ghost)
  pub others : (b : ℕ) → (a == b) ≡ false → deref n b ≡ deref m b
  pub entities :
      (sid : ℕ)
      → find sid n.entities
        ≡ (if is_normal e.state && e.sid == sid then none else find sid m.entities)
  pub nicks :
      (nick : Bytes)
      → find nick n.nicks
        ≡ (if same (get_field e (codes "NI")) nick then none else find nick m.nicks)
  pub cids : (cid : Bytes) → find cid n.cids ≡ (if same e.cid cid then none else find cid m.cids)
  pub closing : n.closing ≡ m.closing

-- What `forget` does to each of the maps.
forget-SameNames :
    (a : ℕ) (e : Entity) (m : ClientManager)
    → SameNames (forget a e m) (record m {
      entities = if is_normal e.state then erase e.sid m.entities else m.entities;
      nicks = erase (get_field e (codes "NI")) m.nicks;
      cids = erase e.cid m.cids;
    })
unfolding forget send_to_all
forget-SameNames a e m = elim (Bool-cases (is_normal e.state)) [
  | inl t ↦
      let r =
        send_all_loop-SameNames (erase e.sid m.entities) (to_string (quit e))
          (record m { entities = erase e.sid m.entities }) in
      rw t (record {
        heap = r.heap;
        entities = r.entities;
        nicks = ap (erase (get_field e (codes "NI"))) r.nicks;
        cids = ap (erase e.cid) r.cids;
        closing = r.closing;
      })
  | inr t ↦
      let r = remove_logins-SameNames a e m in
      rw t (record {
        heap = r.heap;
        entities = r.entities;
        nicks = ap (erase (get_field e (codes "NI"))) r.nicks;
        cids = ap (erase e.cid) r.cids;
        closing = r.closing;
      })
]

pub find-put :
    (a : ℕ) (e : Entity) (m : ClientManager) (b : ℕ)
    → deref (put a e m) b ≡ (if a == b then some e else deref m b)
find-put a e m b = ground (arith, find-insert a b e (erase a m.heap), find-erase a b m.heap)

find-erase_if :
    (t : Bool) (k j : ℕ) (l : List (ℕ × ℕ))
    → find j (if t then erase k l else l) ≡ (if t && k == j then none else find j l)
find-erase_if true k j l = find-erase k j l
find-erase_if false k j l = refl

-- `removeEntity` of an entity that is no ghost makes it one and takes its SID, if it is in NORMAL,
-- its nick and its CID out of the maps; all other entries and entities stay as they were.
pub remove_entity-Removed :
    (a reason : ℕ) (info : Bytes) (m : ClientManager) (e : Entity)
    → deref m a ≡ some e
    → is_set e flag_ghost ≡ false
    → Removed a e m (remove_entity a reason info m)
unfolding remove_entity set_flag get_field
remove_entity-Removed a reason info m e at fresh =
    let e' = set_flag e flag_ghost in
    let r =
      forget-SameNames a e'
        (record (put a e' m) { signals = m.signals ++ (a, left reason info) ∷ [] }) in
    rw (remove_entity, at, fresh)
      (record {
        ghost = ap (find a) r.heap ∙ find-put a e' m a ∙ rw (==_refl a) refl;
        others = λ b ne. ap (find b) r.heap ∙ find-put a e' m b ∙ rw ne refl;
        entities = λ sid.
            ap (find sid) r.entities ∙ find-erase_if (is_normal e.state) e.sid sid m.entities;
        nicks = λ nick. ap (find nick) r.nicks ∙ find-erase (get_field e (codes "NI")) nick m.nicks;
        cids = λ cid. ap (find cid) r.cids ∙ find-erase e.cid cid m.cids;
        closing = r.closing;
      })

remove_entity-ghost :
    (a reason : ℕ) (info : Bytes) (m : ClientManager) (e : Entity)
    → deref m a ≡ some e
    → is_set e flag_ghost ≡ true
    → remove_entity a reason info m ≡ m
unfolding remove_entity
remove_entity-ghost a reason info m e at t = rw (remove_entity, at, t) refl

remove_entity_nobody :
    (a reason : ℕ) (info : Bytes) (m : ClientManager)
    → deref m a ≡ none
    → remove_entity a reason info m ≡ m
unfolding remove_entity
remove_entity_nobody a reason info m at = rw (remove_entity, at) refl

-- Removing an entity once more changes nothing, whatever the reasons are.
remove_entity-remove_entity :
    (a reason again : ℕ) (info more : Bytes) (m : ClientManager)
    → remove_entity a again more (remove_entity a reason info m) ≡ remove_entity a reason info m
remove_entity-remove_entity a reason again info more m = elim (Option-cases (deref m a)) [
  | inl at ↦
      ap (remove_entity a again more) (remove_entity_nobody a reason info m at)
      ∙ remove_entity_nobody a again more m at
      ∙ sym (remove_entity_nobody a reason info m at)
  | inr (e, at) ↦ elim (Bool-cases (is_set e flag_ghost)) [
    | inl t ↦
        ap (remove_entity a again more) (remove_entity-ghost a reason info m e at t)
        ∙ remove_entity-ghost a again more m e at t
        ∙ sym (remove_entity-ghost a reason info m e at t)
    | inr t ↦
        remove_entity-ghost a again more (remove_entity a reason info m) (set_flag e flag_ghost)
          ((remove_entity-Removed a reason info m e at t).ghost)
          ((is_set-set_flag e flag_ghost (omega arith) (omega arith)).0)
  ]
]
