-- ===== src/ClientManager/Removal.antt =====
-- adchpp/ClientManager.cpp: `removeLogins`, `removeEntity` and `setState`.
pub mod Removed
use adchubd.Base.{
  ℕ, ◌≡◌, refl, Bool, true, false, not, List, [], ◌∷◌, ◌++◌, Option, none, some, Bytes, ◌==◌, same,
  if◌then◌else◌, codes, arith,
}
use adchubd.Base.Dict.{find, insert, erase, nat_eq, bytes_eq, find-insert, find-erase}
use adchubd.AdcCommand.{
  AdcCommand, new_command, to_cmd, to_four_cc, hub_sid, from_sid, add_param, add_named,
}
use adchubd.AdcCommand.Print.{to_string}
use adchubd.Entity.{Entity, Kind, State}
use adchubd.Entity.Fields.{get_field}
use adchubd.Entity.Flags.{is_set, set_flag, flag_ghost}
use adchubd.Entity.Supports.{has_support}
use adchubd.ClientManager.{ClientManager, Event, left, moved_from, deref}
use adchubd.ClientManager.Routing.{send_to_all}

-- The entity at an address is changed in place.
abbrev pub put : ℕ → Entity → ClientManager → ClientManager
put a e m = record m { heap = insert a e (erase a m.heap) }

abbrev pub is_normal : State → Bool
is_normal State.normal = true
is_normal _ = false

abbrev pub is_client : Kind → Bool
is_client Kind.client = true
is_client _ = false

unfoldable pub set_state : ℕ → State → ClientManager → ClientManager
set_state a new m = elim (deref m a) [
  | none ↦ m
  | some e ↦ record (put a (record e { state = new }) m) {
    signals = m.signals ++ (a, moved_from e.state) ∷ [];
  }
]

-- Each loop of `removeLogins` erases the first element for the client.
unfoldable pub erase_login : ℕ → List (ℕ × ℕ) → List (ℕ × ℕ)
erase_login a [] = []
erase_login a ((b, time) ∷ logins) = if b == a then logins else (b, time) ∷ erase_login a logins

unfoldable pub erase_token : ℕ → List (Bytes × (ℕ × ℕ)) → List (Bytes × (ℕ × ℕ))
erase_token a [] = []
erase_token a ((token, (b, time)) ∷ tokens) =
    if b == a then tokens else (token, (b, time)) ∷ erase_token a tokens

unfoldable pub remove_logins : ℕ → Entity → ClientManager → ClientManager
remove_logins a e m =
    if is_client e.kind
    then record m {
      logins = erase_login a m.logins;
      hbri_tokens =
          if has_support e (to_four_cc (codes "HBRI"))
          then erase_token a m.hbri_tokens
          else m.hbri_tokens;
    }
    else m

unfoldable pub quit : Entity → AdcCommand
quit e =
    add_named (add_param (new_command (to_cmd b'Q' b'U' b'I') b'I' hub_sid) (from_sid e.sid))
      (codes "DI") (codes "1")

-- What `removeEntity` does behind the signal, with the entity as it is then.
unfoldable pub forget : ℕ → Entity → ClientManager → ClientManager
forget a e m =
    let m' =
      if is_normal e.state
      then send_to_all (to_string (quit e)) (record m { entities = erase e.sid m.entities })
      else remove_logins a e m in
    record m' { nicks = erase (get_field e (codes "NI")) m'.nicks; cids = erase e.cid m'.cids }

unfoldable pub remove_entity : ℕ → ℕ → Bytes → ClientManager → ClientManager
remove_entity a reason info m = elim (deref m a) [
  | none ↦ m
  | some e ↦
      if is_set e flag_ghost
      then m
      else let e' = set_flag e flag_ghost in
        forget a e' (record (put a e' m) { signals = m.signals ++ (a, left reason info) ∷ [] })
]
