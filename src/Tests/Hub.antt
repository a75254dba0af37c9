-- ===== src/Tests/Hub.antt =====
-- adchpp/ClientManager.cpp at concrete inputs.
use adchubd.Base.{
  arith, ℕ, ◌+◌, not, ◌==◌, ◌≡◌, ◌⊎◌, ◌≢◌, refl, Bool, true, [], ◌∷◌, none, some, List, codes, All,
}
use adchubd.Base.Dict.{find, nat_eq}
use adchubd.AdcCommand.{
  AdcCommand, to_field, from_sid, normal, to_cmd, to_sid, to_four_cc, from_sid,
}
use adchubd.AdcCommand.Print.{to_string, render, append_params, escape, escape_byte, up_to_zero}
use adchubd.Entity.{Entity, client, State}
use adchubd.ClientManager.{ClientManager, get_entity}
use adchubd.ClientManager.Removal.{remove_entity}
use adchubd.ClientManager.Removal.Removed.{Removed, remove_entity-Removed}
use adchubd.Entity.Flags.{is_set_in}
use adchubd.ClientManager.Sid.{make_sid, sid_of, letter, is_free, IsNew, make_sid-IsNew}
use adchubd.ClientManager.Routing.Features.{admitted_at, send-written}
use adchubd.Entity.Supports.Filters.{need, written}
use adchubd.ClientManager.Routing.{send, echo, send_if, maybe_send}
use adchubd.ClientManager.Routing.Delivered.{
  Part, chosen, targets, deliver, send-Part, send-targets,
}

abbrev someone : ℕ → List ℕ → Entity
someone sid filters = record {
  kind = client;
  cid = [];
  sid = sid;
  flags = 0;
  state = State.normal;
  supports = [];
  filters = filters;
  fields = (to_field (codes "NI"), from_sid sid) ∷ [];
  inf = none;
  sup = none;
}

abbrev room : ClientManager
room = record {
  heap =
      (10, someone (to_sid (codes "AAAB")) (to_four_cc (codes "TCP4") ∷ []))
      ∷ (20, someone (to_sid (codes "AAAC")) [])
      ∷ [];
  entities = (to_sid (codes "AAAB"), 10) ∷ (to_sid (codes "AAAC"), 20) ∷ [];
  nicks = (codes "AAAB", 10) ∷ (codes "AAAC", 20) ∷ [];
  cids = [];
  logins = [];
  hbri_tokens = [];
  sockets = [];
  closing = [];
  sent = [];
  signals = [];
}

abbrev message : ℕ → AdcCommand
message type = record {
  parameters = codes "hi" ∷ [];
  features = codes "+TCP4";
  buffer = none;
  cmd_int = to_cmd b'M' b'S' b'G';
  priority = normal;
  from = to_sid (codes "AAAC");
  to = to_sid (codes "AAAB");
  type = type;
}

-- The plugins stop what would go to the entity at this address.
abbrev stopping : ℕ → ℕ → AdcCommand → ClientManager → ℕ → ℕ × Bool
stopping b a cmd m p = (p + 1, not (a == b))

abbrev passing : ℕ → AdcCommand → ClientManager → ℕ → ℕ × Bool
passing a cmd m p = (p, true)

make_sid_run : make_sid room (0x8000 ∷ 0x18000 ∷ []) ≡ some (to_sid (codes "AAAD"))
unfolding make_sid sid_of letter is_free find to_sid
make_sid_run = refl

-- Both have the message, in the order of the heap.
send_run :
    (send (stopping 30) (message b'E') (room, 0)).0.sent
    ≡ (10, codes "EMSG AAAC AAAB hi\n") ∷ (20, codes "EMSG AAAC AAAB hi\n") ∷ []
unfolding send echo send_if maybe_send get_entity find to_sid to_string render append_params escape
    escape_byte up_to_zero from_sid
send_run = refl

make_sid-IsNew_example :
    ((sid : ℕ) × (make_sid room (0x8000 ∷ 0x18000 ∷ []) ≡ some sid) × IsNew room sid)
    ⊎ ((make_sid room (0x8000 ∷ 0x18000 ∷ []) ≡ none)
        × All (λ v. find (sid_of v) room.entities ≢ none) (0x8000 ∷ 0x18000 ∷ []))
make_sid-IsNew_example = make_sid-IsNew room (0x8000 ∷ 0x18000 ∷ [])

send-Part_example :
    (xs : List ℕ) × Part xs (targets (message b'B') room)
    × ((send (stopping 20) (message b'B') (room, 0)).0 ≡ deliver xs (to_string (message b'B')) room)
send-Part_example = send-Part (stopping 20) (message b'B') (room, 0)

send-targets_example :
    (send passing (message b'F') (room, 0)).0
    ≡ deliver (targets (message b'F') room) (to_string (message b'F')) room
send-targets_example = send-targets passing (λ a c m p. refl) (message b'F') (room, 0)

send-written_example :
    (send passing (message b'F') (room, 0)).0
    ≡ deliver
        (chosen (admitted_at room (need (to_four_cc (codes "TCP4")) ∷ [])) room.entities)
        (to_string (message b'F'))
        room
unfolding to_sid written from_sid
send-written_example =
    send-written passing (λ a c m p. refl) (message b'F') (room, 0)
      (need (to_four_cc (codes "TCP4")) ∷ []) refl refl refl (omega arith)

remove_entity-Removed_example :
    Removed 10
      (someone (to_sid (codes "AAAB")) (to_four_cc (codes "TCP4") ∷ []))
      room
      (remove_entity 10 8 [] room)
unfolding find is_set_in
remove_entity-Removed_example =
    remove_entity-Removed 10 8 [] room
      (someone (to_sid (codes "AAAB")) (to_four_cc (codes "TCP4") ∷ [])) refl refl
