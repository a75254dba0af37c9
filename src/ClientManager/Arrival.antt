-- ===== src/ClientManager/Arrival.antt =====
-- adchpp/ClientManager.cpp: how entities come to the hub: `handleIncoming`, `onConnected`,
-- `createBot` and `regBot`, `prepareSupports`, and the constructor; adchpp/Hub.cpp.
use adchubd.Base.{ℕ, Bool, true, false, [], ◌∷◌, ◌++◌, none, some, Bytes, if◌then◌else◌, codes}
use adchubd.Base.Dict.{insert, nat_eq, bytes_eq}
use adchubd.AdcCommand.{hub_sid, to_four_cc}
use adchubd.Cid
use adchubd.Entity.{Entity, Kind, State}
use adchubd.Entity.Fields.{get_field, set_field}
use adchubd.Entity.Flags.{set_flag, flag_bot, flag_hub}
use adchubd.Entity.Supports.{add_supports}
use adchubd.ClientManager.{ClientManager, Socket, deref, hub_address}
use adchubd.ClientManager.Removal.{put}
use adchubd.ClientManager.Hbri.{Env}
use adchubd.ClientManager.Login.{enter_identify, enter_normal}

-- `Entity(cm, sid)`
abbrev pub new_entity : Kind → ℕ → Entity
new_entity kind sid = record {
  kind = kind;
  cid = Cid.empty;
  sid = sid;
  flags = 0;
  state = State.protocol;
  supports = [];
  filters = [];
  fields = [];
  inf = none;
  sup = none;
}

-- `Hub(cm)`, with the name and the version of the program.
unfoldable pub new_hub : Bytes → Bytes → Entity
new_hub name version =
    let e1 = set_field (new_entity Kind.hub hub_sid) (codes "NI") (codes "adchpp") in
    let e2 = set_field e1 (codes "HI") (codes "1") in
    let e3 = set_field e2 (codes "DE") (name ++ (b' ' ∷ version)) in
    let e4 = set_field e3 (codes "AP") name in set_flag (set_field e4 (codes "VE") version) flag_hub

unfoldable pub new_manager : Bytes → Bytes → ClientManager
new_manager name version = record {
  heap = (hub_address, new_hub name version) ∷ [];
  entities = [];
  nicks = [];
  cids = [];
  logins = [];
  hbri_tokens = [];
  sockets = [];
  closing = [];
  sent = [];
  signals = [];
}

unfoldable pub hub_supports : Bool → Entity → Entity
hub_supports add_hbri e =
    let e' =
      (add_supports ((add_supports e (to_four_cc (codes "BASE"))).0)
        (to_four_cc (codes "TIGR"))).0 in
    if add_hbri then (add_supports e' (to_four_cc (codes "HBRI"))).0 else e'

unfoldable pub prepare_supports : Bool → ClientManager → ClientManager
prepare_supports add_hbri m = elim (deref m hub_address) [
  | none ↦ m
  | some e ↦ put hub_address (hub_supports add_hbri e) m
]

-- A new client, at an address that the allocator gives, with a SID of `makeSID`.
unfoldable pub handle_incoming : ℕ → Socket → ℕ → ClientManager → ClientManager
handle_incoming a s sid m = record (put a (new_entity Kind.client sid) m) {
  sockets = insert a s m.sockets;
}

unfoldable pub on_connected : Env → ℕ → ClientManager → ClientManager
on_connected env a m = record m { logins = m.logins ++ (a, env.now) ∷ [] }

-- A new bot, with a random CID.
unfoldable pub create_bot : ℕ → ℕ → Bytes → ClientManager → ClientManager
create_bot a sid cid m =
    put a (record (set_flag (new_entity Kind.bot sid) flag_bot) { cid = cid }) m

-- `cids.insert` and `nicks.insert` of a bot.
unfoldable pub list_bot : ℕ → ClientManager → ClientManager
list_bot a m = elim (deref m a) [
  | none ↦ m
  | some e ↦ record m {
    cids = insert e.cid a m.cids;
    nicks = insert (get_field e (codes "NI")) a m.nicks;
  }
]

unfoldable pub reg_bot : Env → ℕ → ClientManager → ClientManager
reg_bot env a m = list_bot a ((enter_normal env a false true (enter_identify a false m)).0)
