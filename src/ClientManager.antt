-- ===== src/ClientManager.antt =====
-- adchpp/ClientManager.h: the state of the hub. A pointer to an entity is an address of `heap`; the
-- maps of the source are dictionaries, and iterate in the order of their lists. What the manager
-- writes to an entity is appended to `sent`, with the address of the entity, and what the plugins are
-- told of entities that enter states and leave to `signals`.
pub mod Sid
pub mod Routing
pub mod Removal
pub mod Leaving
pub mod Default
pub mod Externals
pub mod Sup
pub mod Hbri
pub mod Login
pub mod Identity
pub mod Address
pub mod Inf
pub mod Password
pub mod Tcp
pub mod Receive
pub mod Timer
pub mod Arrival
pub mod Invariant
use adchubd.Base.{ℕ, Bool, ◌≡◌, List, [], ◌∷◌, ◌++◌, Option, none, some, Bytes, ◌==◌, if◌then◌else◌}
use adchubd.Base.Dict.{find, nat_eq, bytes_eq}
use adchubd.AdcCommand.{hub_sid, invalid_sid}
use adchubd.Entity.{Entity, State}

-- What the plugins are told of an entity.
pub data Event : Type 0 where
  left : ℕ → Bytes → Event
  moved_from : State → Event

-- What the socket of a client tells of it: its address as text, whether that is one of IPv6, the
-- address and the port of the hub for the other protocol, if it has one, and whether its write buffer
-- is too full. `closing` of the manager holds the reasons of those that are told to disconnect.
pub record Socket : Type 0 where
  pub ip : Bytes
  pub v6 : Bool
  pub other_address : Bytes
  pub port : Bytes
  pub overflowing : Bool

pub record ClientManager : Type 0 where
  pub heap : List (ℕ × Entity)
  pub entities : List (ℕ × ℕ)
  pub nicks : List (Bytes × ℕ)
  pub cids : List (Bytes × ℕ)
  pub logins : List (ℕ × ℕ)
  pub hbri_tokens : List (Bytes × (ℕ × ℕ))
  pub sockets : List (ℕ × Socket)
  pub closing : List (ℕ × ℕ)
  pub sent : List (ℕ × Bytes)
  pub signals : List (ℕ × Event)

-- `&hub`
abbrev pub hub_address : ℕ
hub_address = 0

-- `*p`. To follow a pointer to a deleted entity is undefined in the source.
abbrev pub deref : ClientManager → ℕ → Option Entity
deref m a = find a m.heap

unfoldable pub get_entity : ClientManager → ℕ → Option ℕ
get_entity m sid =
    if sid == invalid_sid
    then none
    else if sid == hub_sid
    then some hub_address
    else find sid m.entities

abbrev pub sid_at : ClientManager → Option ℕ → ℕ
sid_at m none = invalid_sid
sid_at m (some a) = elim (deref m a) [ none ↦ invalid_sid | some e ↦ e.sid ]

-- `getSID` of a nick and of a CID.
unfoldable pub sid_of_nick : ClientManager → Bytes → ℕ
sid_of_nick m nick = sid_at m (find nick m.nicks)

unfoldable pub sid_of_cid : ClientManager → Bytes → ℕ
sid_of_cid m cid = sid_at m (find cid m.cids)
