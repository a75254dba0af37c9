-- ===== src/ClientManager/Leaving.antt =====
-- adchpp/ClientManager.cpp: `disconnect`, which tells an entity why and closes it, `badState` and
-- `handleDefault`; the `disconnect` of adchpp/Client.cpp, adchpp/Bot.cpp and adchpp/Hub.h. The first
-- reason for which an entity is told to disconnect stays.
use adchubd.Base.{ℕ, Bool, true, false, [], ◌++◌, none, some, Bytes, if◌then◌else◌, is_empty, codes}
use adchubd.Base.Dict.{insert, nat_eq}
use adchubd.AdcCommand.{
  AdcCommand, new_command, add_param, add_named, from_sid, get_four_cc, hub_sid, status, sev_fatal,
  error_protocol_generic,
}
use adchubd.AdcCommand.Codes.{cmd_qui, error_bad_state}
use adchubd.AdcCommand.Print.{to_string}
use adchubd.Entity.{Entity, Kind, State}
use adchubd.Reason.{reason_bad_state}
use adchubd.StrUtil.{int_to_string}
use adchubd.ClientManager.{ClientManager, deref}
use adchubd.ClientManager.Routing.{write}

-- The fatal status, with a parameter if there is one.
unfoldable pub fatal : Bytes → ℕ → Bytes → AdcCommand
fatal info error param =
    let sta = status sev_fatal error info in if is_empty param then sta else add_param sta param

-- The QUI behind it. The time is -1 or 1.
unfoldable pub farewell : ℕ → Bytes → Bool → AdcCommand
farewell sid info negative =
    add_named
      (add_named
        (add_named (add_param (new_command cmd_qui b'I' hub_sid) (from_sid sid)) (codes "DI")
          (codes "1"))
        (codes "MS") info)
      (codes "TL") (int_to_string negative 1)

abbrev pub is_hub : Kind → Bool
is_hub Kind.hub = true
is_hub _ = false

-- `c.disconnect(reason)`
unfoldable pub close : ℕ → Entity → ℕ → ClientManager → ClientManager
close a e reason m = if is_hub e.kind then m else record m { closing = insert a reason m.closing }

-- `disconnect`, whose last argument says whether the time to reconnect is -1, as it is by default.
unfoldable pub disconnect_for : ℕ → ℕ → Bytes → ℕ → Bytes → Bool → ClientManager → ClientManager
disconnect_for a reason info error param negative m = elim (deref m a) [
  | none ↦ m
  | some e ↦ close a e reason (
      write (write m a (to_string (fatal info error param))) a
        (to_string (farewell e.sid info negative)))
]

abbrev pub disconnect_error : ℕ → ℕ → Bytes → ℕ → Bytes → ClientManager → ClientManager
disconnect_error a reason info error param m = disconnect_for a reason info error param true m

abbrev pub disconnect : ℕ → ℕ → Bytes → ClientManager → ClientManager
disconnect a reason info m = disconnect_for a reason info error_protocol_generic [] true m

unfoldable pub bad_state : ℕ → AdcCommand → ClientManager → ClientManager
bad_state a cmd m =
    disconnect_error a reason_bad_state (codes "Invalid state for command") error_bad_state
      (codes "FC" ++ get_four_cc cmd) m

-- Whether the entity is in a state that the test holds of.
unfoldable pub at_state : (State → Bool) → ClientManager → ℕ → Bool
at_state f m a = elim (deref m a) [ none ↦ false | some e ↦ f e.state ]

abbrev pub is_protocol : State → Bool
is_protocol State.protocol = true
is_protocol _ = false

abbrev pub is_identify : State → Bool
is_identify State.identify = true
is_identify _ = false

abbrev pub is_verify : State → Bool
is_verify State.verify = true
is_verify _ = false

abbrev pub is_hbri : State → Bool
is_hbri State.hbri = true
is_hbri _ = false
