-- ===== src/ClientManager/Login.antt =====
-- adchpp/ClientManager.cpp: `enterIdentify`, `enterVerify` and `enterNormal`, and `failHBRI`.
use adchubd.Base.{
  ℕ, Bool, true, false, ◌&&◌, List, [], ◌∷◌, Option, none, some, Bytes, if◌then◌else◌,
}
use adchubd.Base.Dict.{insert, nat_eq}
use adchubd.AdcCommand.{new_command, add_param, from_sid, hub_sid}
use adchubd.AdcCommand.Codes.{cmd_sid, cmd_gpa}
use adchubd.AdcCommand.Print.{to_string}
use adchubd.Base32.{to_base32}
use adchubd.Entity.{State}
use adchubd.Entity.Flags.{is_set, unset_flag, flag_validate_hbri}
use adchubd.Entity.Info.{get_inf, get_sup}
use adchubd.ClientManager.{ClientManager, deref, hub_address}
use adchubd.ClientManager.Routing.{write, send_to_all}
use adchubd.ClientManager.Removal.{put, is_client, set_state, remove_logins}
use adchubd.ClientManager.Leaving.{at_state, is_hbri}
use adchubd.ClientManager.Hbri.{Env, send_hbri, strip_protocol_supports, ◌>>=◌}

-- `c.send(i->getINF())` and `c.send(i->getSUP())`, which keep the buffer.
unfoldable pub send_inf : ℕ → ℕ → ClientManager → ClientManager
send_inf to i m = elim (deref m i) [
  | none ↦ m
  | some e ↦ write (put i ((get_inf e).0) m) to ((get_inf e).1)
]

unfoldable pub send_sup : ℕ → ℕ → ClientManager → ClientManager
send_sup to i m = elim (deref m i) [
  | none ↦ m
  | some e ↦ write (put i ((get_sup e).0) m) to ((get_sup e).1)
]

-- `c.send(AdcCommand(CMD_SID).addParam(fromSID(c.getSID())))`
unfoldable pub send_sid : ℕ → ClientManager → ClientManager
send_sid a m = elim (deref m a) [
  | none ↦ m
  | some e ↦ write m a (to_string (add_param (new_command cmd_sid b'I' hub_sid) (from_sid e.sid)))
]

unfoldable pub enter_identify : ℕ → Bool → ClientManager → ClientManager
enter_identify a send_data m =
    set_state a State.identify
      (if send_data then send_inf a hub_address (send_sid a (send_sup a hub_address m)) else m)

-- The challenge is the 32 random bytes.
unfoldable pub enter_verify : Bytes → ℕ → Bool → ClientManager → ClientManager
enter_verify challenge a send_data m = set_state a State.verify (
    if send_data
    then write m a (to_string (add_param (new_command cmd_gpa b'I' hub_sid) (to_base32 challenge)))
    else m)

-- The INF of everybody.
unfoldable pub send_infs : List (ℕ × ℕ) → ℕ → ClientManager → ClientManager
send_infs [] a m = m
send_infs ((sid, i) ∷ es) a m = send_infs es a (send_inf a i m)

-- `sendToAll(c.getINF())`
unfoldable pub announce : ℕ → ClientManager → ClientManager
announce a m = elim (deref m a) [
  | none ↦ m
  | some e ↦ send_to_all ((get_inf e).1) (put a ((get_inf e).0) m)
]

unfoldable pub send_own : ℕ → Bool → ClientManager → ClientManager
send_own a send_data m = if send_data then send_inf a a (announce a m) else announce a m

-- `removeLogins(c); entities.insert(…); setState(c, STATE_NORMAL)`
unfoldable pub admit : ℕ → ClientManager → ClientManager
admit a m = elim (deref m a) [
  | none ↦ m
  | some e ↦
      let m' = remove_logins a e m in
      set_state a State.normal (record m' { entities = insert e.sid a m'.entities })
]

-- What `enterNormal` does once no validation is asked for.
unfoldable pub complete : ℕ → Bool → Bool → ClientManager → ClientManager
complete a send_data send_own_inf m =
    let m1 = if send_data then send_infs m.entities a m else m in
    let m2 = if send_own_inf then send_own a send_data m1 else m1 in admit a m2

unfoldable pub awaits : ClientManager → ℕ → Bool
awaits m a = elim (deref m a) [
  | none ↦ false
  | some e ↦ is_client e.kind && is_set e flag_validate_hbri
]

unfoldable pub drop_flag : ℕ → ClientManager → ClientManager
drop_flag a m = elim (deref m a) [ none ↦ m | some e ↦ put a (unset_flag e flag_validate_hbri) m ]

unfoldable pub enter_normal : Env → ℕ → Bool → Bool → ClientManager → ClientManager × Bool
enter_normal env a send_data send_own_inf m =
    if awaits m a
    then (let asked = send_hbri env a m in
        if asked.1
        then (asked.0, false)
        else (complete a send_data send_own_inf (drop_flag a asked.0), true))
    else (complete a send_data send_own_inf m, true)

unfoldable pub fail_hbri : Env → ℕ → ClientManager → Option ClientManager
fail_hbri env a m = do
  m' ← strip_protocol_supports a (drop_flag a m)
  some (if at_state is_hbri m' a then (enter_normal env a true true m').0 else m')
