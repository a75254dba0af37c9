-- ===== src/ClientManager/Inf.antt =====
-- adchpp/ClientManager.cpp: `verifyINF`, and the handler of INF. `none` stands for the end of the
-- process, where `removeClientSupport` throws.
use adchubd.Base.{
  ℕ, Bool, true, false, not, ◌&&◌, [], Option, none, some, Bytes, same, if◌then◌else◌, codes,
  is_empty,
}
use adchubd.Base.Dict.{find, insert, erase, nat_eq, bytes_eq}
use adchubd.AdcCommand.{AdcCommand}
use adchubd.AdcCommand.Codes.{error_cid_taken}
use adchubd.AdcCommand.Params.{get_param}
use adchubd.Entity.Fields.{or_empty, update_fields}
use adchubd.Entity.Flags.{is_set, set_flag, flag_validate_hbri}
use adchubd.Reason.{reason_cid_taken, reason_invalid_description}
use adchubd.ClientManager.{ClientManager, deref}
use adchubd.ClientManager.Externals.{Externals}
use adchubd.ClientManager.Removal.{put, is_client, is_normal, remove_entity}
use adchubd.ClientManager.Leaving.{
  disconnect, disconnect_error, bad_state, at_state, is_identify, is_hbri,
}
use adchubd.ClientManager.Hbri.{Env, send_hbri, strip_protocol_supports, ◌>>=◌}
use adchubd.ClientManager.Login.{enter_normal}
use adchubd.ClientManager.Identity.{
  validate_charset, verify_cid, verify_nick, verify_overflow, nick_at,
}
use adchubd.ClientManager.Address.{Verified, unchanged, verify_ip}

-- `updateFields` of the entity at an address.
unfoldable pub update_at : ℕ → AdcCommand → ClientManager → ClientManager
update_at a cmd m = elim (deref m a) [ none ↦ m | some e ↦ put a (update_fields e cmd) m ]

unfoldable pub is_client_at : ClientManager → ℕ → Bool
is_client_at m a = elim (deref m a) [ none ↦ false | some e ↦ is_client e.kind ]

unfoldable pub is_set_at : ClientManager → ℕ → ℕ → Bool
is_set_at m a flag = elim (deref m a) [ none ↦ false | some e ↦ is_set e flag ]

-- Whoever has the CID is disconnected and removed.
unfoldable pub drop_other : Bytes → ClientManager → ClientManager
drop_other cid m = elim (find cid m.cids) [
  | none ↦ m
  | some other ↦
      remove_entity other reason_cid_taken []
        (disconnect_error other reason_cid_taken (codes "CID taken") error_cid_taken [] m)
]

unfoldable pub set_cid : ℕ → Bytes → ClientManager → ClientManager
set_cid a cid m = elim (deref m a) [ none ↦ m | some e ↦ put a (record e { cid = cid }) m ]

-- In IDENTIFY the entity takes the CID.
unfoldable pub claim_cid : ℕ → Bytes → ClientManager → ClientManager
claim_cid a cid m =
    if at_state is_identify m a
    then (let m' = set_cid a cid (drop_other cid m) in record m' { cids = insert cid a m'.cids })
    else m

-- The entity takes the nick, if there is one, and gives up another one that it has.
unfoldable pub claim_nick : ℕ → Bytes → ClientManager → ClientManager
claim_nick a nick m =
    if is_empty nick
    then m
    else (let old = nick_at m a in
        let rest =
          if not (is_empty old) && not (same old nick) then erase old m.nicks else m.nicks in
        record m { nicks = insert nick a rest })

-- The request to validate the other protocol, at once or at the end of the login.
unfoldable pub ask_later : Env → ℕ → ClientManager → ClientManager
ask_later env a m =
    if at_state is_normal m a
    then (send_hbri env a m).0
    else elim (deref m a) [ none ↦ m | some e ↦ put a (set_flag e flag_validate_hbri) m ]

abbrev pub has_param : AdcCommand → Bytes → Bool
has_param cmd name = elim (get_param cmd name 0) [ none ↦ false | some v ↦ true ]

-- The last part, for clients.
unfoldable pub finish_client : Env → ℕ → AdcCommand → Bool → ClientManager → Option ClientManager
finish_client env a cmd secondary m =
    let m' = if secondary then ask_later env a m else m in
    if has_param cmd (codes "SU")
      && not (is_set_at m' a flag_validate_hbri)
      && not (at_state is_hbri m' a)
    then strip_protocol_supports a m'
    else some m'

-- What follows the checks.
unfoldable pub accept_inf :
    Env → ℕ → AdcCommand → Bytes → Bytes → Bool → ClientManager → Option ClientManager
accept_inf env a cmd cid nick secondary m =
    let m' = update_at a cmd (claim_nick a nick (claim_cid a cid m)) in
    if is_client_at m' a then finish_client env a cmd secondary m' else some m'

module _ (x : Externals) where
  -- The nick is checked where the command has one.
  unfoldable pub check_nick : ℕ → Option Bytes → ClientManager → ClientManager × Bool
  check_nick a none m = (m, true)
  check_nick a (some nick) m = verify_nick x a nick m

  unfoldable pub check_description : ℕ → Option Bytes → ClientManager → ClientManager × Bool
  check_description a none m = (m, true)
  check_description a (some text) m =
      if not (validate_charset text 32)
      then (
        disconnect a reason_invalid_description (codes "Invalid character in description") m,
        false,
      )
      else (m, true)

  -- The checks of `verifyINF`, in their order: the CID, or what they refuse.
  unfoldable pub check_inf : ℕ → AdcCommand → ClientManager → Verified × Option Bytes
  check_inf a cmd m =
      let by_cid = verify_cid x a cmd m in
      elim by_cid.1 [
        | none ↦ (unchanged cmd false by_cid.0, none)
        | some cid ↦
            let by_nick = check_nick a (get_param cmd (codes "NI") 0) by_cid.0 in
            if not by_nick.1
            then (unchanged cmd false by_nick.0, none)
            else (let by_text = check_description a (get_param cmd (codes "DE") 0) by_nick.0 in
                if not by_text.1
                then (unchanged cmd false by_text.0, none)
                else if is_client_at by_text.0 a
                then (verify_ip x a cmd by_text.0, some cid)
                else (unchanged cmd true by_text.0, some cid))
      ]

  -- `verifyINF`: the manager, the command, and whether it is accepted.
  unfoldable pub verify_inf :
      Env → ℕ → AdcCommand → ClientManager → Option (ClientManager × AdcCommand × Bool)
  verify_inf env a cmd m =
      let checked = check_inf a cmd m in
      let v = checked.0 in
      elim checked.1 [
        | none ↦ some (v.manager, v.command, false)
        | some cid ↦
            if v.is_ok
            then (do
              m' ←
                  accept_inf env a v.command cid (or_empty (get_param cmd (codes "NI") 0))
                    v.secondary v.manager
              some (m', v.command, true))
            else some (v.manager, v.command, false)
      ]

  -- What the handler does with an accepted INF.
  unfoldable pub enter : Env → ℕ → AdcCommand → ClientManager → ClientManager × AdcCommand × Bool
  enter env a cmd m =
      if at_state is_identify m a
      then (let room = verify_overflow a m in
          if not room.1
          then (room.0, cmd, false)
          else ((enter_normal env a true true room.0).0, cmd, false))
      else (m, cmd, true)

  unfoldable pub handle_inf :
      Env → ℕ → AdcCommand → ClientManager → Option (ClientManager × AdcCommand × Bool)
  handle_inf env a cmd m =
      if not (at_state is_identify m a) && not (at_state is_normal m a)
      then some (bad_state a cmd m, cmd, false)
      else do r ← verify_inf env a cmd m; some (if r.2 then enter env a r.1 r.0 else r)
