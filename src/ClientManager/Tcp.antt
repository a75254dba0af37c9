-- ===== src/ClientManager/Tcp.antt =====
-- adchpp/ClientManager.cpp: the handler of TCP, by which a client shows over a second connection that
-- it has an address of the other protocol.
pub mod Kept
pub mod Second
use adchubd.Base.{
  ℕ, Bool, true, false, not, ◌&&◌, ◌||◌, List, [], ◌∷◌, Option, none, some, Bytes, ltb,
  if◌then◌else◌, codes, length,
}
use adchubd.Base.Dict.{find, erase, nat_eq, bytes_eq}
use adchubd.AdcCommand.{AdcCommand, new_command, status, sev_success, sev_recoverable, sev_fatal}
use adchubd.AdcCommand.Codes.{error_none, error_hbri_timeout, error_login_generic}
use adchubd.AdcCommand.Params.{get_param, is_named}
use adchubd.AdcCommand.Print.{to_string}
use adchubd.Entity.Info.{cmd_inf}
use adchubd.Reason.{reason_invalid_ip, reason_hbri}
use adchubd.ClientManager.{ClientManager, deref}
use adchubd.ClientManager.Externals.{Externals}
use adchubd.ClientManager.Routing.{write, send_to_all}
use adchubd.ClientManager.Removal.{is_normal}
use adchubd.ClientManager.Leaving.{bad_state, close, at_state, is_hbri}
use adchubd.ClientManager.Hbri.{Env, is_v6, ◌>>=◌}
use adchubd.ClientManager.Login.{enter_normal, fail_hbri, drop_flag}
use adchubd.ClientManager.Address.{verify_ip, ip_param, udp_param}
use adchubd.ClientManager.Inf.{update_at, is_client_at}

-- `c.disconnect(reason)` alone.
unfoldable pub close_at : ℕ → ℕ → ClientManager → ClientManager
close_at a reason m = elim (deref m a) [ none ↦ m | some e ↦ close a e reason m ]

unfoldable pub tell : ℕ → ℕ → ℕ → Bytes → ClientManager → ClientManager
tell a sev error text m = write m a (to_string (status sev error text))

-- The loop over the parameters: those that the other connection may set.
unfoldable pub is_kept : Bool → Bytes → Bool
is_kept v6 s =
    not (ltb (length s) 2)
    && (is_named (codes "SU") s || is_named (ip_param v6) s || is_named (udp_param v6) s)

unfoldable pub kept_params : Bool → List Bytes → List Bytes
kept_params v6 [] = []
kept_params v6 (p ∷ ps) = let rest = kept_params v6 ps in if is_kept v6 p then p ∷ rest else rest

-- A connection with no token, or an unknown one.
unfoldable pub reject : ℕ → Bytes → ClientManager → ClientManager
reject a error m = close_at a reason_hbri (tell a sev_fatal error_login_generic error m)

-- The INF with the new fields, for everybody.
unfoldable pub publish : ℕ → AdcCommand → ClientManager → ClientManager
publish main cmd m = elim (deref m main) [
  | none ↦ m
  | some e ↦
      send_to_all
        (to_string (record (new_command cmd_inf b'B' e.sid) { parameters = cmd.parameters })) m
]

-- The main connection has what the other one sent.
unfoldable pub validated : Env → ℕ → ℕ → AdcCommand → ClientManager → ClientManager
validated env a main cmd m =
    let m' =
      update_at main cmd
        (close_at a reason_hbri (tell a sev_success error_none (codes "Validation succeed") m)) in
    if at_state is_hbri m' main then (enter_normal env main true true m').0 else publish main cmd m'

-- A connection over the same protocol. It is this one whose validation is given up.
unfoldable pub wrong_protocol : Env → ℕ → ClientManager → Option ClientManager
wrong_protocol env a m = do
  m' ← fail_hbri env a (
      tell a sev_recoverable error_hbri_timeout
        (codes "Validation request was received over the wrong IP protocol") m)
  some (close_at a reason_invalid_ip m')

module _ (x : Externals) where
  -- The token has been taken out of the map.
  unfoldable pub validate :
      Env → ℕ → ℕ → AdcCommand → ClientManager → Option (ClientManager × AdcCommand × Bool)
  validate env a main cmd m =
      if (if is_v6 m main then is_v6 m a else not (is_v6 m a))
      then (do m' ← wrong_protocol env a m; some (m', cmd, false))
      else (let v = verify_ip x a cmd m in
          if not v.is_ok
          then (do m' ← fail_hbri env main v.manager; some (m', v.command, false))
          else (let cmd' = record (v.command) {
            parameters = kept_params (is_v6 m a) v.command.parameters;
          } in
              some (validated env a main cmd' v.manager, cmd', true)))

  unfoldable pub by_token :
      Env → ℕ → AdcCommand → Bytes → ℕ → ClientManager → Option (ClientManager × AdcCommand × Bool)
  by_token env a cmd token main m =
      let m' = drop_flag main m in
      if not (at_state is_hbri m' main) && not (at_state is_normal m' main)
      then some (bad_state a cmd m', cmd, false)
      else validate env a main cmd (record m' { hbri_tokens = erase token m'.hbri_tokens })

  unfoldable pub handle_tcp :
      Env → ℕ → AdcCommand → ClientManager → Option (ClientManager × AdcCommand × Bool)
  handle_tcp env a cmd m =
      if not (is_client_at m a) then some (m, cmd, false) else elim (get_param cmd (codes "TO") 0) [
        | none ↦ some (reject a (codes "Validation token missing") m, cmd, true)
        | some token ↦ elim (find token m.hbri_tokens) [
          | none ↦ some (reject a (codes "Unknown validation token") m, cmd, true)
          | some (main, time) ↦ by_token env a cmd token main m
        ]
      ]
