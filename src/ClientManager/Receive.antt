-- ===== src/ClientManager/Receive.antt =====
-- adchpp/ClientManager.cpp: `onReceive`, with the `dispatch` of adchpp/AdcCommand.h. A plugin may
-- change the command, and stop it.
use adchubd.Base.{ℕ, Bool, true, not, ◌||◌, List, [], ◌∷◌, Option, some, ◌==◌, if◌then◌else◌, codes}
use adchubd.AdcCommand.{AdcCommand}
use adchubd.AdcCommand.Codes.{
  cmd_sta, cmd_msg, cmd_sch, cmd_res, cmd_ctm, cmd_rcm, cmd_gpa, cmd_pas, cmd_qui, cmd_get, cmd_gfi,
  cmd_snd, cmd_sid, cmd_cmd, cmd_nat, cmd_rnt, cmd_tcp,
}
use adchubd.Entity.Info.{cmd_inf, cmd_sup}
use adchubd.Entity.Flags.{flag_ghost}
use adchubd.Entity.Supports.{contains}
use adchubd.Reason.{reason_invalid_command_type}
use adchubd.ClientManager.{ClientManager}
use adchubd.ClientManager.Externals.{Externals}
use adchubd.ClientManager.Routing.{send}
use adchubd.ClientManager.Leaving.{disconnect}
use adchubd.ClientManager.Default.{handle_default}
use adchubd.ClientManager.Sup.{handle_sup}
use adchubd.ClientManager.Inf.{handle_inf, is_set_at}
use adchubd.ClientManager.Tcp.{handle_tcp}
use adchubd.ClientManager.Hbri.{Env, ◌>>=◌}

-- The codes that go to `handleDefault`.
abbrev pub default_codes : List ℕ
default_codes =
    cmd_sta ∷ cmd_msg ∷ cmd_sch ∷ cmd_res ∷ cmd_ctm ∷ cmd_rcm ∷ cmd_gpa ∷ cmd_pas ∷ cmd_qui
    ∷ cmd_get ∷ cmd_gfi ∷ cmd_snd ∷ cmd_sid ∷ cmd_cmd ∷ cmd_nat ∷ cmd_rnt ∷ []

-- The types that the hub takes from a client.
abbrev pub is_routable : ℕ → Bool
is_routable t = t == b'B' || t == b'D' || t == b'E' || t == b'F' || t == b'H'

unfoldable pub with_command : AdcCommand → ClientManager × Bool → ClientManager × AdcCommand × Bool
with_command cmd r = (r.0, cmd, r.1)

module _ (x : Externals) where
  unfoldable pub dispatch :
      Env → ℕ → AdcCommand → ClientManager → Option (ClientManager × AdcCommand × Bool)
  dispatch env a cmd m =
      if cmd.cmd_int == cmd_sup
      then some (with_command cmd (handle_sup a cmd m))
      else if cmd.cmd_int == cmd_inf
      then handle_inf x env a cmd m
      else if cmd.cmd_int == cmd_tcp
      then handle_tcp x env a cmd m
      else if contains cmd.cmd_int default_codes
      then some (with_command cmd (handle_default a cmd m))
      else some (m, cmd, true)

  module _ {ℓ} {P : Type ℓ}
      (signal_receive : ℕ → AdcCommand → ClientManager → P → P × AdcCommand × Bool)
      (signal_send : ℕ → AdcCommand → ClientManager → P → P × Bool) where
    -- What `onReceive` does with the answer of `dispatch`.
    unfoldable pub route : P → ClientManager × AdcCommand × Bool → ClientManager × P
    route p r = if r.2 then send signal_send r.1 (r.0, p) else (r.0, p)

    unfoldable pub on_receive :
        Env → ℕ → AdcCommand → ClientManager × P → Option (ClientManager × P)
    on_receive env a cmd s =
        if is_set_at s.0 a flag_ghost
        then some s
        else if not (is_routable cmd.type)
        then some (disconnect a reason_invalid_command_type (codes "Invalid command type") s.0, s.1)
        else (let answer = signal_receive a cmd s.0 s.1 in
            if answer.2
            then (do r ← dispatch env a answer.1 s.0; some (route answer.0 r))
            else some (route answer.0 (s.0, answer.1, true)))
