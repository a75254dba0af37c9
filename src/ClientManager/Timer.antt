-- ===== src/ClientManager/Timer.antt =====
-- adchpp/ClientManager.cpp: `onTimerSecond`.
pub mod Expired
use adchubd.Base.{
  ℕ, ◌+◌, Bool, true, false, List, [], ◌∷◌, ◌++◌, Option, none, some, Bytes, ltb, if◌then◌else◌,
  codes,
}
use adchubd.Base.Dict.{find, erase, nat_eq, bytes_eq}
use adchubd.AdcCommand.{sev_recoverable}
use adchubd.AdcCommand.Codes.{error_hbri_timeout}
use adchubd.Reason.{reason_login_timeout}
use adchubd.ClientManager.{ClientManager}
use adchubd.ClientManager.Address.{protocol_name}
use adchubd.ClientManager.Hbri.{Env, is_v6, ◌>>=◌}
use adchubd.ClientManager.Login.{fail_hbri}
use adchubd.ClientManager.Tcp.{tell, close_at}
use adchubd.Base.{not}

-- `logTimeout` and `hbriTimeout`, in the unit of the clock.
pub record Timeouts : Type 0 where
  pub login : ℕ
  pub hbri : ℕ

-- The end of one validation that took too long.
unfoldable pub expire_token : Env → Bytes → ℕ → ClientManager → Option ClientManager
expire_token env token a m = fail_hbri env a (
    tell a sev_recoverable error_hbri_timeout
      (protocol_name (not (is_v6 m a)) ++ codes " validation timed out")
      (record m { hbri_tokens = erase token m.hbri_tokens }))

-- The loop over the tokens. One that was erased in the meantime is passed over; the source would go
-- on from an iterator that is no longer valid if it is the next one.
unfoldable pub expire_tokens :
    Env → ℕ → List (Bytes × (ℕ × ℕ)) → ClientManager → Option ClientManager
expire_tokens env timeout [] m = some m
expire_tokens env timeout ((token, (a, time)) ∷ tokens) m = elim (find token m.hbri_tokens) [
  | none ↦ expire_tokens env timeout tokens m
  | some t ↦ elim (ltb (time + timeout) env.now) [
    | true ↦ (do m' ← expire_token env token a m; expire_tokens env timeout tokens m')
    | false ↦ expire_tokens env timeout tokens m
  ]
]

-- The loop over the logins, from the oldest one on.
unfoldable pub expire_logins : Env → ℕ → List (ℕ × ℕ) → ClientManager → ClientManager
expire_logins env timeout [] m = record m { logins = [] }
expire_logins env timeout ((a, time) ∷ logins) m =
    let rest = expire_logins env timeout logins (close_at a reason_login_timeout m) in
    if ltb (time + timeout) env.now then rest else record m { logins = (a, time) ∷ logins }

unfoldable pub on_timer_second : Env → Timeouts → ClientManager → Option ClientManager
on_timer_second env t m = do
  m' ← expire_tokens env t.hbri m.hbri_tokens m
  some (expire_logins env t.login m'.logins m')
