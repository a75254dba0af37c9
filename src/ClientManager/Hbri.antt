-- ===== src/ClientManager/Hbri.antt =====
-- adchpp/ClientManager.cpp: `sendHBRI`, which asks a client to show that it has an address of the
-- other protocol, and `stripProtocolSupports`; `getHbriParams` of adchpp/ManagedSocket.cpp.
use adchubd.Base.{ℕ, Bool, true, false, Option, none, some, if◌then◌else◌, is_empty, codes}
use adchubd.Base.Dict.{find, insert, nat_eq, bytes_eq}
use adchubd.AdcCommand.{AdcCommand, new_command, add_named, hub_sid, to_four_cc}
use adchubd.AdcCommand.Codes.{cmd_tcp}
use adchubd.AdcCommand.Print.{to_string}
use adchubd.Entity.{Entity, State}
use adchubd.Entity.Flags.{set_flag, flag_validate_hbri}
use adchubd.Entity.Supports.{has_support, Outcome, done, fault, remove_client_support}
use adchubd.StrUtil
use adchubd.ClientManager.{ClientManager, Socket, deref}
use adchubd.ClientManager.Routing.{write}
use adchubd.ClientManager.Removal.{put, is_normal}

-- What the clock and the random numbers give while an event is handled.
pub record Env : Type 0 where
  pub now : ℕ
  pub random : ℕ

abbrev pub hbri : ℕ
hbri = to_four_cc (codes "HBRI")

unfoldable pub hbri_params : Socket → AdcCommand → Option AdcCommand
hbri_params s cmd =
    if is_empty s.other_address
    then none
    else if s.v6
    then some (add_named (add_named cmd (codes "I4") s.other_address) (codes "P4") s.port)
    else some (add_named (add_named cmd (codes "I6") s.other_address) (codes "P6") s.port)

-- `c.setFlag`, and `c.setState` outside of NORMAL; neither tells the plugins.
unfoldable pub await : Entity → Entity
await e =
    let e' = set_flag e flag_validate_hbri in
    if is_normal e'.state then e' else record e' { state = State.hbri }

-- The token, and the request with it.
unfoldable pub ask : Env → ℕ → Entity → AdcCommand → ClientManager → ClientManager
ask env a e cmd m =
    let token = StrUtil.to_string env.random in
    write (record (put a (await e) m) { hbri_tokens = insert token (a, env.now) m.hbri_tokens }) a
      (to_string (add_named cmd (codes "TO") token))

unfoldable pub send_hbri : Env → ℕ → ClientManager → ClientManager × Bool
send_hbri env a m = elim (deref m a) [
  | none ↦ (m, false)
  | some e ↦ elim (find a m.sockets) [
    | none ↦ (m, false)
    | some s ↦
        if has_support e hbri
        then elim (hbri_params s (new_command cmd_tcp b'I' hub_sid)) [
          | none ↦ (m, false)
          | some cmd ↦ (ask env a e cmd m, true)
        ]
        else (m, false)
  ]
]

-- A step that may throw: out of a `noexcept` function, which ends the process.
infixl 5 ◌>>=◌
abbrev pub ◌>>=◌ {ℓ κ} : {A : Type ℓ} {B : Type κ} → Option A → (A → Option B) → Option B
none >>= f = none
some a >>= f = f a

unfoldable pub removed : Outcome → Option Entity
removed (done e b) = some e
removed fault = none

unfoldable pub strip_supports : Bool → Entity → Option Entity
strip_supports v6 e = do
  e' ← removed (remove_client_support e (to_four_cc (if v6 then codes "TCP4" else codes "TCP6")))
  removed (remove_client_support e' (to_four_cc (if v6 then codes "UDP4" else codes "UDP6")))

unfoldable pub is_v6 : ClientManager → ℕ → Bool
is_v6 m a = elim (find a m.sockets) [ none ↦ false | some s ↦ s.v6 ]

unfoldable pub strip_protocol_supports : ℕ → ClientManager → Option ClientManager
strip_protocol_supports a m = elim (deref m a) [
  | none ↦ some m
  | some e ↦ do e' ← strip_supports (is_v6 m a) e; some (put a e' m)
]
