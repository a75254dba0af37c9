-- ===== src/ClientManager/Identity.antt =====
-- adchpp/ClientManager.cpp: `verifyCID`, `verifyNick` and `verifyOverflow`; `validateCharset` of
-- adchpp/Utils.cpp.
pub mod Proven
use adchubd.Base.{
  ℕ, zero, suc, ◌+◌, ◌/◌, ◌<◌, Bool, true, false, not, ◌&&◌, List, [], ◌∷◌, Option, none, some,
  Bytes, ◌==◌, same, ltb, leb, if◌then◌else◌, length, codes,
}
use adchubd.Base.Dict.{find, nat_eq, bytes_eq}
use adchubd.AdcCommand.{AdcCommand}
use adchubd.AdcCommand.Codes.{
  error_inf_missing, error_invalid_pid, error_nick_invalid, error_nick_taken, error_hub_full,
}
use adchubd.AdcCommand.Params.{get_param}
use adchubd.Cid
use adchubd.Entity.{Entity}
use adchubd.Entity.Fields.{get_field}
use adchubd.Reason.{
  reason_cid_change, reason_pid_cid_length, reason_pid_missing, reason_pid_cid_mismatch,
  reason_pid_without_cid, reason_nick_invalid, reason_nick_taken, reason_no_bandwidth,
}
use adchubd.ClientManager.{ClientManager, Socket, deref}
use adchubd.ClientManager.Externals.{Externals}
use adchubd.ClientManager.Leaving.{
  disconnect, disconnect_error, disconnect_for, at_state, is_identify,
}

-- No byte below `p`.
unfoldable pub validate_charset : Bytes → ℕ → Bool
validate_charset [] p = true
validate_charset (c ∷ s) p = if ltb c p then false else validate_charset s p

-- An entity that sends a CID, and that has one to send.
abbrev pub refuse : ℕ → ℕ → Bytes → ClientManager → ClientManager × Option Bytes
refuse a reason info m = (disconnect a reason info m, none)

-- The number of entities whose sockets overflow.
unfoldable pub overflowing : ClientManager → List (ℕ × ℕ) → ℕ
overflowing m [] = 0
overflowing m ((sid, a) ∷ es) =
    let n = overflowing m es in
    elim (find a m.sockets) [ none ↦ n | some s ↦ if s.overflowing then suc n else n ]

unfoldable pub verify_overflow : ℕ → ClientManager → ClientManager × Bool
verify_overflow a m =
    let n = overflowing m m.entities in
    if ltb 3 n && ltb (length m.entities / 4) n
    then (
      disconnect_for a reason_no_bandwidth
          (codes "Not enough bandwidth available, please try again later") error_hub_full [] false
          m,
      false,
    )
    else (m, true)

unfoldable pub is_taken : Bytes → ClientManager → Bool
is_taken nick m = elim (find nick m.nicks) [ none ↦ false | some b ↦ true ]

unfoldable pub nick_at : ClientManager → ℕ → Bytes
nick_at m a = elim (deref m a) [ none ↦ [] | some e ↦ get_field e (codes "NI") ]

module _ (x : Externals) where
  -- What `verifyCID` does with the CID and the PID in a command: it returns the CID, which is empty
  -- where the command has none, or refuses.
  unfoldable pub check_pid : ℕ → Bytes → Bytes → ClientManager → ClientManager × Option Bytes
  check_pid a cid_str pid_str m =
      if not (length pid_str == Cid.base32_size)
      then refuse a reason_pid_cid_length (codes "Invalid PID length") m
      else if not (same (x.tiger (Cid.from_text pid_str)) (Cid.from_text cid_str))
      then (
        disconnect_error a reason_pid_cid_mismatch (codes "PID does not correspond to CID")
            error_invalid_pid [] m,
        none,
      )
      else (m, some (Cid.from_text cid_str))

  unfoldable pub check_cid : ℕ → Bytes → Option Bytes → ClientManager → ClientManager × Option Bytes
  check_cid a cid_str pid m =
      if not (at_state is_identify m a)
      then refuse a reason_cid_change (codes "CID changes not allowed") m
      else if not (length cid_str == Cid.base32_size)
      then refuse a reason_pid_cid_length (codes "Invalid CID length") m
      else elim pid [
        | none ↦ (
          disconnect_error a reason_pid_missing (codes "PID missing") error_inf_missing
              (codes "FLPD") m,
          none,
        )
        | some pid_str ↦ check_pid a cid_str pid_str m
      ]

  unfoldable pub verify_cid : ℕ → AdcCommand → ClientManager → ClientManager × Option Bytes
  verify_cid a cmd m = elim (get_param cmd (codes "ID") 0) [
    | some cid_str ↦ check_cid a cid_str (get_param cmd (codes "PD") 0) m
    | none ↦
        if at_state is_identify m a
        then refuse a reason_pid_missing (codes "CID must be supplied") m
        else elim (get_param cmd (codes "PD") 0) [
          | some pid_str ↦ refuse a reason_pid_without_cid (codes "CID required when sending PID") m
          | none ↦ (m, some Cid.empty)
        ]
  ]

  unfoldable pub is_bad_nick_char : ℕ → Bool
  is_bad_nick_char c =
      if leb 0x2100 c && leb c 0x214F then false else if c == 0xAD then true else not (x.is_print c)

  unfoldable pub no_bad_char : List ℕ → Bool
  no_bad_char [] = true
  no_bad_char (c ∷ s) = if is_bad_nick_char c then false else no_bad_char s

  unfoldable pub validate_nick : Bytes → Bool
  validate_nick nick = if not (validate_charset nick 33) then false else no_bad_char (x.wide nick)

  unfoldable pub verify_nick : ℕ → Bytes → ClientManager → ClientManager × Bool
  verify_nick a nick m =
      if not (validate_nick nick)
      then (
        disconnect_error a reason_nick_invalid (codes "Invalid character in nick")
            error_nick_invalid [] m,
        false,
      )
      else if not (same (nick_at m a) nick) && is_taken nick m
      then (
        disconnect_error a reason_nick_taken (codes "Nick taken, please pick another one")
            error_nick_taken [] m,
        false,
      )
      else (m, true)
