-- ===== src/ClientManager/Address.antt =====
-- adchpp/ClientManager.cpp: `validateIP` and `verifyIp`, which compare the addresses in an INF with the
-- one of the connection; `isPrivateIp` of adchpp/Utils.cpp.
pub mod Own
use adchubd.Base.{
  ℕ, Bool, true, false, not, ◌&&◌, ◌||◌, ◌++◌, Option, none, some, Bytes, ◌==◌, same, if◌then◌else◌,
  codes, is_empty, take, bit_and,
}
use adchubd.Base.Dict.{find, nat_eq}
use adchubd.AdcCommand.{AdcCommand, add_named}
use adchubd.AdcCommand.Codes.{error_bad_ip}
use adchubd.AdcCommand.Params.{get_param, del_param}
use adchubd.Entity.Fields.{or_empty}
use adchubd.Entity.Flags.{is_set, flag_ok_ip}
use adchubd.Reason.{reason_invalid_ip}
use adchubd.ClientManager.{ClientManager, Socket, deref}
use adchubd.ClientManager.Externals.{Externals, ipv4, ipv6}
use adchubd.ClientManager.Leaving.{disconnect_error}

abbrev pub ip_param : Bool → Bytes
ip_param v6 = if v6 then codes "I6" else codes "I4"

abbrev pub udp_param : Bool → Bytes
udp_param v6 = if v6 then codes "U6" else codes "U4"

abbrev pub protocol_name : Bool → Bytes
protocol_name v6 = if v6 then codes "IPv6" else codes "IPv4"

-- A command, or the text of the error.
pub data Checked : Type 0 where
  passed : AdcCommand → Checked
  failed : Bytes → Checked

-- What `verifyIp` returns: the manager, the command, which it may change, and the two Booleans.
pub record Verified : Type 0 where
  pub manager : ClientManager
  pub command : AdcCommand
  pub is_ok : Bool
  pub secondary : Bool

-- The command as it came.
abbrev pub unchanged : AdcCommand → Bool → ClientManager → Verified
unchanged cmd is_ok m = record { manager = m; command = cmd; is_ok = is_ok; secondary = false }

-- `validateSecondary`
unfoldable pub has_secondary : Bool → AdcCommand → Bool
has_secondary v6 cmd = not (is_empty (or_empty (get_param cmd (ip_param (not v6)) 0)))

module _ (x : Externals) where
  unfoldable pub is_private_ip : Bytes → Bool → Bool
  is_private_ip ip true = same (take 4 ip) (codes "fe80")
  is_private_ip ip false = elim (x.inet_addr ip) [
    | none ↦ false
    | some a ↦
        bit_and a 0xFF000000 == 0x0A000000
        || bit_and a 0xFF000000 == 0x7F000000
        || bit_and a 0xFFF00000 == 0xAC100000
        || bit_and a 0xFFFF0000 == 0xC0A80000
  ]

  abbrev pub text_of : Bool → ℕ → Bytes
  text_of v6 remote = if v6 then x.text_v6 remote else x.text_v4 remote

  -- `parseParamIp`; the address that stands for none is 0.
  unfoldable pub parse_param_ip : Bool → Bytes → Option ℕ
  parse_param_ip v6 ip =
      if is_empty ip then some 0 else if v6 then x.address_v6 ip else x.address_v4 ip

  abbrev pub not_valid : Bytes → Bool → Bytes
  not_valid ip v6 =
      codes "The configured IP "
      ++ (ip ++ (codes " isn't a valid " ++ (protocol_name v6 ++ codes " address")))

  abbrev pub with_remote : Bool → ℕ → AdcCommand → AdcCommand
  with_remote v6 remote cmd = add_named cmd (ip_param v6) (text_of v6 remote)

  unfoldable pub check_primary : Bool → ℕ → Bool → AdcCommand → Checked
  check_primary v6 remote is_local cmd = elim (get_param cmd (ip_param v6) 0) [
    | none ↦ passed (with_remote v6 remote cmd)
    | some ip ↦ elim (parse_param_ip v6 ip) [
      | none ↦ failed (not_valid ip v6)
      | some given ↦
          if is_empty ip || given == 0
          then passed (with_remote v6 remote ((del_param cmd (ip_param v6) 0).0))
          else if not (given == remote) && not is_local
          then failed (
              codes "Your IP is "
              ++ (text_of v6 remote ++ codes ", reconfigure your client settings"))
          else passed cmd
    ]
  ]

  -- The part on the other protocol, whose address is taken out unless the client is a local one.
  unfoldable pub check_secondary : Bool → Bool → AdcCommand → Checked
  check_secondary v6 is_local cmd =
      let ip = or_empty (get_param cmd (ip_param (not v6)) 0) in
      elim (parse_param_ip (not v6) ip) [
        | none ↦ failed (not_valid ip (not v6))
        | some given ↦
            if not is_local || is_empty ip || given == 0
            then passed
                ((del_param ((del_param cmd (udp_param (not v6)) 0).0) (ip_param (not v6)) 0).0)
            else passed cmd
      ]

  -- `validateIP`
  unfoldable pub validate_ip : Bool → ℕ → AdcCommand → Checked × Bool
  validate_ip v6 remote cmd =
      let is_local = is_private_ip (text_of v6 remote) v6 in
      elim (check_primary v6 remote is_local cmd) [
        | failed error ↦ (failed error, false)
        | passed cmd' ↦ (check_secondary v6 is_local cmd', has_secondary v6 cmd')
      ]

  -- The address of the connection, on its protocol. `v6` of a socket says that `ip` is one of IPv6,
  -- and otherwise an IPv6 address is one that stands for an IPv4 address: else boost::asio throws.
  unfoldable pub remote_address : Socket → Option ℕ
  remote_address s = elim (x.address s.ip) [
    | none ↦ none
    | some (ipv4 n) ↦ some n
    | some (ipv6 n) ↦ some (if s.v6 then n else x.to_v4 n)
  ]

  unfoldable pub settle : ℕ → Socket → AdcCommand → Checked × Bool → ClientManager → Verified
  settle a s cmd (passed cmd', secondary) m = record {
    manager = m;
    command = cmd';
    is_ok = true;
    secondary = secondary;
  }
  settle a s cmd (failed error, secondary) m = record {
    manager = disconnect_error a reason_invalid_ip error error_bad_ip (codes "IP" ++ s.ip) m;
    command = cmd;
    is_ok = false;
    secondary = secondary;
  }

  unfoldable pub verify_ip : ℕ → AdcCommand → ClientManager → Verified
  verify_ip a cmd m = elim (deref m a) [
    | none ↦ unchanged cmd false m
    | some e ↦ if is_set e flag_ok_ip then unchanged cmd true m else elim (find a m.sockets) [
      | none ↦ unchanged cmd false m
      | some s ↦ elim (remote_address s) [
        | none ↦ unchanged cmd false m
        | some remote ↦ settle a s cmd (validate_ip s.v6 remote cmd) m
      ]
    ]
  ]
