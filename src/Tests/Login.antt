-- ===== src/Tests/Login.antt =====
-- adchpp/ClientManager.cpp: a login at concrete inputs.
use adchubd.Base.{
  subst, Bool-cases, inl, inr, ◌==◌, ◌↔◌, ℕ, ◌≡◌, ◌≢◌, refl, Bool, true, false, [], ◌∷◌, ◌++◌,
  Option, none, some, Bytes, codes, arith, same, is_empty,
}
use adchubd.Base.Dict.{find, insert, erase, nat_eq}
use mathlib.Core.Option.{some-injective}
use adchubd.Entity.Fields.Laws.{IsOrdered}
use adchubd.ClientManager.Inf.{is_client_at, update_at}
use adchubd.ClientManager.Tcp.{
  by_token, validate, validated, kept_params, is_kept, close_at, tell, publish,
}
use adchubd.ClientManager.Address.{
  verify_ip, validate_ip, check_secondary, has_secondary, is_private_ip, remote_address, settle,
}
use adchubd.ClientManager.Login.{drop_flag}
use adchubd.Entity.Flags.{unset_flag, unset_bits}
use adchubd.Entity.Fields.{
  update_fields, update_loop, update_field, set_field, lookup, assign, remove, get_field,
}
use adchubd.ClientManager.Leaving.{close}
use adchubd.ClientManager.Routing.{send_to_all, send_all_loop}
use adchubd.Cid
use adchubd.Base32.{
  to_base32, encode_loop, crossing, within, from_base32, decode_loop, base32_value, zeros,
}
use adchubd.AdcCommand.{to_field, AdcCommand, new_command, add_param, to_sid}
use adchubd.AdcCommand.Params.{get_param, find_param, del_param, erase_param}
use adchubd.Entity.{Entity, Kind, State}
use adchubd.Entity.Info.{cmd_inf, cmd_sup}
use adchubd.ClientManager.{ClientManager, Socket, deref}
use adchubd.ClientManager.Tcp.{handle_tcp}
use adchubd.ClientManager.Tcp.Second.{AreOrdered, Leaves, handle_tcp-Leaves}
use adchubd.ClientManager.Address.{check_primary, parse_param_ip}
use adchubd.ClientManager.Address.Own.{Names, check_primary-Names}
use adchubd.ClientManager.Externals.{Externals, ipv4}
use adchubd.ClientManager.Hbri.{Env, is_v6}
use adchubd.ClientManager.Leaving.{at_state}
use adchubd.ClientManager.Identity.{verify_cid, check_cid, check_pid}
use adchubd.ClientManager.Identity.Proven.{Proven, verify_cid-Proven}
use adchubd.ClientManager.Timer.{Timeouts, expire_tokens, on_timer_second}
use adchubd.ClientManager.Timer.Expired.{IsIn, on_timer_second-old}
use adchubd.ClientManager.Arrival.{new_manager, new_entity, handle_incoming}
use adchubd.ClientManager.Inf.{check_inf, is_set_at}
use adchubd.Entity.Flags.{is_set_in}
use adchubd.ClientManager.Removal.{is_client}
use adchubd.ClientManager.Password.{verify_password, verify_password-to_base32}
use adchubd.ClientManager.Receive.{on_receive, dispatch}
use adchubd.ClientManager.Invariant.{Inv, nick_of}
use adchubd.ClientManager.Invariant.Names.{LiveClient}
use adchubd.ClientManager.Invariant.Checking.{Checks, check_inf-Checks}
use adchubd.ClientManager.Invariant.Steps.{
  comes, sends, Reach, starts, then_step, Reach-Inv, Reach-unique,
}
use adchubd.ClientManager.Login.{send_inf, send_sup, send_sid, enter_identify}
use adchubd.ClientManager.Receive.{with_command, route}
use adchubd.ClientManager.Removal.{set_state}
use adchubd.ClientManager.Routing.{send}
use adchubd.ClientManager.Sup.{check_supports, verify_sup, handle_sup}
use adchubd.Entity.Supports.{
  contains, add_supports, update_support, update_supports_loop, update_supports,
}

-- A hash that changes nothing, and addresses that are all the same.
abbrev outside : Externals
outside = record {
  tiger = λ p. p;
  is_print = λ c. true;
  wide = λ s. s;
  address = λ s. some (ipv4 1);
  address_v4 = λ s. some 1;
  address_v6 = λ s. none;
  text_v4 = λ n. codes "10.0.0.1";
  text_v6 = λ n. codes "fe80::1";
  to_v4 = λ n. n;
  inet_addr = λ s. none;
}

abbrev plug : Socket
plug = record {
  ip = codes "10.0.0.1";
  v6 = false;
  other_address = [];
  port = [];
  overflowing = false;
}

abbrev letters : Bytes
letters = codes "BAAAAAAAAAAAAAAAAAAAAAAAAAAAAAAAAAAAAAA"

abbrev inf_line : AdcCommand
inf_line =
    add_param
      (add_param
        (add_param (new_command cmd_inf b'B' (to_sid (codes "AAAB"))) (codes "ID" ++ letters))
        (codes "PD" ++ letters))
      (codes "NIme")

abbrev waiting : State → Entity
waiting state = record (new_entity Kind.client (to_sid (codes "AAAB"))) { state = state }

abbrev hall : State → ClientManager
hall state = record (new_manager [] []) { heap = (1, waiting state) ∷ []; logins = (1, 5) ∷ [] }

verify_cid-Proven_example : Proven outside inf_line (Cid.from_text letters)
unfolding verify_cid check_cid check_pid at_state find get_param find_param Cid.from_text add_param
    same from_base32 decode_loop base32_value zeros
verify_cid-Proven_example =
    verify_cid-Proven outside 1 inf_line (hall State.identify) (Cid.from_text letters) refl refl

abbrev timeouts : Timeouts
timeouts = record { login = 30; hbri = 5 }

abbrev full : ClientManager
full = record (hall State.identify) { logins = (1, 5) ∷ (2, 40) ∷ [] }

on_timer_second-old_example :
    (r : ClientManager) × (on_timer_second (record { now = 50; random = 0 }) timeouts full ≡ some r)
    × (r.logins ≡ (2, 40) ∷ [])
    × ((a : ℕ) (e : Entity)
        → IsIn a ((1, 5) ∷ [])
        → deref full a ≡ some e
        → is_client e.kind ≡ true
        → find a r.closing ≢ none)
unfolding expire_tokens new_manager
on_timer_second-old_example =
    on_timer_second-old (record { now = 50; random = 0 }) timeouts ((1, 5) ∷ []) ((2, 40) ∷ []) full
      full refl refl (omega arith, tt) (omega arith)

check_inf-Checks_example :
    Checks outside 1 inf_line
      (hall State.identify)
      (check_inf outside 1 inf_line (hall State.identify))
check_inf-Checks_example = check_inf-Checks outside 1 inf_line (hall State.identify)

-- Plugins that let everything pass.
abbrev hearing : ℕ → AdcCommand → ClientManager → ℕ → ℕ × AdcCommand × Bool
hearing a cmd m p = (p, cmd, true)

abbrev speaking : ℕ → AdcCommand → ClientManager → ℕ → ℕ × Bool
speaking a cmd m p = (p, true)

abbrev clock : Env
clock = record { now = 7; random = 9 }

abbrev sup_line : AdcCommand
sup_line =
    add_param (add_param (new_command cmd_sup b'H' (to_sid (codes "AAAB"))) (codes "ADBASE"))
      (codes "ADTIGR")

abbrev first : ClientManager
first = handle_incoming 1 plug (to_sid (codes "AAAB")) (new_manager [] [])

abbrev or_first : Option (ClientManager × ℕ) → ClientManager × ℕ
or_first none = (first, 0)
or_first (some s) = s

abbrev second : ClientManager × ℕ
second = or_first (on_receive outside hearing speaking clock 1 sup_line (first, 0))

first_reached : Reach outside hearing speaking [] [] 0 (first, 0)
unfolding find new_manager
first_reached =
    then_step (new_manager [] [], 0) (first, 0) starts
      (comes 1 plug (to_sid (codes "AAAB")) (new_manager [] []) 0 refl)

second_reached : Reach outside hearing speaking [] [] 0 second
unfolding find handle_incoming insert erase new_manager is_set_in add_param on_receive is_set_at
    dispatch
second_reached =
    then_step (first, 0) second first_reached
      (sends clock 1 sup_line (first, 0) second (new_entity Kind.client (to_sid (codes "AAAB")))
        (refl, refl, refl) refl (refl, λ h. absurd (cc)) refl)

abbrev entity_at : ClientManager → ℕ → Entity
entity_at m a = elim (deref m a) [ none ↦ waiting State.hbri | some e ↦ e ]

abbrev both : ClientManager × ℕ
both = (handle_incoming 2 plug (to_sid (codes "AAAC")) second.0, second.1)

-- The first client is in IDENTIFY when the second one comes.
second_run : ((entity_at second.0 1).state ≡ State.identify) × (find 2 second.0.heap ≡ none)
unfolding new_manager handle_incoming with_command dispatch route on_receive check_supports
    verify_sup handle_sup send_inf send_sup send_sid enter_identify at_state set_state send
    is_set_at contains add_supports update_support update_supports_loop update_supports is_set_in
    add_param find insert erase to_sid
second_run = (refl, refl)

both_live : LiveClient both.0 1 (entity_at both.0 1) × LiveClient both.0 2 (entity_at both.0 2)
unfolding new_manager handle_incoming with_command dispatch route on_receive check_supports
    verify_sup handle_sup send_inf send_sup send_sid enter_identify at_state set_state send
    is_set_at contains add_supports update_support update_supports_loop update_supports is_set_in
    add_param find insert erase to_sid
both_live = ((refl, refl, refl), (refl, refl, refl))

both_reached : Reach outside hearing speaking [] [] 0 both
both_reached =
    then_step second both second_reached
      (comes 2 plug (to_sid (codes "AAAC")) second.0 second.1 (second_run.1))

Reach-Inv_example : Inv none both.0
Reach-Inv_example = Reach-Inv outside hearing speaking [] [] 0 both both_reached

Reach-unique_example :
    (nick_of (entity_at both.0 1) ≡ nick_of (entity_at both.0 2)
      → nick_of (entity_at both.0 1) ≢ []
      → ◌≡◌ {A = ℕ} 1 2)
    × ((entity_at both.0 1).cid ≡ (entity_at both.0 2).cid
        → (entity_at both.0 1).cid ≢ Cid.empty
        → ◌≡◌ {A = ℕ} 1 2)
Reach-unique_example =
    Reach-unique outside hearing speaking [] [] 0 both 1 2 (entity_at both.0 1) (entity_at both.0 2)
      both_reached (both_live.0) (both_live.1)

abbrev second_line : AdcCommand
second_line =
    add_param (add_param (new_command cmd_inf b'H' (to_sid (codes "AAAB"))) (codes "NIelse"))
      (codes "I410.0.0.1")

abbrev named : Entity
named = record (waiting State.normal) { fields = (to_field (codes "NI"), codes "me") ∷ [] }

-- The second connection, with the token of the first client.
abbrev validating : ClientManager
validating = record (hall State.identify) {
  heap = (1, named) ∷ (2, waiting State.protocol) ∷ [];
  sockets = (1, record plug { v6 = true }) ∷ (2, plug) ∷ [];
  hbri_tokens = (codes "7", (1, 5)) ∷ [];
}

validating-AreOrdered : AreOrdered validating
unfolding find
validating-AreOrdered b e at = elim (Bool-cases (1 == b)) [
  | inl t ↦ subst (λ (f : Entity). IsOrdered f.fields) (some-injective _ _ (rw t at at)) tt
  | inr t ↦ elim (Bool-cases (2 == b)) [
    | inl u ↦ subst (λ (f : Entity). IsOrdered f.fields) (some-injective _ _ (rw (t, u) at at)) tt
    | inr u ↦ let none_there = rw (t, u) at at in absurd (cc)
  ]
]

handle_tcp-Leaves_example :
    Leaves
      (to_field (codes "NI"))
      validating
      (handle_tcp outside clock 2 (add_param second_line (codes "TO7")) validating)
unfolding is_v6 find
handle_tcp-Leaves_example =
    handle_tcp-Leaves outside clock 2 (add_param second_line (codes "TO7")) validating (codes "NI")
      validating-AreOrdered (refl, refl, refl)

-- It is accepted, with the address and without the nick.
abbrev kept_of : Option (ClientManager × AdcCommand × Bool) → Bytes × Bytes
kept_of none = ([], [])
kept_of (some r) =
    (get_field (entity_at r.0 1) (codes "NI"), get_field (entity_at r.0 1) (codes "I4"))

handle_tcp_run :
    kept_of (handle_tcp outside clock 2 (add_param second_line (codes "TO7")) validating)
    ≡ (codes "me", codes "10.0.0.1")
unfolding handle_tcp is_client_at by_token validate validated verify_ip validate_ip check_primary
    check_secondary has_secondary is_private_ip remote_address settle parse_param_ip get_param
    find_param add_param del_param erase_param drop_flag unset_flag unset_bits at_state is_v6 find
    insert erase kept_params is_kept update_at update_fields update_loop update_field set_field
    lookup assign remove close_at close tell publish send_to_all send_all_loop get_field is_set_in
    same is_empty new_manager
handle_tcp_run = refl

-- An INF with the address of the connection.
abbrev address_line : AdcCommand
address_line = add_param inf_line (codes "I410.0.0.1")

check_primary-Names_example : Names outside false 1 address_line
unfolding check_primary parse_param_ip get_param find_param del_param erase_param add_param is_empty
check_primary-Names_example =
    check_primary-Names outside false 1 refl address_line address_line refl refl

-- The hash of a password and a salt of 24 bytes together is their text.
abbrev password : Bytes
password = codes "secret"

abbrev salt : Bytes
salt = codes "abcdefghijklmnopqr"

verify_password-to_base32_example :
    (verify_password outside password salt (to_base32 (password ++ salt)) ≡ true)
    ↔ (outside.tiger (password ++ salt) ≡ password ++ salt)
verify_password-to_base32_example =
    verify_password-to_base32 outside password salt (password ++ salt) refl (omega arith)

-- It is accepted; what follows a zero byte is not read.
verify_password_run :
    (verify_password outside password salt (to_base32 (password ++ salt)) ≡ true)
    × (verify_password outside password salt (to_base32 (codes "secret") ++ 0 ∷ codes "AA") ≡ false)
unfolding verify_password same to_base32 encode_loop crossing within from_base32 decode_loop
    base32_value zeros
verify_password_run = (refl, refl)
