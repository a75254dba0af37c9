-- ===== src/ClientManager/Routing.antt =====
-- adchpp/ClientManager.cpp: `send`, `maybeSend`, `sendToAll` and `sendTo`. `P` is the state of the
-- plugins, and `signal_send` what they answer; they do not change the manager here.
pub mod Delivered
pub mod Features
use adchubd.Base.{
  ℕ, ◌≡◌, refl, sym, ◌∙◌, ap, Bool, true, false, not, ◌&&◌, ◌||◌, List, [], ◌∷◌, ◌++◌, Option, none,
  some, Bytes, ◌==◌, if◌then◌else◌, arith, ◌⊎◌, inl, inr, ◌↔◌, Bool-cases, Option-cases,
  append_assoc, append-nil, map,
}
use adchubd.AdcCommand.{AdcCommand, Priority, normal, low, ignore}
use adchubd.AdcCommand.Print.{to_string}
use adchubd.Entity.Supports.{is_filtered}
use adchubd.ClientManager.{ClientManager, deref, get_entity}
use adchubd.Base.Dict.{find, nat_eq}

abbrev pub is_ignored : Priority → Bool
is_ignored normal = false
is_ignored low = false
is_ignored ignore = true

-- `Entity::send(buffer)`
abbrev pub write : ClientManager → ℕ → Bytes → ClientManager
write m a line = record m { sent = m.sent ++ (a, line) ∷ [] }

-- `i->second->isFiltered(features)`
unfoldable pub filtered_at : ClientManager → Bytes → ℕ → Bool
filtered_at m features a = elim (deref m a) [ none ↦ true | some e ↦ is_filtered e features ]

unfoldable pub send_all_loop : List (ℕ × ℕ) → Bytes → ClientManager → ClientManager
send_all_loop [] line m = m
send_all_loop ((sid, a) ∷ es) line m = send_all_loop es line (write m a line)

unfoldable pub send_to_all : Bytes → ClientManager → ClientManager
send_to_all line m = send_all_loop m.entities line m

unfoldable pub send_to : Bytes → ℕ → ClientManager → ClientManager
send_to line to m = elim (find to m.entities) [ none ↦ m | some a ↦ write m a line ]

module _ {ℓ} {P : Type ℓ} (signal_send : ℕ → AdcCommand → ClientManager → P → P × Bool) where
  unfoldable pub maybe_send : ℕ → AdcCommand → ClientManager × P → ClientManager × P
  maybe_send a cmd s =
      let answer = signal_send a cmd s.0 s.1 in
      if answer.1 then (write s.0 a (to_string cmd), answer.0) else (s.0, answer.0)

  -- The loop over the entities: all of them, or those that are not filtered.
  unfoldable pub send_loop :
      Bool → AdcCommand → List (ℕ × ℕ) → ClientManager × P → ClientManager × P
  send_loop all cmd [] s = s
  send_loop all cmd ((sid, a) ∷ es) s =
      send_loop all cmd es
        (if all || not (filtered_at (s.0) cmd.features a) then maybe_send a cmd s else s)

  unfoldable pub send_if : Option ℕ → AdcCommand → ClientManager × P → ClientManager × P
  send_if none cmd s = s
  send_if (some a) cmd s = maybe_send a cmd s

  unfoldable pub echo : AdcCommand → ClientManager × P → ClientManager × P
  echo cmd s = if cmd.type == b'E' then send_if (get_entity (s.0) cmd.from) cmd s else s

  unfoldable pub send : AdcCommand → ClientManager × P → ClientManager × P
  send cmd s =
      if is_ignored cmd.priority
      then s
      else if cmd.type == b'B'
      then send_loop true cmd s.0.entities s
      else if cmd.type == b'F'
      then send_loop false cmd s.0.entities s
      else if cmd.type == b'D' || cmd.type == b'E'
      then elim (get_entity (s.0) cmd.to) [ none ↦ s | some a ↦ echo cmd (maybe_send a cmd s) ]
      else s
