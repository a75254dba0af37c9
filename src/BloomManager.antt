-- ===== src/BloomManager.antt =====
-- adchpp/BloomManager.cpp: the plugin that asks clients for a filter over the files they share, and
-- stops the searches for files that they do not have.
pub mod Received
use adchubd.Base.{
  ℕ, ◌+◌, ◌/◌, ◌^◌, Bool, true, false, not, ◌&&◌, ◌||◌, List, [], ◌∷◌, ◌++◌, Option, none, some,
  Bytes, ltb, ◌==◌, same, if◌then◌else◌, length, codes,
}
use adchubd.StrUtil.{to_string, to_int, extended, string_to_int}
use adchubd.AdcCommand.{
  AdcCommand, new_command, add_param, add_named, param_at, status, sev_fatal,
  error_protocol_generic, hub_sid, to_four_cc, to_sid,
}
use adchubd.AdcCommand.Codes.{cmd_get, cmd_snd, cmd_sch, error_bad_state}
use adchubd.AdcCommand.Params.{get_param}
use adchubd.Base32.{from_base32}
use adchubd.Reason.{reason_bad_state, reason_plugin}
use adchubd.Entity.{Entity, Kind}
use adchubd.Entity.Fields.{get_field}
use adchubd.Entity.Info.{cmd_inf}
use adchubd.Entity.Supports.{has_support}
use adchubd.Entity.Plugins.{get_plugin_data, set_plugin_data, clear_plugin_data}
use adchubd.HashBloom.{HashBloom, new_bloom, get_k, get_m, matches, reset, size}

-- The 24 bits of each hash.
abbrev pub h : ℕ
h = 24

-- A filter that a client has been asked for: what has arrived of it, its bits and its hashes.
pub record PendingItem : Type 0 where
  pub buffer : Bytes
  pub m : ℕ
  pub k : ℕ

-- What the plugin does with a client, which is named by its address.
pub data Reply : Type 0 where
  sent : ℕ → AdcCommand → Reply
  disconnected : ℕ → ℕ → Reply
  data_mode : ℕ → ℕ → Reply
  bloom_ready : ℕ → Reply

-- `replies` is a log, the newest first.
pub record BloomManager : Type 0 where
  pub blooms : List (ℕ × HashBloom)
  pub pending : List (ℕ × PendingItem)
  pub searches : ℕ
  pub tth_searches : ℕ
  pub stopped : ℕ
  pub replies : List Reply

abbrev pub is_some {ℓ} : {A : Type ℓ} → Option A → Bool
is_some none = false
is_some (some a) = true

abbrev pub reply : Reply → BloomManager → BloomManager
reply r b = record b { replies = r ∷ b.replies }

abbrev pub is_client : Kind → Bool
is_client Kind.client = true
is_client kind = false

unfoldable pub has_bloom : ℕ → BloomManager → Bool
has_bloom a b = is_some (get_plugin_data a b.blooms)

-- `TTHValue(base32)`
abbrev pub tth_value : Bytes → Bytes
tth_value s = from_base32 s 24

unfoldable pub has_tth : ℕ → Bytes → BloomManager → Bool
has_tth a tth b = elim (get_plugin_data a b.blooms) [ none ↦ true | some f ↦ matches tth f ]

abbrev pub feature : ℕ
feature = to_four_cc (codes "BLO0")

-- The command that asks for a filter.
unfoldable pub get_blom : ℕ → ℕ → AdcCommand
get_blom m k =
    let get = add_param (add_param (new_command cmd_get b'I' hub_sid) (codes "blom")) (codes "/") in
    let sized = add_param (add_param get (codes "0")) (to_string (m / 8)) in
    add_named (add_named sized (codes "BK") (to_string k)) (codes "BH") (to_string h)

-- `optimal` is the formula of the filter's size in floating point. `can_reserve` tells whether there
-- is memory for a buffer; without it an exception ends the process, which is `none`.
module _ (optimal : ℕ → ℕ → ℕ) (can_reserve : ℕ → Bool) where
  -- An INF with a number of shared files: the client `a` is asked for a filter.
  unfoldable pub on_share : ℕ → Bytes → BloomManager → Option BloomManager
  on_share a sf b =
      let n = extended (to_int sf) in
      let k = get_k optimal n h in
      let m = get_m optimal n k in
      if is_some (get_plugin_data a b.pending)
      then some b
      else if n == 0
      then some b
      else if can_reserve (m / 8)
      then some (
          reply (sent a (get_blom m k)) (record b {
            blooms = clear_plugin_data a b.blooms;
            pending = set_plugin_data a (record { buffer = []; m = m; k = k }) b.pending;
          }))
      else none

  abbrev pub on_inf : ℕ → Option Bytes → BloomManager → Option BloomManager
  on_inf a none b = some b
  on_inf a (some sf) b = on_share a sf b

  -- A SND of a filter. The Boolean is whether the command may pass.
  unfoldable pub on_blom : ℕ → AdcCommand → BloomManager → BloomManager × Bool
  on_blom a cmd b = elim (get_plugin_data a b.pending) [
    | none ↦ (
      reply (disconnected a reason_bad_state) (
          reply (sent a (status sev_fatal error_bad_state (codes "Unexpected bloom filter update")))
            b),
      false,
    )
    | some p ↦
        let bytes = extended (to_int (param_at cmd 3)) in
        if not (bytes == p.m / 8)
        then (
          record (reply (disconnected a reason_plugin) (
              reply
                (sent a (status sev_fatal error_protocol_generic (codes "Invalid number of bytes")))
                b)) { pending = clear_plugin_data a b.pending },
          false,
        )
        else (reply (data_mode a bytes) b, false)
  ]

  unfoldable pub on_snd : ℕ → AdcCommand → Bool → BloomManager → BloomManager × Bool
  on_snd a cmd ok b =
      if ltb (length cmd.parameters) 4
      then (b, ok)
      else if not (same (param_at cmd 0) (codes "blom"))
      then (b, ok)
      else on_blom a cmd b

  abbrev pub passing : Bool → Option BloomManager → Option (BloomManager × Bool)
  passing ok none = none
  passing ok (some b) = some (b, ok)

  unfoldable pub on_receive :
      Entity → ℕ → AdcCommand → Bool → BloomManager → Option (BloomManager × Bool)
  on_receive e a cmd ok b =
      if not (is_client e.kind)
      then some (b, ok)
      else if cmd.cmd_int == cmd_inf && has_support e feature
      then passing ok (on_inf a (get_param cmd (codes "SF") 0) b)
      else if cmd.cmd_int == cmd_snd
      then some (on_snd a cmd ok b)
      else some (b, ok)

-- A search for a hash: stopped if the client does not have the file, or shares nothing.
unfoldable pub on_search : Entity → ℕ → Bytes → BloomManager → BloomManager × Bool
on_search e a tr b =
    let counted = record b { tth_searches = b.tth_searches + 1 } in
    if not (has_tth a (tth_value tr) b) || to_int (get_field e (codes "SF")) == 0
    then (record counted { stopped = b.stopped + 1 }, false)
    else (counted, true)

abbrev pub on_sch : Entity → ℕ → Option Bytes → BloomManager → BloomManager × Bool
on_sch e a none b = (b, true)
on_sch e a (some tth) b = on_search e a tth b

unfoldable pub on_send : Entity → ℕ → AdcCommand → Bool → BloomManager → BloomManager × Bool
on_send e a cmd ok b =
    if not ok
    then (b, ok)
    else if cmd.cmd_int == cmd_sch
    then on_sch e a (get_param cmd (codes "TR") 0) (record b { searches = b.searches + 1 })
    else (b, ok)

-- Data has arrived for a pending filter, which is complete with all its bytes.
unfoldable pub on_pending : ℕ → PendingItem → Bytes → BloomManager → BloomManager
on_pending a p s b =
    let buffer = p.buffer ++ s in
    if length buffer == p.m / 8
    then reply (bloom_ready a) (record b {
      blooms = set_plugin_data a (reset buffer p.k h) b.blooms;
      pending = clear_plugin_data a b.pending;
    })
    else record b { pending = set_plugin_data a (record p { buffer = buffer }) b.pending }

unfoldable pub on_data : ℕ → Bytes → BloomManager → BloomManager
on_data a s b = elim (get_plugin_data a b.pending) [ none ↦ b | some p ↦ on_pending a p s b ]

-- `getBytes`: how many of the entities have a filter, and the bits of them all.
unfoldable pub get_bytes : List ℕ → BloomManager → ℕ × ℕ
get_bytes [] b = (0, 0)
get_bytes (a ∷ entities) b =
    let (n, total) = get_bytes entities b in
    elim (get_plugin_data a b.blooms) [ none ↦ (n, total) | some f ↦ (n + 1, total + size f) ]

-- The constructor.
abbrev pub new_bloom_manager : BloomManager
new_bloom_manager = record {
  blooms = [];
  pending = [];
  searches = 0;
  tth_searches = 0;
  stopped = 0;
  replies = [];
}
