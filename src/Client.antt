-- ===== src/Client.antt =====
-- adchpp/Client.h and adchpp/Client.cpp: a connection, and how the data that arrives on it is cut
-- into lines. A byte count that runs below zero in the source stops at zero here: the code only asks
-- whether it is positive.
pub mod Bytewise
pub mod Passed
use adchubd.Base.{
  ℕ, zero, suc, ◌-◌, Bool, true, false, not, ◌&&◌, List, [], ◌∷◌, ◌++◌, Option, none, some, Bytes,
  ◌==◌, ltb, leb, if◌then◌else◌, length, take, drop, is_empty, codes,
}
use adchubd.AdcCommand.{AdcCommand, status, sev_fatal, error_protocol_generic}
use adchubd.Reason.{reason_invalid_sid, reason_max_command_size}
use adchubd.AdcCommand.Parse.{Result, ok, err, parse_buffer}

pub record Client : Type 0 where
  pub sid : ℕ
  pub disconnecting : Bool
  pub buffer : Option Bytes
  pub data_bytes : ℕ

-- What a client calls: the client manager, which may disconnect the client or set its data mode,
-- the handler of the data mode, and the socket. `W` is their state.
pub record Calls {ℓ} (W : Type ℓ) : Type ℓ where
  pub on_receive : AdcCommand → Client → W → Client × W
  pub on_bad_line : Bytes → Client → W → Client × W
  pub data_handler : Bytes → W → W
  pub write : AdcCommand → W → W
  pub socket_disconnect : ℕ → W → W
  pub max_command_size : W → ℕ

-- The bytes up to the first line feed, which is the last of them, and the bytes behind it.
unfoldable pub cut : Bytes → Option (Bytes × Bytes)
cut [] = none
cut (c ∷ s) =
    if c == b'\n'
    then some (c ∷ [], s)
    else elim (cut s) [ none ↦ none | some p ↦ some (c ∷ p.0, p.1) ]

abbrev pub kept : Option Bytes → Bytes
kept none = []
kept (some b) = b

-- `buffer->append`, or a new buffer.
abbrev pub append : Client → Bytes → Client
append c s = record c { buffer = some (kept c.buffer ++ s) }

unfoldable pub smaller : ℕ → ℕ → ℕ
smaller a b = if leb a b then a else b

module _ {ℓ} {W : Type ℓ} (m : Calls W) where
  unfoldable pub disconnect : ℕ → Client → W → Client × W
  disconnect reason c w =
      if c.disconnecting
      then (c, w)
      else (record c { disconnecting = true }, m.socket_disconnect reason w)

  abbrev pub reset : Client × W → Client × W
  reset s = (record (s.0) { buffer = none }, s.1)

  -- A command that `parse` returned.
  unfoldable pub receive : AdcCommand → Client → W → Client × W
  receive cmd c w =
      if cmd.type == b'H'
      then reset (m.on_receive (record cmd { from = c.sid }) c w)
      else if not (cmd.from == c.sid)
      then disconnect reason_invalid_sid c w
      else reset (m.on_receive cmd c w)

  -- What follows `done = j + 1`, on the buffer that ends in a line feed. Where the source returns,
  -- the client is disconnecting, so that the loop ends.
  unfoldable pub on_line : Client → W → Client × W
  on_line c w =
      let line = kept c.buffer in
      if ltb 0 (m.max_command_size w) && ltb (m.max_command_size w) (length line)
      then disconnect reason_max_command_size c
          (m.write (status sev_fatal error_protocol_generic (codes "Command too long")) w)
      else if length line == 1
      then reset (c, w)
      else elim (parse_buffer line) [
        | ok cmd ↦ receive cmd c w
        | err e ↦ reset (m.on_bad_line line c w)
      ]

  -- One call of the data handler.
  unfoldable pub read_data : Bytes → Client → W → Client × W
  read_data s c w = (record c { data_bytes = c.data_bytes - length s }, m.data_handler s w)

  -- The loop of `onData` on the bytes that are left. Each round passes at least one of them.
  unfoldable pub on_data_loop : ℕ → Client → W → Bytes → Client × W
  on_data_loop fuel c w [] = (c, w)
  on_data_loop zero c w (b ∷ s) = (c, w)
  on_data_loop (suc fuel) c w (b ∷ s) = elim c.disconnecting [
    | true ↦ (c, w)
    | false ↦ elim (ltb 0 c.data_bytes) [
      | true ↦
          let n = smaller c.data_bytes (length (b ∷ s)) in
          let next = read_data (take n (b ∷ s)) c w in
          on_data_loop fuel next.0 next.1 (drop n (b ∷ s))
      | false ↦ elim (cut (b ∷ s)) [
        | none ↦ (append c (b ∷ s), w)
        | some p ↦ let next = on_line (append c p.0) w in on_data_loop fuel next.0 next.1 p.1
      ]
    ]
  ]

  unfoldable pub on_data : Client → W → Bytes → Client × W
  on_data c w buf = on_data_loop (length buf) c w buf
