-- ===== src/ManagedSocket.antt =====
-- adchpp/ManagedSocket.cpp: the queue of buffers to write, the reads, the timeouts and the end of a
-- connection. Times are milliseconds. An operation that asks for the time takes the readings of the
-- clock as a function: the number of the reading says which call in the code makes it.
pub mod Stream
pub mod Queue
pub mod Fifo
pub mod Reached
use adchubd.Base.{
  ℕ, zero, suc, ◌+◌, ◌-◌, Bool, true, false, not, ◌&&◌, ◌||◌, List, [], ◌∷◌, ◌++◌, Option, none,
  some, Bytes, ltb, leb, ◌==◌, if◌then◌else◌, length, drop, is_empty,
}
use adchubd.Reason.{reason_write_overflow, reason_write_timeout, reason_socket_error}
use adchubd.ManagedSocket.Stream.{handed}

-- What goes through a socket: the buffers that it is offered to write and the numbers of bytes that
-- its stream reports as written, and what the socket asks of its stream, of the manager of the
-- sockets and, by a job, of its client.
pub data Call : Type 0 where
  offer : Bytes → Call
  taken : ℕ → Call
  init : Call
  async_write : Bytes → Call
  async_read : Option ℕ → Call
  shutdown : Call
  report : ℕ → Bytes → Call
  close_after : ℕ → Call

-- The statistics of the manager.
pub record Stats : Type 0 where
  pub queue_bytes : ℕ
  pub queue_calls : ℕ
  pub send_bytes : ℕ
  pub send_calls : ℕ
  pub recv_bytes : ℕ
  pub recv_calls : ℕ

-- `in_buf` is the size of the buffer. The times are `none` for `not_a_date_time`. A handler may be
-- set or not. `calls` is a log, the newest first.
pub record ManagedSocket : Type 0 where
  pub out_buf : List Bytes
  pub in_buf : Option ℕ
  pub overflow : Option ℕ
  pub disc : Option ℕ
  pub last_write : Option ℕ
  pub connected_handler : Bool
  pub ready_handler : Bool
  pub data_handler : Bool
  pub failed_handler : Bool
  pub stats : Stats
  pub calls : List Call

-- The settings of the manager.
pub record Settings : Type 0 where
  pub max_buffer_size : ℕ
  pub overflow_timeout : ℕ
  pub disconnect_timeout : ℕ

-- What the handlers of the client do. They may call the socket; that of the data may throw an error
-- of the system, with a message.
pub record Handlers : Type 0 where
  pub on_connected : ManagedSocket → ManagedSocket
  pub on_ready : ManagedSocket → ManagedSocket
  pub on_data : Bytes → ManagedSocket → ManagedSocket × Option Bytes
  pub on_failed : ℕ → Bytes → ManagedSocket → ManagedSocket

abbrev pub is_set {ℓ} : {A : Type ℓ} → Option A → Bool
is_set none = false
is_set (some a) = true

abbrev pub disconnecting : ManagedSocket → Bool
disconnecting s = is_set s.disc

abbrev pub writing : ManagedSocket → Bool
writing s = is_set s.last_write

unfoldable pub sum : List Bytes → ℕ
sum [] = 0
sum (b ∷ l) = length b + sum l

abbrev pub get_queued_bytes : ManagedSocket → ℕ
get_queued_bytes s = sum s.out_buf

abbrev pub call : Call → ManagedSocket → ManagedSocket
call c s = record s { calls = c ∷ s.calls }

-- The loop of `completeWrite`. `none` is what the source leaves undefined: it asks for the first
-- buffer of an empty queue.
unfoldable pub consume : ℕ → List Bytes → Option (List Bytes)
consume zero l = some l
consume (suc n) [] = none
consume (suc n) (b ∷ l) =
    if leb (length b) (suc n) then consume (suc n - length b) l else some (drop (suc n) b ∷ l)

-- Bytes have been written, and these buffers are left.
abbrev pub take_off : ℕ → List Bytes → ManagedSocket → ManagedSocket
take_off bytes l s = record s {
  out_buf = l;
  last_write = none;
  stats = record (s.stats) {
    send_bytes = s.stats.send_bytes + bytes;
    send_calls = s.stats.send_calls + 1;
  };
  calls = taken bytes ∷ s.calls;
}

module _ (cfg : Settings) where
  -- The first job reports the reason to the client, the last one closes the stream.
  unfoldable pub disconnect : ℕ → ℕ → Bytes → ManagedSocket → ManagedSocket
  disconnect now reason info s =
      if disconnecting s
      then s
      else let told =
          call (report reason info) (record s { disc = some (now + cfg.disconnect_timeout) }) in
        let ended = if not (writing told) then call shutdown told else told in
        call (close_after cfg.disconnect_timeout) ended

  -- Whether a time lies more than so many milliseconds back.
  abbrev pub is_past : Option ℕ → ℕ → ℕ → Bool
  is_past none timeout now = false
  is_past (some t) timeout now = ltb (t + timeout) now

  unfoldable pub prepare_write : (ℕ → ℕ) → ManagedSocket → ManagedSocket
  prepare_write now s =
      if not (writing s)
      then (if not (is_empty s.out_buf)
          then call (async_write (handed s.out_buf)) (record s { last_write = some (now 0) })
          else s)
      else if is_past s.last_write 60000 (now 0)
      then disconnect (now 1) reason_write_timeout [] s
      else s

  -- The end of `write`, where the buffer is taken.
  unfoldable pub enqueue : (ℕ → ℕ) → Bytes → ManagedSocket → ManagedSocket
  enqueue now buf s = prepare_write now (record s {
    out_buf = s.out_buf ++ buf ∷ [];
    stats = record (s.stats) {
      queue_bytes = s.stats.queue_bytes + length buf;
      queue_calls = s.stats.queue_calls + 1;
    };
  })

  abbrev pub is_full : Bytes → ManagedSocket → Bool
  is_full buf s =
      ltb 0 cfg.max_buffer_size && ltb cfg.max_buffer_size (get_queued_bytes s + length buf)

  -- `write`, once the offer is logged.
  unfoldable pub write_offered : (ℕ → ℕ) → Bytes → Bool → ManagedSocket → ManagedSocket
  write_offered now buf low_prio s =
      if length buf == 0 || disconnecting s
      then s
      else if is_full buf s
      then (if low_prio
          then s
          else if is_past s.overflow cfg.overflow_timeout (now 2)
          then disconnect (now 3) reason_write_overflow [] s
          else enqueue now buf (record s { overflow = some (now 4) }))
      else enqueue now buf s

  abbrev pub write : (ℕ → ℕ) → Bytes → Bool → ManagedSocket → ManagedSocket
  write now buf low_prio s = write_offered now buf low_prio (call (offer buf) s)

  abbrev pub clear_overflow : ManagedSocket → ManagedSocket
  clear_overflow s =
      if is_set s.overflow && ltb (get_queued_bytes s) cfg.max_buffer_size
      then record s { overflow = none }
      else s

  abbrev pub after_write : (ℕ → ℕ) → ManagedSocket → ManagedSocket
  after_write now s =
      if disconnecting s && is_empty s.out_buf then call shutdown s else prepare_write now s

  -- `completeWrite` without an error.
  unfoldable pub written : (ℕ → ℕ) → ℕ → ManagedSocket → Option ManagedSocket
  written now bytes s = elim (consume bytes s.out_buf) [
    | none ↦ none
    | some l ↦ some (after_write now (clear_overflow (take_off bytes l s)))
  ]

module _ (h : Handlers) where
  unfoldable pub fail : ℕ → Bytes → ManagedSocket → ManagedSocket
  fail reason info s =
      if s.failed_handler
      then record (h.on_failed reason info s) {
        connected_handler = false;
        ready_handler = false;
        data_handler = false;
        failed_handler = false;
      }
      else s

  -- An error of the system comes as its message.
  unfoldable pub complete_write :
      Settings → (ℕ → ℕ) → Option Bytes → ℕ → ManagedSocket → Option ManagedSocket
  complete_write cfg now none bytes s = written cfg now bytes s
  complete_write cfg now (some ec) bytes s =
      some (fail reason_socket_error ec (record s { last_write = none }))

  abbrev pub prepare_read : ManagedSocket → ManagedSocket
  prepare_read s = call (async_read none) s

  unfoldable pub prepare_read2 : Option Bytes → ManagedSocket → ManagedSocket
  prepare_read2 none s = call (async_read (some 64)) (record s { in_buf = some 64 })
  prepare_read2 (some ec) s = fail reason_socket_error ec s

  abbrev pub after_data : ManagedSocket × Option Bytes → ManagedSocket
  after_data (s, none) = prepare_read (record s { in_buf = none })
  after_data (s, some message) = fail reason_socket_error message s

  -- `read` are the bytes that the stream has put into the buffer, which is cut to their number.
  unfoldable pub complete_read : Option Bytes → Bytes → ManagedSocket → ManagedSocket
  complete_read none read s =
      let counted = record s {
        in_buf = some (length read);
        stats = record (s.stats) {
          recv_bytes = s.stats.recv_bytes + length read;
          recv_calls = s.stats.recv_calls + 1;
        };
      } in
      after_data (if counted.data_handler then h.on_data read counted else (counted, none))
  complete_read (some ec) read s = fail reason_socket_error ec (record s { in_buf = none })

  unfoldable pub ready : ManagedSocket → ManagedSocket
  ready s = prepare_read (if s.ready_handler then h.on_ready s else s)

  unfoldable pub complete_accept : Option Bytes → ManagedSocket → ManagedSocket
  complete_accept none s = call init (if s.connected_handler then h.on_connected s else s)
  complete_accept (some ec) s = fail reason_socket_error ec s

-- The constructor. The client sets all handlers before anything else happens.
abbrev pub new_socket : ManagedSocket
new_socket = record {
  out_buf = [];
  in_buf = none;
  overflow = none;
  disc = none;
  last_write = none;
  connected_handler = false;
  ready_handler = false;
  data_handler = false;
  failed_handler = false;
  stats = record {
    queue_bytes = 0;
    queue_calls = 0;
    send_bytes = 0;
    send_calls = 0;
    recv_bytes = 0;
    recv_calls = 0;
  };
  calls = [];
}
