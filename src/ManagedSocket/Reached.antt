-- ===== src/ManagedSocket/Reached.antt =====
-- The states that a socket gets to: what the stream has taken and the queue, over all operations.
use adchubd.Base.{
  ℕ, ◌≤◌, ◌≡◌, refl, sym, ◌∙◌, subst, Bool, true, false, [], Option, none, some, Bytes, length,
  if◌then◌else◌,
}
use mathlib.Core.Option.{some-injective}
use adchubd.Reason.{reason_socket_error}
use adchubd.ManagedSocket.{
  ManagedSocket, Settings, Handlers, init, async_read, write, disconnect, complete_write,
  complete_read, complete_accept, prepare_read2, ready, fail, new_socket, writing, after_data,
}
use adchubd.ManagedSocket.Stream.{joined}
use adchubd.ManagedSocket.Fifo.{
  offers, sent, last_handed, in_order, picked_nil, Fifo, Works, is_quiet, call-Works,
  disconnect-Works, write-Works, written-Works, if-Works, contrary,
}

-- What the handlers of a client may do with its socket.
pub data Inner (cfg : Settings) (s : ManagedSocket) : ManagedSocket → Type 0 where
  nothing : Inner cfg s s
  writes :
      {t : ManagedSocket}
      → Inner cfg s t
      → (now : ℕ → ℕ) (b : Bytes) (low : Bool) → Inner cfg s (write cfg now b low t)
  disconnects :
      {t : ManagedSocket}
      → Inner cfg s t
      → (now reason : ℕ) (info : Bytes) → Inner cfg s (disconnect cfg now reason info t)
  sets :
      {t : ManagedSocket}
      → Inner cfg s t
      → (c r d f : Bool)
      → Inner cfg s (record t {
        connected_handler = c;
        ready_handler = r;
        data_handler = d;
        failed_handler = f;
      })

pub record CallsOnly (cfg : Settings) (h : Handlers) : Type 0 where
  pub connected_calls : (s : ManagedSocket) → Inner cfg s (h.on_connected s)
  pub ready_calls : (s : ManagedSocket) → Inner cfg s (h.on_ready s)
  pub data_calls : (b : Bytes) (s : ManagedSocket) → Inner cfg s (h.on_data b s).0
  pub failed_calls : (r : ℕ) (i : Bytes) (s : ManagedSocket) → Inner cfg s (h.on_failed r i s)

pub Inner-Works : {cfg : Settings} {s t : ManagedSocket} → Inner cfg s t → Works s → Works t
Inner-Works nothing w = w
Inner-Works {cfg} (writes {t} i now b low) w = write-Works cfg now b low t (Inner-Works i w)
Inner-Works {cfg} (disconnects {t} i now r info) w =
    disconnect-Works cfg now r info t (Inner-Works i w)
Inner-Works (sets i c r d f) w =
    let v = Inner-Works i w in record { fifo = v.fifo; at_work = v.at_work }

-- The states of a socket. The stream reports no more bytes than it was handed, and only when it is
-- at work.
pub data Reach (cfg : Settings) (h : Handlers) : ManagedSocket → Type 0 where
  starts : Reach cfg h new_socket
  called : {s t : ManagedSocket} → Reach cfg h s → Inner cfg s t → Reach cfg h t
  accepted :
      {s : ManagedSocket}
      → Reach cfg h s
      → (ec : Option Bytes) → Reach cfg h (complete_accept h ec s)
  gets_ready : {s : ManagedSocket} → Reach cfg h s → Reach cfg h (ready h s)
  may_read :
      {s : ManagedSocket} → Reach cfg h s → (ec : Option Bytes) → Reach cfg h (prepare_read2 h ec s)
  has_read :
      {s : ManagedSocket}
      → Reach cfg h s
      → (ec : Option Bytes) (b : Bytes) → Reach cfg h (complete_read h ec b s)
  has_written :
      {s t : ManagedSocket}
      → Reach cfg h s
      → (now : ℕ → ℕ) (n : ℕ) → writing s ≡ true
      → n ≤ length (last_handed s.calls)
      → complete_write h cfg now none n s ≡ some t
      → Reach cfg h t
  write_fails :
      {s t : ManagedSocket}
      → Reach cfg h s
      → (now : ℕ → ℕ) (ec : Bytes) (n : ℕ) → complete_write h cfg now (some ec) n s ≡ some t
      → Reach cfg h t

module _ (cfg : Settings) (h : Handlers) (only : CallsOnly cfg h) where
  fail-Works : (r : ℕ) (i : Bytes) (s : ManagedSocket) → Works s → Works (fail h r i s)
  unfolding fail
  fail-Works r i s w =
      let v = Inner-Works (only.failed_calls r i s) w in
      if-Works s.failed_handler
        (record (h.on_failed r i s) {
          connected_handler = false;
          ready_handler = false;
          data_handler = false;
          failed_handler = false;
        })
        s (λ _. record { fifo = v.fifo; at_work = v.at_work }) (λ _. w)

  after_data-Works : (p : ManagedSocket × Option Bytes) → Works p.0 → Works (after_data h p)
  unfolding is_quiet
  after_data-Works (s, none) w =
      call-Works (async_read none) (record s { in_buf = none }) refl
        (record { fifo = w.fifo; at_work = w.at_work })
  after_data-Works (s, some message) w = fail-Works reason_socket_error message s w

  -- What the handler of the data leaves behind, if there is one.
  handled-Works :
      (t : Bool) (b : Bytes) (s : ManagedSocket)
      → Works s
      → Works (after_data h (if t then h.on_data b s else (s, none)))
  handled-Works true b s w = after_data-Works (h.on_data b s) (Inner-Works (only.data_calls b s) w)
  handled-Works false b s w = after_data-Works (s, none) w

  complete_read-Works :
      (ec : Option Bytes) (b : Bytes) (s : ManagedSocket) → Works s → Works (complete_read h ec b s)
  unfolding complete_read
  complete_read-Works none b s w =
      handled-Works s.data_handler b _ (record { fifo = w.fifo; at_work = w.at_work })
  complete_read-Works (some ec) b s w =
      fail-Works reason_socket_error ec (record s { in_buf = none })
        (record { fifo = w.fifo; at_work = w.at_work })

  prepare_read2-Works :
      (ec : Option Bytes) (s : ManagedSocket) → Works s → Works (prepare_read2 h ec s)
  unfolding prepare_read2 is_quiet
  prepare_read2-Works none s w =
      call-Works (async_read (some 64)) (record s { in_buf = some 64 }) refl
        (record { fifo = w.fifo; at_work = w.at_work })
  prepare_read2-Works (some ec) s w = fail-Works reason_socket_error ec s w

  ready-Works : (s : ManagedSocket) → Works s → Works (ready h s)
  unfolding ready is_quiet
  ready-Works s w =
      call-Works (async_read none) (if s.ready_handler then h.on_ready s else s) refl (
        if-Works s.ready_handler (h.on_ready s) s (λ _. Inner-Works (only.ready_calls s) w)
          (λ _. w))

  complete_accept-Works :
      (ec : Option Bytes) (s : ManagedSocket) → Works s → Works (complete_accept h ec s)
  unfolding complete_accept is_quiet
  complete_accept-Works none s w =
      call-Works init (if s.connected_handler then h.on_connected s else s) refl (
        if-Works s.connected_handler (h.on_connected s) s
          (λ _. Inner-Works (only.connected_calls s) w) (λ _. w))
  complete_accept-Works (some ec) s w = fail-Works reason_socket_error ec s w

  -- A report of the stream that it is done.
  Works-done :
      (now : ℕ → ℕ) (n : ℕ) (s : ManagedSocket)
      → Works s
      → writing s ≡ true
      → n ≤ length (last_handed s.calls)
      → (t : ManagedSocket) × (complete_write h cfg now none n s ≡ some t) × Works t
  unfolding complete_write
  Works-done now n s w busy fits = written-Works cfg now n s w busy fits

  Works-failed :
      (now : ℕ → ℕ) (ec : Bytes) (n : ℕ) (s t : ManagedSocket)
      → complete_write h cfg now (some ec) n s ≡ some t
      → Works s
      → Works t
  unfolding complete_write
  Works-failed now ec n s t e w = subst Works (some-injective _ _ e) (
      fail-Works reason_socket_error ec (record s { last_write = none })
        (record { fifo = w.fifo; at_work = contrary }))

  Reach-Works : {s : ManagedSocket} → Reach cfg h s → Works s
  unfolding offers sent in_order joined
  Reach-Works starts = record { fifo = ([], picked_nil, refl); at_work = contrary }
  Reach-Works (called r i) = Inner-Works i (Reach-Works r)
  Reach-Works (accepted {s} r ec) = complete_accept-Works ec s (Reach-Works r)
  Reach-Works (gets_ready {s} r) = ready-Works s (Reach-Works r)
  Reach-Works (may_read {s} r ec) = prepare_read2-Works ec s (Reach-Works r)
  Reach-Works (has_read {s} r ec b) = complete_read-Works ec b s (Reach-Works r)
  Reach-Works (has_written {s} {t} r now n busy fits e) =
      let (u, e', w) = Works-done now n s (Reach-Works r) busy fits in
      subst Works (some-injective _ _ (sym e' ∙ e)) w
  Reach-Works (write_fails {s} {t} r now ec n e) = Works-failed now ec n s t e (Reach-Works r)

-- In every state that a socket gets to, if the handlers of its client do nothing with it but call
-- `write` and `disconnect` and set handlers, the bytes that the stream has taken and those that wait
-- are the bytes of some of the buffers that were offered to `write`, each one whole, once and in their
-- order; and as long as the stream takes no more than it was handed, `completeWrite` never asks for a
-- buffer of an empty queue, and the state after it is such a state again.
pub Reach-Fifo :
    (cfg : Settings) (h : Handlers)
    → CallsOnly cfg h
    → {s : ManagedSocket} → Reach cfg h s
    → Fifo s.out_buf s.calls
      × ((now : ℕ → ℕ) (n : ℕ)
          → writing s ≡ true
          → n ≤ length (last_handed s.calls)
          → (t : ManagedSocket) × (complete_write h cfg now none n s ≡ some t)
            × Fifo t.out_buf t.calls)
Reach-Fifo cfg h only {s} r =
    let w = Reach-Works cfg h only r in
    (
      w.fifo,
      λ now n busy fits.
          let (t, e, v) = Works-done cfg h only now n s w busy fits in (t, e, v.fifo),
    )
