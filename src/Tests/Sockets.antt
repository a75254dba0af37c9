-- ===== src/Tests/Sockets.antt =====
-- adchpp/ManagedSocket.cpp: writes to a socket at concrete inputs.
use adchubd.Base.{
  ℕ, ◌≤◌, ◌≡◌, refl, true, false, [], ◌∷◌, Option, none, some, Bytes, is_empty, codes, length,
}
use adchubd.ManagedSocket.{
  ManagedSocket, Settings, Handlers, write, write_offered, enqueue, prepare_write, consume, written,
  complete_write, new_socket, writing, sum,
}
use adchubd.ManagedSocket.Stream.{handed, gather}
use adchubd.ManagedSocket.Fifo.{Fifo, last_handed}
use adchubd.ManagedSocket.Reached.{nothing, writes, CallsOnly, starts, called, Reach-Fifo}

abbrev settings : Settings
settings = record { max_buffer_size = 8; overflow_timeout = 60000; disconnect_timeout = 10000 }

-- A client that does nothing.
abbrev idle : Handlers
idle = record {
  on_connected = λ s. s;
  on_ready = λ s. s;
  on_data = λ b s. (s, none);
  on_failed = λ r i s. s;
}

idle-CallsOnly : CallsOnly settings idle
idle-CallsOnly = record {
  connected_calls = λ s. nothing;
  ready_calls = λ s. nothing;
  data_calls = λ b s. nothing;
  failed_calls = λ r i s. nothing;
}

abbrev first : ManagedSocket
first = write settings (λ i. 5) (codes "BINF a") false new_socket

abbrev second : ManagedSocket
second = write settings (λ i. 6) (codes "\n") false first

-- The second buffer waits, and then the stream is handed what is left of both.
second_run : second.out_buf ≡ codes "BINF a" ∷ codes "\n" ∷ []
unfolding write_offered enqueue prepare_write sum is_empty
second_run = refl

third : Option Bytes
unfolding write_offered enqueue prepare_write sum written complete_write consume is_empty
third = elim (complete_write idle settings (λ i. 7) none 4 second) [
  | none ↦ none
  | some s ↦ some (last_handed s.calls)
]

third_run : third ≡ some (codes " a\n")
unfolding third last_handed handed gather write_offered enqueue prepare_write sum written
    complete_write consume is_empty
third_run = refl

-- A low priority write that does not fit the buffer is dropped.
dropped_run :
    (write settings (λ i. 7) (codes "BMSG x") true second).out_buf
    ≡ codes "BINF a" ∷ codes "\n" ∷ []
unfolding write_offered enqueue prepare_write sum is_empty
dropped_run = refl

Reach-Fifo_example :
    Fifo second.out_buf second.calls
    × ((now : ℕ → ℕ) (n : ℕ)
        → writing second ≡ true
        → n ≤ length (last_handed second.calls)
        → (t : ManagedSocket) × (complete_write idle settings now none n second ≡ some t)
          × Fifo t.out_buf t.calls)
Reach-Fifo_example = Reach-Fifo settings idle idle-CallsOnly (
    called starts
      (writes (writes nothing (λ i. 5) (codes "BINF a") false) (λ i. 6) (codes "\n") false))
