-- ===== src/ManagedSocket/Fifo.antt =====
-- A socket as the queue of the bytes that it was offered and has taken.
use adchubd.Base.{
  ℕ, zero, suc, ◌+◌, ◌≤◌, ◌≡◌, refl, sym, ap, ap₂, ◌∙◌, subst, Bool, true, false, List, [], ◌∷◌,
  ◌++◌, append_assoc, append-nil, Option, some, Bytes, length, take, drop, append-take-drop,
  length-append, if◌then◌else◌, arith, ltb, ◌==◌, ◌&&◌, ◌||◌, Bool-cases, inl, inr, is_empty,
}
use adchubd.ManagedSocket.{
  ManagedSocket, Settings, Call, offer, taken, init, async_write, async_read, shutdown, report,
  close_after, write, write_offered, enqueue, prepare_write, disconnect, written, call, take_off,
  after_write, clear_overflow, writing, disconnecting, is_past, is_full, is_set, get_queued_bytes,
}
use adchubd.Reason.{reason_write_timeout, reason_write_overflow}
use adchubd.ManagedSocket.Stream.{joined, Prefix, handed-Prefix}
use adchubd.ManagedSocket.Queue.{consume-drop}

-- What the log tells, the newest first: the buffers that were offered, what the stream was last
-- handed, and the bytes that it has taken.
unfoldable pub offers : List Call → List Bytes
offers [] = []
offers (offer b ∷ log) = b ∷ offers log
offers (c ∷ log) = offers log

unfoldable pub last_handed : List Call → Bytes
last_handed [] = []
last_handed (async_write b ∷ log) = b
last_handed (c ∷ log) = last_handed log

unfoldable pub sent : List Call → Bytes
sent [] = []
sent (taken n ∷ log) = sent log ++ take n (last_handed log)
sent (c ∷ log) = sent log

-- Some of the buffers, in the same order.
pub data Picked : List Bytes → List Bytes → Type 0 where
  picked_nil : Picked [] []
  picked : {ks bs : List Bytes} (b : Bytes) → Picked ks bs → Picked (b ∷ ks) (b ∷ bs)
  passed_over : {ks bs : List Bytes} (b : Bytes) → Picked ks bs → Picked ks (b ∷ bs)

-- The bytes of buffers that are listed with the newest first.
unfoldable pub in_order : List Bytes → Bytes
in_order [] = []
in_order (b ∷ ks) = in_order ks ++ b

-- What the stream has taken and what waits are the bytes of some of the offered buffers, whole, once
-- and in order.
abbrev pub Fifo : List Bytes → List Call → Type 0
Fifo l log = (kept : List Bytes) × Picked kept (offers log) × (sent log ++ joined l ≡ in_order kept)

-- The stream is at work on the first bytes of the queue.
pub record Works (s : ManagedSocket) : Type 0 where
  pub fifo : Fifo s.out_buf s.calls
  pub at_work : writing s ≡ true → Prefix (last_handed s.calls) (joined s.out_buf)

pub joined-snoc : (l : List Bytes) (b : Bytes) → joined (l ++ b ∷ []) ≡ joined l ++ b
unfolding joined
joined-snoc [] b = append-nil b
joined-snoc (c ∷ l) b =
    ap (λ (t : Bytes). c ++ t) (joined-snoc l b) ∙ sym (append_assoc c (joined l) b)

Fifo-taken :
    (l : List Bytes) (log : List Call) (b : Bytes) → Fifo l log → Fifo (l ++ b ∷ []) (offer b ∷ log)
unfolding offers sent in_order
Fifo-taken l log b (kept, p, e) = (
  b ∷ kept,
  picked b p,
  ap (λ (t : Bytes). sent log ++ t) (joined-snoc l b)
      ∙ sym (append_assoc (sent log) (joined l) b)
      ∙ ap (λ (t : Bytes). t ++ b) e,
)

Prefix-longer : (a b c : Bytes) → Prefix a b → Prefix a (b ++ c)
Prefix-longer a b c (rest, e) = (rest ++ c, ap (λ (t : Bytes). t ++ c) e ∙ append_assoc a rest c)

Fifo-passed : (l : List Bytes) (log : List Call) (b : Bytes) → Fifo l log → Fifo l (offer b ∷ log)
unfolding offers sent
Fifo-passed l log b (kept, p, e) = (kept, passed_over b p, e)

take-append : (n : ℕ) (xs ys : Bytes) → n ≤ length xs → take n (xs ++ ys) ≡ take n xs
take-append zero xs ys h = refl
take-append (suc n) [] ys h = absurd (omega arith)
take-append (suc n) (x ∷ xs) ys h = ap (◌∷◌ x) (take-append n xs ys (omega arith))

-- Bytes go from the front of the queue to the stream.
Fifo-moved :
    (l m : List Bytes) (log : List Call) (n : ℕ)
    → Prefix (last_handed log) (joined l)
    → n ≤ length (last_handed log)
    → joined m ≡ drop n (joined l)
    → Fifo l log
    → Fifo m (taken n ∷ log)
unfolding offers sent
Fifo-moved l m log n (rest, at) fits e (kept, p, q) = (
  kept,
  p,
  append_assoc (sent log) (take n (last_handed log)) (joined m)
      ∙ ap (λ (t : Bytes). sent log ++ t)
          (ap₂ ◌++◌
              (sym (take-append n (last_handed log) rest fits)
                ∙ ap (λ (t : Bytes). take n t) (sym at))
              e
            ∙ append-take-drop n (joined l))
      ∙ q,
)

unfoldable pub is_quiet : Call → Bool
is_quiet (offer b) = false
is_quiet (taken n) = false
is_quiet (async_write b) = false
is_quiet c = true

pub call-Works : (c : Call) (s : ManagedSocket) → is_quiet c ≡ true → Works s → Works (call c s)
unfolding is_quiet offers sent last_handed
call-Works (offer b) s q w = absurd (cc)
call-Works (taken n) s q w = absurd (cc)
call-Works (async_write b) s q w = absurd (cc)
call-Works init s q w = record { fifo = w.fifo; at_work = w.at_work }
call-Works (async_read n) s q w = record { fifo = w.fifo; at_work = w.at_work }
call-Works shutdown s q w = record { fifo = w.fifo; at_work = w.at_work }
call-Works (report r i) s q w = record { fifo = w.fifo; at_work = w.at_work }
call-Works (close_after t) s q w = record { fifo = w.fifo; at_work = w.at_work }

-- A branch of either kind.
pub if-Works :
    (t : Bool) (x y : ManagedSocket)
    → (t ≡ true → Works x)
    → (t ≡ false → Works y)
    → Works (if t then x else y)
if-Works true x y wx wy = wx refl
if-Works false x y wx wy = wy refl

-- A socket that does not write.
pub contrary : {P : Type 0} → false ≡ true → P
contrary h = absurd (cc)

module _ (cfg : Settings) where
  pub disconnect-Works :
      (now reason : ℕ) (info : Bytes) (s : ManagedSocket)
      → Works s
      → Works (disconnect cfg now reason info s)
  unfolding disconnect is_quiet
  disconnect-Works now reason info s w =
      let marked = record s { disc = some (now + cfg.disconnect_timeout) } in
      let told = call (report reason info) marked in
      let w' : Works told =
        call-Works (report reason info) marked refl
          (record { fifo = w.fifo; at_work = w.at_work }) in
      elim (Bool-cases (disconnecting s)) [
        | inl gone ↦ rw gone w
        | inr here ↦ elim (Bool-cases (writing s)) [
          | inl busy ↦
              rw (here, busy) (call-Works (close_after cfg.disconnect_timeout) told refl w')
          | inr idle ↦
              rw (here, idle)
                (call-Works (close_after cfg.disconnect_timeout) (call shutdown told) refl
                  (call-Works shutdown told refl w'))
        ]
      ]

  pub prepare_write-Works :
      (now : ℕ → ℕ) (s : ManagedSocket) → Works s → Works (prepare_write cfg now s)
  unfolding prepare_write offers sent last_handed
  prepare_write-Works now s w = elim (Bool-cases (writing s)) [
    | inr idle ↦ elim (Bool-cases (is_empty s.out_buf)) [
      | inl done ↦ rw (idle, done) w
      | inr more ↦
          rw (idle, more) (record { fifo = w.fifo; at_work = λ _. handed-Prefix s.out_buf })
    ]
    | inl busy ↦ elim (Bool-cases (is_past cfg s.last_write 60000 (now 0))) [
      | inl late ↦ rw (busy, late) (disconnect-Works (now 1) reason_write_timeout [] s w)
      | inr soon ↦ rw (busy, soon) w
    ]
  ]

  -- A buffer that is offered is taken.
  enqueue-Works :
      (now : ℕ → ℕ) (b : Bytes) (s : ManagedSocket) (o : Option ℕ)
      → Works s
      → Works (enqueue cfg now b (record s { calls = offer b ∷ s.calls; overflow = o }))
  unfolding enqueue last_handed
  enqueue-Works now b s o w = prepare_write-Works now _ (record {
    fifo = Fifo-taken s.out_buf s.calls b w.fifo;
    at_work = λ h.
        subst (Prefix (last_handed s.calls)) (sym (joined-snoc s.out_buf b))
          (Prefix-longer _ (joined s.out_buf) b (w.at_work h));
  })

  pub write-Works :
      (now : ℕ → ℕ) (b : Bytes) (low : Bool) (s : ManagedSocket)
      → Works s
      → Works (write cfg now b low s)
  unfolding write_offered last_handed
  write-Works now b low s w =
      let offered = call (offer b) s in
      let w' : Works offered = record {
        fifo = Fifo-passed s.out_buf s.calls b w.fifo;
        at_work = w.at_work;
      } in
      elim (Bool-cases (length b == 0 || disconnecting s)) [
        | inl no_use ↦ rw no_use w'
        | inr useful ↦ elim (Bool-cases (is_full cfg b s)) [
          | inr room ↦ rw (useful, room) (enqueue-Works now b s s.overflow w)
          | inl full ↦ elim (Bool-cases low) [
            | inl drops ↦ rw (useful, full, drops) w'
            | inr keeps ↦ elim (Bool-cases (is_past cfg s.overflow cfg.overflow_timeout (now 2))) [
              | inl late ↦
                  rw (useful, full, keeps, late)
                    (disconnect-Works (now 3) reason_write_overflow [] offered w')
              | inr soon ↦ rw (useful, full, keeps, soon) (enqueue-Works now b s (some (now 4)) w)
            ]
          ]
        ]
      ]

  after_write-Works : (now : ℕ → ℕ) (s : ManagedSocket) → Works s → Works (after_write cfg now s)
  unfolding is_quiet
  after_write-Works now s w = elim (Bool-cases (disconnecting s && is_empty s.out_buf)) [
    | inl over ↦ rw over (call-Works shutdown s refl w)
    | inr more ↦ rw more (prepare_write-Works now s w)
  ]

  clear_overflow-Works : (s : ManagedSocket) → Works s → Works (clear_overflow cfg s)
  clear_overflow-Works s w =
      elim (Bool-cases (is_set s.overflow && ltb (get_queued_bytes s) cfg.max_buffer_size)) [
        | inl fits ↦ rw fits (record { fifo = w.fifo; at_work = w.at_work })
        | inr full ↦ rw full w
      ]

  -- The stream has taken some of what it was handed.
  pub written-Works :
      (now : ℕ → ℕ) (n : ℕ) (s : ManagedSocket)
      → Works s
      → writing s ≡ true
      → n ≤ length (last_handed s.calls)
      → (t : ManagedSocket) × (written cfg now n s ≡ some t) × Works t
  unfolding written last_handed
  written-Works now n s w busy fits =
      let (rest, at) = w.at_work busy in
      let (m, e, d) =
        consume-drop n s.out_buf
          (omega (arith, ap length at, length-append (last_handed s.calls) rest)) in
      let left = take_off n m s in
      let w' : Works left = record {
        fifo = Fifo-moved s.out_buf m s.calls n (w.at_work busy) fits d w.fifo;
        at_work = contrary;
      } in
      rw (e, written)
        (_, refl, after_write-Works now (clear_overflow cfg left) (clear_overflow-Works left w'))
