-- ===== src/Client/Passed.antt =====
-- adchpp/Client.cpp: which commands of a client get to the client manager.
use adchubd.Base.{
  ℕ, zero, suc, ◌≤◌, ◌<◌, ◌≡◌, refl, sym, ◌∙◌, subst, ==_iff, ◌-◌, ◌++◌, Option, take, drop,
  Option-cases, ap, Bool, true, false, [], ◌∷◌, some, Bytes, ◌==◌, ltb, if◌then◌else◌, length,
  arith, ◌⊎◌, inl, inr, Bool-cases, ◌&&◌,
}
use adchubd.AdcCommand.{AdcCommand}
use adchubd.AdcCommand.Parse.{Result, Result-cases, ok, err, parse_buffer}
use adchubd.Client.{
  Client, cut, disconnect, Calls, kept, reset, receive, on_line, read_data, smaller, on_data_loop,
  on_data,
}
use adchubd.Client.Bytewise.{client, ltb-suc}

module _ {ℓ} {W : Type ℓ} (m : Calls W) (on_receive : AdcCommand → Client → W → Client × W)
    (same : (line : Bytes) (cmd : AdcCommand) (c : Client) (w : W)
      → parse_buffer line ≡ ok cmd
      → (0 < m.max_command_size w → length line ≤ m.max_command_size w)
      → (cmd.type ≡ b'H') ⊎ (cmd.from ≡ c.sid)
      → m.on_receive (record cmd { from = c.sid }) c w
        ≡ on_receive (record cmd { from = c.sid }) c w) where
  abbrev other : Calls W
  other = record m { on_receive = on_receive }

  receive-other :
      (line : Bytes) (cmd : AdcCommand) (c : Client) (w : W)
      → parse_buffer line ≡ ok cmd
      → (0 < m.max_command_size w → length line ≤ m.max_command_size w)
      → receive m cmd c w ≡ receive other cmd c w
  unfolding receive disconnect
  receive-other line cmd c w e le = elim (Bool-cases (cmd.type == b'H')) [
    | inl t ↦ rw t (ap (reset m) (same line cmd c w e le (inl ((==_iff _ _).0 t))))
    | inr t ↦ elim (Bool-cases (cmd.from == c.sid)) [
      | inl q ↦ rw (t, q) (ap (reset m) (own ((==_iff _ _).0 q)))
      | inr q ↦ rw (t, q) refl
    ]
  ]
    where
      own : cmd.from ≡ c.sid → m.on_receive cmd c w ≡ on_receive cmd c w
      own q =
          subst
            (λ k.
              m.on_receive (record cmd { from = k }) c w ≡ on_receive (record cmd { from = k }) c w)
            (sym q) (same line cmd c w e le (inr q))

  on_line-other : (c : Client) (w : W) → on_line m c w ≡ on_line other c w
  unfolding on_line disconnect
  on_line-other c w =
      elim (Bool-cases
        (ltb 0 (m.max_command_size w) && ltb (m.max_command_size w) (length (kept c.buffer)))) [
          | inl t ↦ rw t refl
          | inr t ↦ rw t (
              ap (λ (q : Client × W). if length (kept c.buffer) == 1 then reset m (c, w) else q)
                (parsed (ground arith)))
        ]
    where
      parsed :
          (0 < m.max_command_size w → length (kept c.buffer) ≤ m.max_command_size w)
          → (elim (parse_buffer (kept c.buffer)) as (λ (x : Result AdcCommand). Client × W) [
            | ok cmd ↦ receive m cmd c w
            | err e ↦ reset m (m.on_bad_line (kept c.buffer) c w)
          ])
            ≡ (elim (parse_buffer (kept c.buffer)) as (λ (x : Result AdcCommand). Client × W) [
              | ok cmd ↦ receive other cmd c w
              | err e ↦ reset m (m.on_bad_line (kept c.buffer) c w)
            ])
      parsed le = elim (Result-cases (parse_buffer (kept c.buffer))) [
        | inl (cmd, e) ↦ rw e (receive-other (kept c.buffer) cmd c w e le)
        | inr (x, e) ↦ rw e refl
      ]

  on_data_loop-other :
      (fuel i : ℕ) (closed : Bool) (o : Option Bytes) (n : ℕ) (w : W) (s : Bytes)
      → on_data_loop m fuel (client i closed o n) w s
        ≡ on_data_loop other fuel (client i closed o n) w s
  unfolding on_data_loop read_data
  on_data_loop-other fuel i closed o n w [] = refl
  on_data_loop-other zero i closed o n w (b ∷ s) = refl
  on_data_loop-other (suc fuel) i true o n w (b ∷ s) = refl
  on_data_loop-other (suc fuel) i false o (suc n) w (b ∷ s) =
      let k = smaller (suc n) (length (b ∷ s)) in
      rw (on_data_loop, ltb-suc n)
        (on_data_loop-other fuel i false o (suc n - length (take k (b ∷ s)))
          (m.data_handler (take k (b ∷ s)) w) (drop k (b ∷ s)))
  on_data_loop-other (suc fuel) i false o zero w (b ∷ s) = elim (Option-cases (cut (b ∷ s))) [
    | inl e ↦ rw (on_data_loop, e) refl
    | inr (p, e) ↦
        rw (on_data_loop, e)
          (let next = on_line m (client i false (some (kept o ++ p.0)) 0) w in
            on_data_loop-other fuel next.0.sid next.0.disconnecting next.0.buffer next.0.data_bytes
              next.1 p.1
            ∙ ap (λ (q : Client × W). on_data_loop other fuel q.0 q.1 p.1)
                (on_line-other (client i false (some (kept o ++ p.0)) 0) w))
  ]

  -- A client manager that does the same as another with every command that `parse` reads from a line
  -- within the size limit and whose sender is the client leaves everything in the same state,
  -- whatever bytes arrive: `onData` passes on no command that is too long or has another sender.
  pub on_data-other : (c : Client) (w : W) (s : Bytes) → on_data m c w s ≡ on_data other c w s
  unfolding on_data
  on_data-other c w s =
      on_data_loop-other (length s) c.sid c.disconnecting c.buffer c.data_bytes w s
