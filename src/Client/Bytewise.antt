-- ===== src/Client/Bytewise.antt =====
-- adchpp/Client.cpp: `onData` against a reader of single bytes.
use adchubd.Base.{
  ℕ, zero, suc, ◌-◌, ◌≤◌, ◌<◌, ◌≡◌, ◌≢◌, refl, sym, ◌∙◌, ap, ap₂, Bool, true, false, List, [], ◌∷◌,
  ◌++◌, Option, none, some, Bytes, ◌==◌, ltb, if◌then◌else◌, length, take, drop, arith, ◌⊎◌, inl,
  inr, Bool-cases, Option-cases, append_assoc, length-take-le, length-drop, append-take-drop,
}
use adchubd.Client.{
  Client, Calls, cut, kept, append, on_line, read_data, smaller, on_data_loop, on_data,
}

abbrev pub client : ℕ → Bool → Option Bytes → ℕ → Client
client i closed o n = record { sid = i; disconnecting = closed; buffer = o; data_bytes = n }

cut-none : (b : ℕ) (s : Bytes) → cut (b ∷ s) ≡ none → ((b == b'\n') ≡ false) × (cut s ≡ none)
unfolding cut
cut-none b s e = ground arith

cut_nil : {p : Bytes × Bytes} → cut [] ≢ some p
unfolding cut
cut_nil e = cc

cut-some :
    (b : ℕ) (s : Bytes) {x y : Bytes}
    → cut (b ∷ s) ≡ some (x, y)
    → (((b == b'\n') ≡ true) × (x ≡ b ∷ []) × (y ≡ s))
      ⊎ (((b == b'\n') ≡ false) × (x' : Bytes) × (x ≡ b ∷ x') × (cut s ≡ some (x', y)))
unfolding cut
cut-some b s e = elim (Bool-cases (b == b'\n')) [
  | inl t ↦ inl (t, ground arith, ground arith)
  | inr t ↦ elim (Option-cases (cut s)) [
    | inl n ↦ absurd (ground arith)
    | inr (p, q) ↦ inr (t, p.0, ground arith, ground arith)
  ]
]

length-cut : (s : Bytes) {x y : Bytes} → cut s ≡ some (x, y) → length y < length s
length-cut [] e = absurd (cut_nil e)
length-cut (b ∷ s) e = elim (cut-some b s e) [
  | inl (t, ex, ey) ↦ rw ey (omega arith)
  | inr (t, x', ex, e') ↦ omega (arith, length-cut s e')
]

smaller-suc : (n k : ℕ) → smaller (suc n) (suc k) ≡ suc (smaller n k)
unfolding smaller
smaller-suc n k = ground arith

pub ltb-suc : (n : ℕ) → ltb 0 (suc n) ≡ true
ltb-suc n = ground arith

monus_suc : (n k : ℕ) → suc n - suc k ≡ n - k
monus_suc n k = omega arith

smaller_le : (n k : ℕ) → smaller n k ≤ n
unfolding smaller
smaller_le n k = ground arith

module _ {ℓ} {W : Type ℓ} (m : Calls W) where
  -- One byte: to the data handler while it is owed bytes, else to the line that is read.
  unfoldable pub feed : Client → W → ℕ → Client × W
  feed c w b = elim c.disconnecting [
    | true ↦ (c, w)
    | false ↦ elim (ltb 0 c.data_bytes) [
      | true ↦ read_data m (b ∷ []) c w
      | false ↦ if b == b'\n' then on_line m (append c (b ∷ [])) w else (append c (b ∷ []), w)
    ]
  ]

  unfoldable pub feed_all : Client → W → Bytes → Client × W
  feed_all c w [] = (c, w)
  feed_all c w (b ∷ s) = let next = feed c w b in feed_all next.0 next.1 s

  feed_all-append :
      (x y : Bytes) (c : Client) (w : W)
      → feed_all c w (x ++ y) ≡ feed_all ((feed_all c w x).0) ((feed_all c w x).1) y
  unfolding feed_all
  feed_all-append [] y c w = refl
  feed_all-append (b ∷ x) y c w = feed_all-append x y ((feed c w b).0) ((feed c w b).1)

  feed_all_closed :
      (s : Bytes) (i : ℕ) (o : Option Bytes) (n : ℕ) (w : W)
      → feed_all (client i true o n) w s ≡ (client i true o n, w)
  unfolding feed_all feed
  feed_all_closed [] i o n w = refl
  feed_all_closed (b ∷ s) i o n w = feed_all_closed s i o n w

  -- Bytes of the data mode, read one by one or together.
  feed_all_data :
      ((x y : Bytes) (w : W) → m.data_handler (x ++ y) w ≡ m.data_handler y (m.data_handler x w))
      → (s : Bytes) (b i : ℕ) (o : Option Bytes) (n : ℕ) (w : W) → length s ≤ n
      → feed_all (client i false o (suc n)) w (b ∷ s)
        ≡ (client i false o (n - length s), m.data_handler (b ∷ s) w)
  unfolding feed_all feed read_data
  feed_all_data split [] b i o n w le = ground arith
  feed_all_data split (a ∷ s) b i o zero w le = absurd (omega arith)
  feed_all_data split (a ∷ s) b i o (suc n) w le = ground (
    arith,
    split (b ∷ []) (a ∷ s) w,
    feed_all_data split s a i o n (m.data_handler (b ∷ []) w) (omega arith),
  )

  -- Bytes without a line feed.
  feed_all_part :
      (s : Bytes) (b i : ℕ) (o : Option Bytes) (w : W)
      → cut (b ∷ s) ≡ none
      → feed_all (client i false o 0) w (b ∷ s) ≡ (client i false (some (kept o ++ b ∷ s)) 0, w)
  unfolding feed_all feed
  feed_all_part [] b i o w e = rw ((cut-none b [] e).0) refl
  feed_all_part (a ∷ s) b i o w e = rw ((cut-none b (a ∷ s) e).0) (
      feed_all_part s a i (some (kept o ++ b ∷ [])) w ((cut-none b (a ∷ s) e).1)
      ∙ rw (append_assoc (kept o) (b ∷ []) (a ∷ s)) refl)

  -- Bytes with a line feed.
  feed_all_line :
      (s : Bytes) (b i : ℕ) (o : Option Bytes) (w : W) (x y : Bytes)
      → cut (b ∷ s) ≡ some (x, y)
      → feed_all (client i false o 0) w (b ∷ s) ≡ (
          let next = on_line m (client i false (some (kept o ++ x)) 0) w in
          feed_all next.0 next.1 y)
  unfolding feed_all feed
  feed_all_line [] b i o w x y e = elim (cut-some b [] e) [
    | inl (t, ex, ey) ↦ rw (t, ex, ey) refl
    | inr (t, x', ex, e') ↦ absurd (cut_nil e')
  ]
  feed_all_line (a ∷ s) b i o w x y e = elim (cut-some b (a ∷ s) e) [
    | inl (t, ex, ey) ↦ rw (t, ex, ey) refl
    | inr (t, x', ex, e') ↦
        rw (t, ex)
          (feed_all_line s a i (some (kept o ++ b ∷ [])) w x' y e'
            ∙ rw (append_assoc (kept o) (b ∷ []) x') refl)
  ]

  -- One round of the loop in the data mode.
  on_data_loop_data :
      (fuel i : ℕ) (o : Option Bytes) (n : ℕ) (w : W) (b : ℕ) (s : Bytes)
      → on_data_loop m (suc fuel) (client i false o (suc n)) w (b ∷ s) ≡ (
          let k = smaller n (length s) in
          on_data_loop m fuel
            (client i false o (n - length (take k s)))
            (m.data_handler (b ∷ take k s) w)
            (drop k s))
  unfolding on_data_loop read_data
  on_data_loop_data fuel i o n w b s =
      rw
        (
          on_data_loop,
          ltb-suc n,
          smaller-suc n (length s),
          monus_suc n (length (take (smaller n (length s)) s)),
        )
        refl

  -- The loop with enough fuel is the reader of single bytes.
  on_data_loop_lem :
      ((x y : Bytes) (w : W) → m.data_handler (x ++ y) w ≡ m.data_handler y (m.data_handler x w))
      → (fuel : ℕ) (i : ℕ) (closed : Bool) (o : Option Bytes) (n : ℕ) (w : W) (s : Bytes)
      → length s ≤ fuel
      → on_data_loop m fuel (client i closed o n) w s ≡ feed_all (client i closed o n) w s
  unfolding on_data_loop feed_all
  on_data_loop_lem split fuel i closed o n w [] le = refl
  on_data_loop_lem split zero i closed o n w (b ∷ s) le = absurd (omega arith)
  on_data_loop_lem split (suc fuel) i true o n w (b ∷ s) le = sym (feed_all_closed (b ∷ s) i o n w)
  on_data_loop_lem split (suc fuel) i false o (suc n) w (b ∷ s) le =
      let k = smaller n (length s) in
      let le' : length (take k s) ≤ n =
        omega (arith, length-take-le k s, smaller_le n (length s)) in
      on_data_loop_data fuel i o n w b s
      ∙ on_data_loop_lem split fuel i false o (n - length (take k s))
          (m.data_handler (b ∷ take k s) w) (drop k s) (omega (arith, length-drop k s, le))
      ∙ sym (
          ap₂ (λ c w. feed_all c w (drop k s))
            (ap (λ q. q.0) (feed_all_data split (take k s) b i o n w le'))
            (ap (λ q. q.1) (feed_all_data split (take k s) b i o n w le')))
      ∙ sym (feed_all-append (b ∷ take k s) (drop k s) (client i false o (suc n)) w)
      ∙ ap (λ (t : Bytes). feed_all (client i false o (suc n)) w (b ∷ t)) (append-take-drop k s)
  on_data_loop_lem split (suc fuel) i false o zero w (b ∷ s) le =
      elim (Option-cases (cut (b ∷ s))) [
        | inl e ↦ rw (on_data_loop, e) (sym (feed_all_part s b i o w e))
        | inr (p, e) ↦
            rw (on_data_loop, e)
              ((let next = on_line m (client i false (some (kept o ++ p.0)) 0) w in
                  on_data_loop_lem split fuel next.0.sid next.0.disconnecting next.0.buffer
                    next.0.data_bytes next.1 p.1 (omega (arith, length-cut (b ∷ s) e, le)))
                ∙ sym (feed_all_line s b i o w p.0 p.1 e))
      ]

  -- `onData` on each of several buffers.
  unfoldable pub reads : Client → W → List Bytes → Client × W
  reads c w [] = (c, w)
  reads c w (buf ∷ bufs) = let next = on_data m c w buf in reads next.0 next.1 bufs

unfoldable pub joined : List Bytes → Bytes
joined [] = []
joined (buf ∷ bufs) = buf ++ joined bufs

module _ {ℓ} {W : Type ℓ} (m : Calls W)
    (split : (x y : Bytes) (w : W)
      → m.data_handler (x ++ y) w ≡ m.data_handler y (m.data_handler x w)) where
  on_data_lem : (c : Client) (w : W) (s : Bytes) → on_data m c w s ≡ feed_all m c w s
  unfolding on_data
  on_data_lem c w s =
      on_data_loop_lem m split (length s) c.sid c.disconnecting c.buffer c.data_bytes w s
        (omega arith)

  -- If the handler of the data mode does the same with a block of bytes as with its two parts one
  -- after the other, then reading any list of buffers leaves the client, and everything that it
  -- calls, in the state that reading their concatenation as one buffer does.
  pub reads-joined :
      (bufs : List Bytes) (c : Client) (w : W) → reads m c w bufs ≡ on_data m c w (joined bufs)
  unfolding reads joined feed_all
  reads-joined [] c w = sym (on_data_lem c w [])
  reads-joined (buf ∷ bufs) c w =
      reads-joined bufs ((on_data m c w buf).0) ((on_data m c w buf).1)
      ∙ on_data_lem ((on_data m c w buf).0) ((on_data m c w buf).1) (joined bufs)
      ∙ ap (λ (q : Client × W). feed_all m q.0 q.1 (joined bufs)) (on_data_lem c w buf)
      ∙ sym (feed_all-append m buf (joined bufs) c w)
      ∙ sym (on_data_lem c w (buf ++ joined bufs))
