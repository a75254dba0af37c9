-- ===== src/ClientManager/Routing/Delivered.antt =====
-- adchpp/ClientManager.cpp: whom `send` writes a command to.
use adchubd.Base.{
  ℕ, ◌≡◌, refl, ◌∙◌, ap, Bool, true, false, not, List, [], ◌∷◌, Option, none, some, Bytes, ◌==◌,
  if◌then◌else◌, arith, inl, inr, Bool-cases,
}
use adchubd.AdcCommand.{AdcCommand}
use adchubd.AdcCommand.Print.{to_string}
use adchubd.ClientManager.{ClientManager, get_entity}
use adchubd.ClientManager.Routing.{
  is_ignored, write, filtered_at, maybe_send, send_loop, send_if, echo, send,
}
use adchubd.Base.Dict.{nat_eq}

-- The entities of the list that a test holds of.
unfoldable pub chosen : (ℕ → Bool) → List (ℕ × ℕ) → List ℕ
chosen f [] = []
chosen f ((sid, a) ∷ es) = if f a then a ∷ chosen f es else chosen f es

abbrev pub one : Option ℕ → List ℕ
one none = []
one (some a) = a ∷ []

-- Whom a command is for: everybody, those with the features, the addressee, or the addressee and
-- then the sender.
unfoldable pub targets : AdcCommand → ClientManager → List ℕ
targets cmd m =
    let to = one (get_entity m cmd.to) in
    if is_ignored cmd.priority
    then []
    else if cmd.type == b'B'
    then chosen (λ a. true) m.entities
    else if cmd.type == b'F'
    then chosen (λ a. not (filtered_at m cmd.features a)) m.entities
    else if cmd.type == b'D'
    then to
    else if cmd.type == b'E'
    then elim to [ [] ↦ [] | a ∷ xs ↦ a ∷ one (get_entity m cmd.from) ]
    else []

-- A list without some of its elements.
pub data Part : List ℕ → List ℕ → Type 0 where
  empty : Part [] []
  keep : {xs bs : List ℕ} (a : ℕ) → Part xs bs → Part (a ∷ xs) (a ∷ bs)
  skip : {xs bs : List ℕ} (a : ℕ) → Part xs bs → Part xs (a ∷ bs)

-- A copy of the line for each address, behind what was written before.
unfoldable pub deliver : List ℕ → Bytes → ClientManager → ClientManager
deliver [] line m = m
deliver (a ∷ xs) line m = deliver xs line (write m a line)

module _ {ℓ} {P : Type ℓ} (signal_send : ℕ → AdcCommand → ClientManager → P → P × Bool) where
  offer : AdcCommand → List ℕ → ClientManager × P → ClientManager × P
  offer cmd [] s = s
  offer cmd (a ∷ xs) s = offer cmd xs (maybe_send signal_send a cmd s)

  offer_empty : (cmd : AdcCommand) (s : ClientManager × P) → s ≡ offer cmd [] s
  unfolding offer
  offer_empty cmd s = refl

  maybe_send_passed :
      (a : ℕ) (cmd : AdcCommand) (s : ClientManager × P)
      → (signal_send a cmd s.0 s.1).1 ≡ true
      → (maybe_send signal_send a cmd s).0 ≡ write (s.0) a (to_string cmd)
  unfolding maybe_send
  maybe_send_passed a cmd s t = rw t refl

  maybe_send_stopped :
      (a : ℕ) (cmd : AdcCommand) (s : ClientManager × P)
      → (signal_send a cmd s.0 s.1).1 ≡ false
      → (maybe_send signal_send a cmd s).0 ≡ s.0
  unfolding maybe_send
  maybe_send_stopped a cmd s t = rw t refl

  offer-Part :
      (cmd : AdcCommand) (bs : List ℕ) (s : ClientManager × P)
      → (xs : List ℕ) × Part xs bs × ((offer cmd bs s).0 ≡ deliver xs (to_string cmd) (s.0))
  unfolding offer deliver
  offer-Part cmd [] s = ([], empty, refl)
  offer-Part cmd (b ∷ bs) s = elim (Bool-cases ((signal_send b cmd s.0 s.1).1)) [
    | inl t ↦
        let (xs, part, e) = offer-Part cmd bs (maybe_send signal_send b cmd s) in
        (b ∷ xs, keep b part, e ∙ ap (deliver xs (to_string cmd)) (maybe_send_passed b cmd s t))
    | inr t ↦
        let (xs, part, e) = offer-Part cmd bs (maybe_send signal_send b cmd s) in
        (xs, skip b part, e ∙ ap (deliver xs (to_string cmd)) (maybe_send_stopped b cmd s t))
  ]

  offer_all :
      ((a : ℕ) (c : AdcCommand) (m : ClientManager) (p : P) → (signal_send a c m p).1 ≡ true)
      → (cmd : AdcCommand) (bs : List ℕ) (s : ClientManager × P)
      → (offer cmd bs s).0 ≡ deliver bs (to_string cmd) (s.0)
  unfolding offer deliver
  offer_all pass cmd [] s = refl
  offer_all pass cmd (b ∷ bs) s =
      offer_all pass cmd bs (maybe_send signal_send b cmd s)
      ∙ ap (deliver bs (to_string cmd)) (maybe_send_passed b cmd s (pass b cmd (s.0) (s.1)))

  maybe_send-filtered_at :
      (a : ℕ) (cmd : AdcCommand) (s : ClientManager × P) (features : Bytes) (b : ℕ)
      → filtered_at ((maybe_send signal_send a cmd s).0) features b ≡ filtered_at (s.0) features b
  unfolding maybe_send filtered_at
  maybe_send-filtered_at a cmd s features b = elim (Bool-cases ((signal_send a cmd s.0 s.1).1)) [
    | inl t ↦ rw t refl
    | inr t ↦ rw t refl
  ]

  send_loop-offer :
      (cmd : AdcCommand) (es : List (ℕ × ℕ)) (m : ClientManager) (s : ClientManager × P)
      → ((b : ℕ) → filtered_at (s.0) cmd.features b ≡ filtered_at m cmd.features b)
      → send_loop signal_send false cmd es s
        ≡ offer cmd (chosen (λ a. not (filtered_at m cmd.features a)) es) s
  unfolding send_loop chosen offer
  send_loop-offer cmd [] m s h = refl
  send_loop-offer cmd ((sid, a) ∷ es) m s h = elim (Bool-cases (filtered_at m cmd.features a)) [
    | inl t ↦ rw (h a, t) (send_loop-offer cmd es m s h)
    | inr t ↦
        rw (h a, t)
          (send_loop-offer cmd es m (maybe_send signal_send a cmd s)
            (λ b. maybe_send-filtered_at a cmd s cmd.features b ∙ h b))
  ]

  send_loop-offer_all :
      (cmd : AdcCommand) (es : List (ℕ × ℕ)) (s : ClientManager × P)
      → send_loop signal_send true cmd es s ≡ offer cmd (chosen (λ a. true) es) s
  unfolding send_loop chosen offer
  send_loop-offer_all cmd [] s = refl
  send_loop-offer_all cmd ((sid, a) ∷ es) s =
      send_loop-offer_all cmd es (maybe_send signal_send a cmd s)

  maybe_send-get_entity :
      (a : ℕ) (cmd : AdcCommand) (s : ClientManager × P) (sid : ℕ)
      → get_entity ((maybe_send signal_send a cmd s).0) sid ≡ get_entity (s.0) sid
  unfolding maybe_send get_entity
  maybe_send-get_entity a cmd s sid = elim (Bool-cases ((signal_send a cmd s.0 s.1).1)) [
    | inl t ↦ rw t refl
    | inr t ↦ rw t refl
  ]

  send_if-offer :
      (o : Option ℕ) (cmd : AdcCommand) (s : ClientManager × P)
      → send_if signal_send o cmd s ≡ offer cmd (one o) s
  unfolding send_if offer
  send_if-offer none cmd s = refl
  send_if-offer (some a) cmd s = refl

  -- An echo goes to the addressee, if there is one, and then to the sender.
  echoed :
      (o : Option ℕ) (cmd : AdcCommand) (s : ClientManager × P)
      → (cmd.type == b'E') ≡ true
      → (elim o as (λ (x : Option ℕ). ClientManager × P) [
        | none ↦ s
        | some a ↦ echo signal_send cmd (maybe_send signal_send a cmd s)
      ])
        ≡ offer cmd
            (elim (one o) as (λ (x : List ℕ). List ℕ) [
              | [] ↦ []
              | a ∷ xs ↦ a ∷ one (get_entity (s.0) cmd.from)
            ])
            s
  unfolding echo offer
  echoed none cmd s t = refl
  echoed (some a) cmd s t =
      rw (t, maybe_send-get_entity a cmd s cmd.from)
        (send_if-offer (get_entity (s.0) cmd.from) cmd (maybe_send signal_send a cmd s))

  directed :
      (o : Option ℕ) (cmd : AdcCommand) (s : ClientManager × P)
      → (cmd.type == b'E') ≡ false
      → (elim o as (λ (x : Option ℕ). ClientManager × P) [
        | none ↦ s
        | some a ↦ echo signal_send cmd (maybe_send signal_send a cmd s)
      ])
        ≡ offer cmd (one o) s
  unfolding echo offer
  directed none cmd s t = refl
  directed (some a) cmd s t = rw t refl

  send-offer :
      (cmd : AdcCommand) (s : ClientManager × P)
      → send signal_send cmd s ≡ offer cmd (targets cmd (s.0)) s
  unfolding send targets
  send-offer cmd s = elim (Bool-cases (is_ignored cmd.priority)) [
    | inl i ↦ rw i offer_nil
    | inr i ↦ elim (Bool-cases (cmd.type == b'B')) [
      | inl b ↦ rw (i, b) (send_loop-offer_all cmd s.0.entities s)
      | inr b ↦ elim (Bool-cases (cmd.type == b'F')) [
        | inl f ↦ rw (i, b, f) (send_loop-offer cmd s.0.entities (s.0) s (λ a. refl))
        | inr f ↦ elim (Bool-cases (cmd.type == b'D')) [
          | inl d ↦ rw (i, b, f, d) (directed (get_entity (s.0) cmd.to) cmd s (ground arith))
          | inr d ↦ elim (Bool-cases (cmd.type == b'E')) [
            | inl e ↦ rw (i, b, f, d, e) (echoed (get_entity (s.0) cmd.to) cmd s e)
            | inr e ↦ rw (i, b, f, d, e) offer_nil
          ]
        ]
      ]
    ]
  ]
    where
      offer_nil : s ≡ offer cmd [] s
      offer_nil = offer_empty cmd s

  -- Whatever the plugins answer, `send` changes nothing but the log of what was written, to which it
  -- adds one copy of the command for each of some of its targets, in their order.
  pub send-Part :
      (cmd : AdcCommand) (s : ClientManager × P)
      → (xs : List ℕ) × Part xs (targets cmd (s.0))
        × ((send signal_send cmd s).0 ≡ deliver xs (to_string cmd) (s.0))
  send-Part cmd s = rw (send-offer cmd s) (offer-Part cmd (targets cmd (s.0)) s)

  -- If the plugins let every command pass, then `send` adds one copy for each target, in their order.
  pub send-targets :
      ((a : ℕ) (c : AdcCommand) (m : ClientManager) (p : P) → (signal_send a c m p).1 ≡ true)
      → (cmd : AdcCommand) (s : ClientManager × P)
      → (send signal_send cmd s).0 ≡ deliver (targets cmd (s.0)) (to_string cmd) (s.0)
  send-targets pass cmd s = rw (send-offer cmd s) (offer_all pass cmd (targets cmd (s.0)) s)
