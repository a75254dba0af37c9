-- ===== src/ClientManager/Invariant/Receiving.antt =====
-- What a received command does to the names: the other handlers, the routing, and `onReceive`.
use adchubd.Base.{
  ℕ, ◌≡◌, refl, sym, ◌∙◌, subst, Bool, true, false, List, [], ◌∷◌, none, some, codes, Bool-cases,
  Option-cases, inl, inr, if◌then◌else◌, not, ◌||◌, ◌==◌,
}
use mathlib.Core.Option.{some-injective}
use adchubd.Base.Dict.{find, nat_eq, bytes_eq}
use adchubd.AdcCommand.{AdcCommand, to_four_cc}
use adchubd.AdcCommand.Params.{get_param}
use adchubd.Entity.{Entity}
use adchubd.Entity.Fields.{or_empty}
use adchubd.Entity.Flags.{flag_ghost}
use adchubd.Entity.Supports.{has_support, update_supports}
use adchubd.ClientManager.{ClientManager, deref}
use adchubd.ClientManager.Externals.{Externals}
use adchubd.ClientManager.Hbri.{Env, ◌>>=◌}
use adchubd.ClientManager.Removal.{put, is_normal}
use adchubd.ClientManager.Leaving.{at_state, is_protocol, disconnect}
use adchubd.ClientManager.Default.{handle_default}
use adchubd.ClientManager.Sup.{check_supports, verify_sup, handle_sup}
use adchubd.ClientManager.Inf.{handle_inf}
use adchubd.ClientManager.Invariant.{Inv, Kept, Kept-refl, Kept-trans}
use adchubd.ClientManager.Invariant.Names.{Kept-Inv, LiveClient}
use adchubd.ClientManager.Invariant.Entities.{update_supports-SameId, bind_some}
use adchubd.ClientManager.Invariant.Quiet.{put-Kept, disconnect_for-Kept}
use adchubd.ClientManager.Invariant.Moves.{enter_identify-Kept}
use adchubd.ClientManager.Invariant.Nicks.{Claims}
use adchubd.AdcCommand.Codes.{cmd_tcp}
use adchubd.Reason.{reason_invalid_command_type}
use adchubd.AdcCommand.Print.{to_string}
use adchubd.Entity.Info.{cmd_inf, cmd_sup}
use adchubd.Entity.Supports.{contains}
use adchubd.ClientManager.{get_entity}
use adchubd.ClientManager.Routing.{
  is_ignored, filtered_at, maybe_send, send_loop, send_if, echo, send,
}
use adchubd.ClientManager.Receive.{
  default_codes, is_routable, with_command, dispatch, route, on_receive,
}
use adchubd.ClientManager.Inf.{is_set_at}
use adchubd.ClientManager.Invariant.Quiet.{write-Kept}
use adchubd.ClientManager.Invariant.Inf.{bad_state-Kept, handle_inf-Inv}

check_supports-Kept : (a : ℕ) (e : Entity) (m : ClientManager) → Kept m ((check_supports a e m).0)
unfolding check_supports
check_supports-Kept a e m = elim (Bool-cases (has_support e (to_four_cc (codes "BASE")))) [
  | inr t ↦ rw (check_supports, t) (disconnect_for-Kept a _ _ _ _ _ m)
  | inl t ↦ elim (Bool-cases (has_support e (to_four_cc (codes "TIGR")))) [
    | inr u ↦ rw (check_supports, t, u) (disconnect_for-Kept a _ _ _ _ _ m)
    | inl u ↦ rw (check_supports, t, u) (Kept-refl m)
  ]
]

verify_sup-Kept : (a : ℕ) (cmd : AdcCommand) (m : ClientManager) → Kept m ((verify_sup a cmd m).0)
unfolding verify_sup
verify_sup-Kept a cmd m = elim (Option-cases (deref m a)) [
  | inl h ↦ rw (verify_sup, h) (Kept-refl m)
  | inr (e, h) ↦
      let f = update_supports e cmd in
      rw (verify_sup, h)
        (Kept-trans (put-Kept a e f m h (update_supports-SameId e cmd))
          (check_supports-Kept a f (put a f m)))
]

-- SUP may move a client from PROTOCOL to IDENTIFY; the names stay.
pub handle_sup-Kept :
    (a : ℕ) (cmd : AdcCommand) (m : ClientManager) → Kept m ((handle_sup a cmd m).0)
unfolding handle_sup at_state
handle_sup-Kept a cmd m =
    let k = verify_sup-Kept a cmd m in
    let n = (verify_sup a cmd m).0 in
    elim (Bool-cases (verify_sup a cmd m).1) [
      | inr t ↦ rw (handle_sup, t) k
      | inl t ↦ elim (Option-cases (deref n a)) [
        | inl u ↦ rw (handle_sup, t, at_state, u) (Kept-trans k (bad_state-Kept a cmd n))
        | inr (f, u) ↦ elim (Bool-cases (is_protocol f.state)) [
          | inl w ↦
              rw (handle_sup, t, at_state, u, w) (Kept-trans k (enter_identify-Kept a true n f u w))
          | inr w ↦ elim (Bool-cases (is_normal f.state)) [
            | inl z ↦ rw (handle_sup, t, at_state, u, w, z) k
            | inr z ↦ rw (handle_sup, t, at_state, u, w, z) (Kept-trans k (bad_state-Kept a cmd n))
          ]
        ]
      ]
    ]

handle_default-Kept :
    (a : ℕ) (cmd : AdcCommand) (m : ClientManager) → Kept m ((handle_default a cmd m).0)
unfolding handle_default
handle_default-Kept a cmd m = elim (Bool-cases (at_state is_normal m a)) [
  | inl t ↦ rw (handle_default, t) (Kept-refl m)
  | inr t ↦ rw (handle_default, t) (bad_state-Kept a cmd m)
]

module _ {ℓ} {P : Type ℓ} (signal_send : ℕ → AdcCommand → ClientManager → P → P × Bool) where
  if-Kept_fst :
      {m : ClientManager} (p q : ClientManager × P) (t : Bool)
      → Kept m p.0
      → Kept m q.0
      → Kept m ((if t then p else q).0)
  if-Kept_fst p q true h k = h
  if-Kept_fst p q false h k = k

  maybe_send-Kept :
      (a : ℕ) (cmd : AdcCommand) (s : ClientManager × P)
      → Kept s.0 ((maybe_send signal_send a cmd s).0)
  unfolding maybe_send
  maybe_send-Kept a cmd s =
      if-Kept_fst _ _ (signal_send a cmd s.0 s.1).1 (write-Kept s.0 a (to_string cmd))
        (Kept-refl s.0)

  send_loop-Kept :
      (all : Bool) (cmd : AdcCommand) (es : List (ℕ × ℕ)) (s : ClientManager × P)
      → Kept s.0 ((send_loop signal_send all cmd es s).0)
  unfolding send_loop
  send_loop-Kept all cmd [] s = Kept-refl s.0
  send_loop-Kept all cmd ((sid, a) ∷ es) s =
      Kept-trans
        (if-Kept_fst _ _ (all || not (filtered_at s.0 cmd.features a)) (maybe_send-Kept a cmd s)
          (Kept-refl s.0))
        (send_loop-Kept all cmd es _)

  echo-Kept : (cmd : AdcCommand) (s : ClientManager × P) → Kept s.0 ((echo signal_send cmd s).0)
  unfolding echo send_if
  echo-Kept cmd s = elim (Bool-cases (cmd.type == b'E')) [
    | inr t ↦ rw (echo, t) (Kept-refl s.0)
    | inl t ↦ elim (Option-cases (get_entity s.0 cmd.from)) [
      | inl n ↦ rw (echo, t, n) (Kept-refl s.0)
      | inr (a, n) ↦ rw (echo, t, n) (maybe_send-Kept a cmd s)
    ]
  ]

  pub send-Kept : (cmd : AdcCommand) (s : ClientManager × P) → Kept s.0 ((send signal_send cmd s).0)
  unfolding send
  send-Kept cmd s = if-Kept_fst _ _ (is_ignored cmd.priority) (Kept-refl s.0) (
      if-Kept_fst _ _ (cmd.type == b'B') (send_loop-Kept true cmd s.0.entities s) (
        if-Kept_fst _ _ (cmd.type == b'F') (send_loop-Kept false cmd s.0.entities s) (
          if-Kept_fst _ _ (cmd.type == b'D' || cmd.type == b'E')
            (elim (Option-cases (get_entity s.0 cmd.to)) [
              | inl n ↦ rw n (Kept-refl s.0)
              | inr (a, n) ↦ rw n (
                  Kept-trans (maybe_send-Kept a cmd s)
                    (echo-Kept cmd (maybe_send signal_send a cmd s)))
            ])
            (Kept-refl s.0))))

-- A command that is none of TCP, and whose last nick, in an INF, is the first one and not empty.
abbrev pub Admissible : AdcCommand → Type 0
Admissible c =
    ((c.cmd_int == cmd_tcp) ≡ false)
    × ((c.cmd_int == cmd_inf) ≡ true → Claims (or_empty (get_param c (codes "NI") 0)) c)

module _ (x : Externals) (env : Env) where
  dispatch-Inv :
      (a : ℕ) (cmd : AdcCommand) (m : ClientManager) (e : Entity)
      (r : ClientManager × AdcCommand × Bool)
      → LiveClient m a e
      → find a m.closing ≡ none
      → Admissible cmd
      → Inv none m
      → dispatch x env a cmd m ≡ some r
      → Inv none r.0
  unfolding dispatch with_command
  dispatch-Inv a cmd m e r l open' ok v h =
      let finish : (z : ClientManager × AdcCommand × Bool)
          → Kept m z.0
          → dispatch x env a cmd m ≡ some z
          → Inv none r.0 =
        λ z k q. subst (λ y. Inv none y.0) (some-injective _ _ (sym q ∙ h)) (Kept-Inv k v) in
      elim (Bool-cases (cmd.cmd_int == cmd_sup)) [
        | inl t ↦
            finish (with_command cmd (handle_sup a cmd m)) (handle_sup-Kept a cmd m)
              (rw (dispatch, t) refl)
        | inr t ↦ elim (Bool-cases (cmd.cmd_int == cmd_inf)) [
          | inl u ↦
              let q : dispatch x env a cmd m ≡ handle_inf x env a cmd m =
                rw (dispatch, t, u) refl in
              handle_inf-Inv x env a cmd m e r l open' (ok.1 u) v (sym q ∙ h)
          | inr u ↦ elim (Bool-cases (contains cmd.cmd_int default_codes)) [
            | inl w ↦
                finish (with_command cmd (handle_default a cmd m)) (handle_default-Kept a cmd m)
                  (rw (dispatch, t, u, ok.0, w) refl)
            | inr w ↦ finish (m, cmd, true) (Kept-refl m) (rw (dispatch, t, u, ok.0, w) refl)
          ]
        ]
      ]

  module _ {ℓ} {P : Type ℓ}
      (signal_receive : ℕ → AdcCommand → ClientManager → P → P × AdcCommand × Bool)
      (signal_send : ℕ → AdcCommand → ClientManager → P → P × Bool) where
    route-Kept :
        (p : P) (r : ClientManager × AdcCommand × Bool)
        → Kept r.0 ((route x signal_receive signal_send p r).0)
    unfolding route
    route-Kept p r =
        if-Kept_fst signal_send _ _ r.2 (send-Kept signal_send r.1 (r.0, p)) (Kept-refl r.0)

    -- Whatever the plugins answer, a received command keeps the invariant, if they leave an
    -- admissible one.
    pub on_receive-Inv :
        (a : ℕ) (cmd : AdcCommand) (s t : ClientManager × P) (e : Entity)
        → LiveClient s.0 a e
        → find a s.0.closing ≡ none
        → Admissible (signal_receive a cmd s.0 s.1).1
        → Inv none s.0
        → on_receive x signal_receive signal_send env a cmd s ≡ some t
        → Inv none t.0
    unfolding on_receive is_set_at
    on_receive-Inv a cmd s t e l open' ok v h =
        let answer = signal_receive a cmd s.0 s.1 in
        let g : is_set_at s.0 a flag_ghost ≡ false = rw (is_set_at, l.0) l.1 in
        elim (Bool-cases (is_routable cmd.type)) [
          | inr u ↦
              let m' =
                disconnect a reason_invalid_command_type (codes "Invalid command type") s.0 in
              let q : on_receive x signal_receive signal_send env a cmd s ≡ some (m', s.1) =
                rw (on_receive, g, u) refl in
              subst (λ y. Inv none y.0) (some-injective _ _ (sym q ∙ h))
                (Kept-Inv (disconnect_for-Kept a _ _ _ _ _ s.0) v)
          | inl u ↦ elim (Bool-cases answer.2) [
            | inr w ↦
                let z : ClientManager × AdcCommand × Bool = (s.0, answer.1, true) in
                let q : on_receive x signal_receive signal_send env a cmd s
                    ≡ some (route x signal_receive signal_send answer.0 z) =
                  rw (on_receive, g, u, w) refl in
                subst (λ y. Inv none y.0) (some-injective _ _ (sym q ∙ h))
                  (Kept-Inv (route-Kept answer.0 z) v)
            | inl w ↦
                let q : on_receive x signal_receive signal_send env a cmd s ≡ (
                    dispatch x env a answer.1 s.0 >>= λ r.
                    some (route x signal_receive signal_send answer.0 r)) =
                  rw (on_receive, g, u, w) refl in
                let (r, first, last) = bind_some (dispatch x env a answer.1 s.0) _ t (sym q ∙ h) in
                subst (λ y. Inv none y.0) (some-injective _ _ last)
                  (Kept-Inv (route-Kept answer.0 r)
                    (dispatch-Inv a answer.1 s.0 e r l open' ok v first))
          ]
        ]
