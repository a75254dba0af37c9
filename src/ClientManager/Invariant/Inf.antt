-- ===== src/ClientManager/Invariant/Inf.antt =====
-- The handler of INF.
use adchubd.Base.{
  ℕ, ◌≡◌, ◌≢◌, refl, sym, ◌∙◌, ap₂, subst, Bool, true, false, [], Option, none, some, Bytes, codes,
  Bool-cases, Option-cases, inl, inr, ◌⊎◌, if◌then◌else◌, not, ◌&&◌,
}
use mathlib.Core.Option.{some-injective}
use adchubd.Base.Dict.{find, nat_eq, bytes_eq}
use adchubd.AdcCommand.{AdcCommand}
use adchubd.AdcCommand.Params.{get_param}
use adchubd.Entity.{Entity, State}
use adchubd.Entity.Fields.{or_empty}
use adchubd.ClientManager.{ClientManager, deref}
use adchubd.ClientManager.Externals.{Externals}
use adchubd.ClientManager.Hbri.{Env, ◌>>=◌}
use adchubd.ClientManager.Removal.{is_normal}
use adchubd.ClientManager.Leaving.{at_state, is_identify, is_protocol, bad_state}
use adchubd.ClientManager.Identity.{nick_at}
use adchubd.ClientManager.Inf.{check_inf, accept_inf, verify_inf, enter, handle_inf}
use adchubd.ClientManager.Invariant.{Inv, Kept, nick_of}
use adchubd.ClientManager.Invariant.Names.{Kept-Inv, LiveClient}
use adchubd.ClientManager.Invariant.Entities.{bind_some}
use adchubd.ClientManager.Invariant.Quiet.{disconnect_for-Kept}
use adchubd.ClientManager.Invariant.Nicks.{Claims}
use adchubd.ClientManager.Invariant.Checking.{IsFree, check_inf-Checks}
use adchubd.ClientManager.Invariant.Entering.{Checked, entering-Inv}

pub bad_state-Kept : (a : ℕ) (cmd : AdcCommand) (m : ClientManager) → Kept m (bad_state a cmd m)
unfolding bad_state
bad_state-Kept a cmd m = disconnect_for-Kept a _ _ _ _ _ m

waits_in : (s : State) → (not (is_identify s) && not (is_normal s)) ≡ false → is_protocol s ≢ true
waits_in State.protocol h z = cc
waits_in State.identify h z = cc
waits_in State.verify h z = cc
waits_in State.normal h z = cc
waits_in State.hbri h z = cc
waits_in State.transfer h z = cc

waits :
    (a : ℕ) (m : ClientManager) (e : Entity)
    → deref m a ≡ some e
    → (not (at_state is_identify m a) && not (at_state is_normal m a)) ≡ false
    → is_protocol e.state ≢ true
unfolding at_state
waits a m e at t =
    let i : at_state is_identify m a ≡ is_identify e.state = rw (at_state, at) refl in
    let n : at_state is_normal m a ≡ is_normal e.state = rw (at_state, at) refl in
    waits_in e.state (ap₂ (λ p q. not p && not q) (sym i) (sym n) ∙ t)

-- No nick at all is nobody's.
free_claim :
    {b : Option ℕ} (a : ℕ) (m : ClientManager) (e : Entity) (o : Option Bytes)
    → deref m a ≡ some e
    → Inv b m
    → IsFree a o m
    → (nick_of e ≡ or_empty o) ⊎ (find (or_empty o) m.nicks ≡ none)
unfolding nick_at
free_claim a m e none at v free = elim (Option-cases (find [] m.nicks)) [
  | inl n ↦ inr n
  | inr (c, n) ↦ let (f, at', fresh, p) = v.named [] c n in absurd (p.2 refl)
]
free_claim a m e (some nick) at v free = elim free [
  | inr n ↦ inr n
  | inl q ↦ let here : nick_at m a ≡ nick_of e = rw (nick_at, at) refl in inl (sym here ∙ q)
]

module _ (x : Externals) (env : Env) where
  after_verify :
      (a : ℕ) (cmd : AdcCommand) (m : ClientManager) (e : Entity)
      (p : ClientManager × AdcCommand × Bool)
      → LiveClient m a e
      → find a m.closing ≡ none
      → is_protocol e.state ≢ true
      → Claims (or_empty (get_param cmd (codes "NI") 0)) cmd
      → Inv none m
      → verify_inf x env a cmd m ≡ some p
      → Inv none ((if p.2 then enter x env a p.1 p.0 else p).0)
  unfolding verify_inf
  after_verify a cmd m e p l open' np claims v h =
      let k = check_inf-Checks x a cmd m in
      let o = (check_inf x a cmd m).0 in
      let nick = or_empty (get_param cmd (codes "NI") 0) in
      let stop : some (o.manager, o.command, false) ≡ some p
          → Inv none ((if p.2 then enter x env a p.1 p.0 else p).0) =
        λ q.
          subst (λ z. Inv none ((if z.2 then enter x env a z.1 z.0 else z).0))
            (some-injective _ _ q) (Kept-Inv k.0 v) in
      elim (Option-cases (check_inf x a cmd m).1) [
        | inl n ↦
            let q : verify_inf x env a cmd m ≡ some (o.manager, o.command, false) =
              rw (verify_inf, n) refl in
            stop (sym q ∙ h)
        | inr (cid, n) ↦ elim (Bool-cases o.is_ok) [
          | inr t ↦
              let q : verify_inf x env a cmd m ≡ some (o.manager, o.command, false) =
                rw (verify_inf, n, t) refl in
              stop (sym q ∙ h)
          | inl t ↦
              let q : verify_inf x env a cmd m ≡ (
                  accept_inf env a o.command cid nick o.secondary o.manager >>= λ z.
                  some (z, o.command, true)) =
                rw (verify_inf, n, t) refl in
              let (z, first, last) =
                bind_some (accept_inf env a o.command cid nick o.secondary o.manager) _ p
                  (sym q ∙ h) in
              let (same', keep, free) = k.1 cid n t in
              let ok : Checked a e nick o.command o.manager =
                subst (λ y. Checked a e nick o.command y) (sym same')
                  (record {
                    live = l;
                    reading = open';
                    claims = λ old. keep old ∙ claims old;
                    free = free_claim a m e (get_param cmd (codes "NI") 0) l.0 v free;
                    inv = v;
                  }) in
              subst (λ z. Inv none ((if z.2 then enter x env a z.1 z.0 else z).0))
                (some-injective _ _ last)
                (entering-Inv x env a o.command cid nick o.secondary o.manager z e np ok first)
        ]
      ]

  -- INF keeps the invariant, if the last nick among its parameters is the first one, and not empty:
  -- that one is checked, and that one is kept.
  pub handle_inf-Inv :
      (a : ℕ) (cmd : AdcCommand) (m : ClientManager) (e : Entity)
      (r : ClientManager × AdcCommand × Bool)
      → LiveClient m a e
      → find a m.closing ≡ none
      → Claims (or_empty (get_param cmd (codes "NI") 0)) cmd
      → Inv none m
      → handle_inf x env a cmd m ≡ some r
      → Inv none r.0
  unfolding handle_inf verify_inf
  handle_inf-Inv a cmd m e r l open' claims v h =
      elim (Bool-cases (not (at_state is_identify m a) && not (at_state is_normal m a))) [
        | inl t ↦
            let q : handle_inf x env a cmd m ≡ some (bad_state a cmd m, cmd, false) =
              rw (handle_inf, t) refl in
            subst (λ z. Inv none z.0) (some-injective _ _ (sym q ∙ h))
              (Kept-Inv (bad_state-Kept a cmd m) v)
        | inr t ↦
            let q : handle_inf x env a cmd m ≡ (
                verify_inf x env a cmd m >>= λ p. some (if p.2 then enter x env a p.1 p.0 else p)) =
              rw (handle_inf, t) refl in
            let (p, first, last) = bind_some (verify_inf x env a cmd m) _ r (sym q ∙ h) in
            subst (λ z. Inv none z.0) (some-injective _ _ last)
              (after_verify a cmd m e p l open' (waits a m e l.0 t) claims v first)
      ]
