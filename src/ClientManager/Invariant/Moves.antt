-- ===== src/ClientManager/Invariant/Moves.antt =====
-- The operations that move an entity on in its login or out of it, and keep the names.
use adchubd.Base.{
  ℕ, ◌≡◌, ◌≢◌, refl, sym, ◌∙◌, ap, subst, Bool, true, some, Bool-cases, inl, inr, ◌==◌, ==_iff,
}
use adchubd.Base.Dict.{nat_eq, bytes_eq}
use adchubd.Entity.Fields.{get_field}
use adchubd.Entity.{Entity, State}
use adchubd.ClientManager.{ClientManager, deref, hub_address}
use adchubd.ClientManager.Removal.{is_normal, is_client, set_state, remove_logins}
use adchubd.ClientManager.Removal.Removed.{find-put}
use adchubd.ClientManager.Leaving.{is_protocol}
use adchubd.ClientManager.Login.{enter_identify}
use adchubd.ClientManager.Tcp.{close_at}
use adchubd.ClientManager.Invariant.{
  SameId, Corr, somebody, forward, is_early, Kept, Kept-refl, Kept-trans,
}
use adchubd.ClientManager.Invariant.Quiet.{
  logs-Kept, if-Kept, close-Kept, at-Kept, send_inf-Kept, send_sup-Kept, send_sid-Kept,
}

not_normal : (s : State) → is_protocol s ≡ true → is_normal s ≢ true
not_normal State.protocol h n = cc
not_normal State.identify h n = cc
not_normal State.verify h n = cc
not_normal State.normal h n = cc
not_normal State.hbri h n = cc
not_normal State.transfer h n = cc

early_protocol : (s : State) → is_protocol s ≡ true → is_early s ≡ true
early_protocol State.protocol h = refl
early_protocol State.identify h = refl
early_protocol State.verify h = absurd (cc)
early_protocol State.normal h = absurd (cc)
early_protocol State.hbri h = absurd (cc)
early_protocol State.transfer h = absurd (cc)

-- A login that goes on to IDENTIFY, whatever was kept before.
set_identify-Kept :
    (a : ℕ) (e : Entity) (m n : ClientManager)
    → deref m a ≡ some e
    → is_protocol e.state ≡ true
    → Kept m n
    → Kept m (set_state a State.identify n)
unfolding set_state
set_identify-Kept a e m n at h k =
    let (f, at', s) = forward (k.heap a) at in
    rw (set_state, at')
      (record {
        entities = k.entities;
        nicks = k.nicks;
        cids = k.cids;
        heap = λ b. elim (Bool-cases (a == b)) [
          | inl t ↦
              let same' = (==_iff a b).0 t in
              rw (find-put a (record f { state = State.identify }) n b, t)
                (subst (λ o. Corr o (some (record f { state = State.identify })))
                  (sym at ∙ ap (deref m) same') (somebody (identified e f h s)))
          | inr t ↦ rw (find-put a (record f { state = State.identify }) n b, t) (k.heap b)
        ];
        closing = k.closing;
      })
  where
    identified :
        (e f : Entity)
        → is_protocol e.state ≡ true
        → SameId e f
        → SameId e (record f { state = State.identify })
    identified e f h s = record {
      kind = s.kind;
      sid = s.sid;
      cid = s.cid;
      nick = s.nick ∙ unfold get_field in refl;
      ghost = s.ghost;
      normal = λ n. absurd (not_normal e.state h n);
      early = λ n. early_protocol e.state h;
      protocol = λ n. h;
      ordered = s.ordered;
      fields = s.fields;
    }

pub enter_identify-Kept :
    (a : ℕ) (send_data : Bool) (m : ClientManager) (e : Entity)
    → deref m a ≡ some e
    → is_protocol e.state ≡ true
    → Kept m (enter_identify a send_data m)
unfolding enter_identify
enter_identify-Kept a send_data m e at h = set_identify-Kept a e m _ at h (
    if-Kept send_data
      (Kept-trans (send_sup-Kept a hub_address m)
        (Kept-trans (send_sid-Kept a _) (send_inf-Kept a hub_address _)))
      (Kept-refl m))

pub remove_logins-Kept : (a : ℕ) (e : Entity) (m : ClientManager) → Kept m (remove_logins a e m)
unfolding remove_logins
remove_logins-Kept a e m =
    if-Kept (is_client e.kind) (logs-Kept refl refl refl refl refl) (Kept-refl m)

pub close_at-Kept : (a reason : ℕ) (m : ClientManager) → Kept m (close_at a reason m)
unfolding close_at
close_at-Kept a reason m = at-Kept a _ λ e h. close-Kept a e reason m
