-- ===== src/ClientManager/Invariant/Accept.antt =====
-- The end of an INF that is accepted: `enterNormal`, and all that follows the checks.
use adchubd.Base.{
  ℕ, ◌≡◌, refl, sym, ◌∙◌, ap, subst, Bool, true, false, Option, some, codes, Bool-cases, inl, inr,
  if◌then◌else◌, not, ◌&&◌, ==_refl,
}
use mathlib.Core.Option.{some-injective}
use adchubd.Base.Dict.{find, nat_eq, bytes_eq}
use adchubd.AdcCommand.{AdcCommand}
use adchubd.Entity.{Entity, State}
use adchubd.Entity.Flags.{set_flag, flag_validate_hbri}
use adchubd.ClientManager.{ClientManager, deref}
use adchubd.ClientManager.Removal.{is_normal, is_client, set_state, remove_logins}
use adchubd.ClientManager.Removal.Removed.{find-put, remove_logins-SameNames}
use adchubd.ClientManager.Leaving.{at_state, is_hbri}
use adchubd.ClientManager.Hbri.{Env, send_hbri, ask, await, strip_protocol_supports}
use adchubd.ClientManager.Login.{send_infs, admit, complete, awaits, drop_flag, enter_normal}
use adchubd.ClientManager.Inf.{ask_later, finish_client, is_set_at, has_param}
use adchubd.ClientManager.Invariant.{Inv, SameId, Kept, Kept-refl, Kept-trans, is_early, forward}
use adchubd.ClientManager.Invariant.Names.{Kept-Inv, LiveClient}
use adchubd.ClientManager.Invariant.Entities.{set_flag-SameId}
use adchubd.ClientManager.Invariant.Quiet.{
  put-Kept, if-Kept, at-Kept, send_infs-Kept, send_own-Kept, drop_flag-Kept, send_hbri-Kept,
  strip_protocol-Kept, send_hbri-cases,
}
use adchubd.ClientManager.Invariant.Changes.{admit-Inv}

-- A live client is one still in what is kept of the manager.
pub Kept-LiveClient :
    {m n : ClientManager} (a : ℕ) (e : Entity)
    → Kept m n
    → LiveClient m a e
    → (f : Entity) × SameId e f × LiveClient n a f
Kept-LiveClient a e k (at, fresh, c) =
    let (f, at', s) = forward (k.heap a) at in
    (f, s, (at', sym s.ghost ∙ fresh, ap is_client (sym s.kind) ∙ c))

-- The entity is past IDENTIFY.
abbrev pub IsPast : ℕ → ClientManager → Type 0
IsPast a m = (f : Entity) → deref m a ≡ some f → is_early f.state ≡ false

normal_past : (s : State) → is_normal s ≡ true → is_early s ≡ false
normal_past State.normal h = refl
normal_past State.protocol h = absurd (cc)
normal_past State.identify h = absurd (cc)
normal_past State.verify h = absurd (cc)
normal_past State.hbri h = absurd (cc)
normal_past State.transfer h = absurd (cc)

-- Where an entity stands that is past IDENTIFY.
pub at-IsPast :
    (a : ℕ) (m : ClientManager) (e : Entity)
    → deref m a ≡ some e
    → is_early e.state ≡ false
    → IsPast a m
at-IsPast a m e at h f at' = ap (λ x. is_early x.state) (some-injective _ _ (sym at' ∙ at)) ∙ h

admit-IsPast : (a : ℕ) (m : ClientManager) (e : Entity) → deref m a ≡ some e → IsPast a (admit a m)
unfolding admit set_state
admit-IsPast a m e at =
    let e' : Entity = record e { state = State.normal } in
    let at1 : deref (remove_logins a e m) a ≡ some e =
      ap (find a) (remove_logins-SameNames a e m).heap ∙ at in
    at-IsPast a (admit a m) e'
      (rw (admit, at, set_state, at1) (find-put a e' (remove_logins a e m) a ∙ rw (==_refl a) refl))
      refl

await_past : (e : Entity) → is_early (await e).state ≡ false
unfolding await set_flag
await_past e = elim (Bool-cases (is_normal e.state)) [
  | inl t ↦ rw t (normal_past e.state t)
  | inr t ↦ rw t refl
]

ask-IsPast :
    (env : Env) (a : ℕ) (m : ClientManager)
    → (send_hbri env a m).1 ≡ true
    → IsPast a (send_hbri env a m).0
unfolding ask
ask-IsPast env a m h = elim (send_hbri-cases env a m) [
  | inl q ↦ let bad = ap (λ r. r.1) (sym q) ∙ h in absurd (cc)
  | inr (e, cmd, at, q) ↦
      subst (λ r. IsPast a r.0) (sym q)
        (at-IsPast a (ask env a e cmd m) (await e) (find-put a (await e) m a ∙ rw (==_refl a) refl)
          (await_past e))
]

complete-Inv :
    {b : Option ℕ} (a : ℕ) (send_data send_own_inf : Bool) (m : ClientManager) (e : Entity)
    → LiveClient m a e
    → Inv b m
    → Inv b (complete a send_data send_own_inf m) × IsPast a (complete a send_data send_own_inf m)
unfolding complete
complete-Inv a send_data send_own_inf m e l v =
    let m1 = if send_data then send_infs m.entities a m else m in
    let k1 = if-Kept send_data (send_infs-Kept m.entities a m) (Kept-refl m) in
    let k = Kept-trans k1 (if-Kept send_own_inf (send_own-Kept a send_data m1) (Kept-refl m1)) in
    let (f, s, l') = Kept-LiveClient a e k l in
    (admit-Inv a _ f l'.0 l'.1 (Kept-Inv k v), admit-IsPast a _ f l'.0)

pub enter_normal-Inv :
    {b : Option ℕ} (env : Env) (a : ℕ) (send_data send_own_inf : Bool) (m : ClientManager)
    (e : Entity)
    → LiveClient m a e
    → Inv b m
    → Inv b ((enter_normal env a send_data send_own_inf m).0)
      × IsPast a ((enter_normal env a send_data send_own_inf m).0)
unfolding enter_normal
enter_normal-Inv env a send_data send_own_inf m e l v = elim (Bool-cases (awaits m a)) [
  | inr w ↦ rw (enter_normal, w) (complete-Inv a send_data send_own_inf m e l v)
  | inl w ↦ elim (Bool-cases (send_hbri env a m).1) [
    | inl t ↦ rw (enter_normal, w, t) (Kept-Inv (send_hbri-Kept env a m) v, ask-IsPast env a m t)
    | inr t ↦
        let k = Kept-trans (send_hbri-Kept env a m) (drop_flag-Kept a (send_hbri env a m).0) in
        let (f, s, l') = Kept-LiveClient a e k l in
        rw (enter_normal, w, t)
          (complete-Inv a send_data send_own_inf (drop_flag a (send_hbri env a m).0) f l'
            (Kept-Inv k v))
  ]
]

ask_later-Kept : (env : Env) (a : ℕ) (m : ClientManager) → Kept m (ask_later env a m)
unfolding ask_later
ask_later-Kept env a m =
    if-Kept (at_state is_normal m a) (send_hbri-Kept env a m)
      (at-Kept a _ λ e h. put-Kept a e _ m h (set_flag-SameId e))

pub finish_client-Kept :
    (env : Env) (a : ℕ) (cmd : AdcCommand) (secondary : Bool) (m n : ClientManager)
    → finish_client env a cmd secondary m ≡ some n
    → Kept m n
unfolding finish_client
finish_client-Kept env a cmd secondary m n h =
    let m' = if secondary then ask_later env a m else m in
    let k = if-Kept secondary (ask_later-Kept env a m) (Kept-refl m) in
    elim (Bool-cases (
      has_param cmd (codes "SU")
      && not (is_set_at m' a flag_validate_hbri)
      && not (at_state is_hbri m' a))) [
        | inl t ↦
            let q : finish_client env a cmd secondary m ≡ strip_protocol_supports a m' =
              rw (finish_client, t) refl in
            Kept-trans k (strip_protocol-Kept a m' n (sym q ∙ h))
        | inr t ↦
            let q : finish_client env a cmd secondary m ≡ some m' = rw (finish_client, t) refl in
            subst (λ x. Kept m x) (some-injective _ _ (sym q ∙ h)) k
      ]
