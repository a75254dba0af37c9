-- ===== src/ClientManager/Tcp/Kept.antt =====
-- adchpp/ClientManager.cpp: the fields of the entities that the parts of the handler of TCP keep.
use adchubd.Base.{
  ℕ, ◌≡◌, refl, sym, ◌∙◌, ap, subst, Bool, true, false, Option, none, some, [], Bytes, Bool-cases,
  Option-cases, inl, inr, if◌then◌else◌, ◌==◌, ==_iff,
}
use mathlib.Core.Option.{some-injective}
use adchubd.Base.Dict.{find, nat_eq}
use adchubd.AdcCommand.{AdcCommand}
use adchubd.Reason.{reason_hbri, reason_invalid_ip}
use adchubd.Entity.{Entity, State}
use adchubd.Entity.Fields.{su, lookup, or_empty}
use adchubd.ClientManager.{ClientManager, deref}
use adchubd.ClientManager.Removal.{set_state, remove_logins}
use adchubd.ClientManager.Removal.Removed.{find-put, remove_logins-SameNames}
use adchubd.ClientManager.Leaving.{at_state, is_hbri, bad_state}
use adchubd.ClientManager.Hbri.{Env, send_hbri, strip_protocol_supports}
use adchubd.ClientManager.Login.{
  send_infs, send_own, admit, complete, awaits, drop_flag, enter_normal, fail_hbri,
}
use adchubd.ClientManager.Tcp.{tell, reject, wrong_protocol}
use adchubd.ClientManager.Invariant.{Corr, nobody, somebody, Kept, Kept-refl, Kept-trans}
use adchubd.ClientManager.Invariant.Entities.{bind_some}
use adchubd.ClientManager.Invariant.Quiet.{
  if-Kept, write-Kept, disconnect_for-Kept, send_infs-Kept, send_own-Kept, drop_flag-Kept,
  send_hbri-Kept, strip_protocol-Kept,
}
use adchubd.ClientManager.Invariant.Moves.{close_at-Kept}

abbrev pub value_in : ℕ → Option Entity → Bytes
value_in j none = []
value_in j (some e) = or_empty (lookup j e.fields)

-- The value of a field of the entity at an address; empty where there is none.
abbrev pub value_at : ℕ → ClientManager → ℕ → Bytes
value_at j m b = value_in j (deref m b)

-- Every entity has its value in the field.
pub record KeepsField (j : ℕ) (m n : ClientManager) : Type 0 where
  pub value : (b : ℕ) → value_at j m b ≡ value_at j n b

module _ (j : ℕ) (other : (su == j) ≡ false) where
  pub KeepsField-trans :
      {m n o : ClientManager} → KeepsField j m n → KeepsField j n o → KeepsField j m o
  KeepsField-trans p q = record { value = λ b. p.value b ∙ q.value b }

  Corr-value : {o p : Option Entity} → Corr o p → value_in j o ≡ value_in j p
  Corr-value nobody = refl
  Corr-value (somebody s) = ap or_empty (s.fields j other)

  pub Kept-KeepsField : {m n : ClientManager} → Kept m n → KeepsField j m n
  Kept-KeepsField k = record { value = λ b. Corr-value (k.heap b) }

  pub put-KeepsField :
      (a : ℕ) (e f : Entity) (m n : ClientManager)
      → deref m a ≡ some e
      → value_in j (some e) ≡ value_in j (some f)
      → ((b : ℕ) → deref n b ≡ (if a == b then some f else deref m b))
      → KeepsField j m n
  put-KeepsField a e f m n at q h = record {
    value = λ b. elim (Bool-cases (a == b)) [
      | inr t ↦ rw (h b, t) refl
      | inl t ↦
          rw (h b, t) (ap (λ x. value_at j m x) (sym ((==_iff a b).0 t)) ∙ ap (value_in j) at ∙ q)
    ];
  }

  pub admit-KeepsField : (a : ℕ) (m : ClientManager) → KeepsField j m (admit a m)
  unfolding admit set_state
  admit-KeepsField a m = elim (Option-cases (deref m a)) [
    | inl t ↦ rw (admit, t) (record { value = λ b. refl })
    | inr (e, at) ↦
        let kept = (remove_logins-SameNames a e m).heap in
        let e' : Entity = record e { state = State.normal } in
        let at1 : deref (remove_logins a e m) a ≡ some e = ap (find a) kept ∙ at in
        put-KeepsField a e e' m (admit a m) at refl (λ b.
          rw (admit, at, set_state, at1)
            (find-put a e' (remove_logins a e m) b
              ∙ ap (λ h. if a == b then some e' else find b h) kept))
  ]

  complete-KeepsField :
      (a : ℕ) (send_data send_own_inf : Bool) (m : ClientManager)
      → KeepsField j m (complete a send_data send_own_inf m)
  unfolding complete
  complete-KeepsField a send_data send_own_inf m =
      let m1 = if send_data then send_infs m.entities a m else m in
      let m2 = if send_own_inf then send_own a send_data m1 else m1 in
      KeepsField-trans
        (Kept-KeepsField (
          Kept-trans (if-Kept send_data (send_infs-Kept m.entities a m) (Kept-refl m))
            (if-Kept send_own_inf (send_own-Kept a send_data m1) (Kept-refl m1))))
        (admit-KeepsField a m2)

  pub enter_normal-KeepsField :
      (env : Env) (a : ℕ) (send_data send_own_inf : Bool) (m : ClientManager)
      → KeepsField j m ((enter_normal env a send_data send_own_inf m).0)
  unfolding enter_normal
  enter_normal-KeepsField env a send_data send_own_inf m = elim (Bool-cases (awaits m a)) [
    | inr w ↦ rw (enter_normal, w) (complete-KeepsField a send_data send_own_inf m)
    | inl w ↦ elim (Bool-cases (send_hbri env a m).1) [
      | inl t ↦ rw (enter_normal, w, t) (Kept-KeepsField (send_hbri-Kept env a m))
      | inr t ↦
          rw (enter_normal, w, t)
            (KeepsField-trans
              (Kept-KeepsField
                (Kept-trans (send_hbri-Kept env a m) (drop_flag-Kept a (send_hbri env a m).0)))
              (complete-KeepsField a send_data send_own_inf (drop_flag a (send_hbri env a m).0)))
    ]
  ]

  pub if-KeepsField :
      {m n o : ClientManager} (t : Bool)
      → KeepsField j m n
      → KeepsField j m o
      → KeepsField j m (if t then n else o)
  if-KeepsField true p q = p
  if-KeepsField false p q = q

  pub fail_hbri-KeepsField :
      (env : Env) (a : ℕ) (m n : ClientManager) → fail_hbri env a m ≡ some n → KeepsField j m n
  unfolding fail_hbri
  fail_hbri-KeepsField env a m n h =
      let (m', strip, rest) = bind_some (strip_protocol_supports a (drop_flag a m)) _ n h in
      let k = Kept-trans (drop_flag-Kept a m) (strip_protocol-Kept a (drop_flag a m) m' strip) in
      subst (KeepsField j m) (some-injective _ _ rest) (
        if-KeepsField (at_state is_hbri m' a)
          (KeepsField-trans (Kept-KeepsField k) (enter_normal-KeepsField env a true true m'))
          (Kept-KeepsField k))

  pub wrong_protocol-KeepsField :
      (env : Env) (a : ℕ) (m n : ClientManager) → wrong_protocol env a m ≡ some n → KeepsField j m n
  unfolding wrong_protocol tell
  wrong_protocol-KeepsField env a m n h =
      let (m', failed, rest) = bind_some (fail_hbri env a _) _ n h in
      subst (KeepsField j m) (some-injective _ _ rest) (
        KeepsField-trans (Kept-KeepsField (write-Kept m a _)) (
          KeepsField-trans (fail_hbri-KeepsField env a _ m' failed)
            (Kept-KeepsField (close_at-Kept a reason_invalid_ip m'))))

  pub reject-KeepsField :
      (a : ℕ) (error : Bytes) (m : ClientManager) → KeepsField j m (reject a error m)
  unfolding reject tell
  reject-KeepsField a error m =
      Kept-KeepsField (Kept-trans (write-Kept m a _) (close_at-Kept a reason_hbri _))

  pub bad_state-KeepsField :
      (a : ℕ) (cmd : AdcCommand) (m : ClientManager) → KeepsField j m (bad_state a cmd m)
  unfolding bad_state
  bad_state-KeepsField a cmd m = Kept-KeepsField (disconnect_for-Kept a _ _ _ _ true m)
