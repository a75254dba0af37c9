-- ===== src/ClientManager/Tcp/Second.antt =====
-- adchpp/ClientManager.cpp: what a second connection can change of the main one.
use adchubd.Base.{
  ℕ, ◌≡◌, ◌≢◌, refl, sym, ◌∙◌, ap, subst, Bool, true, false, not, ◌&&◌, List, [], ◌∷◌, Option, none,
  some, Bytes, ◌==◌, ==_iff, ltb, if◌then◌else◌, length, drop, codes, Bool-cases, Option-cases, inl,
  inr, arith,
}
use adchubd.Base.Dict.{find, erase, nat_eq, bytes_eq}
use adchubd.AdcCommand.{AdcCommand, to_field}
use adchubd.AdcCommand.Params.{is_named, get_param}
use adchubd.Reason.{reason_hbri}
use adchubd.Entity.{Entity}
use adchubd.Entity.Fields.{pd, su, lookup, or_empty, update_loop, update_fields}
use adchubd.Entity.Fields.Laws.{IsOrdered, last_value, update_loop-pd, update_loop-last_value}
use adchubd.ClientManager.{ClientManager, deref}
use adchubd.ClientManager.Externals.{Externals}
use adchubd.ClientManager.Routing.{send_to_all}
use adchubd.ClientManager.Removal.{put, is_normal}
use adchubd.ClientManager.Removal.Removed.{find-put}
use adchubd.ClientManager.Leaving.{at_state, is_hbri}
use adchubd.ClientManager.Hbri.{Env, is_v6, ◌>>=◌}
use adchubd.ClientManager.Login.{drop_flag, fail_hbri}
use adchubd.ClientManager.Address.{ip_param, udp_param, verify_ip}
use adchubd.ClientManager.Inf.{update_at, is_client_at}
use adchubd.ClientManager.Tcp.{
  is_kept, kept_params, tell, publish, validated, wrong_protocol, validate, by_token, handle_tcp,
}
use adchubd.ClientManager.Tcp.Kept.{
  KeepsField, KeepsField-trans, Kept-KeepsField, put-KeepsField, if-KeepsField,
  enter_normal-KeepsField, fail_hbri-KeepsField, wrong_protocol-KeepsField, reject-KeepsField,
  bad_state-KeepsField,
}
use adchubd.ClientManager.Invariant.{Kept, Kept-trans, backward}
use adchubd.ClientManager.Invariant.Quiet.{
  logs-Kept, write-Kept, at-Kept, send_all_loop-Kept, drop_flag-Kept,
}
use adchubd.ClientManager.Invariant.Commands.{verify_ip-Kept}
use adchubd.ClientManager.Invariant.Moves.{close_at-Kept}

-- A field that is none of those that the second connection may set.
abbrev pub IsForeign : Bool → ℕ → Type 0
IsForeign v6 j =
    ((su == j) ≡ false)
    × ((to_field (ip_param v6) == j) ≡ false)
    × ((to_field (udp_param v6) == j) ≡ false)

kept_foreign :
    (v6 : Bool) (p : Bytes) (j : ℕ)
    → IsForeign v6 j
    → is_kept v6 p ≡ true
    → (to_field p == j) ≡ false
unfolding is_kept
kept_foreign v6 p j f h = elim (Bool-cases (to_field p == j)) [
  | inr t ↦ t
  | inl t ↦
      let q = (==_iff (to_field p) j).0 t in
      let a : is_named (codes "SU") p ≡ false = ap (λ z. su == z) q ∙ f.0 in
      let b : is_named (ip_param v6) p ≡ false = ap (λ z. to_field (ip_param v6) == z) q ∙ f.1 in
      let c : is_named (udp_param v6) p ≡ false = ap (λ z. to_field (udp_param v6) == z) q ∙ f.2 in
      let no : is_kept v6 p ≡ false = elim (Bool-cases (ltb (length p) 2)) [
        | inl u ↦ rw (is_kept, u) refl
        | inr u ↦ rw (is_kept, u, a, b, c) refl
      ] in
      let bad = sym no ∙ h in absurd (cc)
]

last_value-kept_params :
    (v6 : Bool) (ps : List Bytes) (j : ℕ) (old : Bytes)
    → IsForeign v6 j
    → last_value j old (kept_params v6 ps) ≡ old
unfolding last_value kept_params
last_value-kept_params v6 [] j old f = refl
last_value-kept_params v6 (p ∷ ps) j old f = elim (Bool-cases (is_kept v6 p)) [
  | inr t ↦ rw (kept_params, t) (last_value-kept_params v6 ps j old f)
  | inl t ↦
      let n = kept_foreign v6 p j f t in
      let keep : (if not (ltb (length p) 2) && to_field p == j then drop 2 p else old) ≡ old =
        ground arith in
      rw (kept_params, t)
        (ap (λ v. last_value j v (kept_params v6 ps)) keep ∙ last_value-kept_params v6 ps j old f)
]

-- The parameters that the handler leaves in the command change no other field, PD included.
update_fields-kept_params :
    (v6 : Bool) (e : Entity) (cmd : AdcCommand) (j : ℕ)
    → IsOrdered e.fields
    → IsForeign v6 j
    → or_empty (lookup j e.fields)
      ≡ or_empty (
          lookup j
            (update_fields e (record cmd { parameters = kept_params v6 cmd.parameters })).fields)
unfolding update_fields
update_fields-kept_params v6 e cmd j o f = elim (Bool-cases (j == pd)) [
  | inl t ↦
      subst
        (λ (k : ℕ).
          or_empty (lookup k e.fields)
          ≡ or_empty (lookup k (update_loop e (kept_params v6 cmd.parameters)).fields))
        (sym ((==_iff j pd).0 t))
        (ap or_empty (sym (update_loop-pd (kept_params v6 cmd.parameters) e o)))
  | inr t ↦ sym (
      update_loop-last_value (kept_params v6 cmd.parameters) e j o (λ z. not_both t z)
      ∙ last_value-kept_params v6 cmd.parameters j (or_empty (lookup j e.fields)) f)
]
  where
    not_both : {k n : ℕ} → (k == n) ≡ false → k ≢ n
    not_both {k} {n} t z = let bad = (==_iff k n).1 z in absurd (cc)

-- The fields of every entity have increasing keys.
abbrev pub AreOrdered : ClientManager → Type 0
AreOrdered m = (b : ℕ) (e : Entity) → deref m b ≡ some e → IsOrdered e.fields

Kept-AreOrdered : (m n : ClientManager) → Kept m n → AreOrdered m → AreOrdered n
Kept-AreOrdered m n k o b e at = let (f, at', s) = backward (k.heap b) at in s.ordered (o b f at')

-- What the handler leaves of a field: the process has ended, or the field is as it was in each entity.
abbrev pub Leaves : ℕ → ClientManager → Option (ClientManager × AdcCommand × Bool) → Type 0
Leaves j m none = Unit {0}
Leaves j m (some r) = KeepsField j m r.0

drop_flag-is_v6 : (main : ℕ) (m : ClientManager) (a : ℕ) → is_v6 (drop_flag main m) a ≡ is_v6 m a
unfolding drop_flag is_v6
drop_flag-is_v6 main m a = elim (Option-cases (deref m main)) [
  | inl t ↦ rw (drop_flag, t) refl
  | inr (e, t) ↦ rw (drop_flag, t) refl
]

module _ (x : Externals) (env : Env) (a j : ℕ) (other : (su == j) ≡ false) where
  update_at-KeepsField :
      (main : ℕ) (v6 : Bool) (cmd : AdcCommand) (m : ClientManager)
      → IsForeign v6 j
      → AreOrdered m
      → KeepsField j m
          (update_at main (record cmd { parameters = kept_params v6 cmd.parameters }) m)
  unfolding update_at
  update_at-KeepsField main v6 cmd m f o = elim (Option-cases (deref m main)) [
    | inl t ↦ rw (update_at, t) (record { value = λ b. refl })
    | inr (e, at) ↦
        let g = update_fields e (record cmd { parameters = kept_params v6 cmd.parameters }) in
        rw (update_at, at)
          (put-KeepsField j other main e g m (put main g m) at
            (update_fields-kept_params v6 e cmd j (o main e at) f) (find-put main g m))
  ]

  publish-KeepsField :
      (main : ℕ) (cmd : AdcCommand) (m : ClientManager) → KeepsField j m (publish main cmd m)
  unfolding publish send_to_all
  publish-KeepsField main cmd m =
      Kept-KeepsField j other (at-Kept main _ λ e h. send_all_loop-Kept m.entities _ m)

  validated-KeepsField :
      (main : ℕ) (v6 : Bool) (cmd : AdcCommand) (m : ClientManager)
      → IsForeign v6 j
      → AreOrdered m
      → KeepsField j m
          (validated env a main (record cmd { parameters = kept_params v6 cmd.parameters }) m)
  unfolding validated tell
  validated-KeepsField main v6 cmd m f o =
      let cmd' = record cmd { parameters = kept_params v6 cmd.parameters } in
      let k = Kept-trans (write-Kept m a _) (close_at-Kept a reason_hbri _) in
      let here =
        KeepsField-trans j other (Kept-KeepsField j other k)
          (update_at-KeepsField main v6 cmd _ f (Kept-AreOrdered m _ k o)) in
      if-KeepsField j other (at_state is_hbri _ main)
        (KeepsField-trans j other here (enter_normal-KeepsField j other env main true true _))
        (KeepsField-trans j other here (publish-KeepsField main cmd' _))

  Leaves-bind :
      (m : ClientManager) (r : Option ClientManager) (cmd : AdcCommand) (b : Bool)
      → ((n : ClientManager) → r ≡ some n → KeepsField j m n)
      → Leaves j m (r >>= λ n. some (n, cmd, b))
  Leaves-bind m none cmd b h = tt
  Leaves-bind m (some n) cmd b h = h n refl

  validate-Leaves :
      (main : ℕ) (cmd : AdcCommand) (m : ClientManager)
      → IsForeign (is_v6 m a) j
      → AreOrdered m
      → Leaves j m (validate x env a main cmd m)
  unfolding validate
  validate-Leaves main cmd m f o =
      elim (Bool-cases (if is_v6 m main then is_v6 m a else not (is_v6 m a))) [
        | inl t ↦
            rw (validate, t)
              (Leaves-bind m (wrong_protocol env a m) cmd false
                (wrong_protocol-KeepsField j other env a m))
        | inr t ↦
            let v = verify_ip x a cmd m in
            let (k, named, same) = verify_ip-Kept x a cmd m in
            elim (Bool-cases v.is_ok) [
              | inr u ↦
                  rw (validate, t, u)
                    (Leaves-bind m (fail_hbri env main v.manager) v.command false λ n h.
                      KeepsField-trans j other (Kept-KeepsField j other k)
                        (fail_hbri-KeepsField j other env main v.manager n h))
              | inl u ↦
                  rw (validate, t, u)
                    (KeepsField-trans j other (Kept-KeepsField j other k) (
                      validated-KeepsField main (is_v6 m a) v.command v.manager f
                        (Kept-AreOrdered m v.manager k o)))
            ]
      ]

  by_token-Leaves :
      (cmd : AdcCommand) (token : Bytes) (main : ℕ) (m : ClientManager)
      → IsForeign (is_v6 m a) j
      → AreOrdered m
      → Leaves j m (by_token x env a cmd token main m)
  unfolding by_token drop_flag find is_v6
  by_token-Leaves cmd token main m f o =
      let n = drop_flag main m in
      let n' = record n { hbri_tokens = erase token n.hbri_tokens } in
      let k = drop_flag-Kept main m in
      let k' : Kept m n' = Kept-trans k (logs-Kept refl refl refl refl refl) in
      elim (Bool-cases (not (at_state is_hbri n main) && not (at_state is_normal n main))) [
        | inl t ↦
            rw (by_token, t)
              (KeepsField-trans j other (Kept-KeepsField j other k)
                (bad_state-KeepsField j other a cmd n))
        | inr t ↦
            rw (by_token, t)
              (after m n' (validate x env a main cmd n') (Kept-KeepsField j other k') (
                validate-Leaves main cmd n'
                  (subst (λ v6. IsForeign v6 j) (sym (drop_flag-is_v6 main m a)) f)
                  (Kept-AreOrdered m n' k' o)))
      ]
    where
      after :
          (m n : ClientManager) (r : Option (ClientManager × AdcCommand × Bool))
          → KeepsField j m n
          → Leaves j n r
          → Leaves j m r
      after m n none p q = tt
      after m n (some r) p q = KeepsField-trans j other p q

-- Whatever command a second connection sends to show that it has an address of its protocol, and whether
-- it is accepted or not: if the fields of all entities have increasing keys, as those of a `std::map`
-- have, the handler of TCP changes no field of any entity, PD included, but SU and the address and the
-- UDP port of that protocol, unless the process ends in it.
pub handle_tcp-Leaves :
    (x : Externals) (env : Env) (a : ℕ) (cmd : AdcCommand) (m : ClientManager) (name : Bytes)
    → AreOrdered m
    → IsForeign (is_v6 m a) (to_field name)
    → Leaves (to_field name) m (handle_tcp x env a cmd m)
unfolding handle_tcp
handle_tcp-Leaves x env a cmd m name o f =
    let j = to_field name in
    let same : KeepsField j m m = record { value = λ b. refl } in
    elim (Bool-cases (is_client_at m a)) [
      | inr t ↦ rw (handle_tcp, t) same
      | inl t ↦ elim (Option-cases (get_param cmd (codes "TO") 0)) [
        | inl u ↦ rw (handle_tcp, t, u) (reject-KeepsField j f.0 a _ m)
        | inr (token, u) ↦ elim (Option-cases (find token m.hbri_tokens)) [
          | inl w ↦ rw (handle_tcp, t, u, w) (reject-KeepsField j f.0 a _ m)
          | inr ((main, time), w) ↦
              rw (handle_tcp, t, u, w) (by_token-Leaves x env a j f.0 cmd token main m f o)
        ]
      ]
    ]
