-- ===== src/ClientManager/Invariant/Commands.antt =====
-- What the check of the addresses does to a command: it keeps the nick that the command leaves.
use adchubd.Base.{
  ℕ, ◌≡◌, refl, sym, ◌∙◌, ap, Bool, true, false, List, [], ◌∷◌, ◌++◌, none, some, Bytes, codes,
  arith, Bool-cases, Option-cases, inl, inr, if◌then◌else◌, not, ◌&&◌, ◌||◌, ◌==◌, ==_iff, is_empty,
  ltb, length, drop,
}
use mathlib.Core.Option.{some-injective}
use adchubd.Base.Dict.{find, nat_eq, bytes_eq}
use adchubd.AdcCommand.{AdcCommand, to_field, add_param, add_named}
use adchubd.AdcCommand.Params.{get_param, del_param, erase_param, is_named}
use adchubd.Entity.Fields.{or_empty}
use adchubd.Entity.Fields.Laws.{last_value}
use adchubd.Entity.Flags.{is_set, flag_ok_ip}
use adchubd.Reason.{reason_invalid_ip}
use adchubd.AdcCommand.Codes.{error_bad_ip}
use adchubd.ClientManager.{ClientManager, deref, Socket}
use adchubd.ClientManager.Externals.{Externals}
use adchubd.ClientManager.Address.{
  Checked, passed, failed, check_primary, check_secondary, validate_ip, verify_ip, settle, ip_param,
  udp_param, text_of, parse_param_ip, is_private_ip, remote_address,
}
use adchubd.ClientManager.Invariant.{Kept, Kept-refl}
use adchubd.ClientManager.Invariant.Quiet.{disconnect_for-Kept}

-- The last value of a name among the parameters is not changed by parameters of other names.
last_value-append :
    (j : ℕ) (p : Bytes) (ps : List Bytes) (old : Bytes)
    → (to_field p == j) ≡ false
    → last_value j old (ps ++ p ∷ []) ≡ last_value j old ps
unfolding last_value
last_value-append j p [] old h = ground arith
last_value-append j p (q ∷ ps) old h = last_value-append j p ps _ h

last_value-erase_param :
    (name : Bytes) (j : ℕ) (ps qs : List Bytes) (old : Bytes)
    → (to_field name == j) ≡ false
    → erase_param name ps ≡ some qs
    → last_value j old qs ≡ last_value j old ps
unfolding last_value erase_param
last_value-erase_param name j [] qs old ne h = absurd (cc)
last_value-erase_param name j (p ∷ ps) qs old ne h = elim (Bool-cases (is_named name p)) [
  | inl t ↦
      let q : erase_param name (p ∷ ps) ≡ some ps = rw (erase_param, t) refl in
      let u : to_field name ≡ to_field p = (==_iff (to_field name) (to_field p)).0 t in
      let keep : old ≡ (if not (ltb (length p) 2) && to_field p == j then drop 2 p else old) =
        ground arith in
      ap (last_value j old) (some-injective _ _ (sym h ∙ q)) ∙ ap (λ v. last_value j v ps) keep
  | inr t ↦ elim (Option-cases (erase_param name ps)) [
    | inl n ↦
        let q : erase_param name (p ∷ ps) ≡ none = rw (erase_param, t, n) refl in
        let bad = sym q ∙ h in absurd (cc)
    | inr (rs, n) ↦
        let q : erase_param name (p ∷ ps) ≡ some (p ∷ rs) = rw (erase_param, t, n) refl in
        ap (last_value j old) (some-injective _ _ (sym h ∙ q))
        ∙ last_value-erase_param name j ps rs _ ne n
  ]
]

-- Two commands whose parameters leave the same nick.
abbrev pub SameNick : AdcCommand → AdcCommand → Type 0
SameNick c d =
    (old : Bytes)
    → last_value (to_field (codes "NI")) old d.parameters
      ≡ last_value (to_field (codes "NI")) old c.parameters

del_param-SameNick :
    (c : AdcCommand) (name : Bytes)
    → (to_field name == to_field (codes "NI")) ≡ false
    → SameNick c ((del_param c name 0).0)
unfolding del_param
del_param-SameNick c name ne old = elim (Option-cases (erase_param name c.parameters)) [
  | inl n ↦ rw (del_param, n) refl
  | inr (ps, n) ↦
      rw (del_param, n)
        (last_value-erase_param name (to_field (codes "NI")) c.parameters ps old ne n)
]

add_named-SameNick :
    (c : AdcCommand) (v6 : Bool) (value : Bytes) → SameNick c (add_named c (ip_param v6) value)
unfolding add_param last_value
add_named-SameNick c true value old = last_value-append _ _ c.parameters old refl
add_named-SameNick c false value old = last_value-append _ _ c.parameters old refl

ip_name : (v6 : Bool) → (to_field (ip_param v6) == to_field (codes "NI")) ≡ false
ip_name true = refl
ip_name false = refl

udp_name : (v6 : Bool) → (to_field (udp_param v6) == to_field (codes "NI")) ≡ false
udp_name true = refl
udp_name false = refl

-- A check that lets a command pass lets one pass that leaves the same nick.
abbrev Passes : AdcCommand → Checked → Type 0
Passes c (passed d) = SameNick c d
Passes c (failed e) = Unit {0}

module _ (x : Externals) where
  check_primary-Passes :
      (v6 : Bool) (remote : ℕ) (is_local : Bool) (c : AdcCommand)
      → Passes c (check_primary x v6 remote is_local c)
  unfolding check_primary
  check_primary-Passes v6 remote is_local c = elim (Option-cases (get_param c (ip_param v6) 0)) [
    | inl n ↦ rw (check_primary, n) (add_named-SameNick c v6 (text_of x v6 remote))
    | inr (ip, n) ↦ elim (Option-cases (parse_param_ip x v6 ip)) [
      | inl k ↦ rw (check_primary, n, k) tt
      | inr (given, k) ↦ elim (Bool-cases (is_empty ip || given == 0)) [
        | inl t ↦
            rw (check_primary, n, k, t)
              (λ old.
                add_named-SameNick ((del_param c (ip_param v6) 0).0) v6 (text_of x v6 remote) old
                ∙ del_param-SameNick c (ip_param v6) (ip_name v6) old)
        | inr t ↦ elim (Bool-cases (not (given == remote) && not is_local)) [
          | inl u ↦ rw (check_primary, n, k, t, u) tt
          | inr u ↦ rw (check_primary, n, k, t, u) (λ old. refl)
        ]
      ]
    ]
  ]

  check_secondary-Passes :
      (v6 is_local : Bool) (c : AdcCommand) → Passes c (check_secondary x v6 is_local c)
  unfolding check_secondary
  check_secondary-Passes v6 is_local c =
      let ip = or_empty (get_param c (ip_param (not v6)) 0) in
      elim (Option-cases (parse_param_ip x (not v6) ip)) [
        | inl k ↦ rw (check_secondary, k) tt
        | inr (given, k) ↦ elim (Bool-cases (not is_local || is_empty ip || given == 0)) [
          | inl t ↦
              rw (check_secondary, k, t)
                (λ old.
                  del_param-SameNick ((del_param c (udp_param (not v6)) 0).0) (ip_param (not v6))
                    (ip_name (not v6)) old
                  ∙ del_param-SameNick c (udp_param (not v6)) (udp_name (not v6)) old)
          | inr t ↦ rw (check_secondary, k, t) (λ old. refl)
        ]
      ]

  then_secondary :
      (v6 : Bool) (remote : ℕ) (c : AdcCommand) (o : Checked)
      → check_primary x v6 remote (is_private_ip x (text_of x v6 remote) v6) c ≡ o
      → Passes c o
      → Passes c ((validate_ip x v6 remote c).0)
  unfolding validate_ip
  then_secondary v6 remote c (failed e) q h = rw (validate_ip, q) tt
  then_secondary v6 remote c (passed d) q h =
      let is_local = is_private_ip x (text_of x v6 remote) v6 in
      rw (validate_ip, q)
        (join d (check_secondary x v6 is_local d) (check_secondary-Passes v6 is_local d) h)
    where
      join : (d : AdcCommand) (o : Checked) → Passes d o → SameNick c d → Passes c o
      join d (failed e) k h = tt
      join d (passed f) k h = λ old. k old ∙ h old

  validate_ip-Passes :
      (v6 : Bool) (remote : ℕ) (c : AdcCommand) → Passes c ((validate_ip x v6 remote c).0)
  validate_ip-Passes v6 remote c =
      then_secondary v6 remote c _ refl
        (check_primary-Passes v6 remote (is_private_ip x (text_of x v6 remote) v6) c)

  settled :
      (a : ℕ) (s : Socket) (c : AdcCommand) (m : ClientManager) (o : Checked × Bool)
      → Passes c o.0
      → Kept m (settle x a s c o m).manager
        × SameNick c (settle x a s c o m).command
        × ((settle x a s c o m).is_ok ≡ true → (settle x a s c o m).manager ≡ m)
  unfolding settle
  settled a s c m (passed d, secondary) h = (Kept-refl m, h, λ k. refl)
  settled a s c m (failed error, secondary) h = (
    disconnect_for-Kept a reason_invalid_ip error error_bad_ip (codes "IP" ++ s.ip) true m,
    (λ old. refl),
    λ k. absurd (cc),
  )

  -- The check of the addresses keeps the manager's maps, and the nick in the command.
  pub verify_ip-Kept :
      (a : ℕ) (c : AdcCommand) (m : ClientManager)
      → Kept m (verify_ip x a c m).manager
        × SameNick c (verify_ip x a c m).command
        × ((verify_ip x a c m).is_ok ≡ true → (verify_ip x a c m).manager ≡ m)
  unfolding verify_ip
  verify_ip-Kept a c m = elim (Option-cases (deref m a)) [
    | inl n ↦ rw (verify_ip, n) (Kept-refl m, (λ old. refl), λ h. refl)
    | inr (e, n) ↦ elim (Bool-cases (is_set e flag_ok_ip)) [
      | inl t ↦ rw (verify_ip, n, t) (Kept-refl m, (λ old. refl), λ h. refl)
      | inr t ↦ elim (Option-cases (find a m.sockets)) [
        | inl k ↦ rw (verify_ip, n, t, k) (Kept-refl m, (λ old. refl), λ h. refl)
        | inr (s, k) ↦ elim (Option-cases (remote_address x s)) [
          | inl r ↦ rw (verify_ip, n, t, k, r) (Kept-refl m, (λ old. refl), λ h. refl)
          | inr (remote, r) ↦
              rw (verify_ip, n, t, k, r)
                (settled a s c m (validate_ip x s.v6 remote c) (validate_ip-Passes s.v6 remote c))
        ]
      ]
    ]
  ]
