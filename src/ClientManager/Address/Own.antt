-- ===== src/ClientManager/Address/Own.antt =====
-- adchpp/ClientManager.cpp: the address that an INF has behind the first half of `validateIP`.
use adchubd.Base.{
  ℕ, ◌≡◌, refl, sym, ◌∙◌, ap, subst, Bool, true, false, ◌||◌, List, [], ◌∷◌, ◌++◌, none, some,
  Bytes, ◌==◌, ==_iff, drop, is_empty, codes, Bool-cases, Option-cases, inl, inr,
}
use adchubd.AdcCommand.{AdcCommand, add_param}
use adchubd.AdcCommand.Params.{is_named, find_param, get_param, del_param}
use adchubd.ClientManager.Externals.{Externals}
use adchubd.ClientManager.Address.{
  passed, failed, ip_param, text_of, parse_param_ip, check_primary, with_remote, not_valid,
}

find_param-append :
    (name p : Bytes) (ps : List Bytes)
    → find_param name ps ≡ none
    → is_named name p ≡ true
    → find_param name (ps ++ p ∷ []) ≡ some (drop 2 p)
unfolding find_param
find_param-append name p [] h t = rw t refl
find_param-append name p (q ∷ ps) h t = elim (Bool-cases (is_named name q)) [
  | inl u ↦ let bad : some (drop 2 q) ≡ none = sym (rw u refl) ∙ h in absurd (cc)
  | inr u ↦
      let h' : find_param name ps ≡ none = sym (rw u refl) ∙ h in
      rw u (find_param-append name p ps h' t)
]

own_name : (v6 : Bool) (text : Bytes) → is_named (ip_param v6) (ip_param v6 ++ text) ≡ true
own_name true text = refl
own_name false text = refl

own_value : (v6 : Bool) (text : Bytes) → drop 2 (ip_param v6 ++ text) ≡ text
own_value true text = refl
own_value false text = refl

-- The command names an address that reads as this one.
abbrev pub Names : Externals → Bool → ℕ → AdcCommand → Type 0
Names x v6 remote d =
    (ip : Bytes) × (get_param d (ip_param v6) 0 ≡ some ip) × (parse_param_ip x v6 ip ≡ some remote)

same_command : {c d : AdcCommand} → passed c ≡ passed d → c ≡ d
same_command {c} h = ap (λ o. elim o as (λ z. AdcCommand) [ passed e ↦ e | failed t ↦ c ]) h

module _ (x : Externals) (v6 : Bool) (remote : ℕ)
    (reads : parse_param_ip x v6 (text_of x v6 remote) ≡ some remote) where
  with_remote-Names :
      (d : AdcCommand)
      → get_param d (ip_param v6) 0 ≡ none
      → Names x v6 remote (with_remote x v6 remote d)
  unfolding get_param add_param
  with_remote-Names d h =
      let text = text_of x v6 remote in
      (
        text,
        find_param-append (ip_param v6) (ip_param v6 ++ text) d.parameters h (own_name v6 text)
            ∙ ap some (own_value v6 text),
        reads,
      )

  -- If the text of the address of the connection reads as that address, the client is not a local
  -- one, and its INF has at most one parameter for an address of the protocol, then an INF that
  -- passes has one, and it reads as the address of the connection.
  pub check_primary-Names :
      (cmd d : AdcCommand)
      → get_param ((del_param cmd (ip_param v6) 0).0) (ip_param v6) 0 ≡ none
      → check_primary x v6 remote false cmd ≡ passed d
      → Names x v6 remote d
  unfolding check_primary
  check_primary-Names cmd d once h = elim (Option-cases (get_param cmd (ip_param v6) 0)) [
    | inl n ↦
        let q : check_primary x v6 remote false cmd ≡ passed (with_remote x v6 remote cmd) =
          rw (check_primary, n) refl in
        let e : with_remote x v6 remote cmd ≡ d = same_command (sym q ∙ h) in
        subst (Names x v6 remote) e (with_remote-Names cmd n)
    | inr (ip, n) ↦ elim (Option-cases (parse_param_ip x v6 ip)) [
      | inl k ↦
          let q : check_primary x v6 remote false cmd ≡ failed (not_valid x ip v6) =
            rw (check_primary, n, k) refl in
          let bad = sym q ∙ h in absurd (cc)
      | inr (given, k) ↦ elim (Bool-cases (is_empty ip || given == 0)) [
        | inl t ↦
            let d' = (del_param cmd (ip_param v6) 0).0 in
            let q : check_primary x v6 remote false cmd ≡ passed (with_remote x v6 remote d') =
              rw (check_primary, n, k, t) refl in
            subst (Names x v6 remote) (same_command (sym q ∙ h)) (with_remote-Names d' once)
        | inr t ↦ elim (Bool-cases (given == remote)) [
          | inr u ↦
              let q : check_primary x v6 remote false cmd
                  ≡ failed (
                      codes "Your IP is "
                      ++ (text_of x v6 remote ++ codes ", reconfigure your client settings")) =
                rw (check_primary, n, k, t, u) refl in
              let bad = sym q ∙ h in absurd (cc)
          | inl u ↦
              let q : check_primary x v6 remote false cmd ≡ passed cmd =
                rw (check_primary, n, k, t, u) refl in
              subst (Names x v6 remote) (same_command (sym q ∙ h))
                (ip, n, k ∙ ap some ((==_iff given remote).0 u))
        ]
      ]
    ]
  ]
