-- ===== src/ClientManager/Invariant/Checking.antt =====
-- The checks of an INF, which leave the names alone.
use adchubd.Base.{
  ℕ, ◌≡◌, refl, ◌∙◌, subst, Bool, true, false, Option, none, some, Bytes, codes, Bool-cases,
  Option-cases, inl, inr, ◌⊎◌, if◌then◌else◌, not, ◌&&◌, ◌==◌, length, same, same_iff,
}
use adchubd.Base.Dict.{find, nat_eq, bytes_eq}
use adchubd.Cid
use adchubd.AdcCommand.{AdcCommand}
use adchubd.AdcCommand.Params.{get_param}
use adchubd.ClientManager.{ClientManager}
use adchubd.ClientManager.Externals.{Externals}
use adchubd.ClientManager.Leaving.{at_state, is_identify, disconnect_error}
use adchubd.ClientManager.Identity.{
  check_pid, check_cid, verify_cid, verify_nick, validate_nick, is_taken, nick_at, validate_charset,
}
use adchubd.ClientManager.Address.{Verified, unchanged, verify_ip}
use adchubd.ClientManager.Inf.{check_nick, check_description, check_inf, is_client_at}
use adchubd.ClientManager.Invariant.{Kept, Kept-refl, Kept-trans}
use adchubd.ClientManager.Invariant.Quiet.{disconnect_for-Kept}
use adchubd.ClientManager.Invariant.Commands.{SameNick, verify_ip-Kept}

-- A check that succeeds changes nothing at all.
abbrev Stays : ClientManager → ClientManager × Option Bytes → Type 0
Stays m r = Kept m r.0 × ((cid : Bytes) → r.1 ≡ some cid → r.0 ≡ m)

if-Stays :
    {m : ClientManager} (p q : ClientManager × Option Bytes) (t : Bool)
    → Stays m p
    → Stays m q
    → Stays m (if t then p else q)
if-Stays p q true h k = h
if-Stays p q false h k = k

refuse-Stays :
    (a reason : ℕ) (info : Bytes) (error : ℕ) (param : Bytes) (m : ClientManager)
    → Stays m (disconnect_error a reason info error param m, none)
refuse-Stays a reason info error param m =
    (disconnect_for-Kept a reason info error param true m, λ cid h. absurd (cc))

-- The nick is free where the command has one.
abbrev pub IsFree : ℕ → Option Bytes → ClientManager → Type 0
IsFree a none m = Unit {0}
IsFree a (some nick) m = (nick_at m a ≡ nick) ⊎ (find nick m.nicks ≡ none)

module _ (x : Externals) where
  check_pid-Stays :
      (a : ℕ) (cid pid : Bytes) (m : ClientManager) → Stays m (check_pid x a cid pid m)
  unfolding check_pid
  check_pid-Stays a cid pid m =
      if-Stays _ _ (not (length pid == Cid.base32_size)) (refuse-Stays a _ _ _ _ m) (
        if-Stays _ _ (not (same (x.tiger (Cid.from_text pid)) (Cid.from_text cid)))
          (refuse-Stays a _ _ _ _ m) (Kept-refl m, λ k h. refl))

  check_cid-Stays :
      (a : ℕ) (cid : Bytes) (pid : Option Bytes) (m : ClientManager)
      → Stays m (check_cid x a cid pid m)
  unfolding check_cid
  check_cid-Stays a cid none m =
      if-Stays _ _ (not (at_state is_identify m a)) (refuse-Stays a _ _ _ _ m) (
        if-Stays _ _ (not (length cid == Cid.base32_size)) (refuse-Stays a _ _ _ _ m)
          (refuse-Stays a _ _ _ _ m))
  check_cid-Stays a cid (some pid) m =
      if-Stays _ _ (not (at_state is_identify m a)) (refuse-Stays a _ _ _ _ m) (
        if-Stays _ _ (not (length cid == Cid.base32_size)) (refuse-Stays a _ _ _ _ m)
          (check_pid-Stays a cid pid m))

  pub verify_cid-Stays : (a : ℕ) (c : AdcCommand) (m : ClientManager) → Stays m (verify_cid x a c m)
  unfolding verify_cid
  verify_cid-Stays a c m = elim (Option-cases (get_param c (codes "ID") 0)) [
    | inr (cid, n) ↦ rw (verify_cid, n) (check_cid-Stays a cid (get_param c (codes "PD") 0) m)
    | inl n ↦ elim (Option-cases (get_param c (codes "PD") 0)) [
      | inl k ↦
          rw (verify_cid, n, k)
            (if-Stays _ _ (at_state is_identify m a) (refuse-Stays a _ _ _ _ m)
              (Kept-refl m, λ k h. refl))
      | inr (pid, k) ↦
          rw (verify_cid, n, k)
            (if-Stays _ _ (at_state is_identify m a) (refuse-Stays a _ _ _ _ m)
              (refuse-Stays a _ _ _ _ m))
    ]
  ]

  free_nick :
      (a : ℕ) (nick : Bytes) (m : ClientManager)
      → (not (same (nick_at m a) nick) && is_taken nick m) ≡ false
      → (nick_at m a ≡ nick) ⊎ (find nick m.nicks ≡ none)
  unfolding is_taken
  free_nick a nick m h = elim (Bool-cases (same (nick_at m a) nick)) [
    | inl t ↦ inl ((same_iff (nick_at m a) nick).0 t)
    | inr t ↦ elim (Option-cases (find nick m.nicks)) [
      | inl n ↦ inr n
      | inr (b, n) ↦
          let bad : (not (same (nick_at m a) nick) && is_taken nick m) ≡ true =
            rw (t, is_taken, n) refl in
          absurd (cc)
    ]
  ]

  -- A nick that is accepted is that of the entity, or nobody has it.
  pub verify_nick-Kept :
      (a : ℕ) (nick : Bytes) (m : ClientManager)
      → Kept m ((verify_nick x a nick m).0)
        × ((verify_nick x a nick m).1 ≡ true
            → (((verify_nick x a nick m).0 ≡ m)
                × ((nick_at m a ≡ nick) ⊎ (find nick m.nicks ≡ none))))
  unfolding verify_nick
  verify_nick-Kept a nick m = elim (Bool-cases (validate_nick x nick)) [
    | inr t ↦ rw (verify_nick, t) (disconnect_for-Kept a _ _ _ _ _ m, λ h. absurd (cc))
    | inl t ↦ elim (Bool-cases (not (same (nick_at m a) nick) && is_taken nick m)) [
      | inl u ↦ rw (verify_nick, t, u) (disconnect_for-Kept a _ _ _ _ _ m, λ h. absurd (cc))
      | inr u ↦ rw (verify_nick, t, u) (Kept-refl m, λ h. (refl, free_nick a nick m u))
    ]
  ]

  check_description-Kept :
      (a : ℕ) (o : Option Bytes) (m : ClientManager)
      → Kept m ((check_description x a o m).0)
        × ((check_description x a o m).1 ≡ true → (check_description x a o m).0 ≡ m)
  unfolding check_description
  check_description-Kept a none m = (Kept-refl m, λ h. refl)
  check_description-Kept a (some text) m = elim (Bool-cases (validate_charset text 32)) [
    | inl t ↦ rw (check_description, t) (Kept-refl m, λ h. refl)
    | inr t ↦ rw (check_description, t) (disconnect_for-Kept a _ _ _ _ _ m, λ h. absurd (cc))
  ]

  check_nick-Kept :
      (a : ℕ) (o : Option Bytes) (m : ClientManager)
      → Kept m ((check_nick x a o m).0)
        × ((check_nick x a o m).1 ≡ true → (((check_nick x a o m).0 ≡ m) × IsFree a o m))
  unfolding check_nick
  check_nick-Kept a none m = (Kept-refl m, λ h. (refl, tt))
  check_nick-Kept a (some nick) m = verify_nick-Kept a nick m

  -- What the checks of an INF leave, by what they answer.
  abbrev pub Checks : ℕ → AdcCommand → ClientManager → Verified × Option Bytes → Type 0
  Checks a c m r =
      Kept m r.0.manager
      × ((cid : Bytes)
          → r.1 ≡ some cid
          → r.0.is_ok ≡ true
          → (r.0.manager ≡ m) × SameNick c r.0.command × IsFree a (get_param c (codes "NI") 0) m)

  -- The address is checked for a client only.
  address-Checks :
      (a : ℕ) (c : AdcCommand) (m n : ClientManager) (cid : Bytes)
      → Kept m n
      → (n ≡ m) × IsFree a (get_param c (codes "NI") 0) m
      → Checks a c m (
          if is_client_at n a
          then (verify_ip x a c n, some cid)
          else (unchanged c true n, some cid))
  address-Checks a c m n cid k (q, free) = elim (Bool-cases (is_client_at n a)) [
    | inl t ↦
        let v = verify_ip-Kept x a c n in rw t (Kept-trans k v.0, λ d h ok. (v.2 ok ∙ q, v.1, free))
    | inr t ↦ rw t (k, λ d h ok. (q, (λ old. refl), free))
  ]

  -- The checks of an INF keep the maps of the manager and the names of all entities. Those that
  -- succeed change nothing in the manager at all, hand on a command that leaves the same nick, and
  -- have found the first nick in the command, if it has one, to be that of the entity or free.
  pub check_inf-Checks :
      (a : ℕ) (c : AdcCommand) (m : ClientManager) → Checks a c m (check_inf x a c m)
  unfolding check_inf
  check_inf-Checks a c m =
      let vc = verify_cid-Stays a c m in
      let m1 = (verify_cid x a c m).0 in
      let o = get_param c (codes "NI") 0 in
      let vn = check_nick-Kept a o m1 in
      let m2 = (check_nick x a o m1).0 in
      let d = get_param c (codes "DE") 0 in
      let vd = check_description-Kept a d m2 in
      let k2 = Kept-trans vc.0 vn.0 in
      elim (Option-cases (verify_cid x a c m).1) [
        | inl n ↦ rw (check_inf, n) (vc.0, λ cid h. absurd (cc))
        | inr (cid, n) ↦ elim (Bool-cases (check_nick x a o m1).1) [
          | inr t ↦ rw (check_inf, n, t) (k2, λ cid h. absurd (cc))
          | inl t ↦ elim (Bool-cases (check_description x a d m2).1) [
            | inr u ↦ rw (check_inf, n, t, u) (Kept-trans k2 vd.0, λ cid h. absurd (cc))
            | inl u ↦
                let q1 = vc.1 cid n in
                let (q2, free) = vn.1 t in
                rw (check_inf, n, t, u)
                  (address-Checks a c m ((check_description x a d m2).0) cid (Kept-trans k2 vd.0)
                    (vd.1 u ∙ q2 ∙ q1, subst (IsFree a o) q1 free))
          ]
        ]
      ]
