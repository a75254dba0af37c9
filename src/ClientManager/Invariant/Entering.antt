-- ===== src/ClientManager/Invariant/Entering.antt =====
-- The handler of INF behind its checks, from the claims to NORMAL.
use adchubd.Base.{
  ℕ, ◌≡◌, ◌≢◌, refl, sym, ◌∙◌, ap, Bool, true, false, [], Option, none, some, Bytes, codes,
  Bool-cases, inl, inr, ◌⊎◌, ◌&&◌, ◌==◌, ==_iff, ltb, length, ◌/◌,
}
use mathlib.Core.Option.{some-injective}
use adchubd.Base.Dict.{find, nat_eq, bytes_eq}
use adchubd.AdcCommand.{AdcCommand}
use adchubd.Entity.{Entity, State}
use adchubd.Entity.Fields.{update_fields}
use adchubd.ClientManager.{ClientManager, deref}
use adchubd.ClientManager.Removal.{is_normal}
use adchubd.ClientManager.Leaving.{at_state, is_identify, is_protocol, disconnect_for}
use adchubd.ClientManager.Externals.{Externals}
use adchubd.ClientManager.Hbri.{Env}
use adchubd.ClientManager.Identity.{verify_overflow, overflowing}
use adchubd.Reason.{reason_no_bandwidth}
use adchubd.AdcCommand.Codes.{error_hub_full}
use adchubd.ClientManager.Inf.{
  update_at, claim_cid, claim_nick, finish_client, accept_inf, is_client_at, enter,
}
use adchubd.ClientManager.Invariant.{Inv, nick_of, is_early}
use adchubd.ClientManager.Invariant.Names.{Kept-Inv, LiveClient}
use adchubd.ClientManager.Invariant.Entities.{update_fields-Marks}
use adchubd.ClientManager.Invariant.Quiet.{disconnect_for-Kept, disconnect_for-closing}
use adchubd.ClientManager.Invariant.Nicks.{Claims, claim_nick-Inv}
use adchubd.ClientManager.Invariant.Cids.{Claimed, claim_cid-Claimed, claim_cid-later}
use adchubd.ClientManager.Invariant.Accept.{
  Kept-LiveClient, IsPast, at-IsPast, enter_normal-Inv, finish_client-Kept,
}

-- What the checks of an INF have shown, for the entity that it comes from.
pub record Checked (a : ℕ) (e : Entity) (nick : Bytes) (cmd : AdcCommand) (m : ClientManager)
    : Type 0 where
  pub live : LiveClient m a e
  pub reading : find a m.closing ≡ none
  pub claims : Claims nick cmd
  pub free : (nick_of e ≡ nick) ⊎ (find nick m.nicks ≡ none)
  pub inv : Inv none m

-- The entity is in NORMAL or past it in the login, or busy in IDENTIFY.
record Accepted (a : ℕ) (b : Option ℕ) (e : Entity) (n : ClientManager) : Type 0 where
  here :
      (f : Entity) × LiveClient n a f
      × (is_protocol f.state ≡ true → is_protocol e.state ≡ true)
      × (is_normal e.state ≡ true → is_normal f.state ≡ true)
  inv : Inv b n

accept_from :
    (env : Env) (a : ℕ) (cmd : AdcCommand) (cid nick : Bytes) (secondary : Bool) (b : Option ℕ)
    (m n : ClientManager) (e f : Entity)
    → Checked a e nick cmd m
    → Claimed a e f b m (claim_cid a cid m)
    → ((c : ℕ) → (a == c) ≡ false → b ≢ some c)
    → accept_inf env a cmd cid nick secondary m ≡ some n
    → Accepted a b e n
unfolding accept_inf is_client_at
accept_from env a cmd cid nick secondary b m n e f ok c others h =
    let m1 = claim_cid a cid m in
    let m2 = update_at a cmd (claim_nick a nick m1) in
    let g = update_fields f cmd in
    let free : (nick_of f ≡ nick) ⊎ (find nick m1.nicks ≡ none) = elim ok.free [
      | inl q ↦ inl (sym c.nick ∙ q)
      | inr q ↦ inr (c.nicks_none nick q)
    ] in
    let (v, l) = claim_nick-Inv b a nick cmd m1 f ok.claims others c.live c.inv free in
    let q : accept_inf env a cmd cid nick secondary m ≡ finish_client env a cmd secondary m2 =
      rw (accept_inf, is_client_at, l.0, l.2) refl in
    let k = finish_client-Kept env a cmd secondary m2 n (sym q ∙ h) in
    let (x, s, l') = Kept-LiveClient a g k l in
    let est : e.state ≡ g.state = c.state ∙ (update_fields-Marks f cmd).state in
    record {
      here = (
        x,
        l',
        (λ p. ap is_protocol est ∙ s.protocol p),
        (λ p. s.normal (ap is_normal (sym est) ∙ p)),
      );
      inv = Kept-Inv k v;
    }

-- Nobody is busy any more once the entity is past IDENTIFY, or is being disconnected.
pub Inv-settled :
    (b : Option ℕ) (a : ℕ) (m : ClientManager)
    → ((c : ℕ) → (a == c) ≡ false → b ≢ some c)
    → IsPast a m ⊎ (find a m.closing ≢ none)
    → Inv b m
    → Inv none m
Inv-settled b a m others h v = record {
  listed = v.listed;
  named = v.named;
  identified = v.identified;
  nick_held = v.nick_held;
  cid_held = v.cid_held;
  unclaimed = λ c f key at early open' idle. elim (Bool-cases (a == c)) [
    | inr t ↦ v.unclaimed c f key at early open' (others c t)
    | inl t ↦
        let s = (==_iff a c).0 t in
        elim h [
          | inl past ↦ let bad = sym (past f (ap (deref m) s ∙ at)) ∙ early in absurd (cc)
          | inr shut ↦ absurd (shut (ap (λ x. find x m.closing) s ∙ open'))
        ]
  ];
  ordered = v.ordered;
}

abbrev Others : ℕ → Option ℕ → Type 0
Others a b = (c : ℕ) → (a == c) ≡ false → b ≢ some c

accept_inf-Accepted :
    (env : Env) (a : ℕ) (cmd : AdcCommand) (cid nick : Bytes) (secondary : Bool)
    (m n : ClientManager) (e : Entity)
    → Checked a e nick cmd m
    → accept_inf env a cmd cid nick secondary m ≡ some n
    → (b : Option ℕ) × Others a b × Accepted a b e n
accept_inf-Accepted env a cmd cid nick secondary m n e ok h =
    elim (Bool-cases (is_identify e.state)) [
      | inl t ↦
          let others : Others a (some a) =
            λ c u z. let bad = (==_iff a c).1 (some-injective _ _ z) in absurd (cc) in
          (
            some a,
            others,
            accept_from env a cmd cid nick secondary (some a) m n e (record e { cid = cid }) ok
                (claim_cid-Claimed a e cid m ok.live t ok.reading ok.inv) others h,
          )
      | inr t ↦
          let others : Others a none = λ c u z. absurd (cc) in
          (
            none,
            others,
            accept_from env a cmd cid nick secondary none m n e e ok
                (claim_cid-later a e cid m ok.live t ok.inv) others h,
          )
    ]

past_neither : (s : State) → is_protocol s ≢ true → is_identify s ≡ false → is_early s ≡ false
past_neither State.protocol n h = absurd (n refl)
past_neither State.identify n h = absurd (cc)
past_neither State.verify n h = refl
past_neither State.normal n h = refl
past_neither State.hbri n h = refl
past_neither State.transfer n h = refl

verify_overflow-cases :
    (a : ℕ) (m : ClientManager)
    → (verify_overflow a m ≡ (m, true))
      ⊎ (verify_overflow a m ≡ (
        disconnect_for a reason_no_bandwidth
            (codes "Not enough bandwidth available, please try again later")
            error_hub_full
            []
            false
            m,
        false,
      ))
unfolding verify_overflow
verify_overflow-cases a m =
    elim (Bool-cases (
      ltb 3 (overflowing m m.entities) && ltb (length m.entities / 4) (overflowing m m.entities))) [
        | inl t ↦ inr (rw t refl)
        | inr t ↦ inl (rw t refl)
      ]

enter-Inv :
    (x : Externals) (env : Env) (a : ℕ) (cmd : AdcCommand) (b : Option ℕ) (n : ClientManager)
    (e : Entity)
    → is_protocol e.state ≢ true
    → Others a b
    → Accepted a b e n
    → Inv none ((enter x env a cmd n).0)
unfolding enter at_state
enter-Inv x env a cmd b n e np others k =
    let (f, l, p, q) = k.here in
    elim (Bool-cases (is_identify f.state)) [
      | inr t ↦
          rw (enter, at_state, l.0, t)
            (Inv-settled b a n others
              (inl (at-IsPast a n f l.0 (past_neither f.state (λ z. np (p z)) t))) k.inv)
      | inl t ↦ elim (verify_overflow-cases a n) [
        | inl u ↦
            let (v, past) = enter_normal-Inv env a true true n f l k.inv in
            rw (enter, at_state, l.0, t, u) (Inv-settled b a _ others (inl past) v)
        | inr u ↦
            rw (enter, at_state, l.0, t, u)
              (Inv-settled b a _ others
                (inr (
                  disconnect_for-closing a reason_no_bandwidth _ error_hub_full [] false n f l.0
                    l.2))
                (Kept-Inv (disconnect_for-Kept a reason_no_bandwidth _ error_hub_full [] false n)
                  k.inv))
      ]
    ]

-- An INF whose checks succeed keeps the invariant, whether it ends a login or changes the fields of
-- a client in NORMAL.
pub entering-Inv :
    (x : Externals) (env : Env) (a : ℕ) (cmd : AdcCommand) (cid nick : Bytes) (secondary : Bool)
    (m n : ClientManager) (e : Entity)
    → is_protocol e.state ≢ true
    → Checked a e nick cmd m
    → accept_inf env a cmd cid nick secondary m ≡ some n
    → Inv none ((enter x env a cmd n).0)
entering-Inv x env a cmd cid nick secondary m n e np ok h =
    let (b, others, k) = accept_inf-Accepted env a cmd cid nick secondary m n e ok h in
    enter-Inv x env a cmd b n e np others k
