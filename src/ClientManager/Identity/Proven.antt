-- ===== src/ClientManager/Identity/Proven.antt =====
-- adchpp/ClientManager.cpp: what `verifyCID` makes sure of.
use adchubd.Base.{
  ℕ, ◌≡◌, refl, sym, ◌∙◌, ap, true, Option, none, some, Bytes, ◌==◌, ==_iff, same, same_iff, length,
  codes, Bool-cases, Option-cases, inl, inr,
}
use mathlib.Core.Option.{some-injective}
use adchubd.AdcCommand.{AdcCommand}
use adchubd.AdcCommand.Params.{get_param}
use adchubd.Cid
use adchubd.ClientManager.{ClientManager}
use adchubd.ClientManager.Externals.{Externals}
use adchubd.ClientManager.Leaving.{at_state, is_identify}
use adchubd.ClientManager.Identity.{check_pid, check_cid, verify_cid}

-- The command has a CID and a PID of 39 bytes each, and the hash of what the PID is decoded to is what
-- the CID is decoded to.
pub record Proven (x : Externals) (cmd : AdcCommand) (cid : Bytes) : Type 0 where
  pub cid_str : Bytes
  pub pid_str : Bytes
  pub has_cid : get_param cmd (codes "ID") 0 ≡ some cid_str
  pub has_pid : get_param cmd (codes "PD") 0 ≡ some pid_str
  pub cid_length : length cid_str ≡ 39
  pub pid_length : length pid_str ≡ 39
  pub value : cid ≡ Cid.from_text cid_str
  pub hash : x.tiger (Cid.from_text pid_str) ≡ cid

module _ (x : Externals) (a : ℕ) (cmd : AdcCommand) (m : ClientManager) (cid : Bytes) where
  pid-Proven :
      (c p : Bytes)
      → get_param cmd (codes "ID") 0 ≡ some c
      → get_param cmd (codes "PD") 0 ≡ some p
      → length c ≡ 39
      → (check_pid x a c p m).1 ≡ some cid
      → Proven x cmd cid
  unfolding check_pid
  pid-Proven c p i d l h = elim (Bool-cases (length p == Cid.base32_size)) [
    | inr t ↦
        let q : (check_pid x a c p m).1 ≡ none = rw (check_pid, t) refl in
        let bad = sym q ∙ h in absurd (cc)
    | inl t ↦ elim (Bool-cases (same (x.tiger (Cid.from_text p)) (Cid.from_text c))) [
      | inr u ↦
          let q : (check_pid x a c p m).1 ≡ none = rw (check_pid, t, u) refl in
          let bad = sym q ∙ h in absurd (cc)
      | inl u ↦
          let q : (check_pid x a c p m).1 ≡ some (Cid.from_text c) = rw (check_pid, t, u) refl in
          let here : Cid.from_text c ≡ cid = some-injective _ _ (sym q ∙ h) in
          record {
            cid_str = c;
            pid_str = p;
            has_cid = i;
            has_pid = d;
            cid_length = l;
            pid_length = (==_iff (length p) Cid.base32_size).0 t;
            value = sym here;
            hash = (same_iff (x.tiger (Cid.from_text p)) (Cid.from_text c)).0 u ∙ here;
          }
    ]
  ]

  cid-Proven :
      (c : Bytes) (o : Option Bytes)
      → get_param cmd (codes "ID") 0 ≡ some c
      → get_param cmd (codes "PD") 0 ≡ o
      → (check_cid x a c o m).1 ≡ some cid
      → Proven x cmd cid
  unfolding check_cid
  cid-Proven c o i d h = elim (Bool-cases (at_state is_identify m a)) [
    | inr t ↦
        let q : (check_cid x a c o m).1 ≡ none = rw (check_cid, t) refl in
        let bad = sym q ∙ h in absurd (cc)
    | inl t ↦ elim (Bool-cases (length c == Cid.base32_size)) [
      | inr u ↦
          let q : (check_cid x a c o m).1 ≡ none = rw (check_cid, t, u) refl in
          let bad = sym q ∙ h in absurd (cc)
      | inl u ↦ elim (Option-cases o) [
        | inl w ↦
            let q : (check_cid x a c o m).1 ≡ none = rw (check_cid, t, u, w) refl in
            let bad = sym q ∙ h in absurd (cc)
        | inr (p, w) ↦
            let q : check_cid x a c o m ≡ check_pid x a c p m = rw (check_cid, t, u, w) refl in
            pid-Proven c p i (d ∙ w) ((==_iff (length c) Cid.base32_size).0 u)
              (ap (λ r. r.1) (sym q) ∙ h)
      ]
    ]
  ]

-- In IDENTIFY an INF passes the check of the CID only if it has a CID and a PID, each a text of 39
-- bytes, and the Tiger hash of what the PID is decoded to, up to a zero byte if it has one, is what the
-- CID is decoded to. This is what the check returns.
pub verify_cid-Proven :
    (x : Externals) (a : ℕ) (cmd : AdcCommand) (m : ClientManager) (cid : Bytes)
    → at_state is_identify m a ≡ true
    → (verify_cid x a cmd m).1 ≡ some cid
    → Proven x cmd cid
unfolding verify_cid
verify_cid-Proven x a cmd m cid t h = elim (Option-cases (get_param cmd (codes "ID") 0)) [
  | inr (c, i) ↦
      let q : verify_cid x a cmd m ≡ check_cid x a c (get_param cmd (codes "PD") 0) m =
        rw (verify_cid, i) refl in
      cid-Proven x a cmd m cid c (get_param cmd (codes "PD") 0) i refl (ap (λ r. r.1) (sym q) ∙ h)
  | inl i ↦
      let q : (verify_cid x a cmd m).1 ≡ none = rw (verify_cid, i, t) refl in
      let bad = sym q ∙ h in absurd (cc)
]
