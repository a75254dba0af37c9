-- ===== src/ClientManager/Invariant/Nicks.antt =====
-- The nick that an INF claims.
use adchubd.Base.{
  ℕ, ◌≡◌, ◌≢◌, refl, sym, ◌∙◌, ap, subst, false, List, [], ◌∷◌, Option, none, some, Bytes, codes,
  arith, Bool-cases, inl, inr, ◌⊎◌, if◌then◌else◌, not, ◌&&◌, ◌==◌, ==_iff, ==_refl, same, same_iff,
  is_empty,
}
use mathlib.Core.Option.{some-injective}
use adchubd.Base.Dict.{
  find, insert, erase, nat_eq, bytes_eq, find-insert_cases, find-insert_old, find-insert_new,
  find-erase, find-erase_still, some_of_if,
}
use adchubd.AdcCommand.{AdcCommand, to_field}
use adchubd.Entity.{Entity}
use adchubd.Entity.Fields.{update_fields}
use adchubd.Entity.Fields.Laws.{
  IsOrdered, last_value, get_field-update_fields, update_fields-IsOrdered,
}
use adchubd.Entity.Flags.{is_set, is_set_in, flag_ghost}
use adchubd.ClientManager.{ClientManager, deref}
use adchubd.ClientManager.Removal.{is_client}
use adchubd.ClientManager.Removal.Removed.{find-put}
use adchubd.ClientManager.Identity.{nick_at}
use adchubd.ClientManager.Inf.{update_at, claim_nick}
use adchubd.ClientManager.Invariant.{Inv, nick_of, is_early}
use adchubd.ClientManager.Invariant.Names.{LiveClient}
use adchubd.ClientManager.Invariant.Entities.{update_fields-Marks}
use adchubd.ClientManager.Invariant.Claims.{renamed, Renames, Renames-Inv}

-- The nicks without the old one of the entity.
abbrev rest_of : Bytes → Bytes → List (Bytes × ℕ) → List (Bytes × ℕ)
rest_of old nick nicks =
    if not (is_empty old) && not (same old nick) then erase old nicks else nicks

rest-cases :
    (old nick : Bytes) (nicks : List (Bytes × ℕ))
    → ((rest_of old nick nicks ≡ nicks) × ((old ≡ []) ⊎ (old ≡ nick)))
      ⊎ ((rest_of old nick nicks ≡ erase old nicks) × (old ≢ []) × (same old nick ≡ false))
unfolding is_empty
rest-cases [] nick nicks = inl (refl, inl refl)
rest-cases (c ∷ old) nick nicks = elim (Bool-cases (same (c ∷ old) nick)) [
  | inl t ↦ inl (rw t refl, inr ((same_iff (c ∷ old) nick).0 t))
  | inr t ↦ inr (rw t refl, (λ z. absurd (cc)), t)
]

module _ (b : Option ℕ) (a : ℕ) (f : Entity) (m : ClientManager) (nick : Bytes)
    (l : LiveClient m a f) (v : Inv b m) where
  -- An entry of the entity itself is that of its nick.
  own_entry : (k : Bytes) → find k m.nicks ≡ some a → (nick_of f ≡ k) × (k ≢ [])
  own_entry k h =
      let (x, at, fresh, p) = v.named k a h in
      let q : x ≡ f = some-injective _ _ (sym at ∙ l.0) in (ap nick_of (sym q) ∙ p.0, p.2)

  rest_own :
      (k : Bytes) → find k (rest_of (nick_of f) nick m.nicks) ≡ some a → (k ≡ nick) × (k ≢ [])
  rest_own k h = elim (rest-cases (nick_of f) nick m.nicks) [
    | inl (q, o) ↦
        let (s, ne) = own_entry k (ap (find k) (sym q) ∙ h) in
        elim o [ inl z ↦ absurd (ne (sym s ∙ z)) | inr z ↦ (sym s ∙ z, ne) ]
    | inr (q, ne, t) ↦
        let (u, w) =
          some_of_if (same (nick_of f) k) (find k m.nicks) a
            (sym (find-erase (nick_of f) k m.nicks) ∙ ap (find k) (sym q) ∙ h) in
        let u' = (same_iff (nick_of f) k).1 (own_entry k w).0 in absurd (cc)
  ]

  rest_sub :
      (k : Bytes) (c : ℕ)
      → find k (rest_of (nick_of f) nick m.nicks) ≡ some c
      → find k m.nicks ≡ some c
  rest_sub k c h = elim (rest-cases (nick_of f) nick m.nicks) [
    | inl (q, o) ↦ ap (find k) (sym q) ∙ h
    | inr (q, ne, t) ↦
        (some_of_if (same (nick_of f) k) (find k m.nicks) c
          (sym (find-erase (nick_of f) k m.nicks) ∙ ap (find k) (sym q) ∙ h)).1
  ]

  rest_others :
      (k : Bytes) (c : ℕ)
      → (a == c) ≡ false
      → find k m.nicks ≡ some c
      → find k (rest_of (nick_of f) nick m.nicks) ≡ some c
  rest_others k c t h = elim (rest-cases (nick_of f) nick m.nicks) [
    | inl (q, o) ↦ ap (find k) q ∙ h
    | inr (q, ne, w) ↦
        ap (find k) q ∙ find-erase (nick_of f) k m.nicks ∙ elim (Bool-cases (same (nick_of f) k)) [
          | inr u ↦ rw u h
          | inl u ↦
              let z =
                sym (v.nick_held a f l.0 l.1 l.2 ne)
                ∙ ap (λ x. find x m.nicks) ((same_iff (nick_of f) k).0 u)
                ∙ h in
              let bad = (==_iff a c).1 (some-injective _ _ z) in absurd (cc)
        ]
  ]

  rest_free :
      nick ≢ []
      → (nick_of f ≡ nick) ⊎ (find nick m.nicks ≡ none)
      → (find nick (rest_of (nick_of f) nick m.nicks) ≡ none)
        ⊎ (find nick (rest_of (nick_of f) nick m.nicks) ≡ some a)
  rest_free ne h = elim (rest-cases (nick_of f) nick m.nicks) [
    | inl (q, o) ↦ elim h [
      | inr n ↦ inl (ap (find nick) q ∙ n)
      | inl s ↦ inr (
          ap (find nick) q
          ∙ ap (λ x. find x m.nicks) (sym s)
          ∙ v.nick_held a f l.0 l.1 l.2 (λ z. ne (sym s ∙ z)))
    ]
    | inr (q, ne', t) ↦ elim h [
      | inr n ↦ inl (ap (find nick) q ∙ find-erase_still (nick_of f) nick m.nicks n)
      | inl s ↦ let bad = (same_iff (nick_of f) nick).1 s in absurd (cc)
    ]
  ]

  nick-Renames :
      (p : Entity)
      → f.kind ≡ p.kind
      → f.sid ≡ p.sid
      → is_set f flag_ghost ≡ is_set p flag_ghost
      → f.state ≡ p.state
      → f.cid ≡ p.cid
      → IsOrdered p.fields
      → nick_of p ≡ nick
      → nick ≢ []
      → (nick_of f ≡ nick) ⊎ (find nick m.nicks ≡ none)
      → Renames b a f p m (insert nick a (rest_of (nick_of f) nick m.nicks)) m.cids
  nick-Renames p k s g st ci o q ne free = record {
    kind = k;
    sid = s;
    ghost = g;
    state = st;
    ordered = o;
    nick_named = λ key c h.
        elim (find-insert_cases nick key a c (rest_of (nick_of f) nick m.nicks) h) [
          | inr (nk, here) ↦ inl (here, q ∙ nk, λ z. ne (nk ∙ z))
          | inl old ↦ elim (Bool-cases (a == c)) [
            | inl t ↦
                let here = (==_iff a c).0 t in
                let (q', ne') = rest_own key (old ∙ ap some (sym here)) in
                inl (here, q ∙ sym q', ne')
            | inr t ↦ inr (t, rest_sub key c old)
          ]
        ];
    cid_named = λ key c h. elim (Bool-cases (a == c)) [
      | inr t ↦ inr (t, h)
      | inl t ↦
          let here = (==_iff a c).0 t in
          let (x, at, fresh, r) = v.identified key c h in
          let w : f ≡ x = some-injective _ _ (sym l.0 ∙ ap (deref m) here ∙ at) in
          inl (here, sym ci ∙ ap (λ z. z.cid) w ∙ r.0)
    ];
    nick_kept = λ key c ne' t h. find-insert_old nick key a c _ (rest_others key c t h);
    cid_kept = λ key c t h. h;
    nick_own = λ z.
        ap (λ x. find x (insert nick a (rest_of (nick_of f) nick m.nicks))) q
        ∙ elim (rest_free ne free) [
          | inl n ↦ find-insert_new nick a _ n
          | inr o ↦ find-insert_old nick nick a a _ o
        ];
    cid_own =
        λ z. ap (λ x. find x m.cids) (sym ci) ∙ v.cid_held a f l.0 l.1 l.2 (λ w. z (sym ci ∙ w));
    early = λ early open' idle. (
      sym ci ∙ (v.unclaimed a f [] l.0 (ap is_early st ∙ early) open' idle).0,
      λ key. (v.unclaimed a f key l.0 (ap is_early st ∙ early) open' idle).1,
    );
  }

-- The nick that the parameters of an INF leave in the field NI is the one that it claims, if any.
abbrev pub Claims : Bytes → AdcCommand → Type 0
Claims nick cmd =
    (old : Bytes)
    → last_value (to_field (codes "NI")) old cmd.parameters ≡ (if is_empty nick then old else nick)

updated-nick :
    (nick : Bytes) (f : Entity) (cmd : AdcCommand)
    → Claims nick cmd
    → IsOrdered f.fields
    → nick_of (update_fields f cmd) ≡ (if is_empty nick then nick_of f else nick)
updated-nick nick f cmd c o =
    get_field-update_fields f cmd (codes "NI") o (λ z. omega arith) ∙ c (nick_of f)

-- An entity that keeps its nick.
same-Renames :
    (b : Option ℕ) (a : ℕ) (f p : Entity) (m : ClientManager)
    → LiveClient m a f
    → Inv b m
    → f.kind ≡ p.kind
    → f.sid ≡ p.sid
    → is_set f flag_ghost ≡ is_set p flag_ghost
    → f.state ≡ p.state
    → f.cid ≡ p.cid
    → IsOrdered p.fields
    → nick_of p ≡ nick_of f
    → Renames b a f p m m.nicks m.cids
same-Renames b a f p m l v k s g st ci o q = record {
  kind = k;
  sid = s;
  ghost = g;
  state = st;
  ordered = o;
  nick_named = λ key c h. elim (Bool-cases (a == c)) [
    | inr t ↦ inr (t, h)
    | inl t ↦
        let here = (==_iff a c).0 t in
        let (x, at, fresh, r) = v.named key c h in
        let w : f ≡ x = some-injective _ _ (sym l.0 ∙ ap (deref m) here ∙ at) in
        inl (here, q ∙ ap (λ z. nick_of z) w ∙ r.0, r.2)
  ];
  cid_named = λ key c h. elim (Bool-cases (a == c)) [
    | inr t ↦ inr (t, h)
    | inl t ↦
        let here = (==_iff a c).0 t in
        let (x, at, fresh, r) = v.identified key c h in
        let w : f ≡ x = some-injective _ _ (sym l.0 ∙ ap (deref m) here ∙ at) in
        inl (here, sym ci ∙ ap (λ z. z.cid) w ∙ r.0)
  ];
  nick_kept = λ key c ne t h. h;
  cid_kept = λ key c t h. h;
  nick_own = λ z. ap (λ x. find x m.nicks) q ∙ v.nick_held a f l.0 l.1 l.2 (λ w. z (q ∙ w));
  cid_own =
      λ z. ap (λ x. find x m.cids) (sym ci) ∙ v.cid_held a f l.0 l.1 l.2 (λ w. z (sym ci ∙ w));
  early = λ early open' idle. (
    sym ci ∙ (v.unclaimed a f [] l.0 (ap is_early st ∙ early) open' idle).0,
    λ key. (v.unclaimed a f key l.0 (ap is_early st ∙ early) open' idle).1,
  );
}

-- The nicks with the claim.
abbrev claimed : ℕ → Bytes → Entity → ClientManager → List (Bytes × ℕ)
claimed a [] f m = m.nicks
claimed a (n ∷ nick) f m = insert (n ∷ nick) a (rest_of (nick_of f) (n ∷ nick) m.nicks)

update_at-claim_nick :
    (a : ℕ) (nick : Bytes) (cmd : AdcCommand) (m : ClientManager) (f : Entity)
    → deref m a ≡ some f
    → update_at a cmd (claim_nick a nick m)
      ≡ renamed a (update_fields f cmd) (claimed a nick f m) m.cids m
unfolding update_at claim_nick nick_at is_empty
update_at-claim_nick a [] cmd m f at = rw (update_at, claim_nick, at) refl
update_at-claim_nick a (n ∷ nick) cmd m f at =
    let q : nick_at m a ≡ nick_of f = rw (nick_at, at) refl in
    rw (update_at, at)
      (ap
        (λ old.
          renamed a (update_fields f cmd) (insert (n ∷ nick) a (rest_of old (n ∷ nick) m.nicks))
            m.cids m)
        q)

renamed-Inv :
    (b : Option ℕ) (a : ℕ) (nick : Bytes) (cmd : AdcCommand) (m : ClientManager) (f : Entity)
    → Claims nick cmd
    → ((x : ℕ) → (a == x) ≡ false → b ≢ some x)
    → LiveClient m a f
    → Inv b m
    → (nick_of f ≡ nick) ⊎ (find nick m.nicks ≡ none)
    → Inv b (renamed a (update_fields f cmd) (claimed a nick f m) m.cids m)
unfolding is_empty
renamed-Inv b a [] cmd m f c others l v free =
    let r = update_fields-Marks f cmd in
    let g = update_fields f cmd in
    let o = v.ordered a f l.0 in
    Renames-Inv b b a f g m m.nicks m.cids l
      (same-Renames b a f g m l v r.kind r.sid (ap (λ x. is_set_in x flag_ghost) r.flags) r.state
        r.cid (update_fields-IsOrdered f cmd o) (updated-nick [] f cmd c o))
      others v
renamed-Inv b a (n ∷ nick) cmd m f c others l v free =
    let r = update_fields-Marks f cmd in
    let g = update_fields f cmd in
    let o = v.ordered a f l.0 in
    Renames-Inv b b a f g m (insert (n ∷ nick) a (rest_of (nick_of f) (n ∷ nick) m.nicks)) m.cids l
      (nick-Renames b a f m (n ∷ nick) l v g r.kind r.sid (ap (λ x. is_set_in x flag_ghost) r.flags)
        r.state r.cid (update_fields-IsOrdered f cmd o) (updated-nick (n ∷ nick) f cmd c o)
        (λ z. absurd (cc)) free)
      others v

-- An accepted INF gives the entity its nick, and everybody keeps what they have.
pub claim_nick-Inv :
    (b : Option ℕ) (a : ℕ) (nick : Bytes) (cmd : AdcCommand) (m : ClientManager) (f : Entity)
    → Claims nick cmd
    → ((x : ℕ) → (a == x) ≡ false → b ≢ some x)
    → LiveClient m a f
    → Inv b m
    → (nick_of f ≡ nick) ⊎ (find nick m.nicks ≡ none)
    → Inv b (update_at a cmd (claim_nick a nick m))
      × LiveClient (update_at a cmd (claim_nick a nick m)) a (update_fields f cmd)
claim_nick-Inv b a nick cmd m f c others l v free =
    let r = update_fields-Marks f cmd in
    subst (λ n. Inv b n × LiveClient n a (update_fields f cmd))
      (sym (update_at-claim_nick a nick cmd m f l.0))
      (
        renamed-Inv b a nick cmd m f c others l v free,
        (
          find-put a (update_fields f cmd) m a ∙ rw (==_refl a) refl,
          ap (λ x. is_set_in x flag_ghost) (sym r.flags) ∙ l.1,
          ap is_client (sym r.kind) ∙ l.2,
        ),
      )
