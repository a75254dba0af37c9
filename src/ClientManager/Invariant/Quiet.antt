-- ===== src/ClientManager/Invariant/Quiet.antt =====
-- The operations that keep the maps of the manager, and the names of the entities.
use adchubd.Base.{
  ℕ, ◌≡◌, ◌≢◌, refl, sym, ◌∙◌, ap, subst, Bool, true, false, List, [], ◌∷◌, none, some, Bytes,
  arith, Bool-cases, Option-cases, inl, inr, ◌⊎◌, if◌then◌else◌, ◌==◌, ==_iff,
}
use mathlib.Core.Option.{some-injective}
use adchubd.Base.Dict.{find, nat_eq, bytes_eq, find-insert, find-insert_own}
use adchubd.AdcCommand.{AdcCommand, new_command, hub_sid}
use adchubd.AdcCommand.Codes.{cmd_tcp}
use adchubd.Entity.{Entity, Kind}
use adchubd.Entity.Info.{get_inf, get_sup}
use adchubd.Entity.Supports.{has_support}
use adchubd.ClientManager.{ClientManager, deref}
use adchubd.ClientManager.Routing.{write, send_all_loop, send_to_all}
use adchubd.ClientManager.Removal.{put, is_client}
use adchubd.ClientManager.Removal.Removed.{find-put}
use adchubd.ClientManager.Leaving.{close, disconnect_for, is_hub}
use adchubd.ClientManager.Hbri.{
  Env, await, ask, send_hbri, strip_protocol_supports, strip_supports, is_v6, hbri, hbri_params,
  ◌>>=◌,
}
use adchubd.ClientManager.Login.{
  send_inf, send_sup, send_sid, send_infs, announce, send_own, drop_flag,
}
use adchubd.ClientManager.Invariant.{SameId, Corr, somebody, Corr-refl, Kept, Kept-refl, Kept-trans}
use adchubd.ClientManager.Invariant.Entities.{
  get_inf-SameId, get_sup-SameId, unset_flag-SameId, await-SameId, strip_supports-SameId, bind_some,
}

-- Logs, timers and sockets are no part of what is kept.
pub logs-Kept :
    {m n : ClientManager}
    → m.heap ≡ n.heap
    → m.entities ≡ n.entities
    → m.nicks ≡ n.nicks
    → m.cids ≡ n.cids
    → m.closing ≡ n.closing
    → Kept m n
logs-Kept {m} {n} h e k c o = record {
  entities = e;
  nicks = k;
  cids = c;
  heap = λ a. subst (λ x. Corr (deref m a) (find a x)) h (Corr-refl (deref m a));
  closing = λ a q. ap (find a) o ∙ q;
}

pub write-Kept : (m : ClientManager) (a : ℕ) (line : Bytes) → Kept m (write m a line)
write-Kept m a line = logs-Kept refl refl refl refl refl

pub put-Kept :
    (a : ℕ) (e f : Entity) (m : ClientManager)
    → deref m a ≡ some e
    → SameId e f
    → Kept m (put a f m)
put-Kept a e f m at s = record {
  entities = refl;
  nicks = refl;
  cids = refl;
  heap = λ b. elim (Bool-cases (a == b)) [
    | inl t ↦
        let same' = (==_iff a b).0 t in
        rw (find-put a f m b, t)
          (subst (λ o. Corr o (some f)) (sym at ∙ ap (deref m) same') (somebody s))
    | inr t ↦ rw (find-put a f m b, t) (Corr-refl (deref m b))
  ];
  closing = λ b h. h;
}

pub if-Kept : {m n o : ClientManager} (t : Bool) → Kept m n → Kept m o → Kept m (if t then n else o)
if-Kept true p q = p
if-Kept false p q = q

pub close-Kept : (a : ℕ) (e : Entity) (reason : ℕ) (m : ClientManager) → Kept m (close a e reason m)
unfolding close
close-Kept a e reason m = if-Kept (is_hub e.kind) (Kept-refl m) (record {
  entities = refl;
  nicks = refl;
  cids = refl;
  heap = λ b. Corr-refl (deref m b);
  closing = λ b h. ground (arith, find-insert a b reason m.closing);
})

pub disconnect_for-Kept :
    (a reason : ℕ) (info : Bytes) (error : ℕ) (param : Bytes) (negative : Bool) (m : ClientManager)
    → Kept m (disconnect_for a reason info error param negative m)
unfolding disconnect_for
disconnect_for-Kept a reason info error param negative m = elim (Option-cases (deref m a)) [
  | inl h ↦ rw (disconnect_for, h) (Kept-refl m)
  | inr (e, h) ↦
      rw (disconnect_for, h)
        (Kept-trans (write-Kept m a _) (
          Kept-trans (write-Kept (write m a _) a _)
            (close-Kept a e reason (write (write m a _) a _))))
]

-- It does not touch the entities at all.
pub disconnect_for-heap :
    (a reason : ℕ) (info : Bytes) (error : ℕ) (param : Bytes) (negative : Bool) (m : ClientManager)
    → (disconnect_for a reason info error param negative m).heap ≡ m.heap
unfolding disconnect_for close
disconnect_for-heap a reason info error param negative m = elim (Option-cases (deref m a)) [
  | inl h ↦ rw (disconnect_for, h) refl
  | inr (e, h) ↦ elim (Bool-cases (is_hub e.kind)) [
    | inl t ↦ rw (disconnect_for, h, close, t) refl
    | inr t ↦ rw (disconnect_for, h, close, t) refl
  ]
]

pub client_not_hub : (k : Kind) → is_client k ≡ true → is_hub k ≡ false
client_not_hub Kind.client h = refl
client_not_hub Kind.unknown h = absurd (cc)
client_not_hub Kind.hub h = absurd (cc)
client_not_hub Kind.bot h = absurd (cc)

-- A client is told to disconnect.
pub disconnect_for-closing :
    (a reason : ℕ) (info : Bytes) (error : ℕ) (param : Bytes) (negative : Bool) (m : ClientManager)
    (e : Entity)
    → deref m a ≡ some e
    → is_client e.kind ≡ true
    → find a (disconnect_for a reason info error param negative m).closing ≢ none
unfolding disconnect_for close
disconnect_for-closing a reason info error param negative m e at k =
    let t : is_hub e.kind ≡ false = client_not_hub e.kind k in
    rw (disconnect_for, at, close, t) (λ h. find-insert_own a reason m.closing h)

pub send_all_loop-Kept :
    (es : List (ℕ × ℕ)) (line : Bytes) (m : ClientManager) → Kept m (send_all_loop es line m)
unfolding send_all_loop
send_all_loop-Kept [] line m = Kept-refl m
send_all_loop-Kept ((sid, a) ∷ es) line m =
    Kept-trans (write-Kept m a line) (send_all_loop-Kept es line (write m a line))

-- The entity at an address is replaced by one with the same names, if there is one.
pub at-Kept :
    {m : ClientManager} (a : ℕ) (f : Entity → ClientManager)
    → ((e : Entity) → deref m a ≡ some e → Kept m (f e))
    → Kept m (elim (deref m a) [ none ↦ m | some e ↦ f e ])
at-Kept {m} a f k = elim (Option-cases (deref m a)) [
  | inl h ↦ rw h (Kept-refl m)
  | inr (e, h) ↦ rw h (k e h)
]

pub send_inf-Kept : (to i : ℕ) (m : ClientManager) → Kept m (send_inf to i m)
unfolding send_inf
send_inf-Kept to i m =
    at-Kept i _
      λ e h. Kept-trans (put-Kept i e ((get_inf e).0) m h (get_inf-SameId e)) (write-Kept _ to _)

pub send_sup-Kept : (to i : ℕ) (m : ClientManager) → Kept m (send_sup to i m)
unfolding send_sup
send_sup-Kept to i m =
    at-Kept i _
      λ e h. Kept-trans (put-Kept i e ((get_sup e).0) m h (get_sup-SameId e)) (write-Kept _ to _)

pub send_sid-Kept : (a : ℕ) (m : ClientManager) → Kept m (send_sid a m)
unfolding send_sid
send_sid-Kept a m = at-Kept a _ λ e h. write-Kept m a _

pub send_infs-Kept : (es : List (ℕ × ℕ)) (a : ℕ) (m : ClientManager) → Kept m (send_infs es a m)
unfolding send_infs
send_infs-Kept [] a m = Kept-refl m
send_infs-Kept ((sid, i) ∷ es) a m =
    Kept-trans (send_inf-Kept a i m) (send_infs-Kept es a (send_inf a i m))

announce-Kept : (a : ℕ) (m : ClientManager) → Kept m (announce a m)
unfolding announce send_to_all
announce-Kept a m = at-Kept a _ λ e h.
    Kept-trans (put-Kept a e ((get_inf e).0) m h (get_inf-SameId e))
      (send_all_loop-Kept m.entities _ (put a ((get_inf e).0) m))

pub send_own-Kept : (a : ℕ) (send_data : Bool) (m : ClientManager) → Kept m (send_own a send_data m)
unfolding send_own
send_own-Kept a send_data m =
    if-Kept send_data (Kept-trans (announce-Kept a m) (send_inf-Kept a a (announce a m)))
      (announce-Kept a m)

pub drop_flag-Kept : (a : ℕ) (m : ClientManager) → Kept m (drop_flag a m)
unfolding drop_flag
drop_flag-Kept a m = at-Kept a _ λ e h. put-Kept a e _ m h (unset_flag-SameId e)

ask-Kept :
    (env : Env) (a : ℕ) (e : Entity) (cmd : AdcCommand) (m : ClientManager)
    → deref m a ≡ some e
    → Kept m (ask env a e cmd m)
unfolding ask
ask-Kept env a e cmd m h =
    Kept-trans (put-Kept a e (await e) m h (await-SameId e)) (logs-Kept refl refl refl refl refl)

-- The request is made with the entity and a command, or not at all.
pub send_hbri-cases :
    (env : Env) (a : ℕ) (m : ClientManager)
    → (send_hbri env a m ≡ (m, false))
      ⊎ ((e : Entity) × (cmd : AdcCommand) × (deref m a ≡ some e)
          × (send_hbri env a m ≡ (ask env a e cmd m, true)))
unfolding send_hbri
send_hbri-cases env a m = elim (Option-cases (deref m a)) [
  | inl h ↦ inl (rw (send_hbri, h) refl)
  | inr (e, h) ↦ elim (Option-cases (find a m.sockets)) [
    | inl k ↦ inl (rw (send_hbri, h, k) refl)
    | inr (s, k) ↦ elim (Bool-cases (has_support e hbri)) [
      | inr u ↦ inl (rw (send_hbri, h, k, u) refl)
      | inl u ↦ elim (Option-cases (hbri_params s (new_command cmd_tcp b'I' hub_sid))) [
        | inl c ↦ inl (rw (send_hbri, h, k, u, c) refl)
        | inr (cmd, c) ↦ inr (e, cmd, h, rw (send_hbri, h, k, u, c) refl)
      ]
    ]
  ]
]

pub send_hbri-Kept : (env : Env) (a : ℕ) (m : ClientManager) → Kept m ((send_hbri env a m).0)
send_hbri-Kept env a m = elim (send_hbri-cases env a m) [
  | inl q ↦ subst (λ r. Kept m r.0) (sym q) (Kept-refl m)
  | inr (e, cmd, at, q) ↦ subst (λ r. Kept m r.0) (sym q) (ask-Kept env a e cmd m at)
]

pub strip_protocol-Kept :
    (a : ℕ) (m n : ClientManager) → strip_protocol_supports a m ≡ some n → Kept m n
unfolding strip_protocol_supports
strip_protocol-Kept a m n h = elim (Option-cases (deref m a)) [
  | inl u ↦
      let q : strip_protocol_supports a m ≡ some m = rw (strip_protocol_supports, u) refl in
      subst (λ x. Kept m x) (some-injective _ _ (sym q ∙ h)) (Kept-refl m)
  | inr (e, u) ↦
      let q : strip_protocol_supports a m
          ≡ (strip_supports (is_v6 m a) e >>= λ f. some (put a f m)) =
        rw (strip_protocol_supports, u) refl in
      let (f, first, last) = bind_some (strip_supports (is_v6 m a) e) _ n (sym q ∙ h) in
      subst (λ x. Kept m x) (some-injective _ _ last)
        (put-Kept a e f m u (strip_supports-SameId (is_v6 m a) e f first))
]
