-- ===== src/ClientManager/Timer/Expired.antt =====
-- adchpp/ClientManager.cpp: `onTimerSecond`, and its loop over the logins.
use adchubd.Base.{
  ℕ, ◌+◌, ◌<◌, ◌≤◌, ◌≡◌, subst, ◌≢◌, refl, sym, ◌∙◌, ap, true, false, List, [], ◌∷◌, ◌++◌, none,
  some, ltb, Bool-cases, inl, inr, ◌⊎◌, arith,
}
use adchubd.Base.Dict.{find, nat_eq, find-insert_own}
use adchubd.Entity.{Entity}
use adchubd.ClientManager.{ClientManager, deref}
use adchubd.ClientManager.Removal.{is_client}
use adchubd.ClientManager.Leaving.{close}
use adchubd.ClientManager.Hbri.{Env}
use adchubd.ClientManager.Tcp.{close_at}
use adchubd.ClientManager.Timer.{Timeouts, expire_tokens, expire_logins, on_timer_second}
use adchubd.Reason.{reason_login_timeout}
use adchubd.ClientManager.Invariant.{forward}
use adchubd.ClientManager.Invariant.Quiet.{client_not_hub}
use adchubd.ClientManager.Invariant.Moves.{close_at-Kept}

-- The clients of logins, in the order of the list.
abbrev pub IsIn : ℕ → List (ℕ × ℕ) → Type 0
IsIn a [] = ⊥
IsIn a ((b, time) ∷ logins) = (a ≡ b) ⊎ IsIn a logins

-- All of them are too old.
abbrev pub IsOld : Env → ℕ → List (ℕ × ℕ) → Type 0
IsOld env timeout [] = Unit {0}
IsOld env timeout ((a, time) ∷ logins) = (time + timeout < env.now) × IsOld env timeout logins

-- None of them, or one that is young enough comes first.
abbrev pub IsYoung : Env → ℕ → List (ℕ × ℕ) → Type 0
IsYoung env timeout [] = Unit {0}
IsYoung env timeout ((a, time) ∷ logins) = env.now ≤ time + timeout

close_at-closing :
    (a reason : ℕ) (m : ClientManager) (e : Entity)
    → deref m a ≡ some e
    → is_client e.kind ≡ true
    → find a (close_at a reason m).closing ≢ none
unfolding close_at close
close_at-closing a reason m e at k =
    let t = client_not_hub e.kind k in
    rw (close_at, at, close, t) (λ h. find-insert_own a reason m.closing h)

-- Nobody is taken back.
expire_logins-closing :
    (env : Env) (timeout : ℕ) (logins : List (ℕ × ℕ)) (m : ClientManager) (a : ℕ)
    → find a m.closing ≢ none
    → find a (expire_logins env timeout logins m).closing ≢ none
unfolding expire_logins
expire_logins-closing env timeout [] m a h = h
expire_logins-closing env timeout ((b, time) ∷ logins) m a h =
    elim (Bool-cases (ltb (time + timeout) env.now)) [
      | inr t ↦ rw (expire_logins, t) h
      | inl t ↦
          rw (expire_logins, t)
            (expire_logins-closing env timeout logins (close_at b reason_login_timeout m) a
              (λ z. h ((close_at-Kept b reason_login_timeout m).closing a z)))
    ]

-- If the logins begin with some that are older than the timeout, and the next one, if there is one,
-- is not, then those are gone from the list and no others, and every client among them has been told
-- to disconnect.
expire_logins-old :
    (env : Env) (timeout : ℕ) (old young : List (ℕ × ℕ)) (m : ClientManager)
    → IsOld env timeout old
    → IsYoung env timeout young
    → ((expire_logins env timeout (old ++ young) m).logins ≡ young)
      × ((a : ℕ) (e : Entity)
          → IsIn a old
          → deref m a ≡ some e
          → is_client e.kind ≡ true
          → find a (expire_logins env timeout (old ++ young) m).closing ≢ none)
unfolding expire_logins
expire_logins-old env timeout [] [] m o y = (refl, λ a e i. absurd i)
expire_logins-old env timeout [] ((b, time) ∷ young) m o y =
    let t : ltb (time + timeout) env.now ≡ false = ground arith in
    rw (expire_logins, t) (refl, λ a e i. absurd i)
expire_logins-old env timeout ((b, time) ∷ old) young m (now, o) y =
    let t : ltb (time + timeout) env.now ≡ true = ground arith in
    let m' = close_at b reason_login_timeout m in
    let k = close_at-Kept b reason_login_timeout m in
    let rest = expire_logins-old env timeout old young m' o y in
    rw (expire_logins, t)
      (
        rest.0,
        λ a e i at c. elim i [
          | inl q ↦ expire_logins-closing env timeout (old ++ young) m' a (
              subst (λ z. find z m'.closing ≢ none) (sym q)
                (close_at-closing b reason_login_timeout m e (ap (deref m) (sym q) ∙ at) c))
          | inr j ↦
              let (f, at', s) = forward (k.heap a) at in
              rest.1 a f j at' (ap is_client (sym s.kind) ∙ c)
        ],
      )

-- The loop of `onTimerSecond` over the validations, with their own timeout, ends in a state whose logins
-- begin with some that are older than the timeout of a login, and the next one, if there is one, is not.
-- Then `onTimerSecond` returns, those logins are gone from the list and no others, and every client among
-- them has been told to disconnect.
pub on_timer_second-old :
    (env : Env) (t : Timeouts) (old young : List (ℕ × ℕ)) (m n : ClientManager)
    → expire_tokens env t.hbri m.hbri_tokens m ≡ some n
    → n.logins ≡ old ++ young
    → IsOld env t.login old
    → IsYoung env t.login young
    → (r : ClientManager) × (on_timer_second env t m ≡ some r)
      × (r.logins ≡ young)
      × ((a : ℕ) (e : Entity)
          → IsIn a old
          → deref n a ≡ some e
          → is_client e.kind ≡ true
          → find a r.closing ≢ none)
unfolding on_timer_second
on_timer_second-old env t old young m n ends l o y =
    let (gone, told) = expire_logins-old env t.login old young n o y in
    (
      expire_logins env t.login (old ++ young) n,
      rw (on_timer_second, ends) (ap (λ ls. some (expire_logins env t.login ls n)) l),
      gone,
      told,
    )
