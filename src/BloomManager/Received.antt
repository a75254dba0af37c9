-- ===== src/BloomManager/Received.antt =====
-- The filter that a client sends, and the searches that reach it.
use adchubd.Base.{
  ℕ, zero, suc, ◌+◌, ◌*◌, ◌/◌, ◌<◌, ◌≡◌, refl, sym, ap, ◌∙◌, subst, true, false, inl, inr, List, [],
  ◌∷◌, ◌++◌, append_assoc, append-nil, none, some, Bytes, Bool-cases, arith, ◌==◌, ==_refl, ==_iff,
  ◌≤◌, length, length-append, get_elem?, All, codes,
}
use mathlib.Core.Option.{some-injective}
use adchubd.Base.Dict.{erase, find-insert_new, find-erase, nat_eq}
use adchubd.Entity.{Entity}
use adchubd.Entity.Fields.{get_field}
use adchubd.Entity.Plugins.{get_plugin_data, set_plugin_data, clear_plugin_data}
use adchubd.AdcCommand.{AdcCommand}
use adchubd.AdcCommand.Codes.{cmd_sch}
use adchubd.AdcCommand.Params.{get_param}
use adchubd.StrUtil.{to_int}
use adchubd.ManagedSocket.Stream.{joined}
use adchubd.HashBloom.{HashBloom, bits_of, byte_bits, reset, matches}
use adchubd.HashBloom.Added.{add_all, Extends, add_all-matches}
use adchubd.BloomManager.{
  BloomManager, PendingItem, on_pending, on_data, on_send, on_search, has_tth, tth_value, h,
}

module _ {ℓ} {A : Type ℓ} where
  clear_plugin_data-get :
      (a : ℕ) (m : List (ℕ × A)) → get_plugin_data a (clear_plugin_data a m) ≡ none
  unfolding get_plugin_data clear_plugin_data
  clear_plugin_data-get a m = find-erase a a m ∙ rw (==_refl a) refl

  set_plugin_data-get :
      (a : ℕ) (d : A) (m : List (ℕ × A)) → get_plugin_data a (set_plugin_data a d m) ≡ some d
  unfolding get_plugin_data set_plugin_data clear_plugin_data
  set_plugin_data-get a d m =
      find-insert_new a d (erase a m) (find-erase a a m ∙ rw (==_refl a) refl)

-- The blocks of bytes that arrive for a client, one after the other.
unfoldable pub on_blocks : ℕ → List Bytes → BloomManager → BloomManager
on_blocks a [] b = b
on_blocks a (s ∷ blocks) b = on_blocks a blocks (on_data a s b)

on_data-none :
    (a : ℕ) (s : Bytes) (b : BloomManager) → get_plugin_data a b.pending ≡ none → on_data a s b ≡ b
unfolding on_data
on_data-none a s b e = rw (e, on_data) refl

on_data-some :
    (a : ℕ) (s : Bytes) (p : PendingItem) (b : BloomManager)
    → get_plugin_data a b.pending ≡ some p
    → on_data a s b ≡ on_pending a p s b
unfolding on_data
on_data-some a s p b e = rw (e, on_data) refl

-- Without a pending filter nothing happens.
on_blocks-none :
    (a : ℕ) (blocks : List Bytes) (b : BloomManager)
    → get_plugin_data a b.pending ≡ none
    → on_blocks a blocks b ≡ b
unfolding on_blocks
on_blocks-none a [] b e = refl
on_blocks-none a (s ∷ blocks) b e = rw (on_data-none a s b e) (on_blocks-none a blocks b e)

-- What a client has once all the bytes have come: the filter that they make.
abbrev Has : ℕ → HashBloom → ℕ → BloomManager → Type 0
Has a f stopped b = (get_plugin_data a b.blooms ≡ some f) × (b.stopped ≡ stopped)

on_pending-full :
    (a : ℕ) (p : PendingItem) (s : Bytes) (b : BloomManager)
    → (length (p.buffer ++ s) == p.m / 8) ≡ true
    → Has a (reset (p.buffer ++ s) p.k h) b.stopped (on_pending a p s b)
      × (get_plugin_data a (on_pending a p s b).pending ≡ none)
unfolding on_pending
on_pending-full a p s b full = rw full (
  (set_plugin_data-get a (reset (p.buffer ++ s) p.k h) b.blooms, refl),
  clear_plugin_data-get a b.pending,
)

on_pending-part :
    (a : ℕ) (p : PendingItem) (s : Bytes) (b : BloomManager)
    → (length (p.buffer ++ s) == p.m / 8) ≡ false
    → (get_plugin_data a (on_pending a p s b).pending ≡ some (record p { buffer = p.buffer ++ s }))
      × ((on_pending a p s b).stopped ≡ b.stopped)
unfolding on_pending
on_pending-part a p s b part =
    rw part (set_plugin_data-get a (record p { buffer = p.buffer ++ s }) b.pending, refl)

no_bytes : (s t : Bytes) → length (s ++ t) ≡ length s → t ≡ []
no_bytes s [] e = refl
no_bytes s (x ∷ t) e = absurd (omega (arith, length-append s (x ∷ t), e))

on_blocks-Has :
    (a : ℕ) (blocks : List Bytes) (p : PendingItem) (b : BloomManager)
    → get_plugin_data a b.pending ≡ some p
    → length (p.buffer ++ joined blocks) ≡ p.m / 8
    → length p.buffer < p.m / 8
    → Has a (reset (p.buffer ++ joined blocks) p.k h) b.stopped (on_blocks a blocks b)
unfolding on_blocks joined
on_blocks-Has a [] p b at all more = absurd (omega (arith, all, length-append p.buffer []))
on_blocks-Has a (s ∷ blocks) p b at all more =
    let t = joined blocks in
    let grown : Bytes = p.buffer ++ s in
    let e : p.buffer ++ (s ++ t) ≡ grown ++ t = sym (append_assoc p.buffer s t) in
    subst (λ c. Has a (reset (p.buffer ++ (s ++ t)) p.k h) b.stopped (on_blocks a blocks c))
      (sym (on_data-some a s p b at))
      (subst
        (λ (u : Bytes). Has a (reset u p.k h) b.stopped (on_blocks a blocks (on_pending a p s b)))
        (append_assoc p.buffer s t)
        (elim (Bool-cases (length grown == p.m / 8)) [
          | inl full ↦
              let (has, none_left) = on_pending-full a p s b full in
              let sized : length grown ≡ p.m / 8 = (==_iff _ _).0 full in
              let done : t ≡ [] = no_bytes grown t (ap length (sym e) ∙ all ∙ sym sized) in
              rw (done, append-nil, on_blocks-none a blocks (on_pending a p s b) none_left) has
          | inr part ↦
              let (pending, same) = on_pending-part a p s b part in
              let next = record p { buffer = grown } in
              let size = ap length (sym e) ∙ all in
              let room : length grown < p.m / 8 =
                below _ _ part (omega (arith, size, length-append grown t)) in
              let (f, q) = on_blocks-Has a blocks next (on_pending a p s b) pending size room in
              (f, q ∙ same)
        ]))
  where
    below : (n m : ℕ) → (n == m) ≡ false → n ≤ m → n < m
    below n m ne le = ground arith

length-byte_bits : (v r j : ℕ) → length (byte_bits v r j) ≡ r
unfolding byte_bits
length-byte_bits v zero j = refl
length-byte_bits v (suc r) j = ap suc (length-byte_bits v r (j + 1))

length-bits_of : (s : Bytes) → length (bits_of s) ≡ 8 * length s
unfolding bits_of
length-bits_of [] = refl
length-bits_of (v ∷ s) =
    omega
      (arith, length-append (byte_bits v 8 0) (bits_of s), length-byte_bits v 8 0, length-bits_of s)

All-get :
    {A : Type 0} (P : A → Type 0) (xs : List A) (i : ℕ) {x : A}
    → get_elem? xs i ≡ some x
    → All P xs
    → P x
All-get P [] i e all = absurd (cc)
All-get P (y ∷ xs) zero e (p, all) = subst P (some-injective _ _ e) p
All-get P (y ∷ xs) (suc i) e (p, all) = All-get P xs i e all

-- A search for a hash that the filter of a client has.
on_search-found :
    (e : Entity) (a : ℕ) (tr : Bytes) (b : BloomManager) (f : HashBloom)
    → get_plugin_data a b.blooms ≡ some f
    → matches (tth_value tr) f ≡ true
    → (to_int (get_field e (codes "SF")) == 0) ≡ false
    → ((on_search e a tr b).1 ≡ true) × ((on_search e a tr b).0.stopped ≡ b.stopped)
unfolding on_search has_tth
on_search-found e a tr b f at found shares =
    rw (at, on_search, has_tth) (rw (found, shares) (refl, refl))

on_send-found :
    (e : Entity) (a : ℕ) (cmd : AdcCommand) (tr : Bytes) (b : BloomManager) (f : HashBloom)
    → cmd.cmd_int ≡ cmd_sch
    → get_param cmd (codes "TR") 0 ≡ some tr
    → get_plugin_data a b.blooms ≡ some f
    → matches (tth_value tr) f ≡ true
    → (to_int (get_field e (codes "SF")) == 0) ≡ false
    → ((on_send e a cmd true b).1 ≡ true) × ((on_send e a cmd true b).0.stopped ≡ b.stopped)
unfolding on_send
on_send-found e a cmd tr b f sch at got found shares =
    rw ((==_iff cmd.cmd_int cmd_sch).1 sch, at) (on_search-found e a tr _ f got found shares)

reset-eq :
    (f : HashBloom) (s : Bytes) (k : ℕ) → bits_of s ≡ f.bloom → f.k ≡ k → f.h ≡ h → reset s k h ≡ f
unfolding reset
reset-eq f s k p q r = λ i. record { bloom = p i; k = sym q i; h = sym r i }

-- A client has been asked for a filter of some bits and hashes; it adds the hashes of its files to a
-- filter of that shape, and sends its bytes, which arrive in any blocks. Then a search for one of
-- these hashes is passed on to the client, as long as it shares a number of files that is not zero,
-- and none counts as stopped.
pub received-found :
    (a : ℕ) (p : PendingItem) (b : BloomManager) (files : List Bytes) (own filter : HashBloom)
    (blocks : List Bytes) (e : Entity) (cmd : AdcCommand) (tr : Bytes) (i : ℕ)
    → get_plugin_data a b.pending ≡ some p
    → p.buffer ≡ []
    → 0 < p.m
    → (length own.bloom ≡ p.m) × (own.k ≡ p.k) × (own.h ≡ h)
    → add_all files own ≡ some filter
    → bits_of (joined blocks) ≡ filter.bloom
    → cmd.cmd_int ≡ cmd_sch
    → get_param cmd (codes "TR") 0 ≡ some tr
    → get_elem? files i ≡ some (tth_value tr)
    → (to_int (get_field e (codes "SF")) == 0) ≡ false
    → ((on_send e a cmd true (on_blocks a blocks b)).1 ≡ true)
      × ((on_send e a cmd true (on_blocks a blocks b)).0.stopped ≡ b.stopped)
received-found a p b files own filter blocks e cmd tr i at fresh some_bits (sm, sk, sh) added sent
      sch par file shares =
    let (f, e', x, all) = add_all-matches files own (subst (λ n. 0 < n) (sym sm) some_bits) in
    let same : f ≡ filter = some-injective _ _ (sym e' ∙ added) in
    let shape : Extends own filter = subst (Extends own) same x in
    let v = joined blocks in
    let sized : length v ≡ p.m / 8 =
      omega (arith, length-bits_of v, ap length sent, shape.0.0, sm) in
    let room : length p.buffer < p.m / 8 =
      omega (arith, ap length fresh, length-bits_of v, ap length sent, shape.0.0, sm, some_bits) in
    let begun : p.buffer ++ v ≡ v = ap (λ (u : Bytes). u ++ v) fresh in
    let (got, kept) = on_blocks-Has a blocks p b at (ap length begun ∙ sized) room in
    let is_filter =
      ap (λ (u : Bytes). reset u p.k h) begun
      ∙ reset-eq filter v p.k sent (shape.1 ∙ sk) (shape.2 ∙ sh) in
    let found =
      All-get (λ t. matches t filter ≡ true) files i file
        (subst (λ g. All (λ t. matches t g ≡ true) files) same all) in
    let (passes, counts) =
      on_send-found e a cmd tr (on_blocks a blocks b) filter sch par (got ∙ ap some is_filter) found
        shares in
    (passes, counts ∙ kept)
