-- ===== src/Entity/Info/Cache.antt =====
-- The buffers that `getINF` and `getSUP` keep, against the fields and features that they show.
use adchubd.Base.{
  ℕ, ◌≡◌, refl, ◌∙◌, arith, List, [], ◌∷◌, Option, none, some, Bytes, ◌==◌, ltb, length, drop,
  Bool-cases, inl, inr, bit_and,
}
use adchubd.AdcCommand.{AdcCommand, to_field, to_four_cc}
use adchubd.Entity.{Entity, State}
use adchubd.Entity.Fields.{pd, set_field, update_field, update_loop, update_fields}
use adchubd.Entity.Flags.{
  set_flag, unset_flag, with_client_type, set_bits, unset_bits, mask_client_type,
}
use adchubd.Entity.Supports.{
  contains, add_supports, remove_supports, update_support, update_supports_loop, update_supports,
}
use adchubd.Entity.Info.{
  render_inf, render_sup, kept_inf, kept_sup, get_inf, get_sup, get_all_fields,
}

-- A kept buffer is what would be written anew.
pub record IsFresh (e : Entity) : Type 0 where
  pub inf_fresh : (b : Bytes) → e.inf ≡ some b → b ≡ render_inf e
  pub sup_fresh : (b : Bytes) → e.sup ≡ some b → b ≡ render_sup e

-- The buffers depend on the SID, the fields and the features alone.
render_inf-cong : (e d : Entity) → d.sid ≡ e.sid → d.fields ≡ e.fields → render_inf d ≡ render_inf e
unfolding render_inf get_all_fields
render_inf-cong e d s f = rw (s, f)

render_sup-cong :
    (e d : Entity) → d.sid ≡ e.sid → d.supports ≡ e.supports → render_sup d ≡ render_sup e
unfolding render_sup
render_sup-cong e d s f = rw (s, f)

set_field-IsFresh : (e : Entity) (name value : Bytes) → IsFresh e → IsFresh (set_field e name value)
unfolding set_field
set_field-IsFresh e name value h = record {
  inf_fresh = λ b n. cc;
  sup_fresh = λ b k. h.sup_fresh b k ∙ render_sup-cong (set_field e name value) e refl refl;
}

update_field-IsFresh : (e : Entity) (p : Bytes) → IsFresh e → IsFresh (update_field e p)
unfolding update_field
update_field-IsFresh e p h = elim (Bool-cases (ltb (length p) 2)) [
  | inl a ↦ rw a h
  | inr a ↦ elim (Bool-cases (to_field p == pd)) [
    | inl b ↦ rw (a, b) h
    | inr b ↦ rw (a, b) (set_field-IsFresh e p (drop 2 p) h)
  ]
]

update_loop-IsFresh : (ps : List Bytes) (e : Entity) → IsFresh e → IsFresh (update_loop e ps)
unfolding update_loop
update_loop-IsFresh [] e h = h
update_loop-IsFresh (p ∷ ps) e h = update_loop-IsFresh ps _ (update_field-IsFresh e p h)

with_flags-IsFresh : (e : Entity) (flags : ℕ) → IsFresh e → IsFresh (record e { flags = flags })
with_flags-IsFresh e flags h = record {
  inf_fresh = λ b k. h.inf_fresh b k ∙ render_inf-cong (record e { flags = flags }) e refl refl;
  sup_fresh = λ b k. h.sup_fresh b k ∙ render_sup-cong (record e { flags = flags }) e refl refl;
}

with_client_type-IsFresh : (e : Entity) (flag : ℕ) → IsFresh e → IsFresh (with_client_type e flag)
with_client_type-IsFresh e flag h = elim (Bool-cases (bit_and flag mask_client_type == 0)) [
  | inl z ↦ rw z h
  | inr z ↦ rw z (set_field-IsFresh e _ _ h)
]

with_supports-IsFresh :
    (e : Entity) (fs : List ℕ) → IsFresh e → IsFresh (record e { supports = fs; sup = none })
with_supports-IsFresh e fs h = record {
  inf_fresh =
      λ b k. h.inf_fresh b k ∙ render_inf-cong (record e { supports = fs; sup = none }) e refl refl;
  sup_fresh = λ b k. cc;
}

add_supports-IsFresh : (e : Entity) (f : ℕ) → IsFresh e → IsFresh (add_supports e f).0
unfolding add_supports
add_supports-IsFresh e f h = elim (Bool-cases (contains f e.supports)) [
  | inl a ↦ rw a h
  | inr a ↦ rw a (with_supports-IsFresh e _ h)
]

remove_supports-IsFresh : (e : Entity) (f : ℕ) → IsFresh e → IsFresh (remove_supports e f).0
unfolding remove_supports
remove_supports-IsFresh e f h = elim (Bool-cases (contains f e.supports)) [
  | inl a ↦ rw a (with_supports-IsFresh e _ h)
  | inr a ↦ rw a h
]

update_support-IsFresh : (e : Entity) (p : Bytes) → IsFresh e → IsFresh (update_support e p)
unfolding update_support
update_support-IsFresh e p h = ground (
  arith,
  add_supports-IsFresh e (to_four_cc (drop 2 p)) h,
  remove_supports-IsFresh e (to_four_cc (drop 2 p)) h,
)

update_supports_loop-IsFresh :
    (ps : List Bytes) (e : Entity) → IsFresh e → IsFresh (update_supports_loop e ps)
unfolding update_supports_loop
update_supports_loop-IsFresh [] e h = h
update_supports_loop-IsFresh (p ∷ ps) e h =
    update_supports_loop-IsFresh ps _ (update_support-IsFresh e p h)

-- What `getINF` and `getSUP` hand out, and the entity behind them.
abbrev pub Gives : Entity → (Entity × Bytes) → Bytes → Type 0
Gives e r b = IsFresh r.0 × (r.0.fields ≡ e.fields) × (r.0.supports ≡ e.supports) × (r.1 ≡ b)

kept_inf-Gives :
    (e : Entity) (o : Option Bytes) → e.inf ≡ o → IsFresh e → Gives e (kept_inf e o) (render_inf e)
unfolding kept_inf
kept_inf-Gives e (some b) k h = (h, refl, refl, h.inf_fresh b k)
kept_inf-Gives e none k h = (
  record {
    inf_fresh =
        λ b s. ground (arith, render_inf-cong e (record e { inf = some (render_inf e) }) refl refl);
    sup_fresh = λ b s.
        h.sup_fresh b s ∙ render_sup-cong (record e { inf = some (render_inf e) }) e refl refl;
  },
  refl,
  refl,
  refl,
)

kept_sup-Gives :
    (e : Entity) (o : Option Bytes) → e.sup ≡ o → IsFresh e → Gives e (kept_sup e o) (render_sup e)
unfolding kept_sup
kept_sup-Gives e (some b) k h = (h, refl, refl, h.sup_fresh b k)
kept_sup-Gives e none k h = (
  record {
    inf_fresh = λ b s.
        h.inf_fresh b s ∙ render_inf-cong (record e { sup = some (render_sup e) }) e refl refl;
    sup_fresh =
        λ b s. ground (arith, render_sup-cong e (record e { sup = some (render_sup e) }) refl refl);
  },
  refl,
  refl,
  refl,
)

-- The calls that change an entity, but for `removeClientSupport`.
pub data Update : Entity → Entity → Type 0 where
  sets_field : (e : Entity) (name value : Bytes) → Update e (set_field e name value)
  updates_fields : (e : Entity) (cmd : AdcCommand) → Update e (update_fields e cmd)
  adds_support : (e : Entity) (f : ℕ) → Update e (add_supports e f).0
  removes_support : (e : Entity) (f : ℕ) → Update e (remove_supports e f).0
  updates_supports : (e : Entity) (cmd : AdcCommand) → Update e (update_supports e cmd)
  sets_flag : (e : Entity) (flag : ℕ) → Update e (set_flag e flag)
  unsets_flag : (e : Entity) (flag : ℕ) → Update e (unset_flag e flag)
  sets_state : (e : Entity) (s : State) → Update e (record e { state = s })
  sets_cid : (e : Entity) (cid : Bytes) → Update e (record e { cid = cid })
  gets_inf : (e : Entity) → Update e (get_inf e).0
  gets_sup : (e : Entity) → Update e (get_sup e).0

pub data Updates (e : Entity) : Entity → Type 0 where
  here : Updates e e
  next : {d f : Entity} → Updates e d → Update d f → Updates e f

Update-IsFresh : {e d : Entity} → Update e d → IsFresh e → IsFresh d
Update-IsFresh (sets_field e name value) h = set_field-IsFresh e name value h
Update-IsFresh (updates_fields e cmd) h =
    unfold update_fields in update_loop-IsFresh cmd.parameters e h
Update-IsFresh (adds_support e f) h = add_supports-IsFresh e f h
Update-IsFresh (removes_support e f) h = remove_supports-IsFresh e f h
Update-IsFresh (updates_supports e cmd) h =
    unfold update_supports in update_supports_loop-IsFresh cmd.parameters e h
Update-IsFresh (sets_flag e flag) h =
    unfold set_flag in
    with_client_type-IsFresh _ flag (with_flags-IsFresh e (set_bits e.flags flag) h)
Update-IsFresh (unsets_flag e flag) h =
    unfold unset_flag in
    with_client_type-IsFresh _ flag (with_flags-IsFresh e (unset_bits e.flags flag) h)
Update-IsFresh (sets_state e s) h = record {
  inf_fresh = λ b k. h.inf_fresh b k ∙ render_inf-cong (record e { state = s }) e refl refl;
  sup_fresh = λ b k. h.sup_fresh b k ∙ render_sup-cong (record e { state = s }) e refl refl;
}
Update-IsFresh (sets_cid e c) h = record {
  inf_fresh = λ b k. h.inf_fresh b k ∙ render_inf-cong (record e { cid = c }) e refl refl;
  sup_fresh = λ b k. h.sup_fresh b k ∙ render_sup-cong (record e { cid = c }) e refl refl;
}
Update-IsFresh (gets_inf e) h = unfold get_inf in (kept_inf-Gives e e.inf refl h).0
Update-IsFresh (gets_sup e) h = unfold get_sup in (kept_sup-Gives e e.sup refl h).0

Updates-IsFresh : {e d : Entity} → IsFresh e → Updates e d → IsFresh d
Updates-IsFresh h here = h
Updates-IsFresh h (next u s) = Update-IsFresh s (Updates-IsFresh h u)

-- After any sequence of calls that change an entity, `removeClientSupport` excepted, `getINF` and
-- `getSUP` hand out what its present fields and features are written as, kept buffer or not, and
-- change neither fields nor features.
pub get_inf-Updates :
    {e d : Entity}
    → IsFresh e
    → Updates e d
    → Gives d (get_inf d) (render_inf d) × Gives d (get_sup d) (render_sup d)
unfolding get_inf get_sup
get_inf-Updates {e} {d} h u =
    let f = Updates-IsFresh h u in (kept_inf-Gives d d.inf refl f, kept_sup-Gives d d.sup refl f)
