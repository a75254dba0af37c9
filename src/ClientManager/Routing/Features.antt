-- ===== src/ClientManager/Routing/Features.antt =====
-- adchpp/ClientManager.cpp and adchpp/Entity.cpp: whom `send` writes a command of the type F to.
use adchubd.Base.{
  ℕ, ◌≡◌, refl, ◌∙◌, ap, Bool, true, false, not, ◌&&◌, ◌||◌, List, [], ◌∷◌, none, some,
  Option-cases, is_empty, All, Bytes, inl, inr,
}
use adchubd.Base.Dict.{nat_eq}
use adchubd.AdcCommand.{AdcCommand}
use adchubd.AdcCommand.Print.{to_string}
use adchubd.Entity.Supports.Filters.{Selector, code, IsWord, written, admits, is_filtered-written}
use adchubd.ClientManager.{ClientManager, deref}
use adchubd.ClientManager.Routing.{is_ignored, filtered_at, send}
use adchubd.ClientManager.Routing.Delivered.{chosen, targets, deliver, send-targets}

-- The entity has filters at all, every feature that is asked for, and none that is excluded.
unfoldable pub admitted_at : ClientManager → List Selector → ℕ → Bool
admitted_at m ss a = elim (deref m a) [
  | none ↦ false
  | some e ↦ not (is_empty e.filters) && admits e.filters ss
]

filtered_at-written :
    (m : ClientManager) (ss : List Selector) (a : ℕ)
    → All (λ s. IsWord (code s)) ss
    → not (filtered_at m (written ss) a) ≡ admitted_at m ss a
unfolding filtered_at admitted_at
filtered_at-written m ss a w = elim (Option-cases (deref m a)) [
  | inl t ↦ rw (filtered_at, admitted_at, t) refl
  | inr (e, t) ↦
      rw (filtered_at, admitted_at, t)
        (ap not (is_filtered-written e ss w) ∙ de_morgan (is_empty e.filters) (admits e.filters ss))
]
  where
    de_morgan : (a b : Bool) → not (a || not b) ≡ (not a && b)
    de_morgan true b = refl
    de_morgan false true = refl
    de_morgan false false = refl

chosen-ext :
    (f g : ℕ → Bool) (es : List (ℕ × ℕ)) → ((a : ℕ) → f a ≡ g a) → chosen f es ≡ chosen g es
unfolding chosen
chosen-ext f g [] h = refl
chosen-ext f g ((sid, a) ∷ es) h = rw (h a, chosen-ext f g es h) refl

module _ {ℓ} {P : Type ℓ} (signal_send : ℕ → AdcCommand → ClientManager → P → P × Bool) where
  -- If the plugins let every command pass, `send` of a command of the type F that is not to be ignored,
  -- and whose feature list is written as the protocol says, adds one copy for each of the entities, in
  -- their order, that have filters at all, have every feature that the command asks for with "+", and
  -- have none that it excludes with "-". It changes nothing else.
  pub send-written :
      ((a : ℕ) (c : AdcCommand) (m : ClientManager) (p : P) → (signal_send a c m p).1 ≡ true)
      → (cmd : AdcCommand) (s : ClientManager × P) (ss : List Selector)
      → is_ignored cmd.priority ≡ false
      → cmd.type ≡ b'F'
      → cmd.features ≡ written ss
      → All (λ s. IsWord (code s)) ss
      → (send signal_send cmd s).0
        ≡ deliver (chosen (admitted_at (s.0) ss) s.0.entities) (to_string cmd) (s.0)
  send-written pass cmd s ss i t f w =
      send-targets signal_send pass cmd s
      ∙ ap (λ (xs : List ℕ). deliver xs (to_string cmd) (s.0))
          (selected
            ∙ chosen-ext _ _ s.0.entities (λ a.
              ap (λ (u : Bytes). not (filtered_at (s.0) u a)) f ∙ filtered_at-written (s.0) ss a w))
    where
      selected :
          targets cmd (s.0) ≡ chosen (λ a. not (filtered_at (s.0) cmd.features a)) s.0.entities
      selected = unfold targets in rw (i, t) refl
