-- ===== src/Entity/Plugins.antt =====
-- adchpp/Entity.cpp: the data that a plugin keeps with an entity. For each handle that a plugin has
-- registered, a dictionary from the addresses of the entities to their data.
use adchubd.Base.{ℕ, List, Option}
use adchubd.Base.Dict.{find, insert, erase, nat_eq}

module _ {ℓ} {A : Type ℓ} where
  unfoldable pub get_plugin_data : ℕ → List (ℕ × A) → Option A
  get_plugin_data e m = find e m

  unfoldable pub clear_plugin_data : ℕ → List (ℕ × A) → List (ℕ × A)
  clear_plugin_data e m = erase e m

  unfoldable pub set_plugin_data : ℕ → A → List (ℕ × A) → List (ℕ × A)
  set_plugin_data e d m = insert e d (clear_plugin_data e m)
