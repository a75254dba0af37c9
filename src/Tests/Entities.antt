-- ===== src/Tests/Entities.antt =====
-- adchpp/Entity.cpp at concrete inputs.
use adchubd.Base.{ℕ, ◌<◌, ◌≡◌, refl, [], ◌∷◌, true, some, none, codes, length, is_empty}
use adchubd.AdcCommand.{AdcCommand, new_command, to_sid, from_sid}
use adchubd.Entity.{Entity, client, identify}
use adchubd.Entity.Fields.{
  su, pd, lookup, assign, or_empty, filters_of, four_ccs, set_field, update_fields,
}
use adchubd.Entity.Fields.Laws.{IsConsistent, update_fields-IsConsistent, update_fields-pd}
use adchubd.Entity.Info.{get_inf, get_sup, render_inf, render_sup, cmd_inf}
use adchubd.Entity.Info.Cache.{IsFresh, here, next, sets_field, Gives, get_inf-Updates}
use adchubd.Entity.Info.Stale.{remove_client_support_stale}
use adchubd.Entity.Supports.{
  contains, erase_first, done, remove_client_support, strip_feature, find_bytes, begins, cut_after,
}
use adchubd.Entity.Supports.Filters.{joined}
use adchubd.Entity.Supports.Removing.{remove_client_support_last}

-- The codes of "ADC0" and "TCP4", and a client that has announced both.
abbrev adc0 : ℕ
adc0 = 0x30434441

abbrev tcp4 : ℕ
tcp4 = 0x34504354

abbrev alice : Entity
alice = record {
  kind = client;
  cid = [];
  sid = 0x42414141;
  flags = 0;
  state = identify;
  supports = 1 ∷ 2 ∷ [];
  filters = adc0 ∷ tcp4 ∷ [];
  fields = (su, codes "ADC0,TCP4") ∷ [];
  inf = none;
  sup = none;
}

alice-IsConsistent : IsConsistent alice
unfolding lookup filters_of four_ccs to_sid
alice-IsConsistent = record { ordered = tt; filters_match = refl }

abbrev introduction : AdcCommand
introduction = record (new_command cmd_inf b'B' 0x42414141) {
  parameters = codes "NIalice" ∷ codes "PDsecret" ∷ codes "NIbob" ∷ [];
}

update_fields-IsConsistent_example : IsConsistent (update_fields alice introduction)
update_fields-IsConsistent_example =
    update_fields-IsConsistent alice introduction alice-IsConsistent

update_fields-pd_example :
    lookup pd (update_fields alice introduction).fields ≡ lookup pd alice.fields
update_fields-pd_example = update_fields-pd alice introduction tt

alice-IsFresh : IsFresh alice
alice-IsFresh = record { inf_fresh = λ b e. cc; sup_fresh = λ b e. cc }

abbrev bob : Entity
bob = set_field alice (codes "NI") (codes "bob")

get_inf-Updates_example :
    Gives bob (get_inf bob) (render_inf bob) × Gives bob (get_sup bob) (render_sup bob)
get_inf-Updates_example =
    get_inf-Updates alice-IsFresh (next here (sets_field alice (codes "NI") (codes "bob")))

joined_text : joined (adc0 ∷ tcp4 ∷ []) ≡ codes "ADC0,TCP4"
unfolding joined from_sid
joined_text = refl

-- The client has two SUP features, so that one byte is left of "ADC0,".
remove_client_support_last_example :
    remove_client_support alice tcp4
    ≡ done
        (record alice {
          filters = erase_first tcp4 alice.filters;
          fields = assign su (codes "A") alice.fields;
        })
        true
unfolding lookup contains find_bytes begins from_sid
remove_client_support_last_example =
    remove_client_support_last alice tcp4 (codes "ADC0") refl refl refl

abbrev shown : Entity
shown = record alice { inf = some (codes "BINF AAAB SUADC0,TCP4\n") }

abbrev stripped : Entity
stripped = record shown { filters = adc0 ∷ []; fields = (su, codes "A") ∷ [] }

remove_client_support_stale_example :
    (length (or_empty (lookup su stripped.fields)) < length (or_empty (lookup su shown.fields)))
    × ((get_inf stripped).1 ≡ codes "BINF AAAB SUADC0,TCP4\n")
unfolding lookup contains find_bytes begins from_sid remove_client_support strip_feature cut_after
    assign erase_first is_empty
remove_client_support_stale_example =
    remove_client_support_stale shown stripped tcp4 (codes "BINF AAAB SUADC0,TCP4\n") refl refl
