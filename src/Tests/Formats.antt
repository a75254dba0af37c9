-- ===== src/Tests/Formats.antt =====
-- baselib/ParamExpander.cpp at concrete inputs.
use adchubd.Base.{◌≡◌, refl, true, [], ◌∷◌, none, some, Bytes, codes, same, is_empty}
use adchubd.Base.Dict.{find}
use adchubd.StrUtil.{to_string, digits_loop}
use adchubd.ParamExpander.{
  ParamExpander, Tm, map_param_expander, expand_time, value_of, week, split_bad, filter_loop,
  append_filtered, index_of, find_char, at_percent, format_loop, format_params,
}
use adchubd.ParamExpander.Doubled.{doubled, format_params-ends}

abbrev noon : Tm
noon = record {
  tm_sec = 5;
  tm_min = 30;
  tm_hour = 12;
  tm_mday = 24;
  tm_mon = 11;
  tm_year = 121;
  tm_wday = 5;
  tm_yday = 357;
}

abbrev expander : ParamExpander
expander =
    map_param_expander (λ lt c. none) (λ n v. to_string v) ((codes "nick", codes "a/b") ∷ [])
      (some noon)

format_params_run :
    format_params expander true (codes "%[nick] 100%% %Y %U %q%")
    ≡ some (codes "a_b 100% 2021 51 %q%")
unfolding format_params format_loop at_percent find_char index_of append_filtered filter_loop
    split_bad find expand_time value_of week same is_empty to_string digits_loop
format_params_run = refl

format_params-ends_example :
    ((s : Bytes) → (r : Bytes) × (format_params expander true s ≡ some r))
    × ((t : Bytes) → format_params expander true (doubled t) ≡ some t)
format_params-ends_example = format_params-ends expander true
