-- ===== src/ParamExpander.antt =====
-- baselib/ParamExpander.cpp: texts with parameters, which begin with a percent sign. The system is not
-- Windows. Positions are indices into the text.
pub mod Ends
pub mod Doubled
pub mod Weeks
use adchubd.Base.{
  ℕ, zero, suc, ◌+◌, ◌-◌, ◌/◌, ◌%◌, Bool, true, false, ◌&&◌, ◌||◌, List, [], ◌∷◌, ◌++◌, Option,
  none, some, Bytes, ltb, leb, ◌==◌, same, if◌then◌else◌, length, take, drop, get_or, is_empty,
  codes,
}
use adchubd.Base.Dict.{find, bytes_eq}

abbrev pub is_bad : ℕ → Bool
is_bad c = c == b'\\' || c == b'/'

-- What stands before the first bad character, and behind it.
unfoldable pub split_bad : Bytes → Option (Bytes × Bytes)
split_bad [] = none
split_bad (c ∷ s) =
    if is_bad c
    then some ([], s)
    else elim (split_bad s) [ none ↦ none | some p ↦ some (c ∷ p.0, p.1) ]

-- The loop of `appendFiltered` on what is left of the value. Each round passes a character, so that
-- the length is enough fuel.
unfoldable pub filter_loop : ℕ → Bytes → Bytes → Bytes
filter_loop zero out s = out
filter_loop (suc fuel) out s = elim (split_bad s) [
  | none ↦ out ++ s
  | some p ↦ filter_loop fuel (out ++ (p.0 ++ b'_' ∷ [])) p.1
]

unfoldable pub append_filtered : Bytes → Bytes → Bytes
append_filtered out s =
    if same s (codes "..") then out ++ codes "__" else filter_loop (suc (length s)) out s

-- The virtual functions of `ParamExpander`: the value of a name between brackets, given by where it
-- begins and ends, and the value of the letters at a position with their number.
pub record ParamExpander : Type 0 where
  pub expand_bracket : Bytes → ℕ → ℕ → Bytes
  pub expand_char_sequence : Bytes → ℕ → Bytes × ℕ

unfoldable pub index_of : ℕ → Bytes → Option ℕ
index_of c [] = none
index_of c (x ∷ s) =
    if x == c then some 0 else elim (index_of c s) [ none ↦ none | some i ↦ some (suc i) ]

-- `s.find(c, from)`
unfoldable pub find_char : ℕ → Bytes → ℕ → Option ℕ
find_char c s from = elim (index_of c (drop from s)) [ none ↦ none | some i ↦ some (from + i) ]

-- `out.append(s, from, n)`
abbrev pub append_part : Bytes → Bytes → ℕ → ℕ → Bytes
append_part out s from n = out ++ take n (drop from s)

module _ (ex : ParamExpander) (filter : Bool) where
  abbrev pub append_value : Bytes → Bytes → Bytes
  append_value out value = if filter then append_filtered out value else out ++ value

  -- What a percent sign that is not the last character leads to: the text so far, and the position
  -- to go on from, unless the loop is left. `pos` is the position behind the sign.
  unfoldable pub at_percent : Bytes → ℕ → ℕ → Bytes → Bytes × Option ℕ
  at_percent s prev pos out =
      let c = get_or s pos 0 in
      if c == b'%'
      then (append_part out s prev (pos - prev), some (pos + 1))
      else if c == b'['
      then elim (find_char b']' s (pos + 1)) [
        | none ↦ (append_part out s prev (pos - prev - 1), none)
        | some end ↦ (
          append_value (append_part out s prev (pos - prev - 1))
              (ex.expand_bracket s (pos + 1) end),
          some (end + 1),
        )
      ]
      else let e = ex.expand_char_sequence s pos in
        (
          (if ltb 0 (e.1)
              then append_value (append_part out s prev (pos - prev - 1)) (e.0)
              else append_part out s prev (pos - prev)),
          some (pos + e.1),
        )

  -- The loop of `formatParams`. `none` means that the fuel ran out.
  unfoldable pub format_loop : ℕ → Bytes → ℕ → Bytes → Option Bytes
  format_loop zero s prev out = none
  format_loop (suc fuel) s prev out = elim (ltb prev (length s)) [
    | false ↦ some out
    | true ↦ elim (find_char b'%' s prev) [
      | none ↦ some (out ++ drop prev s)
      | some at ↦ elim (at == length s - 1) [
        | true ↦ some (out ++ drop prev s)
        | false ↦
            let step = at_percent s prev (at + 1) out in
            elim step.1 [ none ↦ some (step.0) | some next ↦ format_loop fuel s next (step.0) ]
      ]
    ]
  ]

  unfoldable pub format_params : Bytes → Option Bytes
  format_params s = format_loop (suc (length s)) s 0 []

-- The fields of `struct tm` that are read.
pub record Tm : Type 0 where
  pub tm_sec : ℕ
  pub tm_min : ℕ
  pub tm_hour : ℕ
  pub tm_mday : ℕ
  pub tm_mon : ℕ
  pub tm_year : ℕ
  pub tm_wday : ℕ
  pub tm_yday : ℕ

-- The hour of a clock of twelve hours.
unfoldable pub hour12 : ℕ → ℕ
hour12 hour = if hour == 0 then 12 else if ltb 12 hour then hour - 12 else hour

-- The number of the week, where `wday` is the day of the week, counted from the day it begins with.
unfoldable pub week : ℕ → ℕ → ℕ
week yday wday = if ltb yday wday then 0 else if leb wday (yday % 7) then yday / 7 + 1 else yday / 7

-- The days of the week from Monday on.
unfoldable pub from_monday : ℕ → ℕ
from_monday wday = if wday == 0 then 6 else wday - 1

abbrev pub by_library : ℕ → Bool
by_library c =
    c == b'a'
    || c == b'A'
    || c == b'b'
    || c == b'B'
    || c == b'c'
    || c == b'p'
    || c == b'x'
    || c == b'X'
    || c == b'Z'

-- The number that a letter stands for, with the least number of its digits.
unfoldable pub value_of : Tm → ℕ → Option (ℕ × ℕ)
value_of lt c =
    if c == b'd'
    then some (2, lt.tm_mday)
    else if c == b'H'
    then some (2, lt.tm_hour)
    else if c == b'I'
    then some (2, hour12 lt.tm_hour)
    else if c == b'j'
    then some (3, lt.tm_yday + 1)
    else if c == b'm'
    then some (2, lt.tm_mon + 1)
    else if c == b'M'
    then some (2, lt.tm_min)
    else if c == b'S'
    then some (2, lt.tm_sec)
    else if c == b'U'
    then some (2, week lt.tm_yday lt.tm_wday)
    else if c == b'w'
    then some (1, lt.tm_wday)
    else if c == b'W'
    then some (2, week lt.tm_yday (from_monday lt.tm_wday))
    else if c == b'y'
    then some (2, lt.tm_year % 100)
    else if c == b'Y'
    then some (1, lt.tm_year + 1900)
    else none

-- `strftime` with one letter, which may fail, and `snprintf` with a least number of digits, are the C
-- library's; `initialize` gives the time, or fails.
module _ (strftime : Tm → ℕ → Option Bytes) (snprintf : ℕ → ℕ → Bytes) where
  abbrev pub used : Option Bytes → Bytes × ℕ
  used none = ([], 0)
  used (some s) = (s, 1)

  abbrev pub formatted : Option (ℕ × ℕ) → Bytes × ℕ
  formatted none = ([], 0)
  formatted (some (digits, v)) =
      if is_empty (snprintf digits v) then ([], 0) else (snprintf digits v, 1)

  -- `TimeParamExpander::expandCharSequence`
  unfoldable pub expand_time : Option Tm → Bytes → ℕ → Bytes × ℕ
  expand_time none s pos = ([], 0)
  expand_time (some lt) s pos =
      let c = get_or s pos 0 in
      if by_library c then used (strftime lt c) else formatted (value_of lt c)

  -- `MapParamExpander`
  abbrev pub map_param_expander : List (Bytes × Bytes) → Option Tm → ParamExpander
  map_param_expander m time = record {
    expand_bracket = λ s pos end.
        let param = take (end - pos) (drop pos s) in
        if is_empty param then [] else elim (find param m) [ none ↦ [] | some value ↦ value ];
    expand_char_sequence = λ s pos. expand_time time s pos;
  }
