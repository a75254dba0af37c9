-- ===== src/ParamExpander/Weeks.antt =====
-- The week numbers are those that the C standard gives for `%U` and `%W`.
use adchubd.Base.{ℕ, ◌+◌, ◌-◌, ◌/◌, ◌%◌, ◌<◌, ◌≡◌, arith}
use adchubd.ParamExpander.{week, from_monday}

pub week_lem : (yday wday : ℕ) → wday < 7 → week yday wday ≡ (yday + 7 - wday) / 7
unfolding week
week_lem yday wday h = ground arith

pub week-from_monday :
    (yday wday : ℕ) → wday < 7 → week yday (from_monday wday) ≡ (yday + 7 - (wday + 6) % 7) / 7
unfolding week from_monday
week-from_monday yday wday h = ground arith
