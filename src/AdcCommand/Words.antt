-- ===== src/AdcCommand/Words.antt =====
-- The four bytes of an integer, there and back.
use adchubd.Base.{Bytes, ◌++◌, ℕ, ◌<◌, ◌^◌, ◌≡◌, arith, [], ◌∷◌, All, length}
use adchubd.AdcCommand.{from_sid, to_sid}

pub to_sid-from_sid : (w : ℕ) → w < 2 ^ 32 → to_sid (from_sid w) ≡ w
unfolding to_sid from_sid
to_sid-from_sid w h = omega arith

pub from_sid-to_sid :
    (a b c d : ℕ)
    → All (λ x. x < 256) (a ∷ b ∷ c ∷ d ∷ [])
    → from_sid (to_sid (a ∷ b ∷ c ∷ d ∷ [])) ≡ a ∷ b ∷ c ∷ d ∷ []
unfolding to_sid from_sid
from_sid-to_sid a b c d h = ground arith

pub length-from_sid : (w : ℕ) → length (from_sid w) ≡ 4
unfolding from_sid
length-from_sid w = omega arith

pub to_sid-append : (w : ℕ) (s : Bytes) → w < 2 ^ 32 → to_sid (from_sid w ++ s) ≡ w
unfolding to_sid from_sid
to_sid-append w s h = omega arith
