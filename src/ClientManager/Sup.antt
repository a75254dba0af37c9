-- ===== src/ClientManager/Sup.antt =====
-- adchpp/ClientManager.cpp: `verifySUP`, and the handler of SUP.
use adchubd.Base.{ℕ, Bool, true, false, not, none, some, if◌then◌else◌, codes}
use adchubd.AdcCommand.{AdcCommand, to_four_cc}
use adchubd.Entity.{Entity}
use adchubd.Entity.Supports.{has_support, update_supports}
use adchubd.Reason.{reason_no_base_support, reason_no_tigr_support}
use adchubd.ClientManager.{ClientManager, deref}
use adchubd.ClientManager.Removal.{put, is_normal}
use adchubd.ClientManager.Leaving.{disconnect, bad_state, at_state, is_protocol}
use adchubd.ClientManager.Login.{enter_identify}

unfoldable pub check_supports : ℕ → Entity → ClientManager → ClientManager × Bool
check_supports a e m =
    if not (has_support e (to_four_cc (codes "BASE")))
    then (disconnect a reason_no_base_support (codes "This hub requires BASE support") m, false)
    else if not (has_support e (to_four_cc (codes "TIGR")))
    then (disconnect a reason_no_tigr_support (codes "This hub requires TIGR support") m, false)
    else (m, true)

unfoldable pub verify_sup : ℕ → AdcCommand → ClientManager → ClientManager × Bool
verify_sup a cmd m = elim (deref m a) [
  | none ↦ (m, false)
  | some e ↦ let e' = update_supports e cmd in check_supports a e' (put a e' m)
]

unfoldable pub handle_sup : ℕ → AdcCommand → ClientManager → ClientManager × Bool
handle_sup a cmd m =
    let verified = verify_sup a cmd m in
    if not verified.1
    then (verified.0, false)
    else if at_state is_protocol verified.0 a
    then (enter_identify a true verified.0, true)
    else if not (at_state is_normal verified.0 a)
    then (bad_state a cmd verified.0, false)
    else (verified.0, true)
