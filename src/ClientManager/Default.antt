-- ===== src/ClientManager/Default.antt =====
-- adchpp/ClientManager.cpp: `handleDefault`, for the commands with no handler of their own.
use adchubd.Base.{ℕ, Bool, true, false, if◌then◌else◌}
use adchubd.AdcCommand.{AdcCommand}
use adchubd.ClientManager.{ClientManager}
use adchubd.ClientManager.Leaving.{at_state, bad_state}
use adchubd.ClientManager.Removal.{is_normal}

unfoldable pub handle_default : ℕ → AdcCommand → ClientManager → ClientManager × Bool
handle_default a cmd m = if at_state is_normal m a then (m, true) else (bad_state a cmd m, false)
