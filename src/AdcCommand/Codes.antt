-- ===== src/AdcCommand/Codes.antt =====
-- adchpp/AdcCommand.h: error codes of status messages, and the codes of commands.
use adchubd.Base.{ℕ}
use adchubd.AdcCommand.{to_cmd}

abbrev pub error_none : ℕ
error_none = 0

abbrev pub error_hub_full : ℕ
error_hub_full = 11

abbrev pub error_login_generic : ℕ
error_login_generic = 20

abbrev pub error_nick_invalid : ℕ
error_nick_invalid = 21

abbrev pub error_nick_taken : ℕ
error_nick_taken = 22

abbrev pub error_cid_taken : ℕ
error_cid_taken = 24

abbrev pub error_invalid_pid : ℕ
error_invalid_pid = 27

abbrev pub error_inf_missing : ℕ
error_inf_missing = 43

abbrev pub error_bad_state : ℕ
error_bad_state = 44

abbrev pub error_bad_ip : ℕ
error_bad_ip = 46

abbrev pub error_hbri_timeout : ℕ
error_hbri_timeout = 55

abbrev pub cmd_sta : ℕ
cmd_sta = to_cmd b'S' b'T' b'A'

abbrev pub cmd_msg : ℕ
cmd_msg = to_cmd b'M' b'S' b'G'

abbrev pub cmd_sch : ℕ
cmd_sch = to_cmd b'S' b'C' b'H'

abbrev pub cmd_res : ℕ
cmd_res = to_cmd b'R' b'E' b'S'

abbrev pub cmd_ctm : ℕ
cmd_ctm = to_cmd b'C' b'T' b'M'

abbrev pub cmd_rcm : ℕ
cmd_rcm = to_cmd b'R' b'C' b'M'

abbrev pub cmd_gpa : ℕ
cmd_gpa = to_cmd b'G' b'P' b'A'

abbrev pub cmd_pas : ℕ
cmd_pas = to_cmd b'P' b'A' b'S'

abbrev pub cmd_qui : ℕ
cmd_qui = to_cmd b'Q' b'U' b'I'

abbrev pub cmd_get : ℕ
cmd_get = to_cmd b'G' b'E' b'T'

abbrev pub cmd_gfi : ℕ
cmd_gfi = to_cmd b'G' b'F' b'I'

abbrev pub cmd_snd : ℕ
cmd_snd = to_cmd b'S' b'N' b'D'

abbrev pub cmd_sid : ℕ
cmd_sid = to_cmd b'S' b'I' b'D'

abbrev pub cmd_cmd : ℕ
cmd_cmd = to_cmd b'C' b'M' b'D'

abbrev pub cmd_nat : ℕ
cmd_nat = to_cmd b'N' b'A' b'T'

abbrev pub cmd_rnt : ℕ
cmd_rnt = to_cmd b'R' b'N' b'T'

abbrev pub cmd_tcp : ℕ
cmd_tcp = to_cmd b'T' b'C' b'P'
