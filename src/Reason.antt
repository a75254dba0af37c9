-- ===== src/Reason.antt =====
-- adchpp/Reason.h: why a connection is closed.
use adchubd.Base.{ℕ}

abbrev pub reason_bad_state : ℕ
reason_bad_state = 0

abbrev pub reason_cid_change : ℕ
reason_cid_change = 1

abbrev pub reason_cid_taken : ℕ
reason_cid_taken = 2

abbrev pub reason_invalid_command_type : ℕ
reason_invalid_command_type = 5

abbrev pub reason_invalid_ip : ℕ
reason_invalid_ip = 6

abbrev pub reason_invalid_sid : ℕ
reason_invalid_sid = 7

abbrev pub reason_login_timeout : ℕ
reason_login_timeout = 8

abbrev pub reason_max_command_size : ℕ
reason_max_command_size = 9

abbrev pub reason_nick_invalid : ℕ
reason_nick_invalid = 10

abbrev pub reason_nick_taken : ℕ
reason_nick_taken = 11

abbrev pub reason_no_base_support : ℕ
reason_no_base_support = 12

abbrev pub reason_no_tigr_support : ℕ
reason_no_tigr_support = 13

abbrev pub reason_pid_missing : ℕ
reason_pid_missing = 14

abbrev pub reason_pid_cid_length : ℕ
reason_pid_cid_length = 15

abbrev pub reason_pid_cid_mismatch : ℕ
reason_pid_cid_mismatch = 16

abbrev pub reason_pid_without_cid : ℕ
reason_pid_without_cid = 17

abbrev pub reason_plugin : ℕ
reason_plugin = 18

abbrev pub reason_write_overflow : ℕ
reason_write_overflow = 19

abbrev pub reason_no_bandwidth : ℕ
reason_no_bandwidth = 20

abbrev pub reason_invalid_description : ℕ
reason_invalid_description = 21

abbrev pub reason_write_timeout : ℕ
reason_write_timeout = 22

abbrev pub reason_socket_error : ℕ
reason_socket_error = 23

abbrev pub reason_hbri : ℕ
reason_hbri = 24
