-- ===== src/Tests/Connection.antt =====
-- adchpp/Client.cpp at concrete inputs.
use adchubd.Base.{
  ◌≡◌, refl, sym, [], ◌∷◌, ◌++◌, false, none, Bytes, ◌==◌, ==_refl, if◌then◌else◌, codes, is_empty,
  append_assoc,
}
use adchubd.AdcCommand.{AdcCommand, to_cmd, from_sid, to_sid}
use adchubd.AdcCommand.Parse.{parse, scan, plain, finish, end_param, check, unescape}
use adchubd.Text.Utf8.{validate_utf8, validate_loop, utf8_to_wc}
use adchubd.Client.{
  Client, Calls, on_data, on_data_loop, cut, on_line, receive, smaller, read_data, disconnect,
}
use adchubd.Client.Bytewise.{reads, joined, reads-joined}
use adchubd.Client.Passed.{on_data-other}

-- The state is a log. A command SND announces three bytes.
abbrev log_command : AdcCommand → Client → Bytes → Client × Bytes
log_command cmd c w =
    if cmd.cmd_int == to_cmd b'S' b'N' b'D'
    then (record c { data_bytes = 3 }, w)
    else (c, w ++ from_sid cmd.from)

abbrev calls : Calls Bytes
calls = record {
  on_receive = log_command;
  on_bad_line = λ line c w. (c, w ++ b'!' ∷ []);
  data_handler = λ s w. w ++ s;
  write = λ cmd w. w ++ b'>' ∷ [];
  socket_disconnect = λ reason w. w ++ reason ∷ [];
  max_command_size = λ w. 24;
}

abbrev connection : Client
connection = record { sid = 0x42414141; disconnecting = false; buffer = none; data_bytes = 0 }

abbrev text : Bytes
text = codes "HSND\nx\nHSND blom\nabcHSUP ADBASE\nBMSG AAAC hi\n"

on_data_run : (on_data calls connection [] text).1 ≡ codes "!!abcAAAB" ++ 7 ∷ []
unfolding on_data on_data_loop cut on_line receive smaller read_data disconnect parse scan plain
    finish end_param check unescape to_sid from_sid is_empty validate_utf8 validate_loop utf8_to_wc
on_data_run = refl

reads-joined_example :
    reads calls connection [] (codes "HSUP AD" ∷ codes "BASE\nBM" ∷ [])
    ≡ on_data calls connection [] (joined (codes "HSUP AD" ∷ codes "BASE\nBM" ∷ []))
reads-joined_example =
    reads-joined calls (λ x y w. sym (append_assoc w x y)) (codes "HSUP AD" ∷ codes "BASE\nBM" ∷ [])
      connection []

-- A manager that drops what another sender sends.
abbrev log_own : AdcCommand → Client → Bytes → Client × Bytes
log_own cmd c w = if cmd.from == c.sid then log_command cmd c w else (c, [])

on_data-other_example :
    on_data calls connection [] text
    ≡ on_data (record calls { on_receive = log_own }) connection [] text
on_data-other_example =
    on_data-other calls log_own (λ line cmd c w e le h. rw (==_refl c.sid) refl) connection [] text
