-- ===== src/Tests/Command.antt =====
-- adchpp/AdcCommand.cpp at concrete inputs.
use adchubd.Base.{is_empty, ◌≡◌, ◌↔◌, ◌⊎◌, refl, [], ◌∷◌, true, none, arith, Bytes, codes, drop}
use adchubd.AdcCommand.{AdcCommand, normal, to_cmd, to_sid, from_sid}
use adchubd.AdcCommand.Parse.{
  Result, scan, plain, finish, end_param, check, unescape, parse, parse_line, ok, err,
  missing_space, missing_to, escape_at_eol, sid_length,
}
use adchubd.AdcCommand.Parse.Safe.{IsWellFormed, inside, parse-IsWellFormed}
use adchubd.AdcCommand.Params.{has_flag}
use adchubd.AdcCommand.Params.Laws.{Misses, Hits, Holds, get_param-del_param, has_flag_iff}
use adchubd.AdcCommand.Print.{to_string, render, append_params, escape, escape_byte, up_to_zero}
use adchubd.AdcCommand.RoundTrip.Header.{
  senders, addressees, selectors, IsSendable, on_wire, header_values,
}
use adchubd.AdcCommand.RoundTrip.Whole.{IsClosed, parse-to_string}
use adchubd.Text.Utf8.{validate_utf8, validate_loop, utf8_to_wc}

-- A direct message from AAAB to AAAC.
abbrev hello : AdcCommand
hello = record {
  parameters = codes "hi there\\" ∷ codes "ME1" ∷ [];
  features = [];
  buffer = none;
  cmd_int = to_cmd b'M' b'S' b'G';
  priority = normal;
  from = 0x42414141;
  to = 0x43414141;
  type = b'D';
}

abbrev hello_line : Bytes
hello_line = codes "DMSG AAAB AAAC hi\\sthere\\\\ ME1\n"

-- The functions that a run of the printer or of the parser goes through.
printed : AdcCommand → Bytes
unfolding to_string render append_params escape escape_byte up_to_zero from_sid
printed c = to_string c

parsed : Bytes → Result AdcCommand
unfolding parse scan plain finish end_param check unescape is_empty to_sid validate_utf8
    validate_loop utf8_to_wc
parsed line = parse_line line

to_string-hello : printed hello ≡ hello_line
unfolding printed
to_string-hello = refl

parse-hello_line : parse_line hello_line ≡ ok hello
unfolding parsed
parse-hello_line = refl

-- A code with nothing behind it, a direct message without receiver, and two broken lines.
parse_errors :
    (parsed (codes "ISUP\n") ≡ err missing_space)
    × (parsed (codes "DMSG AAAB\n") ≡ err missing_to)
    × (parsed (codes "IMSG a\\\n") ≡ err escape_at_eol)
    × (parsed (codes "BMSG AAA hi\n") ≡ err sid_length)
unfolding parsed
parse_errors = (refl, refl, refl, refl)

hello-IsSendable : IsSendable hello
unfolding from_sid parsed
hello-IsSendable = record {
  known_type = refl;
  code_first = omega arith;
  code_second = omega arith;
  code_third = omega arith;
  code_bound = omega arith;
  from_bound = omega arith;
  to_bound = omega arith;
  from_plain = omega arith;
  to_plain = omega arith;
  features_plain = tt;
  features_length = refl;
  parameters_valid = (refl, (refl, tt));
}

hello-IsClosed : IsClosed (header_values hello)
unfolding header_values senders addressees selectors
hello-IsClosed = λ e. cc

parse-to_string_example : parse_line (to_string hello) ≡ ok (on_wire hello)
parse-to_string_example = parse-to_string hello hello-IsSendable refl hello-IsClosed

parse-IsWellFormed_example : (hello.type ≡ b'D') × IsWellFormed (inside hello_line) hello
parse-IsWellFormed_example = parse-IsWellFormed b'D' (drop 1 hello_line) hello parse-hello_line

get_param-del_param_example : Misses hello (codes "ME") 0 ⊎ Hits hello (codes "ME") 0
get_param-del_param_example = get_param-del_param hello (codes "ME") 0

has_flag_iff_example :
    (has_flag hello (b'M' ∷ b'E' ∷ []) 1 ≡ true) ↔ Holds (codes "ME1") (codes "ME1" ∷ [])
has_flag_iff_example = has_flag_iff b'M' b'E' (omega arith) (omega arith) hello 1 (omega arith)
