-- ===== src/AdcCommand/RoundTrip/Header.antt =====
-- The addressing parameters of a line, and the values that `parse` ends one by one.
use adchubd.Base.{
  ◌/◌, ◌%◌, ◌^◌, ◌<◌, ◌≡◌, ◌∙◌, arith, true, false, List, [], ◌∷◌, ◌++◌, Bytes, none, ◌==◌,
  if◌then◌else◌, All, append-nil, append_assoc, Bool-cases, inl, inr, length,
}
use adchubd.AdcCommand.{
  AdcCommand, normal, hub_sid, invalid_sid, blank, from_sid, is_type, has_from, has_to,
}
use adchubd.AdcCommand.Words.{to_sid-from_sid, length-from_sid}
use adchubd.AdcCommand.Parse.{Scan, ok, end_param, check, wants_from, wants_to, wants_features}
use adchubd.AdcCommand.RoundTrip.Tokens.{IsPlain}
use adchubd.AdcCommand.RoundTrip.Line.{end_all}
use adchubd.Text.Utf8.{validate_utf8}

-- `s` has all of its addressing parameters.
record IsAddressed (s : Scan) : Type 0 where
  from_done : wants_from s ≡ false
  to_done : wants_to s ≡ false
  features_done : wants_features s ≡ false

abbrev with_parameters : Scan → List Bytes → AdcCommand
with_parameters s ps = record (s.command) { parameters = ps }

end_all-params :
    (ps : List Bytes) (s : Scan)
    → IsAddressed s
    → All (λ p. validate_utf8 p ≡ true) ps
    → end_all s ps ≡ ok (with_parameters s (s.command.parameters ++ ps))
unfolding end_all end_param check
end_all-params [] s a h = rw append-nil (ground arith)
end_all-params (p ∷ ps) s a h =
    let next = record s { cur = p; command = with_parameters s (s.command.parameters ++ p ∷ []) } in
    rw (a.from_done, a.to_done, a.features_done, h.0)
      (end_all-params ps next
          (record { from_done = a.from_done; to_done = a.to_done; features_done = a.features_done })
          h.1
        ∙ rw append_assoc)

-- The addressing parameters of a command, in the order of the line.
unfoldable pub senders : AdcCommand → List Bytes
senders c = if has_from c.type then from_sid c.from ∷ [] else []

unfoldable pub addressees : AdcCommand → List Bytes
addressees c = if has_to c.type then from_sid c.to ∷ [] else []

unfoldable pub selectors : AdcCommand → List Bytes
selectors c = if c.type == b'F' then c.features ∷ [] else []

-- The parts of a command that a line carries; a receiver that starts from `blank` gets these.
abbrev pub on_wire : AdcCommand → AdcCommand
on_wire c = record {
  parameters = c.parameters;
  features = if c.type == b'F' then c.features else [];
  buffer = none;
  cmd_int = c.cmd_int;
  priority = normal;
  from = if has_from c.type then c.from else invalid_sid;
  to = if has_to c.type then c.to else if c.type == b'H' then hub_sid else invalid_sid;
  type = c.type;
}

-- The code is three bytes that are not zero, a SID has 32 bits.
pub record IsSendable (c : AdcCommand) : Type 0 where
  pub known_type : is_type c.type ≡ true
  pub code_first : 0 < c.cmd_int % 256
  pub code_second : 0 < c.cmd_int / 256 % 256
  pub code_third : 0 < c.cmd_int / 65536
  pub code_bound : c.cmd_int < 2 ^ 24
  pub from_bound : c.from < 2 ^ 32
  pub to_bound : c.to < 2 ^ 32
  pub from_plain : All IsPlain (from_sid c.from)
  pub to_plain : All IsPlain (from_sid c.to)
  pub features_plain : All IsPlain c.features
  pub features_length : length c.features % 5 ≡ 0
  pub parameters_valid : All (λ p. validate_utf8 p ≡ true) c.parameters

-- What `parse` makes of the head of the line.
abbrev pub started : AdcCommand → Scan
started c = record {
  command = record blank {
    type = c.type;
    to = if c.type == b'H' then hub_sid else invalid_sid;
    cmd_int = c.cmd_int;
  };
  cur = [];
  to_set = false;
  feature_set = false;
  from_set = false;
}

unfoldable pub header_values : AdcCommand → List Bytes
header_values c = senders c ++ (addressees c ++ (selectors c ++ c.parameters))

pub end_all-header :
    (c : AdcCommand) → IsSendable c → end_all (started c) (header_values c) ≡ ok (on_wire c)
unfolding header_values senders addressees selectors end_all end_param
end_all-header c v = elim (Bool-cases (c.type == b'F')) [
  | inl f ↦ ground (
    arith,
    length-from_sid c.from,
    to_sid-from_sid c.from v.from_bound,
    end_all-params c.parameters
        (record (started c) {
          command = record (started c).command { from = c.from; features = c.features };
          cur = c.features;
          from_set = true;
          feature_set = true;
        })
        (record { from_done = ground arith; to_done = ground arith; features_done = ground arith })
        v.parameters_valid,
  )
  | inr f ↦ elim (Bool-cases (has_to c.type)) [
    | inl t ↦ ground (
      arith,
      length-from_sid c.from,
      length-from_sid c.to,
      to_sid-from_sid c.from v.from_bound,
      to_sid-from_sid c.to v.to_bound,
      end_all-params c.parameters
          (record (started c) {
            command = record (started c).command { from = c.from; to = c.to };
            cur = from_sid c.to;
            from_set = true;
            to_set = true;
          })
          (record {
            from_done = ground arith;
            to_done = ground arith;
            features_done = ground arith;
          })
          v.parameters_valid,
    )
    | inr t ↦ elim (Bool-cases (has_from c.type)) [
      | inl b ↦ ground (
        arith,
        length-from_sid c.from,
        length-from_sid c.to,
        to_sid-from_sid c.from v.from_bound,
        to_sid-from_sid c.to v.to_bound,
        end_all-params c.parameters
            (record (started c) {
              command = record (started c).command { from = c.from };
              cur = from_sid c.from;
              from_set = true;
            })
            (record {
              from_done = ground arith;
              to_done = ground arith;
              features_done = ground arith;
            })
            v.parameters_valid,
      )
      | inr n ↦ ground (
        arith,
        length-from_sid c.from,
        length-from_sid c.to,
        to_sid-from_sid c.from v.from_bound,
        to_sid-from_sid c.to v.to_bound,
        end_all-params c.parameters (record (started c) { cur = [] })
            (record {
              from_done = ground arith;
              to_done = ground arith;
              features_done = ground arith;
            })
            v.parameters_valid,
      )
    ]
  ]
]
