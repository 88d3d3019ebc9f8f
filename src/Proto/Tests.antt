-- ===== src/Proto/Tests.antt =====
-- Tests of proto.rs, and its theorems at concrete inputs.
use smbanything.Base.{true, ◌+◌, [], ◌∷◌, ◌≡◌, refl, some, arith, length, bit_and}
use smbanything.Proto.Access.{read_only, write_bits}
use smbanything.Proto.Header.{
  Header, parse, write_response, write_error_body, to_filetime, since_epoch,
}
use smbanything.Proto.Header.RoundTrip.{IsInRange, response_header, parse-write_response}
use smbanything.Wire.Writer.{Writer}
use smbanything.Wire.Writer

abbrev request : Header
request = record {
  credit_charge = 1;
  status = 0;
  command = 5;
  credits = 31;
  flags = 4;
  next_command = 120;
  message_id = 77;
  tree_id = 1;
  session_id = 9;
}

abbrev earlier : Writer
earlier = record { buf = 1 ∷ 2 ∷ 3 ∷ [] }

response-IsInRange : IsInRange (response_header request 0xC0000022 31 9 1)
response-IsInRange = record {
  credit_charge = omega arith;
  status = omega arith;
  command = omega arith;
  credits = omega arith;
  flags = omega arith;
  next_command = omega arith;
  message_id = omega arith;
  tree_id = omega arith;
  session_id = omega arith;
}

parse-write_response_example :
    parse (record { buf = (write_response request 0xC0000022 31 9 1 earlier).buf; pos = 3 })
    ≡ some (
      response_header request 0xC0000022 31 9 1,
      record { buf = (write_response request 0xC0000022 31 9 1 earlier).buf; pos = 3 + 64 },
    )
parse-write_response_example =
    parse-write_response request 0xC0000022 31 9 1 earlier response-IsInRange

error_body_is_nine_bytes : length (write_error_body Writer.empty).buf ≡ 9
unfolding write_error_body
error_body_is_nine_bytes = refl

read_only_excludes_write_bits : bit_and (read_only true) write_bits ≡ 0
unfolding read_only
read_only_excludes_write_bits = refl

unix_epoch : to_filetime (since_epoch 0 0) ≡ 116444736000000000
unfolding to_filetime
unix_epoch = refl
