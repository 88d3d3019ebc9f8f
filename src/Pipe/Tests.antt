-- ===== src/Pipe/Tests.antt =====
-- Tests of srvsvc.rs, and its theorems at concrete requests.
use smbanything.Base.{
  ℕ, suc, ◌≡◌, refl, List, [], ◌∷◌, ◌++◌, Option, some, ok, Bool, true, false, ◌&&◌, ltb, arith,
  AreBytes, length, replicate, le_bytes,
}
use smbanything.Base.Text.{codes}
use smbanything.Pipe.{Pipe, transceive}
use smbanything.Pipe.Bind.{preamble, flat, result_codes}
use smbanything.Pipe.Contexts.{Syntax, Context, bind_bytes, kinds, bind_body-presented_contexts}
use smbanything.Pipe.Constants.{ndr_syntax}
use smbanything.Pipe.Dispatch.{call_id_of, dispatch-IsPdu}
use smbanything.Pipe.Drain.{transceived_bytes, drain, transceive-drain}
use smbanything.Pipe.Reply.{IsPdu}
use smbanything.Pipe.Requests.{
  pipe_file_id, check_file_id, fsctl_pipe_transceive, request_of, read_read, read_transceive,
}
use smbanything.Wire.Reader
use smbanything.Wire.Reader.{open_at_start, slice_at}
use smbanything.Pipe.Rpc.{bind_body, default_context, presented_contexts, parse_header, dispatch}

abbrev all_bytes : List ℕ → Bool
all_bytes [] = true
all_bytes (b ∷ bs) = ltb b 256 && all_bytes bs

all_bytes-AreBytes : (bs : List ℕ) → all_bytes bs ≡ true → AreBytes bs
all_bytes-AreBytes [] h = tt
all_bytes-AreBytes (b ∷ bs) h = (ground arith, all_bytes-AreBytes bs (ground arith))

-- A NetrShareEnum call with a null server name.
abbrev call : List ℕ
call =
    5
    ∷ 0
    ∷ 0
    ∷ 3
    ∷ 16
    ∷ 0
    ∷ 0
    ∷ 0
    ∷ 32
    ∷ 0
    ∷ 0
    ∷ 0
    ∷ 2
    ∷ 0
    ∷ 0
    ∷ 0
    ∷ (replicate 6 0 ++ (15 ∷ 0 ∷ (replicate 4 0 ++ (1 ∷ 0 ∷ 0 ∷ 0 ∷ []))))

call-AreBytes : AreBytes call
call-AreBytes = all_bytes-AreBytes call refl

dispatch-IsPdu_example : IsPdu (call_id_of (parse_header call)) (dispatch call (codes "anything"))
dispatch-IsPdu_example = dispatch-IsPdu call (codes "anything") call-AreBytes (omega arith)

abbrev syntax : List ℕ → Syntax
syntax uuid = record { uuid = uuid; version = 2 ∷ 0 ∷ 0 ∷ 0 ∷ [] }

abbrev context : List Syntax → Context
context syntaxes = record {
  id = 0 ∷ 0 ∷ [];
  reserved = 0;
  abstract_syntax = replicate 20 7;
  syntaxes = syntaxes;
}

-- Two contexts: one of another syntax, and one with NDR32 behind another syntax.
abbrev presented : List Context
presented =
    context (syntax (replicate 16 9) ∷ [])
    ∷ context (syntax (replicate 16 9) ∷ syntax ndr_syntax ∷ [])
    ∷ []

bind_body-presented_contexts_example :
    bind_body (
      default_context (
        presented_contexts (bind_bytes (replicate 16 5) (replicate 8 1) (replicate 3 0) presented)))
    ≡ preamble ++ (2 ∷ 0 ∷ 0 ∷ 0 ∷ flat (result_codes false (kinds presented)))
bind_body-presented_contexts_example =
    bind_body-presented_contexts (replicate 16 5) (replicate 8 1) (replicate 3 0) presented refl
      refl refl (omega arith) (omega arith) (omega arith)

abbrev read_body : List ℕ
read_body =
    le_bytes 2 49
    ++ (0
        ∷ 0
        ∷ (le_bytes 4 3 ++ (replicate 8 0 ++ (le_bytes 8 pipe_file_id ++ le_bytes 8 pipe_file_id))))

abbrev three : ℕ
three = 3

read_body_asks : request_of read_read read_body ≡ ok three
unfolding read_read check_file_id Reader.u16 Reader.u32 Reader.u64 Reader.take Reader.skip
read_body_asks = refl

-- A transceive with room for 40 bytes of the answer, its input behind one byte.
abbrev request : List ℕ
request =
    le_bytes 2 57
    ++ (0
        ∷ 0
        ∷ (le_bytes 4 fsctl_pipe_transceive
            ++ (le_bytes 8 pipe_file_id
                ++ (le_bytes 8 pipe_file_id
                    ++ (le_bytes 4 1 ++ (le_bytes 4 32 ++ (replicate 12 0 ++ le_bytes 4 40)))))))

abbrev input_len : ℕ
input_len = 32

abbrev room : ℕ
room = 40

abbrev input_off : ℕ
input_off = 1

request_asks : request_of read_transceive request ≡ ok (input_off, input_len, room)
unfolding read_transceive check_file_id Reader.u16 Reader.u32 Reader.u64 Reader.take Reader.skip
request_asks = refl

message_holds : slice_at (open_at_start (0 ∷ call)) input_off input_len ≡ some call
unfolding slice_at
message_holds = refl

transceive-drain_example :
    (response : List ℕ) × (status : ℕ) × (left : Option Pipe) × (transceive request
        (0 ∷ call)
        (codes "anything")
        (some (record { pending = [] }))
      ≡ (ok (response, status), left))
    × (transceived_bytes response
          ++ drain (suc (length (dispatch call (codes "anything")))) read_body left
        ≡ dispatch call (codes "anything"))
transceive-drain_example =
    transceive-drain read_body three read_body_asks (omega arith) request (0 ∷ call)
      (codes "anything") call input_off input_len room (record { pending = [] }) request_asks
      message_holds
