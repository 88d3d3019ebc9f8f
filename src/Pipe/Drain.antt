-- ===== src/Pipe/Drain.antt =====
-- A client that asks in one round trip and then reads gets the whole reply: srvsvc.rs.
use smbanything.Base.{
  ℕ, zero, suc, ◌≤◌, ◌≡◌, refl, inl, inr, false, List, [], ◌∷◌, ◌++◌, Option, some, Result, ok, err,
  arith, ltb, ◌==◌, Bool-cases, length, take, drop, min, append-nil, take-append-drop, length-drop,
}
use smbanything.Pipe.{Pipe, read, transceive, answer_transceive, read_response, transceive_response}
use smbanything.Pipe.Requests.{request_of, read_read, read_transceive}
use smbanything.Pipe.Rpc.{dispatch}
use smbanything.Wire.Reader.{open_at_start, slice_at}
use smbanything.Wire.Writer
use smbanything.Proto.Status

-- What a client takes from a READ response, and from the response of a transceive.
abbrev pub read_bytes : List ℕ → List ℕ
read_bytes response = drop 16 response

abbrev pub transceived_bytes : List ℕ → List ℕ
transceived_bytes response = drop 48 response

abbrev gather : (Option Pipe → List ℕ) → Result (List ℕ) × Option Pipe → List ℕ
gather next (ok response, pipe) = read_bytes response ++ next pipe
gather next (err e, pipe) = []

-- READs until one is refused, all with the same body.
unfoldable pub drain : ℕ → List ℕ → Option Pipe → List ℕ
drain zero body pipe = []
drain (suc fuel) body pipe = gather (drain fuel body) (read body pipe)

read_bytes-read_response : (sent pending : List ℕ) → read_bytes (read_response sent pending) ≡ sent
unfolding read_response Writer.u8 Writer.u16 Writer.u32 Writer.bytes
read_bytes-read_response sent pending = refl

transceived_bytes-response :
    (output : List ℕ) → transceived_bytes (transceive_response output) ≡ output
unfolding transceive_response Writer.u16 Writer.u32 Writer.u64 Writer.bytes
transceived_bytes-response output = refl

module _ (body : List ℕ) (len : ℕ) (asked : request_of read_read body ≡ ok len)
    (some_len : 1 ≤ len) where
  abbrev holding : List ℕ → Option Pipe
  holding pending = some (record { pending = pending })

  positive : (len == 0) ≡ false
  positive = ground (arith, some_len)

  read_empty : (read body (holding [])) ≡ (err Status.end_of_file, holding [])
  unfolding read
  read_empty = rw (asked, positive) refl

  read_more :
      (b : ℕ) (bs : List ℕ)
      → read body (holding (b ∷ bs)) ≡ (
        ok (
            read_response
              (take (min len (length (b ∷ bs))) (b ∷ bs))
              (drop (min len (length (b ∷ bs))) (b ∷ bs))),
        holding (drop (min len (length (b ∷ bs))) (b ∷ bs)),
      )
  unfolding read
  read_more b bs = rw (asked, positive) refl

  -- READs of any length but 0, one after another, hand out all that is pending, each byte once.
  drain_all :
      (fuel : ℕ) (pending : List ℕ)
      → length pending ≤ fuel
      → drain (suc fuel) body (holding pending) ≡ pending
  unfolding drain
  drain_all fuel [] enough = rw read_empty refl
  drain_all zero (b ∷ bs) enough = absurd (omega (arith, enough))
  drain_all (suc fuel) (b ∷ bs) enough =
      let n = min len (length (b ∷ bs)) in
      let left : length (drop n (b ∷ bs)) ≤ fuel =
        omega (arith, length-drop n (b ∷ bs), some_len, enough) in
      rw
        (
          read_more b bs,
          read_bytes-read_response (take n (b ∷ bs)) (drop n (b ∷ bs)),
          drain_all fuel (drop n (b ∷ bs)) left,
        )
        (take-append-drop n (b ∷ bs))

  answer_transceive-drain :
      (output : List ℕ) (max_output : ℕ) (pipe : Option Pipe)
      → (response : List ℕ) × (status : ℕ) × (left : Option Pipe) × (answer_transceive output
            max_output pipe
          ≡ (ok (response, status), left))
        × (transceived_bytes response ++ drain (suc (length output)) body left ≡ output)
  unfolding answer_transceive
  answer_transceive-drain output max_output pipe =
      elim (Bool-cases (ltb max_output (length output))) [
        | inl over ↦ (
          transceive_response (take max_output output),
          Status.buffer_overflow,
          holding (drop max_output output),
          rw over refl,
          rw
              (
                transceived_bytes-response (take max_output output),
                drain_all (length output) (drop max_output output)
                    (omega (arith, length-drop max_output output)),
              )
              (take-append-drop max_output output),
        )
        | inr fits ↦ (
          transceive_response output,
          Status.success,
          holding [],
          rw fits refl,
          rw (transceived_bytes-response output, drain_all (length output) [] (omega arith))
              (append-nil output),
        )
      ]

  -- What a transceive on an open pipe answers with and what READs of any length but 0 then hand out,
  -- until one is refused, make up the reply to the request, whole and in order, however small the client's
  -- buffer: after as many READs as the reply has bytes there is nothing left.
  pub transceive-drain :
      (request message share_name input : List ℕ) (off size max_output : ℕ) (pipe : Pipe)
      → request_of read_transceive request ≡ ok (off, size, max_output)
      → slice_at (open_at_start message) off size ≡ some input
      → (response : List ℕ) × (status : ℕ) × (left : Option Pipe) × (transceive request message
            share_name
            (some pipe)
          ≡ (ok (response, status), left))
        × (transceived_bytes response ++ drain (suc (length (dispatch input share_name))) body left
            ≡ dispatch input share_name)
  unfolding transceive
  transceive-drain request message share_name input off size max_output pipe parsed sliced =
      let answer = answer_transceive-drain (dispatch input share_name) max_output (some pipe) in
      (answer.0, answer.1, answer.2, rw (parsed, sliced) answer.3, answer.4)
