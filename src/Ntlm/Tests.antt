-- ===== src/Ntlm/Tests.antt =====
-- Tests of ntlm.rs, and its theorems at a concrete message.
use smbanything.Base.{ℕ, ◌≡◌, ◌≤◌, ◌↔◌, List, [], ◌∷◌, some, length, take, replicate}
use smbanything.Base.Text.{codes}
use smbanything.Ntlm.{Authenticate, verify}
use smbanything.Ntlm.Exact.{right_proof, Exports, verify_lem}
use smbanything.Ntlm.RoundTrip.{respond}
use smbanything.Platform.Samples.{toy}

abbrev exported : List ℕ
exported = replicate 16 3

abbrev challenge : List ℕ
challenge = replicate 8 1

abbrev temp : List ℕ
temp = 1 ∷ []

abbrev key_exch : ℕ
key_exch = 0x40000000

abbrev answer : Authenticate
answer = respond toy (codes "pw") (codes "u") [] challenge temp exported key_exch

verify_lem_example : (verify toy answer (codes "pw") challenge ≡ some exported) ↔ (
    (16 ≤ length answer.nt_response)
    × (take 16 answer.nt_response ≡ right_proof toy answer (codes "pw") challenge)
    × Exports toy answer (codes "pw") challenge exported)
verify_lem_example = verify_lem toy answer (codes "pw") challenge exported
