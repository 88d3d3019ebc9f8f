-- ===== src/Session/Tests.antt =====
-- Tests of session.rs, and its theorems at concrete sessions.
use smbanything.Base.{
  ℕ, true, List, [], ◌∷◌, ◌++◌, ◌≡◌, ◌⊎◌, refl, some, ok, err, arith, replicate, le_bytes,
  if◌then◌else◌,
}
use smbanything.Base.Text.{codes, elem}
use smbanything.Proto.Header.{SystemTime, since_epoch}
use smbanything.Proto.Status
use smbanything.Session.State.{TreeKind, disk, SessionState, new_session}
use smbanything.Session.Negotiate.{negotiate, negotiate_response_body, dialect_smb_2_1}
use smbanything.Session.Negotiate.Dialects.{Skipped, HasWidths, negotiate_body, negotiate_offer}
use smbanything.Session.Trees.{tree_connect, requested_kind, requested_share}
use smbanything.Session.Trees.Named.{IsNameOf}
use smbanything.Session.Trees.Grants.{Names, Refuses, Adds, granted, tree_connect_cases}

abbrev now : SystemTime
now = since_epoch 1700000000 0

abbrev skipped : Skipped
skipped = record {
  security_mode = replicate 2 0;
  reserved = replicate 2 0;
  capabilities = replicate 4 0;
  client_guid = replicate 16 7;
  start_time = replicate 8 0;
}

skipped-HasWidths : HasWidths skipped
skipped-HasWidths = record {
  security_mode = refl;
  reserved = refl;
  capabilities = refl;
  client_guid = refl;
  start_time = refl;
}

-- What a client offers: 2.0.2, 2.1 and 3.0.
abbrev offered : List ℕ
offered = 0x0202 ∷ 0x0210 ∷ 0x0300 ∷ []

negotiate_offer_example :
    negotiate (negotiate_body skipped offered ++ []) (replicate 16 1) now now (new_session 1) ≡ (
      if elem dialect_smb_2_1 offered
      then (
        ok (negotiate_response_body dialect_smb_2_1 (replicate 16 1) now now),
        record (new_session 1) { negotiated = true },
      )
      else (err Status.not_supported, new_session 1))
negotiate_offer_example =
    negotiate_offer skipped offered [] (replicate 16 1) now now (new_session 1) skipped-HasWidths
      (omega arith) (omega arith, (omega arith, (omega arith, tt)))

abbrev connect_body : List ℕ
connect_body = le_bytes 2 9 ++ replicate 2 0 ++ le_bytes 2 1 ++ le_bytes 2 6

abbrev connect_message : List ℕ
connect_message = 0 ∷ b'a' ∷ 0 ∷ 0x5C ∷ 0 ∷ b'B' ∷ 0 ∷ []

tree_connect_cases_example :
    ((e : ℕ) × Refuses connect_body connect_message (codes "b") (new_session 1) e
      × (tree_connect connect_body connect_message (codes "b") (new_session 1)
          ≡ (err e, new_session 1)))
    ⊎ ((name : List ℕ) × (kind : TreeKind) × (id : ℕ) × (s' : SessionState) × Names connect_body
          connect_message name
        × IsNameOf (codes "b") name kind
        × Adds id kind (new_session 1) s'
        × (tree_connect connect_body connect_message (codes "b") (new_session 1)
            ≡ (ok (granted kind, kind, id), s')))
tree_connect_cases_example =
    tree_connect_cases connect_body connect_message (codes "b") (new_session 1)

-- The share's name is found behind the last separator, in any case of its letters.
requested_kind_any_case :
    requested_kind (codes "b") (requested_share (b'a' ∷ 0x5C ∷ b'B' ∷ [])) ≡ some disk
unfolding requested_kind requested_share
requested_kind_any_case = refl
