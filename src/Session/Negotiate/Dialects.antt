-- ===== src/Session/Negotiate/Dialects.antt =====
-- Which offers of dialects `negotiate` of session.rs accepts.
use smbanything.Base.{
  ℕ, ◌^◌, ◌<◌, Bool, true, false, ◌||◌, List, [], ◌∷◌, ◌++◌, ◌≡◌, refl, sym, arith, length,
  le_bytes, ◌==◌, if◌then◌else◌, All,
}
use smbanything.Base.Text.{elem}
use smbanything.Base.{ok, err, subst}
use smbanything.Proto.Header.{SystemTime}
use smbanything.Proto.Status
use smbanything.Session.Negotiate.{
  offers_2_1, dialect_smb_2_1, read_negotiate, negotiate, negotiate_response_body,
}
use smbanything.Session.State.{SessionState}
use smbanything.Wire.Codec.{Reads, Reads-u16, Reads-bind, Reads-pure, Reads-skip}
use smbanything.Wire.Reader
use smbanything.Wire.Reader.{Reader, open_at_start}

-- The dialects as the wire has them.
abbrev pub dialect_bytes : List ℕ → List ℕ
dialect_bytes [] = []
dialect_bytes (d ∷ ds) = le_bytes 2 d ++ dialect_bytes ds

or_false : (b : Bool) → (b || false) ≡ b
or_false b = ground arith

or_elem :
    (seen : Bool) (d : ℕ) (ds : List ℕ)
    → ((seen || d == dialect_smb_2_1) || elem dialect_smb_2_1 ds)
      ≡ (seen || elem dialect_smb_2_1 (d ∷ ds))
or_elem seen d ds = ground arith

offers_2_1-Reads :
    (seen : Bool) (ds : List ℕ)
    → All (λ d. d < 2 ^ 16) ds
    → Reads (offers_2_1 (length ds) seen) (dialect_bytes ds) (seen || elem dialect_smb_2_1 ds)
unfolding offers_2_1
offers_2_1-Reads seen [] h =
    subst (Reads (Reader.pure seen) []) (sym (or_false seen)) (Reads-pure seen)
offers_2_1-Reads seen (d ∷ ds) h =
    subst (Reads (offers_2_1 (length (d ∷ ds)) seen) (dialect_bytes (d ∷ ds))) (or_elem seen d ds) (
      Reads-bind Reader.u16 (λ x. offers_2_1 (length ds) (seen || x == dialect_smb_2_1))
        (le_bytes 2 d) (dialect_bytes ds) d _ (Reads-u16 d h.0)
        (offers_2_1-Reads (seen || d == dialect_smb_2_1) ds h.1))

-- The fields of a request that the server skips.
pub record Skipped : Type 0 where
  pub security_mode : List ℕ
  pub reserved : List ℕ
  pub capabilities : List ℕ
  pub client_guid : List ℕ
  pub start_time : List ℕ

pub record HasWidths (f : Skipped) : Type 0 where
  pub security_mode : length f.security_mode ≡ 2
  pub reserved : length f.reserved ≡ 2
  pub capabilities : length f.capabilities ≡ 4
  pub client_guid : length f.client_guid ≡ 16
  pub start_time : length f.start_time ≡ 8

-- A request that offers the given dialects.
abbrev pub negotiate_body : Skipped → List ℕ → List ℕ
negotiate_body f ds =
    le_bytes 2 36
    ++ (le_bytes 2 (length ds)
        ++ (f.security_mode
            ++ (f.reserved
                ++ (f.capabilities ++ (f.client_guid ++ (f.start_time ++ dialect_bytes ds))))))

Reads-negotiate :
    (f : Skipped) (ds : List ℕ)
    → HasWidths f
    → length ds < 2 ^ 16
    → All (λ d. d < 2 ^ 16) ds
    → Reads read_negotiate (negotiate_body f ds) (elem dialect_smb_2_1 ds)
unfolding read_negotiate
Reads-negotiate f ds v few h =
    Reads-bind Reader.u16 _ (le_bytes 2 36) _ 36 _ (Reads-u16 36 (omega arith)) (
      Reads-bind Reader.u16 _ (le_bytes 2 (length ds)) _ (length ds) _ (Reads-u16 (length ds) few) (
        Reads-bind (Reader.skip 2) _ f.security_mode _ tt _
          (Reads-skip 2 f.security_mode v.security_mode)
          (Reads-bind (Reader.skip 2) _ f.reserved _ tt _ (Reads-skip 2 f.reserved v.reserved) (
            Reads-bind (Reader.skip 4) _ f.capabilities _ tt _
              (Reads-skip 4 f.capabilities v.capabilities)
              (Reads-bind (Reader.skip 16) _ f.client_guid _ tt _
                (Reads-skip 16 f.client_guid v.client_guid)
                (Reads-bind (Reader.skip 8) _ f.start_time _ tt _
                  (Reads-skip 8 f.start_time v.start_time) (offers_2_1-Reads false ds h)))))))

-- NEGOTIATE of a well-formed offer, in any state: it succeeds with dialect 2.1 and marks the connection
-- negotiated where the offer has that dialect among its own, in any place; it is refused with no change
-- of the state where it has not.
pub negotiate_offer :
    (f : Skipped) (ds tail server_guid : List ℕ) (boot_time now : SystemTime) (s : SessionState)
    → HasWidths f
    → length ds < 2 ^ 16
    → All (λ d. d < 2 ^ 16) ds
    → negotiate (negotiate_body f ds ++ tail) server_guid boot_time now s ≡ (
        if elem dialect_smb_2_1 ds
        then (
          ok (negotiate_response_body dialect_smb_2_1 server_guid boot_time now),
          record s { negotiated = true },
        )
        else (err Status.not_supported, s))
unfolding negotiate
negotiate_offer f ds tail server_guid boot_time now s v few h =
    let e =
      (Reads-negotiate f ds v few h).at (open_at_start (negotiate_body f ds ++ tail)) tail refl in
    rw (negotiate, e) refl
