-- ===== src/Files/Create/Admission.antt =====
-- What `create` of files.rs lets through, and what it does then.
use smbanything.Base.{
  ℕ, List, true, ◌||◌, leb, ◌≡◌, ◌≢◌, ◌⊎◌, inl, inr, refl, sym, ◌∙◌, ok, err, ok_or, arith, ◌==◌,
  bit_and, All, >>=-eq-ok, Result-cases, Bool-cases,
}
use smbanything.Backing.{Backing, NodeInfo, is_dir}
use smbanything.Files.Create.{
  admit, create, create_response, wants_max_access, insert_new, refuse_writes, check_disposition,
  request_path, check_node, finish,
}
use smbanything.Files.Disposition
use smbanything.Files.Handles
use smbanything.Files.Options
use smbanything.Files.Request.{CreateRequest, parse_create}
use smbanything.Files.State.{FileState}
use smbanything.Path.{SmbPath}
use smbanything.Path.Safety.{IsSafe, parse-IsSafe}
use smbanything.Proto.Access
use smbanything.Proto.Status
use smbanything.Wire.Reader.{open_at_start, slice_at}
use smbanything.Wire.Utf16.{from_utf16le}

-- A request that says it means to modify: by the access it asks for, by a disposition that is not one
-- of the two that only open, or by asking for deletion on close.
abbrev pub IsWriting : CreateRequest → Type 0
IsWriting req =
    (bit_and req.desired_access Access.write_bits ≢ 0)
    ⊎ ((req.create_disposition ≢ Disposition.open_existing)
        × (req.create_disposition ≢ Disposition.open_if))
    ⊎ (bit_and req.create_options Options.delete_on_close ≢ 0)

abbrev pub OnlyOpens : CreateRequest → Type 0
OnlyOpens req =
    (bit_and req.desired_access Access.write_bits ≡ 0)
    × ((req.create_disposition ≡ Disposition.open_existing)
        ⊎ (req.create_disposition ≡ Disposition.open_if))
    × (bit_and req.create_options Options.delete_on_close ≡ 0)

-- The statuses that a writing request is refused with.
abbrev pub IsRefusal : ℕ → Type 0
IsRefusal e =
    (e ≡ Status.access_denied) ⊎ (e ≡ Status.media_write_protected) ⊎ (e ≡ Status.invalid_parameter)

check_disposition_lem :
    (d : ℕ)
    → ((check_disposition d ≡ ok tt)
        × ((d ≡ Disposition.open_existing) ⊎ (d ≡ Disposition.open_if)))
      ⊎ ((e : ℕ) × (check_disposition d ≡ err e)
          × IsRefusal e
          × (d ≢ Disposition.open_existing)
          × (d ≢ Disposition.open_if))
unfolding check_disposition
check_disposition_lem d =
    elim (Bool-cases (d == Disposition.open_existing || d == Disposition.open_if)) [
      | inl opens ↦ inl (ground arith, ground arith)
      | inr writes ↦ elim (Bool-cases (leb d Disposition.overwrite_if)) [
        | inl known ↦
            inr (
              Status.media_write_protected,
              ground arith,
              inr (inl refl),
              ground arith,
              ground arith,
            )
        | inr unknown ↦
            inr (Status.invalid_parameter, ground arith, inr (inr refl), ground arith, ground arith)
      ]
    ]

-- On every request: it only opens and is let through, or it means to modify and is refused.
refuse_writes_lem :
    (req : CreateRequest)
    → ((refuse_writes req ≡ ok tt) × OnlyOpens req)
      ⊎ ((e : ℕ) × (refuse_writes req ≡ err e) × IsRefusal e)
unfolding refuse_writes
refuse_writes_lem req = elim (Bool-cases (bit_and req.desired_access Access.write_bits == 0)) [
  | inr asks ↦ inr (Status.access_denied, rw asks refl, inl refl)
  | inl reads ↦ elim (check_disposition_lem req.create_disposition) [
    | inr (e, denied, status, a, b) ↦ inr (e, rw (reads, denied) refl, status)
    | inl (fine, opens) ↦
        elim (Bool-cases (bit_and req.create_options Options.delete_on_close == 0)) [
          | inl keeps ↦ inl (rw (reads, fine, keeps) refl, (ground arith, opens, ground arith))
          | inr deletes ↦
              inr (Status.media_write_protected, rw (reads, fine, deletes) refl, inr (inl refl))
        ]
  ]
]

admit_refused :
    (body message : List ℕ) (backing : Backing) (req : CreateRequest) (e : ℕ)
    → parse_create body ≡ ok req
    → refuse_writes req ≡ err e
    → admit body message backing ≡ err e
unfolding admit
admit_refused body message backing req e parsed denied = rw (admit, parsed, denied) refl

create_refused :
    (grow : ℕ → ℕ) (body message : List ℕ) (backing : Backing) (tree_id : ℕ) (s : FileState) (e : ℕ)
    → admit body message backing ≡ err e
    → create grow body message backing tree_id s ≡ (err e, s)
unfolding create
create_refused grow body message backing tree_id s e h = rw (create, h) refl

create_admitted :
    (grow : ℕ → ℕ) (body message : List ℕ) (backing : Backing) (tree_id : ℕ) (s : FileState)
    (req : CreateRequest) (path : SmbPath) (info : NodeInfo)
    → admit body message backing ≡ ok (req, path, info)
    → create grow body message backing tree_id s ≡ (
      ok (create_response info s.handles.next_id (wants_max_access req message)),
      (insert_new grow tree_id path info s).1,
    )
unfolding create finish insert_new Handles.insert
create_admitted grow body message backing tree_id s req path info h = rw (create, h) refl

-- A request that means to modify is refused, with the same status and no change of any state,
-- whatever it names and whatever the share holds.
pub create_writing :
    (grow : ℕ → ℕ) (body message message' : List ℕ) (backing backing' : Backing) (tree_id : ℕ)
    (s s' : FileState) (req : CreateRequest)
    → parse_create body ≡ ok req
    → IsWriting req
    → (e : ℕ) × IsRefusal e
      × (create grow body message backing tree_id s ≡ (err e, s))
      × (create grow body message' backing' tree_id s' ≡ (err e, s'))
create_writing grow body message message' backing backing' tree_id s s' req parsed writes =
    elim (refuse_writes_lem req) [
      | inl (fine, opens) ↦ absurd (ground arith)
      | inr (e, denied, status) ↦ (
        e,
        status,
        create_refused grow body message backing tree_id s e
            (admit_refused body message backing req e parsed denied),
        create_refused grow body message' backing' tree_id s' e
            (admit_refused body message' backing' req e parsed denied),
      )
    ]

request_path-IsSafe :
    (req : CreateRequest) (message : List ℕ) (path : SmbPath)
    → request_path req message ≡ ok path
    → All IsSafe path.components
unfolding request_path
request_path-IsSafe req message path h =
    let (raw, e, h1) =
      >>=-eq-ok (ok_or (slice_at (open_at_start message) req.name_off req.name_len) _) _ h in
    let (name, e', h2) = >>=-eq-ok (ok_or (from_utf16le raw) _) _ h1 in parse-IsSafe name path h2

abbrev pub Admitted : List ℕ → List ℕ → Backing → CreateRequest → SmbPath → NodeInfo → Type 0
Admitted body message backing req path info =
    (parse_create body ≡ ok req)
    × OnlyOpens req
    × (request_path req message ≡ ok path)
    × All IsSafe path.components
    × (backing.stat path ≡ ok info)
    × ((is_dir info.kind ≡ true) ⊎ (bit_and req.desired_access Access.execute_bits ≡ 0))

check_node_lem :
    (req : CreateRequest) (info : NodeInfo)
    → check_node req info ≡ ok tt
    → (is_dir info.kind ≡ true) ⊎ (bit_and req.desired_access Access.execute_bits ≡ 0)
unfolding check_node
check_node_lem req info h = elim (Bool-cases (is_dir info.kind)) [
  | inl directory ↦ inl directory
  | inr plain ↦ elim (Bool-cases (bit_and req.desired_access Access.execute_bits == 0)) [
    | inl fine ↦ inr (ground arith)
    | inr asks ↦ let clash = rw (plain, asks) at h in cc
  ]
]

admit_lem :
    (body message : List ℕ) (backing : Backing) (a : CreateRequest × SmbPath × NodeInfo)
    → admit body message backing ≡ ok a
    → (req : CreateRequest) × (path : SmbPath) × (info : NodeInfo) × (admit body message backing
        ≡ ok (req, path, info))
      × Admitted body message backing req path info
unfolding admit
admit_lem body message backing a h =
    let (req, e1, h1) = >>=-eq-ok (parse_create body) _ h in
    let (u, e2, h2) = >>=-eq-ok (refuse_writes req) _ h1 in
    let (path, e3, h3) = >>=-eq-ok (request_path req message) _ h2 in
    let (info, e4, h4) = >>=-eq-ok (backing.stat path) _ h3 in
    let (v, e5, h5) = >>=-eq-ok (check_node req info) _ h4 in
    let opens : OnlyOpens req = elim (refuse_writes_lem req) [
      | inl (fine, opens) ↦ opens
      | inr (e, denied, status) ↦ absurd cc
    ] in
    (
      req,
      path,
      info,
      h ∙ sym h5,
      (e1, opens, e3, request_path-IsSafe req message path e3, e4, check_node_lem req info e5),
    )

-- CREATE on every request, message, share and state. Either it is refused and changes nothing. Or the
-- request means to open only, its path is safe, the share has the path, a plain file was not asked for
-- execution, and the reply is that of one new handle, which the table then has.
pub create_cases :
    (grow : ℕ → ℕ) (body message : List ℕ) (backing : Backing) (tree_id : ℕ) (s : FileState)
    → ((e : ℕ) × (create grow body message backing tree_id s ≡ (err e, s)))
      ⊎ ((req : CreateRequest) × (path : SmbPath) × (info : NodeInfo) × Admitted body message
            backing req path info
          × (create grow body message backing tree_id s ≡ (
            ok (create_response info s.handles.next_id (wants_max_access req message)),
            (insert_new grow tree_id path info s).1,
          )))
create_cases grow body message backing tree_id s =
    elim (Result-cases (admit body message backing)) [
      | inl (e, h) ↦ inl (e, create_refused grow body message backing tree_id s e h)
      | inr (a, h) ↦
          let (req, path, info, h', admitted) = admit_lem body message backing a h in
          inr (
            req,
            path,
            info,
            admitted,
            create_admitted grow body message backing tree_id s req path info h',
          )
    ]
