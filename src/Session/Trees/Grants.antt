-- ===== src/Session/Trees/Grants.antt =====
-- What `tree_connect` of session.rs grants.
use smbanything.Session.Trees.Named.{
  LastPart, IsNameOf, requested_share-LastPart, requested_kind_cases,
}
use smbanything.Base.{
  ℕ, ◌+◌, ◌^◌, ◌≤◌, ◌<◌, List, ◌∷◌, ◌++◌, ◌≡◌, ◌⊎◌, inl, inr, refl, false, none, some, ok, err, leb,
  ltb, ◌==◌, if◌then◌else◌, arith, length, replicate, le_bytes, Bool-cases, Option-cases,
}
use smbanything.Base.Text.{codes, eq_ignore_ascii_case}
use smbanything.Files.State.{insert_entry}
use smbanything.Files.State.Maps.{lookup-insert_entry}
use smbanything.Proto.Access
use smbanything.Proto.Status
use smbanything.Session.Requests.{parse_tree_connect}
use smbanything.Session.State.{TreeKind, disk, ipc, SessionState, alloc_tree_id, tree_kind}
use smbanything.Session.Trees.{
  add_tree, max_trees, tree_connect, tree_connect_response, requested_share,
}
use smbanything.Wire.Reader.{open_at_start, slice_at}
use smbanything.Wire.Utf16.{from_utf16le}
use smbanything.Wire.Writer

-- One more tree, under the next number, and the session is otherwise the same.
abbrev pub Adds : ℕ → TreeKind → SessionState → SessionState → Type 0
Adds id kind s s' =
    (length s.trees < max_trees)
    × (id ≡ s.next_tree_id + 1)
    × (id < 2 ^ 32)
    × (s' ≡ record s { trees = s'.trees; next_tree_id = id })
    × ((j : ℕ) → tree_kind j s' ≡ (if id == j then some kind else tree_kind j s))

-- No further tree is allowed, or no number is left for it.
abbrev pub IsExhausted : SessionState → Type 0
IsExhausted s = (max_trees ≤ length s.trees) ⊎ (2 ^ 32 ≤ s.next_tree_id + 1)

add_tree_cases :
    (kind : TreeKind) (s : SessionState)
    → (IsExhausted s × (add_tree kind s ≡ (err Status.request_not_accepted, s)))
      ⊎ ((id : ℕ) × (s' : SessionState) × (add_tree kind s ≡ (ok id, s')) × Adds id kind s s')
unfolding add_tree alloc_tree_id tree_kind
add_tree_cases kind s = elim (Bool-cases (leb max_trees (length s.trees))) [
  | inl full ↦ inl (inl (ground arith), rw (add_tree, full) refl)
  | inr room ↦ elim (Bool-cases (ltb (s.next_tree_id + 1) (2 ^ 32))) [
    | inl free ↦
        let id = s.next_tree_id + 1 in
        inr (
          id,
          record s { trees = insert_entry id kind s.trees; next_tree_id = id },
          rw (add_tree, room, alloc_tree_id, free) refl,
          (ground arith, refl, ground arith, refl, λ j. lookup-insert_entry id j kind s.trees),
        )
    | inr spent ↦ inl (inr (ground arith), rw (add_tree, room, alloc_tree_id, spent) refl)
  ]
]

-- The bytes of the path that a request carries.
abbrev pub PathBytes : List ℕ → List ℕ → List ℕ → Type 0
PathBytes body message raw =
    (off : ℕ) × (len : ℕ) × (parse_tree_connect body ≡ some (off, len))
    × (slice_at (open_at_start message) off len ≡ some raw)

abbrev pub NoPathBytes : List ℕ → List ℕ → Type 0
NoPathBytes body message =
    (parse_tree_connect body ≡ none)
    ⊎ ((off : ℕ) × (len : ℕ) × (parse_tree_connect body ≡ some (off, len))
        × (slice_at (open_at_start message) off len ≡ none))

-- The last part of the path that a request names.
abbrev pub Names : List ℕ → List ℕ → List ℕ → Type 0
Names body message name =
    (raw : List ℕ) × (path : List ℕ) × PathBytes body message raw
    × (from_utf16le raw ≡ some path)
    × LastPart path name

-- The reply: the type of the share and what may be done with it, read-only on a disk.
abbrev pub granted : TreeKind → List ℕ
granted disk = 16 ∷ 0 ∷ 1 ∷ 0 ∷ replicate 8 0 ++ le_bytes 4 Access.read_only_dir
granted ipc = 16 ∷ 0 ∷ 2 ∷ 0 ∷ replicate 12 0

tree_connect_response_lem : (kind : TreeKind) → tree_connect_response kind ≡ granted kind
unfolding tree_connect_response Writer.u8 Writer.u16 Writer.u32
tree_connect_response_lem disk = refl
tree_connect_response_lem ipc = refl

-- Why a request is refused, with the status that tells it.
abbrev pub Refuses : List ℕ → List ℕ → List ℕ → SessionState → ℕ → Type 0
Refuses body message share_name s e =
    ((e ≡ Status.invalid_parameter) × NoPathBytes body message)
    ⊎ (((e ≡ Status.object_path_syntax_bad)
          × ((raw : List ℕ) × PathBytes body message raw × (from_utf16le raw ≡ none)))
        ⊎ (((e ≡ Status.bad_network_name)
              × ((name : List ℕ) × Names body message name
                  × (eq_ignore_ascii_case name share_name ≡ false)
                  × (eq_ignore_ascii_case name (codes "IPC$") ≡ false)))
            ⊎ ((e ≡ Status.request_not_accepted) × IsExhausted s)))

pub tree_connect-add_tree :
    (body message share_name : List ℕ) (s : SessionState)
    → ((e : ℕ) × Refuses body message share_name s e
        × (tree_connect body message share_name s ≡ (err e, s)))
      ⊎ ((name : List ℕ) × (kind : TreeKind) × (id : ℕ) × (s' : SessionState) × Names body message
            name
          × IsNameOf share_name name kind
          × Adds id kind s s'
          × (add_tree kind s ≡ (ok id, s'))
          × (tree_connect body message share_name s ≡ (ok (granted kind, kind, id), s')))
unfolding tree_connect
tree_connect-add_tree body message share_name s = elim (Option-cases (parse_tree_connect body)) [
  | inl a ↦ inl (Status.invalid_parameter, inl (refl, inl a), rw (tree_connect, a) refl)
  | inr ((off, len), a) ↦ elim (Option-cases (slice_at (open_at_start message) off len)) [
    | inl b ↦
        inl
          (Status.invalid_parameter, inl (refl, inr (off, len, a, b)), rw (tree_connect, a, b) refl)
    | inr (raw, b) ↦ elim (Option-cases (from_utf16le raw)) [
      | inl c ↦ inl (
        Status.object_path_syntax_bad,
        inr (inl (refl, (raw, (off, len, a, b), c))),
        rw (tree_connect, a, b, c) refl,
      )
      | inr (path, c) ↦
          let name = requested_share path in
          let names : Names body message name =
            (raw, path, (off, len, a, b), c, requested_share-LastPart path) in
          elim (requested_kind_cases share_name name) [
            | inl (d, not_share, not_pipe) ↦ inl (
              Status.bad_network_name,
              inr (inr (inl (refl, (name, names, not_share, not_pipe)))),
              rw (tree_connect, a, b, c, d) refl,
            )
            | inr (kind, d, named) ↦ elim (add_tree_cases kind s) [
              | inl (exhausted, e) ↦ inl (
                Status.request_not_accepted,
                inr (inr (inr (refl, exhausted))),
                rw (tree_connect, a, b, c, d, e) refl,
              )
              | inr (id, s', e, adds) ↦ inr (
                name,
                kind,
                id,
                s',
                names,
                named,
                adds,
                e,
                rw (tree_connect, a, b, c, d, e, tree_connect_response_lem kind) refl,
              )
            ]
          ]
    ]
  ]
]

-- TREE_CONNECT on every request and state. Either the last part of the path is the share's name or that
-- of the pipe share, and then a tree of that kind is added under the next number, the session is
-- otherwise the same, and the reply tells the kind and the access. Or nothing changes, and the status
-- tells why: there is no path in the request, it is no UTF-16, its last part is neither name, or the
-- session has no room or no number for another tree.
pub tree_connect_cases :
    (body message share_name : List ℕ) (s : SessionState)
    → ((e : ℕ) × Refuses body message share_name s e
        × (tree_connect body message share_name s ≡ (err e, s)))
      ⊎ ((name : List ℕ) × (kind : TreeKind) × (id : ℕ) × (s' : SessionState) × Names body message
            name
          × IsNameOf share_name name kind
          × Adds id kind s s'
          × (tree_connect body message share_name s ≡ (ok (granted kind, kind, id), s')))
tree_connect_cases body message share_name s =
    elim (tree_connect-add_tree body message share_name s) [
      | inl refused ↦ inl refused
      | inr (name, kind, id, s', names, named, adds, added, e) ↦
          inr (name, kind, id, s', names, named, adds, e)
    ]
