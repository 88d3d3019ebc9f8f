-- ===== src/Pipe/Contexts.antt =====
-- The presentation contexts of a BIND, as a client writes them, and the answer of srvsvc.rs to them.
use smbanything.Base.{
  ℕ, suc, ◌+◌, ◌-◌, ◌*◌, ◌≤◌, ◌≡◌, refl, ap, ◌∙◌, true, false, List, [], ◌∷◌, ◌++◌, arith, ltb,
  if◌then◌else◌, same, length, take, drop, All, length-append, length-drop, le_value,
  take-append_eq, drop-append_eq, drop-add,
}
use smbanything.Pipe.Bind.{preamble, flat, result_codes, buf-bind_body}
use smbanything.Pipe.Constants.{ndr_syntax, bind_time_feature_prefix}
use smbanything.Pipe.Rpc.{
  Presented, ndr32, feature_request, unsupported, byte_at, presented_kind, contexts_from,
  presented_contexts, default_context, bind_body,
}

-- A transfer syntax: its UUID and its version.
pub record Syntax : Type 0 where
  pub uuid : List ℕ
  pub version : List ℕ

pub record Context : Type 0 where
  pub id : List ℕ
  pub reserved : ℕ
  pub abstract_syntax : List ℕ
  pub syntaxes : List Syntax

abbrev pub SyntaxHasWidths : Syntax → Type 0
SyntaxHasWidths s = (length s.uuid ≡ 16) × (length s.version ≡ 4)

abbrev pub HasWidths : Context → Type 0
HasWidths c = (length c.id ≡ 2) × (length c.abstract_syntax ≡ 20) × All SyntaxHasWidths c.syntaxes

abbrev pub syntax_bytes : List Syntax → List ℕ → List ℕ
syntax_bytes [] rest = rest
syntax_bytes (s ∷ ss) rest = s.uuid ++ (s.version ++ syntax_bytes ss rest)

abbrev pub context_bytes : List Context → List ℕ
context_bytes [] = []
context_bytes (c ∷ cs) =
    c.id
    ++ (length c.syntaxes
        ∷ c.reserved
        ∷ (c.abstract_syntax ++ syntax_bytes c.syntaxes (context_bytes cs)))

-- A BIND: the header of its PDU, the two limits and the association group, and its contexts.
abbrev pub bind_bytes : List ℕ → List ℕ → List ℕ → List Context → List ℕ
bind_bytes header limits reserved cs =
    header ++ (limits ++ (length cs ∷ (reserved ++ context_bytes cs)))

-- What a context offers, by the first of its syntaxes that is NDR32 or negotiates features.
pub kind_of : List Syntax → Presented
kind_of [] = unsupported
kind_of (s ∷ ss) =
    let later = kind_of ss in
    if same s.uuid ndr_syntax
    then ndr32
    else if same (take 8 s.uuid) bind_time_feature_prefix
    then feature_request
    else later

abbrev pub kinds : List Context → List Presented
kinds [] = []
kinds (c ∷ cs) = kind_of c.syntaxes ∷ kinds cs

length-kinds : (cs : List Context) → length (kinds cs) ≡ length cs
length-kinds [] = refl
length-kinds (c ∷ cs) = ap suc (length-kinds cs)

syntax-rest :
    (s : Syntax) (more : List ℕ)
    → SyntaxHasWidths s
    → drop 20 (s.uuid ++ (s.version ++ more)) ≡ more
syntax-rest s more w =
    drop-add 16 4 (s.uuid ++ (s.version ++ more))
    ∙ ap (drop 4) (drop-append_eq 16 s.uuid (s.version ++ more) w.0)
    ∙ drop-append_eq 4 s.version more w.1

drop-syntax_bytes :
    (ss : List Syntax) (rest : List ℕ)
    → All SyntaxHasWidths ss
    → drop (length ss * 20) (syntax_bytes ss rest) ≡ rest
drop-syntax_bytes [] rest w = refl
drop-syntax_bytes (s ∷ ss) rest w =
    let split : suc (length ss) * 20 ≡ 20 + length ss * 20 = omega arith in
    rw split (
      drop-add 20 (length ss * 20) (syntax_bytes (s ∷ ss) rest)
      ∙ ap (drop (length ss * 20)) (syntax-rest s (syntax_bytes ss rest) w.0)
      ∙ drop-syntax_bytes ss rest w.1)

-- Bytes at an offset are inside the list.
inside : (at : ℕ) (body xs ys : List ℕ) → drop at body ≡ xs ++ ys → length xs ≤ length body - at
inside at body xs ys e = omega (arith, length-drop at body, ap length e, length-append xs ys)

presented_kind-syntax_bytes :
    (ss : List Syntax) (off : ℕ) (body rest : List ℕ)
    → All SyntaxHasWidths ss
    → drop off body ≡ syntax_bytes ss rest
    → presented_kind (length ss) off body ≡ kind_of ss
unfolding presented_kind kind_of
presented_kind-syntax_bytes [] off body rest w e = refl
presented_kind-syntax_bytes (s ∷ ss) off body rest w e =
    let more = s.version ++ syntax_bytes ss rest in
    let room : ltb (length body) (off + 16) ≡ false =
      ground (arith, inside off body s.uuid more e, w.0.0) in
    let uuid : take 16 (drop off body) ≡ s.uuid =
      ap (take 16) e ∙ take-append_eq 16 s.uuid more w.0.0 in
    let next : drop (off + 20) body ≡ syntax_bytes ss rest =
      drop-add off 20 body ∙ ap (drop 20) e ∙ syntax-rest s (syntax_bytes ss rest) w.0 in
    rw (room, uuid, presented_kind-syntax_bytes ss (off + 20) body rest w.1 next, presented_kind)
      refl

byte_at_head : (i n : ℕ) (body more : List ℕ) → drop i body ≡ n ∷ more → byte_at i body ≡ n
byte_at_head i n body more e = ap (λ (t : List ℕ). le_value (take 1 t)) e ∙ omega arith

contexts_from-context_bytes :
    (cs : List Context) (at : ℕ) (body : List ℕ)
    → All HasWidths cs
    → drop at body ≡ context_bytes cs
    → contexts_from (length cs) at body ≡ kinds cs
unfolding contexts_from
contexts_from-context_bytes [] at body w e = refl
contexts_from-context_bytes (c ∷ cs) at body w e =
    let n = length c.syntaxes in
    let syntaxes = syntax_bytes c.syntaxes (context_bytes cs) in
    let tail = c.abstract_syntax ++ syntaxes in
    let at_count : drop (at + 2) body ≡ n ∷ c.reserved ∷ tail =
      drop-add at 2 body ∙ ap (drop 2) e ∙ drop-append_eq 2 c.id (n ∷ c.reserved ∷ tail) w.0.0 in
    let at_abstract : drop (at + 4) body ≡ tail =
      ap (λ (k : ℕ). drop k body) (omega arith) ∙ drop-add (at + 2) 2 body ∙ ap (drop 2) at_count in
    let at_syntaxes : drop (at + 4 + 20) body ≡ syntaxes =
      drop-add (at + 4) 20 body
      ∙ ap (drop 20) at_abstract
      ∙ drop-append_eq 20 c.abstract_syntax syntaxes w.0.1 in
    let next : drop (at + 4 + 20 + n * 20) body ≡ context_bytes cs =
      drop-add (at + 4 + 20) (n * 20) body
      ∙ ap (drop (n * 20)) at_syntaxes
      ∙ drop-syntax_bytes c.syntaxes (context_bytes cs) w.0.2 in
    let room : ltb (at + 2) (length body) ≡ true =
      ground (arith, length-drop (at + 2) body, ap length at_count) in
    rw (room, byte_at_head (at + 2) n body (c.reserved ∷ tail) at_count)
      (ap2
        (presented_kind-syntax_bytes c.syntaxes (at + 4 + 20) body (context_bytes cs) w.0.2
          at_syntaxes)
        (contexts_from-context_bytes cs (at + 4 + 20 + n * 20) body w.1 next))
  where
    ap2 : {k k' : Presented} {ks ks' : List Presented} → k ≡ k' → ks ≡ ks' → k ∷ ks ≡ k' ∷ ks'
    ap2 p q = cc

module _ (header limits reserved : List ℕ) (cs : List Context) (sixteen : length header ≡ 16)
    (eight : length limits ≡ 8) (three : length reserved ≡ 3) (widths : All HasWidths cs) where
  presented_contexts-bind_bytes :
      presented_contexts (bind_bytes header limits reserved cs) ≡ kinds cs
  unfolding presented_contexts
  presented_contexts-bind_bytes =
      let tail = reserved ++ context_bytes cs in
      let request = bind_bytes header limits reserved cs in
      let body = limits ++ (length cs ∷ tail) in
      let at_body : drop 16 request ≡ body = drop-append_eq 16 header body sixteen in
      let at_count : drop 8 body ≡ length cs ∷ tail =
        drop-append_eq 8 limits (length cs ∷ tail) eight in
      let at_contexts : drop 12 body ≡ context_bytes cs =
        drop-add 8 4 body
        ∙ ap (drop 4) at_count
        ∙ drop-append_eq 3 reserved (context_bytes cs) three in
      let long : ltb (length request) 16 ≡ false = ground (arith, length-append header body) in
      let room : ltb 8 (length body) ≡ true =
        ground (arith, length-append limits (length cs ∷ tail)) in
      rw (long, at_body, room, byte_at_head 8 (length cs) body tail at_count)
        (contexts_from-context_bytes cs 12 body widths at_contexts)

  -- A BIND with any header, limits and group, and between 1 and 255 contexts with any number of syntaxes
  -- each: the body of the answer gives the number of the contexts, and then, in their order, a result of 24
  -- bytes for each. The first context whose first known syntax is NDR32 is accepted, a context whose
  -- first known syntax negotiates features is acknowledged, and every other is rejected.
  pub bind_body-presented_contexts :
      1 ≤ length cs
      → length cs ≤ 255
      → bind_body (default_context (presented_contexts (bind_bytes header limits reserved cs)))
        ≡ preamble ++ (length cs ∷ 0 ∷ 0 ∷ 0 ∷ flat (result_codes false (kinds cs)))
  bind_body-presented_contexts some_context few =
      ap (λ (ks : List Presented). bind_body (default_context ks)) presented_contexts-bind_bytes
      ∙ ap bind_body (default_kinds cs some_context)
      ∙ buf-bind_body (kinds cs)
      ∙ ap (λ (n : ℕ). preamble ++ (n ∷ 0 ∷ 0 ∷ 0 ∷ flat (result_codes false (kinds cs))))
          (omega (arith, length-kinds cs))
    where
      default_kinds : (cs : List Context) → 1 ≤ length cs → default_context (kinds cs) ≡ kinds cs
      default_kinds [] h = absurd (omega arith)
      default_kinds (c ∷ cs) h = refl
