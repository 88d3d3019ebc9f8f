-- ===== src/Files/Glob.antt =====
-- The search patterns of QUERY_DIRECTORY in files.rs: `glob_match` with its budget of calls.
pub mod Reference
use smbanything.Base.{
  ℕ, ◌+◌, ◌-◌, ◌*◌, ◌%◌, ◌^◌, List, [], ◌∷◌, Bool, true, false, not, ◌&&◌, ◌||◌, ltb, ◌==◌,
  if◌then◌else◌, length, min, same,
}
use smbanything.Base.Text.{is_empty, elem, byte_eq_ignore_ascii_case, as_bytes, codes}

-- The module `dos_wildcard`.
abbrev pub dos_star : ℕ
dos_star = b'<'

abbrev pub dos_qm : ℕ
dos_qm = b'>'

abbrev pub dos_dot : ℕ
dos_dot = 0x22

-- `MAX_PATTERN`
abbrev pub max_pattern : ℕ
max_pattern = 1024

-- A call on the rest of the pattern: a name and the budget left, to a verdict and the budget left.
abbrev pub Matcher : Type 0
Matcher = List ℕ → ℕ → Bool × ℕ

-- The loop of `*`: the rest of the pattern at every position up to the end.
unfoldable pub star_loop : Matcher → Matcher
star_loop f [] budget = f [] budget
star_loop f (c ∷ name) budget =
    let (matched, left) = f (c ∷ name) budget in
    let more = star_loop f name left in
    if matched then (true, left) else if left == 0 then (false, left) else more

-- The loop of DOS_STAR. A position is the last dot when it has a dot and none follows.
unfoldable pub dos_star_loop : Matcher → Matcher
dos_star_loop f [] budget = f [] budget
dos_star_loop f (c ∷ name) budget =
    let (matched, left) = f (c ∷ name) budget in
    let more = dos_star_loop f name left in
    if matched
    then (true, left)
    else if c == b'.' && not (elem b'.' name)
    then f name left
    else if left == 0
    then (false, left)
    else more

abbrev pub match_dos_qm : Matcher → Matcher
match_dos_qm f [] budget = f [] budget
match_dos_qm f (c ∷ name) budget = if c == b'.' then f (c ∷ name) budget else f name budget

abbrev pub match_dos_dot : Matcher → Matcher
match_dos_dot f [] budget = f [] budget
match_dos_dot f (c ∷ name) budget = if c == b'.' then f name budget else (false, budget)

abbrev pub match_one : (ℕ → Bool) → Matcher → Matcher
match_one test f [] budget = (false, budget)
match_one test f (c ∷ name) budget = if test c then f name budget else (false, budget)

-- `match p`
abbrev pub match_head : ℕ → Matcher → Matcher
match_head p f name budget =
    if p == b'*'
    then star_loop f name budget
    else if p == dos_star
    then dos_star_loop f name budget
    else if p == dos_qm
    then match_dos_qm f name budget
    else if p == dos_dot
    then match_dos_dot f name budget
    else if p == b'?'
    then match_one (λ c. true) f name budget
    else match_one (byte_eq_ignore_ascii_case p) f name budget

unfoldable pub glob_match : List ℕ → Matcher
glob_match [] name budget = if budget == 0 then (false, 0) else (is_empty name, budget - 1)
glob_match (p ∷ rest) name budget =
    let head = match_head p (glob_match rest) name (budget - 1) in
    if budget == 0 then (false, 0) else head

-- The arithmetic of `u32` saturates.
unfoldable pub match_budget : List ℕ → List ℕ → ℕ
match_budget pattern name =
    let u32_max = 2 ^ 32 - 1 in
    let rows = min (length pattern % 2 ^ 32 + 1) u32_max in
    let pairs = min (rows * (length name % 2 ^ 32 + 1)) u32_max in
    min (min (pairs * 64) u32_max) 100000

unfoldable pub pattern_matches : List ℕ → List ℕ → Bool
pattern_matches pattern name =
    let p = as_bytes pattern in
    let n = as_bytes name in
    if is_empty pattern || same pattern (codes "*")
    then true
    else if ltb max_pattern (length p)
    then false
    else (glob_match p n (match_budget p n)).0
