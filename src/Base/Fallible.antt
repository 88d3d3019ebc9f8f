-- ===== src/Base/Fallible.antt =====
-- `Result<T, u32>`, whose error is an NTSTATUS value, and `Option` chains.
use mathlib.Core.Path.{◌≡◌, refl}
use mathlib.Core.Logic.{◌⊎◌, inl, inr}
use mathlib.Core.Option.{Option, none, some}
use mathlib.Core.Bool.{Bool, true, false}
use Prim.Native.Nat.{ℕ}

pub data Result {ℓ} (A : Type ℓ) : Type ℓ where
  ok : A → Result A
  err : ℕ → Result A

-- `if test { return Err(status) }`
abbrev pub refuse : Bool → ℕ → Result (Unit {0})
refuse true e = err e
refuse false e = ok tt

-- `.ok_or(status)` and `.map_err(|_| status)`
abbrev pub ok_or {ℓ} : {A : Type ℓ} → Option A → ℕ → Result A
ok_or none e = err e
ok_or (some a) e = ok a

infixl 5 ◌>>=◌ ◌>>◌
abbrev pub ◌>>=◌ {ℓ κ} : {T : Type ℓ} {U : Type κ} → Result T → (T → Result U) → Result U
r >>= next = elim r [ ok t ↦ next t | err status ↦ err status ]

abbrev pub ◌>>◌ {κ} : {U : Type κ} → Result (Unit {0}) → Result U → Result U
r >> next = r >>= λ done. next

pub >>=-eq-ok {ℓ κ} :
    {T : Type ℓ} {U : Type κ} (r : Result T) (next : T → Result U) {u : U}
    → (r >>= next) ≡ ok u
    → (t : T) × (r ≡ ok t) × (next t ≡ ok u)
>>=-eq-ok (ok t) next h = (t, refl, h)
>>=-eq-ok (err status) next h = cc

pub Result-cases {ℓ} :
    {A : Type ℓ} (r : Result A) → ((e : ℕ) × (r ≡ err e)) ⊎ ((a : A) × (r ≡ ok a))
Result-cases (ok a) = inr (a, refl)
Result-cases (err e) = inl (e, refl)
