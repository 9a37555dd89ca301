-- ===== src/Linker/Errors.antt =====
-- What `getLastError` says after a failed link, and results that may fail.
use fyra.Prelude.{String, ◌≡◌, refl}
use fyra.Relocation.{EvalError}

pub data LinkError : Type 0 where
  no_input incompatible_target thunk_unsupported : LinkError
  duplicate_symbol unresolved_symbol missing_text_for_thunk : String → LinkError
  unknown_relocation_type : String → String → String → LinkError
  relocation_failed : String → EvalError → LinkError

pub data Result {ℓ} (Value : Type ℓ) : Type ℓ where
  ok : Value → Result Value
  err : LinkError → Result Value

-- The next step, unless an error has ended the link.
infixl 5 ◌>>=◌
abbrev pub ◌>>=◌ {ℓ κ} :
    {Value : Type ℓ} {Next : Type κ} → Result Value → (Value → Result Next) → Result Next
err why >>= next = err why
ok value >>= next = next value

module _ {ℓ κ} {Value : Type ℓ} {Next : Type κ} where
  pub bind_congr :
      (result : Result Value) {next next' : Value → Result Next}
      → ((value : Value) → next value ≡ next' value)
      → (result >>= next) ≡ (result >>= next')
  bind_congr (err why) same = refl
  bind_congr (ok value) same = same value

  pub bind_assoc {μ} :
      {Last : Type μ} (result : Result Value) (next : Value → Result Next)
      (last : Next → Result Last)
      → (result >>= next >>= last) ≡ (result >>= λ value. next value >>= last)
  bind_assoc (err why) next last = refl
  bind_assoc (ok value) next last = refl

-- Inversion of a chain that succeeds.
pub >>=-eq-ok {ℓ κ} :
    {Value : Type ℓ} {Next : Type κ} (result : Result Value) (next : Value → Result Next)
    {last : Next}
    → (result >>= next) ≡ ok last
    → (value : Value) × (result ≡ ok value) × (next value ≡ ok last)
>>=-eq-ok (ok value) next h = (value, refl, h)
>>=-eq-ok (err why) next h = cc
