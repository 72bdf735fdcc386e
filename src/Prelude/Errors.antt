-- ===== src/Prelude/Errors.antt =====
-- What comes of a Go call: a value, an error, a panic that unwinds the caller, or nothing at all,
-- where it blocks for ever or overflows the stack.
use Prim.Native.String.{String, [], ◌∷◌, ◌++◌}
use mathlib.Core.Path.{◌≡◌, refl}
use mathlib.Core.Bool.{Bool, true, false}

-- `not_found` is `domain.NotFoundError`, which `errors.Is` recognises; `message` is any other.
pub data Error : Type 0 where
  not_found : String → Error
  message : String → Error

pub data Result {ℓ} (Value : Type ℓ) : Type ℓ where
  ok : Value → Result Value
  err : Error → Result Value
  panic : Result Value
  lost : Result Value

-- `if !condition { return failure }`
abbrev pub guard : Bool → Error → Result (Unit {0})
guard false failure = err failure
guard true failure = ok tt

-- `value, err := call; if err != nil { return err }`, and what unwinds through it.
abbrev pub ◌>>=◌ {ℓ κ} :
    {Value : Type ℓ} {Next : Type κ} → Result Value → (Value → Result Next) → Result Next
◌>>=◌ lost next = lost
◌>>=◌ panic next = panic
◌>>=◌ (err failure) next = err failure
◌>>=◌ (ok value) next = next value

infixl 5 ◌>>=◌
abbrev pub ◌>>◌ {ℓ κ} : {Value : Type ℓ} {Next : Type κ} → Result Value → Result Next → Result Next
◌>>◌ call next = call >>= λ value. next

infixl 5 ◌>>◌
-- A chain that ended well had each of its steps end well.
pub >>=-ok {ℓ κ} :
    {Value : Type ℓ} {Next : Type κ} (call : Result Value) (next : Value → Result Next)
    {result : Next}
    → (call >>= next) ≡ ok result
    → (value : Value) × (call ≡ ok value) × (next value ≡ ok result)
>>=-ok lost next e = cc
>>=-ok panic next e = cc
>>=-ok (err failure) next e = cc
>>=-ok (ok value) next e = (value, refl, e)

pub ok_injective {ℓ} : {Value : Type ℓ} (a b : Value) → Result.ok a ≡ ok b → a ≡ b
ok_injective a b h = cc

-- What goes on from an outcome, which a failure ends with the state as it is.
abbrev pub on_ok {ℓ κ μ} :
    {A : Type ℓ} {B : Type κ} {S : Type μ} → Result A → (A → S → Result B × S) → S → Result B × S
on_ok (ok a) f s = f a s
on_ok (err e) f s = (err e, s)
on_ok panic f s = (panic, s)
on_ok lost f s = (lost, s)

-- err.Error()
abbrev pub error_text : Error → String
error_text (not_found []) = "not found"
error_text (not_found (c ∷ resource)) = (c ∷ resource) ++ " not found"
error_text (message text) = text

-- `fmt.Errorf("…: %v", err)` around the error of a call
abbrev pub annotate {ℓ} : {Value : Type ℓ} → String → Result Value → Result Value
annotate context (ok value) = ok value
annotate context (err failure) = err (message (context ++ (": " ++ error_text failure)))
annotate context panic = panic
annotate context lost = lost
