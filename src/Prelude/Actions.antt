-- ===== src/Prelude/Actions.antt =====
-- Code that changes a state and may raise: an exception keeps the changes made before it.
use beetroot.Prelude.Errors.{Error, Result, ok, err}
use mathlib.Core.Bool.{Bool, true, false}

abbrev pub Action {ℓ} : Type 0 → Type ℓ → Type ℓ
Action W A = W → Result A × W

abbrev pub continue {ℓ κ} :
    {W : Type 0} {A : Type ℓ} {B : Type κ} → Result A × W → (A → Action W B) → Result B × W
continue (err e, w) next = (err e, w)
continue (ok a, w) next = next a w

infixl 5 ◌>>=◌ ◌>>◌
abbrev pub ◌>>=◌ {ℓ κ} :
    {W : Type 0} {A : Type ℓ} {B : Type κ} → Action W A → (A → Action W B) → Action W B
◌>>=◌ m next w = continue (m w) next

abbrev pub ◌>>◌ {ℓ} : {W : Type 0} {B : Type ℓ} → Action W (Unit {0}) → Action W B → Action W B
◌>>◌ m next w = continue (m w) (λ _. next)

abbrev pub return {ℓ} : {W : Type 0} {A : Type ℓ} → A → Action W A
return a w = (ok a, w)

abbrev pub raise {ℓ} : {W : Type 0} {A : Type ℓ} → Error → Action W A
raise e w = (err e, w)

-- the value, or the exception, of code that changes nothing
abbrev pub given {ℓ} : {W : Type 0} {A : Type ℓ} → Result A → Action W A
given r w = (r, w)

-- `if test: raise e`
abbrev pub refuse_if : {W : Type 0} → Bool → Error → Action W (Unit {0})
refuse_if true e w = (err e, w)
refuse_if false e w = (ok tt, w)

abbrev pub modify : {W : Type 0} → (W → W) → Action W (Unit {0})
modify f w = (ok tt, f w)

abbrev pub reraise {ℓ} : {W : Type 0} {A : Type ℓ} → Error → Result (Unit {0}) × W → Result A × W
reraise e (ok _, w) = (err e, w)
reraise e (err f, w) = (err f, w)

abbrev pub settle_error {ℓ} :
    {W : Type 0} {A : Type ℓ} → Result A × W → Action W (Unit {0}) → Result A × W
settle_error (ok a, w) handler = (ok a, w)
settle_error (err e, w) handler = reraise e (handler w)

-- `try: m` and `except BaseException: handler; raise`
abbrev pub rescue {ℓ} : {W : Type 0} {A : Type ℓ} → Action W A → Action W (Unit {0}) → Action W A
rescue m handler w = settle_error (m w) handler
