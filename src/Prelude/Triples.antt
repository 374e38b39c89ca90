-- ===== src/Prelude/Triples.antt =====
-- Conditions before and after a run of an action: on what it returns and leaves, and on the
-- exception it raises and leaves.
use beetroot.Prelude.Errors.{Error, Result, ok, err, ok_injective, err-ne-ok}
use mathlib.Core.Bool.{Bool, true, false}
use mathlib.Core.Path.{◌≡◌, refl, sym, subst}
use beetroot.Prelude.Actions.{
  Action, continue, ◌>>=◌, ◌>>◌, return, given, refuse_if, reraise, settle_error, rescue,
}

-- Where a run ends: `Q` holds of the value and the state, or `E` of the exception and the state.
abbrev pub Ends {ℓ} :
    {A : Type ℓ} {W : Type 0} (Q : A → W → Type 0) (E : Error → W → Type 0) → Result A × W → Type 0
Ends Q E (ok a, w) = Q a w
Ends Q E (err e, w) = E e w

pub record Runs {ℓ} {A : Type ℓ} {W : Type 0} (P : W → Type 0) (m : Action W A) (Q : A → W → Type 0)
    (E : Error → W → Type 0) : Type ℓ where
  pub run : (w : W) → P w → Ends Q E (m w)

-- Every run keeps `I`, also one that raises.
abbrev pub Keeps {ℓ} : {A : Type ℓ} {W : Type 0} (I : W → Type 0) (m : Action W A) → Type ℓ
Keeps I m = Runs I m (λ _. I) (λ _. I)

module _ {W : Type 0} where
  pub Ends-mono {ℓ} :
      {A : Type ℓ} (Q R : A → W → Type 0) (E F : Error → W → Type 0) (step : Result A × W)
      → ((a : A) (w : W) → Q a w → R a w)
      → ((e : Error) (w : W) → E e w → F e w)
      → Ends Q E step
      → Ends R F step
  Ends-mono Q R E F (ok a, w) f g h = f a w h
  Ends-mono Q R E F (err e, w) f g h = g e w h

  -- a condition that holds however the run ends
  pub Ends-always {ℓ} :
      {A : Type ℓ} (I : W → Type 0) (step : Result A × W) → Ends (λ _. I) (λ _. I) step → I step.1
  Ends-always I (ok a, w) h = h
  Ends-always I (err e, w) h = h

  pub always-Ends {ℓ} :
      {A : Type ℓ} (I : W → Type 0) (step : Result A × W) → I step.1 → Ends (λ _. I) (λ _. I) step
  always-Ends I (ok a, w) h = h
  always-Ends I (err e, w) h = h

  Ends-continue {ℓ κ} :
      {A : Type ℓ} {B : Type κ} (Q : A → W → Type 0) (R : B → W → Type 0) (E : Error → W → Type 0)
      (step : Result A × W) (next : A → Action W B)
      → Ends Q E step
      → ((a : A) → Runs (Q a) (next a) R E)
      → Ends R E (continue step next)
  Ends-continue Q R E (ok a, w) next h k = (k a).run w h
  Ends-continue Q R E (err e, w) next h k = h

  pub Runs->>= {ℓ κ} :
      {A : Type ℓ} {B : Type κ} {P : W → Type 0} {Q : A → W → Type 0} {R : B → W → Type 0}
      {E : Error → W → Type 0} (m : Action W A) (next : A → Action W B)
      → Runs P m Q E
      → ((a : A) → Runs (Q a) (next a) R E)
      → Runs P (m >>= next) R E
  Runs->>= {Q = Q} {R = R} {E = E} m next h k = record {
    run = λ w p. Ends-continue Q R E (m w) next (h.run w p) k;
  }

  pub Runs->> {κ} :
      {B : Type κ} {P Q : W → Type 0} {R : B → W → Type 0} {E : Error → W → Type 0}
      (m : Action W (Unit {0})) (next : Action W B)
      → Runs P m (λ _. Q) E
      → Runs Q next R E
      → Runs P (m >> next) R E
  Runs->> {Q = Q} {R = R} {E = E} m next h k = record {
    run = λ w p. Ends-continue (λ _. Q) R E (m w) (λ _. next) (h.run w p) (λ _. k);
  }

  Ends-reraise {ℓ} :
      {A : Type ℓ} (R : A → W → Type 0) (F : Error → W → Type 0) (e : Error)
      (step : Result (Unit {0}) × W)
      → Ends (λ _. F e) F step
      → Ends R F (reraise {A = A} e step)
  Ends-reraise R F e (ok a, w) h = h
  Ends-reraise R F e (err f, w) h = h

  Ends-settle_error {ℓ} :
      {A : Type ℓ} (Q : A → W → Type 0) (E F : Error → W → Type 0) (step : Result A × W)
      (handler : Action W (Unit {0}))
      → Ends Q E step
      → ((e : Error) → Runs (E e) handler (λ _. F e) F)
      → Ends Q F (settle_error step handler)
  Ends-settle_error Q E F (ok a, w) handler h k = h
  Ends-settle_error Q E F (err e, w) handler h k = Ends-reraise Q F e (handler w) ((k e).run w h)

  -- The handler takes over where the body raises, and the exception is raised again.
  pub Runs-rescue {ℓ} :
      {A : Type ℓ} {P : W → Type 0} {Q : A → W → Type 0} {E F : Error → W → Type 0} (m : Action W A)
      (handler : Action W (Unit {0}))
      → Runs P m Q E
      → ((e : Error) → Runs (E e) handler (λ _. F e) F)
      → Runs P (rescue m handler) Q F
  Runs-rescue {Q = Q} {E = E} {F = F} m handler h k = record {
    run = λ w p. Ends-settle_error Q E F (m w) handler (h.run w p) k;
  }

  pub Keeps-given {ℓ} : {A : Type ℓ} (I : W → Type 0) (r : Result A) → Keeps I (given {W = W} r)
  Keeps-given I (ok a) = record { run = λ w h. h }
  Keeps-given I (err e) = record { run = λ w h. h }

  pub Keeps-refuse_if : (I : W → Type 0) (test : Bool) (e : Error) → Keeps I (refuse_if test e)
  Keeps-refuse_if I true e = record { run = λ w h. h }
  Keeps-refuse_if I false e = record { run = λ w h. h }

  -- what a guard that passes has tested
  pub Runs-refuse_if :
      (I : W → Type 0) (test : Bool) (e : Error)
      → Runs I (refuse_if test e) (λ _ w. (test ≡ false) × I w) (λ _. I)
  Runs-refuse_if I true e = record { run = λ w h. h }
  Runs-refuse_if I false e = record { run = λ w h. (refl, h) }

  pub Runs-mono {ℓ} :
      {A : Type ℓ} {P P' : W → Type 0} {Q Q' : A → W → Type 0} {E E' : Error → W → Type 0}
      (m : Action W A)
      → ((w : W) → P' w → P w)
      → ((a : A) (w : W) → Q a w → Q' a w)
      → ((e : Error) (w : W) → E e w → E' e w)
      → Runs P m Q E
      → Runs P' m Q' E'
  Runs-mono {Q = Q} {Q' = Q'} {E = E} {E' = E'} m f g h k = record {
    run = λ w p. Ends-mono Q Q' E E' (m w) g h (k.run w (f w p));
  }

  -- a run whose result is known
  pub Ends-ok {ℓ} :
      {A : Type ℓ} (Q : A → W → Type 0) (E : Error → W → Type 0) (step : Result A × W) {a : A}
      → step.0 ≡ ok a
      → Q a step.1
      → Ends Q E step
  Ends-ok Q E (ok b, w) {a = a} same h = subst (λ c. Q c w) (ok_injective a b (sym same)) h
  Ends-ok Q E (err e, w) same h = absurd (err-ne-ok e same)

  pub Ends-err {ℓ} :
      {A : Type ℓ} (Q : A → W → Type 0) (E : Error → W → Type 0) (step : Result A × W) {e : Error}
      → step.0 ≡ err e
      → ((f : Error) → E f step.1)
      → Ends Q E step
  Ends-err Q E (ok b, w) {e = e} same h = absurd (err-ne-ok e (sym same))
  Ends-err Q E (err f, w) same h = h f

  pub Runs-return {ℓ} :
      {A : Type ℓ} {P : W → Type 0} {Q : A → W → Type 0} {E : Error → W → Type 0} (a : A)
      → ((w : W) → P w → Q a w)
      → Runs P (return a) Q E
  Runs-return a h = record { run = h }

  -- a condition of the end, and one that holds however it ends
  pub Ends-with {ℓ} :
      {A : Type ℓ} (Q : A → W → Type 0) (E : Error → W → Type 0) (I : W → Type 0)
      (step : Result A × W)
      → Ends Q E step
      → Ends (λ _. I) (λ _. I) step
      → Ends (λ a w. Q a w × I w) (λ e w. E e w × I w) step
  Ends-with Q E I (ok a, w) h k = (h, k)
  Ends-with Q E I (err e, w) h k = (h, k)

  -- A fact that a step establishes about its value is a hypothesis of what follows.
  pub Runs-fact {ℓ} :
      {A : Type ℓ} {F : Type 0} {P : W → Type 0} {Q : A → W → Type 0} {E : Error → W → Type 0}
      (m : Action W A)
      → (F → Runs P m Q E)
      → Runs (λ w. F × P w) m Q E
  Runs-fact m h = record { run = λ w p. (h p.0).run w p.1 }

  Ends-given :
      {A : Type 0} (I : W → Type 0) (r s : Result A) (w : W)
      → r ≡ s
      → I w
      → Ends (λ a v. (r ≡ ok a) × I v) (λ e. I) (given s w)
  Ends-given I r (ok a) w same h = (same, h)
  Ends-given I r (err e) w same h = h

  -- a result that is given is returned or raised
  pub Runs-given :
      {A : Type 0} (I : W → Type 0) (r : Result A)
      → Runs I (given r) (λ a w. (r ≡ ok a) × I w) (λ e. I)
  Runs-given I r = record { run = λ w h. Ends-given I r r w refl h }
