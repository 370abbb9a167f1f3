-- ===== src/Base/Fault.antt =====
-- Steps that may fail: `none` is a fault, such as a failed assertion or an access out of bounds.
use mathlib.Core.Option.{Option, none, some}
use mathlib.Core.List.{List, [], ◌∷◌}
use mathlib.Core.Bool.{Bool, true, false}
use mathlib.Core.Path.{◌≡◌, refl, sym, ap, ◌∙◌, subst}
use gputop.Base.Tests.{if◌then◌else◌}

infixl 5 ◌>>=◌
abbrev pub ◌>>=◌ {ℓ κ} : {A : Type ℓ} {B : Type κ} → Option A → (A → Option B) → Option B
none >>= f = none
some a >>= f = f a

-- A test of a pointer: the value where it is NULL, and what is done with it where it is not.
abbrev pub maybe {ℓ κ} : {A : Type ℓ} {B : Type κ} → Option A → B → (A → B) → B
maybe none x f = x
maybe (some a) x f = f a

-- The assertion that a list is empty.
abbrev pub when_empty {ℓ κ} : {A : Type ℓ} {B : Type κ} → List A → Option B → Option B
when_empty [] x = x
when_empty (_ ∷ _) x = none

-- A step does not fail, and its result has a property.
pub record Ensures {ℓ κ} {A : Type ℓ} (m : Option A) (P : A → Type κ) : Type (ℓ ⊔ κ) where
  pub result : A
  pub runs : m ≡ some result
  pub holds : P result

-- A step does not fail.
abbrev pub Runs {ℓ} : {A : Type ℓ} → Option A → Type ℓ
Runs m = Ensures {ℓ, 0} m (λ _. Unit)

module _ {ℓ κ} {A : Type ℓ} {P : A → Type κ} where
  pub Ensures-some : (a : A) → P a → Ensures (some a) P
  Ensures-some a h = record { result = a; runs = refl; holds = h }

  pub Ensures-of : {m : Option A} (a : A) → m ≡ some a → P a → Ensures m P
  Ensures-of a e h = record { result = a; runs = e; holds = h }

  -- A result that is known has the property.
  pub Ensures-result : {m : Option A} {a : A} → Ensures m P → m ≡ some a → P a
  Ensures-result {a = a} h e = subst P (ap (λ o. maybe o a (λ x. x)) (sym h.runs ∙ e)) h.holds

  pub Ensures-if :
      (b : Bool) {x y : Option A}
      → (b ≡ true → Ensures x P)
      → (b ≡ false → Ensures y P)
      → Ensures (if b then x else y) P
  Ensures-if true h k = h refl
  Ensures-if false h k = k refl

  pub Ensures-mono {κ'} :
      {Q : A → Type κ'} {m : Option A} → Ensures m P → ((a : A) → P a → Q a) → Ensures m Q
  Ensures-mono h k = record { result = h.result; runs = h.runs; holds = k h.result h.holds }

module _ {ℓ ℓ' κ} {A : Type ℓ} {B : Type ℓ'} {Q : B → Type κ} where
  pub Ensures-bind {κ'} :
      {P : A → Type κ'} {m : Option A} {f : A → Option B}
      → Ensures m P
      → ((a : A) → P a → Ensures (f a) Q)
      → Ensures (m >>= f) Q
  Ensures-bind {f = f} h k =
      let rest = k h.result h.holds in
      record {
        result = rest.result;
        runs = ap (λ m. m >>= f) h.runs ∙ rest.runs;
        holds = rest.holds;
      }

  pub Ensures-when_empty :
      (xs : List A) {x : Option B} → xs ≡ [] → Ensures x Q → Ensures (when_empty xs x) Q
  Ensures-when_empty [] e h = h
  Ensures-when_empty (_ ∷ _) e h = absurd cc

  pub Ensures-maybe :
      (m : Option A) {x : Option B} {f : A → Option B}
      → (m ≡ none → Ensures x Q)
      → ((a : A) → m ≡ some a → Ensures (f a) Q)
      → Ensures (maybe m x f) Q
  Ensures-maybe none h k = h refl
  Ensures-maybe (some a) h k = k a refl
