-- ===== src/Prelude/Options.antt =====
-- Results that may be missing: what follows them, and what holds of them.
use mathlib.Core.Path.{◌≡◌, refl}
use mathlib.Core.Bool.{Bool, true, false}
use mathlib.Core.Option.{Option, none, some}
use qladder.Prelude.Tests.{if◌then◌else◌}

infixl 10 ◌>>=◌
abbrev pub ◌>>=◌ {ℓ κ} : {A : Type ℓ} {B : Type κ} → Option A → (A → Option B) → Option B
none >>= f = none
some a >>= f = f a

-- There is a result, and it is as it should be.
abbrev pub Gives {ℓ} : {A : Type ℓ} → (A → Type 0) → Option A → Type 0
Gives P none = ⊥
Gives P (some a) = P a

pub >>=-Gives {ℓ κ} :
    {A : Type ℓ} {B : Type κ} (P : A → Type 0) (Q : B → Type 0) (x : Option A) (f : A → Option B)
    → Gives P x
    → ((a : A) → P a → Gives Q (f a))
    → Gives Q (x >>= f)
>>=-Gives P Q none f h k = h
>>=-Gives P Q (some a) f h k = k a h

pub if-Gives {ℓ} :
    {A : Type ℓ} (P : A → Type 0) (c : Bool) (x y : Option A)
    → (c ≡ true → Gives P x)
    → (c ≡ false → Gives P y)
    → Gives P (if c then x else y)
if-Gives P true x y h k = h refl
if-Gives P false x y h k = k refl

pub either {ℓ} :
    {A : Type ℓ} (P : A → Type 0) (c : Bool) (x y : A)
    → (c ≡ true → P x)
    → (c ≡ false → P y)
    → P (if c then x else y)
either P true x y h k = h refl
either P false x y h k = k refl

pub Gives-mono {ℓ} :
    {A : Type ℓ} (P Q : A → Type 0) (x : Option A) → Gives P x → ((a : A) → P a → Q a) → Gives Q x
Gives-mono P Q none h k = h
Gives-mono P Q (some a) h k = k a h

-- If there is a result, it is as it should be.
abbrev pub Allows {ℓ} : {A : Type ℓ} → (A → Type 0) → Option A → Type 0
Allows P none = Unit {0}
Allows P (some a) = P a

pub >>=-Allows {ℓ κ} :
    {A : Type ℓ} {B : Type κ} (P : A → Type 0) (Q : B → Type 0) (x : Option A) (f : A → Option B)
    → Allows P x
    → ((a : A) → P a → Allows Q (f a))
    → Allows Q (x >>= f)
>>=-Allows P Q none f h k = tt
>>=-Allows P Q (some a) f h k = k a h

pub if-Allows {ℓ} :
    {A : Type ℓ} (P : A → Type 0) (c : Bool) (x y : Option A)
    → (c ≡ true → Allows P x)
    → (c ≡ false → Allows P y)
    → Allows P (if c then x else y)
if-Allows P true x y h k = h refl
if-Allows P false x y h k = k refl

pub Gives-Allows {ℓ} :
    {A : Type ℓ} (P Q : A → Type 0) (x : Option A)
    → Gives P x
    → Allows Q x
    → Gives (λ a. P a × Q a) x
Gives-Allows P Q none h k = absurd h
Gives-Allows P Q (some a) h k = (h, k)
