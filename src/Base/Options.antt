-- ===== src/Base/Options.antt =====
-- Results that may be missing, chained by `do`: `none` is fuel that ran out.
use mathlib.Core.Path.{◌≡◌, refl}
use mathlib.Core.Logic.{◌⊎◌, inl, inr}
use mathlib.Core.Option.{Option, none, some}

infixl 5 ◌>>=◌ ◌>>◌
abbrev pub ◌>>=◌ {ℓ κ} : {A : Type ℓ} {B : Type κ} → Option A → (A → Option B) → Option B
none >>= f = none
some a >>= f = f a

abbrev pub ◌>>◌ {ℓ κ} : {A : Type ℓ} {B : Type κ} → Option A → Option B → Option B
m >> k = m >>= λ _. k

pub Option-cases {ℓ} : {A : Type ℓ} (o : Option A) → (o ≡ none) ⊎ ((a : A) × (o ≡ some a))
Option-cases none = inl refl
Option-cases (some a) = inr (a, refl)

-- A successful bind is two successful steps.
pub >>=-eq-some {ℓ κ} :
    {A : Type ℓ} {B : Type κ} (m : Option A) (f : A → Option B) {b : B}
    → (m >>= f) ≡ some b
    → (a : A) × (m ≡ some a) × (f a ≡ some b)
>>=-eq-some none f h = cc
>>=-eq-some (some a) f h = (a, refl, h)

-- There is a result, and it has the property.
abbrev pub Ensures {ℓ} : {A : Type ℓ} → (A → Type 0) → Option A → Type 0
Ensures P none = ⊥
Ensures P (some a) = P a

pub Ensures-bind {ℓ κ} :
    {A : Type ℓ} {B : Type κ} (P : A → Type 0) (Q : B → Type 0) (m : Option A) (f : A → Option B)
    → Ensures P m
    → ((a : A) → P a → Ensures Q (f a))
    → Ensures Q (m >>= f)
Ensures-bind P Q none f h k = absurd h
Ensures-bind P Q (some a) f h k = k a h

pub Ensures-map {ℓ} :
    {A : Type ℓ} (P Q : A → Type 0) (m : Option A)
    → Ensures P m
    → ((a : A) → P a → Q a)
    → Ensures Q m
Ensures-map P Q none h k = absurd h
Ensures-map P Q (some a) h k = k a h

-- The second result is the first one, unless the first ran out of fuel.
abbrev pub Extends {ℓ} : {A : Type ℓ} → Option A → Option A → Type ℓ
Extends o o' = (o ≡ none) ⊎ (o ≡ o')

pub Extends-bind {ℓ κ} :
    {A : Type ℓ} {B : Type κ} (m m' : Option A) (f f' : A → Option B)
    → Extends m m'
    → ((a : A) → Extends (f a) (f' a))
    → Extends (m >>= f) (m' >>= f')
Extends-bind m m' f f' (inl e) h = rw e (inl refl)
Extends-bind none m' f f' (inr e) h = inl refl
Extends-bind (some a) m' f f' (inr e) h = rw (← e) (h a)

-- The result, if there is one, has the property.
abbrev pub Allows {ℓ} : {A : Type ℓ} → (A → Type 0) → Option A → Type 0
Allows P none = Unit
Allows P (some a) = P a

pub Allows-bind {ℓ κ} :
    {A : Type ℓ} {B : Type κ} (P : A → Type 0) (Q : B → Type 0) (m : Option A) (f : A → Option B)
    → Allows P m
    → ((a : A) → P a → Allows Q (f a))
    → Allows Q (m >>= f)
Allows-bind P Q none f h k = tt
Allows-bind P Q (some a) f h k = k a h

pub Allows-map {ℓ} :
    {A : Type ℓ} (P Q : A → Type 0) (m : Option A) → Allows P m → ((a : A) → P a → Q a) → Allows Q m
Allows-map P Q none h k = tt
Allows-map P Q (some a) h k = k a h

pub Ensures-some {ℓ} :
    {A : Type ℓ} (P : A → Type 0) (m : Option A) → Ensures P m → (a : A) × (m ≡ some a) × P a
Ensures-some P none h = absurd h
Ensures-some P (some a) h = (a, refl, h)
