-- ===== src/Base/Faults.antt =====
-- What a call of the client ends in: a result, undefined behaviour of the C++ code, or a bound on
-- the recursion that was chosen too small.
use mathlib.Core.Path.{◌≡◌, refl}

pub data Fault : Type 0 where
  null_stub null_stream null_queue null_subscription null_link out_of_bounds empty_pop dangling
        context_reused stream_finished :
      Fault

pub data Outcome {ℓ} (A : Type ℓ) : Type ℓ where
  ok : A → Outcome A
  fault : Fault → Outcome A
  out_of_fuel : Outcome A

pub ok-injective {ℓ} : {A : Type ℓ} {a b : A} → ok a ≡ ok b → a ≡ b
ok-injective h = cc

-- What follows a call runs on its result only.
abbrev pub after {ℓ κ} : {B : Type ℓ} {A : Type κ} → (B → Outcome A) → Outcome B → Outcome A
after next (ok b) = next b
after next (fault e) = fault e
after next out_of_fuel = out_of_fuel

infixl 5 ◌>>=◌
abbrev pub ◌>>=◌ {ℓ κ} : {B : Type ℓ} {A : Type κ} → Outcome B → (B → Outcome A) → Outcome A
call >>= next = after next call

-- A chain that returns has a first call that returns.
pub after-returns {ℓ κ} :
    {B : Type ℓ} {A : Type κ} (next : B → Outcome A) (call : Outcome B) {a : A}
    → (call >>= next) ≡ ok a
    → (b : B) × (call ≡ ok b) × (next b ≡ ok a)
after-returns next (ok b) h = (b, refl, h)
after-returns next (fault e) h = cc
after-returns next out_of_fuel h = cc

-- The call does not run out of fuel, what it returns satisfies `P`, and its fault, if it has one,
-- satisfies `F`.
abbrev pub Ends {ℓ} : {A : Type ℓ} → (Fault → Type 0) → (A → Type 0) → Outcome A → Type 0
Ends F P (ok a) = P a
Ends F P (fault e) = F e
Ends F P out_of_fuel = ⊥

pub Ends-bind {ℓ κ} :
    {A : Type ℓ} {B : Type κ} (F G : Fault → Type 0) (P : A → Type 0) (Q : B → Type 0)
    (m : Outcome A) (f : A → Outcome B)
    → Ends F P m
    → ((e : Fault) → F e → G e)
    → ((a : A) → P a → Ends G Q (f a))
    → Ends G Q (m >>= f)
Ends-bind F G P Q (ok a) f h g k = k a h
Ends-bind F G P Q (fault e) f h g k = g e h
Ends-bind F G P Q out_of_fuel f h g k = absurd h

pub Ends-map {ℓ} :
    {A : Type ℓ} (F G : Fault → Type 0) (P Q : A → Type 0) (m : Outcome A)
    → Ends F P m
    → ((e : Fault) → F e → G e)
    → ((a : A) → P a → Q a)
    → Ends G Q m
Ends-map F G P Q (ok a) h g k = k a h
Ends-map F G P Q (fault e) h g k = g e h
Ends-map F G P Q out_of_fuel h g k = h

-- What every result satisfies, a call ends in.
pub Ends-returned {ℓ} :
    {A : Type ℓ} (F : Fault → Type 0) (P Q : A → Type 0) (m : Outcome A)
    → Ends F P m
    → ((a : A) → m ≡ ok a → P a → Q a)
    → Ends F Q m
Ends-returned F P Q (ok a) h k = k a refl h
Ends-returned F P Q (fault e) h k = h
Ends-returned F P Q out_of_fuel h k = h
