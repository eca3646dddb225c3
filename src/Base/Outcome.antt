-- ===== src/Base/Outcome.antt =====
-- Results, and methods on `&mut self`: the state that a call leaves, beside its result.
use roammand.Base.Tests.{if◌then◌else◌}
use mathlib.Core.Path.{◌≡◌, refl}
use mathlib.Core.Logic.{◌⊎◌, inl, inr}
use native.Mathlib.Omega.{arith}
use mathlib.Core.Bool.{Bool, true, false}
use mathlib.Core.Option.{Option, none, some}

pub data Result {ℓ} (E A : Type ℓ) : Type ℓ where
  ok : A → Result E A
  err : E → Result E A

infixl 5 ◌>>=◌ ◌>>◌
abbrev pub ◌>>=◌ {ℓ} : {E A B : Type ℓ} → Result E A → (A → Result E B) → Result E B
ok a >>= f = f a
err e >>= f = err e

abbrev pub ◌>>◌ {ℓ} : {E A B : Type ℓ} → Result E A → Result E B → Result E B
m >> n = m >>= λ _. n

abbrev pub ok_or {ℓ} : {E A : Type ℓ} → Option A → E → Result E A
ok_or none e = err e
ok_or (some a) e = ok a

abbrev pub is_ok {ℓ} : {E A : Type ℓ} → Result E A → Bool
is_ok (ok a) = true
is_ok (err e) = false

-- map_err by a constant
abbrev pub map_err {ℓ} : {E F A : Type ℓ} → F → Result E A → Result F A
map_err f (ok a) = ok a
map_err f (err e) = err f

-- `if !test { return Err(e) }`
abbrev pub ensure {ℓ} : {E : Type ℓ} → Bool → E → Result E Unit
ensure true e = ok tt
ensure false e = err e

-- A call on a state: what it leaves, and its result.
abbrev pub Call {ℓ} : Type ℓ → Type ℓ → Type ℓ → Type ℓ
Call S E A = S × Result E A

-- The `?` operator after a call: an error leaves the state as that call left it.
abbrev pub and_then {ℓ} : {S E A B : Type ℓ} → Call S E A → (S → A → Call S E B) → Call S E B
and_then (s, ok a) k = k s a
and_then (s, err e) k = (s, err e)

pub Result-cases {ℓ} :
    {E A : Type ℓ} (r : Result E A) → ((a : A) × (r ≡ ok a)) ⊎ ((e : E) × (r ≡ err e))
Result-cases (ok a) = inl (a, refl)
Result-cases (err e) = inr (e, refl)

-- Inversion of a chain that succeeds: both parts did, and the chain is the second part.
pub and_then-ok {ℓ} :
    {S E A B : Type ℓ} (c : Call S E A) (k : S → A → Call S E B) {b : B}
    → (and_then c k).1 ≡ ok b
    → (a : A) × (c.1 ≡ ok a) × ((k c.0 a).1 ≡ ok b) × (and_then c k ≡ k c.0 a)
and_then-ok (s, ok a) k h = (a, refl, h, refl)
and_then-ok (s, err e) k h = cc

-- Inversion of a bind that succeeds.
pub >>=-ok {ℓ} :
    {E A B : Type ℓ} (m : Result E A) (f : A → Result E B) {b : B}
    → (m >>= f) ≡ ok b
    → (a : A) × (m ≡ ok a) × (f a ≡ ok b)
>>=-ok (ok a) f h = (a, refl, h)
>>=-ok (err e) f h = cc

pub >>-ok {ℓ} :
    {E A B : Type ℓ} (m : Result E A) (n : Result E B) {b : B}
    → (m >> n) ≡ ok b
    → (is_ok m ≡ true) × (n ≡ ok b)
>>-ok (ok a) n h = (refl, h)
>>-ok (err e) n h = cc

-- A guard that returns an error was passed, if the call succeeds.
pub if-ok {ℓ} :
    {S E A : Type ℓ} (b : Bool) (q r : Call S E A) (a : A)
    → is_ok q.1 ≡ false
    → (if b then q else r).1 ≡ ok a
    → (b ≡ false) × ((if b then q else r) ≡ r)
if-ok true q r a n h = absurd (ground arith)
if-ok false q r a n h = (refl, refl)

-- Where a chain that fails has failed.
pub and_then-err {ℓ} :
    {S E A B : Type ℓ} (c : Call S E A) (k : S → A → Call S E B) {x : E}
    → (and_then c k).1 ≡ err x
    → (c.1 ≡ err x) ⊎ ((a : A) × (c.1 ≡ ok a) × ((k c.0 a).1 ≡ err x))
and_then-err (s, ok a) k h = inr (a, refl, h)
and_then-err (s, err e) k h = inl (ground arith)

pub and_then_assoc {ℓ} :
    {S E A B C : Type ℓ} (c : Call S E A) (k : S → A → Call S E B) (j : S → B → Call S E C)
    → and_then (and_then c k) j ≡ and_then c (λ s a. and_then (k s a) j)
and_then_assoc (s, ok a) k j = refl
and_then_assoc (s, err e) k j = refl

pub and_then_pure {ℓ} : {S E A : Type ℓ} (c : Call S E A) → and_then c (λ s a. (s, ok a)) ≡ c
and_then_pure (s, ok a) = refl
and_then_pure (s, err e) = refl

pub and_then_at_ok {ℓ} :
    {S E A B : Type ℓ} (c : Call S E A) (k : S → A → Call S E B) (a : A)
    → c.1 ≡ ok a
    → and_then c k ≡ k c.0 a
and_then_at_ok (s, ok x) k a h = ground arith
and_then_at_ok (s, err e) k a h = absurd (ground arith)

pub and_then_at_err {ℓ} :
    {S E A B : Type ℓ} (c : Call S E A) (k : S → A → Call S E B) (e : E)
    → c.1 ≡ err e
    → and_then c k ≡ (c.0, err e)
and_then_at_err (s, ok x) k e h = absurd (ground arith)
and_then_at_err (s, err x) k e h = ground arith
