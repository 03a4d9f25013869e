-- ===== src/Prelude/Outcome/Actions.antt =====
-- A runtime call: it reads and writes storage, and returns, fails or panics. What was written
-- before an `Err` stays written; a panic leaves no state.
use riochain.Prelude.{String, Bool, true, false, Option, none, some}

pub data Outcome {ℓ} (S A : Type ℓ) : Type ℓ where
  ok : A → S → Outcome S A
  err : String → S → Outcome S A
  panic : Outcome S A

abbrev pub Action {ℓ} : Type ℓ → Type ℓ → Type ℓ
Action S A = S → Outcome S A

module _ {ℓ} {S A : Type ℓ} where
  abbrev pub pure : A → Action S A
  pure a s = ok a s

  abbrev pub fail : String → Action S A
  fail e s = err e s

  abbrev pub abort : Action S A
  abort s = panic

  abbrev pub gets : (S → A) → Action S A
  gets f s = ok (f s) s

  -- `ok_or_else(…)?`
  abbrev pub some_or : Option A → String → Action S A
  some_or none e s = err e s
  some_or (some a) e s = ok a s

  -- `expect`, `unwrap`
  abbrev pub expect : Option A → Action S A
  expect none s = panic
  expect (some a) s = ok a s

  -- `or_else(…)`
  abbrev pub or_else : Action S A → (String → Action S A) → Action S A
  or_else m f s = elim (m s) [ ok a s' ↦ ok a s' | err e s' ↦ f e s' | panic ↦ panic ]

infixl 5 ◌>>=◌ ◌>>◌
abbrev pub ◌>>=◌ {ℓ} : {S A B : Type ℓ} → Action S A → (A → Action S B) → Action S B
◌>>=◌ m f s = elim (m s) [ ok a s' ↦ f a s' | err e s' ↦ err e s' | panic ↦ panic ]

abbrev pub ◌>>◌ {ℓ} : {S A B : Type ℓ} → Action S A → Action S B → Action S B
m >> k = m >>= λ _. k

abbrev pub modify : {S : Type 0} → (S → S) → Action S Unit
modify f s = ok tt (f s)

-- `ensure!(…)`
abbrev pub ensure : {S : Type 0} → Bool → String → Action S Unit
ensure true e s = ok tt s
ensure false e s = err e s

-- `unwrap_or_default()` on a result that is not read
abbrev pub ignore : {S : Type 0} → Action S Unit → Action S Unit
ignore m s = elim (m s) [ ok _ s' ↦ ok tt s' | err _ s' ↦ ok tt s' | panic ↦ panic ]

-- `unwrap()` on the result of a call
abbrev pub unwrap {ℓ} : {S A : Type ℓ} → Action S A → Action S A
unwrap m s = elim (m s) [ ok a s' ↦ ok a s' | err _ _ ↦ panic | panic ↦ panic ]

-- The call comes to an end, well or by an `Err`, in a state with `P`.
abbrev pub Leaves {ℓ} : {S A : Type ℓ} → Outcome S A → (S → Type 0) → Type 0
Leaves (ok a s) P = P s
Leaves (err e s) P = P s
Leaves panic P = ⊥

-- The call returns, and not by an `Err`, in a state with `P`.
abbrev pub Returns {ℓ} : {S A : Type ℓ} → Outcome S A → (A → S → Type 0) → Type 0
Returns (ok a s) P = P a s
Returns _ P = ⊥

-- If the call comes to an end without a panic, it does so in a state with `P`. A panic leaves no
-- state behind.
abbrev pub Keeps {ℓ} : {S A : Type ℓ} → Outcome S A → (S → Type 0) → Type 0
Keeps (ok a s) P = P s
Keeps (err e s) P = P s
Keeps panic P = Unit

-- Unless the call panics, it returns a value in a state with `P`, or fails in a state with `Q`.
abbrev pub Ends {ℓ} : {S A : Type ℓ} → Outcome S A → (A → S → Type 0) → (S → Type 0) → Type 0
Ends (ok a s) P Q = P a s
Ends (err e s) P Q = Q s
Ends panic P Q = Unit
