-- ===== src/Prelude/Outcome/Endings.antt =====
-- What a sequence of calls comes to where returns and errors are told apart, and what follows a
-- call that is known to return, fail or panic.
use riochain.Prelude.{String, ◌≡◌, refl, ap, ◌∙◌, Bool, true}
use riochain.Prelude.Outcome.Actions.{
  Outcome, ok, err, panic, Action, ensure, unwrap, ◌>>=◌, ◌>>◌, Returns, Keeps, Ends,
}

module _ {S A B : Type 0} (f : A → Action S B) (Q : B → S → Type 0) (E : S → Type 0) where
  Ends-after :
      (P : A → S → Type 0) (o : Outcome S A)
      → Ends o P E
      → ((a : A) (s : S) → P a s → Ends (f a s) Q E)
      → Ends (elim o [ ok a s' ↦ f a s' | err e s' ↦ err e s' | panic ↦ panic ]) Q E
  Ends-after P (ok a s) h k = k a s h
  Ends-after P (err e s) h k = h
  Ends-after P panic h k = h

  -- What the first call ends in is where the second one starts.
  pub Ends->>= :
      (P : A → S → Type 0) (m : Action S A) (s : S)
      → Ends (m s) P E
      → ((a : A) (s' : S) → P a s' → Ends (f a s') Q E)
      → Ends ((m >>= f) s) Q E
  Ends->>= P m s h k = Ends-after P (m s) h k

  Ends_of_Keeps_after :
      (P : S → Type 0) (o : Outcome S A)
      → Keeps o P
      → ((s : S) → P s → E s)
      → ((a : A) (s : S) → P s → Ends (f a s) Q E)
      → Ends (elim o [ ok a s' ↦ f a s' | err e s' ↦ err e s' | panic ↦ panic ]) Q E
  Ends_of_Keeps_after P (ok a s) h e k = k a s h
  Ends_of_Keeps_after P (err x s) h e k = e s h
  Ends_of_Keeps_after P panic h e k = tt

  -- The same with a first call that keeps a predicate on states.
  pub Ends_of_Keeps :
      (P : S → Type 0) (m : Action S A) (s : S)
      → Keeps (m s) P
      → ((s' : S) → P s' → E s')
      → ((a : A) (s' : S) → P s' → Ends (f a s') Q E)
      → Ends ((m >>= f) s) Q E
  Ends_of_Keeps P m s h e k = Ends_of_Keeps_after P (m s) h e k

module _ {S A B : Type 0} (f g : A → Action S B) (P : A → S → Type 0) (E : S → Type 0) where
  bind_after :
      (o : Outcome S A)
      → Ends o P E
      → ((a : A) (s : S) → P a s → f a s ≡ g a s)
      → elim o as (λ _. Outcome S B) [ ok a s' ↦ f a s' | err e s' ↦ err e s' | panic ↦ panic ]
        ≡ elim o as (λ _. Outcome S B) [ ok a s' ↦ g a s' | err e s' ↦ err e s' | panic ↦ panic ]
  bind_after (ok a s) h k = k a s h
  bind_after (err e s) h k = refl
  bind_after panic h k = refl

  -- Two calls that agree wherever the first call ends are the same after it.
  pub bind_cong :
      (m : Action S A) (s : S)
      → Ends (m s) P E
      → ((a : A) (s' : S) → P a s' → f a s' ≡ g a s')
      → (m >>= f) s ≡ (m >>= g) s
  bind_cong m s h k = bind_after (m s) h k

module _ {S A B : Type 0} (f : A → Action S B) (m : Action S A) (s : S) where
  abbrev next : Outcome S A → Outcome S B
  next (ok a s') = f a s'
  next (err e s') = err e s'
  next panic = panic

  next_lem :
      (o : Outcome S A)
      → elim o as (λ _. Outcome S B) [ ok a s' ↦ f a s' | err e s' ↦ err e s' | panic ↦ panic ]
        ≡ next o
  next_lem (ok a s') = refl
  next_lem (err e s') = refl
  next_lem panic = refl

  -- What follows a call that returned, one that failed, and one that panicked.
  pub bind_ok : (a : A) (s' : S) → m s ≡ ok a s' → (m >>= f) s ≡ f a s'
  bind_ok a s' h = next_lem (m s) ∙ ap next h

  pub bind_err : (e : String) (s' : S) → m s ≡ err e s' → (m >>= f) s ≡ err e s'
  bind_err e s' h = next_lem (m s) ∙ ap next h

  pub bind_panic : m s ≡ panic → (m >>= f) s ≡ panic
  bind_panic h = next_lem (m s) ∙ ap next h

-- A guard that holds lets the rest of the call run.
pub ensure_passes :
    {S B : Type 0} (b : Bool) (e : String) (k : Action S B) (s : S) (P : B → S → Type 0)
    → b ≡ true
    → Returns (k s) P
    → Returns ((ensure b e >> k) s) P
ensure_passes b e k s P holds h = rw holds h

unwrap_after :
    {S A : Type 0} (P : A → S → Type 0) (o : Outcome S A)
    → Ends o P (λ _. Unit)
    → Ends
        (elim o as (λ _. Outcome S A) [ ok a s' ↦ ok a s' | err _ _ ↦ panic | panic ↦ panic ])
        P
        (λ _. ⊥)
unwrap_after P (ok a s) h = h
unwrap_after P (err e s) h = tt
unwrap_after P panic h = tt

-- An unwrapped call never fails with an error.
pub Ends-unwrap :
    {S A : Type 0} (P : A → S → Type 0) (m : Action S A) (s : S)
    → Ends (m s) P (λ _. Unit)
    → Ends (unwrap m s) P (λ _. ⊥)
Ends-unwrap P m s h = unwrap_after P (m s) h
