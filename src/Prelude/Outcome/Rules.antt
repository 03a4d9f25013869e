-- ===== src/Prelude/Outcome/Rules.antt =====
-- What a sequence of calls comes to, from what each of them comes to.
use riochain.Prelude.{String}
use riochain.Prelude.Outcome.Actions.{
  Outcome, ok, err, panic, Action, or_else, ◌>>=◌, Leaves, Returns, Keeps,
}

module _ {S A B : Type 0} (f : A → Action S B) (P : S → Type 0) where
  Keeps-after :
      (o : Outcome S A)
      → Keeps o P
      → ((a : A) (s : S) → P s → Keeps (f a s) P)
      → Keeps (elim o [ ok a s' ↦ f a s' | err e s' ↦ err e s' | panic ↦ panic ]) P
  Keeps-after (ok a s) h k = k a s h
  Keeps-after (err e s) h k = h
  Keeps-after panic h k = h

  -- Two calls in a row keep what each of them keeps.
  pub Keeps->>= :
      (m : Action S A) (s : S)
      → Keeps (m s) P
      → ((a : A) (s' : S) → P s' → Keeps (f a s') P)
      → Keeps ((m >>= f) s) P
  Keeps->>= m s h k = Keeps-after (m s) h k

module _ {S A B : Type 0} (f : A → Action S B) (Q P : S → Type 0) where
  Keeps-then_after :
      (o : Outcome S A)
      → Keeps o Q
      → ((s : S) → Q s → P s)
      → ((a : A) (s : S) → Q s → Keeps (f a s) P)
      → Keeps (elim o [ ok a s' ↦ f a s' | err e s' ↦ err e s' | panic ↦ panic ]) P
  Keeps-then_after (ok a s) h e k = k a s h
  Keeps-then_after (err _ s) h e k = e s h
  Keeps-then_after panic h e k = tt

  -- The same where the second call needs more than the two keep.
  pub Keeps-then :
      (m : Action S A) (s : S)
      → Keeps (m s) Q
      → ((s' : S) → Q s' → P s')
      → ((a : A) (s' : S) → Q s' → Keeps (f a s') P)
      → Keeps ((m >>= f) s) P
  Keeps-then m s h e k = Keeps-then_after (m s) h e k

  Leaves-after :
      (o : Outcome S A)
      → Leaves o Q
      → ((s : S) → Q s → P s)
      → ((a : A) (s : S) → Q s → Leaves (f a s) P)
      → Leaves (elim o [ ok a s' ↦ f a s' | err e s' ↦ err e s' | panic ↦ panic ]) P
  Leaves-after (ok a s) h e k = k a s h
  Leaves-after (err _ s) h e k = e s h
  Leaves-after panic h e k = absurd h

  -- What a first call leaves is what an error or the second call starts from.
  pub Leaves->>= :
      (m : Action S A) (s : S)
      → Leaves (m s) Q
      → ((s' : S) → Q s' → P s')
      → ((a : A) (s' : S) → Q s' → Leaves (f a s') P)
      → Leaves ((m >>= f) s) P
  Leaves->>= m s h e k = Leaves-after (m s) h e k

module _ {S A : Type 0} (f : String → Action S A) (P : S → Type 0) where
  Leaves-or_else_after :
      (o : Outcome S A)
      → Leaves o P
      → ((e : String) (s : S) → P s → Leaves (f e s) P)
      → Leaves
          (elim o as (λ _. Outcome S A) [ ok a s' ↦ ok a s' | err e s' ↦ f e s' | panic ↦ panic ])
          P
  Leaves-or_else_after (ok a s) h k = h
  Leaves-or_else_after (err e s) h k = k e s h
  Leaves-or_else_after panic h k = absurd h

  -- A call whose error is handled leaves what the call and the handler leave.
  pub Leaves-or_else :
      (m : Action S A) (s : S)
      → Leaves (m s) P
      → ((e : String) (s' : S) → P s' → Leaves (f e s') P)
      → Leaves (or_else m f s) P
  Leaves-or_else m s h k = Leaves-or_else_after (m s) h k

pub Leaves_imp :
    {S A : Type 0} {Q : S → Type 0} (P : S → Type 0) (o : Outcome S A)
    → Leaves o Q
    → ((s : S) → Q s → P s)
    → Leaves o P
Leaves_imp P (ok a s) h k = k s h
Leaves_imp P (err e s) h k = k s h
Leaves_imp P panic h k = absurd h

module _ {S A : Type 0} (f : String → Action S A) (P : S → Type 0) where
  Keeps-or_else_after :
      (o : Outcome S A)
      → Keeps o P
      → ((e : String) (s : S) → P s → Keeps (f e s) P)
      → Keeps
          (elim o as (λ _. Outcome S A) [ ok a s' ↦ ok a s' | err e s' ↦ f e s' | panic ↦ panic ])
          P
  Keeps-or_else_after (ok a s) h k = h
  Keeps-or_else_after (err e s) h k = k e s h
  Keeps-or_else_after panic h k = tt

  -- The same without a panic.
  pub Keeps-or_else :
      (m : Action S A) (s : S)
      → Keeps (m s) P
      → ((e : String) (s' : S) → P s' → Keeps (f e s') P)
      → Keeps (or_else m f s) P
  Keeps-or_else m s h k = Keeps-or_else_after (m s) h k

pub Keeps_of_Leaves : {S A : Type 0} (P : S → Type 0) (o : Outcome S A) → Leaves o P → Keeps o P
Keeps_of_Leaves P (ok a s) h = h
Keeps_of_Leaves P (err e s) h = h
Keeps_of_Leaves P panic h = tt

module _ {S A B : Type 0} (f : A → Action S B) (Q : A → S → Type 0) (P : B → S → Type 0) where
  Returns-after :
      (o : Outcome S A)
      → Returns o Q
      → ((a : A) (s : S) → Q a s → Returns (f a s) P)
      → Returns (elim o [ ok a s' ↦ f a s' | err e s' ↦ err e s' | panic ↦ panic ]) P
  Returns-after (ok a s) h k = k a s h
  Returns-after (err e s) h k = absurd h
  Returns-after panic h k = absurd h

  -- A call that returns, before one that returns from there.
  pub Returns->>= :
      (m : Action S A) (s : S)
      → Returns (m s) Q
      → ((a : A) (s' : S) → Q a s' → Returns (f a s') P)
      → Returns ((m >>= f) s) P
  Returns->>= m s h k = Returns-after (m s) h k

-- What a call returns in may be said more weakly.
pub Returns_imp :
    {S A : Type 0} {Q : A → S → Type 0} (P : A → S → Type 0) (o : Outcome S A)
    → Returns o Q
    → ((a : A) (s : S) → Q a s → P a s)
    → Returns o P
Returns_imp P (ok a s) h k = k a s h
Returns_imp P (err e s) h k = absurd h
Returns_imp P panic h k = absurd h
