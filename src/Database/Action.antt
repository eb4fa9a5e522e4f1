-- ===== src/Database/Action.antt =====
-- Actions on an object, with C++ exceptions: an action returns, throws an `sqlite_exception`, or
-- faults by going through a null pointer. What was done before an exception stays done.
pub mod Keeping
use bat_native_ledger_isolat.Prelude.{Bool, true, false, List, [], ◌∷◌, if◌then◌else◌, ◌≡◌, refl}

pub data Outcome (A : Type 0) : Type 0 where
  returned : A → Outcome A
  threw : Outcome A
  faulted : Outcome A

abbrev pub Action : Type 0 → Type 0 → Type 0
Action S A = S → Outcome A × S

module _ {S A : Type 0} where
  unfoldable pub pure : A → Action S A
  pure a s = (returned a, s)

  unfoldable pub gets : (S → A) → Action S A
  gets f s = (returned (f s), s)

unfoldable pub modify : {S : Type 0} → (S → S) → Action S (Unit {0})
modify f s = (returned tt, f s)

module _ {S A B : Type 0} where
  abbrev pub continue : Outcome A × S → (A → Action S B) → Outcome B × S
  continue (returned a, s) f = f a s
  continue (threw, s) f = (threw, s)
  continue (faulted, s) f = (faulted, s)

  infixl 5 ◌>>=◌ ◌>>◌
  unfoldable pub ◌>>=◌ : Action S A → (A → Action S B) → Action S B
  unfolding pure gets modify
  ◌>>=◌ m f s = continue (m s) f

  abbrev pub ◌>>◌ : Action S A → Action S B → Action S B
  m >> k = m >>= λ _. k

  abbrev pub settle : Outcome A × S → (A → Action S B) → Action S B → Outcome B × S
  settle (returned a, s) f h = f a s
  settle (threw, s) f h = h s
  settle (faulted, s) f h = (faulted, s)

  -- Run the action; go on with its result, or with the handler if it threw.
  unfoldable pub attempt : Action S A → (A → Action S B) → Action S B → Action S B
  unfolding ◌>>=◌
  attempt m f h s = settle (m s) f h

-- `succeded` is set behind the last statement of the `try` block, and reset by the handler.
unfoldable pub succeeds : {S A : Type 0} → Action S A → Action S Bool
unfolding attempt
succeeds m = attempt m (λ _. pure true) (pure false)

-- `a || b || …` over calls that say whether they succeeded, negated: it stops at the first failure.
unfoldable pub all_succeed : {S : Type 0} → List (Action S Bool) → Action S Bool
unfolding ◌>>=◌
all_succeed [] = pure true
all_succeed (m ∷ ms) = m >>= λ done. if done then all_succeed ms else pure false

-- How an action ends: in `Q` at its result, in `X` if it throws, and never by a fault.
abbrev pub Ends : {S A : Type 0} → (A → S → Type 0) → (S → Type 0) → Outcome A × S → Type 0
Ends Q X (returned a, s) = Q a s
Ends Q X (threw, s) = X s
Ends Q X (faulted, s) = ⊥

pub record Safe {S A : Type 0} (P : S → Type 0) (m : Action S A) (Q : A → S → Type 0)
    (X : S → Type 0) : Type 0 where
  pub at : (s : S) → P s → Ends Q X (m s)

module _ {S A B : Type 0} {Q : A → S → Type 0} {R : B → S → Type 0} where
  pub continue-Ends :
      {X : S → Type 0} (r : Outcome A × S) (f : A → Action S B)
      → Ends Q X r
      → ((a : A) → Safe (Q a) (f a) R X)
      → Ends R X (continue r f)
  continue-Ends (returned a, s) f e k = (k a).at s e
  continue-Ends (threw, s) f e k = e
  continue-Ends (faulted, s) f e k = absurd e

  pub Safe-bind :
      {P X : S → Type 0} (m : Action S A) (f : A → Action S B)
      → Safe P m Q X
      → ((a : A) → Safe (Q a) (f a) R X)
      → Safe P (m >>= f) R X
  unfolding ◌>>=◌
  Safe-bind m f h k = record { at = λ s p. continue-Ends (m s) f (h.at s p) k }

  settle-Ends :
      {X Y : S → Type 0} (r : Outcome A × S) (f : A → Action S B) (h : Action S B)
      → Ends Q X r
      → ((a : A) → Safe (Q a) (f a) R Y)
      → Safe X h R Y
      → Ends R Y (settle r f h)
  settle-Ends (returned a, s) f h e k w = (k a).at s e
  settle-Ends (threw, s) f h e k w = w.at s e
  settle-Ends (faulted, s) f h e k w = absurd e

  pub Safe-attempt :
      {P X Y : S → Type 0} (m : Action S A) (f : A → Action S B) (h : Action S B)
      → Safe P m Q X
      → ((a : A) → Safe (Q a) (f a) R Y)
      → Safe X h R Y
      → Safe P (attempt m f h) R Y
  unfolding attempt
  Safe-attempt m f h d k w = record { at = λ s p. settle-Ends (m s) f h (d.at s p) k w }

module _ {S A : Type 0} {X : S → Type 0} {Q : A → S → Type 0} where
  pub Safe-if :
      {P : S → Type 0} (b : Bool) (m n : Action S A)
      → (b ≡ true → Safe P m Q X)
      → (b ≡ false → Safe P n Q X)
      → Safe P (if b then m else n) Q X
  Safe-if true m n hm hn = hm refl
  Safe-if false m n hm hn = hn refl

  weaken-Ends :
      {Q' : A → S → Type 0} {X' : S → Type 0} (r : Outcome A × S)
      → ((a : A) (s : S) → Q' a s → Q a s)
      → ((s : S) → X' s → X s)
      → Ends Q' X' r
      → Ends Q X r
  weaken-Ends (returned a, s) f g e = f a s e
  weaken-Ends (threw, s) f g e = g s e
  weaken-Ends (faulted, s) f g e = e

  pub Safe-weaken :
      {P P' X' : S → Type 0} {Q' : A → S → Type 0} {m : Action S A}
      → Safe P' m Q' X'
      → ((s : S) → P s → P' s)
      → ((a : A) (s : S) → Q' a s → Q a s)
      → ((s : S) → X' s → X s)
      → Safe P m Q X
  Safe-weaken {m} h p f g = record { at = λ s i. weaken-Ends (m s) f g (h.at s (p s i)) }

-- Actions that keep one condition, however they end.
module _ {S : Type 0} {P : S → Type 0} where
  pub Steady-pure : {A : Type 0} (a : A) → Safe P (pure a) (λ _. P) P
  unfolding pure
  Steady-pure a = record { at = λ s p. p }

  pub Steady-gets : {A : Type 0} (f : S → A) → Safe P (gets f) (λ _. P) P
  unfolding gets
  Steady-gets f = record { at = λ s p. p }

  pub Steady-bind :
      {A B : Type 0} (m : Action S A) (f : A → Action S B)
      → Safe P m (λ _. P) P
      → ((a : A) → Safe P (f a) (λ _. P) P)
      → Safe P (m >>= f) (λ _. P) P
  Steady-bind m f h k = Safe-bind m f h k

  pub Steady-attempt :
      {A B : Type 0} (m : Action S A) (f : A → Action S B) (h : Action S B)
      → Safe P m (λ _. P) P
      → ((a : A) → Safe P (f a) (λ _. P) P)
      → Safe P h (λ _. P) P
      → Safe P (attempt m f h) (λ _. P) P
  Steady-attempt m f h d k w = Safe-attempt m f h d k w

  pub Steady-succeeds :
      {A : Type 0} (m : Action S A) → Safe P m (λ _. P) P → Safe P (succeeds m) (λ _. P) P
  unfolding succeeds
  Steady-succeeds m h =
      Safe-attempt m (λ _. pure true) (pure false) h (λ _. Steady-pure true) (Steady-pure false)

  pub Steady-if :
      {A : Type 0} (b : Bool) (m n : Action S A)
      → Safe P m (λ _. P) P
      → Safe P n (λ _. P) P
      → Safe P (if b then m else n) (λ _. P) P
  Steady-if true m n hm hn = hm
  Steady-if false m n hm hn = hn

pub ruleset steady_rules =
    (Steady-pure, Steady-gets, Steady-bind, Steady-attempt, Steady-succeeds, Steady-if)
