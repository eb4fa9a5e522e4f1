-- ===== src/Database/Action/Keeping.antt =====
-- Conditions that an action keeps, however it ends: by a result, an exception or a fault.
use bat_native_ledger_isolat.Prelude.{Bool, true, false, List, [], ◌∷◌, All, if◌then◌else◌}
use bat_native_ledger_isolat.Database.Action.{
  Outcome, returned, threw, faulted, Action, pure, gets, modify, continue, settle, ◌>>=◌, attempt,
  succeeds, all_succeed,
}

module _ {S : Type 0} (P : S → Type 0) where
  pub record Keeps {A : Type 0} (m : Action S A) : Type 0 where
    pub at : (s : S) → P s → P (m s).1

module _ {S : Type 0} {P : S → Type 0} where
  pub Keeps-pure : {A : Type 0} (a : A) → Keeps P (pure a)
  unfolding pure
  Keeps-pure a = record { at = λ s h. h }

  pub Keeps-gets : {A : Type 0} (f : S → A) → Keeps P (gets f)
  unfolding gets
  Keeps-gets f = record { at = λ s h. h }

  pub Keeps-modify : (f : S → S) → ((s : S) → P s → P (f s)) → Keeps P (modify f)
  unfolding modify
  Keeps-modify f k = record { at = k }

  continue-keeps :
      {A B : Type 0} (r : Outcome A × S) (f : A → Action S B)
      → P r.1
      → ((a : A) → Keeps P (f a))
      → P (continue r f).1
  continue-keeps (returned a, s) f h k = (k a).at s h
  continue-keeps (threw, s) f h k = h
  continue-keeps (faulted, s) f h k = h

  pub Keeps-bind :
      {A B : Type 0} (m : Action S A) (f : A → Action S B)
      → Keeps P m
      → ((a : A) → Keeps P (f a))
      → Keeps P (m >>= f)
  unfolding ◌>>=◌
  Keeps-bind m f h k = record { at = λ s c. continue-keeps (m s) f (h.at s c) k }

  settle-keeps :
      {A B : Type 0} (r : Outcome A × S) (f : A → Action S B) (h : Action S B)
      → P r.1
      → ((a : A) → Keeps P (f a))
      → Keeps P h
      → P (settle r f h).1
  settle-keeps (returned a, s) f h v k w = (k a).at s v
  settle-keeps (threw, s) f h v k w = w.at s v
  settle-keeps (faulted, s) f h v k w = v

  pub Keeps-attempt :
      {A B : Type 0} (m : Action S A) (f : A → Action S B) (h : Action S B)
      → Keeps P m
      → ((a : A) → Keeps P (f a))
      → Keeps P h
      → Keeps P (attempt m f h)
  unfolding attempt
  Keeps-attempt m f h d k w = record { at = λ s c. settle-keeps (m s) f h (d.at s c) k w }

  pub Keeps-succeeds : {A : Type 0} (m : Action S A) → Keeps P m → Keeps P (succeeds m)
  unfolding succeeds
  Keeps-succeeds m h =
      Keeps-attempt m (λ _. pure true) (pure false) h (λ _. Keeps-pure true) (Keeps-pure false)

  pub Keeps-if :
      {A : Type 0} (b : Bool) (m n : Action S A)
      → Keeps P m
      → Keeps P n
      → Keeps P (if b then m else n)
  Keeps-if true m n h k = h
  Keeps-if false m n h k = k

  pub Keeps-all_succeed : (ms : List (Action S Bool)) → All (Keeps P) ms → Keeps P (all_succeed ms)
  unfolding all_succeed
  Keeps-all_succeed [] h = Keeps-pure true
  Keeps-all_succeed (m ∷ ms) h =
      Keeps-bind m _ h.0 (λ done. Keeps-if done _ _ (Keeps-all_succeed ms h.1) (Keeps-pure false))

pub ruleset keeping_rules =
    (Keeps-pure, Keeps-gets, Keeps-bind, Keeps-attempt, Keeps-succeeds, Keeps-if)
