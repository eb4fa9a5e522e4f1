-- ===== src/Session/Methods/Once.antt =====
-- The one call of the ledger's CreateWallet in driver/brave_rewards_service_impl.cc.
use bat_native_ledger_isolat.Prelude.{
  ℕ, ◌+◌, ◌≤◌, Bool, true, false, List, [], ◌∷◌, ◌++◌, All, Option, none, some, ◌≡◌, refl, arith,
}
use bat_native_ledger_isolat.Ledger.{LedgerResult, Ledger}
use bat_native_ledger_isolat.Database.Action.{gets, pure, modify, ◌>>=◌}
use bat_native_ledger_isolat.Service.{Clock}
use bat_native_ledger_isolat.Session.{
  Call, Told, Said, to_ledger, Session, say, each_observer, ask, tell, shutdown, add_observer,
  remove_observer,
}
use bat_native_ledger_isolat.Session.Wallet.{
  WalletInfo, create_wallet, properties_told, on_wallet_properties,
}
use bat_native_ledger_isolat.Session.Methods.{Outside, Method, add, remove, down, run_methods}
use bat_native_ledger_isolat.Database.Action.Keeping.{Keeps}
use bat_native_ledger_isolat.Session.Methods.Keeping.{
  creation, Keeps-ask, Rules, Special, run_methods-Keeps,
}

-- How often the ledger is asked to create a wallet.
abbrev pub creations : {D : Type 0} → List (Said D) → ℕ
creations [] = 0
creations (x ∷ xs) = creation x + creations xs

abbrev flag_count : Bool → ℕ
flag_count true = 1
flag_count false = 0

-- As often as the flag says.
abbrev pub Counted : {D : Type 0} → Session D → Type 0
Counted s = creations s.said ≡ flag_count s.created_wallet

module _ {D : Type 0} where
  creations-append : (xs ys : List (Said D)) → creations (xs ++ ys) ≡ creations xs + creations ys
  creations-append [] ys = omega arith
  creations-append (x ∷ xs) ys = omega (arith, creations-append xs ys)

  say-Counted :
      (new : List (Said D)) (s : Session D) → creations new ≡ 0 → Counted s → Counted (say new s)
  say-Counted new s e h = omega (arith, creations-append s.said new)

  each_observer-creations : (t : Told D) (os : List ℕ) → creations (each_observer t os) ≡ 0
  each_observer-creations t [] = refl
  each_observer-creations t (o ∷ os) = omega (arith, each_observer-creations t os)

  -- The guard of `CreateWallet`, by the flag and by whether the ledger is there.
  create_wallet-Keeps : Keeps {S = Session D} Counted create_wallet
  unfolding create_wallet ◌>>=◌ gets pure ask modify
  create_wallet-Keeps = record {
    at = λ s h. ground (arith, creations-append s.said (to_ledger Call.create_wallet ∷ []));
  }

module _ {D : Type 0} (l : Ledger D) (o : Outside) (clock : Clock) where
  properties_told-creations :
      (result : LedgerResult) (info : Option (WalletInfo D)) (os : List ℕ)
      → creations (properties_told l result info os) ≡ 0
  unfolding properties_told
  properties_told-creations result none [] = refl
  properties_told-creations result none (x ∷ os) = refl
  properties_told-creations result (some info) [] = refl
  properties_told-creations result (some info) (x ∷ os) =
      omega (arith, properties_told-creations result (some info) os)

  rules : Rules l o clock Counted
  unfolding tell modify on_wallet_properties
  rules = record {
    asks =
        λ call e. Keeps-ask call (λ s h. say-Counted (to_ledger call ∷ []) s (omega (arith, e)) h);
    creates = create_wallet-Keeps;
    tells = λ t. record { at = λ s h. say-Counted _ s (each_observer-creations t s.observers) h };
    properties = λ result info. record {
      at = λ s h. say-Counted _ s (properties_told-creations result info s.observers) h;
    };
  }

  observed : (m : Method D) → Special l o clock Counted m
  unfolding add_observer remove_observer shutdown modify
  observed (add observer) = record { at = λ s h. h }
  observed (remove observer) = record { at = λ s h. h }
  observed down = record { at = λ s h. h }
  observed _ = tt

  each_observed : (ms : List (Method D)) → All (Special l o clock Counted) ms
  each_observed [] = tt
  each_observed (m ∷ ms) = (observed m, each_observed ms)

  flag_count-le : (b : Bool) → flag_count b ≤ 1
  flag_count-le true = omega arith
  flag_count-le false = omega arith

  -- From a service whose flag tells whether the ledger was asked to create a wallet, in every history
  -- of methods, Shutdown and faults included, the ledger is asked at most once in all, and the flag
  -- tells it again.
  pub run_methods-create_once :
      (ms : List (Method D)) (s : Session D)
      → Counted s
      → let end = (run_methods l o clock ms s).1 in Counted end × (creations end.said ≤ 1)
  run_methods-create_once ms s h =
      let k = (run_methods-Keeps l o clock rules ms (each_observed ms)).at s h in
      (k, rw k (flag_count-le _))
