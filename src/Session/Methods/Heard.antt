-- ===== src/Session/Methods/Heard.antt =====
-- What two observers of driver/brave_rewards_service_impl.cc hear.
use bat_native_ledger_isolat.Prelude.{
  ℕ, zero, suc, ◌==◌, true, false, List, [], ◌∷◌, ◌++◌, All, Option, none, some, if◌then◌else◌, inl,
  inr, Bool-cases, ◌≡◌, refl, sym, ap, ◌∙◌, arith,
}
use bat_native_ledger_isolat.Ledger.{LedgerResult, Ledger}
use bat_native_ledger_isolat.Database.Action.{gets, modify}
use bat_native_ledger_isolat.Service.{Clock}
use bat_native_ledger_isolat.Session.{
  Call, Told, Said, to_ledger, to_observer, Session, say, without, each_observer, ask, tell,
  shutdown, add_observer, remove_observer,
}
use bat_native_ledger_isolat.Session.Wallet.{
  WalletInfo, create_wallet, converted_info, properties_told, on_wallet_properties,
}
use bat_native_ledger_isolat.Session.Methods.{Outside, Method, add, remove, down, run_methods}
use bat_native_ledger_isolat.Database.Action.Keeping.{Keeps, Keeps-pure, Keeps-bind, Keeps-if}
use bat_native_ledger_isolat.Session.Methods.Keeping.{Keeps-ask, Rules, Special, run_methods-Keeps}

-- What an observer was told, in order.
abbrev pub heard : {D : Type 0} → ℕ → List (Said D) → List (Told D)
heard a [] = []
heard a (to_ledger call ∷ xs) = heard a xs
heard a (to_observer o t ∷ xs) = let rest = heard a xs in if o == a then t ∷ rest else rest

-- How often an observer is on the list.
abbrev pub times : ℕ → List ℕ → ℕ
times a [] = 0
times a (o ∷ os) = let rest = times a os in if o == a then suc rest else rest

-- On the list as often as each other, and told the same.
abbrev pub Alike : {D : Type 0} → ℕ → ℕ → Session D → Type 0
Alike a b s = (times a s.observers ≡ times b s.observers) × (heard a s.said ≡ heard b s.said)

-- Neither of the two is added or removed.
abbrev pub Spares : {D : Type 0} → ℕ → ℕ → Method D → Type 0
Spares a b (add o) = ((o == a) ≡ false) × ((o == b) ≡ false)
Spares a b (remove o) = ((a == o) ≡ false) × ((b == o) ≡ false)
Spares a b _ = Unit {0}

times-add : (a o : ℕ) (os : List ℕ) → (o == a) ≡ false → times a (os ++ o ∷ []) ≡ times a os
times-add a o [] e = rw e
times-add a o (p ∷ os) e = ground (arith, times-add a o os e)

times-without : (a o : ℕ) (os : List ℕ) → (a == o) ≡ false → times a (without o os) ≡ times a os
times-without a o [] e = refl
times-without a o (p ∷ os) e = ground (arith, times-without a o os e)

module _ {D : Type 0} where
  heard-append : (a : ℕ) (xs ys : List (Said D)) → heard a (xs ++ ys) ≡ heard a xs ++ heard a ys
  heard-append a [] ys = refl
  heard-append a (to_ledger call ∷ xs) ys = heard-append a xs ys
  heard-append a (to_observer o t ∷ xs) ys = elim (Bool-cases (o == a)) [
    | inl e ↦ rw (e, heard-append a xs ys) refl
    | inr e ↦ rw (e, heard-append a xs ys) refl
  ]

  abbrev repeated : ℕ → Told D → List (Told D)
  repeated zero t = []
  repeated (suc n) t = t ∷ repeated n t

  heard-each_observer :
      (a : ℕ) (t : Told D) (os : List ℕ) → heard a (each_observer t os) ≡ repeated (times a os) t
  heard-each_observer a t [] = refl
  heard-each_observer a t (o ∷ os) = elim (Bool-cases (o == a)) [
    | inl e ↦ rw (e, heard-each_observer a t os) refl
    | inr e ↦ rw (e, heard-each_observer a t os) refl
  ]

  heard_alike-each_observer :
      (a b : ℕ) (t : Told D) (os : List ℕ)
      → times a os ≡ times b os
      → heard a (each_observer t os) ≡ heard b (each_observer t os)
  heard_alike-each_observer a b t os e =
      heard-each_observer a t os ∙ ap (λ n. repeated n t) e ∙ sym (heard-each_observer b t os)

  say-Alike :
      (a b : ℕ) (new : List (Said D)) (s : Session D)
      → heard a new ≡ heard b new
      → Alike a b s
      → Alike a b (say new s)
  say-Alike a b new s e h =
      (h.0, rw (heard-append a s.said new, heard-append b s.said new, e, h.1) refl)

  create_wallet-Alike : (a b : ℕ) → Keeps {S = Session D} (Alike a b) create_wallet
  unfolding create_wallet gets modify
  create_wallet-Alike a b =
      Keeps-bind (gets (λ s. s.created_wallet)) _ (record { at = λ s h. h })
        (λ created. Keeps-if created _ _ (Keeps-pure tt) (
          Keeps-bind (ask Call.create_wallet)
            (λ _. modify (λ s. record s { created_wallet = true }))
            (Keeps-ask Call.create_wallet
              (λ s h. say-Alike a b (to_ledger Call.create_wallet ∷ []) s refl h))
            (λ _. record { at = λ s h. h })))

module _ {D : Type 0} (l : Ledger D) (o : Outside) (clock : Clock) (a b : ℕ) where
  properties_told-each_observer :
      (result : LedgerResult) (info : WalletInfo D) (os : List ℕ)
      → properties_told l result (some info) os
        ≡ each_observer (Told.wallet_properties result (converted_info l info)) os
  unfolding properties_told
  properties_told-each_observer result info [] = refl
  properties_told-each_observer result info (p ∷ os) =
      rw (properties_told-each_observer result info os) refl

  heard_alike-properties_told :
      (result : LedgerResult) (info : Option (WalletInfo D)) (os : List ℕ)
      → times a os ≡ times b os
      → heard a (properties_told l result info os) ≡ heard b (properties_told l result info os)
  unfolding properties_told
  heard_alike-properties_told result none [] e = refl
  heard_alike-properties_told result none (p ∷ os) e = refl
  heard_alike-properties_told result (some info) os e =
      rw (properties_told-each_observer result info os) (heard_alike-each_observer a b _ os e)

  rules : Rules l o clock (Alike a b)
  unfolding tell modify on_wallet_properties
  rules = record {
    asks = λ call e. Keeps-ask call (λ s h. say-Alike a b (to_ledger call ∷ []) s refl h);
    creates = create_wallet-Alike a b;
    tells = λ t. record {
      at = λ s h. say-Alike a b _ s (heard_alike-each_observer a b t s.observers h.0) h;
    };
    properties = λ result info. record {
      at = λ s h. say-Alike a b _ s (heard_alike-properties_told result info s.observers h.0) h;
    };
  }

  spared : (m : Method D) → Spares a b m → Special l o clock (Alike a b) m
  unfolding add_observer remove_observer shutdown modify
  spared (add p) h = record {
    at = λ s v. (times-add a p s.observers h.0 ∙ v.0 ∙ sym (times-add b p s.observers h.1), v.1);
  }
  spared (remove p) h = record {
    at = λ s v.
        (times-without a p s.observers h.0 ∙ v.0 ∙ sym (times-without b p s.observers h.1), v.1);
  }
  spared down h = record { at = λ s v. v }
  spared _ h = tt

  each_spared :
      (ms : List (Method D)) → All (Spares a b) ms → All (Special l o clock (Alike a b)) ms
  each_spared [] h = tt
  each_spared (m ∷ ms) h = (spared m h.0, each_spared ms h.1)

  -- Two observers that are on the list as often as each other, and were told the same before, are told
  -- the same, in the same order, in every history of methods that adds and removes neither of them,
  -- Shutdown and faults included.
  pub run_methods-Alike :
      (ms : List (Method D)) (s : Session D)
      → All (Spares a b) ms
      → Alike a b s
      → Alike a b (run_methods l o clock ms s).1
  run_methods-Alike ms s h v = (run_methods-Keeps l o clock rules ms (each_spared ms h)).at s v
