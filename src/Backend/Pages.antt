-- ===== src/Backend/Pages.antt =====
-- What the loops of driver/publisher_info_backend.cc collect, over a plain list of values.
use bat_native_ledger_isolat.Prelude.{
  ℕ, zero, suc, ◌+◌, ◌-◌, ◌≤◌, ◌<◌, ltb, u32_mod, String, true, false, inl, inr, Bool-cases, List,
  [], ◌∷◌, ◌++◌, length, take, drop, append_assoc, append-nil, if◌then◌else◌, ◌≡◌, refl, sym, ap,
  ◌∙◌, arith,
}
use bat_native_ledger_isolat.Backend.{Page, first_page, visit}

-- The values one after the other, until `count` is at the limit.
unfoldable pub collect : ℕ → ℕ → List String → Page → Page
collect start limit [] p = p
collect start limit (v ∷ vs) p =
    let rest = collect start limit vs (visit start v p) in if ltb p.count limit then rest else p

abbrev window : ℕ → ℕ → List String → List String
window skipped wanted vs = take wanted (drop skipped vs)

-- Neither counter passes the values seen so far, so neither wraps.
abbrev pub InBounds : Page → List String → Type 0
InBounds p vs = (p.count ≤ p.position) × (p.position + length vs < u32_mod)

visit-InBounds :
    (start : ℕ) (v : String) (vs : List String) (p : Page)
    → InBounds p (v ∷ vs)
    → InBounds (visit start v p) vs
unfolding visit
visit-InBounds start v vs p h = ground arith

window-nil : (skipped wanted : ℕ) → window skipped wanted [] ≡ []
window-nil zero zero = refl
window-nil zero (suc w) = refl
window-nil (suc k) zero = refl
window-nil (suc k) (suc w) = refl

abbrev skipped : Page → Page
skipped p = record p { position = p.position + 1 }

abbrev kept : String → Page → Page
kept v p = record { position = p.position + 1; count = p.count + 1; results = p.results ++ v ∷ [] }

visit-skip :
    (start : ℕ) (v : String) (vs : List String) (p : Page)
    → InBounds p (v ∷ vs)
    → ltb p.position start ≡ true
    → visit start v p ≡ skipped p
unfolding visit
visit-skip start v vs p h e = ground arith

visit-keep :
    (start : ℕ) (v : String) (vs : List String) (p : Page)
    → InBounds p (v ∷ vs)
    → ltb p.position start ≡ false
    → visit start v p ≡ kept v p
unfolding visit
visit-keep start v vs p h e = ground arith

module _ (start limit : ℕ) (v : String) (vs : List String) (p : Page) where
  collect-full :
      ltb p.count limit ≡ false
      → (collect start limit (v ∷ vs) p).results
        ≡ p.results ++ window (start - p.position) (limit - p.count) (v ∷ vs)
  unfolding collect
  collect-full full =
      let none_wanted : limit - p.count ≡ 0 = ground arith in
      rw (full, none_wanted) (sym (append-nil p.results))

  window-skip :
      ltb p.position start ≡ true
      → window (start - (p.position + 1)) (limit - p.count) vs
        ≡ window (start - p.position) (limit - p.count) (v ∷ vs)
  window-skip skip =
      let less : start - p.position ≡ suc (start - (p.position + 1)) = ground arith in rw less refl

  window-keep :
      ltb p.count limit ≡ true
      → ltb p.position start ≡ false
      → (p.results ++ v ∷ []) ++ window (start - (p.position + 1)) (limit - (p.count + 1)) vs
        ≡ p.results ++ window (start - p.position) (limit - p.count) (v ∷ vs)
  window-keep more keep =
      let none_left : start - p.position ≡ 0 = ground arith in
      let still_none : start - (p.position + 1) ≡ 0 = ground arith in
      let fewer : limit - p.count ≡ suc (limit - (p.count + 1)) = ground arith in
      rw (none_left, still_none, fewer) (append_assoc p.results (v ∷ []) _)

-- Whatever has been seen so far, the loop adds the values from `start` on, up to the limit.
pub collect-window :
    (start limit : ℕ) (vs : List String) (p : Page)
    → InBounds p vs
    → (collect start limit vs p).results
      ≡ p.results ++ window (start - p.position) (limit - p.count) vs
unfolding collect
collect-window start limit [] p h =
    rw (window-nil (start - p.position) (limit - p.count)) (sym (append-nil p.results))
collect-window start limit (v ∷ vs) p h = elim (Bool-cases (ltb p.count limit)) [
  | inr full ↦ collect-full start limit v vs p full
  | inl more ↦ elim (Bool-cases (ltb p.position start)) [
    | inl skip ↦
        rw (more, visit-skip start v vs p h skip)
          (collect-window start limit vs (skipped p) (omega arith)
            ∙ ap (◌++◌ p.results) (window-skip start limit v vs p skip))
    | inr keep ↦
        rw (more, visit-keep start v vs p h keep)
          (collect-window start limit vs (kept v p) (omega arith)
            ∙ window-keep start limit v vs p more keep)
  ]
]

collect-stays :
    (start limit : ℕ) (vs : List String) (p : Page)
    → ltb p.count limit ≡ false
    → collect start limit vs p ≡ p
unfolding collect
collect-stays start limit [] p full = refl
collect-stays start limit (v ∷ vs) p full = rw full

-- One list after another is their concatenation.
pub collect-append :
    (start limit : ℕ) (vs ws : List String) (p : Page)
    → collect start limit ws (collect start limit vs p) ≡ collect start limit (vs ++ ws) p
unfolding collect
collect-append start limit [] ws p = refl
collect-append start limit (v ∷ vs) ws p = elim (Bool-cases (ltb p.count limit)) [
  | inr full ↦ rw full (collect-stays start limit ws p full)
  | inl more ↦ rw more (collect-append start limit vs ws (visit start v p))
]

-- The first page: the values from `start` on, at most `limit` of them.
pub collect-first_page :
    (start limit : ℕ) (vs : List String)
    → length vs < u32_mod
    → (collect start limit vs first_page).results ≡ take limit (drop start vs)
collect-first_page start limit vs h =
    let from_start : start - 0 ≡ start = omega arith in
    let all_wanted : limit - 0 ≡ limit = omega arith in
    rw (from_start, all_wanted) at (collect-window start limit vs first_page (omega arith))
