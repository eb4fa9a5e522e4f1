-- ===== src/Service/Paging.antt =====
-- How a list of publishers is read in pages, as Find shows them, with the next record that
-- driver/brave_rewards_service_impl.cc tells behind each page.
use bat_native_ledger_isolat.Prelude.{
  ℕ, zero, suc, ◌+◌, ◌%◌, ◌<◌, ◌==◌, ◌^◌, ltb, int_of_u32, u32_mod, u32_of_small, pos, true, some,
  inl, inr, Bool-cases, List, [], ◌∷◌, ◌++◌, length, take, drop, if◌then◌else◌, ◌≡◌, refl, ap, ◌∙◌,
}
use bat_native_ledger_isolat.Service.Publishers.{next_record}
use bat_native_ledger_isolat.Database.Selection.{skip, window}
use bat_native_ledger_isolat.Database.Selection.Texts.{positive, above_one}
use mathlib.Core.Path.{sym}
use mathlib.Core.List.{append_assoc}
use native.Mathlib.Omega.{arith}

zero_plus : (m : ℕ) → m ≡ 0 + m
zero_plus m = omega arith

suc_plus : (n m : ℕ) → suc (n + m) ≡ suc n + m
suc_plus n m = omega arith

-- A page from record 1 on begins with record 0.
abbrev pub first_shown : ℕ → ℕ
first_shown start = if ltb 1 start then start else 0

int_of_small : (n : ℕ) → n < 2 ^ 31 → int_of_u32 n ≡ pos n
int_of_small n h = ground arith

positive-some : (n : ℕ) → 0 < n → positive (pos n) ≡ some n
positive-some n h = ground arith

first-lost : (start : ℕ) → start + 1 ≡ first_shown start + (if start == 1 then 2 else 1)
first-lost start = ground arith

module _ {A : Type 0} where
  take-drop : (n : ℕ) (xs : List A) → take n xs ++ drop n xs ≡ xs
  take-drop zero xs = refl
  take-drop (suc n) [] = refl
  take-drop (suc n) (x ∷ xs) = ap (λ (ys : List A). x ∷ ys) (take-drop n xs)

  drop-nil : (n : ℕ) → drop {A = A} n [] ≡ []
  drop-nil zero = refl
  drop-nil (suc n) = refl

  drop-drop : (m n : ℕ) (xs : List A) → drop m (drop n xs) ≡ drop (n + m) xs
  drop-drop m zero xs = ap (λ (k : ℕ). drop k xs) (zero_plus m)
  drop-drop m (suc n) [] = drop-nil m ∙ sym (drop-nil (suc n + m))
  drop-drop m (suc n) (x ∷ xs) = drop-drop m n xs ∙ ap (λ (k : ℕ). drop k (x ∷ xs)) (suc_plus n m)

  -- Consecutive parts of a list.
  parts :
      (a b k n : ℕ) (xs : List A)
      → n ≡ a + b + k
      → take a xs ++ take b (drop a xs) ++ take k (drop (a + b) xs) ++ drop n xs ≡ xs
  parts a b k n xs e =
      ap (λ (m : ℕ). take a xs ++ take b (drop a xs) ++ take k rest ++ drop m xs) e
      ∙ append_assoc (take a xs ++ take b (drop a xs)) (take k rest) (drop (a + b + k) xs)
      ∙ ap (λ (ys : List A). take a xs ++ take b (drop a xs) ++ (take k rest ++ ys))
          (sym (drop-drop k (a + b) xs))
      ∙ ap (λ (ys : List A). take a xs ++ take b (drop a xs) ++ ys) (take-drop k rest)
      ∙ append_assoc (take a xs) (take b (drop a xs)) rest
      ∙ ap (λ (ys : List A). take a xs ++ (take b (drop a xs) ++ ys)) (sym (drop-drop b a xs))
      ∙ ap (λ (ys : List A). take a xs ++ ys) (take-drop b (drop a xs))
      ∙ take-drop a xs
    where
      rest : List A
      rest = drop (a + b) xs

  -- The part of the records that a page shows: what `LIMIT` and `OFFSET` are written for.
  abbrev pub shown : ℕ → ℕ → List A → List A
  shown start limit rows = window (positive (int_of_u32 limit)) (above_one (int_of_u32 start)) rows

  skip-first_shown : (n : ℕ) (xs : List A) → skip (above_one (pos n)) xs ≡ drop (first_shown n) xs
  skip-first_shown n xs = elim (Bool-cases (ltb 1 n)) [ inl e ↦ rw e refl | inr e ↦ rw e refl ]

  shown-take :
      (start limit : ℕ) (xs : List A)
      → 0 < limit
      → start + limit + 1 < 2 ^ 31
      → shown start limit xs ≡ take limit (drop (first_shown start) xs)
  shown-take start limit xs some_limit small =
      rw
        (
          int_of_small limit (omega (arith, small)),
          int_of_small start (omega (arith, small)),
          positive-some limit some_limit,
        )
        (ap (take limit) (skip-first_shown start xs))

  -- Behind a full page of at least one record, of numbers below 2^31, the records before the page,
  -- the page, one record more, or two where `start` is 1, and those from the next record on are all
  -- the records: those between are on neither page. A page begins with the record `start`, but
  -- for 1, where it begins with the first.
  pub next_record-skips :
      (start limit : ℕ) (xs : List A)
      → 0 < limit
      → start + limit + 1 < 2 ^ 31
      → (length (shown start limit xs) == limit) ≡ true
      → take (first_shown start) xs
          ++ shown start limit xs
          ++ take (if start == 1 then 2 else 1) (drop (first_shown start + limit) xs)
          ++ drop (next_record start limit (shown start limit xs)) xs
        ≡ xs
  unfolding next_record
  next_record-skips start limit xs some_limit small full =
      ap
        (λ (ys : List A).
          take (first_shown start) xs
          ++ ys
          ++ take lost (drop (first_shown start + limit) xs)
          ++ drop (next_record start limit (shown start limit xs)) xs)
        (shown-take start limit xs some_limit small)
      ∙ parts (first_shown start) limit lost _ xs next
    where
      lost : ℕ
      lost = if start == 1 then 2 else 1

      next : next_record start limit (shown start limit xs) ≡ first_shown start + limit + lost
      next =
          ap (λ b. if b then (start + limit + 1) % u32_mod else 0) full
          ∙ u32_of_small (start + limit + 1) (omega (arith, small))
          ∙ omega (arith, first-lost start)
