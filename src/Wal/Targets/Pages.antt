-- ===== src/Wal/Targets/Pages.antt =====
-- A paged listing is complete: with enough fuel it ends, and gives every entry once, in order.
use mathlib.Core.List.{append_assoc, append-nil}
use chroma_go_local.Base.{
  ℕ, zero, suc, ◌+◌, ◌≤◌, ◌<◌, min, ◌≡◌, refl, sym, ◌∙◌, ap, true, false, Option, some, List, [],
  ◌∷◌, ◌++◌, ltb, ltb→lt, length, take, drop, is_empty, Result, ok, arith, length-take, Bool-cases,
  inl, inr,
}
use chroma_go_local.Base.Actions.{Action, resume, when}
use chroma_go_local.Base.Text.{Text}
use chroma_go_local.Base.Words.{clamp_u32, saturating_add_u32, u32_max}
use chroma_go_local.Wal.Targets.{page_size, list_pages}

module _ {A : Type 0} where
  take_all : (n : ℕ) (xs : List A) → length xs ≤ n → take n xs ≡ xs
  take_all zero [] h = refl
  take_all zero (x ∷ xs) h = absurd (omega arith)
  take_all (suc n) [] h = refl
  take_all (suc n) (x ∷ xs) h = ap (λ ys. x ∷ ys) (take_all n xs (omega (arith, h)))

  take-append-drop : (n : ℕ) (xs : List A) → take n xs ++ drop n xs ≡ xs
  take-append-drop zero xs = refl
  take-append-drop (suc n) [] = refl
  take-append-drop (suc n) (x ∷ xs) = ap (λ ys. x ∷ ys) (take-append-drop n xs)

  drop-nil : (n : ℕ) → drop {A = A} n [] ≡ []
  drop-nil zero = refl
  drop-nil (suc n) = refl

  drop-drop : (n k : ℕ) (xs : List A) → drop k (drop n xs) ≡ drop (n + k) xs
  drop-drop zero k xs = let same : k ≡ 0 + k = omega arith in ap (λ j. drop j xs) same
  drop-drop (suc n) k [] = drop-nil k ∙ sym (drop-nil (suc n + k))
  drop-drop (suc n) k (x ∷ xs) =
      let same : suc (n + k) ≡ suc n + k = omega arith in
      drop-drop n k xs ∙ ap (λ j. drop j (x ∷ xs)) same

  length-drop : (n : ℕ) (xs : List A) → n ≤ length xs → length (drop n xs) + n ≡ length xs
  length-drop zero xs h = omega arith
  length-drop (suc n) [] h = absurd (omega (arith, h))
  length-drop (suc n) (x ∷ xs) h = omega (arith, length-drop n xs (omega (arith, h)))

  is_empty-eq : (xs : List A) → is_empty xs ≡ true → xs ≡ []
  is_empty-eq [] h = refl
  is_empty-eq (x ∷ xs) h = cc

  nil_of_length : (xs : List A) → length xs ≡ 0 → xs ≡ []
  nil_of_length [] h = refl
  nil_of_length (x ∷ xs) h = absurd (omega (arith, h))

-- A listing answers each page with the next hundred entries, and changes nothing.
abbrev pub IsPaged : {S A : Type 0} → (ℕ → Action S Text (List A)) → ℕ → S → List A → Type 0
IsPaged fetch offset s rest =
    (k : ℕ) → fetch (offset + k) s ≡ (ok (take page_size (drop k rest)), s)

module _ {S A : Type 0} (fetch : ℕ → Action S Text (List A)) (s : S) where
  IsPaged-next :
      (offset : ℕ) (rest : List A)
      → IsPaged fetch offset s rest
      → IsPaged fetch (offset + page_size) s (drop page_size rest)
  IsPaged-next offset rest h k =
      let same : offset + page_size + k ≡ offset + (page_size + k) = omega arith in
      ap (λ j. fetch j s) same
      ∙ h (page_size + k)
      ∙ ap (λ xs. (ok (take page_size xs), s)) (sym (drop-drop page_size k rest))

  module _ (found rest : List A) where
    empty_end :
        take page_size rest ≡ []
        → ◌≡◌ {A = Result (Option (List A)) Text × S}
            (ok (some found), s)
            (ok (some (found ++ rest)), s)
    empty_end e =
        let none_left : length rest ≡ 0 = omega (arith, length-take page_size rest, ap length e) in
        ap (λ ys. (ok (some ys), s))
          (sym (append-nil found) ∙ ap (λ r. found ++ r) (sym (nil_of_length rest none_left)))

    short_end :
        length rest < page_size
        → ◌≡◌ {A = Result (Option (List A)) Text × S}
            (ok (some (found ++ take page_size rest)), s)
            (ok (some (found ++ rest)), s)
    short_end lt =
        ap (λ r. (ok (some (found ++ r)), s)) (take_all page_size rest (omega (arith, lt)))

  -- What a page with a given number of entries says of the rest.
  short_rest :
      (rest : List A)
      → ltb (clamp_u32 (length (take page_size rest))) page_size ≡ true
      → length rest < page_size
  unfolding clamp_u32
  short_rest rest h = omega (arith, length-take page_size rest, ltb→lt _ _ h)

  full_rest :
      (rest : List A)
      → ltb (clamp_u32 (length (take page_size rest))) page_size ≡ false
      → (page_size ≤ length rest) × (clamp_u32 (length (take page_size rest)) ≡ page_size)
  unfolding clamp_u32
  full_rest rest h =
      let size = length-take page_size rest in
      let at_least : page_size ≤ min (length (take page_size rest)) u32_max = ground arith in
      (omega (arith, size, at_least), omega (arith, size, at_least))

  pub list_pages-eq :
      (fuel offset : ℕ) (found rest : List A)
      → IsPaged fetch offset s rest
      → offset + length rest ≤ u32_max
      → length rest < fuel
      → list_pages fuel fetch offset found s ≡ (ok (some (found ++ rest)), s)
  unfolding list_pages resume when saturating_add_u32
  list_pages-eq zero offset found rest paged fits enough = absurd (omega (arith, enough))
  list_pages-eq (suc fuel) offset found rest paged fits enough =
      let at : offset ≡ offset + 0 = omega arith in
      let page : fetch offset s ≡ (ok (take page_size rest), s) =
        ap (λ j. fetch j s) at ∙ paged 0 in
      let size = length-take page_size rest in
      elim (Bool-cases (is_empty (take page_size rest))) [
        | inl empty ↦ rw (page, empty, list_pages) (empty_end found rest (is_empty-eq _ empty))
        | inr more ↦ elim (Bool-cases (ltb (clamp_u32 (length (take page_size rest))) page_size)) [
          | inl short ↦
              rw (page, more, short, list_pages) (short_end found rest (short_rest rest short))
          | inr full ↦
              let (long, counted) = full_rest rest full in
              let step : saturating_add_u32 offset (clamp_u32 (length (take page_size rest)))
                  ≡ offset + page_size =
                rw counted (omega (arith, fits, long)) in
              let left = length-drop page_size rest long in
              rw (page, more, full, list_pages)
                (ap (λ o. list_pages fuel fetch o (found ++ take page_size rest) s) step
                  ∙ list_pages-eq fuel (offset + page_size) (found ++ take page_size rest)
                      (drop page_size rest) (IsPaged-next offset rest paged)
                      (omega (arith, left, fits)) (omega (arith, left, enough))
                  ∙ ap (λ ys. (ok (some ys), s))
                      (append_assoc found (take page_size rest) (drop page_size rest)
                        ∙ ap (λ ys. found ++ ys) (take-append-drop page_size rest)))
        ]
      ]
