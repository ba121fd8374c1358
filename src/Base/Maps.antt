-- ===== src/Base/Maps.antt =====
-- `HashMap` as an association list in iteration order, with keys compared by an instance.
use Prim.Native.Nat.{ℕ, suc}
use mathlib.Core.Path.{◌≡◌, refl}
use mathlib.Core.Logic.{◌↔◌, inl, inr}
use mathlib.Core.Bool.{Bool, true, false}
use mathlib.Core.Option.{Option, none, some}
use mathlib.Core.List.{List, [], ◌∷◌}
use native.Mathlib.Omega.{arith}
use chroma_go_local.Base.Tests.{◌==◌, ==_iff, if◌then◌else◌, Bool-cases, is_some}
use chroma_go_local.Base.Lists.{length, All}

pub record Eq {ℓ} (A : Type ℓ) : Type ℓ where
  pub beq : A → A → Bool
  pub beq_iff : (a b : A) → (beq a b ≡ true) ↔ (a ≡ b)

instance abbrev pub nat_eq : Eq ℕ
nat_eq = record { beq = ◌==◌; beq_iff = ==_iff }

unfoldable pub text_beq : List ℕ → List ℕ → Bool
text_beq [] [] = true
text_beq [] (b ∷ bs) = false
text_beq (a ∷ as_) [] = false
text_beq (a ∷ as_) (b ∷ bs) = let rest = text_beq as_ bs in if a == b then rest else false

text_beq_to : (s t : List ℕ) → text_beq s t ≡ true → s ≡ t
unfolding text_beq
text_beq_to [] [] h = refl
text_beq_to [] (b ∷ bs) h = cc
text_beq_to (a ∷ as_) [] h = cc
text_beq_to (a ∷ as_) (b ∷ bs) h = ground (arith, text_beq_to as_ bs)

text_beq_self : (s : List ℕ) → text_beq s s ≡ true
unfolding text_beq
text_beq_self [] = refl
text_beq_self (a ∷ as_) = ground (arith, text_beq_self as_)

pub text_beq_iff : (s t : List ℕ) → (text_beq s t ≡ true) ↔ (s ≡ t)
text_beq_iff s t = (text_beq_to s t, λ e. rw e (text_beq_self t))

instance abbrev pub text_eq : Eq (List ℕ)
text_eq = record { beq = text_beq; beq_iff = text_beq_iff }

module _ {ℓ κ} {K : Type ℓ} {V : Type κ} ⦃e : Eq K⦄ where
  unfoldable pub get : K → List (K × V) → Option V
  get k [] = none
  get k ((j, v) ∷ m) = if e.beq j k then some v else get k m

  -- An entry whose key is there takes the new value; a new key comes last.
  unfoldable pub insert : K → V → List (K × V) → List (K × V)
  insert k v [] = (k, v) ∷ []
  insert k v ((j, w) ∷ m) = if e.beq j k then (j, v) ∷ m else (j, w) ∷ insert k v m

  unfoldable pub contains_key : K → List (K × V) → Bool
  contains_key k m = is_some (get k m)

  pub get-insert :
      (k j : K) (v : V) (m : List (K × V))
      → get j (insert k v m) ≡ (if e.beq k j then some v else get j m)
  unfolding get insert
  get-insert k j v [] = refl
  get-insert k j v ((i, w) ∷ m) =
      ground (arith, e.beq_iff k j, e.beq_iff i k, e.beq_iff i j, get-insert k j v m)

  pub length-insert_new :
      (k : K) (v : V) (m : List (K × V)) → get k m ≡ none → length (insert k v m) ≡ suc (length m)
  unfolding get insert
  length-insert_new k v [] h = refl
  length-insert_new k v ((i, w) ∷ m) h = ground (arith, length-insert_new k v m)

  -- A property of all entries holds of what a lookup finds.
  pub All-get {μ} :
      (P : K → V → Type μ) (m : List (K × V)) (k : K) (v : V)
      → All (λ x. P x.0 x.1) m
      → get k m ≡ some v
      → P k v
  unfolding get
  All-get P [] k v h found = let bad : ⊥ = cc found in absurd bad
  All-get P ((j, w) ∷ m) k v h found = elim (Bool-cases (e.beq j k)) [
    | inl same ↦
        let jk : j ≡ k = (e.beq_iff j k).0 same in
        let wv : w ≡ v = ground arith in rw (← jk, ← wv) h.0
    | inr other ↦ All-get P m k v h.1 (ground arith)
  ]
