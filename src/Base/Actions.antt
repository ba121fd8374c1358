-- ===== src/Base/Actions.antt =====
-- What an `async fn` of the shim does: an action on the world that may fail, where the world that
-- a failure leaves behind is kept. `do` blocks of this monad are the `?` chains of the source.
use mathlib.Core.Path.{◌≡◌, refl}
use mathlib.Core.Bool.{Bool, true, false}
use chroma_go_local.Base.Results.{Result, ok, err}

abbrev pub Action : Type 0 → Type 0 → Type 0 → Type 0
Action S E A = S → Result A E × S

module _ {S E : Type 0} where
  abbrev pub pure : {A : Type 0} → A → Action S E A
  pure a s = (ok a, s)

  abbrev pub fail : {A : Type 0} → E → Action S E A
  fail e s = (err e, s)

  unfoldable pub resume : {A B : Type 0} → Result A E × S → (A → Action S E B) → Result B E × S
  resume (ok a, s) f = f a s
  resume (err e, s) f = (err e, s)

  infixl 5 ◌>>=◌ ◌>>◌
  abbrev pub ◌>>=◌ : {A B : Type 0} → Action S E A → (A → Action S E B) → Action S E B
  ◌>>=◌ m f s = resume (m s) f

  abbrev pub ◌>>◌ : {A B : Type 0} → Action S E A → Action S E B → Action S E B
  ◌>>◌ m k s = resume (m s) (λ _. k)

  -- A pure result, such as a parse, in the middle of an action.
  abbrev pub lift : {A : Type 0} → Result A E → Action S E A
  lift r s = (r, s)

  -- A branch on a test; the branch that is not taken makes no step.
  unfoldable pub when : {A : Type 0} → Bool → Action S E A → Action S E A → Action S E A
  when true m k = m
  when false m k = k

module _ {S : Type 0} where
  unfoldable pub mapped : {A E F : Type 0} → (E → F) → Result A E × S → Result A F × S
  mapped f (ok a, s) = (ok a, s)
  mapped f (err e, s) = (err (f e), s)

  -- `map_err` after an `await`.
  abbrev pub map_err : {A E F : Type 0} → (E → F) → Action S E A → Action S F A
  map_err f m s = mapped f (m s)

  unfoldable pub caught : {A E F : Type 0} → Result A E × S → Result (Result A E) F × S
  caught (r, s) = (ok r, s)

  -- A call whose result is inspected by `match` in place of `?`.
  abbrev pub attempt : {A E F : Type 0} → Action S E A → Action S F (Result A E)
  attempt m s = caught (m s)

-- A postcondition for each of the two ways to end.
abbrev pub Ends : {S E A : Type 0} → (A → S → Type 0) → (E → S → Type 0) → Result A E × S → Type 0
Ends Q R (ok a, s) = Q a s
Ends Q R (err e, s) = R e s

module _ {S E A : Type 0} where
  -- The rules of `>>=`, `attempt` and `map_err`.
  pub Ends-resume :
      {B : Type 0} (Q : A → S → Type 0) (Q' : B → S → Type 0) (R : E → S → Type 0)
      (r : Result A E × S) (f : A → Action S E B)
      → Ends Q R r
      → ((a : A) (s : S) → Q a s → Ends Q' R (f a s))
      → Ends Q' R (resume r f)
  unfolding resume
  Ends-resume Q Q' R (ok a, s) f h k = k a s h
  Ends-resume Q Q' R (err e, s) f h k = h

  pub Ends-caught :
      {F : Type 0} (Q : Result A E → S → Type 0) (R : F → S → Type 0) (r : Result A E × S)
      → Q r.0 r.1
      → Ends Q R (caught r)
  unfolding caught
  Ends-caught Q R (r, s) h = h

  pub Ends-mono :
      (Q Q' : A → S → Type 0) (R R' : E → S → Type 0) (r : Result A E × S)
      → ((a : A) (s : S) → Q a s → Q' a s)
      → ((e : E) (s : S) → R e s → R' e s)
      → Ends Q R r
      → Ends Q' R' r
  Ends-mono Q Q' R R' (ok a, s) f g h = f a s h
  Ends-mono Q Q' R R' (err e, s) f g h = g e s h

  pub mapped-world : {F : Type 0} (f : E → F) (r : Result A E × S) → (mapped f r).1 ≡ r.1
  unfolding mapped
  mapped-world f (ok a, s) = refl
  mapped-world f (err e, s) = refl

  pub Ends-mapped :
      {F : Type 0} (f : E → F) (Q : A → S → Type 0) (R : F → S → Type 0) (r : Result A E × S)
      → Ends Q (λ e s. R (f e) s) r
      → Ends Q R (mapped f r)
  unfolding mapped
  Ends-mapped f Q R (ok a, s) h = h
  Ends-mapped f Q R (err e, s) h = h

  -- What a call returned, and the world that it left.
  pub Ends-self :
      (r : Result A E × S) (Q : A → S → Type 0) (R : E → S → Type 0)
      → ((a : A) (s : S) → r ≡ (ok a, s) → Q a s)
      → ((e : E) (s : S) → r ≡ (err e, s) → R e s)
      → Ends Q R r
  Ends-self (ok a, s) Q R f g = f a s refl
  Ends-self (err e, s) Q R f g = g e s refl

  pub Ends-and :
      (Q Q' : A → S → Type 0) (R R' : E → S → Type 0) (r : Result A E × S)
      → Ends Q R r
      → Ends Q' R' r
      → Ends (λ a s. Q a s × Q' a s) (λ e s. R e s × R' e s) r
  Ends-and Q Q' R R' (ok a, s) f g = (f, g)
  Ends-and Q Q' R R' (err e, s) f g = (f, g)

  -- The same postcondition for both is one on the world alone.
  pub Ends-both : (P : S → Type 0) (r : Result A E × S) → Ends (λ a s. P s) (λ e s. P s) r → P r.1
  Ends-both P (ok a, s) h = h
  Ends-both P (err e, s) h = h

  pub both-Ends : (P : S → Type 0) (r : Result A E × S) → P r.1 → Ends (λ a s. P s) (λ e s. P s) r
  both-Ends P (ok a, s) h = h
  both-Ends P (err e, s) h = h

  -- A foreign call under `map_err` and `?`, with what it returned for the steps that follow.
  pub Ends-call :
      {B F : Type 0} (Q : B → S → Type 0) (R : F → S → Type 0) (f : E → F) (r : Result A E × S)
      (k : A → Action S F B)
      → ((a : A) (s : S) → r ≡ (ok a, s) → Ends Q R (k a s))
      → ((e : E) (s : S) → r ≡ (err e, s) → R (f e) s)
      → Ends Q R (resume (mapped f r) k)
  unfolding resume mapped
  Ends-call Q R f (ok a, s) k g h = g a s refl
  Ends-call Q R f (err e, s) k g h = h e s refl

-- A predicate on the world that a chain of steps keeps, however it ends.
module _ {S E : Type 0} (P : S → Type 0) where
  pub resume-held :
      {A B : Type 0} (r : Result A E × S) (k : A → Action S E B)
      → P r.1
      → ((a : A) (s : S) → P s → P (k a s).1)
      → P (resume r k).1
  unfolding resume
  resume-held (ok a, s) k p h = h a s p
  resume-held (err e, s) k p h = p

  pub mapped-held : {A F : Type 0} (f : E → F) (r : Result A E × S) → P r.1 → P (mapped f r).1
  unfolding mapped
  mapped-held f (ok a, s) p = p
  mapped-held f (err e, s) p = p

  pub when-held :
      {A : Type 0} (b : Bool) (m k : Action S E A) (s : S)
      → (b ≡ true → P (m s).1)
      → (b ≡ false → P (k s).1)
      → P (when b m k s).1
  unfolding when
  when-held true m k s f g = f refl
  when-held false m k s f g = g refl

-- The same of whole actions, as rules that a search applies.
pub record Keep {S E A : Type 0} (P : S → Type 0) (m : Action S E A) : Type 0 where
  pub apply : (s : S) → P s → P (m s).1

module _ {S E : Type 0} {P : S → Type 0} where
  pub Keep-bind :
      {A B : Type 0} {m : Action S E A} {f : A → Action S E B}
      → Keep P m
      → ((a : A) → Keep P (f a))
      → Keep P (m >>= f)
  Keep-bind k h = record {
    apply = λ s p. resume-held P _ _ (k.apply s p) (λ a s' p'. (h a).apply s' p');
  }

  pub Keep-pure : {A : Type 0} {a : A} → Keep {E = E} P (pure a)
  Keep-pure = record { apply = λ s p. p }

  pub Keep-fail : {A : Type 0} {e : E} → Keep {A = A} P (fail e)
  Keep-fail = record { apply = λ s p. p }

  pub Keep-lift : {A : Type 0} {r : Result A E} → Keep P (lift r)
  Keep-lift = record { apply = λ s p. p }

  pub Keep-map_err : {A F : Type 0} (f : E → F) {m : Action S E A} → Keep P m → Keep P (map_err f m)
  Keep-map_err f k = record { apply = λ s p. mapped-held P _ _ (k.apply s p) }

  pub Keep-attempt : {A F : Type 0} {m : Action S E A} → Keep P m → Keep {E = F} P (attempt m)
  unfolding caught
  Keep-attempt k = record { apply = λ s p. k.apply s p }

  pub Keep-when :
      {A : Type 0} {b : Bool} {m k : Action S E A}
      → (b ≡ true → Keep P m)
      → (b ≡ false → Keep P k)
      → Keep P (when b m k)
  Keep-when {b} {m} {k} f g = record {
    apply = λ s p. when-held P b m k s (λ e. (f e).apply s p) (λ e. (g e).apply s p);
  }

pub ruleset keeping = (Keep-bind, Keep-pure, Keep-fail, Keep-lift, Keep-map_err, Keep-attempt)
