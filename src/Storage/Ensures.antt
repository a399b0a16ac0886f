-- ===== src/Storage/Ensures.antt =====
-- A rule set for storage functions: what they keep of the world, and what they give back.
use mathlib.Core.Path.{subst}
use thebalance.Prelude.{◌≡◌, refl, sym, Bool, true, false, if◌then◌else◌}
use thebalance.Prelude.Result.{Result, ok, err}
use thebalance.Storage.Model.{StorageError}
use thebalance.Storage.Platform.{Action, pure, lift, ◌>>=◌}

-- Run where `I` holds, `m` leaves `I`, also when it fails; and what it returns has `Q`.
pub record Ensures {W A : Type 0} (I : W → Type 0) (m : Action W A) (Q : A → Type 0) : Type 0 where
  pub keeps : (w : W) → I w → I (m w).1
  pub gives : (w : W) → I w → (a : A) → (m w).0 ≡ ok a → Q a

-- `m` leaves `I`, and nothing is said of its result.
abbrev pub Keeps : {W A : Type 0} → (W → Type 0) → Action W A → Type 0
Keeps I m = Ensures I m (λ _. Unit)

pub ok-injective : {A : Type 0} (a b : A) → ◌≡◌ {A = Result StorageError A} (ok a) (ok b) → a ≡ b
ok-injective a b e = cc

module _ {W A : Type 0} {I : W → Type 0} where
  pub Ensures-pure : {Q : A → Type 0} (a : A) → Q a → Ensures I (pure a) Q
  unfolding pure
  Ensures-pure {Q} a q = record {
    keeps = λ w h. h;
    gives = λ w h b e. subst Q (ok-injective a b e) q;
  }

  pub Ensures-fail : {Q : A → Type 0} (e : StorageError) → Ensures I (lift (err e)) Q
  unfolding lift
  Ensures-fail e = record { keeps = λ w h. h; gives = λ w h b x. cc }

  pub Ensures-if :
      {Q : A → Type 0} (b : Bool) (m n : Action W A)
      → Ensures I m Q
      → Ensures I n Q
      → Ensures I (if b then m else n) Q
  Ensures-if true m n km kn = km
  Ensures-if false m n km kn = kn

  pub Keeps-pure : (a : A) → Keeps I (pure a)
  unfolding pure
  Keeps-pure a = record { keeps = λ w h. h; gives = λ w h b e. tt }

  pub Keeps-lift : (r : Result StorageError A) → Keeps I (lift r)
  unfolding lift
  Keeps-lift r = record { keeps = λ w h. h; gives = λ w h b e. tt }

  pub Keeps-if :
      (b : Bool) (m n : Action W A) → Keeps I m → Keeps I n → Keeps I (if b then m else n)
  Keeps-if true m n km kn = km
  Keeps-if false m n km kn = kn

module _ {W A B : Type 0} where
  continue-ok :
      (f : A → Action W B) (r : Result StorageError A) (w : W) (b : B)
      → ((lift r >>= f) w).0 ≡ ok b
      → (a : A) × (r ≡ ok a) × ((f a w).0 ≡ ok b) × (((lift r >>= f) w).1 ≡ (f a w).1)
  unfolding ◌>>=◌
  continue-ok f (ok a) w b e = (a, refl, e, refl)
  continue-ok f (err x) w b e = cc

  -- A chain that succeeds: both of its parts did, and the second ran behind the first.
  pub bind-ok :
      (m : Action W A) (f : A → Action W B) (w : W) (b : B)
      → ((m >>= f) w).0 ≡ ok b
      → (a : A) × ((m w).0 ≡ ok a) × ((f a (m w).1).0 ≡ ok b) × (((m >>= f) w).1 ≡ (f a (m w).1).1)
  unfolding ◌>>=◌
  bind-ok m f w b e = continue-ok f (m w).0 (m w).1 b e

module _ {W A B : Type 0} (R : W → Type 0) where
  continue-either :
      (f : A → Action W B) (r : Result StorageError A) (w : W)
      → ((e : StorageError) → r ≡ err e → R w)
      → ((a : A) → r ≡ ok a → R (f a w).1)
      → R ((lift r >>= f) w).1
  unfolding ◌>>=◌
  continue-either f (ok a) w failed went = went a refl
  continue-either f (err e) w failed went = failed e refl

  -- The world behind a chain: it stops where the first part fails.
  pub bind-either :
      (m : Action W A) (f : A → Action W B) (w : W)
      → ((e : StorageError) → (m w).0 ≡ err e → R (m w).1)
      → ((a : A) → (m w).0 ≡ ok a → R (f a (m w).1).1)
      → R ((m >>= f) w).1
  unfolding ◌>>=◌
  bind-either m f w = continue-either f (m w).0 (m w).1

-- Where `m` succeeds from `w`, its result and the world behind it have `Q`.
abbrev pub Done : {W A : Type 0} → Action W A → W → (A → W → Type 0) → Type 0
Done {W} {A} m w Q = (a : A) → (m w).0 ≡ ok a → Q a (m w).1

pub Done-bind :
    {W A B : Type 0} (Q : A → W → Type 0) (R : B → W → Type 0) (m : Action W A) (f : A → Action W B)
    (w : W)
    → Done m w Q
    → ((a : A) (v : W) → Q a v → Done (f a) v R)
    → Done (m >>= f) w R
Done-bind Q R m f w h k b e =
    let (a, e1, e2, e3) = bind-ok m f w b e in subst (R b) (sym e3) (k a (m w).1 (h a e1) b e2)

module _ {W A B : Type 0} {I : W → Type 0} {R : B → Type 0} where
  continue-keeps :
      (f : A → Action W B) (r : Result StorageError A) (w : W)
      → I w
      → ((a : A) → r ≡ ok a → Ensures I (f a) R)
      → I ((lift r >>= f) w).1
  unfolding ◌>>=◌
  continue-keeps f (ok a) w h k = (k a refl).keeps w h
  continue-keeps f (err e) w h k = h

  continue-gives :
      (f : A → Action W B) (r : Result StorageError A) (w : W)
      → I w
      → ((a : A) → r ≡ ok a → Ensures I (f a) R)
      → (b : B) → ((lift r >>= f) w).0 ≡ ok b
      → R b
  unfolding ◌>>=◌
  continue-gives f (ok a) w h k b e = (k a refl).gives w h b e
  continue-gives f (err x) w h k b e = cc

  -- The second part may use what the first gives.
  pub Ensures-bind :
      {Q : A → Type 0} (m : Action W A) (f : A → Action W B)
      → Ensures I m Q
      → ((a : A) → Q a → Ensures I (f a) R)
      → Ensures I (m >>= f) R
  unfolding ◌>>=◌
  Ensures-bind m f km kf = record {
    keeps = λ w h. continue-keeps f (m w).0 (m w).1 (km.keeps w h) (λ a e. kf a (km.gives w h a e));
    gives = λ w h. continue-gives f (m w).0 (m w).1 (km.keeps w h) (λ a e. kf a (km.gives w h a e));
  }
