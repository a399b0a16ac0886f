-- ===== src/Storage/Health/Order.antt =====
-- The failover order: the sort keeps every key, and puts the highest score first.
use mathlib.Core.List.{Perm}
use mathlib.Core.List.Perm
use thebalance.Prelude.{ℕ, inl, inr, List, [], ◌∷◌, arith, Bool-cases, All, filter}
use thebalance.Prelude.Int.{ℤ, ◌≤ℤ◌, leb_ℤ}
use thebalance.Storage.Model.{ApiKey}
use thebalance.Storage.Health.{
  insert_sorted, sort_descending, healthy_sorted, calculate_health_score, is_allowed,
}

module _ {A : Type 0} (score : A → ℤ) where
  -- Every key scores at least as much as each key behind it.
  abbrev pub IsDescending : List A → Type 0
  IsDescending [] = Unit
  IsDescending (x ∷ xs) = All (λ y. score y ≤ℤ score x) xs × IsDescending xs

  insert-perm : (x : A) (xs : List A) → Perm (insert_sorted score x xs) (x ∷ xs)
  unfolding insert_sorted
  insert-perm x [] = Perm.refl (x ∷ [])
  insert-perm x (y ∷ ys) = elim (Bool-cases (leb_ℤ (score y) (score x))) [
    | inl e ↦ rw e (Perm.refl (x ∷ (y ∷ ys)))
    | inr e ↦ rw e (Perm.trans (Perm.cons y (insert-perm x ys)) (Perm.swap x y ys))
  ]

  pub sort-perm : (xs : List A) → Perm (sort_descending score xs) xs
  unfolding sort_descending
  sort-perm [] = Perm.refl []
  sort-perm (x ∷ xs) =
      Perm.trans (insert-perm x (sort_descending score xs)) (Perm.cons x (sort-perm xs))

  All-lower :
      (b c : ℤ) (xs : List A) → b ≤ℤ c → All (λ y. score y ≤ℤ b) xs → All (λ y. score y ≤ℤ c) xs
  All-lower b c [] h a = tt
  All-lower b c (x ∷ xs) h a = (omega arith, All-lower b c xs h a.1)

  All-insert :
      (b : ℤ) (x : A) (xs : List A)
      → score x ≤ℤ b
      → All (λ y. score y ≤ℤ b) xs
      → All (λ y. score y ≤ℤ b) (insert_sorted score x xs)
  unfolding insert_sorted
  All-insert b x [] h a = (h, tt)
  All-insert b x (y ∷ ys) h a = elim (Bool-cases (leb_ℤ (score y) (score x))) [
    | inl e ↦ rw e (h, a)
    | inr e ↦ rw e (a.0, All-insert b x ys h a.1)
  ]

  insert-IsDescending :
      (x : A) (xs : List A) → IsDescending xs → IsDescending (insert_sorted score x xs)
  unfolding insert_sorted
  insert-IsDescending x [] d = (tt, tt)
  insert-IsDescending x (y ∷ ys) d = elim (Bool-cases (leb_ℤ (score y) (score x))) [
    | inl e ↦ rw e ((ground arith, All-lower (score y) (score x) ys (ground arith) d.0), d)
    | inr e ↦ rw e (All-insert (score y) x ys (ground arith) d.0, insert-IsDescending x ys d.1)
  ]

  pub sort-IsDescending : (xs : List A) → IsDescending (sort_descending score xs)
  unfolding sort_descending
  sort-IsDescending [] = tt
  sort-IsDescending (x ∷ xs) =
      insert-IsDescending x (sort_descending score xs) (sort-IsDescending xs)

-- The list for a request has the keys that the circuit breaker lets through, each as often as it was
-- read, and every key in it has at least the health score of each key behind it.
pub healthy_sorted-order :
    (threshold : ℤ) (now : ℕ) (keys : List ApiKey)
    → Perm (healthy_sorted threshold now keys) (filter (is_allowed threshold now) keys)
      × IsDescending (calculate_health_score now) (healthy_sorted threshold now keys)
unfolding healthy_sorted
healthy_sorted-order threshold now keys =
    let allowed = filter (is_allowed threshold now) keys in
    (
      sort-perm (calculate_health_score now) allowed,
      sort-IsDescending (calculate_health_score now) allowed,
    )
