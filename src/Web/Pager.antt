-- ===== src/Web/Pager.antt =====
-- The page numbers under the list of keys.
use thebalance.Prelude.{
  ℕ, zero, suc, ◌+◌, ◌-◌, ◌^◌, ◌≤◌, ◌<◌, ◌≡◌, refl, sym, inl, inr, Bool, true, false, Option, none,
  some, List, [], ◌∷◌, ◌++◌, map, upto, max, ltb, leb, arith, Bool-cases,
}
use mathlib.Core.Path.{subst}
use mathlib.Core.List.{append-nil}
use thebalance.Web.{ellipsis_if, generate_page_numbers}

-- The list goes on from page `p` to page `q`: page by page, or over an ellipsis, which stands for one
-- page or more.
pub data GoesOn : ℕ → List (Option ℕ) → ℕ → Type 0 where
  stop : (p : ℕ) → GoesOn p [] p
  next_page :
      (p r q : ℕ) (rest : List (Option ℕ))
      → r ≡ suc p
      → GoesOn r rest q
      → GoesOn p (some r ∷ rest) q
  jump :
      (p r q : ℕ) (rest : List (Option ℕ))
      → suc p < r
      → GoesOn r rest q
      → GoesOn p (none ∷ some r ∷ rest) q

pages-GoesOn :
    (k p q : ℕ) (rest : List (Option ℕ))
    → GoesOn (p + k) rest q
    → GoesOn p (map some (upto (suc p) k) ++ rest) q
pages-GoesOn zero p q rest h = subst (λ n. GoesOn n rest q) (omega arith) h
pages-GoesOn (suc k) p q rest h =
    next_page p (suc p) q _ refl
      (pages-GoesOn k (suc p) q rest (subst (λ n. GoesOn n rest q) (omega arith) h))

abbrev ending : Bool → ℕ → List (Option ℕ)
ending more total = ellipsis_if more ++ some total ∷ []

ending-GoesOn :
    (more : Bool) (p total : ℕ)
    → (more ≡ true → suc p < total)
    → (more ≡ false → suc p ≡ total)
    → GoesOn p (ending more total) total
ending-GoesOn true p total far near = jump p total total [] (far refl) (stop total)
ending-GoesOn false p total far near = next_page p total total [] (sym (near refl)) (stop total)

-- From page 1 over the pages around the current one to the last page.
around-GoesOn :
    (gap more : Bool) (start k total : ℕ)
    → (gap ≡ false → (start ≡ 2) × (0 < k))
    → (gap ≡ true → 2 < start)
    → (k ≡ 0 → (more ≡ false) × (2 < total))
    → (0 < k → more ≡ true → start + k < total)
    → (0 < k → more ≡ false → start + k ≡ total)
    → GoesOn 1 (ellipsis_if gap ++ (map some (upto start k) ++ ending more total)) total
around-GoesOn false more start k total flat steep none_left far near =
    subst (λ n. GoesOn 1 (map some (upto n k) ++ ending more total) total) (sym (flat refl).0)
      (pages-GoesOn k 1 total (ending more total) (
        ending-GoesOn more (1 + k) total
          (λ e. let h = far (flat refl).1 e in let g = (flat refl).0 in omega arith)
          (λ e. let h = near (flat refl).1 e in let g = (flat refl).0 in omega arith)))
around-GoesOn true more start zero total flat steep none_left far near =
    subst (λ b. GoesOn 1 (none ∷ ending b total) total) (sym (none_left refl).0)
      (jump 1 total total [] (none_left refl).1 (stop total))
around-GoesOn true more start (suc k) total flat steep none_left far near =
    jump 1 start total _ (steep refl) (
      pages-GoesOn k start total (ending more total) (
        ending-GoesOn more (start + k) total (λ e. let h = far (omega arith) e in omega arith)
          (λ e. let h = near (omega arith) e in omega arith)))

span_of_all : (n : ℕ) → n ≡ 0 + (suc n - 1)
span_of_all n = omega arith

-- The list begins with page 1, ends with the last page, and between them no page is missing, but where
-- an ellipsis stands; and no ellipsis stands where no page is missing.
pub generate_page_numbers-GoesOn :
    (current total : ℕ)
    → 1 ≤ total
    → total < 2 ^ 32
    → current < 2 ^ 32
    → GoesOn 0 (generate_page_numbers current total) total
unfolding generate_page_numbers
generate_page_numbers-GoesOn current total one small h = elim (Bool-cases (leb total 7)) [
  | inl few ↦ rw few (
      subst (λ xs. GoesOn 0 xs total) (append-nil (map some (upto 1 (suc total - 1))))
        (pages-GoesOn (suc total - 1) 0 total []
          (subst (λ n. GoesOn n [] total) (span_of_all total) (stop total))))
  | inr many ↦ rw many (
      next_page 0 1 total _ refl (
        around-GoesOn (ltb 4 current) (ltb current (total - 3)) (max (current - 2) 2) _ total
          (λ e. (ground arith, ground arith)) (λ e. ground arith)
          (λ e. (ground arith, ground arith)) (λ e f. ground arith) (λ e f. ground arith)))
]
