-- ===== src/Web/Controls/Cover.antt =====
-- The pages that the pager counts hold the whole list.
use thebalance.Prelude.{
  ℕ, suc, ◌+◌, ◌*◌, ◌/◌, ◌^◌, ◌≤◌, ◌<◌, ◌≡◌, refl, ap, ◌∙◌, String, some, arith,
}
use thebalance.Prelude.Int.{pos, as_i32-id}
use thebalance.Storage.Reads.{page_offset, list_query}
use thebalance.Storage.Platform.Binding.{bind_query}
use thebalance.Web.Controls.{num_pages}

page_offset_lem : (n : ℕ) → n * 20 < 2 ^ 31 → page_offset (suc n) 20 ≡ n * 20
unfolding page_offset
page_offset_lem n h = omega arith

-- Every row of a list of less than 2 ^ 31 is on one of the pages that the pager counts, and on the
-- database's own terms: the query of that page skips the rows before it, in an offset that no cast
-- changes, and takes at least up to it.
pub list_query-num_pages :
    (provider status sort_by sort_order : String) (total i : ℕ)
    → total < 2 ^ 31
    → i < total
    → (page start : ℕ) × (1 ≤ page)
      × (page ≤ num_pages total 20)
      × ((bind_query (list_query provider status page 20 sort_by sort_order)).offset
          ≡ some (pos start))
      × ((bind_query (list_query provider status page 20 sort_by sort_order)).limit ≡ some (pos 20))
      × (start ≤ i)
      × (i < start + 20)
unfolding bind_query list_query num_pages
list_query-num_pages provider status sort_by sort_order total i small inside =
    let n = i / 20 in
    (
      suc n,
      n * 20,
      omega arith,
      omega arith,
      ap some (
          as_i32-id _ (omega (arith, page_offset_lem n (omega arith)))
          ∙ ap pos (page_offset_lem n (omega arith))),
      refl,
      omega arith,
      omega arith,
    )
