-- ===== src/Controller/Paging/Laws.antt =====
-- The bounds of a page of results.
use modex_cloud.Prelude.{◌≡◌, ℕ, zero, suc, ◌-◌, ◌*◌, ◌≤◌, ◌<◌, arith}
use modex_cloud.Prelude.Int.{ℤ, pos, negsuc, pos_part}
use modex_cloud.Text.{text}
use modex_cloud.Controller.Flow.{Context}
use modex_cloud.Controller.Paging.{
  page_params, atoi_or_zero, page_of, size_of, times, minus_one, int_limit,
}

size_of_lem : (s : ℤ) → (1 ≤ size_of s) × (size_of s ≤ 100)
size_of_lem (pos n) = ground arith
size_of_lem (negsuc n) = ground arith

-- The number and the size that a query asks for.
abbrev pub page_number : Context → ℤ
page_number c = atoi_or_zero (c.query (text "page"))

abbrev pub page_size : Context → ℤ
page_size c = atoi_or_zero (c.query (text "page_size"))

-- A page that is not too far away starts where it should.
abbrev pub IsNear : ℤ → Type 0
IsNear page = pos_part page ≤ 90000000000000000

times_exact : (n k : ℕ) → n * k < int_limit → times (pos n) k ≡ pos (n * k)
times_exact n k h = ground arith

fits : (n k : ℕ) → n ≤ 90000000000000000 → k ≤ 100 → n * k < int_limit
fits n k h b = let m : n * k ≤ 90000000000000000 * k = grind arith in omega arith

offset_lem :
    (page : ℤ) (k : ℕ)
    → k ≤ 100
    → IsNear page
    → times (minus_one (page_of page)) k ≡ pos ((pos_part (page_of page) - 1) * k)
offset_lem (negsuc n) k b h = ground arith
offset_lem (pos zero) k b h = ground arith
offset_lem (pos (suc n)) k b h = ground (arith, times_exact n k (fits n k (omega arith) b))

-- A page has at least 1 and at most 100 rows, whatever the query says; where its number is at most
-- 9 * 10^16, its offset is the number of rows on the pages before it.
pub page_params-bounds :
    (c : Context)
    → (1 ≤ (page_params c).1)
      × ((page_params c).1 ≤ 100)
      × (IsNear (atoi_or_zero (c.query (text "page")))
          → (page_params c).0
            ≡ pos (
                (pos_part (page_of (atoi_or_zero (c.query (text "page")))) - 1)
                * (page_params c).1))
unfolding page_params
page_params-bounds c =
    let (low, high) = size_of_lem (atoi_or_zero (c.query (text "page_size"))) in
    (low, high, offset_lem (atoi_or_zero (c.query (text "page"))) _ high)

-- A size from 1 to 100 is taken as it is.
pub page_params-near :
    (c : Context) (n size : ℕ)
    → page_number c ≡ pos (suc n)
    → page_size c ≡ pos size
    → 1 ≤ size
    → size ≤ 100
    → n < 90000000000000000
    → page_params c ≡ (pos (n * size), size)
unfolding page_params
page_params-near c n size p s low high near =
    ground (arith, times_exact n size (fits n size (omega arith) high))
