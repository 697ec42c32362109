-- ===== src/Controller/Paging.antt =====
-- The query parameters: `pageParams` of controller/admin_user.go and `atoiQuery` of
-- controller/supplier_channel.go. Go's 64-bit int wraps around.
pub mod Laws
pub mod Cover
use modex_cloud.Prelude.{
  ℕ, zero, suc, ◌+◌, ◌-◌, ◌*◌, ◌%◌, Bool, true, false, ◌&&◌, ◌||◌, Option, none, some, [], ◌∷◌, ltb,
  leb, if◌then◌else◌, ◌==◌, text_eq, nat_eq,
}
use modex_cloud.Prelude.Int.{ℤ, pos, negsuc, pos_part, neg_part, ltb_ℤ}
use modex_cloud.Text.{Text, text, atoi}
use modex_cloud.Controller.Flow.{Context}

abbrev pub int_limit : ℕ
int_limit = 0x8000000000000000

abbrev pub int_modulus : ℕ
int_modulus = 0x10000000000000000

-- The signed integer of a 64-bit pattern.
abbrev pub signed : ℕ → ℤ
signed n = if ltb n int_limit then pos n else negsuc (int_modulus - n - 1)

-- The product of a signed integer and a natural number, wrapped around.
abbrev pub times : ℤ → ℕ → ℤ
times (pos n) k = signed ((n * k) % int_modulus)
times (negsuc n) k = signed ((int_modulus - (suc n * k) % int_modulus) % int_modulus)

-- Whether `strconv.Atoi`, where it fails, has met a number outside its range before another byte: it
-- stops where the digits so far exceed 64 bits.
overflows_from : ℕ → Text → Bool
overflows_from n [] = true
overflows_from n (c ∷ s) =
    let rest = overflows_from (n * 10 + (c - b'0')) s in
    if leb b'0' c && leb c b'9' then leb int_modulus (n * 10 + (c - b'0')) || rest else false

overflows : Text → Bool
unfolding overflows_from
overflows [] = false
overflows (c ∷ s) = overflows_from 0 (c ∷ s)

-- The number beside the error: the end of the range, or zero where there is no number.
unfoldable pub beside_error : Text → ℤ
unfolding overflows
beside_error [] = pos 0
beside_error (c ∷ s) =
    if c == b'-'
    then if overflows s then negsuc (int_limit - 1) else pos 0
    else if c == b'+'
    then if overflows s then pos (int_limit - 1) else pos 0
    else if overflows (c ∷ s)
    then pos (int_limit - 1)
    else pos 0

-- `v, _ := strconv.Atoi(…)`
unfoldable pub atoi_or_zero : Text → ℤ
unfolding beside_error
atoi_or_zero s = elim (atoi s) [ none ↦ beside_error s | some n ↦ n ]

abbrev pub page_of : ℤ → ℤ
page_of page = if ltb_ℤ page (pos 1) then pos 1 else page

abbrev pub size_of : ℤ → ℕ
size_of size = if ltb_ℤ size (pos 1) || ltb_ℤ (pos 100) size then 20 else pos_part size

abbrev pub minus_one : ℤ → ℤ
minus_one (pos zero) = negsuc 0
minus_one (pos (suc n)) = pos n
minus_one (negsuc n) = negsuc (suc n)

-- The offset and the limit. The page is at least one, so that subtracting one does not wrap around.
unfoldable pub page_params : Context → ℤ × ℕ
unfolding atoi_or_zero
page_params c =
    let page = page_of (atoi_or_zero (c.query (text "page"))) in
    let size = size_of (atoi_or_zero (c.query (text "page_size"))) in
    (times (minus_one page) size, size)

-- GORM leaves out an offset that is not positive, so the rows start at the first.
abbrev pub start_row : ℤ → ℕ
start_row offset = pos_part offset

-- The loop of `atoiQuery`; a byte outside the digits is a rune outside them.
unfoldable pub atoi_loop : ℕ → Text → ℕ
atoi_loop n [] = n
atoi_loop n (ch ∷ v) =
    let rest = atoi_loop ((n * 10 + (ch - b'0')) % int_modulus) v in
    if ltb ch b'0' || ltb b'9' ch then 0 else rest

unfoldable pub atoi_query : Context → Text → ℤ
unfolding atoi_loop
atoi_query c key = signed (atoi_loop 0 (c.query key))
