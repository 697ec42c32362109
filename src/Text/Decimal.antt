-- ===== src/Text/Decimal.antt =====
-- A number is known by its decimal digits.
use mathlib.Core.List.{reverse-reverse}
use modex_cloud.Prelude.{
  ℕ, zero, suc, ◌+◌, ◌-◌, ◌*◌, ◌/◌, ◌<◌, ◌≡◌, sym, ap, ◌∙◌, [], ◌∷◌, ◌++◌, reverse, nat_eq, arith,
}
use modex_cloud.Text.{Text, digits, itoa_ℕ}

-- The number that digits stand for, the last digit first.
value : Text → ℕ
value [] = 0
value (d ∷ ds) = (d - 48) + 10 * value ds

value-digits : (f n : ℕ) → n < f → value (digits f n) ≡ n
unfolding value digits
value-digits zero n h = elim h [ ]
value-digits (suc f) n h = ground (arith, value-digits f (n / 10))

pub itoa-inj : (m n : ℕ) → itoa_ℕ m ≡ itoa_ℕ n → m ≡ n
unfolding itoa_ℕ
itoa-inj m n e =
    let same : digits (suc m) m ≡ digits (suc n) n =
      sym (reverse-reverse (digits (suc m) m))
      ∙ ap reverse e
      ∙ reverse-reverse (digits (suc n) n) in
    sym (value-digits (suc m) m (omega arith))
    ∙ ap value same
    ∙ value-digits (suc n) n (omega arith)

pub append-cancel : (s t u : Text) → s ++ t ≡ s ++ u → t ≡ u
append-cancel [] t u e = e
append-cancel (a ∷ s) t u e = append-cancel s t u (cc)
