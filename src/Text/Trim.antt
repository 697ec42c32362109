-- ===== src/Text/Trim.antt =====
-- Texts that trimming leaves as they are.
use mathlib.Core.List.{reverse-append, reverse-reverse}
use modex_cloud.Prelude.{
  ℕ, zero, suc, ◌≡◌, refl, Bool, true, false, ◌&&◌, ◌||◌, none, List, [], ◌∷◌, ◌++◌, length, leb,
  ◌==◌, nat_eq, arith, ap, sym, ◌∙◌, all, any, map, reverse,
}
use modex_cloud.Text.{
  Text, strip_prefix, strip_any, strip_all, spaces, trim_left, trim_right, trim_space,
}

-- The bytes of the names of environment variables.
abbrev pub name_byte : ℕ → Bool
name_byte c =
    leb b'0' c && leb c b'9' || leb b'A' c && leb c b'Z' || leb b'a' c && leb c b'z' || c == b'_'

abbrev begins : ℕ → Text → Bool
begins a [] = true
begins a (b ∷ p) = b == a

strip_any-none :
    (ps : List Text) (a : ℕ) (s : Text) → any (begins a) ps ≡ false → strip_any ps (a ∷ s) ≡ none
unfolding strip_any strip_prefix
strip_any-none [] a s h = refl
strip_any-none ([] ∷ ps) a s h = ground arith
strip_any-none ((b ∷ p) ∷ ps) a s h = ground (arith, strip_any-none ps a s)

strip_all-none :
    (n : ℕ) (ps : List Text) (a : ℕ) (s : Text)
    → any (begins a) ps ≡ false
    → strip_all n ps (a ∷ s) ≡ a ∷ s
unfolding strip_all
strip_all-none zero ps a s h = refl
strip_all-none (suc n) ps a s h = rw (strip_any-none ps a s h, strip_all) refl

-- No space begins, or ends, with the byte.
abbrev pub IsSolid : ℕ → Type 0
IsSolid a = (any (begins a) spaces ≡ false) × (any (begins a) (map reverse spaces) ≡ false)

pub quote-IsSolid : IsSolid b'"'
quote-IsSolid = (refl, refl)

pub name_byte-IsSolid : (a : ℕ) → name_byte a ≡ true → IsSolid a
name_byte-IsSolid a h = (ground arith, ground arith)

trim_left_lem : (a : ℕ) (s : Text) → IsSolid a → trim_left (a ∷ s) ≡ a ∷ s
unfolding trim_left
trim_left_lem a s (h, _) = strip_all-none (length (a ∷ s)) spaces a s h

trim_right_lem : (b : ℕ) (t : Text) → IsSolid b → trim_right (t ++ b ∷ []) ≡ t ++ b ∷ []
unfolding trim_right
trim_right_lem b t (_, g) =
    let n = length (t ++ b ∷ []) in
    let back : reverse (t ++ b ∷ []) ≡ b ∷ reverse t = reverse-append t (b ∷ []) in
    let kept : strip_all n (map reverse spaces) (reverse (t ++ b ∷ [])) ≡ b ∷ reverse t =
      ap (strip_all n (map reverse spaces)) back
      ∙ strip_all-none n (map reverse spaces) b (reverse t) g in
    ap reverse kept ∙ (ap reverse (sym back) ∙ reverse-reverse (t ++ b ∷ []))

-- A text of which the first and the last byte stay.
pub trim_space-ends :
    (a b : ℕ) (s t u : Text)
    → IsSolid a
    → IsSolid b
    → u ≡ a ∷ s
    → u ≡ t ++ b ∷ []
    → trim_space u ≡ u
unfolding trim_space
trim_space-ends a b s t u h g e e' =
    let left : trim_left u ≡ u = ap trim_left e ∙ (trim_left_lem a s h ∙ sym e) in
    let right : trim_right u ≡ u = ap trim_right e' ∙ (trim_right_lem b t g ∙ sym e') in
    ap trim_right left ∙ right

pub strip_prefix_space :
    (p k r : Text)
    → any (λ c. c == b'=') p ≡ false
    → all name_byte k ≡ true
    → strip_prefix (p ++ b' ' ∷ []) (k ++ b'=' ∷ r) ≡ none
unfolding strip_prefix
strip_prefix_space [] [] r h g = refl
strip_prefix_space [] (a ∷ k) r h g = ground arith
strip_prefix_space (b ∷ p) [] r h g = ground arith
strip_prefix_space (b ∷ p) (a ∷ k) r h g = ground (arith, strip_prefix_space p k r)
