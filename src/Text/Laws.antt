-- ===== src/Text/Laws.antt =====
-- Splitting gives back what was joined.
use mathlib.Core.List.{reverse_aux}
use modex_cloud.Prelude.{
  zero, suc, some, Option-cases, inl, inr, ◌∙◌, reverse, map, length, ℕ, ◌≡◌, refl, false, List, [],
  ◌∷◌, ◌++◌, any, All, ◌==◌, nat_eq, arith,
}
use modex_cloud.Text.{
  Text, split, split_cons, join, strip_prefix, strip_any, strip_all, trim_left, trim_right,
  trim_space, spaces,
}

-- The byte does not occur.
abbrev pub Lacks : ℕ → Text → Type 0
Lacks sep s = any (λ c. c == sep) s ≡ false

split_word : (sep : ℕ) (s : Text) → Lacks sep s → split s sep ≡ s ∷ []
unfolding split split_cons
split_word sep [] h = refl
split_word sep (a ∷ s) h = ground (arith, split_word sep s)

split_front : (sep : ℕ) (s t : Text) → Lacks sep s → split (s ++ (sep ∷ t)) sep ≡ s ∷ split t sep
unfolding split split_cons
split_front sep [] t h = ground arith
split_front sep (a ∷ s) t h = ground (arith, split_front sep s t)

-- The words of a non-empty list that do not contain the separator are read back from the text they
-- are joined to.
pub split-join :
    (sep : ℕ) (w : Text) (ws : List Text)
    → All (Lacks sep) (w ∷ ws)
    → split (join (w ∷ ws) (sep ∷ [])) sep ≡ w ∷ ws
unfolding join
split-join sep w [] (h, hs) = split_word sep w h
split-join sep w (v ∷ ws) (h, hs) =
    rw (split_front sep w (join (v ∷ ws) (sep ∷ [])) h, split-join sep v ws hs) refl

-- No part of a split text contains the separator.
pub split-Lacks : (sep : ℕ) (s : Text) → All (Lacks sep) (split s sep)
unfolding split split_cons
split-Lacks sep [] = (refl, tt)
split-Lacks sep (a ∷ s) = ground (arith, split-Lacks sep s)

-- Trimming takes bytes away only.
strip_prefix-Lacks :
    (sep : ℕ) (p s r : Text) → strip_prefix p s ≡ some r → Lacks sep s → Lacks sep r
unfolding strip_prefix
strip_prefix-Lacks sep [] s r e h = ground arith
strip_prefix-Lacks sep (a ∷ p) [] r e h = ground arith
strip_prefix-Lacks sep (a ∷ p) (b ∷ s) r e h = ground (arith, strip_prefix-Lacks sep p s r)

strip_any-Lacks :
    (sep : ℕ) (ps : List Text) (s r : Text) → strip_any ps s ≡ some r → Lacks sep s → Lacks sep r
unfolding strip_any
strip_any-Lacks sep [] s r e h = ground arith
strip_any-Lacks sep (p ∷ ps) s r e h = elim (Option-cases (strip_prefix p s)) [
  | inl n ↦ strip_any-Lacks sep ps s r (rw (n, strip_any) at e) h
  | inr (t, n) ↦ strip_prefix-Lacks sep p s r (n ∙ (rw (n, strip_any) at e)) h
]

strip_all-Lacks :
    (sep n : ℕ) (ps : List Text) (s : Text) → Lacks sep s → Lacks sep (strip_all n ps s)
unfolding strip_all
strip_all-Lacks sep zero ps s h = h
strip_all-Lacks sep (suc n) ps s h = elim (Option-cases (strip_any ps s)) [
  | inl e ↦ rw (e, strip_all) h
  | inr (r, e) ↦ rw (e, strip_all) (strip_all-Lacks sep n ps r (strip_any-Lacks sep ps s r e h))
]

Lacks-reverse_aux : (sep : ℕ) (s t : Text) → Lacks sep s → Lacks sep t → Lacks sep (reverse_aux s t)
Lacks-reverse_aux sep [] t h k = k
Lacks-reverse_aux sep (a ∷ s) t h k = Lacks-reverse_aux sep s (a ∷ t) (ground arith) (ground arith)

pub trim_space-Lacks : (sep : ℕ) (s : Text) → Lacks sep s → Lacks sep (trim_space s)
unfolding trim_space trim_left trim_right
trim_space-Lacks sep s h =
    let l = strip_all (length s) spaces s in
    let k = strip_all-Lacks sep (length s) spaces s h in
    let back = Lacks-reverse_aux sep l [] k refl in
    let r = strip_all-Lacks sep (length l) (map reverse spaces) (reverse l) back in
    Lacks-reverse_aux sep (strip_all (length l) (map reverse spaces) (reverse l)) [] r refl
