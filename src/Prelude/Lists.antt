-- ===== src/Prelude/Lists.antt =====
-- Lists measured by native numbers, with Boolean quantifiers that compute.
use Prim.Native.Nat.{ℕ, zero, suc, ◌+◌, ◌≤◌}
use mathlib.Core.Path.{◌≡◌, refl, ap, subst}
use mathlib.Core.Bool.{Bool, true, false, not, ◌&&◌, ◌||◌}
use mathlib.Core.List.{List, [], ◌∷◌, ◌++◌}
use mathlib.Core.Logic.{inl, inr}
use mathlib.Core.Option.{Option, none, some}
use native.Mathlib.Omega.{arith}
use modex_cloud.Prelude.Tests.{if◌then◌else◌, Bool-cases}

module _ {ℓ} {A : Type ℓ} where
  abbrev pub length : List A → ℕ
  length [] = 0
  length (x ∷ xs) = suc (length xs)

  abbrev pub take : ℕ → List A → List A
  take zero xs = []
  take (suc n) [] = []
  take (suc n) (x ∷ xs) = x ∷ take n xs

  abbrev pub drop : ℕ → List A → List A
  drop zero xs = xs
  drop (suc n) [] = []
  drop (suc n) (x ∷ xs) = drop n xs

  pub length-append : (xs ys : List A) → length (xs ++ ys) ≡ length xs + length ys
  length-append [] ys = omega arith
  length-append (x ∷ xs) ys = omega (arith, length-append xs ys)

  abbrev pub any : (A → Bool) → List A → Bool
  any p [] = false
  any p (x ∷ xs) = p x || any p xs

  abbrev pub all : (A → Bool) → List A → Bool
  all p [] = true
  all p (x ∷ xs) = p x && all p xs

  abbrev pub find : (A → Bool) → List A → Option A
  find p [] = none
  find p (x ∷ xs) = if p x then some x else find p xs

  abbrev pub filter : (A → Bool) → List A → List A
  filter p [] = []
  filter p (x ∷ xs) = if p x then x ∷ filter p xs else filter p xs

  abbrev pub count : (A → Bool) → List A → ℕ
  count p [] = 0
  count p (x ∷ xs) = if p x then suc (count p xs) else count p xs

  -- The rows that the test selects are changed, and the others are left alone.
  abbrev pub map_where : (A → Bool) → (A → A) → List A → List A
  map_where p f [] = []
  map_where p f (x ∷ xs) = (if p x then f x else x) ∷ map_where p f xs

module _ {ℓ κ} {A : Type ℓ} (P : A → Type κ) where
  abbrev pub All : List A → Type κ
  All [] = Unit
  All (x ∷ xs) = P x × All xs

module _ {ℓ} {A : Type ℓ} where
  pub find_sound : (p : A → Bool) (xs : List A) (r : A) → find p xs ≡ some r → p r ≡ true
  find_sound p [] r h = cc
  find_sound p (x ∷ xs) r h = ground (arith, find_sound p xs r)

  -- An update that the test does not notice changes the row that is found.
  pub find-map_where :
      (p : A → Bool) (f : A → A) (xs : List A) (r : A)
      → ((x : A) → p (f x) ≡ p x)
      → find p xs ≡ some r
      → find p (map_where p f xs) ≡ some (f r)
  find-map_where p f [] r same h = cc
  find-map_where p f (x ∷ xs) r same h =
      let here : p (f x) ≡ p x = same x in ground (arith, here, find-map_where p f xs r same)

module _ {ℓ} {A : Type ℓ} where
  pub take-append : (xs ys : List A) → take (length xs) (xs ++ ys) ≡ xs
  take-append [] ys = refl
  take-append (x ∷ xs) ys = ap {B = List A} (λ t. x ∷ t) (take-append xs ys)

  pub drop-append : (xs ys : List A) → drop (length xs) (xs ++ ys) ≡ ys
  drop-append [] ys = refl
  drop-append (x ∷ xs) ys = drop-append xs ys

  pub take-append-drop : (n : ℕ) (xs : List A) → take n xs ++ drop n xs ≡ xs
  take-append-drop zero xs = refl
  take-append-drop (suc n) [] = refl
  take-append-drop (suc n) (x ∷ xs) = ap {B = List A} (λ t. x ∷ t) (take-append-drop n xs)

  pub length-take : (n : ℕ) (xs : List A) → n ≤ length xs → length (take n xs) ≡ n
  length-take zero xs h = refl
  length-take (suc n) [] h = elim h [ ]
  length-take (suc n) (x ∷ xs) h = ap suc (length-take n xs (omega arith))

module _ {A : Type 0} {P Q : A → Type 0} where
  pub All-map : ((x : A) → P x → Q x) → (xs : List A) → All P xs → All Q xs
  All-map f [] h = tt
  All-map f (x ∷ xs) (h, hs) = (f x h, All-map f xs hs)

module _ {A : Type 0} (P : A → Type 0) where
  pub All-append : (xs : List A) (a : A) → All P xs → P a → All P (xs ++ a ∷ [])
  All-append [] a h k = (k, tt)
  All-append (x ∷ xs) a (h, hs) k = (h, All-append xs a hs k)

  pub All-map_where :
      (p : A → Bool) (f : A → A)
      → ((x : A) → P x → P (f x))
      → (xs : List A) → All P xs
      → All P (map_where p f xs)
  All-map_where p f keep [] h = tt
  All-map_where p f keep (x ∷ xs) (h, hs) = (All-if (p x) h, All-map_where p f keep xs hs)
    where
      All-if : (b : Bool) → P x → P (if b then f x else x)
      All-if true k = keep x k
      All-if false k = k

  pub All-filter : (p : A → Bool) (xs : List A) → All P xs → All P (filter p xs)
  All-filter p [] h = tt
  All-filter p (x ∷ xs) (h, hs) = let rest = All-filter p xs hs in ground arith

module _ {ℓ} {A : Type ℓ} where
  -- Nothing of what was filtered out is left.
  pub count-filter-not : (p : A → Bool) (xs : List A) → count p (filter (λ x. not (p x)) xs) ≡ 0
  count-filter-not p [] = refl
  count-filter-not p (x ∷ xs) = ground (arith, count-filter-not p xs)

  -- An update that selects nothing.
  pub map_where_none :
      (p : A → Bool) (f : A → A) (xs : List A) → count p xs ≡ 0 → map_where p f xs ≡ xs
  map_where_none p f [] h = refl
  map_where_none p f (x ∷ xs) h = ground (arith, map_where_none p f xs)

-- An update of rows that a test does not tell apart.
module _ {ℓ} {A : Type ℓ} (p q : A → Bool) (f : A → A) (same : (x : A) → p (f x) ≡ p x) where
  pub count-map_where : (xs : List A) → count p (map_where q f xs) ≡ count p xs
  count-map_where [] = refl
  count-map_where (x ∷ xs) = ground (arith, same x, count-map_where xs)

  -- It leaves the rows that pass the test, where it is for none of them.
  pub filter-map_where :
      (xs : List A) → count (λ x. q x && p x) xs ≡ 0 → filter p (map_where q f xs) ≡ filter p xs
  filter-map_where [] h = refl
  filter-map_where (x ∷ xs) h = ground (arith, same x, filter-map_where xs)

module _ {ℓ} {A : Type ℓ} where
  pub count-none : (p : A → Bool) (xs : List A) → ((x : A) → p x ≡ false) → count p xs ≡ 0
  count-none p [] h = refl
  count-none p (x ∷ xs) h = ground (arith, h x, count-none p xs h)

  pub filter-append_not :
      (p : A → Bool) (xs : List A) (a : A) → p a ≡ false → filter p (xs ++ a ∷ []) ≡ filter p xs
  filter-append_not p [] a h = ground arith
  filter-append_not p (x ∷ xs) a h = ground (arith, filter-append_not p xs a h)

  pub find-All {κ} :
      (P : A → Type κ) (p : A → Bool) (xs : List A) (r : A) → find p xs ≡ some r → All P xs → P r
  find-All P p [] r e h = cc
  find-All P p (x ∷ xs) r e (h, hs) = elim (Bool-cases (p x)) [
    | inl t ↦ subst P (ground arith) h
    | inr t ↦ find-All P p xs r (ground arith) hs
  ]
