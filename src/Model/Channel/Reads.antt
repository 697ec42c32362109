-- ===== src/Model/Channel/Reads.antt =====
-- What the reads of model/channel.go hand out.
use mathlib.Core.List.{reverse_aux}
use modex_cloud.Prelude.{
  ℕ, zero, suc, ◌≡◌, refl, ◌≤◌, Bool, true, List, [], ◌∷◌, map, reverse, take, drop, filter, length,
  All, arith, subst,
}
use modex_cloud.Prelude.Int.{ℤ, int_eq, int_beq_iff}
use modex_cloud.Model.Schema.{Channel}
use modex_cloud.Model.World.{World, ok}
use modex_cloud.Model.Channel.{is_live, listed, omit_key, list_channels_for_user}

-- A row that a supplier may see: it is theirs, it is not deleted, and its sealed key is left out.
pub record IsVisible (user : ℤ) (c : Channel) : Type 0 where
  pub own : c.user_id ≡ user
  pub live : is_live c ≡ true
  pub keyless : c.enc_key ≡ []

abbrev IsListed : ℤ → ℤ → Channel → Type 0
IsListed user platform c = listed user platform c ≡ true

module _ {A : Type 0} (P : A → Type 0) where
  All-take : (n : ℕ) (xs : List A) → All P xs → All P (take n xs)
  All-take zero xs h = tt
  All-take (suc n) [] h = tt
  All-take (suc n) (x ∷ xs) (h, hs) = (h, All-take n xs hs)

  All-drop : (n : ℕ) (xs : List A) → All P xs → All P (drop n xs)
  All-drop zero xs h = h
  All-drop (suc n) [] h = tt
  All-drop (suc n) (x ∷ xs) (h, hs) = All-drop n xs hs

  All-reverse_aux : (xs ys : List A) → All P xs → All P ys → All P (reverse_aux xs ys)
  All-reverse_aux [] ys h k = k
  All-reverse_aux (x ∷ xs) ys (h, hs) k = All-reverse_aux xs (x ∷ ys) hs (h, k)

  All-reverse : (xs : List A) → All P xs → All P (reverse xs)
  All-reverse xs h = All-reverse_aux xs [] h tt

filter_sound : {A : Type 0} (p : A → Bool) (xs : List A) → All (λ x. p x ≡ true) (filter p xs)
filter_sound p [] = tt
filter_sound p (x ∷ xs) = ground (arith, filter_sound p xs)

length-take_le : {A : Type 0} (n : ℕ) (xs : List A) → length (take n xs) ≤ n
length-take_le zero xs = omega arith
length-take_le (suc n) [] = omega arith
length-take_le (suc n) (x ∷ xs) = omega (arith, length-take_le n xs)

listed-IsVisible :
    (user platform : ℤ) (c : Channel) → listed user platform c ≡ true → IsVisible user (omit_key c)
unfolding listed
listed-IsVisible user platform c h = record {
  own = ground (arith, int_beq_iff c.user_id user);
  live = ground arith;
  keyless = refl;
}

module _ (user platform : ℤ) where
  IsVisible-All :
      (rows : List Channel)
      → All (IsListed user platform) rows
      → All (IsVisible user) (map omit_key rows)
  IsVisible-All [] h = tt
  IsVisible-All (c ∷ cs) (h, hs) = (listed-IsVisible user platform c h, IsVisible-All cs hs)

  -- The rows of a page.
  abbrev page_rows : ℕ → ℕ → List Channel → List Channel
  page_rows offset limit rows =
      take limit (drop offset (reverse (filter (listed user platform) rows)))

  page-IsVisible :
      (offset limit : ℕ) (rows : List Channel)
      → All (IsVisible user) (map omit_key (page_rows offset limit rows))
  page-IsVisible offset limit rows =
      let l = filter (listed user platform) rows in
      let P = IsListed user platform in
      IsVisible-All (page_rows offset limit rows) (
        All-take P limit (drop offset (reverse l)) (
          All-drop P offset (reverse l)
            (All-reverse P l (filter_sound (listed user platform) rows))))

-- What a listing answers with, when it answers.
page_lem :
    (user platform : ℤ) (offset limit : ℕ) (w v : World) (page : List Channel) (total : ℕ)
    → list_channels_for_user user platform offset limit w ≡ (ok (page, total), v)
    → map omit_key (page_rows user platform offset limit w.channels.rows) ≡ page
unfolding list_channels_for_user
page_lem user platform offset limit w v page total h = ground arith

length-map : (xs : List Channel) → length (map omit_key xs) ≡ length xs
length-map [] = refl
length-map (x ∷ xs) = ground (arith, length-map xs)

-- A listing that succeeds hands out channels of the supplier only, none of them deleted, without
-- the sealed keys, and no more than the page holds.
pub list_channels_for_user-IsVisible :
    (user platform : ℤ) (offset limit : ℕ) (w v : World) (page : List Channel) (total : ℕ)
    → list_channels_for_user user platform offset limit w ≡ (ok (page, total), v)
    → All (IsVisible user) page × (length page ≤ limit)
list_channels_for_user-IsVisible user platform offset limit w v page total h =
    let rows = page_rows user platform offset limit w.channels.rows in
    let taken = drop offset (reverse (filter (listed user platform) w.channels.rows)) in
    subst (λ l. All (IsVisible user) l × (length l ≤ limit))
      (page_lem user platform offset limit w v page total h)
      (
        page-IsVisible user platform offset limit w.channels.rows,
        omega (arith, length-map rows, length-take_le limit taken),
      )
