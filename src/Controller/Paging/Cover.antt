-- ===== src/Controller/Paging/Cover.antt =====
-- A listing that is read page by page: `pageParams` of controller/admin_user.go and
-- `ListChannelsForUser` of model/channel.go together.
use mathlib.Core.List.{map-append, reverse_aux}
use mathlib.Core.Path.{ap₂}
use modex_cloud.Prelude.{
  ℕ, zero, suc, ◌+◌, ◌*◌, ◌<◌, ◌≤◌, ◌≡◌, refl, sym, ap, ◌∙◌, Bool, List, [], ◌∷◌, ◌++◌, map,
  reverse, take, drop, filter, count, length, arith,
}
use modex_cloud.Prelude.Int.{ℤ, pos}
use modex_cloud.Model.Schema.{Channel}
use modex_cloud.Model.World.{Action, World, IsQuiet, Result, ok, pure, ◌>>=◌}
use modex_cloud.Model.Channel.{listed, omit_key, list_channels_for_user}
use modex_cloud.Controller.Flow.{Context}
use modex_cloud.Controller.Paging.{page_params, start_row}
use modex_cloud.Controller.Paging.Laws.{page_number, page_size, page_params-near}

-- The first pages, read one after another: the page that `asks i` asks for, for each number i in
-- turn.
unfoldable pub read_pages : (ℕ → Context) → ℤ → ℤ → ℕ → Action (List Channel)
read_pages asks user platform zero = pure []
read_pages asks user platform (suc n) = do
  front ← read_pages asks user platform n
  (page, _) ←
      list_channels_for_user user platform (start_row (page_params (asks n)).0)
        (page_params (asks n)).1
  pure (front ++ page)

add_zero : (n : ℕ) → n ≡ 0 + n
add_zero n = omega arith

add_suc : (m n : ℕ) → suc (m + n) ≡ suc m + n
add_suc m n = omega arith

module _ {A : Type 0} where
  take_none : (n : ℕ) → take {A = A} n [] ≡ []
  take_none zero = refl
  take_none (suc n) = refl

  take-drop : (m n : ℕ) (xs : List A) → take m xs ++ take n (drop m xs) ≡ take (m + n) xs
  take-drop zero n xs = ap (λ k. take k xs) (add_zero n)
  take-drop (suc m) n [] = take_none n ∙ sym (take_none (suc m + n))
  take-drop (suc m) n (x ∷ xs) =
      ap {B = List A} (λ t. x ∷ t) (take-drop m n xs) ∙ ap (λ k. take k (x ∷ xs)) (add_suc m n)

  take_all : (n : ℕ) (xs : List A) → length xs ≤ n → take n xs ≡ xs
  take_all zero [] h = refl
  take_all zero (x ∷ xs) h = absurd (omega arith)
  take_all (suc n) [] h = refl
  take_all (suc n) (x ∷ xs) h = ap {B = List A} (λ t. x ∷ t) (take_all n xs (omega arith))

  length-reverse_aux : (xs ys : List A) → length (reverse_aux xs ys) ≡ length xs + length ys
  length-reverse_aux [] ys = omega arith
  length-reverse_aux (x ∷ xs) ys = omega (arith, length-reverse_aux xs (x ∷ ys))

  length-filter : (p : A → Bool) (xs : List A) → length (filter p xs) ≡ count p xs
  length-filter p [] = refl
  length-filter p (x ∷ xs) = ground (arith, length-filter p xs)

  length-newest : (p : A → Bool) (xs : List A) → length (reverse (filter p xs)) ≡ count p xs
  length-newest p xs =
      let r = length-reverse_aux (filter p xs) [] in omega (arith, r, length-filter p xs)

-- A world after some more statements.
abbrev later : ℕ → World → World
later k w = record w { calls = w.calls + k }

-- What is asked for: a page of a given number and size.
abbrev pub AsksFor : ℕ → ℕ → Context → Type 0
AsksFor number size c = (page_number c ≡ pos number) × (page_size c ≡ pos size)

module _ (user platform : ℤ) where
  -- What there is to list, the newest first.
  abbrev pub all_listed : World → List Channel
  all_listed w = reverse (filter (listed user platform) w.channels.rows)

  list_channels_for_user_ok :
      (offset limit : ℕ) (w : World)
      → IsQuiet w
      → list_channels_for_user user platform offset limit w ≡ (
        ok (
          map omit_key (take limit (drop offset (all_listed w))),
          count (listed user platform) w.channels.rows,
        ),
        later 2 w,
      )
  unfolding list_channels_for_user
  list_channels_for_user_ok offset limit w q = ground (arith, q w.calls, q (w.calls + 1))

  module _ (asks : ℕ → Context) (size : ℕ) (low : 1 ≤ size) (high : size ≤ 100) where
    read_pages-take :
        (n : ℕ) (w : World)
        → IsQuiet w
        → n ≤ 90000000000000000
        → ((i : ℕ) → i < n → AsksFor (suc i) size (asks i))
        → read_pages asks user platform n w
          ≡ (ok (map omit_key (take (n * size) (all_listed w))), later (2 * n) w)
    unfolding read_pages
    read_pages-take zero w q near asked = ground arith
    read_pages-take (suc n) w q near asked =
        let here = asked n (omega arith) in
        let at = page_params-near (asks n) n size here.0 here.1 low high (omega arith) in
        let front = read_pages-take n w q (omega arith) (λ i h. asked i (omega arith)) in
        let page = list_channels_for_user_ok (n * size) size (later (2 * n) w) (λ i. q i) in
        let calls : w.calls + 2 * n + 2 ≡ w.calls + 2 * suc n = omega arith in
        let room : n * size + size ≡ suc n * size = grind arith in
        let rows =
          sym (map-append omit_key (take (n * size) (all_listed w)) _)
          ∙ ap (map omit_key)
              (take-drop (n * size) size (all_listed w) ∙ ap (λ k. take k (all_listed w)) room) in
        rw front (
          rw at (
            rw page (
              ap₂ {C = Result (List Channel) × World} (λ l k. (ok l, record w { calls = k })) rows
                calls)))

    -- Where no statement fails: pages of one size from 1 to 100, asked for one after another from
    -- the first on, are together what there is to list, the newest first, each channel once and
    -- without its sealed key, as soon as they have room for the reported total, and where they are
    -- no more than 9 * 10^16.
    pub read_pages-All :
        (n : ℕ) (w : World)
        → IsQuiet w
        → n ≤ 90000000000000000
        → ((i : ℕ) → i < n → AsksFor (suc i) size (asks i))
        → count (listed user platform) w.channels.rows ≤ n * size
        → (read_pages asks user platform n w).0 ≡ ok (map omit_key (all_listed w))
    read_pages-All n w q near asked room =
        ap (λ r. r.0) (read_pages-take n w q near asked)
        ∙ ap (λ l. ok (map omit_key l))
            (take_all (n * size) (all_listed w)
              (omega (arith, length-newest (listed user platform) w.channels.rows)))
