-- ===== src/Controller/Admin/Secrets.antt =====
-- What the listings of accounts and platforms do not show.
use mathlib.Core.List.{reverse_aux}
use modex_cloud.Prelude.{
  ℕ, zero, suc, ◌≡◌, refl, Bool, List, [], ◌∷◌, map, reverse, take, drop, filter, count, arith, ap,
  ◌∙◌, Option,
}
use modex_cloud.Prelude.Int.{ℤ}
use modex_cloud.Text.{Text, text}
use modex_cloud.Controller.Paging.{page_params, start_row, atoi_or_zero}
use modex_cloud.Wire.{Json}
use modex_cloud.Model.Schema.{User, Platform}
use modex_cloud.Model.World.{World}
use modex_cloud.Model.User.{has_role}
use modex_cloud.Model.User
use modex_cloud.Model.Platform
use modex_cloud.Controller.Flow.{Context}
use modex_cloud.Controller.Admin.{items}
use modex_cloud.Controller.Admin.User.{user_row_json, list_users}
use modex_cloud.Controller.Admin.Platform.{platform_json, list_platforms}

-- A row with other secrets.
abbrev pub with_secrets : Text → Option Text → Text → User → User
with_secrets password token two_fa u = record u {
  password = password;
  access_token = token;
  two_fa_secret_enc = two_fa;
}

abbrev pub with_sealed : Text → Platform → Platform
with_sealed token p = record p { modex_token_enc = token }

-- The database with other secrets in its rows: `f` and `g` choose them by the row.
abbrev pub reseal : (User → User) → (Platform → Platform) → World → World
reseal f g w = record w {
  users = record { rows = map f w.users.rows; next = w.users.next };
  platforms = record { rows = map g w.platforms.rows; next = w.platforms.next };
}

module _ {A : Type 0} (f : A → A) where
  items-map :
      (j : A → Json) → ((x : A) → j (f x) ≡ j x) → (xs : List A) → items j (map f xs) ≡ items j xs
  unfolding items
  items-map j same [] = refl
  items-map j same (x ∷ xs) = ground (arith, same x, items-map j same xs)

  filter-map :
      (p : A → Bool)
      → ((x : A) → p (f x) ≡ p x)
      → (xs : List A) → filter p (map f xs) ≡ map f (filter p xs)
  filter-map p same [] = refl
  filter-map p same (x ∷ xs) = ground (arith, same x, filter-map p same xs)

  count-map :
      (p : A → Bool) → ((x : A) → p (f x) ≡ p x) → (xs : List A) → count p (map f xs) ≡ count p xs
  count-map p same [] = refl
  count-map p same (x ∷ xs) = ground (arith, same x, count-map p same xs)

  drop-map : (n : ℕ) (xs : List A) → drop n (map f xs) ≡ map f (drop n xs)
  drop-map zero xs = refl
  drop-map (suc n) [] = refl
  drop-map (suc n) (x ∷ xs) = drop-map n xs

  take-map : (n : ℕ) (xs : List A) → take n (map f xs) ≡ map f (take n xs)
  take-map zero xs = refl
  take-map (suc n) [] = refl
  take-map (suc n) (x ∷ xs) = ap (λ ys. f x ∷ ys) (take-map n xs)

  reverse_aux-map : (xs ys : List A) → reverse_aux (map f xs) (map f ys) ≡ map f (reverse_aux xs ys)
  reverse_aux-map [] ys = refl
  reverse_aux-map (x ∷ xs) ys = reverse_aux-map xs (x ∷ ys)

  -- A page of the rows that pass a test, and their number.
  page-map :
      (j : A → Json) (p : A → Bool)
      → ((x : A) → j (f x) ≡ j x)
      → ((x : A) → p (f x) ≡ p x)
      → (limit offset : ℕ) (xs : List A)
      → items j (take limit (drop offset (reverse (filter p (map f xs)))))
        ≡ items j (take limit (drop offset (reverse (filter p xs))))
  page-map j p same passes limit offset xs =
      ap (λ ys. items j (take limit (drop offset (reverse ys)))) (filter-map p passes xs)
      ∙ (ap (λ ys. items j (take limit (drop offset ys))) (reverse_aux-map (filter p xs) [])
          ∙ (ap (λ ys. items j (take limit ys)) (drop-map offset (reverse (filter p xs)))
              ∙ (ap (items j) (take-map limit (drop offset (reverse (filter p xs))))
                  ∙ items-map j same (take limit (drop offset (reverse (filter p xs)))))))

module _ (a c : User → Text) (b : User → Option Text) where
  abbrev reseal_user : User → User
  reseal_user u = with_secrets (a u) (b u) (c u) u

  row_same : (u : User) → user_row_json (reseal_user u) ≡ user_row_json u
  unfolding user_row_json
  row_same u = refl

  role_same : (role : ℤ) (u : User) → has_role role (reseal_user u) ≡ has_role role u
  unfolding has_role
  role_same role u = refl

sealed_same : (t : Text) (p : Platform) → platform_json (with_sealed t p) ≡ platform_json p
unfolding platform_json
sealed_same t p = refl

-- Whatever other password hashes, access tokens, 2FA secrets and sealed platform tokens the rows
-- had, the listings of accounts and of platforms would be answered in the same way.
pub listings-reseal :
    (a c : User → Text) (b : User → Option Text) (e : Platform → Text) (ctx : Context) (w : World)
    → let v = reseal (λ u. with_secrets (a u) (b u) (c u) u) (λ p. with_sealed (e p) p) w in
      ((list_users ctx v).0 ≡ (list_users ctx w).0) × ((list_platforms v).0 ≡ (list_platforms w).0)
unfolding list_users list_platforms User.list_users Platform.list_platforms
listings-reseal a c b e ctx w =
    let role = atoi_or_zero (ctx.query (text "role")) in
    let f = reseal_user a c b in
    let page =
      page-map f user_row_json (has_role role) (row_same a c b) (role_same a c b role)
        (page_params ctx).1 (start_row (page_params ctx).0) w.users.rows in
    let total = count-map f (has_role role) (role_same a c b role) w.users.rows in
    let all_platforms =
      items-map (λ p. with_sealed (e p) p) platform_json (λ p. sealed_same (e p) p)
        w.platforms.rows in
    (ground (arith, page, total), ground (arith, all_platforms))
