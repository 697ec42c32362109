-- ===== src/Model/Platform/Token.antt =====
-- The sealed token of a platform: which writes reach it.
use modex_cloud.Prelude.{
  ℕ, ◌≡◌, refl, Bool, List, [], ◌∷◌, map, map_where, ◌==◌, arith, find, some, find-map_where,
}
use modex_cloud.Prelude.Int.{ℤ, int_eq}
use modex_cloud.Text.{Text}
use modex_cloud.Model.Schema.{Platform}
use modex_cloud.Model.World.{World, ok}
use modex_cloud.Model.Platform.{as_updated, update, with_token, set_modex_token}

abbrev pub tokens : List Platform → List Text
tokens rows = map (λ p. p.modex_token_enc) rows

token-as_updated :
    (p : Platform) (now : ℕ) (r : Platform)
    → (as_updated p now r).modex_token_enc ≡ r.modex_token_enc
unfolding as_updated
token-as_updated p now r = refl

same_tokens :
    (q : Platform → Bool) (p : Platform) (now : ℕ) (rows : List Platform)
    → tokens (map_where q (as_updated p now) rows) ≡ tokens rows
same_tokens q p now [] = refl
same_tokens q p now (r ∷ rows) = ground (arith, same_tokens q p now rows, token-as_updated p now r)

id-with_token :
    (id : ℤ) (sealed last4 : Text) (now : ℕ) (r : Platform)
    → ((with_token sealed last4 now r).id == id) ≡ (r.id == id)
unfolding with_token
id-with_token id sealed last4 now r = refl

token-with_token :
    (sealed last4 : Text) (now : ℕ) (r : Platform)
    → (with_token sealed last4 now r).modex_token_enc ≡ sealed
unfolding with_token
token-with_token sealed last4 now r = refl

update-tokens :
    (p : Platform) (w : World) → tokens (update p w).1.platforms.rows ≡ tokens w.platforms.rows
unfolding update
update-tokens p w = ground (arith, same_tokens (λ r. r.id == p.id) p w.clock w.platforms.rows)

set_token_lem :
    (p r : Platform) (sealed last4 : Text) (w v : World)
    → find (λ x. x.id == p.id) w.platforms.rows ≡ some r
    → set_modex_token p sealed last4 w ≡ (ok tt, v)
    → find (λ x. x.id == p.id) v.platforms.rows ≡ some (with_token sealed last4 w.clock r)
unfolding set_modex_token
set_token_lem p r sealed last4 w v h e =
    let found =
      find-map_where (λ (x : Platform). x.id == p.id) (with_token sealed last4 w.clock)
        w.platforms.rows r (id-with_token p.id sealed last4 w.clock) h in
    ground (arith, found)

-- Setting a platform's token, where it succeeds and the platform exists, stores the given sealed
-- token in its row; an update of any platform that follows leaves all sealed tokens as they are,
-- whether it succeeds or not.
pub update-set_modex_token :
    (p q r : Platform) (sealed last4 : Text) (w v : World)
    → find (λ x. x.id == p.id) w.platforms.rows ≡ some r
    → set_modex_token p sealed last4 w ≡ (ok tt, v)
    → (find (λ x. x.id == p.id) v.platforms.rows ≡ some (with_token sealed last4 w.clock r))
      × ((with_token sealed last4 w.clock r).modex_token_enc ≡ sealed)
      × (tokens (update q v).1.platforms.rows ≡ tokens v.platforms.rows)
update-set_modex_token p q r sealed last4 w v h e = (
  set_token_lem p r sealed last4 w v h e,
  token-with_token sealed last4 w.clock r,
  update-tokens q v,
)
