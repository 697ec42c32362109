-- ===== src/Boot/Seed/Laws.antt =====
-- What a generated secret looks like, and the account that the first start leaves.
use modex_cloud.Prelude.{
  ℕ, zero, suc, ◌≡◌, ◌≢◌, ◌<◌, ◌⊎◌, refl, inl, inr, Bool, true, false, ◌&&◌, ◌||◌, some, List, [],
  ◌∷◌, length, ltb, leb, if◌then◌else◌, ◌==◌, text_eq, arith, sym, subst, all, Bool-cases,
  Option-cases, text_beq_iff,
}
use modex_cloud.Prelude.Int.{int_eq}
use modex_cloud.Text.{Text, text}
use modex_cloud.Constant.{role_root, status_enabled}
use modex_cloud.Model.Schema.{User}
use modex_cloud.Model.World.{IsQuiet, World, Error, Result, ok, err, tick}
use modex_cloud.Model.User.{Bcrypt, create, password2hash}
use modex_cloud.Boot.Seed.{
  key_chars, char_at, rand_below, generate_random_chars_key, Seeded, chosen_password, root_user,
  seed, seed_root_user,
}

abbrev pub alphanumeric : ℕ → Bool
alphanumeric c = leb b'0' c && leb c b'9' || leb b'a' c && leb c b'z' || leb b'A' c && leb c b'Z'

char_at-all :
    (p : ℕ → Bool) (s : Text) (i : ℕ) → all p s ≡ true → i < length s → p (char_at s i) ≡ true
unfolding char_at
char_at-all p [] i h b = ground arith
char_at-all p (c ∷ s) zero h b = ground arith
char_at-all p (c ∷ s) (suc i) h b = char_at-all p s i (ground arith) (ground arith)

key_chars-alphanumeric : all alphanumeric key_chars ≡ true
unfolding key_chars text
key_chars-alphanumeric = refl

key_chars-length : length key_chars ≡ 62
unfolding key_chars text
key_chars-length = refl

-- A number below the length of the alphabet.
rand_below_lem :
    (w v : World) (i : ℕ)
    → rand_below (length key_chars) w ≡ (ok i, v)
    → (i < 62) × (v.faults ≡ w.faults) × (v.users ≡ w.users)
unfolding rand_below
rand_below_lem w v i h =
    let l : length key_chars ≡ 62 = key_chars-length in
    elim (Option-cases (w.entropy w.draws)) [
      | inl e ↦ ground arith
      | inr (f, e) ↦ (ground arith, ground arith, ground arith)
    ]

pub Result-cases :
    {A : Type 0} (r : Result A) → ((e : Error) × (r ≡ err e)) ⊎ ((a : A) × (r ≡ ok a))
Result-cases (ok a) = inr (a, refl)
Result-cases (err e) = inl (e, refl)

generated_lem :
    (n : ℕ) (w v : World) (s : Text)
    → generate_random_chars_key n w ≡ (ok s, v)
    → (length s ≡ n) × (all alphanumeric s ≡ true) × (v.faults ≡ w.faults) × (v.users ≡ w.users)
unfolding generate_random_chars_key
generated_lem zero w v s h = (ground arith, ground arith, ground arith, ground arith)
generated_lem (suc n) w v s h =
    let x = (rand_below (length key_chars) w).1 in
    elim (Result-cases (rand_below (length key_chars) w).0) [
      | inl (e, q) ↦ ground arith
      | inr (i, q) ↦ elim (Result-cases (generate_random_chars_key n x).0) [
        | inl (e, q') ↦ ground arith
        | inr (rest, q') ↦
            let (below, f, us) = rand_below_lem w x i (ground arith) in
            let y = (generate_random_chars_key n x).1 in
            let (l, a, f', us') = generated_lem n x y rest (ground arith) in
            let c : alphanumeric (char_at key_chars i) ≡ true =
              char_at-all alphanumeric key_chars i key_chars-alphanumeric
                (ground (arith, key_chars-length)) in
            let e : s ≡ char_at key_chars i ∷ rest = ground arith in
            let e' : v ≡ y = ground arith in
            (ground arith, ground arith, ground arith, ground arith)
      ]
    ]

-- A generated secret has the length asked for, and letters and digits only.
pub generate_random_chars_key-bounds :
    (n : ℕ) (w v : World) (s : Text)
    → generate_random_chars_key n w ≡ (ok s, v)
    → (length s ≡ n) × (all alphanumeric s ≡ true)
generate_random_chars_key-bounds n w v s h = let (l, a, _, _) = generated_lem n w v s h in (l, a)

-- The password that the first account has: the given one, or the generated one.
abbrev pub password_of : Text → Seeded → Text
password_of given s = if given == [] then s.generated else given

-- An account that can administrate, with the given name and a hash of the given password.
abbrev pub IsRoot : Bcrypt → Text → Text → User → Type 0
IsRoot bcrypt name plain u =
    (u.username ≡ name)
    × (u.role ≡ role_root)
    × (u.status ≡ status_enabled)
    × ((d : ℕ) × (bcrypt.generate d plain ≡ some u.password))

module _ (bcrypt : Bcrypt) where
  created_lem :
      (name plain : Text) (w v : World) (u : User)
      → IsQuiet w
      → w.users.rows ≡ []
      → create bcrypt (root_user name) plain w ≡ (ok u, v)
      → IsRoot bcrypt name plain u × (v.users.rows ≡ u ∷ []) × IsQuiet v
  unfolding create password2hash
  created_lem name plain w v u q e h = elim (Option-cases (bcrypt.generate w.draws plain)) [
    | inl g ↦ ground arith
    | inr (x, g) ↦
        let quiet : w.faults w.calls ≡ false = q w.calls in
        (
          (ground arith, ground arith, ground arith, (w.draws, ground arith)),
          ground arith,
          λ k. ground (arith, q k),
        )
  ]

  seed_lem :
      (name given : Text) (w v : World) (s : Seeded)
      → IsQuiet w
      → w.users.rows ≡ []
      → seed bcrypt name given w ≡ (ok s, v)
      → (u : User) × IsRoot bcrypt name (password_of given s) u
        × (v.users.rows ≡ u ∷ [])
        × IsQuiet v
        × (password_of given s ≢ [])
  unfolding seed chosen_password
  seed_lem name given w v s q e h = elim (Bool-cases (given == [])) [
    | inr n ↦ elim (Result-cases (create bcrypt (root_user name) given w).0) [
      | inl (x, k) ↦ ground arith
      | inr (u, k) ↦
          let (root, rows, quiet) = created_lem name given w v u q e (ground arith) in
          let pw : password_of given s ≡ given = ground arith in
          (
            u,
            subst (λ t. IsRoot bcrypt name t u) (sym pw) root,
            rows,
            quiet,
            λ z. ground (arith, text_beq_iff given []),
          )
    ]
    | inl n ↦ elim (Result-cases (generate_random_chars_key 16 w).0) [
      | inl (x, k) ↦ ground arith
      | inr (p, k) ↦
          let y = (generate_random_chars_key 16 w).1 in
          let (l, a, f, us) = generated_lem 16 w y p (ground arith) in
          elim (Result-cases (create bcrypt (root_user name) p y).0) [
            | inl (x, k') ↦ ground arith
            | inr (u, k') ↦
                let (root, rows, quiet) =
                  created_lem name p y v u (λ m. ground (arith, q m)) (ground arith)
                    (ground arith) in
                let pw : password_of given s ≡ p = ground arith in
                (
                  u,
                  subst (λ t. IsRoot bcrypt name t u) (sym pw) root,
                  rows,
                  quiet,
                  λ z. ground arith,
                )
          ]
    ]
  ]

  pub seeded_lem :
      (name given : Text) (w v : World) (s : Seeded)
      → IsQuiet w
      → w.users.rows ≡ []
      → seed_root_user bcrypt name given w ≡ (ok s, v)
      → (u : User) × IsRoot bcrypt name (password_of given s) u
        × (v.users.rows ≡ u ∷ [])
        × IsQuiet v
        × (password_of given s ≢ [])
  unfolding seed_root_user
  seeded_lem name given w v s q e h =
      let empty : w.users.rows ≡ [] = e in
      let quiet : w.faults w.calls ≡ false = q w.calls in
      seed_lem name given (tick w) v s q e (ground arith)

counted_lem : (us : List User) → us ≢ [] → ltb 0 (length us) ≡ true
counted_lem [] n = ground arith
counted_lem (u ∷ us) n = ground arith

-- A later start, with some account there, writes nothing.
pub seed_root_user-unchanged :
    (bcrypt : Bcrypt) (name given : Text) (w v : World) (s : Seeded)
    → w.users.rows ≢ []
    → seed_root_user bcrypt name given w ≡ (ok s, v)
    → (v ≡ tick w) × (s ≡ record { created = false; generated = [] })
unfolding seed_root_user
seed_root_user-unchanged bcrypt name given w v s n h =
    let some_user = counted_lem w.users.rows n in
    elim (Bool-cases (w.faults w.calls)) [
      | inl e ↦ ground (arith, e)
      | inr e ↦
          let same : seed_root_user bcrypt name given w
              ≡ (ok (record { created = false; generated = [] }), tick w) =
            ground (arith, e, some_user) in
          (ground arith, ground arith)
    ]
