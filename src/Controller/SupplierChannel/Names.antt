-- ===== src/Controller/SupplierChannel/Names.antt =====
-- The names that channels get, and who may upload.
pub mod Fresh
use modex_cloud.Prelude.{
  ℕ, zero, suc, ◌≡◌, ◌≢◌, refl, ◌⊎◌, inl, inr, Bool, true, false, some, List, count, find,
  if◌then◌else◌, arith, ◌+◌, ◌<◌, ◌==◌, subst, sym, ap, ◌∙◌,
}
use modex_cloud.Prelude.Int.{ℤ, int_eq, int_beq_iff}
use modex_cloud.Text.{Text}
use modex_cloud.Constant.{status_disabled}
use modex_cloud.Model.Schema.{Channel, Platform, Grant}
use modex_cloud.Model.World.{World, Result, ok, err, database, tick, pure, >>=_of_ok, >>=_of_err}
use modex_cloud.Model.Channel.{channel_name_exists, has_name, next_channel_seq, of_pair}
use modex_cloud.Model.Platform.{get_platform_by_id}
use modex_cloud.Model.Grant.{get_grant, enables}
use modex_cloud.Controller.SupplierChannel.{
  authorize_platform, probe_name, build_name, generate_channel_name, max_probes,
}

abbrev pub IsTaken : List Channel → ℤ → ℤ → Text → Type 0
IsTaken rows user platform name = count (has_name user platform name) rows ≢ 0

-- An authorization that succeeds has read a platform that is not disabled and an enabled grant of
-- the supplier for it, and has changed nothing.
pub authorize_platform_ok :
    (user id : ℤ) (w v : World) (platform : Platform) (grant : Grant)
    → authorize_platform user id w ≡ (ok (platform, grant), v)
    → (find (λ p. p.id == id) w.platforms.rows ≡ some platform)
      × (platform.status ≢ status_disabled)
      × (find (enables user id) w.grants.rows ≡ some grant)
      × (v ≡ tick (tick w))
unfolding authorize_platform get_platform_by_id get_grant
authorize_platform_ok user id w v platform grant h =
    ground (arith, int_beq_iff platform.status status_disabled)

-- How the search for a free name ends: with the name of the first number that is free, or, when
-- all that it tried were taken, with the name it started from, or with an error of the database.
abbrev pub Probed : List Channel → ℤ → ℤ → (ℕ → Text) → ℕ → ℕ → ℕ → Result Text → Type 0
Probed rows user platform build seq rounds n (err e) = e ≡ database
Probed rows user platform build seq rounds n (ok name) =
    ((k : ℕ) × (k < rounds)
      × (name ≡ build (n + k))
      × (count (has_name user platform name) rows ≡ 0)
      × ((j : ℕ) → j < k → IsTaken rows user platform (build (n + j))))
    ⊎ ((name ≡ build seq) × ((j : ℕ) → j < rounds → IsTaken rows user platform (build (n + j))))

module _ (user platform : ℤ) where
  exists_lem :
      (name : Text) (w : World)
      → (channel_name_exists user platform name w ≡ (err database, tick w))
        ⊎ ((channel_name_exists user platform name w ≡ (ok true, tick w))
            × IsTaken w.channels.rows user platform name)
        ⊎ ((channel_name_exists user platform name w ≡ (ok false, tick w))
            × (count (has_name user platform name) w.channels.rows ≡ 0))
  unfolding channel_name_exists
  exists_lem name w = ground arith

  module _ (rows : List Channel) (build : ℕ → Text) (seq : ℕ) where
    IsTaken-first :
        (rounds n : ℕ)
        → IsTaken rows user platform (build n)
        → ((j : ℕ) → j < rounds → IsTaken rows user platform (build (n + 1 + j)))
        → (j : ℕ) → j < suc rounds
        → IsTaken rows user platform (build (n + j))
    IsTaken-first rounds n h hs zero k =
        subst (λ i. IsTaken rows user platform (build i)) (omega arith) h
    IsTaken-first rounds n h hs (suc j) k =
        subst (λ i. IsTaken rows user platform (build i))
          (let e : n + 1 + j ≡ n + suc j = omega arith in e) (hs j (omega arith))

    Probed-suc :
        (rounds n : ℕ) (r : Result Text)
        → IsTaken rows user platform (build n)
        → Probed rows user platform build seq rounds (n + 1) r
        → Probed rows user platform build seq (suc rounds) n r
    Probed-suc rounds n (err e) h p = p
    Probed-suc rounds n (ok name) h (inl (k, lt, e, free, taken)) =
        inl (suc k, omega arith, e ∙ ap build (omega arith), free, IsTaken-first k n h taken)
    Probed-suc rounds n (ok name) h (inr (e, taken)) = inr (e, IsTaken-first rounds n h taken)

    probe_name-Probed :
        (rounds n : ℕ) (w : World)
        → w.channels.rows ≡ rows
        → Probed rows user platform build seq rounds n
            (probe_name user platform build seq rounds n w).0
    unfolding probe_name
    probe_name-Probed zero n w same = inr (refl, λ j k. elim k [ ])
    probe_name-Probed (suc rounds) n w same =
        let m = channel_name_exists user platform (build n) in
        let f = λ (b : Bool).
          if b then probe_name user platform build seq rounds (n + 1) else pure (build n) in
        let P =
          λ (r : Result Text × World). Probed rows user platform build seq (suc rounds) n r.0 in
        elim (exists_lem (build n) w) [
          | inl e ↦ subst P (sym (>>=_of_err m f w e)) refl
          | inr (inl (e, taken)) ↦ subst P (sym (>>=_of_ok m f w e)) (
              Probed-suc rounds n (probe_name user platform build seq rounds (n + 1) (tick w)).0
                (subst (λ l. IsTaken l user platform (build n)) same taken)
                (probe_name-Probed rounds (n + 1) (tick w) same))
          | inr (inr (e, free)) ↦ subst P (sym (>>=_of_ok m f w e)) (
              inl (
                0,
                omega arith,
                ap build (omega arith),
                subst (λ l. count (has_name user platform (build n)) l ≡ 0) same free,
                λ j k. elim k [ ],
              ))
        ]

-- The number that the search starts from: one more than the supplier's channels on the platform,
-- deleted ones included.
abbrev pub first_number : ℤ → ℤ → World → ℕ
first_number user platform w = count (of_pair user platform) w.channels.rows + 1

next_channel_seq_lem :
    (user platform : ℤ) (w : World)
    → (next_channel_seq user platform w ≡ (err database, tick w))
      ⊎ (next_channel_seq user platform w ≡ (ok (first_number user platform w), tick w))
unfolding next_channel_seq
next_channel_seq_lem user platform w = ground arith

-- A generated name is that of the first number, from the one after the count of the supplier's
-- channels on, that no channel of theirs on the platform has, deleted ones included. Only where
-- 1000 numbers in a row are taken is it the name of the first of them; the only errors are those of
-- the database.
pub generate_channel_name-Probed :
    (user platform : ℤ) (username prefix group : Text) (w : World)
    → Probed w.channels.rows user platform
        (build_name username prefix group)
        (first_number user platform w)
        max_probes
        (first_number user platform w)
        (generate_channel_name user platform username prefix group w).0
unfolding generate_channel_name
generate_channel_name-Probed user platform username prefix group w =
    let m = next_channel_seq user platform in
    let build = build_name username prefix group in
    let f = λ (seq : ℕ). probe_name user platform build seq max_probes seq in
    let s = first_number user platform w in
    let P =
      λ (r : Result Text × World). Probed w.channels.rows user platform build s max_probes s r.0 in
    elim (next_channel_seq_lem user platform w) [
      | inl e ↦ subst P (sym (>>=_of_err m f w e)) refl
      | inr e ↦
          subst P (sym (>>=_of_ok m f w e))
            (probe_name-Probed user platform w.channels.rows build s max_probes s (tick w) refl)
    ]
