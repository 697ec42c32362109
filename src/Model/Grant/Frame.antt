-- ===== src/Model/Grant/Frame.antt =====
-- Storing a grant touches the table of grants alone.
use modex_cloud.Prelude.{◌≡◌, refl, arith, Option}
use modex_cloud.Model.Schema.{Grant}
use modex_cloud.Model.World.{World, Error, grant_not_found, first, tick}
use modex_cloud.Model.World.Keeps.{Keeps, Keeps-first, Keeps-raise, keeps_rules}
use modex_cloud.Model.Grant.{create, upsert_grant, regrant, insert_missing}

module _ {P : World → Type 0}
    (same : (v w : World) → w.channels ≡ v.channels → w.users ≡ v.users → P v → P w) where
  create-Keeps : (g : Grant) → Keeps P (create g)
  unfolding create
  create-Keeps g = record { at = λ w h. same w _ (ground arith) (ground arith) h }

  regrant-Keeps : (g existing : Grant) → Keeps P (regrant g existing)
  unfolding regrant
  regrant-Keeps g existing = record { at = λ w h. same w _ (ground arith) (ground arith) h }

  insert_missing-Keeps : (g : Grant) (e : Error) → Keeps P (insert_missing g e)
  unfolding insert_missing
  insert_missing-Keeps g grant_not_found = create-Keeps g
  insert_missing-Keeps g e = Keeps-raise e

  first_grant-Keeps : (f : World → Option Grant) (missing : Error) → Keeps P (first f missing)
  first_grant-Keeps f missing = Keeps-first (λ w h. same w (tick w) refl refl h) f missing

  pub upsert_grant-untouched : (g : Grant) → Keeps P (upsert_grant g)
  unfolding upsert_grant
  upsert_grant-untouched g =
      search (keeps_rules, first_grant-Keeps, insert_missing-Keeps, regrant-Keeps)
