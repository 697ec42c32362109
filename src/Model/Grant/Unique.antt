-- ===== src/Model/Grant/Unique.antt =====
-- One grant at most for a supplier and a platform.
use modex_cloud.Prelude.{
  ◌≡◌, refl, ◌≤◌, Bool, true, false, not, Option, List, [], ◌∷◌, ◌++◌, any, filter, count,
  map_where, ◌==◌, arith, if◌then◌else◌, Bool-cases, inl, inr, ◌+◌, subst,
}
use modex_cloud.Prelude.Int.{ℤ, pos, int_eq, int_beq_iff}
use modex_cloud.Constant.{status_enabled}
use modex_cloud.Model.Schema.{Grant}
use modex_cloud.Model.World.{World, Error, tick, grant_not_found, first, exec_unique}
use modex_cloud.Model.World.Keeps.{
  Keeps, Keeps-exec, Keeps-first, Keeps->>=, Keeps-pure, Keeps-raise, keeps_rules,
}
use modex_cloud.Model.Grant.{
  on_grants, links, create, upsert_grant, delete_grant, as_regranted, insert_grant, regrant,
  insert_missing,
}

pub record IsUnique (w : World) : Type 0 where
  pub once : (user platform : ℤ) → count (links user platform) w.grants.rows ≤ 1

module _ (user platform : ℤ) where
  count-append :
      (gs : List Grant) (g : Grant)
      → count (links user platform) (gs ++ g ∷ [])
        ≡ count (links user platform) gs + (if links user platform g then 1 else 0)
  count-append [] g = ground arith
  count-append (x ∷ gs) g = ground (arith, count-append gs g)

  count_none :
      (gs : List Grant) → any (links user platform) gs ≡ false → count (links user platform) gs ≡ 0
  count_none [] h = refl
  count_none (x ∷ gs) h = ground (arith, count_none gs)

  count-filter :
      (p : Grant → Bool) (gs : List Grant)
      → count (links user platform) (filter p gs) ≤ count (links user platform) gs
  count-filter p [] = omega arith
  count-filter p (x ∷ gs) = ground (arith, count-filter p gs)

  links-as_regranted :
      (g r : Grant) → links user platform (as_regranted g r) ≡ links user platform r
  unfolding links as_regranted
  links-as_regranted g r = refl

  count-map_where :
      (p : Grant → Bool) (g : Grant) (gs : List Grant)
      → count (links user platform) (map_where p (as_regranted g) gs)
        ≡ count (links user platform) gs
  count-map_where p g [] = refl
  count-map_where p g (x ∷ gs) = ground (arith, count-map_where p g gs, links-as_regranted g x)

  -- A row links a pair only if it is the pair it is of.
  links_own :
      (g : Grant) → links user platform g ≡ true → (g.user_id ≡ user) × (g.platform_id ≡ platform)
  unfolding links
  links_own g h = ground (arith, int_beq_iff g.user_id user, int_beq_iff g.platform_id platform)

-- A new row adds to the pair that it is of, which had none.
once-insert :
    (gs : List Grant) (g : Grant) (user platform : ℤ)
    → ((u p : ℤ) → count (links u p) gs ≤ 1)
    → any (links g.user_id g.platform_id) gs ≡ false
    → count (links user platform) (gs ++ g ∷ []) ≤ 1
once-insert gs g user platform h free = elim (Bool-cases (links user platform g)) [
  | inl e ↦
      let (u, p) = links_own user platform g e in
      let n : count (links user platform) gs ≡ 0 =
        subst (λ x. count (links x platform) gs ≡ 0) u
          (subst (λ y. count (links g.user_id y) gs ≡ 0) p
            (count_none g.user_id g.platform_id gs free)) in
      ground (arith, count-append user platform gs g)
  | inr e ↦ ground (arith, count-append user platform gs g, h user platform)
]

IsUnique-tick : (w : World) → IsUnique w → IsUnique (tick w)
IsUnique-tick w h = record { once = h.once }

IsUnique-insert :
    (g : Grant) (w : World)
    → IsUnique w
    → any (links g.user_id g.platform_id) w.grants.rows ≡ false
    → IsUnique (tick (insert_grant g w))
IsUnique-insert g w h free = record { once = λ u p. once-insert w.grants.rows g u p h.once free }

-- An insert behind the unique index.
insert-Keeps :
    (g : Grant)
    → Keeps IsUnique
        (exec_unique (λ v. any (links g.user_id g.platform_id) v.grants.rows) (insert_grant g))
insert-Keeps g = record {
  at = λ w h. elim (Bool-cases (w.faults w.calls)) [
    | inl e ↦ rw (e, exec_unique) (IsUnique-tick w h)
    | inr e ↦ elim (Bool-cases (any (links g.user_id g.platform_id) w.grants.rows)) [
      | inl c ↦ rw (e, c, exec_unique) (IsUnique-tick w h)
      | inr c ↦ rw (e, c, exec_unique) (IsUnique-insert g w h c)
    ]
  ];
}

create-Keeps : (g : Grant) → Keeps IsUnique (create g)
unfolding create
create-Keeps g = record {
  at = λ w h.
      let row = record g {
        id = pos w.grants.next;
        created_time = w.clock;
        status = if g.status == pos 0 then status_enabled else g.status;
      } in
      (Keeps->>= _ _ (insert-Keeps row) (λ _. Keeps-pure row)).at w h;
}

regrant-Keeps : (g existing : Grant) → Keeps IsUnique (regrant g existing)
unfolding regrant
regrant-Keeps g existing =
    Keeps->>= _ _
      (Keeps-exec IsUnique-tick _ (λ w h. record {
        once =
            λ u p. rw (count-map_where u p (λ r. r.id == existing.id) g w.grants.rows) (h.once u p);
      }))
      (λ _. Keeps-pure _)

insert_missing-Keeps : (g : Grant) (e : Error) → Keeps IsUnique (insert_missing g e)
unfolding insert_missing
insert_missing-Keeps g grant_not_found = create-Keeps g
insert_missing-Keeps g e = Keeps-raise e

first_grant-Keeps : (f : World → Option Grant) (missing : Error) → Keeps IsUnique (first f missing)
first_grant-Keeps f missing = Keeps-first IsUnique-tick f missing

pub upsert_grant-Keeps : (g : Grant) → Keeps IsUnique (upsert_grant g)
unfolding upsert_grant
upsert_grant-Keeps g = search (keeps_rules, first_grant-Keeps, insert_missing-Keeps, regrant-Keeps)

-- Removing grants leaves one at most for each pair.
pub IsUnique-filter :
    (p : Grant → Bool) (w : World) → IsUnique w → IsUnique (on_grants (filter p) w)
IsUnique-filter p w h = record {
  once = λ u q. omega (arith, h.once u q, count-filter u q p w.grants.rows);
}

delete_grant-Keeps : (id : ℤ) → Keeps IsUnique (delete_grant id)
unfolding delete_grant
delete_grant-Keeps id = Keeps-exec IsUnique-tick _ (IsUnique-filter (λ g. not (g.id == id)))

-- However a grant is stored, changed or removed, and whichever statements fail: if each supplier
-- had at most one grant for each platform, so it is afterwards.
pub grants_stay-IsUnique :
    (g : Grant) (id : ℤ)
    → Keeps IsUnique (create g) × Keeps IsUnique (upsert_grant g) × Keeps IsUnique (delete_grant id)
grants_stay-IsUnique g id = (create-Keeps g, upsert_grant-Keeps g, delete_grant-Keeps id)
