-- ===== src/Model/Invariant.antt =====
-- What holds of the database between two statements.
pub mod Channels
use modex_cloud.Prelude.{
  ℕ, suc, ◌+◌, ◌<◌, ◌≤◌, ◌≡◌, ◌≢◌, refl, sym, Bool, List, [], ◌∷◌, ◌++◌, All, map_where,
  if◌then◌else◌, arith, All-append, All-map_where, All-map, true, false,
}
use modex_cloud.Prelude.Int.{ℤ, pos, pos_part, neg_part}
use modex_cloud.Constant.{KeyState, synced}
use modex_cloud.Model.Schema.{Channel, Grant}
use modex_cloud.Model.World.{World, Table}

-- A channel that is recorded as synced has no sealed key.
abbrev pub IsWiped : Channel → Type 0
IsWiped r = r.key_state ≡ synced → r.enc_key ≡ []

-- An id that the table has handed out.
abbrev pub IsBelow : ℕ → Channel → Type 0
IsBelow n r = (neg_part r.id ≡ 0) × (pos_part r.id < n)

abbrev pub HasOtherId : Channel → Channel → Type 0
HasOtherId r s = r.id ≢ s.id

-- No two rows have one id.
abbrev pub Distinct : List Channel → Type 0
Distinct [] = Unit
Distinct (r ∷ rs) = All (HasOtherId r) rs × Distinct rs

pub record IsSound (t : Table Channel) : Type 0 where
  pub wiped : All IsWiped t.rows
  pub below : All (IsBelow t.next) t.rows
  pub distinct : Distinct t.rows

-- What every action keeps.
pub record IsValid (w : World) : Type 0 where
  pub channels : IsSound w.channels

-- An update of rows that leaves the ids alone, and that keeps "synced means wiped".
module _ (p : Channel → Bool) (f : Channel → Channel) (same : (r : Channel) → (f r).id ≡ r.id) where
  if_same : (b : Bool) (r : Channel) → (if b then f r else r).id ≡ r.id
  if_same true r = same r
  if_same false r = refl

  HasOtherId-map_where :
      (r : Channel) (rs : List Channel)
      → All (HasOtherId r) rs
      → All (HasOtherId (if p r then f r else r)) (map_where p f rs)
  HasOtherId-map_where r [] h = tt
  HasOtherId-map_where r (s ∷ rs) (h, hs) =
      (λ e. h (rw (if_same (p r) r, if_same (p s) s) at e), HasOtherId-map_where r rs hs)

  Distinct-map_where : (rs : List Channel) → Distinct rs → Distinct (map_where p f rs)
  Distinct-map_where [] h = tt
  Distinct-map_where (r ∷ rs) (h, hs) = (HasOtherId-map_where r rs h, Distinct-map_where rs hs)

  pub IsSound-map_where :
      (t : Table Channel)
      → ((r : Channel) → IsWiped r → IsWiped (f r))
      → IsSound t
      → IsSound (record { rows = map_where p f t.rows; next = t.next })
  IsSound-map_where t keep s = record {
    wiped = All-map_where IsWiped p f keep t.rows s.wiped;
    below = All-map_where (IsBelow t.next) p f (λ r b. rw (same r) b) t.rows s.below;
    distinct = Distinct-map_where t.rows s.distinct;
  }

Distinct-append :
    (n : ℕ) (rs : List Channel) (c : Channel)
    → c.id ≡ pos n
    → All (IsBelow n) rs
    → Distinct rs
    → Distinct (rs ++ c ∷ [])
Distinct-append n [] c e b d = (tt, tt)
Distinct-append n (r ∷ rs) c e (b, bs) (d, ds) =
    (All-append (HasOtherId r) rs c d (λ q. ground arith), Distinct-append n rs c e bs ds)

pub IsSound-append :
    (t : Table Channel) (c : Channel)
    → c.id ≡ pos t.next
    → IsWiped c
    → IsSound t
    → IsSound (record { rows = t.rows ++ c ∷ []; next = t.next + 1 })
IsSound-append t c e k s = record {
  wiped = All-append IsWiped t.rows c s.wiped k;
  below =
      All-append (IsBelow (t.next + 1)) t.rows c
        (All-map {P = IsBelow t.next} (λ r b. (b.0, omega arith)) t.rows s.below) (ground arith);
  distinct = Distinct-append t.next t.rows c e s.below s.distinct;
}
