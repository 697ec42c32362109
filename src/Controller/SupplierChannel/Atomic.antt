-- ===== src/Controller/SupplierChannel/Atomic.antt =====
-- A creation or a deletion that is not answered with success has changed no channel.
use modex_cloud.Prelude.{map_where_none, ◌≡◌, refl, ◌∙◌, true, false, Option, nat_eq, arith}
use modex_cloud.Prelude.Int.{ℤ}
use modex_cloud.Wire.{Json}
use modex_cloud.Model.Schema.{Channel}
use modex_cloud.Model.World.{World, Table, Error, Result, ok, err, Action}
use modex_cloud.Controller.Flow.{
  Response, Context, Flow, Handler, Outcome, next, replied, ◌>>=◌, go_on, serve, response_of,
  answer, or_reply, perform, api_success, reply_error,
}
use modex_cloud.Controller.Flow.Keeps.{FlowKeeps, flow_rules}
use modex_cloud.Model.Channel.{create, soft_delete_for_user, owned, as_deleted}
use modex_cloud.Model.Channel.Rows.{SameRows}
use modex_cloud.Controller.SupplierChannel.{
  Deps, CreateChannelRequest, create_channel, seal_and_store, delete_channel,
}
use modex_cloud.Controller.SupplierChannel.Reads.{read_rules, check_upload-Keeps, check_limit-Keeps}

-- Where the flow does not end in success, `P` holds still.
pub record IsSafe (P : World → Type 0) (m : Flow Response) : Type 0 where
  pub at : (w : World) → P w → (response_of (m w).0).success ≡ false → P (m w).1

pub record IsAllOrNothing (P : World → Type 0) (h : Handler) : Type 0 where
  pub at : (w : World) → P w → (h w).0.success ≡ false → P (h w).1

-- Whatever happens, the flow ends in success.
pub record IsSure (m : Flow Response) : Type 0 where
  pub sure : (w : World) → (response_of (m w).0).success ≡ true

-- `P` holds still where the action fails.
pub record IsAtomic {A : Type 0} (P : World → Type 0) (m : Action A) : Type 0 where
  pub failed : (w : World) → P w → (e : Error) → (m w).0 ≡ err e → P (m w).1

IsSure-answer : (j : Json) → IsSure (answer (api_success j))
unfolding api_success
IsSure-answer j = record { sure = λ w. refl }

IsSure-perform :
    {A : Type 0} (m : Action A) (f : Unit {0} → Flow Response)
    → ((u : Unit {0}) → IsSure (f u))
    → IsSure (perform m >>= f)
IsSure-perform m f k = record { sure = λ w. (k tt).sure (m w).1 }

module _ {A : Type 0} {P : World → Type 0} where
  IsSafe->>= :
      (m : Flow A) (f : A → Flow Response)
      → FlowKeeps P m
      → ((a : A) → IsSafe P (f a))
      → IsSafe P (m >>= f)
  IsSafe->>= m f km kf = record { at = λ w p. go (m w).0 (m w).1 (km.at w p) }
    where
      go :
          (r : Outcome A) (v : World)
          → P v
          → (response_of (go_on r f v).0).success ≡ false
          → P (go_on r f v).1
      go (next a) v p h = (kf a).at v p h
      go (replied e) v p h = p

  IsSafe-or_reply :
      (m : Action A) (h : Error → Response) (f : A → Flow Response)
      → IsAtomic P m
      → ((a : A) → IsSure (f a))
      → IsSafe P (or_reply m h >>= f)
  IsSafe-or_reply m h f km kf = record { at = λ w p. go (m w).0 (m w).1 (λ e q. km.failed w p e q) }
    where
      go :
          (r : Result A) (v : World)
          → ((e : Error) → r ≡ err e → P v)
          → (response_of (go_on (reply_error r h) f v).0).success ≡ false
          → P (go_on (reply_error r h) f v).1
      go (ok a) v p s = ground (arith, (kf a).sure v)
      go (err e) v p s = p e refl

abbrev pub Unchanged : Table Channel → World → Type 0
Unchanged t w = w.channels ≡ t

Unchanged-same : (t : Table Channel) (v w : World) → SameRows v w → Unchanged t v → Unchanged t w
Unchanged-same t v w e h = e.channels ∙ h

create-IsAtomic : (t : Table Channel) (c : Channel) → IsAtomic (Unchanged t) (create c)
unfolding create
create-IsAtomic t c = record { failed = λ w p e h. ground arith }

soft_delete-IsAtomic :
    (t : Table Channel) (id user : ℤ) → IsAtomic (Unchanged t) (soft_delete_for_user id user)
unfolding soft_delete_for_user
soft_delete-IsAtomic t id user = record {
  failed = λ w p e h.
      ground (arith, map_where_none (owned id user) (as_deleted w.clock) w.channels.rows, p);
}

IsAllOrNothing-serve :
    {P : World → Type 0} (m : Flow Response) → IsSafe P m → IsAllOrNothing P (serve m)
IsAllOrNothing-serve m k = record { at = λ w p h. k.at w p h }

ruleset atomic_rules = (
  read_rules, flow_rules, IsSafe->>=, IsSafe-or_reply, IsSure-perform, IsSure-answer,
  IsAllOrNothing-serve,
)

module _ (deps : Deps) (t : Table Channel) where
  create_channel-IsAllOrNothing :
      (c : Context) (body : Option CreateChannelRequest)
      → IsAllOrNothing (Unchanged t) (create_channel deps c body)
  unfolding create_channel seal_and_store
  create_channel-IsAllOrNothing c body =
      search
        (atomic_rules, Unchanged-same t, check_upload-Keeps, check_limit-Keeps, create-IsAtomic t)
        depth 60

  delete_channel-IsAllOrNothing : (c : Context) → IsAllOrNothing (Unchanged t) (delete_channel c)
  unfolding delete_channel
  delete_channel-IsAllOrNothing c = search (atomic_rules, soft_delete-IsAtomic t) depth 60

-- A request to create or to delete a channel that is answered with an error, whatever the request
-- is and whichever statements fail, leaves the table of channels as it was.
pub failed_requests_change_nothing :
    (deps : Deps) (t : Table Channel) (c : Context) (body : Option CreateChannelRequest)
    → IsAllOrNothing (Unchanged t) (create_channel deps c body)
      × IsAllOrNothing (Unchanged t) (delete_channel c)
failed_requests_change_nothing deps t c body =
    (create_channel-IsAllOrNothing deps t c body, delete_channel-IsAllOrNothing deps t c)
