-- ===== src/Controller/Flow.antt =====
-- Handlers as sequences of steps that may reply and stop, the response envelope of
-- common/response.go, and the small helpers that the handlers share.
pub mod Keeps
pub mod Meets
use modex_cloud.Prelude.{ℕ, Bool, true, false, Option, none, some, [], if◌then◌else◌}
use modex_cloud.Prelude.Int.{ℤ, pos, int_eq, leb_ℤ}
use modex_cloud.Text.{Text, atoi}
use modex_cloud.Wire.{Json, null}
use modex_cloud.Model.World.{World, Error, Result, ok, err, Action}

pub record Response : Type 0 where
  pub status : ℕ
  pub success : Bool
  pub message : Text
  pub data_json : Json

unfoldable pub api_success : Json → Response
api_success v = record { status = 200; success = true; message = []; data_json = v }

unfoldable pub api_error : ℕ → Text → Response
api_error status message = record {
  status = status;
  success = false;
  message = message;
  data_json = null;
}

-- The same response, after which no handler runs.
unfoldable pub abort_error : ℕ → Text → Response
abort_error status message = record {
  status = status;
  success = false;
  message = message;
  data_json = null;
}

-- What a handler reads from the request's context: the authenticated principal, the client's
-- address, the path parameter `id` and the query parameters.
pub record Context : Type 0 where
  pub user_id : ℤ
  pub username : Text
  pub client_ip : Text
  pub id_param : Text
  pub query : Text → Text

pub data Outcome {ℓ} (A : Type ℓ) : Type ℓ where
  replied : Response → Outcome A
  next : A → Outcome A

abbrev pub Flow {ℓ} : Type ℓ → Type ℓ
Flow A = World → Outcome A × World

abbrev pub Handler : Type 0
Handler = World → Response × World

abbrev pub go_on {ℓ κ} : {A : Type ℓ} {B : Type κ} → Outcome A → (A → Flow B) → Flow B
go_on (next a) f w = f a w
go_on (replied e) f w = (replied e, w)

infixl 5 ◌>>=◌ ◌>>◌
abbrev pub ◌>>=◌ {ℓ κ} : {A : Type ℓ} {B : Type κ} → Flow A → (A → Flow B) → Flow B
◌>>=◌ m f w = let (r, w') = m w in go_on r f w'

abbrev pub ◌>>◌ {ℓ} : {B : Type ℓ} → Flow (Unit {0}) → Flow B → Flow B
m >> k = m >>= λ _. k

abbrev pub response_of : Outcome Response → Response
response_of (next a) = a
response_of (replied a) = a

abbrev pub serve : Flow Response → Handler
serve m w = let (r, w') = m w in (response_of r, w')

abbrev pub answer : Response → Flow Response
answer r w = (next r, w)

-- A step that does nothing, with a result.
abbrev pub give : {A : Type 0} → A → Flow A
give a w = (next a, w)

abbrev pub proceed : Flow (Unit {0})
proceed w = (next tt, w)

abbrev pub refuse_if : Bool → Response → Flow (Unit {0})
refuse_if c r w = ((if c then replied r else next tt), w)

module _ {ℓ} {A : Type ℓ} where
  abbrev pub require : Option A → Response → Flow A
  require none r w = (replied r, w)
  require (some a) r w = (next a, w)

  abbrev pub reply_error : Result A → (Error → Response) → Outcome A
  reply_error (ok a) h = next a
  reply_error (err e) h = replied (h e)

  abbrev pub value_or : Result A → A → A
  value_or (ok a) d = a
  value_or (err e) d = d

  -- `if err != nil { reply; return }`
  abbrev pub or_reply : Action A → (Error → Response) → Flow A
  or_reply m h w = let (r, w') = m w in (reply_error r h, w')

  -- `v, _ := action`, with the zero value on an error.
  abbrev pub or_default : Action A → A → Flow A
  or_default m d w = let (r, w') = m w in (next (value_or r d), w')

  -- `_ = action`
  abbrev pub perform : Action A → Flow (Unit {0})
  perform m w = (next tt, (m w).1)

-- `pathId`
unfoldable pub path_id : Context → Option ℤ
path_id c = elim (atoi c.id_param) [
  | none ↦ none
  | some id ↦ if leb_ℤ id (pos 0) then none else some id
]
