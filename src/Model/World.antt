-- ===== src/Model/World.antt =====
-- The state that the program reads and writes, and the database statements it is made of.
--
-- GORM and the database server are not part of the repository. A statement is the Go code's
-- where-clause as a test on rows and its map of updates as a function on rows, run on tables that
-- list their rows in the order of their primary keys. Any statement may fail, as the stream
-- `faults` chooses; one that fails changes no row.
pub mod Keeps
use modex_cloud.Prelude.{
  ◌≡◌, refl, ◌⊎◌, inl, inr, arith, ap, ℕ, ◌+◌, Bool, true, false, Option, none, some, List, ◌++◌,
  if◌then◌else◌,
}
use modex_cloud.Prelude.Int.{ℤ}
use modex_cloud.Text.{Text, text}
use modex_cloud.Wire.{HttpRequest, Reply}
use modex_cloud.Model.Schema.{Channel, Platform, Grant, User, AuditLog}

-- Go's `error` values: the sentinels of package model, a failed statement, and formatted errors.
pub data Error : Type 0 where
  channel_not_found platform_not_found platform_in_use grant_not_found user_not_found : Error
  database duplicate : Error
  unreachable : Text → Error
  errorf : Text → Error
  wrap : Text → Error → Error

-- `err.Error()`.
unfoldable pub error_text : Error → Text
error_text channel_not_found = text "channel not found"
error_text platform_not_found = text "platform not found"
error_text platform_in_use = text "platform still has channels and cannot be deleted"
error_text grant_not_found = text "grant not found"
error_text user_not_found = text "user not found"
error_text database = text "database error"
error_text duplicate = text "UNIQUE constraint failed"
error_text (unreachable t) = t
error_text (errorf t) = t
error_text (wrap t e) = t ++ (text ": " ++ error_text e)

pub data Result {ℓ} (A : Type ℓ) : Type ℓ where
  ok : A → Result A
  err : Error → Result A

pub record Table (R : Type 0) : Type 0 where
  pub rows : List R
  pub next : ℕ

pub record World : Type 0 where
  pub users : Table User
  pub platforms : Table Platform
  pub grants : Table Grant
  pub channels : Table Channel
  pub audits : Table AuditLog
  -- `time.Now().Unix()`
  pub clock : ℕ
  -- which database statements fail, and how many have run
  pub faults : ℕ → Bool
  pub calls : ℕ
  -- the bytes of `crypto/rand`, one draw at a time, `none` where reading fails
  pub entropy : ℕ → Option (ℕ → ℕ)
  pub draws : ℕ
  -- the downstream platforms: the replies in the order of the requests, and the requests sent so
  -- far, the latest first
  pub http : ℕ → Reply
  pub sent : List HttpRequest
  -- the channels whose background sync has been dispatched and has not begun
  pub jobs : List ℤ

abbrev pub Action {ℓ} : Type ℓ → Type ℓ
Action A = World → Result A × World

module _ {ℓ} {A : Type ℓ} where
  abbrev pub pure : A → Action A
  pure a w = (ok a, w)

  abbrev pub raise : Error → Action A
  raise e w = (err e, w)

-- `if err != nil { … }` where both ways go on with an action.
abbrev pub on_result {ℓ κ} :
    {A : Type ℓ} {B : Type κ} → Result A → (Error → Action B) → (A → Action B) → Action B
on_result (ok a) h k = k a
on_result (err e) h k = h e

abbrev pub attempt {ℓ κ} :
    {A : Type ℓ} {B : Type κ} → Action A → (Error → Action B) → (A → Action B) → Action B
attempt m h k w = let (r, w') = m w in on_result r h k w'

infixl 5 ◌>>=◌ ◌>>◌
abbrev pub ◌>>=◌ {ℓ κ} : {A : Type ℓ} {B : Type κ} → Action A → (A → Action B) → Action B
m >>= f = attempt m raise f

abbrev pub ◌>>◌ {ℓ} : {B : Type ℓ} → Action (Unit {0}) → Action B → Action B
m >> k = m >>= λ _. k

abbrev pub tick : World → World
tick w = record w { calls = w.calls + 1 }

-- One statement that reads.
abbrev pub query {ℓ} : {A : Type ℓ} → (World → A) → Action A
query f w = elim (w.faults w.calls) [ true ↦ (err database, tick w) | false ↦ (ok (f w), tick w) ]

-- One statement that writes.
abbrev pub exec : (World → World) → Action (Unit {0})
exec f w = elim (w.faults w.calls) [ true ↦ (err database, tick w) | false ↦ (ok tt, tick (f w)) ]

-- One statement that writes and reports how many rows it has changed.
abbrev pub exec_affecting : (World → ℕ) → (World → World) → Action ℕ
exec_affecting n f w = elim (w.faults w.calls) [
  | true ↦ (err database, tick w)
  | false ↦ (ok (n w), tick (f w))
]

-- One statement that inserts, and is refused where a unique index would be violated.
abbrev pub exec_unique : (World → Bool) → (World → World) → Action (Unit {0})
exec_unique clash f w = elim (w.faults w.calls) [
  | true ↦ (err database, tick w)
  | false ↦ elim (clash w) [ true ↦ (err duplicate, tick w) | false ↦ (ok tt, tick (f w)) ]
]

-- One statement that reads a row: `First`, with `ErrRecordNotFound` turned into the given error.
abbrev pub first : {R : Type 0} → (World → Option R) → Error → Action R
first f missing w = elim (w.faults w.calls) [
  | true ↦ (err database, tick w)
  | false ↦ elim (f w) [ none ↦ (err missing, tick w) | some r ↦ (ok r, tick w) ]
]

-- `_ = action`
abbrev pub ignore {ℓ} : {A : Type ℓ} → Action A → Action (Unit {0})
ignore m w = (ok tt, (m w).1)

-- `nowUnix`
abbrev pub now_unix : Action ℕ
now_unix w = (ok w.clock, w)

-- No statement fails.
abbrev pub IsQuiet : World → Type 0
IsQuiet w = (n : ℕ) → w.faults n ≡ false

-- A chain whose first step is known.
module _ {A B : Type 0} (m : Action A) (f : A → Action B) (w : World) {v : World} where
  pub >>=_of_ok : {a : A} → m w ≡ (ok a, v) → (m >>= f) w ≡ f a v
  >>=_of_ok p = ap (λ x. on_result x.0 raise f x.1) p

  pub >>=_of_err : {e : Error} → m w ≡ (err e, v) → (m >>= f) w ≡ (err e, v)
  >>=_of_err p = ap (λ x. on_result x.0 raise f x.1) p

-- A read of a row fails, or hands out the row.
pub first-cases :
    {R : Type 0} (f : World → Option R) (missing : Error) (w : World)
    → ((e : Error) × (first f missing w ≡ (err e, tick w)))
      ⊎ ((r : R) × (f w ≡ some r) × (first f missing w ≡ (ok r, tick w)))
first-cases f missing w = cases (w.faults w.calls) refl (f w) refl
  where
    cases :
        (b : Bool)
        → w.faults w.calls ≡ b
        → (o : Option _) → f w ≡ o
        → ((e : Error) × (first f missing w ≡ (err e, tick w)))
          ⊎ ((r : _) × (f w ≡ some r) × (first f missing w ≡ (ok r, tick w)))
    cases true q o h = inl (database, ground arith)
    cases false q none h = inl (missing, ground arith)
    cases false q (some r) h = inr (r, h, ground arith)
