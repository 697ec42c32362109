-- ===== src/Controller/Flow/Keeps.antt =====
-- Properties of the state that handlers keep, one rule for each kind of step.
use modex_cloud.Prelude.{Bool, true, false, Option, none, some, if◌then◌else◌, ◌≡◌, refl}
use modex_cloud.Model.World.{World, Error, Action, Result, ok, err}
use modex_cloud.Model.World.Keeps.{Keeps}
use modex_cloud.Controller.Flow.{
  Response, Outcome, next, replied, Flow, Handler, ◌>>=◌, go_on, serve, answer, give, proceed,
  refuse_if, require, or_reply, or_default, perform, reply_error,
}

-- `m` keeps `P`, whether it goes on or replies.
pub record FlowKeeps {A : Type 0} (P : World → Type 0) (m : Flow A) : Type 0 where
  pub at : (w : World) → P w → P (m w).1

-- The state after a handler.
pub record Serves (P : World → Type 0) (h : Handler) : Type 0 where
  pub at : (w : World) → P w → P (h w).1

module _ {A B : Type 0} {P : World → Type 0} where
  pub FlowKeeps->>= :
      (m : Flow A) (f : A → Flow B)
      → FlowKeeps P m
      → ((a : A) → FlowKeeps P (f a))
      → FlowKeeps P (m >>= f)
  FlowKeeps->>= m f km kf = record { at = λ w p. go (m w).0 (m w).1 (km.at w p) }
    where
      go : (r : Outcome A) (v : World) → P v → P (go_on r f v).1
      go (next a) v p = (kf a).at v p
      go (replied e) v p = p

module _ {P : World → Type 0} where
  pub Serves-serve : (m : Flow Response) → FlowKeeps P m → Serves P (serve m)
  Serves-serve m k = record { at = λ w p. k.at w p }

  pub FlowKeeps-answer : (r : Response) → FlowKeeps P (answer r)
  FlowKeeps-answer r = record { at = λ w p. p }

  pub FlowKeeps-proceed : FlowKeeps P proceed
  FlowKeeps-proceed = record { at = λ w p. p }

  pub FlowKeeps-refuse_if : (c : Bool) (r : Response) → FlowKeeps P (refuse_if c r)
  FlowKeeps-refuse_if c r = record { at = λ w p. p }

module _ {A : Type 0} {P : World → Type 0} where
  pub FlowKeeps-give : (a : A) → FlowKeeps P (give a)
  FlowKeeps-give a = record { at = λ w p. p }

  pub FlowKeeps-require : (o : Option A) (r : Response) → FlowKeeps P (require o r)
  FlowKeeps-require none r = record { at = λ w p. p }
  FlowKeeps-require (some a) r = record { at = λ w p. p }

  pub FlowKeeps-or_reply :
      (m : Action A) (h : Error → Response) → Keeps P m → FlowKeeps P (or_reply m h)
  FlowKeeps-or_reply m h k = record { at = λ w p. k.at w p }

  pub FlowKeeps-or_default : (m : Action A) (d : A) → Keeps P m → FlowKeeps P (or_default m d)
  FlowKeeps-or_default m d k = record { at = λ w p. k.at w p }

  pub FlowKeeps-perform : (m : Action A) → Keeps P m → FlowKeeps P (perform m)
  FlowKeeps-perform m k = record { at = λ w p. k.at w p }

  pub FlowKeeps-if :
      (c : Bool) (m n : Flow A) → FlowKeeps P m → FlowKeeps P n → FlowKeeps P (if c then m else n)
  FlowKeeps-if true m n km kn = km
  FlowKeeps-if false m n km kn = kn

-- Steps whose outcome the next steps rely on.
module _ {B : Type 0} {P : World → Type 0} where
  pub FlowKeeps-refused :
      (c : Bool) (r : Response) (f : Unit {0} → Flow B)
      → (c ≡ false → FlowKeeps P (f tt))
      → FlowKeeps P (refuse_if c r >>= f)
  FlowKeeps-refused true r f k = record { at = λ w p. p }
  FlowKeeps-refused false r f k = record { at = λ w p. (k refl).at w p }

module _ {A B : Type 0} {P : World → Type 0} where
  pub FlowKeeps-reads :
      (m : Action A) (h : Error → Response) (f : A → Flow B) (R : A → Type 0)
      → Keeps P m
      → ((w : World) (a : A) → P w → (m w).0 ≡ ok a → R a)
      → ((a : A) → R a → FlowKeeps P (f a))
      → FlowKeeps P (or_reply m h >>= f)
  FlowKeeps-reads m h f R km read kf = record {
    at = λ w p. go (m w).0 (m w).1 (km.at w p) (λ a e. read w a p e);
  }
    where
      go :
          (r : Result A) (v : World)
          → P v
          → ((a : A) → r ≡ ok a → R a)
          → P (go_on (reply_error r h) f v).1
      go (ok a) v p s = (kf a (s a refl)).at v p
      go (err e) v p s = p

pub ruleset flow_rules = (
  FlowKeeps-if, FlowKeeps->>=, FlowKeeps-answer, FlowKeeps-proceed, FlowKeeps-refuse_if,
  FlowKeeps-require, FlowKeeps-or_reply, FlowKeeps-or_default, FlowKeeps-perform, Serves-serve,
)
