-- ===== src/Controller/Flow/Meets.antt =====
-- What holds of the state after a handler that is answered with success.
use modex_cloud.Prelude.{ℕ, ◌≡◌, refl, Bool, true, false, Option, none, some, if◌then◌else◌, arith}
use modex_cloud.Text.{Text}
use modex_cloud.Model.World.{World, Error, Action, Result, ok, err}
use modex_cloud.Controller.Flow.{
  Response, Outcome, next, replied, Flow, Handler, ◌>>=◌, go_on, serve, response_of, refuse_if,
  require, or_reply, or_default, perform, proceed, reply_error, api_error,
}
use modex_cloud.Controller.Flow.Keeps.{FlowKeeps}

-- Where the flow replies early, it is with an error.
pub record Refuses {A : Type 0} (m : Flow A) : Type 0 where
  pub refuses : (w : World) (r : Response) → (m w).0 ≡ replied r → r.success ≡ false

-- From a state with `P`, the flow ends with an error, or in a state with `S`.
pub record Meets (P S : World → Type 0) (m : Flow Response) : Type 0 where
  pub at : (w : World) → P w → (response_of (m w).0).success ≡ true → S (m w).1

-- So for a handler.
pub record Ends (P S : World → Type 0) (h : Handler) : Type 0 where
  pub at : (w : World) → P w → (h w).0.success ≡ true → S (h w).1

pub Ends-serve : {P S : World → Type 0} (m : Flow Response) → Meets P S m → Ends P S (serve m)
Ends-serve m k = record { at = λ w p h. k.at w p h }

module _ {A : Type 0} {P S : World → Type 0} where
  pub Meets->>= :
      (m : Flow A) (f : A → Flow Response)
      → FlowKeeps P m
      → Refuses m
      → ((a : A) → Meets P S (f a))
      → Meets P S (m >>= f)
  Meets->>= m f km rm kf = record {
    at = λ w p. go (m w).0 (m w).1 (km.at w p) (λ r e. rm.refuses w r e);
  }
    where
      go :
          (o : Outcome A) (v : World)
          → P v
          → ((r : Response) → o ≡ replied r → r.success ≡ false)
          → (response_of (go_on o f v).0).success ≡ true
          → S (go_on o f v).1
      go (next a) v p s h = (kf a).at v p h
      go (replied r) v p s h = absurd (let fails = s r refl in ground arith)

  pub Meets-require :
      (o : Option A) (status : ℕ) (message : Text) (f : A → Flow Response)
      → ((a : A) → o ≡ some a → Meets P S (f a))
      → Meets P S (require o (api_error status message) >>= f)
  unfolding api_error
  Meets-require none status message f k = record { at = λ w p h. absurd (ground arith) }
  Meets-require (some a) status message f k = record { at = λ w p h. (k a refl).at w p h }

  -- A statement whose result is relied on.
  pub Meets-reads :
      (m : Action A) (h : Error → Response) (f : A → Flow Response) (T : A → World → Type 0)
      → ((e : Error) → (h e).success ≡ false)
      → ((w : World) (a : A) → P w → (m w).0 ≡ ok a → T a (m w).1)
      → ((a : A) → Meets (T a) S (f a))
      → Meets P S (or_reply m h >>= f)
  Meets-reads m h f T fails reads kf = record {
    at = λ w p. go (m w).0 (m w).1 (λ a e. reads w a p e);
  }
    where
      go :
          (o : Result A) (v : World)
          → ((a : A) → o ≡ ok a → T a v)
          → (response_of (go_on (reply_error o h) f v).0).success ≡ true
          → S (go_on (reply_error o h) f v).1
      go (ok a) v s k = (kf a).at v (s a refl) k
      go (err e) v s k = absurd (let q = fails e in ground arith)

pub refused : (status : ℕ) (message : Text) → (api_error status message).success ≡ false
unfolding api_error
refused status message = refl

module _ {A : Type 0} where
  pub Refuses-require :
      (o : Option A) (status : ℕ) (message : Text) → Refuses (require o (api_error status message))
  unfolding api_error
  Refuses-require none status message = record { refuses = λ w r e. ground arith }
  Refuses-require (some a) status message = record { refuses = λ w r e. cc }

  pub Refuses-or_reply :
      (m : Action A) (h : Error → Response)
      → ((e : Error) → (h e).success ≡ false)
      → Refuses (or_reply m h)
  Refuses-or_reply m h fails = record { refuses = λ w r e. go (m w).0 r e }
    where
      go : (o : Result A) (r : Response) → reply_error o h ≡ replied r → r.success ≡ false
      go (ok a) r e = cc
      go (err x) r e = let q = fails x in ground arith

  pub Refuses-or_default : (m : Action A) (d : A) → Refuses (or_default m d)
  Refuses-or_default m d = record { refuses = λ w r e. cc }

  pub Refuses-perform : (m : Action A) → Refuses (perform m)
  Refuses-perform m = record { refuses = λ w r e. cc }

pub Refuses-proceed : Refuses proceed
Refuses-proceed = record { refuses = λ w r e. cc }

module _ {A : Type 0} where
  pub Refuses-if : (b : Bool) (m n : Flow A) → Refuses m → Refuses n → Refuses (if b then m else n)
  Refuses-if true m n rm rn = rm
  Refuses-if false m n rm rn = rn

module _ {A B : Type 0} where
  pub Refuses->>= :
      (m : Flow A) (f : A → Flow B) → Refuses m → ((a : A) → Refuses (f a)) → Refuses (m >>= f)
  Refuses->>= m f rm rf = record {
    refuses = λ w r e. go (m w).0 (m w).1 (λ x q. rm.refuses w x q) r e;
  }
    where
      go :
          (o : Outcome A) (v : World)
          → ((x : Response) → o ≡ replied x → x.success ≡ false)
          → (r : Response) → (go_on o f v).0 ≡ replied r
          → r.success ≡ false
      go (next a) v s r e = (rf a).refuses v r e
      go (replied x) v s r e = let q = s x refl in ground arith

pub Refuses-refuse_if :
    (b : Bool) (status : ℕ) (message : Text) → Refuses (refuse_if b (api_error status message))
unfolding api_error
Refuses-refuse_if true status message = record { refuses = λ w r e. ground arith }
Refuses-refuse_if false status message = record { refuses = λ w r e. cc }

pub ruleset meets_rules = (
  Ends-serve, Meets->>=, refused, Refuses-if, Refuses->>=, Refuses-proceed, Refuses-require,
  Refuses-or_reply, Refuses-or_default, Refuses-perform, Refuses-refuse_if,
)
