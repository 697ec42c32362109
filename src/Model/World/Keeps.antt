-- ===== src/Model/World/Keeps.antt =====
-- Properties of the state that actions keep, one rule for each way to build an action.
use modex_cloud.Prelude.{
  ◌≡◌, refl, ℕ, Bool, true, false, if◌then◌else◌, Option, inl, inr, Bool-cases, Option-cases,
}
use modex_cloud.Model.World.{
  World, Error, Result, ok, err, Action, pure, raise, ◌>>=◌, ◌>>◌, on_result, attempt, ignore,
  query, exec, first, exec_affecting, exec_unique, tick,
}

-- `m` keeps `P`, whether it returns or raises.
pub record Keeps {A : Type 0} (P : World → Type 0) (m : Action A) : Type 0 where
  pub at : (w : World) → P w → P (m w).1

module _ {A B : Type 0} {P : World → Type 0} where
  pub Keeps-on_result :
      (r : Result A) (h : Error → Action B) (k : A → Action B)
      → ((e : Error) → Keeps P (h e))
      → ((a : A) → Keeps P (k a))
      → Keeps P (on_result r h k)
  Keeps-on_result (ok a) h k kh kk = kk a
  Keeps-on_result (err e) h k kh kk = kh e

  pub Keeps-attempt :
      (m : Action A) (h : Error → Action B) (k : A → Action B)
      → Keeps P m
      → ((e : Error) → Keeps P (h e))
      → ((a : A) → Keeps P (k a))
      → Keeps P (attempt m h k)
  Keeps-attempt m h k km kh kk = record {
    at = λ w p. (Keeps-on_result (m w).0 h k kh kk).at (m w).1 (km.at w p);
  }

module _ {A : Type 0} {P : World → Type 0} where
  pub Keeps-pure : (a : A) → Keeps P (pure a)
  Keeps-pure a = record { at = λ w p. p }

  pub Keeps-raise : (e : Error) → Keeps P (raise {A = A} e)
  Keeps-raise e = record { at = λ w p. p }

  pub Keeps-ignore : (m : Action A) → Keeps P m → Keeps P (ignore m)
  Keeps-ignore m k = record { at = λ w p. k.at w p }

  pub Keeps-if : (b : Bool) (m n : Action A) → Keeps P m → Keeps P n → Keeps P (if b then m else n)
  Keeps-if true m n km kn = km
  Keeps-if false m n km kn = kn

module _ {A B : Type 0} {P : World → Type 0} where
  pub Keeps->>= :
      (m : Action A) (f : A → Action B) → Keeps P m → ((a : A) → Keeps P (f a)) → Keeps P (m >>= f)
  Keeps->>= m f km kf = Keeps-attempt m raise f km (λ e. Keeps-raise e) kf

-- A step whose result the next steps rely on.
module _ {A B : Type 0} {P : World → Type 0} where
  pub Keeps-reads :
      (m : Action A) (f : A → Action B) (R : A → Type 0)
      → Keeps P m
      → ((w : World) (a : A) → P w → (m w).0 ≡ ok a → R a)
      → ((a : A) → R a → Keeps P (f a))
      → Keeps P (m >>= f)
  Keeps-reads m f R km read kf = record {
    at = λ w p. go (m w).0 (m w).1 (km.at w p) (λ a e. read w a p e);
  }
    where
      go :
          (r : Result A) (v : World)
          → P v
          → ((a : A) → r ≡ ok a → R a)
          → P (on_result r raise f v).1
      go (ok a) v p s = (kf a (s a refl)).at v p
      go (err e) v p s = p

-- The rules for statements, for a property that does not look at the count of statements.
module _ {P : World → Type 0} (ticks : (w : World) → P w → P (tick w)) where
  pub Keeps-query : {A : Type 0} (f : World → A) → Keeps P (query f)
  Keeps-query f = record {
    at = λ w p. elim (Bool-cases (w.faults w.calls)) [
      | inl e ↦ rw (e, query) (ticks w p)
      | inr e ↦ rw (e, query) (ticks w p)
    ];
  }

  pub Keeps-first :
      {R : Type 0} (f : World → Option R) (missing : Error) → Keeps P (first f missing)
  Keeps-first f missing = record {
    at = λ w p. elim (Bool-cases (w.faults w.calls)) [
      | inl e ↦ rw (e, first) (ticks w p)
      | inr e ↦ elim (Option-cases (f w)) [
        | inl g ↦ rw (e, g, first) (ticks w p)
        | inr (r, g) ↦ rw (e, g, first) (ticks w p)
      ]
    ];
  }

  module _ (f : World → World) (keep : (w : World) → P w → P (f w)) where
    pub Keeps-exec : Keeps P (exec f)
    Keeps-exec = record {
      at = λ w p. elim (Bool-cases (w.faults w.calls)) [
        | inl e ↦ rw (e, exec) (ticks w p)
        | inr e ↦ rw (e, exec) (ticks (f w) (keep w p))
      ];
    }

    pub Keeps-exec_affecting : (n : World → ℕ) → Keeps P (exec_affecting n f)
    Keeps-exec_affecting n = record {
      at = λ w p. elim (Bool-cases (w.faults w.calls)) [
        | inl e ↦ rw (e, exec_affecting) (ticks w p)
        | inr e ↦ rw (e, exec_affecting) (ticks (f w) (keep w p))
      ];
    }

    pub Keeps-exec_unique : (clash : World → Bool) → Keeps P (exec_unique clash f)
    Keeps-exec_unique clash = record {
      at = λ w p. elim (Bool-cases (w.faults w.calls)) [
        | inl e ↦ rw (e, exec_unique) (ticks w p)
        | inr e ↦ elim (Bool-cases (clash w)) [
          | inl g ↦ rw (e, g, exec_unique) (ticks w p)
          | inr g ↦ rw (e, g, exec_unique) (ticks (f w) (keep w p))
        ]
      ];
    }

pub ruleset keeps_rules =
    (Keeps-pure, Keeps-raise, Keeps-ignore, Keeps-if, Keeps->>=, Keeps-attempt, Keeps-on_result)

-- A statement at one state: it fails, or it writes.
pub exec_at :
    (P : World → Type 0) (f : World → World) (w : World)
    → P (tick w)
    → P (tick (f w))
    → P (exec f w).1
exec_at P f w failed done = elim (Bool-cases (w.faults w.calls)) [
  | inl e ↦ rw (e, exec) failed
  | inr e ↦ rw (e, exec) done
]

pub then-pure :
    {A : Type 0} (m : Action (Unit {0})) (a : A) (w : World) → ((m >> pure a) w).1 ≡ (m w).1
then-pure m a w = go (m w).0
  where
    go : (r : Result (Unit {0})) → (on_result r raise (λ _. pure a) (m w).1).1 ≡ (m w).1
    go (ok _) = refl
    go (err _) = refl
