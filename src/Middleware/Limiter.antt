-- ===== src/Middleware/Limiter.antt =====
-- middleware/security.go: the fixed-window rate limiter. Times are nanoseconds; `now` is an argument
-- of each call, as in the code, and the mutex makes each call one step.
pub mod Laws
pub mod Expiry
use modex_cloud.Prelude.{
  ℕ, ◌+◌, Bool, true, false, ◌&&◌, Option, none, some, List, [], ◌∷◌, ltb, leb, if◌then◌else◌, ◌==◌,
  text_eq,
}
use modex_cloud.Text.{Text}

pub record Window : Type 0 where
  pub count : ℕ
  pub reset : ℕ

-- The map `hits`, the newest entry of a key first.
pub record Limiter : Type 0 where
  pub hits : List (Text × Window)
  pub limit : ℕ
  pub window : ℕ

unfoldable pub new_limiter : ℕ → ℕ → Limiter
new_limiter limit window = record { hits = []; limit = limit; window = window }

abbrev pub window_of : Text → List (Text × Window) → Option Window
window_of key [] = none
window_of key ((k, w) ∷ hits) = if k == key then some w else window_of key hits

abbrev pub put_window : Limiter → Text → Window → Limiter
put_window l key w = record l { hits = (key, w) ∷ l.hits }

abbrev pub opened : ℕ → ℕ → Window
opened window now = record { count = 1; reset = now + window }

abbrev pub counted : Window → Window
counted w = record w { count = w.count + 1 }

-- The branches of `allow`, by the entry of the key.
unfoldable pub admit : Limiter → Text → ℕ → Option Window → Bool × Limiter
admit l key now none = (true, put_window l key (opened l.window now))
admit l key now (some w) =
    if ltb w.reset now
    then (true, put_window l key (opened l.window now))
    else if leb l.limit w.count
    then (false, l)
    else (true, put_window l key (counted w))

unfoldable pub allow : Limiter → Text → ℕ → Bool × Limiter
unfolding admit
allow l key now = admit l key now (window_of key l.hits)

-- A request by a client at a time.
abbrev pub Hit : Type 0
Hit = Text × ℕ

unfoldable pub run : Limiter → List Hit → Limiter
run l [] = l
run l ((key, now) ∷ hits) = run (allow l key now).1 hits

-- How many requests of a client are let through between two times.
unfoldable pub admitted : Text → ℕ → ℕ → Limiter → List Hit → ℕ
admitted key a b l [] = 0
admitted key a b l ((k, now) ∷ hits) =
    let rest = admitted key a b (allow l k now).1 hits in
    if (k == key && (allow l k now).0) && (leb a now && leb now b) then 1 + rest else rest
