-- ===== src/Middleware/Limiter/Expiry.antt =====
-- When the windows of the limiter have ended.
use modex_cloud.Prelude.{
  ℕ, ◌+◌, ◌≤◌, ◌<◌, ◌≡◌, refl, ◌∙◌, subst, true, Option, none, some, List, [], ◌∷◌, text_eq, arith,
}
use modex_cloud.Text.{Text}
use modex_cloud.Middleware.Limiter.{Window, Limiter, window_of, admit, allow, Hit, run, new_limiter}

-- Every window has ended by a time.
abbrev EndsBy : ℕ → List (Text × Window) → Type 0
EndsBy m [] = Unit
EndsBy m ((k, w) ∷ hits) = (w.reset ≤ m) × EndsBy m hits

abbrev pub Before : ℕ → List Hit → Type 0
Before m [] = Unit
Before m ((k, t) ∷ hits) = (t ≤ m) × Before m hits

window_of-EndsBy :
    (m : ℕ) (key : Text) (hits : List (Text × Window)) (w : Window)
    → EndsBy m hits
    → window_of key hits ≡ some w
    → w.reset ≤ m
window_of-EndsBy m key [] w h e = cc
window_of-EndsBy m key ((k, v) ∷ hits) w (h, hs) e =
    ground (arith, window_of-EndsBy m key hits w hs)

admit-EndsBy :
    (m : ℕ) (l : Limiter) (k : Text) (now : ℕ) (st : Option Window)
    → now ≤ m
    → window_of k l.hits ≡ st
    → EndsBy (m + l.window) l.hits
    → EndsBy (m + l.window) (admit l k now st).1.hits × ((admit l k now st).1.window ≡ l.window)
unfolding admit
admit-EndsBy m l k now none h e ends = ground arith
admit-EndsBy m l k now (some w) h e ends =
    ground (arith, window_of-EndsBy (m + l.window) k l.hits w ends e)

run-EndsBy :
    (m : ℕ) (l : Limiter) (hits : List Hit)
    → Before m hits
    → EndsBy (m + l.window) l.hits
    → EndsBy (m + l.window) (run l hits).hits × ((run l hits).window ≡ l.window)
unfolding run allow
run-EndsBy m l [] h ends = (ends, refl)
run-EndsBy m l ((k, now) ∷ hits) (h, hs) ends =
    let l' = (allow l k now).1 in
    let (kept, same) = admit-EndsBy m l k now (window_of k l.hits) h refl ends in
    let (done, still) = run-EndsBy m l' hits hs (rw same kept) in
    (subst (λ n. EndsBy (m + n) (run l' hits).hits) same done, still ∙ same)

admit_late :
    (l : Limiter) (key : Text) (now : ℕ) (st : Option Window)
    → ((w : Window) → st ≡ some w → w.reset < now)
    → (admit l key now st).0 ≡ true
unfolding admit
admit_late l key now none h = refl
admit_late l key now (some w) h = ground (arith, h w refl)

-- After any requests to a fresh limiter, none later than a time, a request that comes more than one
-- window after that time is let through.
pub allow-run :
    (limit window m now : ℕ) (key : Text) (hits : List Hit)
    → Before m hits
    → m + window < now
    → (allow (run (new_limiter limit window) hits) key now).0 ≡ true
unfolding allow new_limiter
allow-run limit window m now key hits h late =
    let l = run (new_limiter limit window) hits in
    let (ends, same) = run-EndsBy m (new_limiter limit window) hits h tt in
    admit_late l key now (window_of key l.hits)
      (λ w e. let k = window_of-EndsBy (m + window) key l.hits w ends e in omega arith)
