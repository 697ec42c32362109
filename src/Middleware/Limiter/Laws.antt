-- ===== src/Middleware/Limiter/Laws.antt =====
-- What the limiter lets through.
use modex_cloud.Prelude.{
  ℕ, ◌+◌, ◌-◌, ◌*◌, ◌≤◌, ◌<◌, ◌≡◌, refl, sym, ap, ◌∙◌, inl, inr, Bool, true, false, ◌&&◌, Option,
  none, some, List, [], ◌∷◌, ltb, leb, if◌then◌else◌, ◌==◌, text_eq, text_beq_iff, arith,
  Bool-cases,
}
use modex_cloud.Text.{Text}
use modex_cloud.Middleware.Limiter.{
  Window, Limiter, window_of, opened, counted, admit, allow, Hit, admitted,
}

-- The limiter of one client alone: the code's branches on its entry.
module _ (limit window : ℕ) where
  pub decide : ℕ → Option Window → Bool
  decide now none = true
  decide now (some w) = if ltb w.reset now then true else if leb limit w.count then false else true

  pub entry : ℕ → Option Window → Option Window
  entry now none = some (opened window now)
  entry now (some w) =
      if ltb w.reset now
      then some (opened window now)
      else if leb limit w.count
      then some w
      else some (counted w)

  -- How many of its requests a client gets through between two times, given its entry.
  pub let_through : ℕ → ℕ → Option Window → List ℕ → ℕ
  let_through a b st [] = 0
  let_through a b st (now ∷ ts) =
      let rest = let_through a b (entry now st) ts in
      if decide now st && (leb a now && leb now b) then 1 + rest else rest

-- The times of a client's requests.
abbrev pub times_of : Text → List Hit → List ℕ
times_of key [] = []
times_of key ((k, t) ∷ hits) = if k == key then t ∷ times_of key hits else times_of key hits

module _ (key : Text) where
  admit_own :
      (l : Limiter) (now : ℕ) (st : Option Window)
      → window_of key l.hits ≡ st
      → ((admit l key now st).0 ≡ decide l.limit l.window now st)
        × (window_of key (admit l key now st).1.hits ≡ entry l.limit l.window now st)
        × ((admit l key now st).1.limit ≡ l.limit)
        × ((admit l key now st).1.window ≡ l.window)
  unfolding admit decide entry
  admit_own l now none e = ground (arith, text_beq_iff key key)
  admit_own l now (some w) e = ground (arith, text_beq_iff key key)

  admit_other :
      (l : Limiter) (k : Text) (now : ℕ) (st : Option Window)
      → (k == key) ≡ false
      → (window_of key (admit l k now st).1.hits ≡ window_of key l.hits)
        × ((admit l k now st).1.limit ≡ l.limit)
        × ((admit l k now st).1.window ≡ l.window)
  unfolding admit
  admit_other l k now none e = ground arith
  admit_other l k now (some w) e = ground arith

  admitted-let_through :
      (a b : ℕ) (l : Limiter) (hits : List Hit)
      → admitted key a b l hits
        ≡ let_through l.limit l.window a b (window_of key l.hits) (times_of key hits)
  unfolding admitted let_through allow
  admitted-let_through a b l [] = refl
  admitted-let_through a b l ((k, now) ∷ hits) =
      let l' = (allow l k now).1 in
      let ih = admitted-let_through a b l' hits in
      let own = admit_own l now (window_of key l.hits) refl in
      let other = admit_other l k now (window_of k l.hits) in
      elim (Bool-cases (k == key)) [
        | inl e ↦ ground (arith, ih, own, (text_beq_iff k key).0 e)
        | inr e ↦ ground (arith, ih, other e)
      ]

-- Times that do not go back.
abbrev pub Sorted : ℕ → List ℕ → Type 0
Sorted now [] = Unit
Sorted now (t ∷ ts) = (now ≤ t) × Sorted t ts

module _ (limit window : ℕ) (some_limit : 1 ≤ limit) (a b : ℕ) where
  past_end :
      (st : Option Window) (now : ℕ) (ts : List ℕ)
      → b < now
      → Sorted now ts
      → let_through limit window a b st ts ≡ 0
  unfolding let_through
  past_end st now [] h s = refl
  past_end st now (t ∷ ts) h (h', s) =
      ground (arith, past_end (entry limit window t st) t ts (omega arith) s)

  -- In a window that lasts to the end of the interval.
  in_window :
      (w : Window) (now : ℕ) (ts : List ℕ)
      → b ≤ w.reset
      → Sorted now ts
      → let_through limit window a b (some w) ts ≤ limit - w.count
  unfolding let_through decide entry
  in_window w now [] h s = omega arith
  in_window w now (t ∷ ts) h (h', s) = ground (
    arith,
    past_end (entry limit window t (some w)) t ts,
    in_window w t ts h s,
    in_window (counted w) t ts h s,
  )

  -- What is left of the entry's window, and one window more.
  budget : Option Window → ℕ
  budget none = limit
  budget (some w) = limit + (limit - w.count)

  from_start :
      b ≤ a + window
      → (st : Option Window) (now : ℕ) (ts : List ℕ) → a ≤ now
      → Sorted now ts
      → let_through limit window a b st ts ≤ budget st
  unfolding let_through budget decide entry
  from_start short st now [] h s = ground arith
  from_start short none now (t ∷ ts) h (h', s) =
      ground (arith, in_window (opened window t) t ts (omega arith) s)
  from_start short (some w) now (t ∷ ts) h (h', s) = ground (
    arith,
    in_window (opened window t) t ts (omega arith) s,
    from_start short (some w) t ts (omega arith) s,
    from_start short (some (counted w)) t ts (omega arith) s,
  )

  budget_le : (st : Option Window) → budget st ≤ 2 * limit
  unfolding budget
  budget_le none = omega arith
  budget_le (some w) = omega arith

  let_through_le :
      b ≤ a + window
      → (st : Option Window) (now : ℕ) (ts : List ℕ) → Sorted now ts
      → let_through limit window a b st ts ≤ 2 * limit
  unfolding let_through
  let_through_le short st now [] s = omega arith
  let_through_le short st now (t ∷ ts) (h, s) = elim (Bool-cases (leb a t)) [
    | inl e ↦
        let k = from_start short st a (t ∷ ts) (omega arith) (ground arith, s) in
        omega (arith, k, budget_le st)
    | inr e ↦ ground (arith, let_through_le short (entry limit window t st) t ts s)
  ]

-- The times of all requests do not go back.
abbrev pub InOrder : ℕ → List Hit → Type 0
InOrder now [] = Unit
InOrder now ((k, t) ∷ hits) = (now ≤ t) × InOrder t hits

InOrder-earlier : (now t : ℕ) (hits : List Hit) → now ≤ t → InOrder t hits → InOrder now hits
InOrder-earlier now t [] e h = tt
InOrder-earlier now t ((k, u) ∷ hits) e (h, hs) = (omega arith, hs)

Sorted-times_of :
    (key : Text) (now : ℕ) (hits : List Hit) → InOrder now hits → Sorted now (times_of key hits)
Sorted-times_of key now [] h = tt
Sorted-times_of key now ((k, t) ∷ hits) (h, hs) = elim (Bool-cases (k == key)) [
  | inl e ↦ rw (e, times_of) (h, Sorted-times_of key t hits hs)
  | inr e ↦ rw (e, times_of) (Sorted-times_of key now hits (InOrder-earlier now t hits h hs))
]

-- Between two times at most a window apart, twice the limit at most is let through, for requests in the
-- order of their times.
pub admitted-le :
    (key : Text) (a b now : ℕ) (l : Limiter) (hits : List Hit)
    → 1 ≤ l.limit
    → b ≤ a + l.window
    → InOrder now hits
    → admitted key a b l hits ≤ 2 * l.limit
admitted-le key a b now l hits some_limit short order = rw (admitted-let_through key a b l hits) (
    let_through_le l.limit l.window some_limit a b short (window_of key l.hits) now
      (times_of key hits) (Sorted-times_of key now hits order))

-- The requests of one client.
abbrev pub requests_of : Text → List Hit → List Hit
requests_of key [] = []
requests_of key ((k, t) ∷ hits) =
    if k == key then (k, t) ∷ requests_of key hits else requests_of key hits

times_of-requests_of :
    (key : Text) (hits : List Hit) → times_of key (requests_of key hits) ≡ times_of key hits
times_of-requests_of key [] = refl
times_of-requests_of key ((k, t) ∷ hits) = ground (arith, times_of-requests_of key hits)

-- How many requests of a client are let through between two times is the same as if the other
-- clients had sent none.
pub admitted-requests_of :
    (key : Text) (a b : ℕ) (l : Limiter) (hits : List Hit)
    → admitted key a b l hits ≡ admitted key a b l (requests_of key hits)
admitted-requests_of key a b l hits =
    admitted-let_through key a b l hits
    ∙ ap (let_through l.limit l.window a b (window_of key l.hits))
        (sym (times_of-requests_of key hits))
    ∙ sym (admitted-let_through key a b l (requests_of key hits))
