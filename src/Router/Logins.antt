-- ===== src/Router/Logins.antt =====
-- How many attempts to log in a client gets.
use modex_cloud.Prelude.{
  ℕ, ◌+◌, ◌≤◌, ◌≡◌, true, false, ◌&&◌, not, List, [], ◌∷◌, leb, if◌then◌else◌, ◌==◌, nat_eq,
  text_eq, arith, sym, subst, Bool-cases, inl, inr,
}
use modex_cloud.Text.{Text}
use modex_cloud.Middleware.Limiter.{Hit, allow, admitted, new_limiter}
use modex_cloud.Middleware.Limiter.Laws.{InOrder, admitted-le}
use modex_cloud.Controller.Flow.{abort_error}
use modex_cloud.Router.{Call, Envelope, Server, Parts, login_limiter, handle, is_login, too_many}

-- The requests for a login, as the limiter sees them.
abbrev pub login_hits : List (Call × Envelope) → List Hit
login_hits [] = []
login_hits ((call, e) ∷ rest) =
    if is_login call then (e.client_ip, e.now) ∷ login_hits rest else login_hits rest

module _ (parts : Parts) where
  -- How many logins of a client, sent between two times, are answered otherwise than with 429.
  abbrev pub answered_logins : Text → ℕ → ℕ → Server → List (Call × Envelope) → ℕ
  answered_logins ip a b s [] = 0
  answered_logins ip a b s ((call, e) ∷ rest) =
      let (out, t) = handle parts call e s in
      let more = answered_logins ip a b t rest in
      if (is_login call && (e.client_ip == ip && not (out.0.status == 429)))
        && (leb a e.now && leb e.now b)
      then 1 + more
      else more

  limiter_lem :
      (call : Call) (e : Envelope) (s : Server)
      → (handle parts call e s).1.limiter
        ≡ (if is_login call then (allow s.limiter e.client_ip e.now).1 else s.limiter)
  unfolding handle
  limiter_lem call e s = ground arith

  turned_away :
      (call : Call) (e : Envelope) (s : Server)
      → is_login call ≡ true
      → (allow s.limiter e.client_ip e.now).0 ≡ false
      → (handle parts call e s).0.0.status ≡ 429
  unfolding handle too_many abort_error
  turned_away call e s h k = ground arith

  answered-admitted :
      (ip : Text) (a b : ℕ) (s : Server) (calls : List (Call × Envelope))
      → answered_logins ip a b s calls ≤ admitted ip a b s.limiter (login_hits calls)
  unfolding admitted
  answered-admitted ip a b s [] = omega arith
  answered-admitted ip a b s ((call, e) ∷ rest) = elim (Bool-cases (is_login call)) [
    | inl l ↦ elim (Bool-cases (allow s.limiter e.client_ip e.now).0) [
      | inl k ↦
          ground
            (arith, limiter_lem call e s, answered-admitted ip a b (handle parts call e s).1 rest)
      | inr k ↦ ground (
        arith,
        turned_away call e s l k,
        limiter_lem call e s,
        answered-admitted ip a b (handle parts call e s).1 rest,
      )
    ]
    | inr l ↦
        ground
          (arith, limiter_lem call e s, answered-admitted ip a b (handle parts call e s).1 rest)
  ]

  -- On a server that has just started, for requests in the order of their times: between two times
  -- at most a minute apart, at most twenty logins of a client address are answered otherwise than
  -- with 429.
  pub answered_logins-le :
      (ip : Text) (a b : ℕ) (s : Server) (calls : List (Call × Envelope))
      → s.limiter ≡ login_limiter
      → InOrder 0 (login_hits calls)
      → b ≤ a + 60000000000
      → answered_logins ip a b s calls ≤ 20
  unfolding new_limiter
  answered_logins-le ip a b s calls e order short =
      let few : admitted ip a b s.limiter (login_hits calls) ≤ 20 =
        subst (λ l. admitted ip a b l (login_hits calls) ≤ 20) (sym e)
          (admitted-le ip a b 0 login_limiter (login_hits calls) (omega arith) short order) in
      omega (arith, few, answered-admitted ip a b s calls)
