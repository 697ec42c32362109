-- ===== src/Controller/SupplierChannel/Names/Fresh.antt =====
-- The search for a free name ends with one.
use modex_cloud.Prelude.{
  ℕ, zero, suc, ◌+◌, ◌<◌, ◌≤◌, ◌≡◌, ◌≢◌, refl, sym, ◌∙◌, subst, inl, inr, Bool, true, false, not,
  List, [], ◌∷◌, ◌++◌, count, filter, if◌then◌else◌, ◌==◌, text_eq, text_beq_iff, arith, Bool-cases,
  ltb,
}
use modex_cloud.Prelude.Int.{ℤ}
use modex_cloud.Text.{Text, text, trim_space, itoa_ℕ, join}
use modex_cloud.Text.Decimal.{itoa-inj, append-cancel}
use modex_cloud.Model.Schema.{Channel}
use modex_cloud.Model.World.{World, IsQuiet, Result, ok, tick, >>=_of_ok}
use modex_cloud.Model.Channel.{has_name, of_pair, channel_name_exists, next_channel_seq}
use modex_cloud.Controller.SupplierChannel.{
  probe_name, build_name, generate_channel_name, max_probes,
}
use modex_cloud.Controller.SupplierChannel.Names.{
  IsTaken, Probed, first_number, generate_channel_name-Probed,
}

cut : (x y z : Text) → x ++ (b'-' ∷ y) ≡ x ++ (b'-' ∷ z) → y ≡ z
cut x y z q = append-cancel (b'-' ∷ []) y z (append-cancel x (b'-' ∷ y) (b'-' ∷ z) q)

-- The parts of a name, joined: the first ones may be left out, and the last tells names apart.
joined-inj :
    (no_prefix no_group : Bool) (p u g s t : Text)
    → (let parts = λ (x : Text).
          let last = (if no_group then x ∷ [] else g ∷ x ∷ []) in
          if no_prefix then u ∷ last else p ∷ u ∷ last in
        join (parts s) (text "-") ≡ join (parts t) (text "-"))
    → s ≡ t
unfolding join text
joined-inj true true p u g s t e = cut u s t e
joined-inj true false p u g s t e = cut g s t (cut u _ _ e)
joined-inj false true p u g s t e = cut u s t (cut p _ _ e)
joined-inj false false p u g s t e = cut g s t (cut u _ _ (cut p _ _ e))

-- Numbers give different names.
build_name-inj :
    (username prefix group : Text) (m n : ℕ)
    → build_name username prefix group m ≡ build_name username prefix group n
    → m ≡ n
unfolding build_name
build_name-inj username prefix group m n e = itoa-inj m n (
    joined-inj (trim_space prefix == []) (trim_space group == []) (trim_space prefix) username
      (trim_space group) (itoa_ℕ m) (itoa_ℕ n) e)

module _ (user platform : ℤ) where
  abbrev taken : Text → List Channel → ℕ
  taken name rows = count (has_name user platform name) rows

  abbrev without : Text → List Channel → List Channel
  without name rows = filter (λ r. not (has_name user platform name r)) rows

  count-without :
      (name : Text) (rows : List Channel)
      → count (of_pair user platform) (without name rows) + taken name rows
        ≡ count (of_pair user platform) rows
  unfolding has_name
  count-without name [] = refl
  count-without name (r ∷ rows) = ground (arith, count-without name rows)

  taken-without :
      (name other : Text) (rows : List Channel)
      → other ≢ name
      → taken other (without name rows) ≡ taken other rows
  unfolding has_name
  taken-without name other [] n = refl
  taken-without name other (r ∷ rows) n =
      ground (
        arith,
        text_beq_iff r.name name,
        text_beq_iff r.name other,
        taken-without name other rows n,
      )

  -- So many different names, each of a channel, are of so many channels at least.
  pigeonhole :
      (build : ℕ → Text) (seq : ℕ)
      → ((i j : ℕ) → build i ≡ build j → i ≡ j)
      → (k : ℕ) (rows : List Channel)
      → ((j : ℕ) → j < k → IsTaken rows user platform (build (seq + j)))
      → k ≤ count (of_pair user platform) rows
  pigeonhole build seq inj zero rows h = omega arith
  pigeonhole build seq inj (suc k) rows h =
      let name = build (seq + k) in
      let rest = pigeonhole build seq inj k (without name rows) (λ j lt e. h j (omega arith) (
        sym (
          taken-without name (build (seq + j)) rows
            (λ q. let same = inj (seq + j) (seq + k) q in omega arith))
        ∙ e)) in
      let some_row = h k (omega arith) in omega (arith, rest, count-without name rows, some_row)

probe_name-ok :
    (user platform : ℤ) (build : ℕ → Text) (seq rounds n : ℕ) (w : World)
    → IsQuiet w
    → (name : Text) × ((probe_name user platform build seq rounds n w).0 ≡ ok name)
unfolding probe_name channel_name_exists
probe_name-ok user platform build seq zero n w q = (build seq, refl)
probe_name-ok user platform build seq (suc rounds) n w q =
    elim (Bool-cases (ltb 0 (count (has_name user platform (build n)) w.channels.rows))) [
      | inl t ↦
          let (name, e) =
            probe_name-ok user platform build seq rounds (n + 1) (tick w) (λ i. q i) in
          (name, ground (arith, q w.calls))
      | inr f ↦ (build n, ground (arith, q w.calls))
    ]

first_number_ok :
    (user platform : ℤ) (w : World)
    → IsQuiet w
    → next_channel_seq user platform w ≡ (ok (first_number user platform w), tick w)
unfolding next_channel_seq
first_number_ok user platform w q = ground (arith, q w.calls)

generated_ok :
    (user platform : ℤ) (username prefix group : Text) (w : World)
    → IsQuiet w
    → (name : Text) × ((generate_channel_name user platform username prefix group w).0 ≡ ok name)
unfolding generate_channel_name
generated_ok user platform username prefix group w q =
    let m = next_channel_seq user platform in
    let build = build_name username prefix group in
    let f = λ (seq : ℕ). probe_name user platform build seq max_probes seq in
    let s = first_number user platform w in
    let P = λ (r : Result Text × World). (name : Text) × (r.0 ≡ ok name) in
    subst P (sym (>>=_of_ok m f w (first_number_ok user platform w q)))
      (probe_name-ok user platform build s max_probes s (tick w) (λ i. q i))

-- Where no statement fails and a supplier has fewer than 1000 channels on the platform, deleted
-- ones included, the search for a name ends with one that none of them has.
pub generate_channel_name-fresh :
    (user platform : ℤ) (username prefix group : Text) (w : World)
    → IsQuiet w
    → count (of_pair user platform) w.channels.rows < max_probes
    → (name : Text) × ((generate_channel_name user platform username prefix group w).0 ≡ ok name)
      × (count (has_name user platform name) w.channels.rows ≡ 0)
generate_channel_name-fresh user platform username prefix group w q few =
    let build = build_name username prefix group in
    let s = first_number user platform w in
    let (name, found) = generated_ok user platform username prefix group w q in
    let probed =
      subst (Probed w.channels.rows user platform build s max_probes s) found
        (generate_channel_name-Probed user platform username prefix group w) in
    (
      name,
      found,
      elim probed [
        | inl (k, _, _, free, _) ↦ free
        | inr (_, all) ↦
            let many =
              pigeonhole user platform build s (build_name-inj username prefix group) max_probes
                w.channels.rows all in
            absurd (omega arith)
      ],
    )
