-- ===== src/Config/Laws/Line.antt =====
-- A line `NAME="value"` of a `.env` file, read back.
use mathlib.Core.List.{reverse-append, append_assoc}
use modex_cloud.Prelude.{
  ℕ, zero, suc, ◌≡◌, ◌≢◌, refl, Bool, true, false, ◌&&◌, ◌||◌, not, Option, none, some, List, [],
  ◌∷◌, ◌++◌, length, length-append, ltb, leb, if◌then◌else◌, ◌==◌, nat_eq, text_eq, arith, ap, sym,
  ◌∙◌, all, any, reverse, take, drop, take-append, text_beq_iff, ◌+◌, ◌≤◌, ◌-◌,
}
use modex_cloud.Text.{Text, text, strip_prefix, trim_space, has_prefix, trim_prefix}
use modex_cloud.Text.Trim.{
  name_byte, quote-IsSolid, name_byte-IsSolid, trim_space-ends, strip_prefix_space,
}
use modex_cloud.Config.DotEnv.{
  Env, lookup, setenv, set_new, cut_equals, unquote, parse_line, load_dot_env, apply_line,
}

abbrev pub IsName : Text → Type 0
IsName k = (k ≢ []) × (all name_byte k ≡ true)

abbrev pub quoted : Text → Text
quoted v = b'"' ∷ (v ++ b'"' ∷ [])

abbrev pub entry : Text → Text → Text
entry k v = k ++ b'=' ∷ quoted v

quoted-trim : (v : Text) → trim_space (quoted v) ≡ quoted v
quoted-trim v =
    trim_space-ends b'"' b'"' (v ++ b'"' ∷ []) (b'"' ∷ v) (quoted v) quote-IsSolid quote-IsSolid
      refl refl

unquote-quoted : (v : Text) → unquote (quoted v) ≡ v
unfolding unquote
unquote-quoted v =
    let back : reverse (quoted v) ≡ b'"' ∷ reverse (b'"' ∷ v) =
      reverse-append (b'"' ∷ v) (b'"' ∷ []) in
    let long : length (quoted v) ≡ length v + 2 = ground (arith, length-append v (b'"' ∷ [])) in
    let taken : take (length v) (v ++ b'"' ∷ []) ≡ v = take-append v (b'"' ∷ []) in
    ground (arith, back, long, taken, length-append v (b'"' ∷ []))

cut_lem : (k r : Text) → all name_byte k ≡ true → cut_equals (k ++ b'=' ∷ r) ≡ some (k, r)
unfolding cut_equals
cut_lem [] r h = refl
cut_lem (a ∷ k) r h = ground (arith, cut_lem k r)

last_lem : (k : Text) → IsName k → (t : Text) × (b : ℕ) × (k ≡ t ++ b ∷ []) × (name_byte b ≡ true)
last_lem [] (n, h) = ground arith
last_lem (a ∷ []) (n, h) = ([], a, refl, ground arith)
last_lem (a ∷ c ∷ k) (n, h) =
    let (t, b, e, g) = last_lem (c ∷ k) ((λ q. ground arith), ground arith) in
    (a ∷ t, b, ap (λ x. a ∷ x) e, g)

name-trim : (k : Text) → IsName k → trim_space k ≡ k
name-trim [] h = ground arith
name-trim (a ∷ k) h =
    let (t, b, e, g) = last_lem (a ∷ k) h in
    trim_space-ends a b k t (a ∷ k) (name_byte-IsSolid a (ground arith)) (name_byte-IsSolid b g)
      refl e

entry-trim : (k v : Text) → IsName k → trim_space (entry k v) ≡ entry k v
entry-trim [] v h = ground arith
entry-trim (a ∷ k) v h =
    trim_space-ends a b'"' (k ++ b'=' ∷ quoted v) ((a ∷ k) ++ b'=' ∷ b'"' ∷ v) (entry (a ∷ k) v)
      (name_byte-IsSolid a (ground arith)) quote-IsSolid refl
      (sym (append_assoc (a ∷ k) (b'=' ∷ b'"' ∷ v) (b'"' ∷ [])))

no_comment : (k v : Text) → IsName k → has_prefix (entry k v) (text "#") ≡ false
unfolding has_prefix text
no_comment [] v h = ground arith
no_comment (a ∷ k) v h = ground arith

no_export : (k v : Text) → IsName k → trim_prefix (entry k v) (text "export ") ≡ entry k v
unfolding trim_prefix text
no_export k v h =
    let n : strip_prefix (text "export ") (entry k v) ≡ none =
      strip_prefix_space (text "export") k (quoted v) refl (h.1) in
    ground (arith, n)

nonempty : (k r : Text) → (k ++ b'=' ∷ r == []) ≡ false
unfolding modex_cloud.Prelude.text_beq
nonempty [] r = refl
nonempty (a ∷ k) r = refl

name_lacks :
    (k : Text)
    → all name_byte k ≡ true
    → (any (λ c. c == 0) k ≡ false) × (any (λ c. c == b'=') k ≡ false)
name_lacks [] h = (refl, refl)
name_lacks (a ∷ k) h = let (z, e) = name_lacks k (ground arith) in (ground arith, ground arith)

parse-entry : (k v : Text) → IsName k → parse_line (entry k v) ≡ some (k, v)
unfolding parse_line
parse-entry k v h =
    let cut : cut_equals (entry k v) ≡ some (k, quoted v) = cut_lem k (quoted v) h.1 in
    let some_key : (k == []) ≡ false = ground (arith, text_beq_iff k [], h.0) in
    let some_line : (entry k v == []) ≡ false = nonempty k (quoted v) in
    ground (
      arith,
      cut,
      some_key,
      some_line,
      no_comment k v h,
      no_export k v h,
      name-trim k h,
      quoted-trim v,
      unquote-quoted v,
    )

-- A file with the one line NAME="value", where the name is of letters, digits and underscores, the
-- value has no zero byte, and the environment does not have the name, sets the name to the value,
-- byte for byte.
pub lookup-entry :
    (env : Env) (k v : Text)
    → IsName k
    → any (λ c. c == 0) v ≡ false
    → lookup env k ≡ none
    → lookup (load_dot_env (some (entry k v ∷ [])) env) k ≡ some v
unfolding load_dot_env apply_line set_new setenv lookup
lookup-entry env k v h z n =
    let (no_zero, no_equals) = name_lacks k h.1 in
    let same : (k == k) ≡ true = (text_beq_iff k k).1 refl in
    let parsed : parse_line (trim_space (entry k v)) ≡ some (k, v) =
      ap parse_line (entry-trim k v h) ∙ parse-entry k v h in
    ground (arith, parsed, no_zero, no_equals, same)
