-- ===== src/Validate/Spec/Base.antt =====
-- The address of an upload, and that `validateBaseURL` decides it.
use modex_cloud.Prelude.{
  ◌≡◌, refl, ◌≢◌, ◌↔◌, ◌⊎◌, inl, inr, true, some, none, List, [], ◌∷◌, ◌++◌, any, text_beq_iff,
  arith, Option-cases, Bool-cases,
}
use modex_cloud.Text.{Text, text, trim_space, has_prefix}
use modex_cloud.Validate.{Url, Std, validate_base_url}

abbrev pub BeginsWith : Text → Text → Type 0
BeginsWith s p = (rest : Text) × (s ≡ p ++ rest)

has_prefix_sound : (s p : Text) → has_prefix s p ≡ true → BeginsWith s p
unfolding has_prefix
has_prefix_sound s [] h = (s, refl)
has_prefix_sound [] (b ∷ p) h = ground arith
has_prefix_sound (a ∷ s) (b ∷ p) h =
    let (rest, e) = has_prefix_sound s p (ground arith) in (rest, ground arith)

has_prefix-append : (p rest : Text) → has_prefix (p ++ rest) p ≡ true
unfolding has_prefix
has_prefix-append [] rest = refl
has_prefix-append (b ∷ p) rest = ground (arith, has_prefix-append p rest)

has_prefix_iff : (s p : Text) → (has_prefix s p ≡ true) ↔ BeginsWith s p
has_prefix_iff s p = (has_prefix_sound s p, λ (rest, e). rw e (has_prefix-append p rest))

-- Some entry, with the spaces round it removed, begins the text.
abbrev pub BeginsLike : Text → List Text → Type 0
BeginsLike s [] = ⊥
BeginsLike s (a ∷ as') = BeginsWith s (trim_space a) ⊎ BeginsLike s as'

any_prefix_iff :
    (s : Text) (bases : List Text)
    → (any (λ a. has_prefix s (trim_space a)) bases ≡ true) ↔ BeginsLike s bases
any_prefix_iff s [] = ground arith
any_prefix_iff s (a ∷ as') = elim (Bool-cases (has_prefix s (trim_space a))) [
  | inl e ↦ (λ h. inl (has_prefix_sound s (trim_space a) e), λ h. rw e)
  | inr e ↦ (
    λ h. inr ((any_prefix_iff s as').0 (rw e at h)),
    λ h. elim h [
      | inl b ↦ rw ((has_prefix_iff s (trim_space a)).1 b)
      | inr l ↦ rw e ((any_prefix_iff s as').1 l)
    ],
  )
]

-- An absolute https address that begins like an entry of the list, if there are entries.
pub record AllowsBase (std : Std) (bases : List Text) (base : Text) : Type 0 where
  pub url : Url
  pub parsed : std.parse_url base ≡ some url
  pub https : url.scheme ≡ text "https"
  pub has_host : url.host ≢ []
  pub listed : (bases ≡ []) ⊎ BeginsLike base bases

text_https : text "https" ≢ []
unfolding text
text_https = ground arith

module _ (std : Std) (base : Text) where
  pub validate_base_url_sound :
      (bases : List Text) → validate_base_url std base bases ≡ none → AllowsBase std bases base
  unfolding validate_base_url
  validate_base_url_sound [] h = elim (Option-cases (std.parse_url base)) [
    | inl e ↦ ground arith
    | inr (u, e) ↦ record {
      url = u;
      parsed = e;
      https = ground (arith, text_beq_iff u.scheme (text "https"));
      has_host = ground (arith, text_beq_iff u.host []);
      listed = inl refl;
    }
  ]
  validate_base_url_sound (b ∷ bs) h = elim (Option-cases (std.parse_url base)) [
    | inl e ↦ ground arith
    | inr (u, e) ↦ record {
      url = u;
      parsed = e;
      https = ground (arith, text_beq_iff u.scheme (text "https"));
      has_host = ground (arith, text_beq_iff u.host []);
      listed = inr ((any_prefix_iff base (b ∷ bs)).0 (ground arith));
    }
  ]

  pub validate_base_url_complete :
      (bases : List Text) → AllowsBase std bases base → validate_base_url std base bases ≡ none
  unfolding validate_base_url
  validate_base_url_complete [] a = ground (
    arith,
    text_https,
    text_beq_iff a.url.scheme (text "https"),
    text_beq_iff a.url.scheme [],
    text_beq_iff a.url.host [],
  )
  validate_base_url_complete (b ∷ bs) a = elim a.listed [
    | inl e ↦ cc
    | inr l ↦
        let m = (any_prefix_iff base (b ∷ bs)).1 l in
        ground (
          arith,
          m,
          text_https,
          text_beq_iff a.url.scheme (text "https"),
          text_beq_iff a.url.scheme [],
          text_beq_iff a.url.host [],
        )
  ]
