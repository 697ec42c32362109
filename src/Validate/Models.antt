-- ===== src/Validate/Models.antt =====
-- The list of models of an upload: what normalizing leaves, and that the text it is stored as gives
-- it back.
use modex_cloud.Prelude.{
  ℕ, All, refl, ap, ◌∙◌, Option, ◌≡◌, ◌≢◌, ◌↔◌, true, false, List, [], ◌∷◌, any, ◌==◌, nat_eq,
  text_eq, text_beq_iff, arith, map,
}
use modex_cloud.Text.Laws.{Lacks, split-join, split-Lacks, trim_space-Lacks}
use modex_cloud.Text.{Text, text, split, join, trim_space}
use modex_cloud.Model.Schema.{Platform, Grant}
use modex_cloud.Model.Platform.{Codecs}
use modex_cloud.Validate.{
  normalize_models, normalize_from, ChannelInput, Normalized, accepted, Std, channel_upload,
}
use modex_cloud.Validate.Spec.Upload.{channel_upload_iff}
use modex_cloud.Validate.Spec.{Listed}

-- No entry twice, and none of those seen.
abbrev pub AllNew : List Text → List Text → Type 0
AllNew seen [] = Unit
AllNew seen (x ∷ xs) = (x ≢ []) × (any (λ s. s == x) seen ≡ false) × AllNew (x ∷ seen) xs

normalize_from_new : (seen ms : List Text) → AllNew seen (normalize_from seen ms)
unfolding normalize_from
normalize_from_new seen [] = tt
normalize_from_new seen (m ∷ ms) = ground (
  arith,
  normalize_from_new seen ms,
  normalize_from_new (trim_space m ∷ seen) ms,
  text_beq_iff (trim_space m) [],
)

any_seen_iff : (x : Text) (seen : List Text) → (any (λ s. s == x) seen ≡ true) ↔ Listed x seen
any_seen_iff x [] = ground arith
any_seen_iff x (s ∷ seen) = ground (arith, text_beq_iff s x, any_seen_iff x seen)

normalize_from_iff :
    (seen ms : List Text) (x : Text)
    → Listed x (normalize_from seen ms)
      ↔ ((x ≢ []) × (any (λ s. s == x) seen ≡ false) × Listed x (map trim_space ms))
unfolding normalize_from
normalize_from_iff seen [] x = ground arith
normalize_from_iff seen (m ∷ ms) x = ground (
  arith,
  normalize_from_iff seen ms x,
  normalize_from_iff (trim_space m ∷ seen) ms x,
  text_beq_iff (trim_space m) [],
  text_beq_iff (trim_space m) x,
)

-- What is kept of the models of an upload is each name that the upload lists, with the spaces round
-- it removed, unless it is empty, and none twice.
pub normalize_models_lem :
    (ms : List Text)
    → AllNew [] (normalize_models ms)
      × ((x : Text) → Listed x (normalize_models ms) ↔ ((x ≢ []) × Listed x (map trim_space ms)))
unfolding normalize_models
normalize_models_lem ms =
    (normalize_from_new [] ms, λ x. ground (arith, normalize_from_iff [] ms x))

normalize_from-Lacks :
    (sep : ℕ) (seen ms : List Text) → All (Lacks sep) ms → All (Lacks sep) (normalize_from seen ms)
unfolding normalize_from
normalize_from-Lacks sep seen [] h = tt
normalize_from-Lacks sep seen (m ∷ ms) (h, hs) =
    let t = trim_space-Lacks sep m h in
    let skipped = normalize_from-Lacks sep seen ms hs in
    let kept = normalize_from-Lacks sep (trim_space m ∷ seen) ms hs in ground arith

split-join_of :
    (sep : ℕ) (ws : List Text) → ws ≢ [] → All (Lacks sep) ws → split (join ws (sep ∷ [])) sep ≡ ws
split-join_of sep [] n h = elim (n refl) [ ]
split-join_of sep (w ∷ ws) n h = split-join sep w ws h

comma_text : text "," ≡ b',' ∷ []
unfolding text
comma_text = refl

split-normalize_models :
    (request : Text)
    → normalize_models (split request b',') ≢ []
    → split (join (normalize_models (split request b',')) (text ",")) b','
      ≡ normalize_models (split request b',')
unfolding normalize_models
split-normalize_models request n =
    let ms = split request b',' in
    rw comma_text (
      split-join_of b',' (normalize_models ms) n
        (normalize_from-Lacks b',' [] ms (split-Lacks b',' request)))

-- Where the models of an accepted upload come from a request's text split at its commas, splitting
-- what is stored of them gives the normalized models of the upload.
pub split-models_csv :
    (codecs : Codecs) (std : Std) (input : ChannelInput) (platform : Platform)
    (grant : Option Grant) (request : Text) (r : Normalized)
    → input.models ≡ split request b','
    → channel_upload codecs std input platform grant ≡ accepted r
    → split r.models_csv b',' ≡ normalize_models input.models
split-models_csv codecs std input platform grant request r e h =
    let (p, q) = (channel_upload_iff codecs std input platform grant r).0 h in
    let stored = split-normalize_models request (rw e at p.some_model) in
    ap (λ n. split n.models_csv b',') q ∙ (rw e stored)
