-- ===== src/Controller/SupplierChannel/Stored.antt =====
-- What an upload that is answered with success has stored.
use modex_cloud.Prelude.{
  ℕ, ◌≡◌, refl, sym, inl, inr, true, false, Option, none, some, List, [], ◌∷◌, ◌++◌, any, find, All,
  subst, if◌then◌else◌, ◌==◌, arith, Bool-cases,
}
use modex_cloud.Prelude.Int.{ℤ, pos, int_eq, int_beq_iff}
use modex_cloud.Text.{Text}
use modex_cloud.Constant.{pending, is_unset, status_enabled}
use modex_cloud.Crypto.{Vault, seal, open_blob}
use modex_cloud.Crypto.Laws.{Opens, open_blob-seal}
use modex_cloud.Model.Schema.{Channel, Platform, Grant}
use modex_cloud.Model.World.{World, Error, ok, tick}
use modex_cloud.Model.Channel.{create, insert_channel, selects}
use modex_cloud.Model.Channel.Rows.{SameRows, Row}
use modex_cloud.Model.Invariant.{IsValid, IsBelow}
use modex_cloud.Model.Invariant.Channels.{IsValid-rows}
use modex_cloud.Validate.{
  ChannelInput, Normalized, Checked, accepted, rejected, channel_upload, violation_text,
}
use modex_cloud.Controller.Flow.{
  Response, Context, next, replied, Flow, ◌>>=◌, answer, or_reply, perform, api_error,
}
use modex_cloud.Controller.Flow.Keeps.{flow_rules}
use modex_cloud.Controller.Flow.Meets.{
  Refuses, Meets, Ends, Ends-serve, Meets-require, Meets-reads, Meets->>=, refused,
  Refuses-or_reply, Refuses-refuse_if, Refuses-if, Refuses->>=, Refuses-or_default, Refuses-proceed,
  meets_rules,
}
use modex_cloud.Controller.SupplierChannel.Reads.{
  read_rules, authorize_platform-Keeps, seal-Keeps, check_upload-Keeps, check_limit-Keeps,
}
use modex_cloud.Controller.SupplierChannel.{
  Deps, CreateChannelRequest, seal_and_store, create_channel, dispatch_sync, check_upload,
  check_limit,
}

-- The live row of an id holds what was uploaded: it is of the caller and the platform, it waits for the
-- worker, and its sealed key opens to the key of the upload.
pub record IsUploaded (vault : Vault) (user platform : ℤ) (key : Text) (id : ℤ) (w : World)
    : Type 0 where
  pub row : Channel
  pub at_id : Row id row w
  pub opens : open_blob vault row.enc_key ≡ ok key
  pub state : row.key_state ≡ pending
  pub user_id : row.user_id ≡ user
  pub platform_id : row.platform_id ≡ platform
  pub remote_id : row.remote_id ≡ pos 0

-- It is in the list of jobs too.
pub record IsQueued (vault : Vault) (user platform : ℤ) (key : Text) (id : ℤ) (w : World)
    : Type 0 where
  pub uploaded : IsUploaded vault user platform key id w
  pub queued : any (λ j. j == id) w.jobs ≡ true

abbrev pub IsStored : Vault → ℤ → ℤ → Text → World → Type 0
IsStored vault user platform key w = (id : ℤ) × IsQueued vault user platform key id w

-- The new row is the one that its id selects.
find-append :
    (n : ℕ) (rs : List Channel) (c : Channel)
    → All (IsBelow n) rs
    → selects (pos n) c ≡ true
    → find (selects (pos n)) (rs ++ c ∷ []) ≡ some c
unfolding selects
find-append n [] c h s = ground arith
find-append n (r ∷ rs) c (h, hs) s =
    ground (arith, int_beq_iff r.id (pos n), find-append n rs c hs s)

any-append : (id : ℤ) (js : List ℤ) → any (λ j. j == id) (js ++ id ∷ []) ≡ true
any-append id [] = ground (arith, int_beq_iff id id)
any-append id (j ∷ js) = ground (arith, any-append id js)

module _ (vault : Vault) (user platform : ℤ) (key : Text) where
  IsUploaded-rows :
      (id : ℤ) (v w : World)
      → SameRows v w
      → IsUploaded vault user platform key id v
      → IsUploaded vault user platform key id w
  IsUploaded-rows id v w e u = record {
    row = u.row;
    at_id = rw (e.channels) u.at_id;
    opens = u.opens;
    state = u.state;
    user_id = u.user_id;
    platform_id = u.platform_id;
    remote_id = u.remote_id;
  }

  -- The row that `BeforeCreate` and the insert make of a channel.
  abbrev inserted : Channel → World → Channel
  inserted c w = record c {
    id = pos w.channels.next;
    created_time = w.clock;
    updated_time = w.clock;
    key_state = if is_unset c.key_state then pending else c.key_state;
    status = if c.status == pos 0 then status_enabled else c.status;
  }

  created_lem :
      (c : Channel) (w : World) (ch : Channel)
      → (create c w).0 ≡ ok ch
      → (ch ≡ inserted c w) × ((create c w).1 ≡ tick (insert_channel (inserted c w) w))
  unfolding create
  created_lem c w ch e = elim (Bool-cases (w.faults w.calls)) [
    | inl q ↦ absurd (ground arith)
    | inr q ↦ (ground arith, ground arith)
  ]

  create_lem :
      (c : Channel) (w : World) (ch : Channel)
      → IsValid w
      → open_blob vault c.enc_key ≡ ok key
      → c.key_state ≡ pending
      → c.user_id ≡ user
      → c.platform_id ≡ platform
      → c.remote_id ≡ pos 0
      → c.deleted_at ≡ none
      → (create c w).0 ≡ ok ch
      → IsUploaded vault user platform key ch.id (create c w).1
  unfolding selects
  create_lem c w ch v o s u p m d e =
      let (same, state) = created_lem c w ch e in
      let row = inserted c w in
      let live : selects row.id row ≡ true = ground (arith, int_beq_iff row.id row.id) in
      subst (λ (x : Channel × World). IsUploaded vault user platform key x.0.id x.1)
        (λ i. (sym same i, sym state i))
        (record {
          row = row;
          at_id = find-append w.channels.next w.channels.rows row v.channels.below live;
          opens = o;
          state = ground arith;
          user_id = u;
          platform_id = p;
          remote_id = m;
        })

  Meets-dispatch :
      (id : ℤ) (f : Unit {0} → Flow Response) {S : World → Type 0}
      → Meets (IsQueued vault user platform key id) S (f tt)
      → Meets (IsUploaded vault user platform key id) S (perform (dispatch_sync id) >>= f)
  unfolding dispatch_sync
  Meets-dispatch id f k = record {
    at = λ w u h.
        k.at _
          (record {
            uploaded =
                IsUploaded-rows id w _
                  (record {
                    channels = refl;
                    users = refl;
                    grants = refl;
                    platforms = refl;
                    clock = refl;
                  })
                  u;
            queued = any-append id w.jobs;
          })
          h;
  }

  Meets-answer :
      (id : ℤ) (r : Response)
      → Meets (IsQueued vault user platform key id) (IsStored vault user platform key) (answer r)
  Meets-answer id r = record { at = λ w q h. (id, q) }

module _ (vault : Vault) (key : Text) where
  Meets-create :
      (c : Channel) (h : Error → Response) (f : Channel → Flow Response) {S : World → Type 0}
      → open_blob vault c.enc_key ≡ ok key
      → c.key_state ≡ pending
      → c.remote_id ≡ pos 0
      → c.deleted_at ≡ none
      → ((e : Error) → (h e).success ≡ false)
      → ((ch : Channel) → Meets (IsUploaded vault c.user_id c.platform_id key ch.id) S (f ch))
      → Meets IsValid S (or_reply (create c) h >>= f)
  Meets-create c h f o s m d fails kf =
      Meets-reads (create c) h f (λ ch. IsUploaded vault c.user_id c.platform_id key ch.id) fails
        (λ w ch v e. create_lem vault c.user_id c.platform_id key c w ch v o s refl refl m d e) kf

  Meets-seal :
      (h : Error → Response) (f : Text → Flow Response) {S : World → Type 0}
      → Opens vault.aead
      → ((e : Error) → (h e).success ≡ false)
      → ((sealed : Text) → open_blob vault sealed ≡ ok key → Meets IsValid S (f sealed))
      → Meets IsValid S (or_reply (seal vault key) h >>= f)
  Meets-seal h f opens fails kf =
      Meets-reads (seal vault key) h f (λ sealed w. IsValid w × (open_blob vault sealed ≡ ok key))
        fails
        (λ w sealed v e.
          ((seal-Keeps IsValid-rows vault key).at w v, open_blob-seal vault key w sealed opens e))
        (λ sealed. record { at = λ w t k. (kf sealed t.1).at w t.0 k })

Refuses-check_upload :
    (deps : Deps) (input : ChannelInput) (platform : Platform) (grant : Grant)
    → Refuses (check_upload deps input platform grant)
unfolding check_upload api_error
Refuses-check_upload deps input platform grant =
    go (channel_upload deps.codecs deps.std input platform (some grant))
  where
    go :
        (c : Checked)
        → Refuses {A = Normalized} (λ w. elim c [
          | accepted res ↦ (next res, w)
          | rejected v ↦ (replied (api_error 400 (violation_text deps.std v)), w)
        ])
    go (accepted res) = record { refuses = λ w r e. cc }
    go (rejected v) = record { refuses = λ w r e. ground arith }

Refuses-check_limit :
    (deps : Deps) (user platform : ℤ) (grant : Grant)
    → Refuses (check_limit deps user platform grant)
unfolding check_limit
Refuses-check_limit deps user platform grant =
    search (Refuses-if, Refuses->>=, Refuses-or_default, Refuses-refuse_if, Refuses-proceed)

ruleset stored_rules =
    (Meets-create, Meets-dispatch, Meets-answer, Meets-seal, meets_rules, flow_rules, read_rules)

seal_and_store-Meets :
    (deps : Deps) (c : Context) (req : CreateChannelRequest) (prefix : Text) (res : Normalized)
    → Opens deps.vault.aead
    → Meets IsValid
        (IsStored deps.vault c.user_id req.platform_id req.key)
        (seal_and_store deps c req prefix res)
unfolding seal_and_store
seal_and_store-Meets deps c req prefix res opens =
    search (stored_rules, IsValid-rows, IsUploaded-rows) depth 40

-- The front of the handler, whatever the rest of it meets.
create_channel-Ends :
    (deps : Deps) (c : Context) (body : Option CreateChannelRequest) (S : World → Type 0)
    → ((req : CreateChannelRequest) (prefix : Text) (res : Normalized)
        → body ≡ some req
        → Meets IsValid S (seal_and_store deps c req prefix res))
    → Ends IsValid S (create_channel deps c body)
unfolding create_channel
create_channel-Ends deps c body S k =
    search
      (
        Ends-serve, Meets-require, check_upload-Keeps, check_limit-Keeps, Refuses-check_upload,
        Refuses-check_limit, Meets->>=, refused, Refuses-or_reply, Refuses-refuse_if, flow_rules,
        authorize_platform-Keeps, IsValid-rows,
      )
      depth 40

-- Where the AEAD opens what it seals, an upload that is answered with success at a valid state has
-- stored a live row of the caller and the platform, which waits for the worker, whose sealed key opens
-- to the uploaded key, and whose id is in the list of jobs.
pub create_channel-IsStored :
    (deps : Deps) (c : Context) (req : CreateChannelRequest) (w : World)
    → Opens deps.vault.aead
    → IsValid w
    → (create_channel deps c (some req) w).0.success ≡ true
    → IsStored deps.vault c.user_id req.platform_id req.key (create_channel deps c (some req) w).1
create_channel-IsStored deps c req w opens v done =
    (create_channel-Ends deps c (some req) (IsStored deps.vault c.user_id req.platform_id req.key)
        (λ req' prefix res e.
          let same : req' ≡ req = cc in
          subst
            (λ q.
              Meets IsValid (IsStored deps.vault c.user_id req.platform_id req.key)
                (seal_and_store deps c q prefix res))
            (sym same) (seal_and_store-Meets deps c req prefix res opens))).at
      w v done
