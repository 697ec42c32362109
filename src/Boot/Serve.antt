-- ===== src/Boot/Serve.antt =====
-- main.go and embed.go: what the process serves once it has started.
use modex_cloud.Prelude.{Option, none, some, List, [], ◌∷◌, ◌++◌, if◌then◌else◌, ◌==◌, text_eq}
use modex_cloud.Text.{Text, text, itoa}
use modex_cloud.Model.World.{Result, ok, err}
use modex_cloud.Config.{Config}
use modex_cloud.Router.Setup.{Engine, setup}
use modex_cloud.Router.Spa.{Files, Answer, mount_spa}
use modex_cloud.Boot.Seed.{Seeded}

-- `distFS`, over what `fs.Sub` answers.
unfoldable pub dist_fs : Result Files → Option Files
dist_fs (err e) = none
dist_fs (ok sub) = if sub.stats (text "index.html") then some sub else none

-- What is written to the log of the initial account. `quote` is `%q`.
unfoldable pub announcement : (Text → Text) → Config → Seeded → List Text
announcement quote cfg seeded =
    if seeded.created
    then if seeded.generated == []
      then (text "seeded initial admin account " ++ quote cfg.root_username) ∷ []
      else text "================ INITIAL ADMIN ACCOUNT ================"
        ∷ (text "  username: " ++ cfg.root_username)
        ∷ (text "  password: " ++ seeded.generated)
        ∷ text "  (generated; set ROOT_PASSWORD to choose your own)"
        ∷ text "  CHANGE THIS PASSWORD AFTER FIRST LOGIN"
        ∷ text "======================================================"
        ∷ []
    else []

-- The engine, the frontend, the proxies whose forwarded addresses are believed, `none` where Gin's
-- default stays, and the address that is listened on.
pub record Service : Type 0 where
  pub engine : Engine
  pub frontend : Option (Text → Answer)
  pub trusted_proxies : Option (List Text)
  pub address : Text

unfoldable pub service : Config → Result Files → Service
unfolding setup mount_spa dist_fs
service cfg sub = record {
  engine = setup cfg.session_secret;
  frontend = mount_spa (dist_fs sub);
  trusted_proxies = if cfg.trusted_proxies == [] then none else some (cfg.trusted_proxies ∷ []);
  address = text ":" ++ itoa cfg.port;
}
