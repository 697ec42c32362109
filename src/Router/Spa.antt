-- ===== src/Router/Spa.antt =====
-- router/spa.go: what answers a request that no route takes.
use modex_cloud.Prelude.{Bool, not, ◌&&◌, ◌||◌, Option, none, some, if◌then◌else◌, ◌==◌, text_eq}
use modex_cloud.Text.{Text, text, has_prefix, trim_prefix}
use modex_cloud.Controller.Flow.{Response, api_error}

-- The embedded files: reading one, and whether one can be opened and described (`fs.Stat`).
pub record Files : Type 0 where
  pub read_file : Text → Option Text
  pub opens : Text → Bool
  pub stats : Text → Bool

-- An error in JSON, the file that the file server finds at the path, or the page of the application.
pub data Answer : Type 0 where
  refused : Response → Answer
  asset : Text → Answer
  shell : Text → Answer

unfoldable pub no_route : Files → Text → Text → Answer
no_route dist index_html p =
    if has_prefix p (text "/api/") || (p == text "/health")
    then refused (api_error 404 (text "not found"))
    else if not (p == text "/") && dist.opens (trim_prefix p (text "/"))
    then asset p
    else shell index_html

-- What is mounted over the page that has been read.
abbrev mounted : Files → Option Text → Option (Text → Answer)
mounted dist none = none
mounted dist (some index_html) = some (no_route dist index_html)

-- `none` where nothing is mounted: there are no files, or no page.
unfoldable pub mount_spa : Option Files → Option (Text → Answer)
mount_spa none = none
mount_spa (some dist) = mounted dist (dist.read_file (text "index.html"))
