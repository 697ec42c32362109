-- ===== src/Wire.antt =====
-- What goes over HTTP: JSON values, requests to a downstream platform, and its replies.
use modex_cloud.Prelude.{ℕ, Bool, Option}
use modex_cloud.Prelude.Int.{ℤ}
use modex_cloud.Text.{Text}

mutual
  pub data Json : Type 0 where
    null : Json
    bool : Bool → Json
    num : ℤ → Json
    str : Text → Json
    arr : Items → Json
    obj : Fields → Json

  pub data Items : Type 0 where
    nil : Items
    cons : Json → Items → Items

  pub data Fields : Type 0 where
    end : Fields
    field : Text → Json → Fields → Fields

-- A request with the headers that the client sets; `content_type` and `body` are missing in a GET.
pub record HttpRequest : Type 0 where
  pub method : Text
  pub url : Text
  pub authorization : Text
  pub content_type : Option Text
  pub body : Option Json

-- The members of `apiResponse` and `usageResponse` that are read.
pub record ApiResponse : Type 0 where
  pub success : Bool
  pub message : Text
  pub data_id : ℤ
  pub data_used_quota : ℤ

-- How a request ends: it cannot be built, it gets no reply, the reply cannot be read, or it has a
-- status and a body, which may not be the JSON that is expected (`none`), as when it was cut at the
-- limit of 1 MiB.
pub data Reply : Type 0 where
  not_built no_reply unreadable : Text → Reply
  answer : ℕ → Option ApiResponse → Reply
