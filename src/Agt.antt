-- ===== src/Agt.antt =====
-- service/agt/client.go: the client of a downstream platform. The network and `encoding/json` are
-- in the stream of replies; what is sent is the JSON value that the source marshals.
pub mod Frame
pub mod Replies
use modex_cloud.Prelude.{
  Option, none, some, [], ◌∷◌, ◌++◌, length, leb, if◌then◌else◌, ◌==◌, text_eq,
}
use modex_cloud.Prelude.Int.{ℤ, pos, int_eq}
use modex_cloud.Text.{Text, text, trim_right_byte, itoa, itoa_ℕ}
use modex_cloud.Wire.{
  Json, num, str, obj, Fields, end, field, HttpRequest, ApiResponse, not_built, no_reply,
  unreadable, answer,
}
use modex_cloud.Model.World.{errorf, unreachable, Action, pure, raise, ◌>>=◌}

pub record Client : Type 0 where
  pub base_url : Text
  pub token : Text

unfoldable pub new_client : Text → Text → Client
new_client base_url token = record { base_url = trim_right_byte base_url b'/'; token = token }

pub record ChannelPayload : Type 0 where
  pub id : ℤ
  pub name : Text
  pub type : ℤ
  pub key : Text
  pub base_url : Text
  pub models : Text
  pub group : Text

-- `omitempty`
abbrev pub omit_zero : Text → ℤ → Fields → Fields
omit_zero k n rest = if n == pos 0 then rest else field k (num n) rest

abbrev pub omit_empty : Text → Text → Fields → Fields
omit_empty k s rest = if s == [] then rest else field k (str s) rest

unfoldable pub payload_json : ChannelPayload → Json
payload_json p = obj (
    omit_zero (text "id") p.id (
      field (text "name") (str p.name) (
        field (text "type") (num p.type) (
          omit_empty (text "key") p.key (
            field (text "base_url") (str p.base_url)
              (field (text "models") (str p.models) (field (text "group") (str p.group) end)))))))

-- `createEnvelope`
unfoldable pub envelope_json : ChannelPayload → Json
envelope_json p = obj (
    field (text "mode") (str (text "single")) (
      field (text "multi_key_mode") (str (text "random"))
        (field (text "channel") (payload_json p) end)))

-- A request and its reply: the request is logged once it is built.
unfoldable pub round_trip : HttpRequest → Action ApiResponse
round_trip req w =
    let w' = record w { sent = req ∷ w.sent } in
    elim (w.http (length w.sent)) [
      | not_built e ↦ raise (unreachable e) w
      | no_reply e ↦ raise (unreachable (text "agt request failed: " ++ e)) w'
      | unreadable e ↦ raise (unreachable e) w'
      | answer code out ↦
          if leb 500 code
          then raise (errorf (text "agt server error: HTTP " ++ itoa_ℕ code)) w'
          else elim out [
            | none ↦
                raise (errorf (text "agt returned non-JSON (HTTP " ++ (itoa_ℕ code ++ text ")"))) w'
            | some r ↦ pure r w'
          ]
    ]

unfoldable pub do_request : Client → Text → Text → Json → Action ApiResponse
do_request c method path body = round_trip (record {
  method = method;
  url = c.base_url ++ path;
  authorization = text "Bearer " ++ c.token;
  content_type = some (text "application/json");
  body = some body;
})

unfoldable pub create_channel : Client → ChannelPayload → Action ℤ
create_channel c p = do
  resp ← do_request c (text "POST") (text "/api/channel/") (envelope_json p)
  if resp.success
      then if resp.data_id == pos 0
        then raise (errorf (text "agt create returned no id"))
        else pure resp.data_id
      else raise (errorf (text "agt rejected create: " ++ resp.message))

-- The request of `UpdateChannel` once the id has been checked.
put_channel : Client → ChannelPayload → Action (Unit {0})
put_channel c p = do
  resp ← do_request c (text "PUT") (text "/api/channel/") (payload_json p)
  if resp.success then pure tt else raise (errorf (text "agt rejected update: " ++ resp.message))

unfoldable pub update_channel : Client → ChannelPayload → Action (Unit {0})
unfolding put_channel
update_channel c p =
    if p.id == pos 0
    then raise (errorf (text "update requires a top-level id"))
    else put_channel c p

query_usage : Client → ℤ → Action ℤ
query_usage c remote = do
  resp ← round_trip (record {
    method = text "GET";
    url = c.base_url ++ (text "/api/channel/" ++ itoa remote);
    authorization = text "Bearer " ++ c.token;
    content_type = none;
    body = none;
  })
  if resp.success
      then pure resp.data_used_quota
      else raise (errorf (text "agt rejected usage query: " ++ resp.message))

unfoldable pub get_channel_usage : Client → ℤ → Action ℤ
unfolding query_usage
get_channel_usage c remote =
    if remote == pos 0
    then raise (errorf (text "usage query requires a remote id"))
    else query_usage c remote
