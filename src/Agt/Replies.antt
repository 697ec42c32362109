-- ===== src/Agt/Replies.antt =====
-- What the client takes from a platform's reply, beside the replies themselves.
use modex_cloud.Prelude.{
  ◌≡◌, Bool, true, false, Option, some, none, length, if◌then◌else◌, ◌==◌, arith,
}
use modex_cloud.Prelude.Int.{ℤ, pos, int_eq}
use modex_cloud.Wire.{Reply, answer}
use modex_cloud.Model.World.{World, Result, ok, err}
use modex_cloud.Agt.{Client, ChannelPayload, do_request, round_trip, create_channel, update_channel}

-- What the platform answers to the next request.
abbrev pub next_reply : World → Reply
next_reply w = w.http (length w.sent)

-- Whether an answer says that what was asked has been done.
abbrev pub is_success : Reply → Bool
is_success (answer code (some reply)) = reply.success
is_success _ = false

-- The id of the channel that an answer says has been created.
abbrev pub created_id : Reply → Option ℤ
created_id (answer code (some reply)) =
    if reply.success then if reply.data_id == pos 0 then none else some reply.data_id else none
created_id _ = none

abbrev pub Creates : World → Result ℤ → Type 0
Creates w (ok remote) = created_id (next_reply w) ≡ some remote
Creates w (err e) = Unit

pub create_channel-Creates :
    (c : Client) (p : ChannelPayload) (w : World) → Creates w (create_channel c p w).0
unfolding create_channel do_request round_trip
create_channel-Creates c p w = ground arith

abbrev pub Updates : World → Result (Unit {0}) → Type 0
Updates w (ok _) = is_success (next_reply w) ≡ true
Updates w (err e) = Unit

pub update_channel-Updates :
    (c : Client) (p : ChannelPayload) (w : World) → Updates w (update_channel c p w).0
unfolding update_channel do_request round_trip
update_channel-Updates c p w = ground arith
