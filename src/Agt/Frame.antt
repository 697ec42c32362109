-- ===== src/Agt/Frame.antt =====
-- The client writes nothing but the log of requests.
use modex_cloud.Prelude.{arith}
use modex_cloud.Prelude.Int.{ℤ}
use modex_cloud.Text.{Text}
use modex_cloud.Wire.{Json, HttpRequest}
use modex_cloud.Model.World.{World}
use modex_cloud.Model.Channel.Rows.{SameRows}
use modex_cloud.Agt.{
  Client, ChannelPayload, do_request, round_trip, create_channel, update_channel, get_channel_usage,
}

round_trip-SameRows : (req : HttpRequest) (w : World) → SameRows w (round_trip req w).1
unfolding round_trip
round_trip-SameRows req w = ground arith

pub do_request-SameRows :
    (c : Client) (method path : Text) (body : Json) (w : World)
    → SameRows w (do_request c method path body w).1
unfolding do_request
do_request-SameRows c method path body w = round_trip-SameRows _ w

pub create_channel-SameRows :
    (c : Client) (p : ChannelPayload) (w : World) → SameRows w (create_channel c p w).1
unfolding create_channel
create_channel-SameRows c p w = grind (arith, do_request-SameRows)

pub update_channel-SameRows :
    (c : Client) (p : ChannelPayload) (w : World) → SameRows w (update_channel c p w).1
unfolding update_channel
update_channel-SameRows c p w = grind (arith, do_request-SameRows)

pub get_channel_usage-SameRows :
    (c : Client) (remote : ℤ) (w : World) → SameRows w (get_channel_usage c remote w).1
unfolding get_channel_usage
get_channel_usage-SameRows c remote w = grind (arith, round_trip-SameRows)
