-- ===== src/Controller/SupplierChannel/Tests.antt =====
-- The theorems on the handlers at a server with one supplier.
use modex_cloud.Prelude.{
  ◌≡◌, ◌≢◌, refl, ◌∷◌, [], List, some, none, Option, find, arith, ℕ, ◌<◌, zero, suc, ◌==◌, count,
  any, true,
}
use modex_cloud.Prelude.Int.{ℤ, pos, int_eq}
use modex_cloud.Constant.{status_disabled}
use modex_cloud.Model.World.{ok, tick}
use modex_cloud.Model.Invariant.{IsValid}
use modex_cloud.Model.Grant.{enables}
use modex_cloud.Controller.SupplierChannel.{
  authorize_platform, build_name, generate_channel_name, max_probes, create_channel, delete_channel,
}
use modex_cloud.Controller.SupplierChannel.Runs.{Event, creates, work, deletes, run, run-IsValid}
use modex_cloud.Controller.SupplierChannel.Names.{
  Probed, first_number, authorize_platform_ok, generate_channel_name-Probed,
}
use modex_cloud.Controller.SupplierChannel.Atomic.{
  IsAllOrNothing, Unchanged, failed_requests_change_nothing,
}
use modex_cloud.Controller.SupplierChannel.Names.Fresh.{generate_channel_name-fresh}
use modex_cloud.Model.Channel.{of_pair, has_name}
use modex_cloud.Text.{Text}
use modex_cloud.Crypto.Tests.{toy-Opens}
use modex_cloud.Model.Schema.{Channel}
use modex_cloud.Model.Channel.Rows.{Row}
use modex_cloud.Controller.SupplierChannel.Published.{Publishes, create_channel-Publishes}
use modex_cloud.Examples.{toy_deps, open_platform, open_grant, server, supplier, upload}

server-IsValid : IsValid server
server-IsValid = record {
  channels = record { wiped = ground arith; below = ground arith; distinct = ground arith };
}

-- An upload, the background runs of the two channels, the later one first, and a deletion.
abbrev day : List Event
day = creates supplier (some upload) ∷ work 1 ∷ work 0 ∷ deletes supplier ∷ []

run-IsValid_example : IsValid (run toy_deps day server)
run-IsValid_example = run-IsValid toy_deps day server server-IsValid

failed_requests_change_nothing_example :
    IsAllOrNothing (Unchanged server.channels) (create_channel toy_deps supplier none)
    × IsAllOrNothing (Unchanged server.channels) (delete_channel supplier)
failed_requests_change_nothing_example =
    failed_requests_change_nothing toy_deps server.channels supplier none

generate_channel_name-Probed_example :
    Probed server.channels.rows
      (pos 5)
      (pos 2)
      (build_name (117 ∷ []) [] (103 ∷ []))
      (first_number (pos 5) (pos 2) server)
      max_probes
      (first_number (pos 5) (pos 2) server)
      (generate_channel_name (pos 5) (pos 2) (117 ∷ []) [] (103 ∷ []) server).0
generate_channel_name-Probed_example =
    generate_channel_name-Probed (pos 5) (pos 2) (117 ∷ []) [] (103 ∷ []) server

few_channels : count (of_pair (pos 5) (pos 2)) server.channels.rows < max_probes
unfolding of_pair modex_cloud.Prelude.Int.int_beq
few_channels = omega arith

generate_channel_name-fresh_example :
    (name : Text) × ((generate_channel_name (pos 5) (pos 2) (117 ∷ []) [] (103 ∷ []) server).0
      ≡ ok name)
    × (count (has_name (pos 5) (pos 2) name) server.channels.rows ≡ 0)
generate_channel_name-fresh_example =
    generate_channel_name-fresh (pos 5) (pos 2) (117 ∷ []) [] (103 ∷ []) server (λ n. refl)
      few_channels

authorized :
    authorize_platform (pos 5) (pos 2) server ≡ (ok (open_platform, open_grant), tick (tick server))
unfolding authorize_platform modex_cloud.Model.Platform.get_platform_by_id
    modex_cloud.Prelude.Int.int_beq modex_cloud.Model.Grant.get_grant enables
authorized = refl

authorize_platform_ok_example :
    (find (λ p. p.id == pos 2) server.platforms.rows ≡ some open_platform)
    × (open_platform.status ≢ status_disabled)
    × (find (enables (pos 5) (pos 2)) server.grants.rows ≡ some open_grant)
    × (tick (tick server) ≡ tick (tick server))
authorize_platform_ok_example =
    authorize_platform_ok (pos 5) (pos 2) server (tick (tick server)) open_platform open_grant
      authorized

accepted : (create_channel toy_deps supplier (some upload) server).0.success ≡ true
unfolding create_channel modex_cloud.Controller.SupplierChannel.seal_and_store authorize_platform
    build_name generate_channel_name of_pair has_name enables
    modex_cloud.Model.Platform.get_platform_by_id modex_cloud.Model.Grant.get_grant
    modex_cloud.Prelude.Int.int_beq modex_cloud.Prelude.text_beq modex_cloud.Text.trim_space
    modex_cloud.Model.Platform.group_for_type modex_cloud.Model.Platform.find_group_for_type
    modex_cloud.Model.Platform.parsed_groups modex_cloud.Json.decode_list
    modex_cloud.Controller.SupplierChannel.check_upload modex_cloud.Validate.channel_upload
    modex_cloud.Validate.check_supported modex_cloud.Constant.is_supported_channel_type
    modex_cloud.Validate.check_type modex_cloud.Validate.compute_effective
    modex_cloud.Constant.channel_type_name modex_cloud.Controller.Flow.api_error
    modex_cloud.Controller.Flow.api_success modex_cloud.Controller.SupplierChannel.dispatch_sync
    modex_cloud.Controller.SupplierChannel.probe_name
    modex_cloud.Controller.SupplierChannel.key_state_text
    modex_cloud.Controller.SupplierChannel.check_limit modex_cloud.Crypto.fingerprint
    modex_cloud.Crypto.last4 modex_cloud.Crypto.read_full modex_cloud.Crypto.seal
    modex_cloud.Crypto.seal_blob modex_cloud.Crypto.tabulate modex_cloud.Model.Audit.write_audit
    modex_cloud.Model.Channel.channel_name_exists
    modex_cloud.Model.Channel.count_channels_for_user_platform modex_cloud.Model.Channel.create
    modex_cloud.Model.Channel.fingerprint_exists_for_user modex_cloud.Model.Channel.has_fingerprint
    modex_cloud.Model.Channel.next_channel_seq modex_cloud.Model.Channel.on_platform
    modex_cloud.Model.World.error_text modex_cloud.Text.has_prefix modex_cloud.Text.hex_encode
    modex_cloud.Text.itoa modex_cloud.Text.itoa_ℕ modex_cloud.Text.join modex_cloud.Text.split
    modex_cloud.Text.text modex_cloud.Validate.check_base modex_cloud.Validate.check_group
    modex_cloud.Validate.check_models modex_cloud.Validate.intersect_ints
    modex_cloud.Validate.intersect_strings modex_cloud.Validate.normalize_models
    modex_cloud.Validate.to_int_set modex_cloud.Validate.to_str_set
    modex_cloud.Validate.validate_base_url modex_cloud.Validate.violation_text
accepted = refl

create_channel-Publishes_example :
    let v = (create_channel toy_deps supplier (some upload) server).1 in
    (id : ℤ) × (r : Channel) × (any (λ j. j == id) v.jobs ≡ true)
    × Row id r v
    × (r.user_id ≡ pos 5)
    × (r.platform_id ≡ upload.platform_id)
    × Publishes toy_deps.vault upload.key id r v
create_channel-Publishes_example =
    create_channel-Publishes toy_deps supplier upload server toy-Opens server-IsValid accepted
