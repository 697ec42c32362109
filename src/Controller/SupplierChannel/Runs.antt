-- ===== src/Controller/SupplierChannel/Runs.antt =====
-- The supplier's requests and the background runs that they dispatch, in any order. A request and a
-- background run each count as one step.
use modex_cloud.Prelude.{ℕ, zero, suc, refl, ◌+◌, Option, none, some, List, [], ◌∷◌}
use modex_cloud.Prelude.Int.{ℤ, int_eq}
use modex_cloud.Model.World.{World}
use modex_cloud.Model.Invariant.{IsValid}
use modex_cloud.Model.Invariant.Channels.{IsValid-same}
use modex_cloud.Sync.{sync_channel}
use modex_cloud.Sync.Invariant.{sync_channel-Keeps}
use modex_cloud.Controller.Flow.{Context}
use modex_cloud.Controller.SupplierChannel.{
  Deps, CreateChannelRequest, UpdateChannelRequest, create_channel, update_channel, resync_channel,
  refresh_channel_usage, list_channels, delete_channel,
}
use modex_cloud.Controller.SupplierChannel.Invariant.{IsValid-KeptByChannels}
use modex_cloud.Controller.SupplierChannel.Preserve.{
  any_user, create_channel-Serves, update_channel-Serves, resync_channel-Serves,
  refresh_channel_usage-Serves, list_channels-Serves, delete_channel-Serves,
}

-- A step of the server; `work` begins the job at an index of the list, `wait` passes seconds.
pub data Event : Type 0 where
  creates : Context → Option CreateChannelRequest → Event
  updates : Context → Option UpdateChannelRequest → Event
  resyncs refreshes deletes : Context → Event
  lists : Context → ℤ → ℕ → ℕ → Event
  work wait : ℕ → Event

-- The job at an index, and the others.
unfoldable pub take_job : ℕ → List ℤ → Option (ℤ × List ℤ)
take_job n [] = none
take_job zero (j ∷ js) = some (j, js)
take_job (suc n) (j ∷ js) = elim (take_job n js) [ none ↦ none | some t ↦ some (t.0, j ∷ t.1) ]

abbrev start_job : World → List ℤ → World
start_job w js = record w { jobs = js }

module _ (deps : Deps) where
  unfoldable pub run_job : ℕ → World → World
  unfolding take_job
  run_job n w = elim (take_job n w.jobs) [
    | none ↦ w
    | some t ↦ (sync_channel deps.vault t.0 (start_job w t.1)).1
  ]

  unfoldable pub step : Event → World → World
  unfolding run_job
  step (creates c body) w = (create_channel deps c body w).1
  step (updates c body) w = (update_channel deps c body w).1
  step (resyncs c) w = (resync_channel deps c w).1
  step (refreshes c) w = (refresh_channel_usage deps c w).1
  step (deletes c) w = (delete_channel c w).1
  step (lists c platform offset limit) w = (list_channels deps c platform offset limit w).1
  step (work n) w = run_job n w
  step (wait n) w = record w { clock = w.clock + n }

  unfoldable pub run : List Event → World → World
  unfolding step
  run [] w = w
  run (e ∷ es) w = run es (step e w)

  run_job-IsValid : (n : ℕ) (w : World) → IsValid w → IsValid (run_job n w)
  unfolding run_job
  run_job-IsValid n w v = job (take_job n w.jobs)
    where
      job :
          (o : Option (ℤ × List ℤ))
          → IsValid
              (elim o [ none ↦ w | some t ↦ (sync_channel deps.vault t.0 (start_job w t.1)).1 ])
      job none = v
      job (some t) =
          (sync_channel-Keeps deps.vault t.0).at (start_job w t.1) (IsValid-same w _ refl v)

  step-IsValid : (e : Event) (w : World) → IsValid w → IsValid (step e w)
  unfolding step
  step-IsValid (creates c body) w v =
      (create_channel-Serves deps c (any_user IsValid-KeptByChannels c.user_id) body).at w v
  step-IsValid (updates c body) w v =
      (update_channel-Serves deps c (any_user IsValid-KeptByChannels c.user_id) body).at w v
  step-IsValid (resyncs c) w v =
      (resync_channel-Serves deps c (any_user IsValid-KeptByChannels c.user_id)).at w v
  step-IsValid (refreshes c) w v =
      (refresh_channel_usage-Serves deps c (any_user IsValid-KeptByChannels c.user_id)).at w v
  step-IsValid (deletes c) w v =
      (delete_channel-Serves deps c (any_user IsValid-KeptByChannels c.user_id)).at w v
  step-IsValid (lists c platform offset limit) w v =
      (list_channels-Serves deps c (any_user IsValid-KeptByChannels c.user_id) platform offset
          limit).at
        w v
  step-IsValid (work n) w v = run_job-IsValid n w v
  step-IsValid (wait n) w v = IsValid-same w _ refl v

  -- From a valid state, whatever requests a server answers and whatever background runs it makes,
  -- in any order and whichever database statements fail, its state stays valid: no channel is
  -- recorded as synced while its sealed key is left, and ids are distinct and below the counter.
  pub run-IsValid : (es : List Event) (w : World) → IsValid w → IsValid (run es w)
  unfolding run
  run-IsValid [] w v = v
  run-IsValid (e ∷ es) w v = run-IsValid es (step e w) (step-IsValid e w v)
