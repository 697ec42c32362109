-- ===== src/Controller/SupplierChannel/Invariant.antt =====
-- What the requests of controller/supplier_channel.go do to the database keeps its invariant.
use modex_cloud.Prelude.{arith}
use modex_cloud.Model.Invariant.{IsValid}
use modex_cloud.Model.Invariant.Channels.{
  IsValid-rows, create-Keeps, update_metadata-Keeps, replace_key-Keeps, soft_delete_for_user-Keeps,
}
use modex_cloud.Sync.Invariant.{refresh_usage-Keeps}
use modex_cloud.Controller.SupplierChannel.Preserve.{KeptByChannels}

pub IsValid-KeptByChannels : KeptByChannels IsValid
IsValid-KeptByChannels = record {
  same = IsValid-rows;
  insert = λ c e. create-Keeps c (λ k. ground arith);
  edit = update_metadata-Keeps;
  rekey = replace_key-Keeps;
  remove = soft_delete_for_user-Keeps;
  usage = refresh_usage-Keeps;
}
