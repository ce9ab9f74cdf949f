-- ===== src/Sensor/Task.antt =====
-- The task and credential records of pkg/sensor/process_info.go.
use capsule.Prelude.{ℕ, List, [], Bool, false}
use capsule.Prelude.Int.{ℤ, pos}
use capsule.Api.Value.{Bytes}

pub record Cred : Type 0 where
  pub initialized : Bool
  pub uid : ℕ
  pub gid : ℕ

pub record Task : Type 0 where
  pub pid : ℤ
  pub tgid : ℤ
  pub ppid : ℤ
  pub clone_flags : ℕ
  pub command : Bytes
  pub command_line : List Bytes
  pub creds : Cred
  pub container_id : Bytes

abbrev pub no_cred : Cred
no_cred = record { initialized = false; uid = 0; gid = 0 }

-- Go's zero value of `task`.
abbrev pub zero_task : Task
zero_task = record {
  pid = pos 0;
  tgid = pos 0;
  ppid = pos 0;
  clone_flags = 0;
  command = [];
  command_line = [];
  creds = no_cred;
  container_id = [];
}

-- What a sensor function stops with, beside a panic: `glog.Fatal`, or a loop that is still running
-- when the fuel of the model ends.
pub data Stop : Type 0 where
  fatal running : Stop
