-- ===== src/Promoter/World.antt =====
-- What one tick of the promoter reads and writes: the files of this node, the server, and what the
-- outside (Home Assistant's HTTP port, Docker, the notify scripts) answers.
-- Instants and windows are in microseconds. Within a tick the local clock stands still, but for
-- what a notify script does to the world.
use ha_cluster_state_sync.Prelude.{ℕ, ℤ, Bool, Option, List, Text}
use ha_cluster_state_sync.Store.{Redis}

-- A file's bytes: UTF-8 with its text, or not UTF-8, with what `errors="replace"` makes of it.
pub data Content : Type 0 where
  utf8 : Text → Content
  broken : Text → Content

pub record File : Type 0 where
  pub content : Content
  pub mtime : ℕ

-- What happens to one command sent to the server. An error of either kind is a `ValkeyError`.
pub data Link : Type 0 where
  up : Link
  refused : Link
  reply_lost : Link

-- What a GET of Home Assistant's URL comes to.
pub data Http : Type 0 where
  answered : Http
  http_error : Http
  silent : Http

-- The dictionary of `_docker_inspector`; `started_at` is 0 where it could not be read.
pub record ContainerState : Type 0 where
  pub restarting : Bool
  pub running : Bool
  pub exit_code : Option ℕ
  pub started_at : ℕ

pub data Inspect : Type 0 where
  raises : Inspect
  no_answer : Inspect
  answers : ContainerState → Inspect

-- Why `container_is_returning` says yes; the source renders each as a sentence.
pub data Reason : Type 0 where
  is_restarting : Reason
  asked_to_restart : Reason
  still_booting : (age : ℕ) → Reason

pub data Role : Type 0 where
  master : Role
  backup : Role

-- An operation on a file that the operating system refuses during this tick.
pub record Refusals : Type 0 where
  pub read_state : Bool
  pub read_hold : Bool
  pub read_handover : Bool
  pub unlink_handover : Bool
  pub touch_holddown : Bool
  pub unlink_holddown : Bool
  pub write_used : Bool
  pub write_reason : Bool
  pub write_state : Bool
  pub make_state_dir : Bool

pub record World (Server : Type 0) : Type 0 where
  pub server : Server
  pub links : List Link
  pub now : ℕ
  pub state_file : Option File
  pub holddown : Option ℕ
  pub hold_file : Option Content
  pub force_file : Bool
  pub force_used : Option Text
  pub handover_file : Option Content
  pub reason_file : Option Reason
  pub http : Http
  pub inspect : Inspect
  pub refusals : Refusals

-- An exception: of the client, of the operating system, or any other, such as a
-- `UnicodeDecodeError`, which is a `ValueError`.
pub data Failure : Type 0 where
  valkey_error : Failure
  os_error : Failure
  value_error : Failure

pub data Result (A : Type 0) : Type 0 where
  ok : A → Result A
  err : Failure → Result A

-- What the heartbeat reports: `offset` holds the local time and the server's two numbers.
pub record Beat : Type 0 where
  pub node_id : Text
  pub offset : Option (ℕ × ℕ × ℕ)
  pub bundle_version : Text
  pub at : ℕ

-- The server, and what is not written in this repository or is of Python's library:
-- `datetime.fromisoformat` (an instant, or none for a `ValueError`; a naive one is read as UTC),
-- `isoformat`, `json.dumps` of the heartbeat, and the run of a notify script, which may do
-- anything to the world, return any code, also the negative one of a signal, or raise.
pub record Env (Server : Type 0) : Type 0 where
  pub redis : Redis Server
  pub fromisoformat : Text → Option ℕ
  pub isoformat : ℕ → Text
  pub dumps : Beat → Text
  pub runner : Role → World Server → Result ℤ × World Server

-- The arguments of `run`. A `False` in `has_…` is a `None` there.
pub record Config : Type 0 where
  pub namespace : Text
  pub node_id : Text
  pub ttl : ℕ
  pub base_grace : ℕ
  pub probe_grace : ℕ
  pub release_holddown : ℕ
  pub heartbeat_ttl_ms : ℕ
  pub has_hold_path : Bool
  pub has_handover_path : Bool
  pub has_inspector : Bool
  pub has_reason_path : Bool
  pub no_probe : Bool
  pub reconcile_backup : Bool
  pub bundle_version : Text
