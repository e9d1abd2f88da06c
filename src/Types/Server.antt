-- ===== src/Types/Server.antt =====
-- crates/nzbd-types/src/lib.rs: the definition of a news server.
use nzbd.Prelude.{ℕ, Bool, Option}
use nzbd.Types.Torrent.{Text}
use nzbd.Types.Job.{ServerId}

pub data TlsMode : Type 0 where
  none tls : TlsMode

pub data CertLevel : Type 0 where
  none minimal strict : CertLevel

pub record ServerDef : Type 0 where
  pub id : ServerId
  pub name : Text
  pub host : Text
  pub port : ℕ
  pub tls : TlsMode
  pub username : Option Text
  pub password : Option Text
  pub active : Bool
  pub tier : ℕ
  pub group : ℕ
  pub fill : Bool
  pub max_connections : ℕ
  pub pipeline_depth : ℕ
  pub retention_days : ℕ
  pub cert_verification : CertLevel
