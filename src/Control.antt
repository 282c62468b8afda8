-- ===== src/Control.antt =====
-- internal/control/control.go: what asks for an update, and what is reported. A time is its
-- nanosecond, and `none` is time.Time{}.
use node_box.Prelude.{ℕ, String, Bool, Option, Dict}

pub data Kind : Type 0 where
  startup schedule poll webhook signal manual : Kind

pub record Trigger : Type 0 where
  pub kind : Kind
  pub ref : String
  pub force : Bool

abbrev pub Time : Type 0
Time = Option ℕ

pub record Status : Type 0 where
  pub source : String
  pub current : String
  pub previous : String
  pub applied_ref : String
  pub updated_at : Time
  pub last_error : String
  pub last_error_at : Time
  pub daemon_active : Bool
  pub updating : Bool
  pub interrupted : Bool
  pub last_trigger : String
  pub started_at : Time
  pub outputs : Dict String
