-- ===== src/Agent/Audit.antt =====
-- agent/hitl_audit.go: the hash-chained audit log of human decisions, and its verification.
pub mod Logger
pub mod Verify
pub mod Lines
pub mod Chain
pub mod History
pub mod Written
pub mod Trail
pub mod Forget
pub mod Tamper
pub mod Strict
pub mod Tests
use deepagent.Base.{ℕ, Option, Bool, ltb}
use deepagent.Base.Text.{Str, len}
use deepagent.Agent.Types.{AuditEntry}

-- `HITLAuditEntry`. A time stamp is a number of nanoseconds; 0 is the zero time.
pub record Entry : Type 0 where
  pub timestamp : ℕ
  pub body : AuditEntry
  pub prev_hash : Str
  pub hash : Str

-- What the hash of an entry covers: all but the hash itself.
pub record Payload : Type 0 where
  pub timestamp : ℕ
  pub body : AuditEntry
  pub prev_hash : Str

-- `json.Marshal` and `json.Unmarshal` of an entry, and the SHA-256 of the JSON of a payload.
pub record Codec : Type 0 where
  pub marshal : Entry → Option Str
  pub unmarshal : Str → Option Entry
  pub digest : Payload → Str

unfoldable pub payload : Entry → Payload
payload e = record { timestamp = e.timestamp; body = e.body; prev_hash = e.prev_hash }

unfoldable pub compute_hitl_audit_hash : Codec → Entry → Str
unfolding payload
compute_hitl_audit_hash c e = c.digest (payload e)

-- A line that `bufio.Scanner` takes: with its line feed it fits the buffer of 64 KiB.
abbrev pub max_line : ℕ
max_line = 65536

abbrev pub fits : Str → Bool
fits text = ltb (len text) max_line
