-- ===== src/World/Response.antt =====
-- server/response_writer_wrapper.go: what the wrapper of the response writer keeps. Hijack and Flush
-- hand on to the writer that net/http gives.
use mattermost_mattermod.Base.{ℕ, Bool, true, false, if◌then◌else◌}

-- responseWriterWrapper
pub record Writer : Type 0 where
  pub status_code : ℕ
  pub status_code_written : Bool

-- newWrappedWriter
abbrev pub new_wrapped_writer : Writer
new_wrapped_writer = record { status_code = 0; status_code_written = false }

-- WriteHeader
abbrev pub write_header : ℕ → Writer → Writer
write_header status_code rw = record { status_code = status_code; status_code_written = true }

-- Write
abbrev pub write : Writer → Writer
write rw = record rw { status_code = if rw.status_code_written then rw.status_code else 200 }
