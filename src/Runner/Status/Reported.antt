-- ===== src/Runner/Status/Reported.antt =====
-- ReadStatus of internal/runner/status.go after an update.
use node_box.Prelude.{String, ◌≡◌, sym, ap, subst, Bool, true, false, not, ◌&&◌, some, Result}
use node_box.Control.{Trigger, Status}
use node_box.Output.State.{State, load_state}
use node_box.Runner.Update.{World, Env, UpdateError, execute}
use node_box.Runner.Update.Ended.{outcome_text, HasEnded, execute-HasEnded}
use node_box.Runner.Status.{read_status, bare_status, with_state}

-- No run is under way or broken off, and the last error is that of the run that has returned.
abbrev pub IsSettled : Env → Result UpdateError (Unit {0}) → Status → Type 0
IsSettled env r s =
    (s.updating ≡ false) × (s.interrupted ≡ false) × (s.last_error ≡ outcome_text env r)

settled :
    (env : Env) (source : String) (held : Bool) (r : World × Result UpdateError (Unit {0}))
    → HasEnded env r
    → IsSettled env r.1 (read_status source held r.0)
unfolding read_status bare_status with_state load_state
settled env source held (w, r) (s, f, u, e) =
    subst (λ x. IsSettled env r (with_state held (bare_status source held w) (load_state x)))
      (sym f) (ap (λ b. b && held) u, ap (λ b. b && not held) u, e)

-- Where the state file can be read and every state can be saved: once an update of a writable runner
-- has returned, in whatever way, the status reports no run as under way or interrupted, whether or
-- not the lock is held, and the last error is that of this update, or none.
pub read_status-IsSettled :
    (env : Env) (t : Trigger) (w : World) (old : State) (source : String) (held : Bool)
    → ((s : State) → env.refuses_state s ≡ false)
    → env.writable ≡ true
    → load_state w.state_file ≡ some old
    → IsSettled env (execute env t w).1 (read_status source held (execute env t w).0)
read_status-IsSettled env t w old source held saves writable loaded =
    settled env source held (execute env t w) (execute-HasEnded env saves t w old writable loaded)
