-- ===== src/Core/Status.antt =====
-- The status column holds the text of a status; server/src/http.rs reads it back.
use multi_tenant_agent_platf.Prelude.{String, ◌≡◌, refl, str_eq, if◌then◌else◌}
use multi_tenant_agent_platf.Core.{RunStatus, pending, running, success, failed, as_str}

-- The `match run.status.as_str()` of `start_run` and `get_run`.
unfoldable pub status_of_text : String → RunStatus
status_of_text s =
    if str_eq s "running"
    then running
    else if str_eq s "success"
    then success
    else if str_eq s "failed"
    then failed
    else pending

-- Every status that is written to the database as a text is read back as the same status.
pub status_of_text-as_str : (s : RunStatus) → status_of_text (as_str s) ≡ s
unfolding status_of_text as_str
status_of_text-as_str pending = refl
status_of_text-as_str running = refl
status_of_text-as_str success = refl
status_of_text-as_str failed = refl
