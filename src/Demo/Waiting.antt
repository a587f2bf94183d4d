-- ===== src/Demo/Waiting.antt =====
-- Waiting for a run comes to an end.
use multi_tenant_agent_platf.Prelude.{
  ℕ, zero, suc, ◌+◌, ◌≤◌, ◌<◌, ◌≡◌, refl, String, Bool, true, false, not, Option, none, some, leb,
  if◌then◌else◌, arith, inl, inr, Bool-cases, ◌⊎◌,
}
use multi_tenant_agent_platf.Core.{RunResponse}
use multi_tenant_agent_platf.Exec.{Result, ok, err, Exec, continue, raise, ok_or, ◌>>=◌}
use multi_tenant_agent_platf.Exec.Moves.{
  Moves, IsPreorder, Moves-bind, Moves-raise, Moves-ok_or, Moves-if,
}
use multi_tenant_agent_platf.Demo.Client.{
  Host, Reqwest, Format, ApiClient, ClientError, HttpRequest, HttpResponse, request_failed,
  timed_out, is_success, sent, received, request, built,
}
use multi_tenant_agent_platf.Demo.Client
use multi_tenant_agent_platf.Demo.Requests.{Call, get_run_call}
use multi_tenant_agent_platf.Demo.Handlers.{
  Formats, is_open, from_secs, perform, Outcome, polled, wait_loop, wait_for_run,
}

-- The error is one of a request: it was not sent, its answer was not read, was a refusal or no JSON.
abbrev pub IsEarly : ClientError → Type 0
IsEarly (request_failed url) = Unit {0}
IsEarly Client.unreadable_response = Unit {0}
IsEarly (Client.refused status text) = Unit {0}
IsEarly (Client.invalid_json url) = Unit {0}
IsEarly (timed_out run_id) = ⊥
IsEarly (Client.failed_to_read path) = ⊥
IsEarly (Client.invalid_file path) = ⊥
IsEarly Client.unprintable = ⊥

abbrev RaisesEarly : {A : Type 0} → Result ClientError A → Type 0
RaisesEarly (ok a) = Unit {0}
RaisesEarly (err e) = IsEarly e

module _ {W : Type 0} where
  ok_or-RaisesEarly :
      {A : Type 0} (a : Option A) (e : ClientError) (w : W)
      → IsEarly e
      → RaisesEarly (ok_or {S = W} a e w).0
  unfolding ok_or
  ok_or-RaisesEarly none e w early = early
  ok_or-RaisesEarly (some a) e w early = tt

  bind-RaisesEarly :
      {A B : Type 0} (m : Exec W ClientError A) (f : A → Exec W ClientError B) (w : W)
      → RaisesEarly (m w).0
      → ((a : A) (w : W) → RaisesEarly (f a w).0)
      → RaisesEarly ((m >>= f) w).0
  unfolding ◌>>=◌
  bind-RaisesEarly {A} {B} m f w early rest = go (m w).0 (m w).1 early
    where
      go : (r : Result ClientError A) (w : W) → RaisesEarly r → RaisesEarly (continue r f w).0
      go (ok a) w early = rest a w
      go (err e) w early = early

  raise-RaisesEarly :
      (A : Type 0) (e : ClientError) (w : W) → IsEarly e → RaisesEarly {A = A} (raise {S = W} e w).0
  unfolding raise
  raise-RaisesEarly A e w early = early

module _ {W : Type 0} (h : Host W) where
  -- The clock does not go back.
  abbrev Later : W → W → Type 0
  Later before after = h.now before ≤ h.now after

  Later-IsPreorder : IsPreorder Later
  Later-IsPreorder = record { stay = λ s. omega arith; chain = λ s t u f g. omega (arith, f, g) }

  module _ {T : Type 0} (q : Reqwest) (format : Format T) where
    sent-Later : (url : String) (r : Option HttpRequest) → Moves Later (sent q h format url r)
    unfolding ok_or
    sent-Later url none = record { at = λ w. omega arith }
    sent-Later url (some r) = record {
      at = λ w. go w (h.send r w).0 (h.send r w).1 (h.send-now r w);
    }
      where
        go :
            (w : W) (o : Option HttpResponse) (w' : W)
            → Later w w'
            → Later w (ok_or {S = W} {E = ClientError} o (request_failed url) w').1
        go w none w' l = l
        go w (some x) w' l = l

    perform-Later :
        (client : ApiClient) (call : Call) → Moves Later (perform h q format client call)
    unfolding perform request received
    perform-Later client call =
        search (Later-IsPreorder, Moves-bind, Moves-raise, Moves-ok_or, Moves-if, sent-Later) depth
          12

    sent-RaisesEarly :
        (url : String) (r : Option HttpRequest) (w : W) → RaisesEarly (sent q h format url r w).0
    sent-RaisesEarly url none w = tt
    sent-RaisesEarly url (some r) w = ok_or-RaisesEarly _ (request_failed url) _ tt

    received-RaisesEarly :
        (url : String) (x : HttpResponse) (w : W) → RaisesEarly (received q h format url x w).0
    unfolding received
    received-RaisesEarly url x w =
        bind-RaisesEarly _ _ w (ok_or-RaisesEarly x.text Client.unreadable_response w tt)
          λ text w. go text w (not (is_success x.status))
      where
        go :
            (text : String) (w : W) (b : Bool)
            → RaisesEarly
                ((if b
                    then raise (Client.refused x.status text)
                    else ok_or (format.from_str text) (Client.invalid_json url))
                  w).0
        go text w true = raise-RaisesEarly T (Client.refused x.status text) w tt
        go text w false = ok_or-RaisesEarly (format.from_str text) (Client.invalid_json url) w tt

    perform-RaisesEarly :
        (client : ApiClient) (call : Call) (w : W)
        → RaisesEarly (perform h q format client call w).0
    unfolding perform request
    perform-RaisesEarly client call w =
        bind-RaisesEarly _ _ w (sent-RaisesEarly _ _ w) (received-RaisesEarly _)

  -- What waiting may give: a run that has ended, the error of the deadline once it has passed, or an
  -- error of a request. It is not to go on.
  unfoldable pub IsWaited : ℕ → ℕ → Outcome h RunResponse → Type 0
  IsWaited run_id deadline none = ⊥
  IsWaited run_id deadline (some (ok run, w)) = is_open run.status ≡ false
  IsWaited run_id deadline (some (err e, w)) =
      IsEarly e ⊎ ((e ≡ timed_out run_id) × (deadline ≤ h.now w))

  polled-IsWaited :
      (run_id deadline poll_secs : ℕ) (next : W → Outcome h RunResponse)
      (x : Result ClientError RunResponse × W)
      → RaisesEarly x.0
      → ((w : W)
          → h.now x.1 < deadline
          → h.now x.1 + from_secs poll_secs ≤ h.now w
          → IsWaited run_id deadline (next w))
      → IsWaited run_id deadline (polled h run_id deadline poll_secs next x)
  unfolding polled IsWaited
  polled-IsWaited run_id deadline poll_secs next (err e, w) early rest = inl early
  polled-IsWaited run_id deadline poll_secs next (ok run, w) early rest =
      elim (Bool-cases (is_open run.status)) [
        | inl still ↦ elim (Bool-cases (leb deadline (h.now w))) [
          | inl over ↦ rw (still, over) (inr (refl, ground (arith, over)))
          | inr before ↦ rw (still, before) (rest _ (ground (arith, before)) (h.sleep-now _ w))
        ]
        | inr ended ↦ rw (ended) ended
      ]

  module _ (q : Reqwest) (format : Format RunResponse) where
    wait_loop-IsWaited :
        (client : ApiClient) (call : Call) (run_id deadline poll_secs fuel : ℕ) (w : W)
        → 1 ≤ poll_secs
        → deadline ≤ h.now w + from_secs fuel
        → IsWaited run_id deadline
            (wait_loop h q format client call run_id deadline poll_secs (suc fuel) w)
    unfolding wait_loop
    wait_loop-IsWaited client call run_id deadline poll_secs zero w pause enough =
        polled-IsWaited run_id deadline poll_secs (λ w. none) (perform h q format client call w)
          (perform-RaisesEarly q format client call w)
          λ w' before _. absurd (omega (arith, (perform-Later q format client call).at w))
    wait_loop-IsWaited client call run_id deadline poll_secs (suc fuel) w pause enough =
        polled-IsWaited run_id deadline poll_secs
          (wait_loop h q format client call run_id deadline poll_secs (suc fuel))
          (perform h q format client call w) (perform-RaisesEarly q format client call w)
          λ w' before later.
            wait_loop-IsWaited client call run_id deadline poll_secs fuel w' pause
              (omega (arith, (perform-Later q format client call).at w))

  -- Waiting for a run comes to an end, if each request comes back with a response or an error: with a
  -- pause of at least a second, one request more than the timeout has seconds is enough. What comes back
  -- is a run that is neither pending nor running, the error that names the run once the timeout has passed
  -- since the start, or another error, which is one of a request.
  pub wait_for_run-IsWaited :
      (q : Reqwest) (f : Formats) (client : ApiClient) (api_key : String)
      (run_id timeout_secs poll_secs : ℕ) (w : W)
      → 1 ≤ poll_secs
      → IsWaited run_id
          (h.now w + from_secs timeout_secs)
          (wait_for_run h q f client (suc timeout_secs) api_key run_id timeout_secs poll_secs w)
  unfolding wait_for_run
  wait_for_run-IsWaited q f client api_key run_id timeout_secs poll_secs w pause =
      wait_loop-IsWaited q f.run client (get_run_call f.serde api_key run_id) run_id _ poll_secs
        timeout_secs w pause (omega arith)
