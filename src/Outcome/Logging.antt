-- ===== src/Outcome/Logging.antt =====
-- Where there is room for its number, an event is logged.
use multi_tenant_agent_platf.Prelude.{
  ℕ, ◌+◌, ◌<◌, ◌≡◌, refl, String, Bool, true, false, ◌&&◌, List, [], ◌∷◌, ◌++◌, arith, ◌==◌,
  ==_refl, leb, none,
}
use multi_tenant_agent_platf.Json.{Value, is_object}
use multi_tenant_agent_platf.Exec.{ok}
use multi_tenant_agent_platf.Rows.{exists, select, max_of}
use multi_tenant_agent_platf.Rows.Filtered.{select-insert}
use multi_tenant_agent_platf.Db.{Engine, Db, admit, lift_db}
use multi_tenant_agent_platf.Db.Traces.{
  trace_of, last_seq, max_integer, type_allowed, trace_violation, new_event, append_event,
}
use multi_tenant_agent_platf.Outcome.{Ready}

module _ {A : Type 0} (key : A → ℕ) where
  -- No row has a key above the largest.
  above_max :
      (p : A → Bool) (n : ℕ) (rows : List A)
      → max_of key (select p rows) < n
      → exists (λ u. p u && key u == n) rows ≡ false
  unfolding max_of select exists
  above_max p n [] h = refl
  above_max p n (x ∷ rows) h = ground (arith, above_max p n rows)

  max_of-insert :
      (rows : List A) (x : A) → max_of key rows < key x → max_of key (rows ++ x ∷ []) ≡ key x
  unfolding max_of
  max_of-insert [] x h = ground arith
  max_of-insert (y ∷ rows) x h = ground (arith, max_of-insert rows x)

module _ (e : Engine) (t r : ℕ) (event_type : String) (payload : Value) where
  -- The database with the event.
  abbrev pub logged : Db → Db
  logged db = record db {
    run_traces = db.run_traces ++ new_event e t r event_type payload db ∷ [];
    ticks = db.ticks + 1;
  }

  module _ (n : ℕ) (db : Db) (ready : Ready t r (n + 1) db)
      (allowed : type_allowed event_type ≡ true) (object : is_object payload ≡ true) where
    accepted : trace_violation (new_event e t r event_type payload db) db ≡ none
    unfolding trace_violation new_event last_seq
    accepted =
        let fits : leb (last_seq t r db + 1) max_integer ≡ true = ground (arith, ready.room) in
        let free =
          above_max (λ u. u.seq) (trace_of t r) (last_seq t r db + 1) db.run_traces (omega arith) in
        rw (fits, allowed, object, free, ready.stored) refl

    pub append_event-logged : append_event e t r event_type payload db ≡ (ok tt, logged db)
    unfolding append_event admit lift_db
    append_event-logged = rw accepted refl

    pub logged-Ready : Ready t r n (logged db)
    unfolding last_seq new_event
    logged-Ready = record {
      stored = ready.stored;
      room =
          let row = new_event e t r event_type payload db in
          rw
            (
              select-insert (trace_of t r) db.run_traces row (ground (arith, ==_refl t, ==_refl r)),
              max_of-insert (λ u. u.seq) (select (trace_of t r) db.run_traces) row (omega arith),
            )
            (omega (arith, ready.room));
    }
