-- ===== src/History/Reading.antt =====
-- What a client reads of the log: the events of a run in the order in which they were added.
use mathlib.Core.Logic.Or
use mathlib.Core.List.{
  Perm, Pairwise, Pairwise-cons, Mem, mem-cons, not-mem-nil, mem-cons_self, perm-cons,
}
use mathlib.Core.List.Perm
use multi_tenant_agent_platf.Prelude.{
  ℕ, suc, ◌≤◌, ◌<◌, ◌≡◌, sym, ap, subst, List, [], ◌∷◌, arith, map,
}
use Prim.Native.Char.{Char, IsScalar}
use text.Mathlib.TextEquality.{IsScalar-prop}
use mathlib.Core.HLevel.{prop→set}
use native.Mathlib.Bridge.{le_prop}
use multi_tenant_agent_platf.Json.{Value}
use multi_tenant_agent_platf.Exec.{ok}
use multi_tenant_agent_platf.Db.{Engine, Db, TraceRow}
use multi_tenant_agent_platf.Db.Traces.{trace_from_row, get_trace}
use multi_tenant_agent_platf.History.{Numbered, events, IsNumbered}

IsScalar-set : (n : ℕ) → IsSet (IsScalar n)
IsScalar-set n = prop→set (IsScalar-prop n)

Char-set : IsSet Char
Char-set = hlevel IsScalar-set

Value-set : IsSet Value
Value-set = hlevel IsScalar-set

TraceRow-set : IsSet TraceRow
TraceRow-set = hlevel (IsScalar-set, Value-set)

-- Numbers along a numbered list are above its start.
Numbered-lt : (n : ℕ) (rs : List TraceRow) (r : TraceRow) → Numbered n rs → Mem r rs → n < r.seq
Numbered-lt n [] r h m = absurd (not-mem-nil m)
Numbered-lt n (s ∷ rs) r (e, h) m =
    Or.elim le_prop (mem-cons.0 m) (λ q. rw q (omega arith))
      (λ q. omega (arith, Numbered-lt (suc n) rs r h q))

abbrev IsSorted : List TraceRow → Type 0
IsSorted = Pairwise (λ a b. a.seq ≤ b.seq)

-- Ordering a numbered list by number leaves it as it is.
sorted-eq : (n : ℕ) (xs ys : List TraceRow) → Numbered n xs → IsSorted ys → Perm ys xs → ys ≡ xs
sorted-eq n [] ys h s p = Perm.eq-nil p
sorted-eq n (x ∷ xs) [] h s p = absurd (not-mem-nil (Perm.subset (Perm.symm p) x mem-cons_self))
sorted-eq n (x ∷ xs) (y ∷ ys) (e, h) s p =
    let same : y ≡ x =
      Or.elim (TraceRow-set y x) (mem-cons.0 (Perm.subset p y mem-cons_self)) (λ q. q)
        λ later.
          Or.elim (TraceRow-set y x) (mem-cons.0 (Perm.subset (Perm.symm p) x mem-cons_self)) sym
            λ m.
              absurd (omega (arith, Numbered-lt (suc n) xs y h later, (Pairwise-cons.0 s).0 x m)) in
    rw same (
      ap (λ l. x ∷ l)
        (sorted-eq (suc n) xs ys h (Pairwise-cons.0 s).1
          ((perm-cons x).0 (subst (λ z. Perm (z ∷ ys) (x ∷ xs)) same p))))

-- The rows of a numbered log, read by number, are the log itself.
pub get_trace-events :
    (e : Engine) (tenant_id run_id : ℕ) (db : Db)
    → IsNumbered db
    → (get_trace e tenant_id run_id db).0 ≡ ok (map trace_from_row (events tenant_id run_id db))
unfolding get_trace
get_trace-events e tenant_id run_id db h =
    ap (λ rows. ok (map trace_from_row rows))
      (sorted-eq 0 (events tenant_id run_id db) _ (h tenant_id run_id) (e.order_by-sorted _ _)
        (e.order_by-perm _ _))
