-- ===== src/Tenancy/Joins.antt =====
-- What the queries over two tables (list_agent_tools and find_unbound_active_tool of server/src/db.rs)
-- give is determined by the tenant's own rows.
use mathlib.Core.List.{Mem, Perm, append_assoc, mem-cons_self, mem-cons_of_mem, perm_append_comm}
use mathlib.Core.List.Perm
use mathlib.Core.List.{Permᴰ, Perm-prop}
use mathlib.Core.Logic.{∥∥₁_elim}
use multi_tenant_agent_platf.Prelude.{
  ℕ, ◌≡◌, refl, sym, ◌∙◌, Bool, true, ◌&&◌, ◌==◌, List, [], ◌∷◌, ◌++◌, arith,
}
use multi_tenant_agent_platf.Rows.{select, exists}
use multi_tenant_agent_platf.Rows.Filtered.{select-and, exists-select}
use multi_tenant_agent_platf.Db.{ToolRow, AgentToolRow}
use multi_tenant_agent_platf.Db.Tools.{tool_at, join_tools}

module _ {A : Type 0} where
  select-ext : (p q : A → Bool) (xs : List A) → ((x : A) → p x ≡ q x) → select p xs ≡ select q xs
  unfolding select
  select-ext p q [] h = refl
  select-ext p q (x ∷ xs) h = ground (arith, h x, select-ext p q xs h)

  -- Rows that agree under a condition agree under it and another, which may be put in two ways.
  pub select-owned :
      (p q q' : A → Bool) (xs ys : List A)
      → ((x : A) → p x ≡ true → q x ≡ q' x)
      → select p xs ≡ select p ys
      → select (λ x. p x && q x) xs ≡ select (λ x. p x && q' x) ys
  select-owned p q q' xs ys same h =
      select-ext (λ x. p x && q x) (λ x. p x && q' x) xs (λ x. ground (arith, same x))
      ∙ (rw (select-and p q' xs, select-and p q' ys, h) refl)

-- A JOIN with bindings of the tenant sees no other tools.
pub join_tools-owned :
    (t : ℕ) (bindings : List AgentToolRow) (tools tools' : List ToolRow)
    → ((b : AgentToolRow) → Mem b bindings → b.tenant_id ≡ t)
    → select (λ r. r.tenant_id == t) tools ≡ select (λ r. r.tenant_id == t) tools'
    → join_tools bindings tools ≡ join_tools bindings tools'
unfolding join_tools
join_tools-owned t [] tools tools' own h = refl
join_tools-owned t (b ∷ bs) tools tools' own h =
    rw
      (
        own b mem-cons_self,
        select-owned (λ r. r.tenant_id == t) (λ r. r.id == b.tool_id) (λ r. r.id == b.tool_id) tools
            tools' (λ x e. refl) h,
        join_tools-owned t bs tools tools' (λ c m. own c (mem-cons_of_mem b m)) h,
      )
      refl

module _ (tools : List ToolRow) where
  swapped : (xs ys zs : List ToolRow) → Perm (xs ++ (ys ++ zs)) (ys ++ (xs ++ zs))
  swapped xs ys zs =
      rw (sym (append_assoc xs ys zs), sym (append_assoc ys xs zs))
        (Perm.append_right zs (perm_append_comm xs ys))

  joined-Permᴰ :
      {bs cs : List AgentToolRow} → Permᴰ bs cs → Perm (join_tools bs tools) (join_tools cs tools)
  unfolding join_tools
  joined-Permᴰ Permᴰ.nil = Perm.nil
  joined-Permᴰ (Permᴰ.cons e p) = rw e (Perm.append_left _ (joined-Permᴰ p))
  joined-Permᴰ (Permᴰ.swap {a' = c} {b' = d} {l = l} e f) =
      rw (e, f)
        (swapped (select (tool_at d.tenant_id d.tool_id) tools)
          (select (tool_at c.tenant_id c.tool_id) tools) (join_tools l tools))
  joined-Permᴰ (Permᴰ.trans p q) = Perm.trans (joined-Permᴰ p) (joined-Permᴰ q)

  -- Bindings in another order give the same tools in another order.
  pub join_tools-Perm :
      {bs cs : List AgentToolRow} → Perm bs cs → Perm (join_tools bs tools) (join_tools cs tools)
  join_tools-Perm p = ∥∥₁_elim p Perm-prop joined-Permᴰ

-- Whether the tenant has bound one of its tools to the agent is seen in its own bindings.
pub bound-owned :
    (t agent_id : ℕ) (tool : ToolRow) (bs cs : List AgentToolRow)
    → tool.tenant_id ≡ t
    → select (λ b. b.tenant_id == t) bs ≡ select (λ b. b.tenant_id == t) cs
    → exists
        (λ b. b.tenant_id == tool.tenant_id && (b.agent_id == agent_id && b.tool_id == tool.id))
        bs
      ≡ exists
          (λ b. b.tenant_id == tool.tenant_id && (b.agent_id == agent_id && b.tool_id == tool.id))
          cs
bound-owned t agent_id tool bs cs own h =
    let own_row : AgentToolRow → Bool = λ b. b.tenant_id == t in
    let pair : AgentToolRow → Bool = λ b. b.agent_id == agent_id && b.tool_id == tool.id in
    rw (own, exists-select own_row pair bs, exists-select own_row pair cs, h) refl
