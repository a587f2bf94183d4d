-- ===== src/Toolbox/Contents.antt =====
-- The abstract view of a tenant's tools: a collection that forgets the order and the rows of the table.
use mathlib.Core.Quot
use mathlib.Core.Quot.{Quot, Quot-set}
use mathlib.Core.List.{Perm, Permᴰ}
use mathlib.Core.List.Perm
use mathlib.Core.List.Permᴰ
use mathlib.Core.Logic.{∥∥₁_elim, ∥∥₁_map}
use multi_tenant_agent_platf.Prelude.{
  ℕ, ◌≡◌, refl, ◌∙◌, String, Bool, ◌&&◌, List, ◌∷◌, map, ◌==◌, str_eq, arith, is_none, inl, inr,
  Bool-cases,
}
use multi_tenant_agent_platf.Rows.{select, exists}
use multi_tenant_agent_platf.Db.{Db, ToolRow}
use multi_tenant_agent_platf.Db.Tools.{ToolRecord, tool_from_row}

module _ {A : Type 0} (p : A → Bool) where
  pub exists-Permᴰ : {xs ys : List A} → Permᴰ xs ys → exists p xs ≡ exists p ys
  unfolding exists
  exists-Permᴰ Permᴰ.nil = refl
  exists-Permᴰ (Permᴰ.cons e d) = rw (e, exists-Permᴰ d) refl
  exists-Permᴰ (Permᴰ.swap e f) = rw (e, f) (ground arith)
  exists-Permᴰ (Permᴰ.trans d e) = exists-Permᴰ d ∙ exists-Permᴰ e

  pub select-Permᴰ : {xs ys : List A} → Permᴰ xs ys → Permᴰ (select p xs) (select p ys)
  unfolding select
  select-Permᴰ Permᴰ.nil = Permᴰ.nil
  select-Permᴰ (Permᴰ.cons {b = b} e d) = elim (Bool-cases (p b)) [
    | inl h ↦ rw (e, h) (Permᴰ.cons refl (select-Permᴰ d))
    | inr h ↦ rw (e, h) (select-Permᴰ d)
  ]
  select-Permᴰ (Permᴰ.swap {a' = a'} {b' = b'} {l = l} e f) = elim (Bool-cases (p a')) [
    | inl h ↦ elim (Bool-cases (p b')) [
      | inl g ↦ rw (e, f, h, g) (Permᴰ.swap refl refl)
      | inr g ↦ rw (e, f, h, g) (Permᴰ.refl _)
    ]
    | inr h ↦ elim (Bool-cases (p b')) [
      | inl g ↦ rw (e, f, h, g) (Permᴰ.refl _)
      | inr g ↦ rw (e, f, h, g) (Permᴰ.refl _)
    ]
  ]
  select-Permᴰ (Permᴰ.trans d e) = Permᴰ.trans (select-Permᴰ d) (select-Permᴰ e)

-- The tools that a tenant has, up to order.
abbrev pub Collection : Type 0
Collection = Quot (Perm {A = ToolRecord})

unfoldable pub any_tool : (ToolRecord → Bool) → Collection → Bool
any_tool p = Quot.lift (hlevel) (exists p) λ xs ys h. ∥∥₁_elim h (hlevel) (exists-Permᴰ p)

unfoldable pub keep : (ToolRecord → Bool) → Collection → Collection
keep p =
    Quot.lift Quot-set (λ xs. Quot.mk (select p xs))
      λ xs ys h. Quot.sound (∥∥₁_map {B = Permᴰ (select p xs) (select p ys)} h (select-Permᴰ p))

unfoldable pub put : ToolRecord → Collection → Collection
put tool = Quot.lift Quot-set (λ xs. Quot.mk (tool ∷ xs)) λ xs ys h. Quot.sound (Perm.cons tool h)

abbrev pub has_name : String → ToolRecord → Bool
has_name name tool = str_eq tool.name name

abbrev pub has_id : ℕ → ToolRecord → Bool
has_id tool_id tool = tool.id == tool_id

abbrev pub active_of : ℕ → ToolRow → Bool
active_of tenant_id r = r.tenant_id == tenant_id && is_none r.deleted_at

-- What the table holds for a tenant.
abbrev pub contents : ℕ → Db → Collection
contents tenant_id db = Quot.mk (map tool_from_row (select (active_of tenant_id) db.tools))
