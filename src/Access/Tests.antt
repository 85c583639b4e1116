-- ===== src/Access/Tests.antt =====
-- Runs and witnesses of access control.
use Prim.Native.String.{String}
use mathlib.Core.List.{Memᴰ}
use radar_asset.Base.{
  ℕ, ◌≤◌, ◌≡◌, ◌≢◌, ◌⊎◌, refl, true, Option, none, some, List, [], ◌∷◌, ok, err, arith,
}
use radar_asset.Base.Words.{codes}
use radar_asset.Access.{
  TenantRole, owner, admin, editor, viewer, watchlist, write, manage, has_tenant_capability,
  membership, tenant_forbidden, authentication_required, SessionInput, MembershipInput,
  TenantContext, role_name, stored_roles, normalize_tenant_role, resolve_tenant_context,
  require_tenant_capability,
}
use radar_asset.Access.Laws.{
  rank, has_tenant_capability-monotone, normalize_tenant_role_lem, IsChosen,
  resolve_tenant_context-IsChosen, resolve_tenant_context-returns,
}

abbrev session : Option String → SessionInput
session active = record { user_id = "ada"; active_organization_id = active }

abbrev member : String → String → ℕ → MembershipInput
member organization role created_at = record {
  organization_id = organization;
  role = codes role;
  created_at = created_at;
}

abbrev two_memberships : List MembershipInput
two_memberships = member "new" "admin" 20 ∷ member "old" " editor,member" 10 ∷ []

abbrev old_context : TenantContext
old_context = record { user_id = "ada"; organization_id = "old"; role = editor }

runs :
    (resolve_tenant_context (some (session (some "gone"))) two_memberships ≡ ok old_context)
    × (resolve_tenant_context (some (session (some "new"))) two_memberships
        ≡ ok (record { user_id = "ada"; organization_id = "new"; role = admin }))
    × (resolve_tenant_context none two_memberships ≡ err authentication_required)
    × (require_tenant_capability old_context membership manage ≡ err tenant_forbidden)
    × (has_tenant_capability editor watchlist write ≡ true)
unfolding resolve_tenant_context require_tenant_capability
runs = (refl, refl, refl, refl, refl)

has_tenant_capability-monotone_example : has_tenant_capability owner watchlist write ≡ true
has_tenant_capability-monotone_example =
    has_tenant_capability-monotone owner editor watchlist write (omega arith) runs.4

normalize_tenant_role_lem_example :
    ((r : TenantRole)
      → Memᴰ (role_name r) (stored_roles (codes "editor, owner"))
      → rank (normalize_tenant_role (codes "editor, owner")) ≤ rank r)
    × (Memᴰ
          (role_name (normalize_tenant_role (codes "editor, owner")))
          (stored_roles (codes "editor, owner"))
        ⊎ (normalize_tenant_role (codes "editor, owner") ≡ viewer))
normalize_tenant_role_lem_example = normalize_tenant_role_lem (codes "editor, owner")

resolve_tenant_context-IsChosen_example :
    (s : SessionInput) × (m : MembershipInput) × (some (session (some "gone")) ≡ some s)
    × (s.user_id ≢ "")
    × Memᴰ m two_memberships
    × IsChosen s.active_organization_id two_memberships m
    × (old_context ≡ record {
      user_id = s.user_id;
      organization_id = m.organization_id;
      role = normalize_tenant_role m.role;
    })
resolve_tenant_context-IsChosen_example =
    resolve_tenant_context-IsChosen (some (session (some "gone"))) two_memberships runs.0

resolve_tenant_context-returns_example :
    (c : TenantContext) × (resolve_tenant_context (some (session none)) two_memberships ≡ ok c)
resolve_tenant_context-returns_example =
    resolve_tenant_context-returns (session none) (member "new" "admin" 20) two_memberships
      (λ e. cc e) (Memᴰ.head refl)
