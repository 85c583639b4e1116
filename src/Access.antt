-- ===== src/Access.antt =====
-- src/lib/auth/permissions.ts and src/lib/auth/tenant-context.ts: what a role may do, and which
-- organisation and role a session acts under. Sessions and memberships are read from the database.
pub mod Laws
mod Tests
use Prim.Native.String.{String}
use text.Mathlib.Text.{◌==◌}
use radar_asset.Base.{
  ℕ, Bool, true, false, not, ◌||◌, Option, none, some, List, [], ◌∷◌, map, if◌then◌else◌, ltb,
  or_default, or_else, any, find, keep, Result, ok, err, ◌>>=◌, ◌>>◌, guard, required,
}
use radar_asset.Base.Sort.{sort}
use radar_asset.Base.Words.{Word, codes, word_eq, trim}

pub data TenantRole : Type 0 where
  owner admin editor viewer : TenantRole

pub data TenantResource : Type 0 where
  portfolio watchlist research backtest membership : TenantResource

pub data TenantAction : Type 0 where
  read write create cancel manage : TenantAction

pub data AccessError : Type 0 where
  authentication_required organization_required tenant_forbidden : AccessError

unfoldable pub same_action : TenantAction → TenantAction → Bool
same_action read read = true
same_action write write = true
same_action create create = true
same_action cancel cancel = true
same_action manage manage = true
same_action _ _ = false

-- The table `capabilities`: no entry is missing in it.
unfoldable pub capabilities : TenantRole → TenantResource → List TenantAction
capabilities owner portfolio = read ∷ write ∷ []
capabilities owner watchlist = read ∷ write ∷ []
capabilities owner research = read ∷ write ∷ []
capabilities owner backtest = read ∷ create ∷ cancel ∷ []
capabilities owner membership = read ∷ manage ∷ []
capabilities admin portfolio = read ∷ write ∷ []
capabilities admin watchlist = read ∷ write ∷ []
capabilities admin research = read ∷ write ∷ []
capabilities admin backtest = read ∷ create ∷ cancel ∷ []
capabilities admin membership = read ∷ manage ∷ []
capabilities editor portfolio = read ∷ write ∷ []
capabilities editor watchlist = read ∷ write ∷ []
capabilities editor research = read ∷ write ∷ []
capabilities editor backtest = read ∷ create ∷ cancel ∷ []
capabilities editor membership = read ∷ []
capabilities viewer portfolio = read ∷ []
capabilities viewer watchlist = read ∷ []
capabilities viewer research = read ∷ []
capabilities viewer backtest = read ∷ []
capabilities viewer membership = read ∷ []

unfoldable pub has_tenant_capability : TenantRole → TenantResource → TenantAction → Bool
unfolding any capabilities same_action
has_tenant_capability role resource action = any (same_action action) (capabilities role resource)

pub record SessionInput : Type 0 where
  pub user_id : String
  pub active_organization_id : Option String

pub record MembershipInput : Type 0 where
  pub organization_id : String
  pub role : Word
  -- In milliseconds since 1970.
  pub created_at : ℕ

pub record TenantContext : Type 0 where
  pub user_id : String
  pub organization_id : String
  pub role : TenantRole

abbrev pub role_name : TenantRole → Word
role_name owner = codes "owner"
role_name admin = codes "admin"
role_name editor = codes "editor"
role_name viewer = codes "viewer"

abbrev pub role_precedence : List TenantRole
role_precedence = owner ∷ admin ∷ editor ∷ viewer ∷ []

abbrev comma : ℕ
comma = 44

-- `text.split(",")`: the part up to the next comma, and the parts after it.
unfoldable pub split_on_comma : Word → Word × List Word
split_on_comma [] = ([], [])
split_on_comma (c ∷ w) =
    let (part, parts) = split_on_comma w in
    if word_eq (c ∷ []) (comma ∷ []) then ([], part ∷ parts) else (c ∷ part, parts)

abbrev parts_of : Word × List Word → List Word
parts_of (part, parts) = part ∷ parts

abbrev pub is_blank : Word → Bool
is_blank [] = true
is_blank (c ∷ w) = false

unfoldable pub stored_roles : Word → List Word
unfolding split_on_comma trim keep
stored_roles stored = keep (λ w. not (is_blank w)) (map trim (parts_of (split_on_comma stored)))

unfoldable pub normalize_tenant_role : Word → TenantRole
unfolding stored_roles find any word_eq
normalize_tenant_role stored =
    or_default (find (λ role. any (word_eq (role_name role)) (stored_roles stored)) role_precedence)
      viewer

abbrev first? : {A : Type 0} → List A → Option A
first? [] = none
first? (x ∷ xs) = some x

abbrev pub is_active : Option String → MembershipInput → Bool
is_active none m = false
is_active (some id) m = m.organization_id == id

unfoldable pub oldest_first : List MembershipInput → List MembershipInput
unfolding sort
oldest_first = sort (λ x y. ltb y.created_at x.created_at)

unfoldable pub choose_membership : Option String → List MembershipInput → Option MembershipInput
unfolding find oldest_first
choose_membership active memberships =
    or_else (find (is_active active) (oldest_first memberships)) (first? (oldest_first memberships))

abbrev pub signed_in : Option SessionInput → Option SessionInput
signed_in none = none
signed_in (some s) = if s.user_id == "" then none else some s

unfoldable pub resolve_tenant_context :
    Option SessionInput → List MembershipInput → Result AccessError TenantContext
unfolding choose_membership normalize_tenant_role
resolve_tenant_context session memberships = do
  s ← required (signed_in session) authentication_required
  m ← required (choose_membership s.active_organization_id memberships) organization_required
  ok (record {
    user_id = s.user_id;
    organization_id = m.organization_id;
    role = normalize_tenant_role m.role;
  })

unfoldable pub require_tenant_capability :
    TenantContext → TenantResource → TenantAction → Result AccessError (Unit {0})
unfolding has_tenant_capability
require_tenant_capability context resource action =
    guard (has_tenant_capability context.role resource action) tenant_forbidden
