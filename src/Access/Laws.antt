-- ===== src/Access/Laws.antt =====
-- The capabilities of the roles, and the membership that a session acts under.
use Prim.Native.String.{String}
use mathlib.Core.List.{Memᴰ}
use mathlib.Core.Option.{some-injective}
use text.Mathlib.Text.{◌==◌}
use text.Mathlib.TextEquality.{eq_iff}
use radar_asset.Base.{
  ℕ, ◌≤◌, ◌≡◌, refl, sym, ap, ◌∙◌, subst, ◌≢◌, ◌⊎◌, inl, inr, Bool, true, false, Option, none, some,
  List, [], ◌∷◌, Bool-cases, Option-cases, All, All-Memᴰ, All-of-Memᴰ, ltb, find, find-sound,
  find-none, find-true, any, or_default, ok, required, >>=-eq-ok, required-eq-ok, ok_inj, arith,
}
use radar_asset.Base.Sort.{sort, All-sort, sort-All, IsSorted, IsConsistent, sort-IsSorted}
use radar_asset.Base.Words.{Word, word_eq, word_eq_iff}
use radar_asset.Access.{
  TenantRole, owner, admin, editor, viewer, TenantResource, TenantAction, capabilities, same_action,
  has_tenant_capability, SessionInput, MembershipInput, TenantContext, role_name, stored_roles,
  normalize_tenant_role, role_precedence, is_active, oldest_first, choose_membership, first?,
  signed_in, resolve_tenant_context, authentication_required, organization_required,
}

-- The place of a role in `rolePrecedence`.
abbrev pub rank : TenantRole → ℕ
rank owner = 0
rank admin = 1
rank editor = 2
rank viewer = 3

-- A role may do whatever a role behind it in the precedence may do.
pub has_tenant_capability-monotone :
    (higher lower : TenantRole) (resource : TenantResource) (action : TenantAction)
    → rank higher ≤ rank lower
    → has_tenant_capability lower resource action ≡ true
    → has_tenant_capability higher resource action ≡ true
unfolding has_tenant_capability capabilities any same_action
has_tenant_capability-monotone higher lower resource action h e = ground arith

any-Memᴰ : (w : Word) (ws : List Word) → any (word_eq w) ws ≡ true → Memᴰ w ws
unfolding any
any-Memᴰ w [] h = cc
any-Memᴰ w (v ∷ ws) h = elim (Bool-cases (word_eq w v)) [
  | inl e ↦ Memᴰ.head ((word_eq_iff w v).0 e)
  | inr e ↦ Memᴰ.tail (any-Memᴰ w ws (rw e at h))
]

Memᴰ-any : (w : Word) (ws : List Word) → Memᴰ w ws → any (word_eq w) ws ≡ true
unfolding any
Memᴰ-any w [] m = elim m [ ]
Memᴰ-any w (v ∷ ws) (Memᴰ.head e) = rw ((word_eq_iff w v).1 e) refl
Memᴰ-any w (v ∷ ws) (Memᴰ.tail m) = ground (arith, Memᴰ-any w ws m)

-- The highest of the roles that a list of words names.
abbrev highest : List Word → TenantRole
highest ws = or_default (find (λ role. any (word_eq (role_name role)) ws) role_precedence) viewer

abbrev is_named : List Word → TenantRole → Bool
is_named ws r = any (word_eq (role_name r)) ws

rank-highest : (ws : List Word) (r : TenantRole) → is_named ws r ≡ true → rank (highest ws) ≤ rank r
unfolding find
rank-highest ws owner h = ground arith
rank-highest ws admin h = ground arith
rank-highest ws editor h = ground arith
rank-highest ws viewer h = ground arith

highest_named : (ws : List Word) → (is_named ws (highest ws) ≡ true) ⊎ (highest ws ≡ viewer)
unfolding find
highest_named ws = elim (Bool-cases (is_named ws owner)) [
  | inl e ↦ inl (rw e e)
  | inr e ↦ elim (Bool-cases (is_named ws admin)) [
    | inl f ↦ inl (rw (e, f) f)
    | inr f ↦ elim (Bool-cases (is_named ws editor)) [
      | inl g ↦ inl (rw (e, f, g) g)
      | inr g ↦ inr (ground arith)
    ]
  ]
]

-- A stored text of roles counts as the highest role that it names, and as a viewer if it names none.
pub normalize_tenant_role_lem :
    (stored : Word)
    → ((r : TenantRole)
        → Memᴰ (role_name r) (stored_roles stored)
        → rank (normalize_tenant_role stored) ≤ rank r)
      × (Memᴰ (role_name (normalize_tenant_role stored)) (stored_roles stored)
          ⊎ (normalize_tenant_role stored ≡ viewer))
unfolding normalize_tenant_role
normalize_tenant_role_lem stored = (
  λ r m. rank-highest (stored_roles stored) r (Memᴰ-any (role_name r) (stored_roles stored) m),
  elim (highest_named (stored_roles stored)) [
    | inl e ↦ inl (any-Memᴰ (role_name (highest (stored_roles stored))) (stored_roles stored) e)
    | inr e ↦ inr e
  ],
)

oldest_first-IsConsistent :
    IsConsistent (λ (x : MembershipInput) (y : MembershipInput). ltb y.created_at x.created_at)
oldest_first-IsConsistent = record {
  one_way = λ x y h. ground arith;
  le_trans = λ x y z h k. ground arith;
}

-- Why a membership is the one that a session acts under: it is of the active organisation; or none of
-- the memberships is, and it is the oldest of them.
pub data IsChosen (active : Option String) (memberships : List MembershipInput)
    (m : MembershipInput) : Type 0 where
  of_active : active ≡ some m.organization_id → IsChosen active memberships m
  oldest :
      All (λ x. is_active active x ≡ false) memberships
      → All (λ x. m.created_at ≤ x.created_at) memberships
      → IsChosen active memberships m

is_active-some :
    (active : Option String) (m : MembershipInput)
    → is_active active m ≡ true
    → active ≡ some m.organization_id
is_active-some none m h = cc
is_active-some (some id) m h = ap some (sym ((eq_iff m.organization_id id).0 h))

first-oldest :
    (l : List MembershipInput) {m : MembershipInput}
    → first? l ≡ some m
    → IsSorted (λ x y. ltb y.created_at x.created_at) l
    → All (λ x. m.created_at ≤ x.created_at) l
first-oldest [] e h = cc
first-oldest (x ∷ xs) e (h, hs) =
    subst (λ (y : MembershipInput). All (λ z. y.created_at ≤ z.created_at) (x ∷ xs))
      (some-injective _ _ e) (omega arith, none_older x xs h)
  where
    none_older :
        (y : MembershipInput) (ys : List MembershipInput)
        → All (λ z. ltb z.created_at y.created_at ≡ false) ys
        → All (λ z. y.created_at ≤ z.created_at) ys
    none_older y [] a = tt
    none_older y (z ∷ zs) (a, as') = (ground arith, none_older y zs as')

first-All :
    (P : MembershipInput → Type 0) (l : List MembershipInput) {m : MembershipInput}
    → first? l ≡ some m
    → All P l
    → P m
first-All P [] e h = cc
first-All P (x ∷ xs) e (h, hs) = subst P (some-injective _ _ e) h

choose_membership-IsChosen :
    (active : Option String) (memberships : List MembershipInput) {m : MembershipInput}
    → choose_membership active memberships ≡ some m
    → Memᴰ m memberships × IsChosen active memberships m
unfolding choose_membership oldest_first
choose_membership-IsChosen active memberships {m} e =
    let after = λ (x : MembershipInput) (y : MembershipInput). ltb y.created_at x.created_at in
    let sorted = sort after memberships in
    let members : All (λ x. Memᴰ x memberships) sorted =
      All-sort after (λ x. Memᴰ x memberships) memberships
        (All-of-Memᴰ (λ x. Memᴰ x memberships) memberships (λ a h. h)) in
    elim (Option-cases (find (is_active active) sorted)) [
      | inr (a, found) ↦
          let same : a ≡ m = some-injective _ _ (rw found at e) in
          (
            subst (λ x. Memᴰ x memberships) same
                (find-sound _ (is_active active) sorted found members),
            of_active (
                is_active-some active m (
                  subst (λ x. is_active active x ≡ true) same
                    (find-true (is_active active) sorted found))),
          )
      | inl missing ↦
          let first : first? sorted ≡ some m = rw missing at e in
          (
            first-All (λ x. Memᴰ x memberships) sorted first members,
            oldest
                (sort-All after (λ x. is_active active x ≡ false) memberships
                  (find-none (is_active active) sorted missing))
                (sort-All after (λ x. m.created_at ≤ x.created_at) memberships
                  (first-oldest sorted first
                    (sort-IsSorted after oldest_first-IsConsistent memberships))),
          )
    ]

signed_in-some :
    (session : Option SessionInput) {s : SessionInput}
    → signed_in session ≡ some s
    → (session ≡ some s) × (s.user_id ≢ "")
signed_in-some none h = cc
signed_in-some (some t) {s} h = elim (Bool-cases (t.user_id == "")) [
  | inl blank ↦ cc (rw blank at h)
  | inr named ↦
      let same : t ≡ s = some-injective _ _ (rw named at h) in
      (
        ap some same,
        λ blank.
            cc ((eq_iff t.user_id "").1 (ap (λ (x : SessionInput). x.user_id) same ∙ blank), named),
      )
]

signed_in_named : (s : SessionInput) → s.user_id ≢ "" → signed_in (some s) ≡ some s
signed_in_named s named = elim (Bool-cases (s.user_id == "")) [
  | inl blank ↦ elim (named ((eq_iff s.user_id "").0 blank)) [ ]
  | inr e ↦ rw e refl
]

choose_membership-some :
    (active : Option String) (memberships : List MembershipInput) (m : MembershipInput)
    → Memᴰ m memberships
    → (chosen : MembershipInput) × (choose_membership active memberships ≡ some chosen)
unfolding choose_membership oldest_first
choose_membership-some active memberships m member =
    let after = λ (x : MembershipInput) (y : MembershipInput). ltb y.created_at x.created_at in
    elim (Option-cases (find (is_active active) (sort after memberships))) [
      | inr (a, found) ↦ (a, rw found refl)
      | inl missing ↦
          let (a, first) = nonempty_sorted (sort after memberships) (λ none_left.
            All-Memᴰ (λ x. true ≡ false) memberships m
              (sort-All after (λ x. true ≡ false) memberships (rw none_left tt)) member) in
          (a, rw missing first)
    ]
  where
    nonempty_sorted :
        (l : List MembershipInput)
        → (l ≡ [] → ◌≡◌ {A = Bool} true false)
        → (a : MembershipInput) × (first? l ≡ some a)
    nonempty_sorted [] h = cc (h refl)
    nonempty_sorted (x ∷ xs) h = (x, refl)

-- Where a context is resolved, its user is the session's, who is named; its organisation and its role
-- are those of one of the memberships, which is of the active organisation, or is the oldest if none is.
pub resolve_tenant_context-IsChosen :
    (session : Option SessionInput) (memberships : List MembershipInput) {c : TenantContext}
    → resolve_tenant_context session memberships ≡ ok c
    → (s : SessionInput) × (m : MembershipInput) × (session ≡ some s)
      × (s.user_id ≢ "")
      × Memᴰ m memberships
      × IsChosen s.active_organization_id memberships m
      × (c ≡ record {
        user_id = s.user_id;
        organization_id = m.organization_id;
        role = normalize_tenant_role m.role;
      })
unfolding resolve_tenant_context
resolve_tenant_context-IsChosen session memberships e =
    let (s, signed, rest) = >>=-eq-ok (required (signed_in session) authentication_required) _ e in
    let (m, chosen, same) =
      >>=-eq-ok
        (required (choose_membership s.active_organization_id memberships) organization_required) _
        rest in
    let (there, named) = signed_in-some session (required-eq-ok (signed_in session) _ signed) in
    let (member, why) =
      choose_membership-IsChosen s.active_organization_id memberships
        (required-eq-ok (choose_membership s.active_organization_id memberships) _ chosen) in
    (s, m, there, named, member, why, sym (ok_inj same))

-- A named user with at least one membership is given a context, whatever the active organisation.
pub resolve_tenant_context-returns :
    (s : SessionInput) (m : MembershipInput) (memberships : List MembershipInput)
    → s.user_id ≢ ""
    → Memᴰ m memberships
    → (c : TenantContext) × (resolve_tenant_context (some s) memberships ≡ ok c)
unfolding resolve_tenant_context
resolve_tenant_context-returns s m memberships named member =
    let (chosen, found) = choose_membership-some s.active_organization_id memberships m member in
    (
      record {
        user_id = s.user_id;
        organization_id = chosen.organization_id;
        role = normalize_tenant_role chosen.role;
      },
      rw (signed_in_named s named, found) refl,
    )
