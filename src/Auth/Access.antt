-- ===== src/Auth/Access.antt =====
-- What a request must carry for the guards of auth/guards/ to let it through.

use typescript_starter.Common.{
  ℕ, String, Option, none, some, List, [], ◌∷◌, Bool, true, false, ◌&&◌, ◌≡◌, ◌≢◌, refl, inl, inr,
  ap, ◌∙◌, Option-cases, ◌⊎◌, ◌↔◌, any, contains, str_eq, eq_iff, eq_refl, Bool-cases, arith,
}
use typescript_starter.Common.Text.{starts_with}
use typescript_starter.Auth.{BearerUser, VerifyResult, Platform, World}
use typescript_starter.Auth.Credentials.{resolve_user_from_bearer, verify_api_key}
use typescript_starter.Auth.Guards.{
  Request, Caller, Decision, allow, own_client, credential_of, key_caller, user_caller, decide_key,
  decide_user, decide_admin, api_key_guard, admin_token, admin_guard, granted, has_role,
  roles_guard,
}

decide_key_allows :
    (r : VerifyResult) (c : Option Caller)
    → (decide_key r ≡ allow c) ↔ ((r.valid ≡ true) × (c ≡ some (key_caller r)))
decide_key_allows r c = (λ e. ground arith, λ e. ground arith)

decide_user_allows :
    (r : Option BearerUser) (c : Option Caller)
    → decide_user r ≡ allow c
    → (u : BearerUser) × (r ≡ some u) × (u.banned ≡ false) × (c ≡ some (user_caller u))
decide_user_allows none c e = absurd (cc)
decide_user_allows (some u) c e = (u, refl, ground arith, ground arith)

decide_admin_allows :
    (r : Option BearerUser) (c : Option Caller)
    → decide_admin r ≡ allow c
    → (u : BearerUser) × (r ≡ some u)
      × (u.role ≡ "admin")
      × (u.banned ≡ false)
      × (c ≡ some (user_caller u))
decide_admin_allows none c e = absurd (cc)
decide_admin_allows (some u) c e =
    (u, refl, ground (arith, eq_iff u.role "admin"), ground arith, ground arith)

admin_allowed :
    (u : BearerUser)
    → u.role ≡ "admin"
    → u.banned ≡ false
    → decide_admin (some u) ≡ allow (some (user_caller u))
admin_allowed u role free = ground (arith, eq_iff u.role "admin")

module _ (p : Platform) (now : ℕ) (id : String) (req : Request) (w : World p) where
  module _ (secret : Option String) where
    abbrev guarded : Decision × World p
    guarded = api_key_guard p secret now id req w

    -- No secret is configured, or the request carries it.
    abbrev pub FromOwnClient : Type 0
    FromOwnClient =
        (secret ≡ none)
        ⊎ ((secret ≡ some "") ⊎ ((s : String) × (secret ≡ some s) × (req.client ≡ some s)))

    own_client-FromOwnClient : own_client secret req.client ≡ true → FromOwnClient
    own_client-FromOwnClient h = elim (Option-cases secret) [
      | inl unset ↦ inl unset
      | inr (s, set) ↦ elim (Bool-cases (str_eq s "")) [
        | inl empty ↦ inr (inl (set ∙ ap some ((eq_iff s "").0 empty)))
        | inr named ↦ elim (Option-cases req.client) [
          | inl absent ↦ absurd (let e = rw (set, absent, named) at h in cc)
          | inr (c, sent) ↦
              let same : str_eq c s ≡ true = (let e = rw (set, sent) at h in ground arith) in
              inr (inr (s, set, sent ∙ ap some ((eq_iff c s).0 same)))
        ]
      ]
    ]

    -- What lets a request through, with the caller attached to it.
    abbrev pub Authorized : Option Caller → Type 0
    Authorized caller =
        ((req.is_public ≡ true) × FromOwnClient × (caller ≡ none))
        ⊎ ((credential_of req ≢ "")
            × (((starts_with "nsw_" (credential_of req) ≡ true)
                  × let checked = (verify_api_key p now (credential_of req) w).0 in
                    (checked.valid ≡ true) × (caller ≡ some (key_caller checked)))
                ⊎ ((u : BearerUser) × ((resolve_user_from_bearer p now id (credential_of req) w).0
                      ≡ some u)
                    × (u.banned ≡ false)
                    × (caller ≡ some (user_caller u)))))

    -- A request that ApiKeyGuard lets through is one to a public route that carries the
    -- configured client secret, or any to a public route where none is configured, or else carries a credential: an API key that the verification calls valid, or a
    -- credential that resolves to a user who does not count as banned. The caller attached to the
    -- request is the key's or that user's, and none on the public route.
    pub api_key_guard_sound :
        (caller : Option Caller) → guarded.0 ≡ allow caller → Authorized caller
    unfolding api_key_guard
    api_key_guard_sound caller e =
        elim (Bool-cases (req.is_public && own_client secret req.client)) [
          | inl exempt ↦ inl (ground arith, own_client-FromOwnClient (ground arith), ground arith)
          | inr closed ↦ elim (Bool-cases (str_eq (credential_of req) "")) [
            | inl missing ↦ absurd (let h = rw (closed, missing, api_key_guard) at e in cc)
            | inr present ↦
                let named : credential_of req ≢ "" =
                  ground (arith, eq_iff (credential_of req) "") in
                elim (Bool-cases (starts_with "nsw_" (credential_of req))) [
                  | inl key ↦
                      let h = rw (closed, present, key, api_key_guard) at e in
                      inr (named, inl (key, (decide_key_allows _ caller).0 h))
                  | inr other ↦
                      let h = rw (closed, present, other, api_key_guard) at e in
                      inr (named, inr (decide_user_allows _ caller h))
                ]
          ]
        ]

  -- The token resolves to the caller, an admin who does not count as banned.
  abbrev pub Administers : Option Caller → Type 0
  Administers caller =
      ((admin_token req ≢ "")
        × ((u : BearerUser) × ((resolve_user_from_bearer p now id (admin_token req) w).0 ≡ some u)
            × (u.role ≡ "admin")
            × (u.banned ≡ false)
            × (caller ≡ some (user_caller u))))

  -- AdminGuard lets through exactly the requests whose token, from the header or the cookie,
  -- resolves to a user with the role admin who does not count as banned; that user is the caller.
  pub admin_guard_iff :
      (caller : Option Caller)
      → ((admin_guard p now id req w).0 ≡ allow caller) ↔ Administers caller
  unfolding admin_guard
  admin_guard_iff caller = elim (Bool-cases (str_eq (admin_token req) "")) [
    | inl missing ↦
        let empty = (eq_iff (admin_token req) "").0 missing in
        (λ e. absurd (let h = rw (missing, admin_guard) at e in cc), λ h. absurd (h.0 empty))
    | inr present ↦ (
      λ e.
          let h = rw (present, admin_guard) at e in
          (ground (arith, eq_iff (admin_token req) ""), decide_admin_allows _ caller h),
      λ h.
          let (named, (u, resolved, role, banned, same)) = h in
          rw (present, resolved, same, admin_guard) (admin_allowed u role banned),
    )
  ]

any-elem :
    (f : String → Bool) (xs : List String)
    → any f xs ≡ true
    → (x : String) × (contains x xs ≡ true) × (f x ≡ true)
any-elem f [] h = absurd (cc)
any-elem f (x ∷ xs) h = elim (Bool-cases (f x)) [
  | inl here ↦ (x, rw (eq_refl x) refl, here)
  | inr not_here ↦
      let (y, later, found) = any-elem f xs (rw not_here at h) in (y, ground arith, found)
]

any-intro :
    (f : String → Bool) (x : String) (xs : List String)
    → contains x xs ≡ true
    → f x ≡ true
    → any f xs ≡ true
any-intro f x [] h e = absurd (cc)
any-intro f x (y ∷ ys) h e = elim (Bool-cases (str_eq y x)) [
  | inl same ↦ rw ((eq_iff y x).0 same, e) refl
  | inr other ↦ ground (arith, any-intro f x ys (rw other at h) e)
]

-- With required roles, RolesGuard grants access exactly to a caller who has one of them as a role
-- that is not empty, or as a permission.
pub roles_guard_iff :
    (required : List String) (c : Caller)
    → (roles_guard (some required) (some c) ≡ granted) ↔ (
        (has_role c.role required ≡ true)
        ⊎ ((role : String) × (contains role required ≡ true)
            × (contains role c.permissions ≡ true)))
unfolding roles_guard
roles_guard_iff required c = elim (Bool-cases (has_role c.role required)) [
  | inl by_role ↦ (λ e. inl by_role, λ h. rw by_role refl)
  | inr no_role ↦
      let found = λ (e : any (λ role. contains role c.permissions) required ≡ true).
        any-elem (λ role. contains role c.permissions) required e in
      (
        λ e. inr (found (ground arith)),
        λ h. elim h [
          | inl by_role ↦ ground arith
          | inr (role, wanted, held) ↦
              let e = any-intro (λ r. contains r c.permissions) role required wanted held in
              ground arith
        ],
      )
]
