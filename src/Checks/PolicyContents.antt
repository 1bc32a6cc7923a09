-- ===== src/Checks/PolicyContents.antt =====
-- When the analysis of a policy file finds it secure, in terms of the JSON of the file.
use secureblue.Base.{arith}
use secureblue.Base.{◌≡◌, refl, sym, ap, ◌∙◌, ◌⊎◌, inl, inr}
use secureblue.Base.{Bool, true, false, not, ◌&&◌, ◌||◌, Bool-cases}
use secureblue.Base.{Option, none, some, List, [], ◌∷◌}
use secureblue.Base.{◌==◌, nat_eq, string_eq, list_eq, list_beq}
use secureblue.Base.{all}
use secureblue.Base.Exec.{Result, ok, err}
use secureblue.Base.{Str, codes}
use secureblue.Checks.State.{CheckError}
use secureblue.Base.{Option-cases}
use secureblue.Base.Exec.{Result-cases, ok-injective}
use secureblue.Checks.Kernel.{sort, insert_sorted, text_leb}
use secureblue.Checks.Policy.{
  Json, object, Members, no_members, member, get, policy_requirements_secure, TransportPolicyAudit,
  ContainersPolicyAudit, scope_step, audit_scopes, sorted_scopes, transport_from_data,
  audit_transports, transports_of, policy_from_data,
}
use secureblue.Checks.PolicyPasses.{is_nil, transport_secure, is_nil-append}

abbrev pub is_ok_true : Result CheckError Bool → Bool
is_ok_true (ok b) = b
is_ok_true (err e) = false

abbrev pub requirements_secure : Json → Bool
requirements_secure j = is_ok_true (policy_requirements_secure j)

unfoldable pub has_key : Str → Members → Bool
unfolding list_beq
has_key k no_members = false
has_key k (member k' v rest) = k == k' || has_key k rest

unfoldable pub distinct : Members → Bool
unfolding has_key
distinct no_members = true
distinct (member k v rest) = not (has_key k rest) && distinct rest

unfoldable pub all_members : (Json → Bool) → Members → Bool
all_members p no_members = true
all_members p (member k v rest) = p v && all_members p rest

insert_sorted-not_nil : (x : Str) (xs : List Str) → is_nil (insert_sorted x xs) ≡ false
unfolding insert_sorted
insert_sorted-not_nil x [] = refl
insert_sorted-not_nil x (y ∷ ys) = elim (Bool-cases (text_leb x y)) [
  | inl e ↦ rw e refl
  | inr e ↦ rw e refl
]

is_nil-sort : (xs : List Str) → is_nil (sort xs) ≡ is_nil xs
unfolding sort
is_nil-sort [] = refl
is_nil-sort (x ∷ xs) = insert_sorted-not_nil x (sort xs)

-- The default is settled: it is secure so far, or no later scope sets it.
abbrev Settled : TransportPolicyAudit → Members → Type 0
Settled t ms = (t.default_secure ≡ true) ⊎ (has_key [] ms ≡ false)

transport_secure-scope_step :
    (scope : Str) (b : Bool) (t : TransportPolicyAudit) (j : Json) (rest : Members)
    → Settled t (member scope j rest)
    → transport_secure (scope_step scope b t) ≡ (transport_secure t && b)
unfolding scope_step has_key list_beq
transport_secure-scope_step [] b t j rest (inl f) = rw f (ground arith)
transport_secure-scope_step [] b t j rest (inr f) = ground (arith, f)
transport_secure-scope_step (c ∷ cs) true t j rest s = ground arith
transport_secure-scope_step (c ∷ cs) false t j rest s =
    rw (is_nil-append t.insecure_scopes ((c ∷ cs) ∷ [])) (ground arith)

scope_step-Settled :
    (scope : Str) (b : Bool) (t : TransportPolicyAudit) (j : Json) (rest : Members)
    → Settled t (member scope j rest)
    → has_key scope rest ≡ false
    → Settled (scope_step scope b t) rest
unfolding scope_step has_key list_beq
scope_step-Settled [] b t j rest s d = inr d
scope_step-Settled (c ∷ cs) true t j rest s d = s
scope_step-Settled (c ∷ cs) false t j rest s d = s

-- What the loop leaves is secure exactly when all scopes have secure requirements, and what it
-- started from is.
audit_scopes-secure :
    (ms : Members) (t u : TransportPolicyAudit)
    → distinct ms ≡ true
    → Settled t ms
    → audit_scopes ms t ≡ ok u
    → transport_secure u ≡ (transport_secure t && all_members requirements_secure ms)
unfolding audit_scopes distinct all_members
audit_scopes-secure no_members t u d s h = ground (arith, h)
audit_scopes-secure (member scope j rest) t u d s h =
    elim (Result-cases (policy_requirements_secure j)) [
      | inl (e, f) ↦ let no_way = rw (f, audit_scopes) at h in ground (arith, no_way)
      | inr (b, f) ↦
          let settled = scope_step-Settled scope b t j rest s (ground (arith, d)) in
          let ih =
            audit_scopes-secure rest (scope_step scope b t) u (ground (arith, d)) settled
              (rw (f, audit_scopes) at h) in
          let req : requirements_secure j ≡ b = ap is_ok_true f in
          ih ∙ rw (transport_secure-scope_step scope b t j rest s) (ground (arith, req))
    ]

-- The scopes of a transport are the keys of an object.
unfoldable pub distinct_scopes : Json → Bool
unfolding distinct
distinct_scopes (object scopes) = distinct scopes
distinct_scopes _ = true

abbrev pub scopes_secure : Json → Bool
scopes_secure (object scopes) = all_members requirements_secure scopes
scopes_secure _ = false

transport_from_data-secure :
    (j : Json) (u : TransportPolicyAudit)
    → distinct_scopes j ≡ true
    → transport_from_data j ≡ ok u
    → transport_secure u ≡ scopes_secure j
unfolding transport_from_data distinct_scopes sorted_scopes
transport_from_data-secure (object scopes) u d h =
    let start : TransportPolicyAudit = record { default_secure = true; insecure_scopes = [] } in
    elim (Result-cases (audit_scopes scopes start)) [
      | inl (e, f) ↦ let no_way = rw (f, transport_from_data) at h in ground (arith, no_way)
      | inr (t, f) ↦
          let same : ok (sorted_scopes t) ≡ ok u = rw (f, transport_from_data) at h in
          let secure = audit_scopes-secure scopes start t d (inl refl) f in
          let nil = is_nil-sort t.insecure_scopes in
          let out : sorted_scopes t ≡ u = ok-injective _ _ same in
          sym (ap (λ (x : TransportPolicyAudit). transport_secure x) out) ∙ rw nil secure
    ]
transport_from_data-secure _ u d h = ground (arith, h)

abbrev pub all_secure : List (Str × TransportPolicyAudit) → Bool
all_secure ts = all (λ (p : Str × TransportPolicyAudit). transport_secure p.1) ts

audit_transports-secure :
    (ms : Members) (ts : List (Str × TransportPolicyAudit))
    → all_members distinct_scopes ms ≡ true
    → audit_transports ms ≡ ok ts
    → all_secure ts ≡ all_members scopes_secure ms
unfolding audit_transports all_members all
audit_transports-secure no_members ts d h =
    sym (ap all_secure (ok-injective {A = List (Str × TransportPolicyAudit)} [] ts h))
audit_transports-secure (member name j rest) ts d h = elim (Result-cases (transport_from_data j)) [
  | inl (e, f) ↦ let no_way = rw (f, audit_transports) at h in ground (arith, no_way)
  | inr (t, f) ↦ elim (Result-cases (audit_transports rest)) [
    | inl (e, g) ↦ let no_way = rw (f, g, audit_transports) at h in ground (arith, no_way)
    | inr (more, g) ↦
        let same : ok ((name, t) ∷ more) ≡ ok ts = rw (f, g, audit_transports) at h in
        let one = transport_from_data-secure j t (ground (arith, d)) f in
        let ih = audit_transports-secure rest more (ground (arith, d)) g in
        sym (ap all_secure (ok-injective _ _ same)) ∙ ground (arith, one, ih)
  ]
]

abbrev pub optional_transports : (Json → Bool) → Option Json → Bool
optional_transports p none = true
optional_transports p (some (object ms)) = all_members p ms
optional_transports p (some _) = true

transports_of-secure :
    (j : Option Json) (ts : List (Str × TransportPolicyAudit))
    → optional_transports distinct_scopes j ≡ true
    → transports_of j ≡ ok ts
    → all_secure ts ≡ optional_transports scopes_secure j
unfolding transports_of
transports_of-secure none ts d h =
    unfold all in sym (ap all_secure (ok-injective {A = List (Str × TransportPolicyAudit)} [] ts h))
transports_of-secure (some (object ms)) ts d h = audit_transports-secure ms ts d h
transports_of-secure (some _) ts d h = ground (arith, h)

-- What the requirements of a policy file come to: of the key "default", and of all scopes of all
-- transports.
abbrev pub policy_secure : Members → Bool
policy_secure policy =
    elim (get (codes "default") policy) [ none ↦ false | some j ↦ requirements_secure j ]
    && optional_transports scopes_secure (get (codes "transports") policy)

-- When the analysis of a policy succeeds, and no object repeats a scope, it finds the default and
-- all transports secure exactly when each of their lists of requirements is secure.
pub policy_from_data-secure :
    (policy : Members) (a : ContainersPolicyAudit)
    → optional_transports distinct_scopes (get (codes "transports") policy) ≡ true
    → policy_from_data (object policy) ≡ ok a
    → (a.default_secure && all_secure a.transports) ≡ policy_secure policy
unfolding policy_from_data
policy_from_data-secure policy a d h = elim (Option-cases (get (codes "default") policy)) [
  | inl e ↦ let no_way = rw (e, policy_from_data) at h in ground (arith, no_way)
  | inr (j, e) ↦ elim (Result-cases (policy_requirements_secure j)) [
    | inl (x, f) ↦ let no_way = rw (e, f, policy_from_data) at h in ground (arith, no_way)
    | inr (b, f) ↦ elim (Result-cases (transports_of (get (codes "transports") policy))) [
      | inl (x, g) ↦ let no_way = rw (e, f, g, policy_from_data) at h in ground (arith, no_way)
      | inr (ts, g) ↦
          let same : ok (record { default_secure = b; transports = ts }) ≡ ok a =
            rw (e, f, g, policy_from_data) at h in
          let req : requirements_secure j ≡ b = ap is_ok_true f in
          let all_ts = transports_of-secure (get (codes "transports") policy) ts d g in
          sym (
            ap (λ (x : ContainersPolicyAudit). x.default_secure && all_secure x.transports)
              (ok-injective _ _ same))
          ∙ rw (e, req, all_ts) refl
    ]
  ]
]
