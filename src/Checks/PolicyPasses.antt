-- ===== src/Checks/PolicyPasses.antt =====
-- When the check of the container policy passes, in terms of the analysis of the policy file.
use secureblue.Base.{arith}
use secureblue.Base.{◌≡◌, refl, ◌∙◌, inl, inr}
use secureblue.Base.{Bool, true, false, ◌&&◌, if◌then◌else◌, Bool-cases}
use secureblue.Base.{List, [], ◌∷◌, ◌++◌, map}
use secureblue.Base.{◌==◌, nat_eq, string_eq, list_eq}
use secureblue.Base.{all}
use secureblue.Base.{Str, codes}
use secureblue.Auditor.Status.{Status, warn, fail, downgrade_to}
use secureblue.Checks.State.{lines}
use secureblue.Checks.State.{is_pass}
use secureblue.Checks.Policy.{
  TransportPolicyAudit, ContainersPolicyAudit, distro_policy_file, system_policy_file,
}
use secureblue.Checks.Containers.{
  Graded, add_note, path_message, path_note, scopes_note, grade_transports, insecure_scopes,
  grade_policy,
}

abbrev pub is_nil : {A : Type 0} → List A → Bool
is_nil [] = true
is_nil (x ∷ xs) = false

-- A transport at which every image is subject to a requirement
abbrev pub transport_secure : TransportPolicyAudit → Bool
transport_secure t = t.default_secure && is_nil t.insecure_scopes

pub is_nil-append : {A : Type 0} (xs ys : List A) → is_nil (xs ++ ys) ≡ (is_nil xs && is_nil ys)
is_nil-append [] ys = refl
is_nil-append (x ∷ xs) ys = refl

pub is_nil-map : {A B : Type 0} (f : A → B) (xs : List A) → is_nil (map f xs) ≡ is_nil xs
is_nil-map f [] = refl
is_nil-map f (x ∷ xs) = refl

is_pass-add_note :
    (s : Status) (text : Str) (g : Graded)
    → is_pass s ≡ false
    → is_pass (add_note s text g).0 ≡ false
unfolding is_pass add_note downgrade_to
is_pass-add_note s text (status, notes) h = ground arith

is_pass-unless :
    (b : Bool) (text : Str) (g : Graded)
    → is_pass (if b then g else add_note fail text g).0 ≡ (b && is_pass g.0)
is_pass-unless true text g = refl
is_pass-unless false text g = is_pass-add_note fail text g (unfold is_pass in refl)

is_pass-grade_transports :
    (ts : List (Str × TransportPolicyAudit)) (g : Graded)
    → is_pass (grade_transports ts g).0
      ≡ (is_pass g.0 && all (λ (p : Str × TransportPolicyAudit). p.1.default_secure) ts)
unfolding grade_transports all
is_pass-grade_transports [] g = ground arith
is_pass-grade_transports ((name, t) ∷ rest) g =
    is_pass-grade_transports rest _ ∙ rw (is_pass-unless t.default_secure _ g) (ground arith)

is_nil-insecure_scopes :
    (ts : List (Str × TransportPolicyAudit))
    → is_nil (insecure_scopes ts)
      ≡ all (λ (p : Str × TransportPolicyAudit). is_nil p.1.insecure_scopes) ts
unfolding insecure_scopes all
is_nil-insecure_scopes [] = refl
is_nil-insecure_scopes ((name, t) ∷ rest) =
    is_nil-append _ (insecure_scopes rest)
    ∙ rw
        (
          is_nil-map (λ (scope : Str). name ++ (58 ∷ scope)) t.insecure_scopes,
          is_nil-insecure_scopes rest,
        )
        refl

all-transport_secure :
    (ts : List (Str × TransportPolicyAudit))
    → all (λ (p : Str × TransportPolicyAudit). transport_secure p.1) ts ≡ (
        all (λ (p : Str × TransportPolicyAudit). p.1.default_secure) ts
        && all (λ (p : Str × TransportPolicyAudit). is_nil p.1.insecure_scopes) ts)
unfolding all
all-transport_secure [] = refl
all-transport_secure ((name, t) ∷ rest) = ground (arith, all-transport_secure rest)

is_pass-path_note :
    (path : Str) → is_pass (path_note (path_message path)).0 ≡ (path == distro_policy_file)
unfolding path_note path_message is_pass add_note downgrade_to
is_pass-path_note path = elim (Bool-cases (path == distro_policy_file)) [
  | inl e ↦ rw e refl
  | inr e ↦ elim (Bool-cases (path == system_policy_file)) [
    | inl f ↦ rw (e, f) refl
    | inr f ↦ rw (e, f) refl
  ]
]

is_pass-scopes_note :
    (scopes : List Str) (g : Graded)
    → is_pass (scopes_note scopes g).0 ≡ (is_pass g.0 && is_nil scopes)
unfolding scopes_note
is_pass-scopes_note [] g = ground arith
is_pass-scopes_note (scope ∷ scopes) g =
    let text =
      codes "Signature validation is disabled for containers at the following scopes:\n"
      ++ lines (scope ∷ scopes) in
    let no_pass = is_pass-add_note warn text g (unfold is_pass in refl) in no_pass ∙ ground arith

-- The status of the policy is PASS exactly when the file is the one of the distribution, the default
-- is secure, and so is every transport: its own default, and all its scopes.
pub grade_policy-passes :
    (policy_audit : ContainersPolicyAudit) (path : Str)
    → is_pass (grade_policy policy_audit path).0 ≡ (
        (path == distro_policy_file)
        && (policy_audit.default_secure
            && all
                (λ (p : Str × TransportPolicyAudit). transport_secure p.1)
                policy_audit.transports))
unfolding grade_policy
grade_policy-passes policy_audit path =
    let ts = policy_audit.transports in
    rw
      (
        is_pass-scopes_note (insecure_scopes ts) _,
        is_pass-grade_transports ts _,
        is_pass-unless policy_audit.default_secure _ (path_note (path_message path)),
        is_pass-path_note path,
        is_nil-insecure_scopes ts,
        all-transport_secure ts,
      )
      (ground arith)
