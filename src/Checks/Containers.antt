-- ===== src/Checks/Containers.antt =====
-- The checks of the container policy, of user namespaces and of ptrace, of audit_secureblue.py.
use secureblue.Base.{Bool, not, if◌then◌else◌}
use secureblue.Base.{Option, none, some, List, [], ◌∷◌, ◌++◌, map}
use secureblue.Base.{◌==◌, nat_eq, string_eq, list_eq, list_beq}
use secureblue.Base.Exec.{Result, ok, err}
use secureblue.Base.{Str, codes, join}
use secureblue.Auditor.Status.{Status, pass, info, warn, fail, downgrade_to}
use secureblue.Auditor.Report.{Note, Recommendation, Report}
use secureblue.Auditor.Check.{stateful}
use secureblue.Checks.State.{key_error, value_error, called_process_error}
use secureblue.Checks.State.{Commands, note, lines, rec_of, report}
use secureblue.Checks.State.{AuditCheck, yields, raises, done_with, failed_with}
use secureblue.Checks.State.{is_pass}
use secureblue.Checks.Policy.{
  TransportPolicyAudit, ContainersPolicyAudit, PolicyFiles, analyze_active_container_policy,
  distro_policy_file, system_policy_file,
}
use secureblue.Selinux.Ptrace.{
  PtraceStatus, PtraceError, disabled, admin_only, container_only, restricted, unrestricted,
}

-- A status with the notes so far
abbrev pub Graded : Type 0
Graded = Status × List Note

-- `status = status.downgrade_to(s)` and a note of the same status
unfoldable pub add_note : Status → Str → Graded → Graded
unfolding downgrade_to
add_note s text (status, notes) = (downgrade_to status s, notes ++ (note s text ∷ []))

unfoldable pub path_message : Str → Option Str
unfolding list_beq
path_message policy_path =
    if policy_path == distro_policy_file
    then none
    else if policy_path == system_policy_file
    then some
        (codes "Container policy has a system-wide override at " ++ (policy_path ++ codes "."))
    else some (codes "Container policy has a local override at " ++ (policy_path ++ codes "."))

unfoldable pub path_recs : Str → List Recommendation
unfolding path_message join list_beq
path_recs policy_path = elim (path_message policy_path) [
  | none ↦ []
  | some message ↦ rec_of (
      message
      ∷ codes "To restore the default container policy, run:"
      ∷ (if policy_path == system_policy_file
          then codes "$ run0 -i rm /etc/containers/policy.json"
          else codes "$ rm '" ++ (policy_path ++ codes "'"))
      ∷ [])
]

unfoldable pub path_note : Option Str → Graded
unfolding add_note
path_note none = (pass, [])
path_note (some message) = add_note info message (pass, [])

-- The loop over the transports
unfoldable pub grade_transports : List (Str × TransportPolicyAudit) → Graded → Graded
unfolding add_note
grade_transports [] g = g
grade_transports ((transport_name, t) ∷ rest) g = grade_transports rest (
    if t.default_secure
    then g
    else add_note fail
        (codes "The default container policy for transport '"
          ++ (transport_name ++ codes "' is insecure."))
        g)

unfoldable pub insecure_scopes : List (Str × TransportPolicyAudit) → List Str
insecure_scopes [] = []
insecure_scopes ((transport_name, t) ∷ rest) =
    map (λ scope. transport_name ++ (58 ∷ scope)) t.insecure_scopes ++ insecure_scopes rest

unfoldable pub scopes_note : List Str → Graded → Graded
unfolding add_note join
scopes_note [] g = g
scopes_note (scope ∷ scopes) g =
    add_note warn
      (codes "Signature validation is disabled for containers at the following scopes:\n"
        ++ lines (scope ∷ scopes))
      g

unfoldable pub grade_policy : ContainersPolicyAudit → Str → Graded
unfolding path_message path_note grade_transports insecure_scopes scopes_note add_note
grade_policy policy_audit policy_path =
    let g = path_note (path_message policy_path) in
    let g' : Graded =
      if policy_audit.default_secure
      then g
      else add_note fail (codes "The default container policy is insecure.") g in
    scopes_note (insecure_scopes policy_audit.transports)
      (grade_transports policy_audit.transports g')

unfoldable pub audit_container_policy : PolicyFiles → AuditCheck
unfolding analyze_active_container_policy grade_policy path_recs
audit_container_policy files = elim (analyze_active_container_policy files) [
  | err e ↦ raises e
  | ok (policy_audit, policy_path) ↦
      let (status, notes) = grade_policy policy_audit policy_path in
      yields (report "Analyzing container policy" status notes (path_recs policy_path) ∷ [])
]

unfoldable pub audit_unconfined_userns : Commands → AuditCheck
unfolding join list_beq
audit_unconfined_userns sys =
    elim (sys.stdout ("ujust" ∷ "set-unconfined-userns" ∷ "status" ∷ [])) [
      | none ↦ raises called_process_error
      | some out ↦ yields (
          (if out == codes "disabled"
            then report "Ensuring unconfined user namespace creation disallowed" pass [] []
            else report "Ensuring unconfined user namespace creation disallowed" fail [] (
                rec_of (
                  codes "Unconfined domain user namespace creation is permitted."
                  ∷ codes "To disallow it, run:"
                  ∷ codes "$ ujust set-unconfined-userns off"
                  ∷ [])))
          ∷ [])
    ]

unfoldable pub audit_container_userns : Commands → AuditCheck
unfolding join list_beq
audit_container_userns sys = stateful (λ s.
    elim (sys.stdout ("ujust" ∷ "set-container-userns" ∷ "status" ∷ [])) [
      | none ↦ failed_with called_process_error s
      | some out ↦
          let container_userns = not (out == codes "disabled") in
          done_with
            ((if container_userns
                then report "Ensuring container user namespace creation disallowed" warn [] (
                    rec_of (
                      codes "Container domain user namespace creation is permitted."
                      ∷ codes "To disallow it, run:"
                      ∷ codes "$ ujust set-container-userns off"
                      ∷ []))
                else report "Ensuring container user namespace creation disallowed" pass [] [])
              ∷ [])
            (record s { container_userns_enabled = some container_userns })
    ])

abbrev pub yama_doc_url : Str
yama_doc_url = codes "https://www.kernel.org/doc/html/latest/admin-guide/LSM/Yama.html"

unfoldable pub ptrace_report : Status → List Note → List Recommendation → Report
ptrace_report = report "Ensuring ptrace is forbidden"

abbrev pub more_info : Str
more_info = codes "For more info on what this means, see:"

abbrev pub to_forbid : List Str
to_forbid = codes "To forbid ptrace, run:" ∷ codes "$ ujust set-ptrace off" ∷ []

-- A status whose note has the text that also starts the recommendation
unfoldable pub ptrace_finding : Status → Str → List Str → Report
unfolding ptrace_report join
ptrace_finding status note_text rest =
    ptrace_report status (note status note_text ∷ []) (rec_of (note_text ∷ rest))

-- The cases of the `match`; `none` is the KeyError of `state["container_userns_enabled"]`.
unfoldable pub judge_ptrace : PtraceStatus → Option Bool → Option Report
unfolding ptrace_report ptrace_finding
judge_ptrace disabled userns = some (ptrace_report pass [] [])
judge_ptrace unrestricted userns = some (
    ptrace_finding fail (codes "ptrace is allowed and **unrestricted** (ptrace_scope = 0)!") (
      more_info
      ∷ yama_doc_url
      ∷ codes "Check the configuration in /etc/sysctl.d to fix this."
      ∷ []))
judge_ptrace restricted userns = some (
    ptrace_finding warn
      (codes "ptrace is allowed, but restricted to child processes (ptrace_scope = 1).")
      (more_info ∷ yama_doc_url ∷ to_forbid))
judge_ptrace admin_only userns = some (
    ptrace_finding info
      (codes "ptrace access is restricted to administrative users (ptrace_scope = 2).")
      (more_info ∷ yama_doc_url ∷ to_forbid))
judge_ptrace container_only none = none
judge_ptrace container_only (some userns) = some (
    ptrace_finding (if userns then warn else info)
      (codes "ptrace on child processes (ptrace_scope = 1) is allowed inside containers.")
      to_forbid)

-- The errors of `get_ptrace_status`, which are AssertionErrors and the like, as one
unfoldable pub audit_ptrace : Result PtraceError PtraceStatus → AuditCheck
unfolding judge_ptrace
audit_ptrace ptrace_status = stateful (λ s. elim ptrace_status [
  | err e ↦ failed_with value_error s
  | ok p ↦ elim (judge_ptrace p s.container_userns_enabled) [
    | none ↦ failed_with key_error s
    | some r ↦ done_with (r ∷ []) (record s { ptrace_allowed = some (not (is_pass r.status)) })
  ]
])
