-- ===== src/Checks/Grade.antt =====
-- Reports whose status is the worst of the statuses of their notes.
use secureblue.Base.{arith}
use secureblue.Base.{◌≡◌, refl, sym, ap, ◌∙◌}
use secureblue.Base.{Bool, true, false, if◌then◌else◌}
use secureblue.Base.{Option, none, some, List, [], ◌∷◌, ◌++◌}
use secureblue.Base.{nat_eq, string_eq, list_eq}
use secureblue.Base.{Str}
use secureblue.Auditor.Status.{Status, pass, info, warn, fail, downgrade_to}
use secureblue.Auditor.Report.{Note}
use secureblue.Checks.State.{note}
use secureblue.Checks.Policy.{TransportPolicyAudit, ContainersPolicyAudit}
use secureblue.Checks.Containers.{
  Graded, add_note, path_message, path_note, scopes_note, grade_transports, insecure_scopes,
  grade_policy,
}

-- The worst of the statuses, `pass` when there is none.
abbrev pub note_status : Note → Status
note_status n = elim n.status [ none ↦ pass | some s ↦ s ]

abbrev pub worst : List Note → Status
worst [] = pass
worst (n ∷ ns) = downgrade_to (note_status n) (worst ns)

abbrev pub IsGraded : Graded → Type 0
IsGraded g = g.0 ≡ worst g.1

pub downgrade_to_assoc :
    (a b c : Status) → downgrade_to (downgrade_to a b) c ≡ downgrade_to a (downgrade_to b c)
unfolding downgrade_to
downgrade_to_assoc a b c = ground arith

pub worst-append :
    (ns : List Note) (s : Status) (text : Str)
    → worst (ns ++ (note s text ∷ [])) ≡ downgrade_to (worst ns) s
worst-append [] s text = unfold downgrade_to in ground arith
worst-append (n ∷ ns) s text =
    ap (downgrade_to (note_status n)) (worst-append ns s text)
    ∙ sym (downgrade_to_assoc (note_status n) (worst ns) s)

pub add_note-IsGraded :
    (s : Status) (text : Str) (g : Graded) → IsGraded g → IsGraded (add_note s text g)
unfolding add_note
add_note-IsGraded s text (status, notes) h =
    ap (λ st. downgrade_to st s) h ∙ sym (worst-append notes s text)

-- `add_note` under a test
pub note_unless-IsGraded :
    (b : Bool) (s : Status) (text : Str) (g : Graded)
    → IsGraded g
    → IsGraded (if b then g else add_note s text g)
note_unless-IsGraded true s text g h = h
note_unless-IsGraded false s text g h = add_note-IsGraded s text g h

path_note-IsGraded : (message : Option Str) → IsGraded (path_note message)
unfolding path_note
path_note-IsGraded none = refl
path_note-IsGraded (some message) = add_note-IsGraded info message (pass, []) (refl)

scopes_note-IsGraded :
    (scopes : List Str) (g : Graded) → IsGraded g → IsGraded (scopes_note scopes g)
unfolding scopes_note
scopes_note-IsGraded [] g h = h
scopes_note-IsGraded (scope ∷ scopes) g h = add_note-IsGraded warn _ g h

grade_transports-IsGraded :
    (ts : List (Str × TransportPolicyAudit)) (g : Graded)
    → IsGraded g
    → IsGraded (grade_transports ts g)
unfolding grade_transports
grade_transports-IsGraded [] g h = h
grade_transports-IsGraded ((name, t) ∷ rest) g h =
    grade_transports-IsGraded rest _ (note_unless-IsGraded t.default_secure fail _ g h)

-- The status of the container policy is the worst of the statuses of its notes.
pub grade_policy-IsGraded :
    (policy_audit : ContainersPolicyAudit) (path : Str) → IsGraded (grade_policy policy_audit path)
unfolding grade_policy
grade_policy-IsGraded policy_audit path =
    scopes_note-IsGraded (insecure_scopes policy_audit.transports) _ (
      grade_transports-IsGraded policy_audit.transports _ (
        note_unless-IsGraded policy_audit.default_secure fail _ _
          (path_note-IsGraded (path_message path))))
