-- ===== src/Checks/State.antt =====
-- What the checks share: the state, their errors, the commands that they run, and how reports are made.
use secureblue.Base.{◌≡◌, refl}
use secureblue.Base.{Bool, true, false}
use secureblue.Base.{Option, none, some, List, [], ◌∷◌, String}
use secureblue.Base.{nat_eq, string_eq, list_eq}
use secureblue.Base.{Str, join}
use secureblue.Auditor.Status.{Status, pass}
use secureblue.Auditor.Report.{Note, Recommendation, Report}
use secureblue.Auditor.Check.{Generated, Callback, stateless}
use secureblue.Utils.Toggle.{Image}

-- The entries of `state`, each absent until a check has set it; an unknown image is `some none`.
pub record AuditState : Type 0 where
  pub image : Option (Option Image)
  pub bluetooth_loaded : Option Bool
  pub container_userns_enabled : Option Bool
  pub ptrace_allowed : Option Bool

abbrev pub initial : AuditState
initial = record {
  image = none;
  bluetooth_loaded = none;
  container_userns_enabled = none;
  ptrace_allowed = none;
}

pub data CheckError : Type 0 where
  key_error value_error index_error type_error attribute_error : CheckError
  called_process_error os_error policy_error : CheckError

-- The commands of the system: whether one succeeds, and what it prints, stripped; `none` is the
-- CalledProcessError of one that fails.
pub record Commands : Type 0 where
  pub succeeds : List String → Bool
  pub stdout : List String → Option Str

-- What opening a file comes to.
pub data Opened (A : Type 0) : Type 0 where
  not_found permission_error : Opened A
  contents : A → Opened A

abbrev pub note : Status → Str → Note
note status text = record { text = text; status = some status }

abbrev pub lines : List Str → Str
lines = join (10 ∷ [])

abbrev pub rec_of : List Str → List Recommendation
rec_of ls = record { text = lines ls; mergeable_name = none } ∷ []

abbrev pub report : String → Status → List Note → List Recommendation → Report
report description status notes recs = record {
  description = description;
  status = status;
  notes = notes;
  recs = recs;
}

abbrev pub AuditCheck : Type 0
AuditCheck = Callback AuditState CheckError

abbrev pub yields : List Report → AuditCheck
yields rs = stateless rs none

abbrev pub raises : CheckError → AuditCheck
raises e = stateless [] (some e)

-- The ends of a check that uses the state.
abbrev pub done_with : List Report → AuditState → Generated AuditState CheckError
done_with rs s = record { yielded = rs; failure = none; state = s }

abbrev pub failed_with : CheckError → AuditState → Generated AuditState CheckError
failed_with e s = record { yielded = []; failure = some e; state = s }

unfoldable pub is_pass : Status → Bool
is_pass pass = true
is_pass _ = false

-- One report is yielded, and it passes as the test says.
abbrev pub OnePasses : List Report → Bool → Type 0
OnePasses rs passes = (r : Report) × (rs ≡ r ∷ []) × (is_pass r.status ≡ passes)

pub OnePasses-one :
    (r : Report) (passes : Bool) → is_pass r.status ≡ passes → OnePasses (r ∷ []) passes
OnePasses-one r passes h = (r, refl, h)
