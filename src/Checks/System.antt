-- ===== src/Checks/System.antt =====
-- The checks of SELinux, of system files, of Secure Boot, of the shell environment and of the webcam, of audit_secureblue.py.
use secureblue.Base.{ℕ}
use secureblue.Base.{Bool, true, false, not, ◌&&◌, ◌||◌, if◌then◌else◌}
use secureblue.Base.{Option, none, some, List, [], ◌∷◌, ◌++◌, map, String}
use secureblue.Base.{◌==◌, nat_eq, string_eq, list_eq, list_beq, contains}
use secureblue.Base.Exec.{Result, ok, err}
use secureblue.Base.{Str, codes, strip, join}
use secureblue.Base.Words.{words, is_infix}
use secureblue.Auditor.Status.{pass, info, warn, fail, unknown}
use secureblue.Auditor.Report.{Recommendation, Report}
use secureblue.Checks.State.{index_error, called_process_error}
use secureblue.Checks.State.{
  Commands, Opened, not_found, permission_error, contents, rec_of, report,
}
use secureblue.Checks.State.{AuditCheck, yields, raises}
use secureblue.Utils.Config.{is_module_loaded}
use secureblue.Checks.Services.{with_note}

unfoldable pub selinux_report : Str → Report
unfolding join list_beq
selinux_report out =
    if out == codes "Enforcing"
    then report "Ensuring SELinux is in Enforcing mode" pass [] []
    else report "Ensuring SELinux is in Enforcing mode" fail [] (
        rec_of (
          codes "SELinux is in Permissive mode."
          ∷ codes "To set it to Enforcing mode, run:"
          ∷ codes "$ run0 -i setenforce 1"
          ∷ []))

unfoldable pub audit_selinux : Commands → AuditCheck
unfolding selinux_report
audit_selinux sys = elim (sys.stdout ("getenforce" ∷ [])) [
  | none ↦ raises called_process_error
  | some out ↦ yields (selinux_report out ∷ [])
]

-- What `filecmp.cmp` of the packaged file and /etc/environment comes to: whether they are the same.
unfoldable pub environment_report : Opened Bool → Report
unfolding join
environment_report compared =
    let rec = rec_of (
      codes "The file /etc/environment has been modified."
      ∷ codes "To reset it, run:"
      ∷ codes "$ run0 -i cp -p /usr/share/secureblue/etc/environment /etc/environment"
      ∷ []) in
    let changed =
      λ (text : Str). with_note "Ensuring no environment file overrides" warn text rec in
    elim compared [
      | not_found ↦ changed (codes "The file /etc/environment has been deleted.")
      | permission_error ↦ changed (codes "The file /etc/environment cannot be read.")
      | contents same ↦
          if same
          then report "Ensuring no environment file overrides" pass [] []
          else changed (codes "The file /etc/environment has been modified.")
    ]

unfoldable pub audit_environment_file : Opened Bool → AuditCheck
unfolding environment_report
audit_environment_file compared = yields (environment_report compared ∷ [])

abbrev pub default_preloads : List Str
default_preloads = codes "libhardened_malloc.so" ∷ codes "libno_rlimit_as.so" ∷ []

unfoldable pub malloc_recs : List Recommendation
unfolding join
malloc_recs = rec_of (
    codes "The file /etc/ld.so.preload has been modified or deleted."
    ∷ codes "To reset it and enable hardened_malloc, run:"
    ∷ codes "$ run0 -i cp -p /usr/share/secureblue/etc/ld.so.preload /etc/ld.so.preload"
    ∷ [])

unfoldable pub same_texts : List Str → List Str → Bool
unfolding list_beq
same_texts [] [] = true
same_texts (s ∷ ss) (t ∷ ts) = s == t && same_texts ss ts
same_texts _ _ = false

-- The words of the file, or the text of the OSError.
unfoldable pub malloc_report : Result Str (List Str) → Report
unfolding malloc_recs same_texts contains list_beq
malloc_report (err strerror) =
    with_note "Ensuring hardened_malloc is set to be preloaded" fail
      (codes "/etc/ld.so.preload could not be read: " ++ strerror) malloc_recs
malloc_report (ok preloads) =
    if same_texts preloads default_preloads
    then report "Ensuring hardened_malloc is set to be preloaded" pass [] []
    else if contains preloads (codes "libhardened_malloc.so")
    then with_note "Ensuring hardened_malloc is set to be preloaded" warn
        (codes "hardened_malloc is enabled, but /etc/ld.so.preload has been modified.") malloc_recs
    else if contains preloads (codes "libhardened_malloc-light.so")
    then with_note "Ensuring hardened_malloc is set to be preloaded" warn
        (codes "The 'light' variant of hardened_malloc is enabled.") malloc_recs
    else if contains preloads (codes "libhardened_malloc-pkey.so")
    then with_note "Ensuring hardened_malloc is set to be preloaded" warn
        (codes "The 'pkey' variant of hardened_malloc is enabled.") malloc_recs
    else with_note "Ensuring hardened_malloc is set to be preloaded" fail
        (codes "hardened_malloc is not enabled.") malloc_recs

unfoldable pub audit_hardened_malloc : Result Str Str → AuditCheck
unfolding malloc_report words
audit_hardened_malloc (err strerror) = yields (malloc_report (err strerror) ∷ [])
audit_hardened_malloc (ok text) = yields (malloc_report (ok (words text)) ∷ [])

-- What `mokutil --sb-state` returns and prints.
pub record Completed : Type 0 where
  pub returncode : ℕ
  pub stdout : Str
  pub stderr : Str

unfoldable pub secureboot_report : Completed → Report
unfolding is_infix strip list_beq
secureboot_report result =
    if result.returncode == 0 && strip result.stdout == codes "SecureBoot enabled"
    then report "Ensuring secure boot is enabled" pass [] []
    else if is_infix (codes "doesn't support Secure Boot") result.stderr
        || is_infix (codes "EFI variables are not supported") result.stderr
    then with_note "Ensuring secure boot is enabled" info
        (codes "Your hardware does not support secure boot.")
        (record {
          text =
              codes "Your hardware does not support secure boot."
              ++ (10
                  ∷ codes
                      "The system will be unable to verify that kernel modules are signed or the boot process.");
          mergeable_name = none;
        }
          ∷ [])
    else report "Ensuring secure boot is enabled" fail [] []

unfoldable pub audit_secureboot : Completed → AuditCheck
unfolding secureboot_report
audit_secureboot result = yields (secureboot_report result ∷ [])

-- What is at a path, and what `lsattr -d` prints of it (`none` when it fails).
pub record PathState : Type 0 where
  pub exists : Bool
  pub is_file : Bool
  pub is_dir : Bool
  pub lsattr : Option Str

abbrev pub bash_env_names : List String
bash_env_names =
    ".bashrc" ∷ ".bash_profile" ∷ ".profile" ∷ ".bash_logout" ∷ ".bash_login" ∷ ".bashrc.d"
    ∷ ".config/bash_completion" ∷ ".config/environment.d" ∷ []

unfoldable pub bash_env_paths : Str → List Str
bash_env_paths home_dir = map (λ name. home_dir ++ (b'/' ∷ codes name)) bash_env_names

-- Whether the path is unlocked; `none` is the IndexError when lsattr prints nothing.
unfoldable pub is_unlocked : PathState → Option Bool
unfolding words contains
is_unlocked p =
    if not p.exists || (not p.is_file && not p.is_dir) then some true else elim p.lsattr [
      | none ↦ some true
      | some out ↦ elim (words out) [ [] ↦ none | w ∷ ws ↦ some (not (contains w b'i')) ]
    ]

unfoldable pub unlocked_files : (Str → PathState) → List Str → Option (List Str)
unfolding is_unlocked
unlocked_files at [] = some []
unlocked_files at (path ∷ rest) =
    let more = unlocked_files at rest in
    elim (is_unlocked (at path)) [
      | none ↦ none
      | some unlocked ↦ elim more [
        | none ↦ none
        | some paths ↦ some (if unlocked then path ∷ paths else paths)
      ]
    ]

unfoldable pub bash_env_report : List Str → Report
unfolding join
bash_env_report [] = report "Ensuring current user's bash environment is locked down" pass [] []
bash_env_report (path ∷ paths) =
    report "Ensuring current user's bash environment is locked down" fail [] (
      rec_of (
        codes "Bash environment is not locked down."
          ∷ codes "The following files do not appear to be immutable or do not exist:"
          ∷ (path ∷ paths)
        ++ (codes "To fix this, run:" ∷ codes "$ ujust toggle-bash-environment-lockdown" ∷ [])))

unfoldable pub audit_bash_env_lockdown : (Str → PathState) → Str → AuditCheck
unfolding bash_env_paths unlocked_files bash_env_report
audit_bash_env_lockdown at home_dir = elim (unlocked_files at (bash_env_paths home_dir)) [
  | none ↦ raises index_error
  | some paths ↦ yields (bash_env_report paths ∷ [])
]

unfoldable pub webcam_line : Str
webcam_line = codes "install uvcvideo /bin/false"

-- The lines of the modprobe file, and those of /proc/modules.
unfoldable pub webcam_report : Opened (List Str) → Option (List Str) → Report
unfolding webcam_line is_module_loaded contains strip join list_beq
webcam_report file proc_modules =
    let enabled = λ (text : List Str).
      with_note "Checking whether webcam module is disabled" info
        (codes "Webcam module is enabled.") (rec_of text) in
    elim file [
      | not_found ↦ enabled (
          codes "Webcam module is enabled."
          ∷ codes "To disable it, run:"
          ∷ codes "$ ujust set-webcam-modules off"
          ∷ [])
      | permission_error ↦
          with_note "Checking whether webcam module is disabled" unknown
            (codes "Unable to read file /etc/modprobe.d/99-disable-webcam.conf.") []
      | contents f ↦
          if contains (map strip f) webcam_line
          then if is_module_loaded (codes "uvcvideo") proc_modules
            then enabled (
                codes
                  "Webcam module is blacklisted in /etc/modprobe.d/99-disable-webcam.conf but is still enabled."
                ∷ codes "To disable it, you must reboot."
                ∷ [])
            else report "Checking whether webcam module is disabled" pass [] []
          else report "Checking whether webcam module is disabled" unknown [] []
    ]

unfoldable pub audit_webcam_module : Opened (List Str) → Option (List Str) → AuditCheck
unfolding webcam_report
audit_webcam_module file proc_modules = yields (webcam_report file proc_modules ∷ [])
