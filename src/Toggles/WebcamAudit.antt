-- ===== src/Toggles/WebcamAudit.antt =====
-- webcam_main.py and the check of the webcam of audit_secureblue.py.
use secureblue.Base.{ℕ}
use secureblue.Base.{◌≡◌, refl, ap, ◌∙◌, inl, inr}
use secureblue.Base.{Bool, true, false, not, if◌then◌else◌, Bool-cases}
use secureblue.Base.{Option, none, some, List, [], ◌∷◌, map}
use secureblue.Base.{nat_eq, string_eq, list_eq, list_beq, contains}
use secureblue.Base.Dict
use secureblue.Base.Dict.{Dict}
use secureblue.Base.Exec.{Result, ok}
use secureblue.Base.{Str, codes, strip, split_lines}
use mathlib.Core.Path.{subst}
use secureblue.Base.{Option-cases}
use secureblue.Base.Dict.{lookup-insert, lookup-erase}
use secureblue.Auditor.Status.{Status, pass, info}
use secureblue.Utils.Ask.{Entered, AskError}
use secureblue.Utils.Config.{is_module_loaded}
use secureblue.Dns.World.{ConfFile}
use secureblue.Checks.State.{Opened, not_found, contents}
use secureblue.Checks.System.{webcam_report, webcam_line}
use secureblue.Toggles.Host.{
  Host, file_exists, write_file, granted, run_sandboxed, worker_status, mode_text, read_mode,
}
use secureblue.Toggles.Modprobe.{
  webcam_mod_file, webcam_mod_text, webcam_worker, webcam_on, webcam_off, on_off, run_mode,
  run_read, webcam_main,
}
use secureblue.Toggles.SwitchLaws.{erased, remove_there}

-- The modprobe file as the check opens it.
abbrev pub opened : Option ConfFile → Opened (List Str)
opened none = not_found
opened (some f) = contents (split_lines f.content)

-- The file is not there, or it is as the worker writes it.
abbrev pub WebcamFile : Option ConfFile → Type 0
WebcamFile none = Unit {0}
WebcamFile (some f) = f.content ≡ webcam_mod_text

-- What the check is to say: a module that is loaded counts as on until the next boot.
abbrev pub wanted : Bool → Option (List Str) → Status
wanted true proc_modules = info
wanted false proc_modules = if is_module_loaded (codes "uvcvideo") proc_modules then info else pass

-- The file is as asked for.
abbrev pub IsAsAsked : Bool → Option ConfFile → Type 0
IsAsAsked true file = file ≡ none
IsAsAsked false file = (f : ConfFile) × (file ≡ some f) × (f.content ≡ webcam_mod_text)

has_line : contains (map strip (split_lines webcam_mod_text)) webcam_line ≡ true
unfolding contains strip split_lines webcam_line list_beq
has_line = refl

written_status :
    (proc_modules : Option (List Str))
    → (webcam_report (contents (split_lines webcam_mod_text)) proc_modules).status
      ≡ wanted false proc_modules
unfolding webcam_report
written_status proc_modules = elim (Bool-cases (is_module_loaded (codes "uvcvideo") proc_modules)) [
  | inl e ↦ rw (has_line, e) refl
  | inr e ↦ rw (has_line, e) refl
]

written_report :
    (proc_modules : Option (List Str)) (text : Str)
    → text ≡ webcam_mod_text
    → (webcam_report (contents (split_lines text)) proc_modules).status ≡ wanted false proc_modules
written_report proc_modules text e =
    ap (λ t. (webcam_report (contents (split_lines t)) proc_modules).status) e
    ∙ written_status proc_modules

IsAsAsked-report :
    (target : Bool) (file : Option ConfFile) (proc_modules : Option (List Str))
    → IsAsAsked target file
    → (webcam_report (opened file) proc_modules).status ≡ wanted target proc_modules
unfolding webcam_report
IsAsAsked-report true file proc_modules e = rw e refl
IsAsAsked-report false file proc_modules (f, e, text) =
    rw e (written_report proc_modules f.content text)

IsAsAsked-WebcamFile :
    (target : Bool) (file : Option ConfFile) → IsAsAsked target file → WebcamFile file
IsAsAsked-WebcamFile true file e = rw e tt
IsAsAsked-WebcamFile false file (f, e, text) = rw e text

module _ {Units : Type 0} where
  abbrev pub webcam_file : Host Units → Option ConfFile
  webcam_file host = Dict.lookup webcam_mod_file host.files

  -- The run of the mode, when run0 grants it.
  abbrev ran : Bool → Host Units → ℕ × Host Units
  ran target host =
      run_mode granted (not (file_exists webcam_mod_file host)) webcam_worker (mode_text target)
        host

  abbrev Done : Bool → ℕ × Host Units → Type 0
  Done target (code, after) = (code ≡ 0) × IsAsAsked target (webcam_file after)

  exists_none :
      (host : Host Units) → webcam_file host ≡ none → file_exists webcam_mod_file host ≡ false
  unfolding file_exists
  exists_none host e = rw (file_exists, e) refl

  exists_some :
      (host : Host Units) (f : ConfFile)
      → webcam_file host ≡ some f
      → file_exists webcam_mod_file host ≡ true
  unfolding file_exists
  exists_some host f e = rw (file_exists, e) refl

  -- Without the file: it is written for `off`.
  absent-Done :
      (target : Bool) (host : Host Units) → webcam_file host ≡ none → Done target (ran target host)
  unfolding run_mode
  absent-Done true host e = rw (exists_none host e) (refl, e)
  absent-Done false host e =
      let f : ConfFile = record { content = webcam_mod_text; mode = 0o644 } in
      rw (exists_none host e) (
        unfold webcam_worker on_off webcam_off worker_status list_beq in refl,
        (
          f,
          unfold webcam_worker on_off webcam_off write_file list_beq in
              lookup-insert webcam_mod_file webcam_mod_file f host.files,
          refl,
        ),
      )

  -- The worker for `on`, where there is a file.
  on_Done :
      (host : Host Units) (f : ConfFile)
      → webcam_file host ≡ some f
      → Done true (run_sandboxed granted (webcam_worker (mode_text true ∷ [])) host)
  unfolding run_sandboxed webcam_worker on_off webcam_on list_beq
  on_Done host f e = rw (remove_there webcam_mod_file host f e) (
    unfold worker_status in refl,
    unfold erased in lookup-erase webcam_mod_file webcam_mod_file host.files,
  )

  there-Done :
      (target : Bool) (host : Host Units) (f : ConfFile)
      → webcam_file host ≡ some f
      → f.content ≡ webcam_mod_text
      → Done target (ran target host)
  unfolding run_mode
  there-Done true host f e text = rw (exists_some host f e) (on_Done host f e)
  there-Done false host f e text = rw (exists_some host f e) (refl, (f, e, text))

  ran-Done :
      (target : Bool) (host : Host Units)
      → WebcamFile (webcam_file host)
      → Done target (ran target host)
  ran-Done target host good = elim (Option-cases (webcam_file host)) [
    | inl e ↦ absent-Done target host e
    | inr (f, e) ↦ there-Done target host f e (subst WebcamFile e good)
  ]

  main-ran :
      (r : Result AskError (Option Str)) (target : Bool) (host : Host Units)
      → r ≡ ok (some (mode_text target))
      → run_read granted (not (file_exists webcam_mod_file host)) webcam_worker r host
        ≡ (ok (ran target host).0, (ran target host).1)
  unfolding run_read
  main-ran r target host h = rw h refl

  -- Let run0 be granted, let the modprobe file be missing or be one that the worker wrote, and let
  -- webcam_main.py be asked for a mode by its argument or by an answer: it ends with status 0 and leaves
  -- the file missing or as the worker writes it; and the webcam check of the audit then says INFO if
  -- the webcam is to be on, or is to be off while its module is still loaded, and PASS otherwise.
  pub webcam_main-report :
      (args : List Str) (entered : List Entered) (target : Bool) (host : Host Units)
      (proc_modules : Option (List Str))
      → read_mode args entered ≡ ok (some (mode_text target))
      → WebcamFile (webcam_file host)
      → ((webcam_main granted args entered host).0 ≡ ok 0)
        × WebcamFile (webcam_file (webcam_main granted args entered host).1)
        × ((webcam_report
              (opened (webcam_file (webcam_main granted args entered host).1))
              proc_modules).status
            ≡ wanted target proc_modules)
  unfolding webcam_main
  webcam_main-report args entered target host proc_modules h good =
      let (zero_code, as_asked) = ran-Done target host good in
      rw (main-ran (read_mode args entered) target host h) (
        ap ok zero_code,
        IsAsAsked-WebcamFile target _ as_asked,
        IsAsAsked-report target _ proc_modules as_asked,
      )
