-- ===== src/Checks/Kernel.antt =====
-- The checks of the booted image and of the loaded kernel modules, of audit_secureblue.py.
use secureblue.Base.{Bool, true, false, ◌&&◌, ◌||◌, if◌then◌else◌, ltb}
use secureblue.Base.{Option, none, some, List, [], ◌∷◌, ◌++◌}
use secureblue.Base.{◌==◌, nat_eq, string_eq, list_eq, list_beq, contains}
use secureblue.Base.{keep}
use secureblue.Base.Exec.{Result, ok, err}
use secureblue.Base.{Str, codes, starts_with, join, remove_prefix}
use secureblue.Base.Words.{words, replace_char}
use secureblue.Auditor.Status.{Status, pass, fail}
use secureblue.Auditor.Report.{Note}
use secureblue.Auditor.Check.{stateful}
use secureblue.Utils.Toggle.{from_image_id}
use secureblue.Checks.State.{CheckError, index_error}
use secureblue.Checks.State.{note, rec_of, report}
use secureblue.Checks.State.{AuditCheck, done_with, failed_with}
use secureblue.Kargs.Build.{BootcBackend, composefs, ostree}

-- `image_id` is IMAGE_ID of os-release; `image_ref` is the reference of the booted deployment.
unfoldable pub audit_signed_image : Str → BootcBackend → Str → AuditCheck
unfolding from_image_id starts_with remove_prefix join
audit_signed_image image_id backend image_ref = stateful (λ s.
    let s' = record s { image = some (from_image_id image_id) } in
    elim backend [
      | composefs ↦ done_with [] s'
      | ostree ↦
          done_with
            ((if starts_with image_ref (codes "ostree-image-signed:")
                then report "Ensuring a signed image is in use" pass [] []
                else report "Ensuring a signed image is in use" fail [] (
                    rec_of (
                      codes "The current image is not signed."
                      ∷ codes "To rebase to a signed image, run the following command:"
                      ∷ (codes "$ rpm-ostree rebase ostree-image-signed:docker://"
                          ++ remove_prefix
                              (remove_prefix image_ref (codes "ostree-unverified-registry:"))
                              (codes "docker://"))
                      ∷ [])))
              ∷ [])
            s'
    ])

-- The module that a line of a modprobe file blocks; `err` is the IndexError.
unfoldable pub blocked_module : Str → Result CheckError (Option Str)
unfolding words replace_char list_beq
blocked_module line = elim (words line) [
  | [] ↦ ok none
  | w ∷ ws ↦
      if w == codes "blacklist" || w == codes "install"
      then elim ws [ [] ↦ err index_error | m ∷ rest ↦ ok (some (replace_char b'-' b'_' m)) ]
      else ok none
]

unfoldable pub blocked_modules : List Str → Result CheckError (List Str)
unfolding blocked_module
blocked_modules [] = ok []
blocked_modules (line ∷ rest) =
    let more = blocked_modules rest in
    elim (blocked_module line) [
      | err e ↦ err e
      | ok none ↦ more
      | ok (some m) ↦ elim more [ err e ↦ err e | ok ms ↦ ok (m ∷ ms) ]
    ]

-- The order of texts by code points
unfoldable pub text_leb : Str → Str → Bool
text_leb [] t = true
text_leb (c ∷ s) [] = false
text_leb (c ∷ s) (d ∷ t) = ltb c d || (c == d && text_leb s t)

unfoldable pub insert_sorted : Str → List Str → List Str
unfolding text_leb
insert_sorted x [] = x ∷ []
insert_sorted x (y ∷ ys) =
    let rest = insert_sorted x ys in if text_leb x y then x ∷ y ∷ ys else y ∷ rest

-- `xs.sort()`
unfoldable pub sort : List Str → List Str
unfolding insert_sorted
sort [] = []
sort (x ∷ xs) = insert_sorted x (sort xs)

abbrev pub modprobe_dir : Str
modprobe_dir = codes "/usr/lib/modprobe.d"

unfoldable pub module_notes : List Str → List Note
module_notes [] = []
module_notes (m ∷ ms) =
    note fail (
      codes "The module "
      ++ (m
          ++ (codes " is blocked in " ++ (modprobe_dir ++ codes ", but has been loaded anyway."))))
    ∷ module_notes ms

-- `conf` has the lines of the two files, one after the other.
unfoldable pub audit_modprobe : List Str → List Str → AuditCheck
unfolding blocked_modules keep contains sort module_notes list_beq
audit_modprobe conf loaded_modules = stateful (λ s. elim (blocked_modules conf) [
  | err e ↦ failed_with e s
  | ok blocked ↦
      let unwanted_modules = sort (keep (contains loaded_modules) blocked) in
      let status : Status = elim unwanted_modules [ [] ↦ pass | m ∷ ms ↦ fail ] in
      done_with
        (report "Ensuring no modprobe overrides" status (module_notes unwanted_modules) [] ∷ [])
        (record s { bluetooth_loaded = some (contains unwanted_modules (codes "bluetooth")) })
])
