-- ===== src/Kargs/Tests.antt =====
-- Runs of the kernel argument components at concrete inputs.
use secureblue.Base.{◌≡◌, refl, true, false, if◌then◌else◌, not, ◌&&◌, ◌||◌, some, List, [], ◌∷◌}
use secureblue.Base.{list_eq, nat_eq, list_beq, contains, all, Str, codes}
use secureblue.Base.Exec.{ok}
use secureblue.Kargs.Addon.{is_canonical, karg_from_addon, addon_from_karg}
use secureblue.Kargs.Addon.{karg_from_addon-addon_from_karg}
use secureblue.Kargs.Worker.{SetKargs, main}
use secureblue.Kargs.Directories.{dir, AllCanonical}
use secureblue.Kargs.SetArithmetic.{main_result}
use secureblue.Kargs.Build.{composefs, systemd_boot}
use secureblue.Kargs.Build.{is_chosen, optional_kargs, set_hardening, worker}
use secureblue.Kargs.Build.{set_hardening_uki}

abbrev nosmt : Str
nosmt = codes "nosmt=force"

nosmt-canonical : is_canonical nosmt ≡ true
unfolding is_canonical
nosmt-canonical = refl

karg_from_addon-addon_from_karg_example : karg_from_addon (addon_from_karg nosmt) ≡ some nosmt
karg_from_addon-addon_from_karg_example = karg_from_addon-addon_from_karg nosmt nosmt-canonical

abbrev request : SetKargs
request = record { add = nosmt ∷ []; remove = codes "debugfs=off" ∷ [] }

abbrev loaded : List Str
loaded = codes "debugfs=off" ∷ codes "quiet" ∷ []

main_result_example :
    let all_there = all (contains optional_kargs) request.add in
    (final : List Str) × (main (dir optional_kargs) request (dir loaded)
      ≡ (if all_there then (ok 0, dir final) else (ok 1, dir loaded)))
    × ((k : Str)
        → contains final k
          ≡ ((contains loaded k || contains request.add k) && not (contains request.remove k)))
main_result_example =
    main_result optional_kargs loaded request canonical_optional canonical_loaded canonical_remove
  where
    canonical_optional : AllCanonical optional_kargs
    canonical_optional = unfold is_canonical all in refl

    canonical_loaded : AllCanonical loaded
    canonical_loaded = unfold is_canonical all in refl

    canonical_remove : AllCanonical request.remove
    canonical_remove = unfold is_canonical all in refl

set_hardening_uki_example :
    (request : SetKargs) × (final : List Str) × (set_hardening [] composefs systemd_boot true true
        false
      ≡ worker request)
    × (main (dir optional_kargs) request (dir loaded) ≡ (ok 0, dir final))
    × ((k : Str)
        → contains optional_kargs k ≡ true
        → contains final k ≡ is_chosen (not true) true false k)
set_hardening_uki_example =
    set_hardening_uki [] optional_kargs loaded true true false (unfold is_canonical all in refl)
      (unfold is_canonical all in refl) (unfold contains all list_beq in refl)
