-- ===== src/Kargs/Worker.antt =====
-- The worker that loads and unloads UKI addons: inner/set_kargs_uki.py. A directory is the list of the
-- names in it.
use secureblue.Base.{ℕ}
use secureblue.Base.{Bool, true, false, not, if◌then◌else◌}
use secureblue.Base.{Option, none, some, List, [], ◌∷◌, ◌++◌}
use secureblue.Base.{◌==◌, nat_eq, string_eq, list_eq, list_beq, contains}
use secureblue.Base.{keep}
use secureblue.Base.Exec.{ok, err, Exec, pure, gets, or_raise, ◌>>=◌, ◌>>◌, modify}
use secureblue.Base.{Str, ends_with}
use secureblue.Kargs.Addon.{addon_suffix, karg_from_addon, addon_from_karg}

pub record SetKargs : Type 0 where
  pub add : List Str
  pub remove : List Str

pub data WorkerError : Type 0 where
  file_not_found : Str → WorkerError
  value_error : WorkerError

abbrev pub Names : Type 0
Names = List Str

-- `(AVAIL_ADDONS_PATH / addon).copy_into(LOADED_ADDONS_PATH)`
unfoldable pub copy_addon : Names → Str → Exec Names WorkerError (Unit {0})
unfolding contains list_beq
copy_addon avail addon loaded =
    if contains avail addon
    then (ok tt, if contains loaded addon then loaded else loaded ++ (addon ∷ []))
    else (err (file_not_found addon), loaded)

unfoldable pub add_kargs : Names → List Str → Exec Names WorkerError (Unit {0})
unfolding copy_addon
add_kargs avail [] = pure tt
add_kargs avail (k ∷ ks) = do copy_addon avail (addon_from_karg k); add_kargs avail ks

-- `(LOADED_ADDONS_PATH / addon).unlink(missing_ok=True)`
unfoldable pub unlink : Str → Names → Names
unfolding keep list_beq
unlink addon = keep (λ n. not (n == addon))

unfoldable pub remove_kargs : List Str → Names → Names
unfolding unlink
remove_kargs [] loaded = loaded
remove_kargs (k ∷ ks) loaded = remove_kargs ks (unlink (addon_from_karg k) loaded)

-- The names that `glob("*" + ADDON_SUFFIX)` finds, each through `karg_from_addon`.
unfoldable pub get_kargs : Names → Option (List Str)
get_kargs [] = some []
get_kargs (n ∷ ns) =
    let rest = get_kargs ns in
    if ends_with n addon_suffix
    then elim (karg_from_addon n) [
      | none ↦ none
      | some k ↦ elim rest [ none ↦ none | some ks ↦ some (k ∷ ks) ]
    ]
    else rest

-- `set(xs) - set(ys)` and `set(xs) & set(ys)`
unfoldable pub difference : List Str → List Str → List Str
difference xs ys = keep (λ x. not (contains ys x)) xs

unfoldable pub intersection : List Str → List Str → List Str
intersection xs ys = keep (contains ys) xs

unfoldable pub is_empty : List Str → Bool
is_empty [] = true
is_empty (x ∷ xs) = false

-- What follows the changes: is everything loaded that should be, and nothing else?
unfoldable pub exit_status : SetKargs → List Str → ℕ
unfolding difference intersection
exit_status request loaded_kargs =
    let kargs_not_loaded = difference (difference request.add request.remove) loaded_kargs in
    let kargs_not_removed = intersection request.remove loaded_kargs in
    if not (is_empty kargs_not_removed) then 1 else if not (is_empty kargs_not_loaded) then 1 else 0

unfoldable pub main : Names → SetKargs → Exec Names WorkerError ℕ
main avail request = do
  avail_kargs ← or_raise value_error (get_kargs avail)
  if not (is_empty (difference request.add avail_kargs)) then pure 1 else do
    add_kargs avail request.add
    modify (remove_kargs request.remove)
    loaded ← gets (λ names. names)
    loaded_kargs ← or_raise value_error (get_kargs loaded)
    pure (exit_status request loaded_kargs)
