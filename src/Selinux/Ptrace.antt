-- ===== src/Selinux/Ptrace.antt =====
-- shared/ptrace.py and set_ptrace.py. `scope` is the number in /proc/sys/kernel/yama/ptrace_scope.
use secureblue.Base.{ℕ}
use secureblue.Base.{Bool, true, false, not, ◌&&◌, ◌||◌, if◌then◌else◌, leb}
use secureblue.Base.{Option, none, some, List, [], ◌∷◌}
use secureblue.Base.{◌==◌, nat_eq, string_eq, list_eq, list_beq, contains}
use secureblue.Base.Exec.{Result, ok, err, Exec, pure, gets, or_raise, ◌>>=◌, ◌>>◌}
use secureblue.Base.{Str, codes}
use secureblue.Auditor.Status.{casefold}
use secureblue.Utils.Config.{get_selinux_booleans, setsebool_args}
use secureblue.Selinux.Booleans.{Selinux, deny_ptrace, container_allow_ptrace}

pub data PtraceStatus : Type 0 where
  disabled admin_only container_only restricted unrestricted : PtraceStatus

pub data PtraceError : Type 0 where
  invalid_scope invalid_selection unreachable bad_output called_process_error : PtraceError

-- The cases of the `match`, in order.
unfoldable pub status_of : ℕ → Bool → Bool → Result PtraceError PtraceStatus
status_of scope denied container_allowed =
    if scope == 0
    then ok unrestricted
    else if (denied && not container_allowed) || scope == 3
    then ok disabled
    else if scope == 2 && not denied
    then ok admin_only
    else if scope == 1 && not denied
    then ok restricted
    else if denied && container_allowed
    then ok container_only
    else if not (leb scope 3)
    then err invalid_scope
    else err unreachable

-- What `check_ptrace_scope` raises; its warnings are printed only.
unfoldable pub check_ptrace_scope : ℕ → Result PtraceError (Unit {0})
check_ptrace_scope scope = if leb scope 3 then ok tt else err invalid_scope

-- What the menu returns: a choice, or `none` on Ctrl+C.
unfoldable pub get_selection : Option Str → Result PtraceError (Option Str)
unfolding list_beq
get_selection none = ok none
get_selection (some choice) =
    if choice == codes "enabled"
    then ok (some (codes "on"))
    else if choice == codes "container-only"
    then ok (some (codes "container"))
    else if choice == codes "disabled"
    then ok (some (codes "off"))
    else err invalid_selection

module _ (se : Selinux) where
  abbrev pub Action : Type 0 → Type 0
  Action = Exec se.State PtraceError

  unfoldable pub booleans : List Str → Action (List Str)
  unfolding get_selinux_booleans
  booleans names = do
    printed ← gets (se.getsebool names)
    output ← or_raise called_process_error printed
    or_raise bad_output (get_selinux_booleans output)

  unfoldable pub set_booleans : List (Str × Bool) → Action ℕ
  unfolding setsebool_args
  set_booleans sebools s =
      let (status, t) = se.setsebool (setsebool_args sebools true) s in (ok status, t)

  unfoldable pub lift : {A : Type 0} → Result PtraceError A → Action A
  lift (ok a) s = (ok a, s)
  lift (err e) s = (err e, s)

  unfoldable pub get_ptrace_status : ℕ → Action PtraceStatus
  get_ptrace_status scope = do
    sebools ← booleans (deny_ptrace ∷ container_allow_ptrace ∷ [])
    lift (status_of scope (contains sebools deny_ptrace) (contains sebools container_allow_ptrace))

  unfoldable pub enable_ptrace : ℕ → Action ℕ
  enable_ptrace scope = do
    lift (check_ptrace_scope scope)
    sebools ← booleans (deny_ptrace ∷ [])
    if not (contains sebools deny_ptrace) then pure 0 else set_booleans ((deny_ptrace, false) ∷ [])

  unfoldable pub set_container_ptrace : ℕ → Action ℕ
  set_container_ptrace scope = do
    lift (check_ptrace_scope scope)
    sebools ← booleans (deny_ptrace ∷ container_allow_ptrace ∷ [])
    if contains sebools deny_ptrace && contains sebools container_allow_ptrace
        then pure 0
        else set_booleans ((deny_ptrace, true) ∷ (container_allow_ptrace, true) ∷ [])

  unfoldable pub disable_ptrace : ℕ → Action ℕ
  disable_ptrace scope = do
    lift (check_ptrace_scope scope)
    sebools ← booleans (deny_ptrace ∷ container_allow_ptrace ∷ [])
    if contains sebools deny_ptrace && not (contains sebools container_allow_ptrace)
        then pure 0
        else set_booleans ((deny_ptrace, true) ∷ (container_allow_ptrace, false) ∷ [])

  -- The branches of `main`; the exit codes are the script's.
  unfoldable pub run_mode : ℕ → Option Str → Action ℕ
  run_mode scope none = pure 130
  run_mode scope (some mode) =
      if mode == codes "help" || (mode == codes "-h" || mode == codes "--help")
      then pure 0
      else if mode == codes "status"
      then get_ptrace_status scope >>= (λ status. pure 0)
      else if mode == codes "on"
      then enable_ptrace scope
      else if mode == codes "container"
      then set_container_ptrace scope
      else if mode == codes "off"
      then disable_ptrace scope
      else pure 2

  -- A failing command ends the script with 1; other exceptions leave it.
  unfoldable pub caught : {A : Type 0} → A → Action A → Action A
  caught a m s =
      let (r, t) = m s in
      elim r [
        | ok b ↦ (ok b, t)
        | err e ↦ elim e [ called_process_error ↦ (ok a, t) | other ↦ (err other, t) ]
      ]

  -- `choice` is what the menu returns where there is no argument.
  unfoldable pub main : ℕ → List Str → Option Str → Action ℕ
  unfolding get_selection run_mode caught casefold lift
  main scope [] choice = do mode ← lift (get_selection choice); caught 1 (run_mode scope mode)
  main scope (arg ∷ rest) choice = caught 1 (run_mode scope (some (casefold arg)))
