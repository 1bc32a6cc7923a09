-- ===== src/Selinux/PtraceModes.antt =====
-- After a run of set_ptrace.py, the status is the one that was asked for.
use secureblue.Base.{ℕ, arith}
use secureblue.Base.{◌≡◌, refl, sym, ap, ◌∙◌, ◌⊎◌, inl, inr}
use secureblue.Base.{Bool, true, false, not, ◌&&◌, if◌then◌else◌, leb, Bool-cases}
use secureblue.Base.{some, List, [], ◌∷◌, ◌++◌}
use secureblue.Base.{◌==◌, nat_eq, string_eq, list_eq, list_beq, contains}
use secureblue.Base.{all}
use secureblue.Base.Exec.{Result, ok, err, Exec, ◌>>=◌}
use secureblue.Base.{Str, codes}
use secureblue.Base.Words.{lacks}
use secureblue.Utils.Config.{setsebool_args}
use secureblue.Selinux.Booleans.{Selinux, IsLawful, deny_ptrace, container_allow_ptrace}
use secureblue.Selinux.Booleans.{two_booleans, one_boolean, assigned}
use secureblue.Selinux.Ptrace.{
  PtraceStatus, disabled, admin_only, container_only, restricted, unrestricted,
}
use secureblue.Selinux.Ptrace.{
  PtraceError, called_process_error, status_of, check_ptrace_scope, lift,
}
use secureblue.Selinux.Ptrace.{
  booleans, set_booleans, get_ptrace_status, enable_ptrace, set_container_ptrace,
}
use secureblue.Selinux.Ptrace.{disable_ptrace, run_mode}

pub data Mode : Type 0 where
  on container off : Mode

abbrev pub mode_name : Mode → Str
mode_name on = codes "on"
mode_name container = codes "container"
mode_name off = codes "off"

-- What each mode promises under each value of ptrace_scope.
abbrev pub aim : Mode → ℕ → PtraceStatus
aim on scope =
    if scope == 0
    then unrestricted
    else if scope == 1
    then restricted
    else if scope == 2
    then admin_only
    else disabled
aim container scope =
    if scope == 0 then unrestricted else if scope == 3 then disabled else container_only
aim off scope = if scope == 0 then unrestricted else disabled

-- The two booleans as each mode leaves them.
abbrev Left : Mode → Bool → Bool → Type 0
Left on deny allow = deny ≡ false
Left container deny allow = (deny ≡ true) × (allow ≡ true)
Left off deny allow = (deny ≡ true) × (allow ≡ false)

status_of-aim :
    (mode : Mode) (scope : ℕ) (deny allow : Bool)
    → leb scope 3 ≡ true
    → Left mode deny allow
    → status_of scope deny allow ≡ ok (aim mode scope)
unfolding status_of
status_of-aim on scope deny allow h e = ground arith
status_of-aim container scope deny allow h e = ground arith
status_of-aim off scope deny allow h e = ground arith

abbrev on_names : Bool → Bool → List Str
on_names deny allow =
    (if deny then deny_ptrace ∷ [] else []) ++ (if allow then container_allow_ptrace ∷ [] else [])

contains-on_names :
    (deny allow : Bool)
    → (contains (on_names deny allow) deny_ptrace ≡ deny)
      × (contains (on_names deny allow) container_allow_ptrace ≡ allow)
unfolding contains list_beq
contains-on_names true true = (refl, refl)
contains-on_names true false = (refl, refl)
contains-on_names false true = (refl, refl)
contains-on_names false false = (refl, refl)

contains-one_name :
    (deny : Bool) → contains (if deny then deny_ptrace ∷ [] else []) deny_ptrace ≡ deny
unfolding contains list_beq
contains-one_name true = refl
contains-one_name false = refl

module _ (se : Selinux) (law : IsLawful se) where
  abbrev deny : se.State → Bool
  deny s = se.is_on deny_ptrace s

  abbrev allow : se.State → Bool
  allow s = se.is_on container_allow_ptrace s

  abbrev both : List Str
  both = deny_ptrace ∷ container_allow_ptrace ∷ []

  booleans-both :
      (s : se.State)
      → (booleans se both s ≡ (err called_process_error, s))
        ⊎ (booleans se both s ≡ (ok (on_names (deny s) (allow s)), s))
  unfolding booleans
  booleans-both s = elim (law.getsebool_law both s) [
    | inl e ↦ inl (rw e refl)
    | inr e ↦ inr (rw (e, two_booleans (deny s) (allow s)) refl)
  ]

  booleans-one :
      (s : se.State)
      → (booleans se (deny_ptrace ∷ []) s ≡ (err called_process_error, s))
        ⊎ (booleans se (deny_ptrace ∷ []) s ≡ (ok (if deny s then deny_ptrace ∷ [] else []), s))
  unfolding booleans
  booleans-one s = elim (law.getsebool_law (deny_ptrace ∷ []) s) [
    | inl e ↦ inl (rw e refl)
    | inr e ↦ inr (rw (e, one_boolean (deny s)) refl)
  ]

  get_ptrace_status-of :
      (scope : ℕ) (s : se.State)
      → (get_ptrace_status se scope s ≡ (err called_process_error, s))
        ⊎ (get_ptrace_status se scope s ≡ lift se (status_of scope (deny s) (allow s)) s)
  unfolding get_ptrace_status
  get_ptrace_status-of scope s = elim (booleans-both s) [
    | inl e ↦ inl (rw e refl)
    | inr e ↦ inr (
        rw (e, (contains-on_names (deny s) (allow s)).0, (contains-on_names (deny s) (allow s)).1)
          refl)
  ]

  set_booleans-ok :
      (sebools : List (Str × Bool)) (s t : se.State) (k : Str)
      → all (λ (p : Str × Bool). lacks b'=' p.0) sebools ≡ true
      → set_booleans se sebools s ≡ (ok 0, t)
      → se.is_on k t ≡ assigned sebools k (se.is_on k s)
  unfolding set_booleans
  set_booleans-ok sebools s t k named h =
      let out = se.setsebool (setsebool_args sebools true) s in
      let z : out.0 ≡ 0 = ground (arith, h) in
      let e : out.1 ≡ t = ap (λ (r : Result PtraceError ℕ × se.State). r.1) h in
      ap (se.is_on k) (sym e) ∙ law.setsebool_law sebools true s k named z

  -- A scope that is checked is at most 3.
  check-bound :
      {A : Type 0} (scope : ℕ) (m : Exec se.State PtraceError A) (s t : se.State) (a : A)
      → (lift se (check_ptrace_scope scope) >>= (λ _. m)) s ≡ (ok a, t)
      → (leb scope 3 ≡ true) × (m s ≡ (ok a, t))
  unfolding lift check_ptrace_scope
  check-bound scope m s t a h = elim (Bool-cases (leb scope 3)) [
    | inl e ↦ (e, rw e at h)
    | inr e ↦ let no_way = rw e at h in ground (arith, no_way)
  ]

  pure-eq : (s t : se.State) → ◌≡◌ {A = Result PtraceError ℕ × se.State} (ok 0, s) (ok 0, t) → s ≡ t
  pure-eq s t h = ap (λ (r : Result PtraceError ℕ × se.State). r.1) h

  enable_ptrace-left :
      (scope : ℕ) (s t : se.State)
      → enable_ptrace se scope s ≡ (ok 0, t)
      → (leb scope 3 ≡ true) × (deny t ≡ false)
  unfolding enable_ptrace
  enable_ptrace-left scope s t h =
      let (bound, g) = check-bound scope _ s t 0 h in
      (
        bound,
        elim (booleans-one s) [
          | inl e ↦ let failed = rw e at g in ground (arith, failed)
          | inr e ↦ elim (Bool-cases (deny s)) [
            | inl d ↦
                let set = rw (e, contains-one_name (deny s), d) at g in
                set_booleans-ok ((deny_ptrace, false) ∷ []) s t deny_ptrace
                  (unfold all lacks in refl) set
                ∙ unfold list_beq in refl
            | inr d ↦
                let stay = rw (e, contains-one_name (deny s), d) at g in
                ap deny (sym (pure-eq s t stay)) ∙ d
          ]
        ],
      )

  -- What is left when the two booleans are set, or are found as wanted.
  set_both-left :
      (want : Bool) (s t : se.State)
      → set_booleans se ((deny_ptrace, true) ∷ (container_allow_ptrace, want) ∷ []) s ≡ (ok 0, t)
      → (deny t ≡ true) × (allow t ≡ want)
  set_both-left want s t set =
      let values : List (Str × Bool) = (deny_ptrace, true) ∷ (container_allow_ptrace, want) ∷ [] in
      (
        set_booleans-ok values s t deny_ptrace (unfold all lacks in refl) set
            ∙ unfold list_beq in refl,
        set_booleans-ok values s t container_allow_ptrace (unfold all lacks in refl) set
            ∙ unfold list_beq in refl,
      )

  set_container_ptrace-left :
      (scope : ℕ) (s t : se.State)
      → set_container_ptrace se scope s ≡ (ok 0, t)
      → (leb scope 3 ≡ true) × ((deny t ≡ true) × (allow t ≡ true))
  unfolding set_container_ptrace
  set_container_ptrace-left scope s t h =
      let (bound, g) = check-bound scope _ s t 0 h in
      let (has_deny, has_allow) = contains-on_names (deny s) (allow s) in
      (
        bound,
        elim (booleans-both s) [
          | inl e ↦ let failed = rw e at g in ground (arith, failed)
          | inr e ↦ elim (Bool-cases (deny s && allow s)) [
            | inl d ↦
                let stay = rw (e, has_deny, has_allow, d) at g in
                rw⁻¹ (pure-eq s t stay) (ground (arith, d))
            | inr d ↦ set_both-left true s t (rw (e, has_deny, has_allow, d) at g)
          ]
        ],
      )

  disable_ptrace-left :
      (scope : ℕ) (s t : se.State)
      → disable_ptrace se scope s ≡ (ok 0, t)
      → (leb scope 3 ≡ true) × ((deny t ≡ true) × (allow t ≡ false))
  unfolding disable_ptrace
  disable_ptrace-left scope s t h =
      let (bound, g) = check-bound scope _ s t 0 h in
      let (has_deny, has_allow) = contains-on_names (deny s) (allow s) in
      (
        bound,
        elim (booleans-both s) [
          | inl e ↦ let failed = rw e at g in ground (arith, failed)
          | inr e ↦ elim (Bool-cases (deny s && not (allow s))) [
            | inl d ↦
                let stay = rw (e, has_deny, has_allow, d) at g in
                rw⁻¹ (pure-eq s t stay) (ground (arith, d))
            | inr d ↦ set_both-left false s t (rw (e, has_deny, has_allow, d) at g)
          ]
        ],
      )

  run_mode-Left :
      (mode : Mode) (scope : ℕ) (s t : se.State)
      → run_mode se scope (some (mode_name mode)) s ≡ (ok 0, t)
      → (leb scope 3 ≡ true) × (Left mode (deny t) (allow t))
  unfolding run_mode list_beq
  run_mode-Left on scope s t h = enable_ptrace-left scope s t h
  run_mode-Left container scope s t h = set_container_ptrace-left scope s t h
  run_mode-Left off scope s t h = disable_ptrace-left scope s t h

  -- When a run with `on`, `container` or `off` exits with 0, the status that is read afterwards is
  -- the one that the mode promises under the value of ptrace_scope, unless getsebool fails.
  pub run_mode-status :
      (mode : Mode) (scope : ℕ) (s t : se.State)
      → run_mode se scope (some (mode_name mode)) s ≡ (ok 0, t)
      → (get_ptrace_status se scope t ≡ (err called_process_error, t))
        ⊎ (get_ptrace_status se scope t ≡ (ok (aim mode scope), t))
  run_mode-status mode scope s t h =
      let (bound, left) = run_mode-Left mode scope s t h in
      elim (get_ptrace_status-of scope t) [
        | inl e ↦ inl e
        | inr e ↦ inr (
            e
            ∙ ap (λ r. lift se r t) (status_of-aim mode scope (deny t) (allow t) bound left)
            ∙ unfold lift in refl)
      ]
