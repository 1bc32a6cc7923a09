-- ===== src/Checks/Groups.antt =====
-- The check of the groups: its verdict does not depend on the order in which the set is iterated.
use secureblue.Base.{arith}
use secureblue.Base.{◌≡◌, refl, sym, ap, ◌∙◌}
use secureblue.Base.{Option, none, some, List, [], ◌∷◌}
use secureblue.Base.{nat_eq, string_eq, list_eq}
use secureblue.Base.{Str}
use secureblue.Auditor.Status.{Status, pass, downgrade_to}
use secureblue.Checks.Containers.{add_note}
use secureblue.Checks.Services.{Graders}
use secureblue.Checks.Desktop.{judge_group, group_step, check_groups, groups_report}
use mathlib.Core.List.{Perm, Permᴰ}
use mathlib.Core.Path.{ap₂}
use mathlib.Core.Logic.{∥∥₁_elim}
use secureblue.Checks.Grade.{downgrade_to_assoc}

-- How bad the judgement of a group is
abbrev pub judged : Option (Status × (Str × List Str)) → Status
judged none = pass
judged (some j) = j.0

-- The worst of the groups
abbrev pub worst_group : Str → List Str → Status
worst_group username [] = pass
worst_group username (group ∷ rest) =
    downgrade_to (judged (judge_group username group)) (worst_group username rest)

downgrade_to-pass : (s : Status) → downgrade_to s pass ≡ s
unfolding downgrade_to
downgrade_to-pass s = ground arith

group_step-worst :
    (username group : Str) (j : Option (Status × (Str × List Str))) (g : Graders)
    → (group_step username group j g).graded.0 ≡ downgrade_to g.graded.0 (judged j)
unfolding group_step add_note
group_step-worst username group none g = sym (downgrade_to-pass g.graded.0)
group_step-worst username group (some (s, (text, explanation))) g = refl

check_groups-worst :
    (username : Str) (groups : List Str) (g : Graders)
    → (check_groups username groups g).graded.0
      ≡ downgrade_to g.graded.0 (worst_group username groups)
unfolding check_groups
check_groups-worst username [] g = sym (downgrade_to-pass g.graded.0)
check_groups-worst username (group ∷ rest) g =
    let j = judge_group username group in
    check_groups-worst username rest (group_step username group j g)
    ∙ ap (λ s. downgrade_to s (worst_group username rest)) (group_step-worst username group j g)
    ∙ downgrade_to_assoc g.graded.0 (judged j) (worst_group username rest)

downgrade_to-swap :
    (a b c : Status) → downgrade_to a (downgrade_to b c) ≡ downgrade_to b (downgrade_to a c)
unfolding downgrade_to
downgrade_to-swap a b c = ground arith

worst_group-Permᴰ :
    (username : Str) {xs ys : List Str}
    → Permᴰ xs ys
    → worst_group username xs ≡ worst_group username ys
worst_group-Permᴰ username Permᴰ.nil = refl
worst_group-Permᴰ username (Permᴰ.cons e p) =
    ap₂ (λ x s. downgrade_to (judged (judge_group username x)) s) e (worst_group-Permᴰ username p)
worst_group-Permᴰ username (Permᴰ.swap {a} {b} {l = l} e f) =
    downgrade_to-swap (judged (judge_group username a)) (judged (judge_group username b))
      (worst_group username l)
    ∙ ap₂ (λ x y. worst_group username (x ∷ y ∷ l)) f e
worst_group-Permᴰ username (Permᴰ.trans p q) =
    worst_group-Permᴰ username p ∙ worst_group-Permᴰ username q

Status-IsSet : IsSet Status
Status-IsSet = hlevel

worst_group-Perm :
    (username : Str) {xs ys : List Str}
    → Perm xs ys
    → worst_group username xs ≡ worst_group username ys
worst_group-Perm username p =
    ∥∥₁_elim p (Status-IsSet (worst_group username _) (worst_group username _))
      (worst_group-Permᴰ username)

-- The status does not depend on the order in which the set of groups is iterated.
pub groups_report-Perm :
    (username : Str) (xs ys : List Str)
    → Perm xs ys
    → (groups_report username xs).status ≡ (groups_report username ys).status
unfolding groups_report
groups_report-Perm username xs ys p =
    let start : Graders = record { graded = (pass, []); recs = [] } in
    check_groups-worst username xs start
    ∙ ap (downgrade_to pass) (worst_group-Perm username p)
    ∙ sym (check_groups-worst username ys start)
