-- ===== src/Kargs/SetArithmetic.antt =====
-- The worker on directories of well-named addons does set arithmetic on kernel arguments.
use secureblue.Base.{arith}
use secureblue.Base.{◌≡◌, ap, ◌∙◌, inl, inr}
use secureblue.Base.{true, not, ◌&&◌, ◌||◌, if◌then◌else◌, Bool-cases}
use secureblue.Base.{List}
use secureblue.Base.{nat_eq, string_eq, list_eq, contains}
use secureblue.Base.{all}
use secureblue.Base.Exec.{ok}
use secureblue.Base.{Str}
use secureblue.Kargs.Worker.{SetKargs}
use secureblue.Kargs.Worker.{difference, is_empty, main}
use secureblue.Kargs.Directories.{
  dir, AllCanonical, add_all, remove_all, add_kargs-dir, remove_kargs-dir, get_kargs-dir,
  contains-add_all, contains-remove_all, is_empty-difference, add_all-AllCanonical,
  remove_all-AllCanonical, exit_status-zero,
}

-- Directories that hold the addons of arguments in which no `_` stands before a `_` or a `=`, and
-- arguments to remove of the same kind. If an addon is missing for an argument to add, the worker
-- returns 1 and changes nothing. Otherwise it returns 0, and an argument is loaded afterwards
-- exactly if it was loaded or added and is not among those to remove; no error is raised.
pub main_result :
    (avail loaded : List Str) (request : SetKargs)
    → AllCanonical avail
    → AllCanonical loaded
    → AllCanonical request.remove
    → let all_there = all (contains avail) request.add in
      (final : List Str) × (main (dir avail) request (dir loaded)
        ≡ (if all_there then (ok 0, dir final) else (ok 1, dir loaded)))
      × ((k : Str)
          → contains final k
            ≡ ((contains loaded k || contains request.add k) && not (contains request.remove k)))
unfolding main
main_result avail loaded request ha hl hr =
    let final = remove_all request.remove (add_all request.add loaded) in
    let missing : is_empty (difference request.add avail) ≡ all (contains avail) request.add =
      is_empty-difference request.add avail in
    (
      final,
      elim (Bool-cases (all (contains avail) request.add)) [
        | inl there ↦
            let grown = add_all-AllCanonical avail request.add loaded ha hl there in
            let kept = remove_all-AllCanonical request.remove (add_all request.add loaded) grown in
            ground (
              arith,
              there,
              missing,
              get_kargs-dir avail ha,
              add_kargs-dir avail loaded request.add ha hl there,
              remove_kargs-dir request.remove (add_all request.add loaded) hr grown,
              get_kargs-dir final kept,
              exit_status-zero request loaded,
            )
        | inr lacking ↦ rw (lacking, get_kargs-dir avail ha) (ground (arith, lacking, missing))
      ],
      λ k.
          contains-remove_all request.remove (add_all request.add loaded) k
          ∙ ap (λ b. b && not (contains request.remove k)) (contains-add_all request.add loaded k),
    )

pub main_success :
    (avail loaded : List Str) (request : SetKargs)
    → AllCanonical avail
    → AllCanonical loaded
    → AllCanonical request.remove
    → all (contains avail) request.add ≡ true
    → (final : List Str) × (main (dir avail) request (dir loaded) ≡ (ok 0, dir final))
      × ((k : Str)
          → contains final k
            ≡ ((contains loaded k || contains request.add k) && not (contains request.remove k)))
main_success avail loaded request ha hl hr there =
    let (final, run, mem) = main_result avail loaded request ha hl hr in
    (final, ground (arith, run, there), mem)
