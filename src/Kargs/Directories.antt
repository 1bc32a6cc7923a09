-- ===== src/Kargs/Directories.antt =====
-- The worker on directories of well-named addons, step by step, against sets of arguments.
use secureblue.Base.{arith}
use secureblue.Base.{◌≡◌, refl, sym, ap, ◌∙◌, inl, inr}
use secureblue.Base.{Bool, true, not, ◌&&◌, ◌||◌, if◌then◌else◌, Bool-cases}
use secureblue.Base.{some, List, [], ◌∷◌, ◌++◌}
use secureblue.Base.{◌==◌, nat_eq, string_eq, list_eq, contains, beq_self, contains-append}
use secureblue.Base.{all, keep, all-append}
use secureblue.Base.Exec.{ok}
use secureblue.Base.{list_beq_iff, all-keep}
use secureblue.Base.Membership.{all-contains, all-of-contains, contains-keep, all-not-not}
use secureblue.Base.{Str, ends_with, ends_with-append}
use secureblue.Kargs.Addon.{addon_suffix, addon_from_karg, is_canonical}
use secureblue.Kargs.Addon.{karg_from_addon-addon_from_karg, addon_from_karg-injective}
use secureblue.Kargs.Worker.{SetKargs, Names, copy_addon, add_kargs, unlink, remove_kargs}
use secureblue.Kargs.Worker.{get_kargs, difference, is_empty, exit_status}

-- The directory with the addons of some arguments.
abbrev pub dir : List Str → Names
dir [] = []
dir (k ∷ ks) = addon_from_karg k ∷ dir ks

abbrev pub AllCanonical : List Str → Type 0
AllCanonical ks = all is_canonical ks ≡ true

unfoldable pub add_one : Str → List Str → List Str
add_one k ks = if contains ks k then ks else ks ++ (k ∷ [])

unfoldable pub add_all : List Str → List Str → List Str
add_all [] ks = ks
add_all (a ∷ as') ks = add_all as' (add_one a ks)

unfoldable pub remove_one : Str → List Str → List Str
remove_one k = keep (λ n. not (n == k))

unfoldable pub remove_all : List Str → List Str → List Str
remove_all [] ks = ks
remove_all (r ∷ rs) ks = remove_all rs (remove_one r ks)

pub addon_beq :
    (j k : Str)
    → is_canonical j ≡ true
    → is_canonical k ≡ true
    → (addon_from_karg j == addon_from_karg k) ≡ (j == k)
addon_beq j k hj hk = elim (Bool-cases (j == k)) [
  | inl same ↦ let e = (list_beq_iff j k).0 same in rw (same, e) (beq_self (addon_from_karg k))
  | inr differ ↦ elim (Bool-cases (addon_from_karg j == addon_from_karg k)) [
    | inl e ↦
        let same = addon_from_karg-injective j k hj hk ((list_beq_iff _ _).0 e) in
        absurd (ground (arith, differ, (list_beq_iff j k).1 same))
    | inr e ↦ e ∙ sym differ
  ]
]

pub contains-dir :
    (ks : List Str) (k : Str)
    → AllCanonical ks
    → is_canonical k ≡ true
    → contains (dir ks) (addon_from_karg k) ≡ contains ks k
unfolding contains all
contains-dir [] k h hk = refl
contains-dir (j ∷ ks) k h hk = ground (arith, addon_beq k j hk, contains-dir ks k)

pub unlink-dir :
    (k : Str) (ks : List Str)
    → is_canonical k ≡ true
    → AllCanonical ks
    → unlink (addon_from_karg k) (dir ks) ≡ dir (remove_one k ks)
unfolding unlink remove_one keep all
unlink-dir k [] hk h = refl
unlink-dir k (j ∷ ks) hk h = ground (arith, addon_beq j k, unlink-dir k ks hk)

pub dir-append : (ks js : List Str) → dir (ks ++ js) ≡ dir ks ++ dir js
dir-append [] js = refl
dir-append (k ∷ ks) js = ap (λ r. addon_from_karg k ∷ r) (dir-append ks js)

pub copy_addon-dir :
    (avail ks : List Str) (k : Str)
    → AllCanonical avail
    → AllCanonical ks
    → is_canonical k ≡ true
    → contains avail k ≡ true
    → copy_addon (dir avail) (addon_from_karg k) (dir ks) ≡ (ok tt, dir (add_one k ks))
unfolding copy_addon add_one
copy_addon-dir avail ks k ha h hk there =
    ground
      (arith, there, contains-dir avail k ha hk, contains-dir ks k h hk, dir-append ks (k ∷ []))

pub add_one-AllCanonical :
    (k : Str) (ks : List Str)
    → is_canonical k ≡ true
    → AllCanonical ks
    → AllCanonical (add_one k ks)
unfolding add_one all
add_one-AllCanonical k ks hk h = ground (arith, all-append is_canonical ks (k ∷ []))

pub add_kargs-dir :
    (avail ks as' : List Str)
    → AllCanonical avail
    → AllCanonical ks
    → all (contains avail) as' ≡ true
    → add_kargs (dir avail) as' (dir ks) ≡ (ok tt, dir (add_all as' ks))
unfolding add_kargs add_all all
add_kargs-dir avail ks [] ha h there = refl
add_kargs-dir avail ks (k ∷ as') ha h there =
    let here : contains avail k ≡ true = ground arith in
    let hk = all-contains is_canonical avail k ha here in
    ground (
      arith,
      copy_addon-dir avail ks k ha h hk here,
      add_kargs-dir avail (add_one k ks) as' ha (add_one-AllCanonical k ks hk h),
    )

pub remove_kargs-dir :
    (rs ks : List Str)
    → AllCanonical rs
    → AllCanonical ks
    → remove_kargs rs (dir ks) ≡ dir (remove_all rs ks)
unfolding remove_kargs remove_all all
remove_kargs-dir [] ks hr h = refl
remove_kargs-dir (r ∷ rs) ks hr h =
    let hr0 : is_canonical r ≡ true = ground arith in
    let hr1 : AllCanonical rs = ground arith in
    rw (unlink-dir r ks hr0 h) (
      remove_kargs-dir rs (remove_one r ks) hr1 (unfold remove_one in all-keep _ is_canonical ks h))

pub ends_with-addon : (k : Str) → ends_with (addon_from_karg k) addon_suffix ≡ true
unfolding addon_from_karg
ends_with-addon k = ends_with-append _ addon_suffix

pub get_kargs-dir : (ks : List Str) → AllCanonical ks → get_kargs (dir ks) ≡ some ks
unfolding get_kargs all
get_kargs-dir [] h = refl
get_kargs-dir (k ∷ ks) h =
    ground (arith, ends_with-addon k, karg_from_addon-addon_from_karg k, get_kargs-dir ks)

pub contains-add_all :
    (as' ks : List Str) (k : Str) → contains (add_all as' ks) k ≡ (contains ks k || contains as' k)
unfolding add_all add_one contains
contains-add_all [] ks k = ground arith
contains-add_all (a ∷ as') ks k =
    ground (
      arith,
      contains-add_all as' (add_one a ks) k,
      contains-append ks (a ∷ []) k,
      list_beq_iff k a,
    )

pub contains-remove_one :
    (r : Str) (ks : List Str) (k : Str)
    → contains (remove_one r ks) k ≡ (contains ks k && not (k == r))
unfolding remove_one keep contains
contains-remove_one r [] k = refl
contains-remove_one r (j ∷ ks) k =
    ground (arith, contains-remove_one r ks k, list_beq_iff j r, list_beq_iff k r, list_beq_iff k j)

pub contains-remove_all :
    (rs ks : List Str) (k : Str)
    → contains (remove_all rs ks) k ≡ (contains ks k && not (contains rs k))
unfolding remove_all contains
contains-remove_all [] ks k = ground arith
contains-remove_all (r ∷ rs) ks k =
    ground (arith, contains-remove_all rs (remove_one r ks) k, contains-remove_one r ks k)

pub is_empty-keep :
    (p : Str → Bool) (xs : List Str) → is_empty (keep p xs) ≡ all (λ x. not (p x)) xs
unfolding is_empty keep all
is_empty-keep p [] = refl
is_empty-keep p (x ∷ xs) = ground (arith, is_empty-keep p xs)

pub is_empty-difference : (xs ys : List Str) → is_empty (difference xs ys) ≡ all (contains ys) xs
unfolding difference all
is_empty-difference xs ys =
    is_empty-keep (λ x. not (contains ys x)) xs ∙ all-not-not (contains ys) xs

pub add_all-AllCanonical :
    (avail as' ks : List Str)
    → AllCanonical avail
    → AllCanonical ks
    → all (contains avail) as' ≡ true
    → AllCanonical (add_all as' ks)
unfolding add_all all
add_all-AllCanonical avail [] ks ha h there = h
add_all-AllCanonical avail (a ∷ as') ks ha h there =
    let here : contains avail a ≡ true = ground arith in
    add_all-AllCanonical avail as' (add_one a ks) ha
      (add_one-AllCanonical a ks (all-contains is_canonical avail a ha here) h) (ground arith)

pub remove_all-AllCanonical : (rs ks : List Str) → AllCanonical ks → AllCanonical (remove_all rs ks)
unfolding remove_all remove_one
remove_all-AllCanonical [] ks h = h
remove_all-AllCanonical (r ∷ rs) ks h =
    remove_all-AllCanonical rs (remove_one r ks) (all-keep _ is_canonical ks h)

-- After the changes nothing is missing and nothing is left over.
pub exit_status-zero :
    (request : SetKargs) (ks : List Str)
    → exit_status request (remove_all request.remove (add_all request.add ks)) ≡ 0
unfolding exit_status
exit_status-zero request ks =
    let final = remove_all request.remove (add_all request.add ks) in
    let wanted = keep (λ x. not (contains request.remove x)) request.add in
    rw (
      is_empty-keep (contains final) request.remove,
      all-of-contains (λ x. not (contains final x)) request.remove
          (λ k c. ground (arith, c, contains-remove_all request.remove (add_all request.add ks) k)),
      is_empty-keep (λ x. not (contains final x)) wanted,
      all-of-contains (λ x. not (not (contains final x))) wanted
          (λ k c. ground (
            arith,
            c,
            contains-keep (λ x. not (contains request.remove x)) request.add k,
            contains-remove_all request.remove (add_all request.add ks) k,
            contains-add_all request.add ks k,
          )),
    )
