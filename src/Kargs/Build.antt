-- ===== src/Kargs/Build.antt =====
-- Which kernel arguments are set and removed: shared/kargs_hardening.py, set_kargs_hardening.py and
-- remove_kargs_hardening.py. `default_kargs` is the list that the image ships in a TOML file.
use secureblue.Base.{arith}
use secureblue.Base.{◌≡◌, refl, ap, ◌∙◌, inl, inr}
use secureblue.Base.{Bool, true, false, not, ◌&&◌, ◌||◌, if◌then◌else◌, Bool-cases}
use secureblue.Base.{List, [], ◌∷◌, ◌++◌}
use secureblue.Base.{
  ◌==◌, nat_eq, string_eq, list_eq, list_beq, contains, contains-append, list_beq_iff,
}
use secureblue.Base.{all}
use secureblue.Base.Exec.{ok}
use secureblue.Base.Membership.{
  contains-one, contains-if, contains-unless, all-contains, all-of-contains,
}
use secureblue.Base.{Str, codes}
use secureblue.Kargs.Addon.{is_canonical}
use secureblue.Kargs.Worker.{SetKargs, main}
use secureblue.Kargs.Directories.{dir, AllCanonical}
use secureblue.Kargs.SetArithmetic.{main_success}

-- `BootcBackend` of shared/utils.py and `Bootloader` of shared/secure_boot.py
pub data BootcBackend : Type 0 where
  composefs ostree : BootcBackend

pub data Bootloader : Type 0 where
  systemd_boot grub2 : Bootloader

abbrev pub disable_32_bit_karg : Str
disable_32_bit_karg = codes "ia32_emulation=0"

abbrev pub force_nosmt : Str
force_nosmt = codes "nosmt=force"

abbrev pub unstable_kargs : List Str
unstable_kargs =
    codes "amd_iommu=force_isolation"
    ∷ codes "bdev_allow_write_mounted=0"
    ∷ codes "debugfs=off"
    ∷ codes "efi=disable_early_pci_dma"
    ∷ codes "gather_data_sampling=force"
    ∷ codes "mem_encrypt=on"
    ∷ codes "oops=panic"
    ∷ []

abbrev pub uses_default_kargs : BootcBackend → Bootloader → Bool
uses_default_kargs ostree grub2 = true
uses_default_kargs ostree systemd_boot = false
uses_default_kargs composefs _ = false

-- The pair of the code: arguments to add, and arguments to remove.
unfoldable pub build_kargs_list :
    List Str
    → BootcBackend
    → Bootloader
    → (disable_32_bit nosmt unstable : Bool) → List Str × List Str
build_kargs_list default_kargs backend bootloader disable_32_bit nosmt unstable =
    let one = λ (wanted : Bool) (karg : Str). if wanted then karg ∷ [] else [] in
    (
      ((if uses_default_kargs backend bootloader then default_kargs else [])
            ++ one disable_32_bit disable_32_bit_karg)
          ++ (one nosmt force_nosmt ++ (if unstable then unstable_kargs else [])),
      one (not disable_32_bit) disable_32_bit_karg
          ++ (one (not nosmt) force_nosmt ++ (if unstable then [] else unstable_kargs)),
    )

-- What `apply_kargs` does: the request to the worker, or the command that it runs.
pub data Applied : Type 0 where
  worker : SetKargs → Applied
  rpm_ostree : List Str → Applied
  unexpected : Applied

unfoldable pub prefix_all : Str → List Str → List Str
prefix_all p [] = []
prefix_all p (k ∷ ks) = (p ++ k) ∷ prefix_all p ks

unfoldable pub apply_kargs : BootcBackend → Bootloader → List Str → List Str → Applied
unfolding prefix_all
apply_kargs composefs systemd_boot add remove = worker (record { add = add; remove = remove })
apply_kargs ostree grub2 add remove = rpm_ostree (
    codes "/usr/bin/rpm-ostree" ∷ codes "kargs" ∷ prefix_all (codes "--append-if-missing=") add
    ++ prefix_all (codes "--delete-if-present=") remove)
apply_kargs _ _ add remove = unexpected

-- `remove_kargs_hardening.main`
unfoldable pub hardening_kargs : List Str → List Str
hardening_kargs default_kargs =
    default_kargs ++ (disable_32_bit_karg ∷ force_nosmt ∷ unstable_kargs)

unfoldable pub remove_hardening : List Str → BootcBackend → Bootloader → Applied
unfolding hardening_kargs apply_kargs
remove_hardening default_kargs backend bootloader =
    apply_kargs backend bootloader [] (hardening_kargs default_kargs)

-- `set_kargs_hardening.main`, with the three answers
unfoldable pub set_hardening :
    List Str → BootcBackend → Bootloader → (wants_32_bit nosmt unstable : Bool) → Applied
unfolding build_kargs_list apply_kargs
set_hardening default_kargs backend bootloader wants_32_bit nosmt unstable =
    let (add, remove) =
      build_kargs_list default_kargs backend bootloader (not wants_32_bit) nosmt unstable in
    apply_kargs backend bootloader add remove

abbrev pub optional_kargs : List Str
optional_kargs = disable_32_bit_karg ∷ force_nosmt ∷ unstable_kargs

-- Whether the answers choose an optional argument.
abbrev pub is_chosen : (disable_32_bit nosmt unstable : Bool) → Str → Bool
is_chosen disable_32_bit nosmt unstable k =
    (k == disable_32_bit_karg && disable_32_bit)
    || ((k == force_nosmt && nosmt) || (contains unstable_kargs k && unstable))

-- The three kinds of optional arguments have none in common.
exclusive :
    (k : Str)
    → ((k == disable_32_bit_karg && k == force_nosmt) ≡ false)
      × ((k == disable_32_bit_karg && contains unstable_kargs k) ≡ false)
      × ((k == force_nosmt && contains unstable_kargs k) ≡ false)
exclusive k = (at_32_bit, at_32_bit', at_nosmt)
  where
    other : (j : Str) (b : Str → Bool) → b j ≡ false → (k == j && b k) ≡ false
    other j b h = elim (Bool-cases (k == j)) [
      | inl same ↦ rw same (ap b ((list_beq_iff k j).0 same) ∙ h)
      | inr differ ↦ rw differ
    ]

    at_32_bit : (k == disable_32_bit_karg && k == force_nosmt) ≡ false
    at_32_bit = other disable_32_bit_karg (λ j. j == force_nosmt) (unfold list_beq in refl)

    at_32_bit' : (k == disable_32_bit_karg && contains unstable_kargs k) ≡ false
    at_32_bit' =
        other disable_32_bit_karg (contains unstable_kargs) (unfold list_beq contains in refl)

    at_nosmt : (k == force_nosmt && contains unstable_kargs k) ≡ false
    at_nosmt = other force_nosmt (contains unstable_kargs) (unfold list_beq contains in refl)

-- Of an argument that the image does not set by itself: it is to be added exactly if the answers
-- choose it, and to be removed exactly if it is an optional one that they do not choose.
pub build_kargs_list_partition :
    (defaults : List Str) (backend : BootcBackend) (bootloader : Bootloader)
    (disable_32_bit nosmt unstable : Bool) (k : Str)
    → (contains defaults k && uses_default_kargs backend bootloader) ≡ false
    → let lists = build_kargs_list defaults backend bootloader disable_32_bit nosmt unstable in
      (contains lists.0 k ≡ is_chosen disable_32_bit nosmt unstable k)
      × (contains lists.1 k
          ≡ (contains optional_kargs k && not (is_chosen disable_32_bit nosmt unstable k)))
unfolding build_kargs_list
build_kargs_list_partition defaults backend bootloader a b c k h = (
  simp (contains-append, contains-one, contains-if) (ground (arith, h)),
  simp (contains-append, contains-one, contains-unless)
      (unfold contains in ground (arith, (exclusive k).0, (exclusive k).1, (exclusive k).2)),
)

-- After adding what is chosen and removing the other optional arguments, the choice alone counts.
decided :
    (final before add remove optional chosen : Bool)
    → final ≡ ((before || add) && not remove)
    → add ≡ chosen
    → remove ≡ (optional && not chosen)
    → optional ≡ true
    → final ≡ chosen
decided final before add remove optional chosen f a r o = ground arith

-- On a system with UKIs, from directories of well-named addons that hold all the optional ones: the
-- worker succeeds, and the answers decide which optional arguments are loaded afterwards, whatever
-- was loaded before.
pub set_hardening_uki :
    (defaults avail loaded : List Str) (wants_32_bit nosmt unstable : Bool)
    → AllCanonical avail
    → AllCanonical loaded
    → all (contains avail) optional_kargs ≡ true
    → (request : SetKargs) × (final : List Str) × (set_hardening defaults composefs systemd_boot
          wants_32_bit nosmt unstable
        ≡ worker request)
      × (main (dir avail) request (dir loaded) ≡ (ok 0, dir final))
      × ((k : Str)
          → contains optional_kargs k ≡ true
          → contains final k ≡ is_chosen (not wants_32_bit) nosmt unstable k)
unfolding set_hardening
set_hardening_uki defaults avail loaded w n u ha hl there =
    let lists = build_kargs_list defaults composefs systemd_boot (not w) n u in
    let request : SetKargs = record { add = lists.0; remove = lists.1 } in
    let part = λ (k : Str).
      build_kargs_list_partition defaults composefs systemd_boot (not w) n u k (ground arith) in
    let canonical : AllCanonical request.remove =
      all-of-contains is_canonical request.remove (λ k c.
        all-contains is_canonical optional_kargs k (unfold is_canonical all in refl)
          (ground (arith, c, (part k).1))) in
    let known : all (contains avail) request.add ≡ true =
      all-of-contains (contains avail) request.add (λ k c.
        all-contains (contains avail) optional_kargs k there
          (unfold contains in ground (arith, c, (part k).0))) in
    let (final, run, mem) = main_success avail loaded request ha hl canonical known in
    (request, final, refl, run, λ k opt. decided _ _ _ _ _ _ (mem k) (part k).0 (part k).1 opt)
