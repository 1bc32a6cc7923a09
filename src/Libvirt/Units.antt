-- ===== src/Libvirt/Units.antt =====
-- Which daemons' sockets are among the units that are enabled or disabled for a selection.
use secureblue.Base.{arith}
use secureblue.Base.{◌≡◌, refl, ◌∙◌}
use secureblue.Base.{Bool, true, false, not, ◌&&◌, ◌||◌, if◌then◌else◌}
use secureblue.Base.{List, [], ◌∷◌, ◌++◌, map}
use secureblue.Base.{◌==◌, nat_eq, string_eq, list_eq, contains}
use secureblue.Base.{any, any-append}
use secureblue.Base.Membership.{contains-keep}
use secureblue.Libvirt.Daemons.{
  Daemon, qemud, interfaced, networkd, nodedevd, nwfilterd, secretd, storaged, logd, lockd, proxyd,
  all_daemons, Selection, daemon_eq, is_qemud, is_log, UnitKind, service, socket, socket_ro,
  socket_admin, LibvirtUnit, modular, monolithic, daemons, units_of, sockets_ro, enabled_units,
  disabled_units, differs,
}

-- The main socket of the daemon is among the units.
abbrev pub has_socket : Daemon → List LibvirtUnit → Bool
has_socket d [] = false
has_socket d (modular e socket ∷ us) = d == e || has_socket d us
has_socket d (modular e service ∷ us) = has_socket d us
has_socket d (modular e socket_ro ∷ us) = has_socket d us
has_socket d (modular e socket_admin ∷ us) = has_socket d us
has_socket d (monolithic name ∷ us) = has_socket d us

-- The unit is one of the daemon.
abbrev pub is_of : Daemon → LibvirtUnit → Bool
is_of d (modular e k) = d == e
is_of d (monolithic name) = false

has_socket-append :
    (d : Daemon) (us vs : List LibvirtUnit)
    → has_socket d (us ++ vs) ≡ (has_socket d us || has_socket d vs)
has_socket-append d [] vs = refl
has_socket-append d (modular e socket ∷ us) vs = ground (arith, has_socket-append d us vs)
has_socket-append d (modular e service ∷ us) vs = has_socket-append d us vs
has_socket-append d (modular e socket_ro ∷ us) vs = has_socket-append d us vs
has_socket-append d (modular e socket_admin ∷ us) vs = has_socket-append d us vs
has_socket-append d (monolithic name ∷ us) vs = has_socket-append d us vs

has_socket-sockets :
    (d : Daemon) (ds : List Daemon) → has_socket d (map (λ e. modular e socket) ds) ≡ contains ds d
unfolding contains
has_socket-sockets d [] = refl
has_socket-sockets d (e ∷ ds) = ground (arith, has_socket-sockets d ds)

abbrev is_socket : UnitKind → Bool
is_socket socket = true
is_socket _ = false

has_no_socket :
    (k : UnitKind) (d : Daemon) (ds : List Daemon)
    → is_socket k ≡ false
    → has_socket d (map (λ e. modular e k) ds) ≡ false
has_no_socket service d [] h = refl
has_no_socket service d (e ∷ ds) h = has_no_socket service d ds h
has_no_socket socket_ro d [] h = refl
has_no_socket socket_ro d (e ∷ ds) h = has_no_socket socket_ro d ds h
has_no_socket socket_admin d [] h = refl
has_no_socket socket_admin d (e ∷ ds) h = has_no_socket socket_admin d ds h
has_no_socket socket d ds h = ground (arith, h)

contains-all_daemons : (d : Daemon) → contains all_daemons d ≡ true
unfolding contains
contains-all_daemons d = ground arith

pub contains-daemons :
    (selection : Selection) (d : Daemon) → contains (daemons selection) d ≡ selection d
unfolding daemons
contains-daemons selection d =
    contains-keep selection all_daemons d ∙ rw (contains-all_daemons d) refl

has_socket-units_of :
    (k : UnitKind) (selection : Selection) (d : Daemon)
    → has_socket d (units_of k selection) ≡ (is_socket k && selection d)
unfolding units_of
has_socket-units_of service selection d = has_no_socket service d (daemons selection) refl
has_socket-units_of socket selection d =
    has_socket-sockets d (daemons selection) ∙ contains-daemons selection d
has_socket-units_of socket_ro selection d = has_no_socket socket_ro d (daemons selection) refl
has_socket-units_of socket_admin selection d = has_no_socket socket_admin d (daemons selection) refl

-- Of four groups of units, the second has the sockets.
has_socket-groups :
    (a b c e : Selection) (d : Daemon)
    → has_socket d (
        units_of service a
        ++ (units_of socket b ++ (units_of socket_ro c ++ units_of socket_admin e)))
      ≡ b d
has_socket-groups a b c e d =
    rw
      (
        has_socket-append d (units_of service a)
            (units_of socket b ++ (units_of socket_ro c ++ units_of socket_admin e)),
        has_socket-append d (units_of socket b) (units_of socket_ro c ++ units_of socket_admin e),
        has_socket-append d (units_of socket_ro c) (units_of socket_admin e),
        has_socket-units_of service a d,
        has_socket-units_of socket b d,
        has_socket-units_of socket_ro c d,
        has_socket-units_of socket_admin e d,
      )
      (ground arith)

-- The units that a selection enables have the socket of a daemon exactly when it is selected.
pub has_socket-enabled_units :
    (selection : Selection) (d : Daemon) → has_socket d (enabled_units selection) ≡ selection d
unfolding enabled_units sockets_ro
has_socket-enabled_units selection d = has_socket-groups _ selection _ selection d

pub has_socket-disabled_units :
    (selection : Selection) (d : Daemon)
    → has_socket d (disabled_units selection) ≡ not (selection d)
unfolding disabled_units sockets_ro
has_socket-disabled_units selection d =
    has_socket-groups _ (λ e. not (selection e)) _ (λ e. not (selection e)) d

-- The units of a daemon stand among those of a selection only if it is selected.
belongs-map :
    (k : UnitKind) (d : Daemon) (ds : List Daemon)
    → any (is_of d) (map (λ e. modular e k) ds) ≡ contains ds d
unfolding any contains
belongs-map k d [] = refl
belongs-map k d (e ∷ ds) = ground (arith, belongs-map k d ds)

belongs-units_of :
    (k : UnitKind) (selection : Selection) (d : Daemon)
    → any (is_of d) (units_of k selection) ≡ selection d
unfolding units_of
belongs-units_of k selection d = belongs-map k d (daemons selection) ∙ contains-daemons selection d

belongs-groups :
    (a b c e : Selection) (d : Daemon)
    → any (is_of d) (
        units_of service a
        ++ (units_of socket b ++ (units_of socket_ro c ++ units_of socket_admin e)))
      ≡ (a d || (b d || (c d || e d)))
belongs-groups a b c e d =
    rw
      (
        any-append (is_of d) (units_of service a)
            (units_of socket b ++ (units_of socket_ro c ++ units_of socket_admin e)),
        any-append (is_of d) (units_of socket b) (units_of socket_ro c ++ units_of socket_admin e),
        any-append (is_of d) (units_of socket_ro c) (units_of socket_admin e),
        belongs-units_of service a d,
        belongs-units_of socket b d,
        belongs-units_of socket_ro c d,
        belongs-units_of socket_admin e d,
      )
      refl

pub belongs-enabled_units :
    (selection : Selection) (d : Daemon)
    → any (is_of d) (enabled_units selection) ≡ true
    → selection d ≡ true
unfolding enabled_units sockets_ro
belongs-enabled_units selection d h =
    let split =
      belongs-groups (λ e. selection e && is_qemud e) selection (λ e. selection e && not (is_log e))
        selection d in
    ground (arith, h, split)

pub belongs-disabled_units :
    (selection : Selection) (d : Daemon)
    → any (is_of d) (disabled_units selection) ≡ true
    → selection d ≡ false
unfolding disabled_units sockets_ro
belongs-disabled_units selection d h =
    let others : Selection = λ e. not (selection e) in
    let split = belongs-groups others others (λ e. others e && not (is_log e)) others d in
    ground (arith, h, split)

pub any-all_daemons : (p : Daemon → Bool) (d : Daemon) → any p all_daemons ≡ false → p d ≡ false
unfolding any
any-all_daemons p qemud h = ground (arith, h)
any-all_daemons p interfaced h = ground (arith, h)
any-all_daemons p networkd h = ground (arith, h)
any-all_daemons p nodedevd h = ground (arith, h)
any-all_daemons p nwfilterd h = ground (arith, h)
any-all_daemons p secretd h = ground (arith, h)
any-all_daemons p storaged h = ground (arith, h)
any-all_daemons p logd h = ground (arith, h)
any-all_daemons p lockd h = ground (arith, h)
any-all_daemons p proxyd h = ground (arith, h)

pub differs-all : (a b : Selection) (d : Daemon) → differs a b ≡ false → a d ≡ b d
differs-all a b d h =
    let same = any-all_daemons (λ e. if a e then not (b e) else b e) d h in ground (arith, same)
