-- ===== src/Dns/Written.antt =====
-- The files that `set-global` of the DNS worker leaves.
use secureblue.Base.{ℕ, arith}
use secureblue.Base.{◌≡◌, refl, sym, ap, ◌∙◌, inl, inr}
use secureblue.Base.{Bool, true, false, if◌then◌else◌, Bool-cases}
use secureblue.Base.{Option, none, some, List, [], ◌∷◌, ◌++◌, String}
use secureblue.Base.{◌==◌, nat_eq, string_eq, list_eq, list_beq}
use secureblue.Base.Dict
use secureblue.Base.Dict.{Dict}
use secureblue.Base.Exec.{Result, ok, Exec, pure}
use secureblue.Base.{Str, codes}
use mathlib.Core.Path.{subst}
use secureblue.Base.Exec.{>>=-eq-ok}
use secureblue.Base.Dict.{lookup-insert, lookup-erase}
use secureblue.Systemd.{Systemctl, stop, start}
use secureblue.Dns.World.{
  World, ConfFile, Exit, act, write_conf, unlink, nm_globaldns_conf_path, dnsconfd_conf_path,
  trivalent_policy_path,
}
use secureblue.Dns.Settings.{
  newline, globaldns_config, trivalent_policy, set_global_nm_servers, set_dnssec_enabled,
  set_trivalent_doh_endpoint,
}
use secureblue.Dns.Worker.{
  is_unbound, service, network_manager, set_global, get_current, configure, restart, reconfigure,
  main,
}
use secureblue.Dns.Actions.{StopsOnly, get_current-kept_manager, get_current-kept_service}

abbrev pub content_of : Option ConfFile → Option Str
content_of none = none
content_of (some f) = some f.content

-- The file at a path.
abbrev pub content_at : {U : Type 0} → String → World U → Option Str
content_at path w = content_of (Dict.lookup path w.files)

-- What the worker is asked to write; an empty text removes the file.
abbrev pub IsConfigured : {U : Type 0} → Str → Bool → Str → World U → Type 0
IsConfigured servers dnssec_enabled doh_url w =
    (content_at nm_globaldns_conf_path w
      ≡ (if servers == [] then none else some (globaldns_config servers ++ newline)))
    × (content_at dnsconfd_conf_path w
        ≡ (if dnssec_enabled then some (codes "dnssec_enabled: yes" ++ newline) else none))
    × (content_at trivalent_policy_path w
        ≡ (if doh_url == [] then none else some (trivalent_policy doh_url ++ newline)))

module _ {U : Type 0} where
  content_at-write :
      (path at : String) (content : Str) (w : World U)
      → content_at at (write_conf path content w).1
        ≡ (if at == path then some content else content_at at w)
  unfolding write_conf
  content_at-write path at content w = elim (Bool-cases (at == path)) [
    | inl e ↦
        rw (lookup-insert at path (record { content = content; mode = 0o644 }) w.files, e) refl
    | inr e ↦
        rw (lookup-insert at path (record { content = content; mode = 0o644 }) w.files, e) refl
  ]

  content_at-unlink :
      (path at : String) (w : World U)
      → content_at at (unlink path w).1 ≡ (if at == path then none else content_at at w)
  unfolding unlink
  content_at-unlink path at w = elim (Bool-cases (at == path)) [
    | inl e ↦ rw (lookup-erase at path w.files, e) refl
    | inr e ↦ rw (lookup-erase at path w.files, e) refl
  ]

  servers_content :
      (servers : Str) (at : String) (w : World U)
      → content_at at (set_global_nm_servers servers w).1 ≡ (
          if at == nm_globaldns_conf_path
          then (if servers == [] then none else some (globaldns_config servers ++ newline))
          else content_at at w)
  unfolding set_global_nm_servers list_beq
  servers_content [] at w = content_at-unlink nm_globaldns_conf_path at w
  servers_content (c ∷ s) at w = content_at-write nm_globaldns_conf_path at _ w

  dnssec_content :
      (dnssec_enabled : Bool) (at : String) (w : World U)
      → content_at at (set_dnssec_enabled dnssec_enabled w).1 ≡ (
          if at == dnsconfd_conf_path
          then (if dnssec_enabled then some (codes "dnssec_enabled: yes" ++ newline) else none)
          else content_at at w)
  unfolding set_dnssec_enabled
  dnssec_content false at w = content_at-unlink dnsconfd_conf_path at w
  dnssec_content true at w = content_at-write dnsconfd_conf_path at _ w

  doh_content :
      (doh_url : Str) (at : String) (w : World U)
      → content_at at (set_trivalent_doh_endpoint doh_url w).1 ≡ (
          if at == trivalent_policy_path
          then (if doh_url == [] then none else some (trivalent_policy doh_url ++ newline))
          else content_at at w)
  unfolding set_trivalent_doh_endpoint list_beq
  doh_content [] at w = content_at-unlink trivalent_policy_path at w
  doh_content (c ∷ s) at w = content_at-write trivalent_policy_path at _ w

  settings-IsConfigured :
      (servers : Str) (dnssec_enabled : Bool) (doh_url : Str) (w : World U)
      → IsConfigured servers dnssec_enabled doh_url
          (set_trivalent_doh_endpoint doh_url
            (set_dnssec_enabled dnssec_enabled (set_global_nm_servers servers w).1).1).1
  settings-IsConfigured servers dnssec_enabled doh_url w =
      let w1 = (set_global_nm_servers servers w).1 in
      let w2 = (set_dnssec_enabled dnssec_enabled w1).1 in
      (
        doh_content doh_url nm_globaldns_conf_path w2
            ∙ dnssec_content dnssec_enabled nm_globaldns_conf_path w1
            ∙ servers_content servers nm_globaldns_conf_path w,
        doh_content doh_url dnsconfd_conf_path w2
            ∙ dnssec_content dnssec_enabled dnsconfd_conf_path w1,
        doh_content doh_url trivalent_policy_path w2,
      )

module _ {U A : Type 0} where
  -- An action that leaves the files.
  abbrev KeepsFiles : Exec (World U) Exit A → Type 0
  KeepsFiles m = (w t : World U) (a : A) → m w ≡ (ok a, t) → t.files ≡ w.files

  left : (m : Exec (World U) Exit A) (w t : World U) (a : A) → m w ≡ (ok a, t) → (m w).1 ≡ t
  left m w t a e = ap (λ (r : Result Exit A × World U). r.1) e

IsConfigured-files :
    {U : Type 0} (servers : Str) (dnssec_enabled : Bool) (doh_url : Str) (w t : World U)
    → t.files ≡ w.files
    → IsConfigured servers dnssec_enabled doh_url w
    → IsConfigured servers dnssec_enabled doh_url t
IsConfigured-files servers dnssec_enabled doh_url w t same h = rw same h

module _ (ctl : Systemctl) (law : StopsOnly ctl) (uid : Option ℕ) where
  act-KeepsFiles : (name : String) (actions : List String) → KeepsFiles (act ctl name actions)
  unfolding act
  act-KeepsFiles name actions w t a e =
      sym (ap (λ (r : Result Exit (Unit {0}) × World ctl.Units). r.1.files) e)

  restart-KeepsFiles : KeepsFiles (restart ctl uid)
  unfolding restart
  restart-KeepsFiles w t a e =
      let (b, s, e1, g) =
        >>=-eq-ok (act ctl (service (get_current ctl uid w)) start)
          (λ _. act ctl network_manager start) w t a e in
      act-KeepsFiles network_manager start s t a g ∙ act-KeepsFiles _ start w s b e1

  configure-IsConfigured :
      (servers : Str) (dnssec_enabled : Bool) (doh_url : Str) (w t : World ctl.Units) (r : Bool)
      → is_unbound (get_current ctl uid w) ≡ true
      → configure ctl uid (set_global servers dnssec_enabled doh_url) w ≡ (ok r, t)
      → (r ≡ false) × IsConfigured servers dnssec_enabled doh_url t
  unfolding configure
  configure-IsConfigured servers dnssec_enabled doh_url w t r it_is e =
      let go = rw it_is at e in
      let (a1, w1, e1, g1) = >>=-eq-ok (set_global_nm_servers servers) _ w t r go in
      let (a2, w2, e2, g2) = >>=-eq-ok (set_dnssec_enabled dnssec_enabled) _ w1 t r g1 in
      let (a3, w3, e3, g3) = >>=-eq-ok (set_trivalent_doh_endpoint doh_url) _ w2 t r g2 in
      let after3 : (set_trivalent_doh_endpoint doh_url
            (set_dnssec_enabled dnssec_enabled (set_global_nm_servers servers w).1).1).1
          ≡ t =
        ap (λ x. (set_trivalent_doh_endpoint doh_url (set_dnssec_enabled dnssec_enabled x).1).1)
          (left (set_global_nm_servers servers) w w1 a1 e1)
        ∙ (ap (λ x. (set_trivalent_doh_endpoint doh_url x).1)
              (left (set_dnssec_enabled dnssec_enabled) w1 w2 a2 e2)
            ∙ (left (set_trivalent_doh_endpoint doh_url) w2 w3 a3 e3 ∙ ground (arith, g3))) in
      (
        ground (arith, g3),
        subst (λ x. IsConfigured servers dnssec_enabled doh_url x) after3
            (settings-IsConfigured servers dnssec_enabled doh_url w),
      )

  -- With Unbound as the current resolver, a run of `set-global` that returns leaves the three files
  -- as the request says: the servers, the DNSSEC setting and the endpoint of Trivalent.
  pub main-IsConfigured :
      (servers : Str) (dnssec_enabled : Bool) (doh_url : Str) (w t : World ctl.Units)
      → is_unbound (get_current ctl uid w) ≡ true
      → main ctl uid (set_global servers dnssec_enabled doh_url) w ≡ (ok tt, t)
      → IsConfigured servers dnssec_enabled doh_url t
  unfolding main reconfigure
  main-IsConfigured servers dnssec_enabled doh_url w t it_is e =
      let (a1, w1, e1, g1) = >>=-eq-ok (act ctl network_manager stop) _ w t tt e in
      let svc = service (get_current ctl uid w1) in
      let (a2, w2, e2, g2) = >>=-eq-ok (act ctl svc stop) _ w1 t tt g1 in
      let command = set_global servers dnssec_enabled doh_url in
      let (r, w3, e3, g3) = >>=-eq-ok (configure ctl uid command) _ w2 t tt g2 in
      let same1 : get_current ctl uid w1 ≡ get_current ctl uid w =
        ap (get_current ctl uid) (sym (left (act ctl network_manager stop) w w1 a1 e1))
        ∙ get_current-kept_manager ctl law uid w in
      let same2 : get_current ctl uid w2 ≡ get_current ctl uid w1 =
        ap (get_current ctl uid) (sym (left (act ctl svc stop) w1 w2 a2 e2))
        ∙ get_current-kept_service ctl law uid (get_current ctl uid w1) w1 in
      let (go_on, configured) =
        configure-IsConfigured servers dnssec_enabled doh_url w2 w3 r
          (ap is_unbound (same2 ∙ same1) ∙ it_is) e3 in
      let end =
        subst (λ (b : Bool). (if b then pure tt else restart ctl uid) w3 ≡ (ok tt, t)) go_on g3 in
      IsConfigured-files servers dnssec_enabled doh_url w3 t (restart-KeepsFiles w3 t tt end)
        configured
