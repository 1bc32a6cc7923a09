-- ===== src/SecureBoot/BootLoader.antt =====
-- What a run of `update_systemd_boot` makes of the boot loaders in the ESP.
use secureblue.Base.{arith}
use secureblue.Base.{◌≡◌, refl, sym, ap, ◌∙◌, inl, inr}
use secureblue.Base.{true, false, not, ◌&&◌, if◌then◌else◌, Bool-cases}
use secureblue.Base.{Option, none, some, String}
use secureblue.Base.{◌==◌, nat_eq, string_eq, list_eq}
use secureblue.Base.Dict
use secureblue.Base.Dict.{lookup-insert}
use secureblue.Base.Exec.{Result, ok}
use secureblue.SecureBoot.SignatureList.{Bytes}
use secureblue.SecureBoot.Efivars.{File, Files, Error}
use secureblue.SecureBoot.Enroll.{
  update_systemd_boot, bootloader_esp_systemd, bootloader_esp_boot, systemd_boot_new,
}
use secureblue.SecureBoot.Staged.{update_systemd_boot_idem}

abbrev pub content_of : Option File → Option Bytes
content_of none = none
content_of (some f) = some f.content

abbrev pub content_at : String → Files → Option Bytes
content_at path fs = content_of (Dict.lookup path fs)

abbrev pub digest_of : (Bytes → Bytes) → Option File → Option Bytes
digest_of sha256 none = none
digest_of sha256 (some f) = some (sha256 f.content)

abbrev pub digest_at : (Bytes → Bytes) → String → Files → Option Bytes
digest_at sha256 path fs = digest_of sha256 (Dict.lookup path fs)

-- What is expected of a run: it returns; the systemd-boot in the ESP has the digest of the one that is
-- shipped; the default loader is replaced if it is a copy of an outdated systemd-boot, and is kept
-- otherwise; the other file is kept.
pub record IsUpdated (sha256 : Bytes → Bytes) (new boot systemd : File) (other : String)
    (fs : Files) (run : Result Error (Unit {0}) × Files) : Type 0 where
  pub returned : run.0 ≡ ok tt
  pub current : digest_at sha256 bootloader_esp_systemd run.1 ≡ some (sha256 new.content)
  pub default :
      content_at bootloader_esp_boot run.1
      ≡ some (
          if not (sha256 new.content == sha256 systemd.content)
            && (sha256 boot.content == sha256 systemd.content)
          then new.content
          else boot.content)
  pub kept : Dict.lookup other run.1 ≡ Dict.lookup other fs

module _ (sha256 : Bytes → Bytes) (fs : Files) (new boot systemd : File) (other : String)
    (shipped : Dict.lookup systemd_boot_new fs ≡ some new)
    (default_there : Dict.lookup bootloader_esp_boot fs ≡ some boot)
    (installed : Dict.lookup bootloader_esp_systemd fs ≡ some systemd)
    (boot_mutable : boot.immutable ≡ false) (systemd_mutable : systemd.immutable ≡ false)
    (not_systemd : (other == bootloader_esp_systemd) ≡ false)
    (not_boot : (other == bootloader_esp_boot) ≡ false) where
  abbrev written : File
  written = record { content = new.content; immutable = false }

  abbrev once : Files
  once = Dict.insert bootloader_esp_systemd written fs

  abbrev twice : Files
  twice = Dict.insert bootloader_esp_boot written once

  -- The three ways through the function
  run_current :
      (sha256 new.content == sha256 systemd.content) ≡ true
      → update_systemd_boot sha256 fs ≡ (ok tt, fs)
  unfolding update_systemd_boot
  run_current same = ground (arith, shipped, default_there, installed, same)

  run_foreign :
      (sha256 new.content == sha256 systemd.content) ≡ false
      → (sha256 boot.content == sha256 systemd.content) ≡ false
      → update_systemd_boot sha256 fs ≡ (ok tt, once)
  unfolding update_systemd_boot
  run_foreign outdated foreign =
      ground (arith, shipped, default_there, installed, systemd_mutable, outdated, foreign)

  run_copied :
      (sha256 new.content == sha256 systemd.content) ≡ false
      → (sha256 boot.content == sha256 systemd.content) ≡ true
      → update_systemd_boot sha256 fs ≡ (ok tt, twice)
  unfolding update_systemd_boot
  run_copied outdated copied =
      let at = λ (j : String). lookup-insert j bootloader_esp_systemd written fs in
      ground (
        arith,
        shipped,
        default_there,
        installed,
        systemd_mutable,
        boot_mutable,
        outdated,
        copied,
        at systemd_boot_new,
        at bootloader_esp_boot,
      )

  run-IsUpdated : IsUpdated sha256 new boot systemd other fs (update_systemd_boot sha256 fs)
  run-IsUpdated =
      let at = λ (j : String). lookup-insert j bootloader_esp_systemd written fs in
      let at' = λ (j : String). lookup-insert j bootloader_esp_boot written once in
      elim (Bool-cases (sha256 new.content == sha256 systemd.content)) [
        | inl same ↦
            let equal = (list_eq.beq_iff (sha256 new.content) (sha256 systemd.content)).0 same in
            rw (run_current same) (record {
              returned = refl;
              current = rw installed (ap some (sym equal));
              default = rw (same, default_there) refl;
              kept = refl;
            })
        | inr outdated ↦ elim (Bool-cases (sha256 boot.content == sha256 systemd.content)) [
          | inl copied ↦ rw (run_copied outdated copied) (record {
            returned = refl;
            current = rw (at' bootloader_esp_systemd, at bootloader_esp_systemd) refl;
            default = rw (at' bootloader_esp_boot, outdated, copied) refl;
            kept = rw (at' other, not_boot, at other, not_systemd) refl;
          })
          | inr foreign ↦ rw (run_foreign outdated foreign) (record {
            returned = refl;
            current = rw (at bootloader_esp_systemd) refl;
            default = rw (at bootloader_esp_boot, default_there, outdated, foreign) refl;
            kept = rw (at other, not_systemd) refl;
          })
        ]
      ]

  run-again :
      (run : Result Error (Unit {0}) × Files)
      → update_systemd_boot sha256 fs ≡ run
      → run.0 ≡ ok tt
      → update_systemd_boot sha256 run.1 ≡ (ok tt, run.1)
  run-again run e h = update_systemd_boot_idem sha256 fs run.1 (e ∙ ap (λ r. (r, run.1)) h)

  -- Where the three boot loaders are there, and those in the ESP are not immutable: the update returns;
  -- the systemd-boot in the ESP then has the digest of the one that is shipped; the default loader is
  -- replaced by it if systemd-boot was outdated and the default loader a copy of it, and is kept
  -- otherwise; every other file is kept; and a second update changes nothing.
  pub update_systemd_boot_updates :
      IsUpdated sha256 new boot systemd other fs (update_systemd_boot sha256 fs)
      × (update_systemd_boot sha256 (update_systemd_boot sha256 fs).1
          ≡ (ok tt, (update_systemd_boot sha256 fs).1))
  update_systemd_boot_updates =
      (run-IsUpdated, run-again (update_systemd_boot sha256 fs) refl run-IsUpdated.returned)
