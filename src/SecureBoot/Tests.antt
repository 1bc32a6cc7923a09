-- ===== src/SecureBoot/Tests.antt =====
-- Runs of the Secure Boot components at concrete inputs.
use secureblue.Base.{◌≡◌, refl, ◌≢◌, Bool, true, false, Option, none, some, [], ◌∷◌, ◌++◌}
use secureblue.Base.{string_eq, all, any, codes, arith}
use secureblue.Base.Dict
use secureblue.Base.Dict.{Dict}
use secureblue.Base.Exec.{ok}
use secureblue.SecureBoot.SignatureList.{Bytes, efi_type_x509, is_cert_in_signature_list}
use secureblue.SecureBoot.SignatureList.{is_cert_in_signature_list-ne-none}
use secureblue.SecureBoot.Encoding.{SigList, IsWellFormed, holds, encode_all, le_bytes}
use secureblue.SecureBoot.Database.{is_cert_in_signature_list-encode_all}
use secureblue.SecureBoot.Efivars.{File, Files, Chattr, mark, efivar_path, write_efi_bytes}
use secureblue.SecureBoot.Efivars.{efi_ns_security, efi_ns_shim}
use secureblue.SecureBoot.Enroll.{
  zero_guid, mok_new_payload, enroll_mok_key, enroll_efi_keys, is_encodable,
}
use secureblue.SecureBoot.Enroll.{update_systemd_boot}
use secureblue.SecureBoot.Staged.{Works, enroll_mok_key_found}
use secureblue.SecureBoot.BootLoader.{IsUpdated, update_systemd_boot_updates}

is_cert_in_signature_list-ne-none_example :
    is_cert_in_signature_list (1 ∷ []) (7 ∷ 0 ∷ 0 ∷ 0 ∷ 9 ∷ []) ≢ none
is_cert_in_signature_list-ne-none_example =
    is_cert_in_signature_list-ne-none (1 ∷ []) (7 ∷ 0 ∷ 0 ∷ 0 ∷ 9 ∷ [])

abbrev attributes : Bytes
attributes = 7 ∷ 0 ∷ 0 ∷ 0 ∷ []

-- One X.509 list with two entries of two bytes.
abbrev two_certs : SigList
two_certs = record {
  signature_type = efi_type_x509;
  header = [];
  signature_size = 18;
  entries = (zero_guid ++ (1 ∷ 2 ∷ [])) ∷ (zero_guid ++ (3 ∷ 4 ∷ [])) ∷ [];
}

two_certs-IsWellFormed : IsWellFormed two_certs
two_certs-IsWellFormed = record {
  guid = refl;
  sized = (refl, (refl, tt));
  fits = omega arith;
  size_fits = omega arith;
}

is_cert_in_signature_list-encode_all_example :
    is_cert_in_signature_list (3 ∷ 4 ∷ []) (attributes ++ (encode_all (two_certs ∷ []) ++ (5 ∷ [])))
    ≡ some (any (holds (3 ∷ 4 ∷ [])) (two_certs ∷ []))
is_cert_in_signature_list-encode_all_example =
    is_cert_in_signature_list-encode_all (3 ∷ 4 ∷ []) attributes (5 ∷ []) (two_certs ∷ []) refl
      (omega arith) (two_certs-IsWellFormed, tt)

found : any (holds (3 ∷ 4 ∷ [])) (two_certs ∷ []) ≡ true
unfolding any holds
found = refl

-- A `chattr` that never fails.
abbrev chattr : Chattr
chattr flag path fs = some (mark flag path fs)

chattr-Works : Works chattr
chattr-Works flag path fs = refl

abbrev file : Bytes → File
file b = record { content = b; immutable = false }

abbrev files : Files
files =
    ("db.auth", file (1 ∷ []))
    ∷ ("kek.auth", file (2 ∷ []))
    ∷ ("pk.auth", file (3 ∷ []))
    ∷ ("mok.der", file (4 ∷ 5 ∷ []))
    ∷ []

abbrev written : Files
written = (write_efi_bytes chattr "db" efi_ns_security 7 (9 ∷ []) files).1

written-eq : write_efi_bytes chattr "db" efi_ns_security 7 (9 ∷ []) files ≡ (ok tt, written)
unfolding write_efi_bytes
written-eq = refl

abbrev payload : Bytes
payload =
    efi_type_x509 ++ ((le_bytes 46 ++ (le_bytes 0 ++ le_bytes 18)) ++ (zero_guid ++ (4 ∷ 5 ∷ [])))

payload-eq : mok_new_payload (4 ∷ 5 ∷ []) ≡ some payload
unfolding mok_new_payload
payload-eq = refl

abbrev digest : Bytes → Bytes
digest b = b

mok_lookup : Dict.lookup "mok.der" files ≡ some (file (4 ∷ 5 ∷ []))
unfolding Dict.lookup
mok_lookup = refl

encodable : all is_encodable (codes "secure") ≡ true
unfolding all is_encodable
encodable = refl

enroll_mok_key_found_example :
    let run = enroll_mok_key chattr digest "mok.der" (codes "secure") files in
    (f : File) × (run.0 ≡ ok tt)
    × (Dict.lookup (efivar_path "MokNew" efi_ns_shim) run.1 ≡ some f)
    × (is_cert_in_signature_list (4 ∷ 5 ∷ []) f.content ≡ some true)
enroll_mok_key_found_example =
    enroll_mok_key_found chattr digest chattr-Works "mok.der" (codes "secure") files
      (file (4 ∷ 5 ∷ [])) mok_lookup (omega arith) (omega arith) encodable

abbrev enrolled : Files
enrolled = (enroll_efi_keys chattr "db.auth" "kek.auth" "pk.auth" files).1

abbrev is_some : {A : Type 0} → Option A → Bool
is_some none = false
is_some (some a) = true

abbrev esp : Files
esp =
    ("/boot/EFI/systemd/systemd-bootx64.efi", file (1 ∷ []))
    ∷ ("/boot/EFI/BOOT/BOOTX64.EFI", file (1 ∷ []))
    ∷ ("/usr/lib/systemd/boot/efi/systemd-bootx64.efi", file (2 ∷ []))
    ∷ []

update_systemd_boot_updates_example :
    IsUpdated digest
      (file (2 ∷ []))
      (file (1 ∷ []))
      (file (1 ∷ []))
      "/boot/loader.conf"
      esp
      (update_systemd_boot digest esp)
    × (update_systemd_boot digest (update_systemd_boot digest esp).1
        ≡ (ok tt, (update_systemd_boot digest esp).1))
unfolding Dict.lookup
update_systemd_boot_updates_example =
    update_systemd_boot_updates digest esp (file (2 ∷ [])) (file (1 ∷ [])) (file (1 ∷ []))
      "/boot/loader.conf" refl refl refl refl refl refl refl
