-- ===== src/SecureBoot/Enroll.antt =====
-- The privileged worker: `enroll_efi_keys`, `enroll_mok_key`, `update_systemd_boot` and `main`.
use secureblue.Base.{ℕ, ◌+◌, ◌-◌, ◌*◌, ◌/◌, ◌%◌}
use secureblue.Base.{Bool, not, ◌||◌, if◌then◌else◌, ltb}
use secureblue.Base.{Option, none, some, List, [], ◌∷◌, ◌++◌, String}
use secureblue.Base.{◌==◌, nat_eq, string_eq, list_eq, list_beq}
use secureblue.Base.{length}
use secureblue.Base.Exec.{Exec, pure, gets, or_raise, ◌>>=◌, ◌>>◌, when}
use Prim.Native.Nat.{bit_or}
use mathlib.Core.Option
use secureblue.SecureBoot.SignatureList.{Bytes, efi_type_x509, efi_guid_size, efi_uint32_size}
use secureblue.SecureBoot.Efivars.{
  Files, Error, struct_error, unicode_error, Chattr, read_bytes, pack_uint32,
}
use secureblue.SecureBoot.Efivars.{write_efi_bytes, path_exists, write_bytes}
use secureblue.SecureBoot.Efivars.{efi_ns_global, efi_ns_security, efi_ns_shim}

abbrev pub efi_attr_non_volatile : ℕ
efi_attr_non_volatile = 0x00000001

abbrev pub efi_attr_bootservice : ℕ
efi_attr_bootservice = 0x00000002

abbrev pub efi_attr_runtime : ℕ
efi_attr_runtime = 0x00000004

abbrev pub efi_attr_time_based_auth_write : ℕ
efi_attr_time_based_auth_write = 0x00000020

-- The attributes are joined by `|`.
abbrev pub key_attributes : ℕ
key_attributes =
    bit_or (bit_or (bit_or efi_attr_non_volatile efi_attr_runtime) efi_attr_bootservice)
      efi_attr_time_based_auth_write

abbrev pub mok_attributes : ℕ
mok_attributes = bit_or (bit_or efi_attr_non_volatile efi_attr_bootservice) efi_attr_runtime

abbrev pub systemd_boot_new : String
systemd_boot_new = "/usr/lib/systemd/boot/efi/systemd-bootx64.efi"

abbrev pub bootloader_esp_boot : String
bootloader_esp_boot = "/boot/EFI/BOOT/BOOTX64.EFI"

abbrev pub bootloader_esp_systemd : String
bootloader_esp_systemd = "/boot/EFI/systemd/systemd-bootx64.efi"

-- `b"\x00" * EFI_GUID_SIZE`
abbrev pub zero_guid : Bytes
zero_guid = 0 ∷ 0 ∷ 0 ∷ 0 ∷ 0 ∷ 0 ∷ 0 ∷ 0 ∷ 0 ∷ 0 ∷ 0 ∷ 0 ∷ 0 ∷ 0 ∷ 0 ∷ 0 ∷ []

-- Not a surrogate, which has no encoding of its own
unfoldable pub is_encodable : ℕ → Bool
is_encodable c = ltb c 0xd800 || not (ltb c 0xe000)

unfoldable pub utf16_units : ℕ → Bytes
utf16_units c =
    if ltb c 0x10000
    then c % 256 ∷ c / 256 ∷ []
    else let high = 0xd800 + (c - 0x10000) / 1024 in
      let low = 0xdc00 + (c - 0x10000) % 1024 in
      high % 256 ∷ high / 256 ∷ low % 256 ∷ low / 256 ∷ []

-- `password.encode("utf-16-le")`: characters past 0xffff become surrogate pairs; `none` is the
-- UnicodeEncodeError on a surrogate.
unfoldable pub utf16_le : List ℕ → Option Bytes
unfolding is_encodable utf16_units
utf16_le [] = some []
utf16_le (c ∷ cs) =
    let rest = Option.map (λ bytes. utf16_units c ++ bytes) (utf16_le cs) in
    if is_encodable c then rest else none

-- The EFI_SIGNATURE_LIST with one certificate; `none` is a `struct.error` on a size of 32 bits.
unfoldable pub mok_new_payload : Bytes → Option Bytes
unfolding pack_uint32
mok_new_payload der_bytes =
    let signature_size = efi_guid_size + length der_bytes in
    let signature_list_size = efi_guid_size + efi_uint32_size * 3 + signature_size in
    elim (pack_uint32 signature_list_size) [
      | none ↦ none
      | some list_size ↦ elim (pack_uint32 0) [
        | none ↦ none
        | some header_size ↦
            Option.map
              (λ size.
                efi_type_x509 ++ ((list_size ++ (header_size ++ size)) ++ (zero_guid ++ der_bytes)))
              (pack_uint32 signature_size)
      ]
    ]

-- What a request asks for, and the paths that it names.
pub data Request : Type 0 where
  enroll_efi : String → String → String → Request
  enroll_mok : String → List ℕ → Request

module _ (chattr : Chattr) where
  unfoldable pub enroll_efi_keys : String → String → String → Exec Files Error (Unit {0})
  unfolding read_bytes
  enroll_efi_keys db_auth kek_auth pk_auth = do
    db ← read_bytes db_auth
    write_efi_bytes chattr "db" efi_ns_security key_attributes db
    kek ← read_bytes kek_auth
    write_efi_bytes chattr "KEK" efi_ns_global key_attributes kek
    pk ← read_bytes pk_auth
    write_efi_bytes chattr "PK" efi_ns_global key_attributes pk

-- `shutil.copy(source, target)`
unfoldable pub copy_file : String → String → Exec Files Error (Unit {0})
unfolding read_bytes write_bytes
copy_file source target = do content ← read_bytes source; write_bytes target content

unfoldable pub replace_systemd : Bytes → Bytes → Bytes → Exec Files Error (Unit {0})
unfolding list_beq
replace_systemd new_systemd esp_boot esp_systemd = when (not (new_systemd == esp_systemd)) (do
  copy_file systemd_boot_new bootloader_esp_systemd
  when (esp_boot == esp_systemd) (copy_file systemd_boot_new bootloader_esp_boot))

-- `sha256` gives the digest of a byte string.
module _ (sha256 : Bytes → Bytes) where
  unfoldable pub update_systemd_boot : Exec Files Error (Unit {0})
  unfolding read_bytes path_exists replace_systemd copy_file write_bytes
  update_systemd_boot = do
    present ← gets (path_exists bootloader_esp_systemd)
    when present (do
      new_systemd ← read_bytes systemd_boot_new
      esp_boot ← read_bytes bootloader_esp_boot
      esp_systemd ← read_bytes bootloader_esp_systemd
      replace_systemd (sha256 new_systemd) (sha256 esp_boot) (sha256 esp_systemd))

  unfoldable pub mok_auth_hash : Bytes → List ℕ → Option Bytes
  unfolding utf16_le
  mok_auth_hash list_data password =
      Option.map (λ bytes. sha256 (list_data ++ bytes)) (utf16_le password)

module _ (chattr : Chattr) (sha256 : Bytes → Bytes) where
  unfoldable pub enroll_mok_key : String → List ℕ → Exec Files Error (Unit {0})
  unfolding read_bytes mok_auth_hash
  enroll_mok_key der password = do
    der_bytes ← read_bytes der
    payload ← or_raise struct_error (mok_new_payload der_bytes)
    auth ← or_raise unicode_error (mok_auth_hash sha256 payload password)
    write_efi_bytes chattr "MokNew" efi_ns_shim mok_attributes payload
    write_efi_bytes chattr "MokAuth" efi_ns_shim mok_attributes auth

  unfoldable pub main : Request → Exec Files Error ℕ
  main (enroll_efi db_auth kek_auth pk_auth) = do
    enroll_efi_keys chattr db_auth kek_auth pk_auth
    update_systemd_boot sha256
    pure 0
  main (enroll_mok der password) = do
    enroll_mok_key der password
    update_systemd_boot sha256
    pure 0
