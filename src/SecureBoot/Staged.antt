-- ===== src/SecureBoot/Staged.antt =====
-- What the worker leaves behind: a staged certificate is found again, the platform key is written
-- last, and the boot loader is brought up to date once.
use secureblue.Base.{ℕ, ◌+◌, ◌^◌, ◌<◌, arith}
use secureblue.Base.{◌≡◌, refl, sym, ap, ◌∙◌, inl, inr}
use secureblue.Base.{Bool, true, false}
use secureblue.Base.{some, List, [], ◌∷◌, ◌++◌, String}
use secureblue.Base.{nat_eq, string_eq, list_eq, beq_self}
use secureblue.Base.{length, all, any, length-append}
use secureblue.Base.Dict
use secureblue.Base.Dict.{Dict}
use secureblue.Base.Exec.{ok}
use mathlib.Core.Path.{ap₂}
use mathlib.Core.List.{append-nil}
use secureblue.SecureBoot.Encoding.{list_size}
use mathlib.Core.Option.{some-injective}
use secureblue.Base.{lt→ltb, Option-cases}
use secureblue.Base.Dict.{lookup-insert}
use secureblue.SecureBoot.SignatureList.{Bytes, efi_type_x509, is_cert_in_signature_list}
use secureblue.SecureBoot.Encoding.{SigList, IsWellFormed, holds, encode_all, le_bytes}
use secureblue.SecureBoot.Database.{is_cert_in_signature_list-encode_all}
use secureblue.SecureBoot.Efivars.{File, Files, Chattr, IsChattr, mark, efivar_path}
use secureblue.SecureBoot.Efivars.{write_efi_bytes}
use secureblue.SecureBoot.Efivars.{efi_ns_shim, write_efi_bytes_stored, write_efi_bytes_frame}
use secureblue.SecureBoot.Efivars.{write_efi_bytes_returns}
use secureblue.SecureBoot.Enroll.{mok_new_payload, enroll_mok_key, zero_guid}
use secureblue.SecureBoot.Enroll.{
  mok_attributes, mok_auth_hash, is_encodable, utf16_units, utf16_le, update_systemd_boot,
}
use secureblue.SecureBoot.Enroll.{bootloader_esp_systemd, bootloader_esp_boot, systemd_boot_new}

-- The list that a MOK request holds.
abbrev mok_list : Bytes → SigList
mok_list der = record {
  signature_type = efi_type_x509;
  header = [];
  signature_size = 16 + length der;
  entries = (zero_guid ++ der) ∷ [];
}

mok_new_payload-fits :
    (der payload : Bytes) → mok_new_payload der ≡ some payload → 44 + length der < 2 ^ 32
unfolding mok_new_payload
mok_new_payload-fits der payload h = ground arith

mok_list-IsWellFormed : (der : Bytes) → 44 + length der < 2 ^ 32 → IsWellFormed (mok_list der)
mok_list-IsWellFormed der h = record {
  guid = refl;
  sized = (omega arith, tt);
  fits = omega (arith, length-append der []);
  size_fits = omega arith;
}

holds-mok_list : (der : Bytes) → 0 < length der → any (holds der) (mok_list der ∷ []) ≡ true
unfolding any holds
holds-mok_list der h = rw (beq_self der, lt→ltb 16 (16 + length der) (omega arith))

mok_new_payload-encode :
    (der : Bytes)
    → 44 + length der < 2 ^ 32
    → mok_new_payload der ≡ some (encode_all (mok_list der ∷ []) ++ [])
unfolding mok_new_payload encode_all
mok_new_payload-encode der h =
    let shape : ℕ → Bytes → Bytes = λ n t.
      efi_type_x509
      ++ ((le_bytes n ++ (le_bytes 0 ++ le_bytes (16 + length der))) ++ (zero_guid ++ t)) in
    let written : mok_new_payload der ≡ some (shape (28 + (16 + length der)) der) =
      rw
        (
          lt→ltb (28 + (16 + length der)) (2 ^ 32) (omega arith),
          lt→ltb (16 + length der) (2 ^ 32) (omega arith),
          mok_new_payload,
        )
        refl in
    let size : 28 + (16 + length der) ≡ list_size (mok_list der) =
      omega (arith, length-append der []) in
    let tail : der ≡ ((der ++ []) ++ []) ++ [] = sym (simp append-nil) in
    written ∙ ap₂ (λ (n : ℕ) (t : Bytes). some (shape n t)) size tail

-- Behind any four attribute bytes, a certificate that is not empty is found in its payload.
pub mok_payload_found :
    (der attributes payload : Bytes)
    → 0 < length der
    → length attributes ≡ 4
    → mok_new_payload der ≡ some payload
    → is_cert_in_signature_list der (attributes ++ payload) ≡ some true
mok_payload_found der attributes payload some_cert four h =
    let fits : 44 + length der < 2 ^ 32 = mok_new_payload-fits der payload h in
    let same : payload ≡ encode_all (mok_list der ∷ []) ++ [] =
      some-injective _ _ (sym h ∙ mok_new_payload-encode der fits) in
    rw same (
      is_cert_in_signature_list-encode_all der attributes [] (mok_list der ∷ []) four (omega arith)
        (mok_list-IsWellFormed der fits, tt)
      ∙ ap some (holds-mok_list der some_cert))

abbrev pub Works : Chattr → Type 0
Works chattr =
    (flag : Bool) (path : String) (fs : Files) → chattr flag path fs ≡ some (mark flag path fs)

pub Works-IsChattr : (chattr : Chattr) → Works chattr → IsChattr chattr
Works-IsChattr chattr works flag path fs = inr (works flag path fs)

-- A password without surrogates has an encoding.
utf16_le-encodable :
    (password : List ℕ)
    → all is_encodable password ≡ true
    → (bytes : Bytes) × (utf16_le password ≡ some bytes)
unfolding utf16_le all
utf16_le-encodable [] h = ([], refl)
utf16_le-encodable (c ∷ cs) h =
    let first : is_encodable c ≡ true = ground (arith, h) in
    let (bytes, e) = utf16_le-encodable cs (ground (arith, h)) in
    (utf16_units c ++ bytes, rw (e, first) refl)

mok_auth_hash-encodable :
    (sha256 : Bytes → Bytes) (list_data : Bytes) (password : List ℕ)
    → all is_encodable password ≡ true
    → (auth : Bytes) × (mok_auth_hash sha256 list_data password ≡ some auth)
unfolding mok_auth_hash
mok_auth_hash-encodable sha256 list_data password h =
    let (bytes, e) = utf16_le-encodable password h in (sha256 (list_data ++ bytes), rw e refl)

-- With a `chattr` that does not fail and a password without lone surrogates, a readable certificate
-- that is not empty and fits the size fields is staged without an error, and the search finds it in
-- the variable MokNew.
pub enroll_mok_key_found :
    (chattr : Chattr) (sha256 : Bytes → Bytes)
    → Works chattr
    → (der : String) (password : List ℕ) (fs : Files) (file : File) → Dict.lookup der fs ≡ some file
    → 0 < length file.content
    → 44 + length file.content < 2 ^ 32
    → all is_encodable password ≡ true
    → let run = enroll_mok_key chattr sha256 der password fs in
      (f : File) × (run.0 ≡ ok tt)
      × (Dict.lookup (efivar_path "MokNew" efi_ns_shim) run.1 ≡ some f)
      × (is_cert_in_signature_list file.content f.content ≡ some true)
unfolding enroll_mok_key le_bytes
enroll_mok_key_found chattr sha256 works der password fs file there some_cert fits encodable =
    let law = Works-IsChattr chattr works in
    let payload = encode_all (mok_list file.content ∷ []) ++ [] in
    let made = mok_new_payload-encode file.content fits in
    let (auth, hashed) = mok_auth_hash-encodable sha256 payload password encodable in
    let (r, t) = write_efi_bytes chattr "MokNew" efi_ns_shim mok_attributes payload fs in
    let wrote =
      write_efi_bytes_returns chattr works "MokNew" efi_ns_shim mok_attributes payload fs
        (omega arith) in
    let wrote' =
      write_efi_bytes_returns chattr works "MokAuth" efi_ns_shim mok_attributes auth t
        (omega arith) in
    let stored =
      write_efi_bytes_stored chattr law "MokNew" efi_ns_shim mok_attributes payload fs t
        (ap (λ x. (x, t)) wrote) in
    let kept =
      write_efi_bytes_frame chattr law "MokAuth" efi_ns_shim mok_attributes auth t
        (efivar_path "MokNew" efi_ns_shim) refl in
    (
      record { content = le_bytes mok_attributes ++ payload; immutable = true },
      ground (arith, there, made, hashed, wrote, wrote'),
      ground (arith, there, made, hashed, wrote, stored.0, kept),
      mok_payload_found file.content (le_bytes mok_attributes) payload some_cert refl made,
    )

-- A boot loader update that returns leaves nothing for a second one to do.
pub update_systemd_boot_idem :
    (sha256 : Bytes → Bytes) (fs fs' : Files)
    → update_systemd_boot sha256 fs ≡ (ok tt, fs')
    → update_systemd_boot sha256 fs' ≡ (ok tt, fs')
unfolding update_systemd_boot
update_systemd_boot_idem sha256 fs fs' h = elim (Option-cases (Dict.lookup systemd_boot_new fs)) [
  | inl gone ↦ ground (arith, gone)
  | inr (n, e) ↦
      let file : File = record { content = n.content; immutable = false } in
      let once = Dict.insert bootloader_esp_systemd file fs in
      let at = λ (j : String). lookup-insert j bootloader_esp_systemd file fs in
      let at' = λ (j : String). lookup-insert j bootloader_esp_boot file once in
      ground (
        arith,
        e,
        at systemd_boot_new,
        at bootloader_esp_systemd,
        at bootloader_esp_boot,
        at' systemd_boot_new,
        at' bootloader_esp_systemd,
        at' bootloader_esp_boot,
        beq_self (sha256 n.content),
      )
]
