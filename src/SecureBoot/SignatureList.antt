-- ===== src/SecureBoot/SignatureList.antt =====
-- The walk over an EFI_SIGNATURE_LIST database, `is_cert_in_signature_list`.
use secureblue.Base.{ℕ, zero, suc, ◌+◌, ◌-◌, ◌*◌, ◌/◌, ◌<◌, arith}
use secureblue.Base.{◌≡◌, refl, ◌≢◌}
use secureblue.Base.{Bool, true, false, ◌&&◌, if◌then◌else◌, ltb, leb}
use secureblue.Base.{Option, none, some, List, [], ◌∷◌}
use secureblue.Base.{◌==◌, nat_eq, string_eq, list_eq, list_beq}
use secureblue.Base.{length, drop, slice, any}

abbrev pub Bytes : Type 0
Bytes = List ℕ

abbrev pub efi_uint32_size : ℕ
efi_uint32_size = 4

abbrev pub efi_guid_size : ℕ
efi_guid_size = 16

-- `uuid.UUID(EFI_TYPE_X509).bytes_le`
abbrev pub efi_type_x509 : Bytes
efi_type_x509 =
    0xa1 ∷ 0x59 ∷ 0xc0 ∷ 0xa5 ∷ 0xe4 ∷ 0x94 ∷ 0xa7 ∷ 0x4a ∷ 0x87 ∷ 0xb5 ∷ 0xab ∷ 0x15 ∷ 0x5c ∷ 0x2b
    ∷ 0xf0 ∷ 0x72 ∷ []

-- One field of `struct.unpack_from("<III", …)`: four bytes, lowest first.
unfoldable pub uint32_of : Bytes → ℕ
uint32_of (a ∷ b ∷ c ∷ d ∷ []) = a + 256 * (b + 256 * (c + 256 * d))
uint32_of _ = 0

unfoldable pub uint32_at : Bytes → ℕ → ℕ
unfolding uint32_of slice
uint32_at b i = uint32_of (slice b i (i + 4))

-- The members of `range(start, stop, step)`, by how many there are.
unfoldable pub offsets : ℕ → ℕ → ℕ → List ℕ
offsets zero start step = []
offsets (suc n) start step = start ∷ offsets n (start + step) step

unfoldable pub range : ℕ → ℕ → ℕ → List ℕ
unfolding offsets
range start stop step = offsets ((stop - start + (step - 1)) / step) start step

-- The body of the loop over one list: is a certificate among its entries?
unfoldable pub list_has_cert : Bytes → Bytes → ℕ → ℕ → ℕ → ℕ → Bool
unfolding range slice any list_beq
list_has_cert sig_list der_bytes list_offset sig_list_size sig_header_size sig_size =
    (slice sig_list list_offset (list_offset + efi_guid_size) == efi_type_x509)
    && ltb efi_guid_size sig_size
    && any
        (λ entry_offset.
          slice sig_list (entry_offset + efi_guid_size) (entry_offset + sig_size) == der_bytes)
        (range (list_offset + (efi_guid_size + efi_uint32_size * 3) + sig_header_size)
          (list_offset + sig_list_size) sig_size)

-- The `while` loop; `none` is no result of the code, but the end of the fuel.
unfoldable pub scan_lists : ℕ → Bytes → Bytes → ℕ → Option Bool
unfolding uint32_at list_has_cert
scan_lists zero sig_list der_bytes list_offset = none
scan_lists (suc fuel) sig_list der_bytes list_offset =
    let sig_list_size = uint32_at sig_list (list_offset + 16) in
    let sig_header_size = uint32_at sig_list (list_offset + 20) in
    let sig_size = uint32_at sig_list (list_offset + 24) in
    let rest = scan_lists fuel sig_list der_bytes (list_offset + sig_list_size) in
    if leb (list_offset + (efi_guid_size + efi_uint32_size * 3)) (length sig_list)
    then (if sig_list_size == 0
        then some false
        else if list_has_cert sig_list der_bytes list_offset sig_list_size sig_header_size sig_size
        then some true
        else rest)
    else some false

-- Each round moves the offset by a byte at least, so one round more than there are bytes is enough.
unfoldable pub is_cert_in_signature_list : Bytes → Bytes → Option Bool
unfolding scan_lists
is_cert_in_signature_list der_bytes efivar_bytes =
    let sig_list = drop efi_uint32_size efivar_bytes in
    scan_lists (suc (length sig_list)) sig_list der_bytes 0

pub is_cert_in_signature_list_lem :
    (der_bytes efivar_bytes : Bytes)
    → is_cert_in_signature_list der_bytes efivar_bytes
      ≡ scan_lists (suc (length (drop 4 efivar_bytes))) (drop 4 efivar_bytes) der_bytes 0
unfolding is_cert_in_signature_list
is_cert_in_signature_list_lem der_bytes efivar_bytes = refl

-- Any fuel that covers the bytes left lets the loop end by its own tests.
scan_lists-ne-none :
    (fuel : ℕ) (b der : Bytes) (offset : ℕ)
    → 0 < fuel
    → length b < fuel + offset
    → scan_lists fuel b der offset ≢ none
unfolding scan_lists
scan_lists-ne-none zero b der offset p h = absurd (omega arith)
scan_lists-ne-none (suc fuel) b der offset p h =
    ground (arith, scan_lists-ne-none fuel b der (offset + uint32_at b (offset + 16)))

-- On any two byte strings, well formed or not, the search ends with an answer.
pub is_cert_in_signature_list-ne-none :
    (der_bytes efivar_bytes : Bytes) → is_cert_in_signature_list der_bytes efivar_bytes ≢ none
unfolding is_cert_in_signature_list
is_cert_in_signature_list-ne-none der efivar =
    scan_lists-ne-none (suc (length (drop 4 efivar))) (drop 4 efivar) der 0 (omega arith)
      (omega arith)
