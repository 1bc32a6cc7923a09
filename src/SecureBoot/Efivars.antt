-- ===== src/SecureBoot/Efivars.antt =====
-- UEFI variables as files that may be marked immutable: `read_efivar`, `_write_efi_bytes`, and the
-- questions that are answered from them.
use secureblue.Base.{ℕ, ◌^◌, ◌<◌, arith}
use secureblue.Base.{◌≡◌, ap, ◌⊎◌}
use secureblue.Base.{Bool, true, false, if◌then◌else◌, ltb}
use secureblue.Base.{Option, none, some, [], ◌∷◌, ◌++◌, String, ◌<>◌}
use secureblue.Base.{◌==◌, nat_eq, string_eq, list_eq, beq_self}
use secureblue.Base.{drop}
use secureblue.Base.Dict
use secureblue.Base.Dict.{Dict}
use secureblue.Base.Exec.{Result, ok, err, Exec, pure, gets, or_raise, ◌>>=◌, ◌>>◌, when}
use text.Mathlib.TextEquality.{eq_iff}
use secureblue.Base.Dict.{lookup-insert}
use secureblue.SecureBoot.SignatureList.{Bytes}
use secureblue.SecureBoot.Encoding.{le_bytes}

abbrev pub efivars : String
efivars = "/sys/firmware/efi/efivars"

abbrev pub efi_ns_global : String
efi_ns_global = "8be4df61-93ca-11d2-aa0d-00e098032b8c"

abbrev pub efi_ns_security : String
efi_ns_security = "d719b2cb-3d3a-4596-a3bc-dad00e67656f"

abbrev pub efi_ns_shim : String
efi_ns_shim = "605dab50-e046-4300-abb6-3dd810dd8b23"

abbrev pub efi_ns_systemd : String
efi_ns_systemd = "4a67b082-0a4c-41cf-b6c7-440b29bb8c4f"

pub record File : Type 0 where
  pub content : Bytes
  pub immutable : Bool

abbrev pub Files : Type 0
Files = Dict String File

pub data Error : Type 0 where
  struct_error called_process_error permission_error index_error unicode_error : Error
  file_not_found : String → Error

abbrev pub efivar_path : String → String → String
efivar_path name ns_guid = efivars <> "/" <> name <> "-" <> ns_guid

-- `path.read_bytes()`
unfoldable pub read_bytes : String → Exec Files Error Bytes
unfolding Dict.lookup
read_bytes path fs = elim (Dict.lookup path fs) [
  | none ↦ (err (file_not_found path), fs)
  | some f ↦ (ok f.content, fs)
]

-- `path.write_bytes(data)`: the kernel refuses to write to an immutable file.
unfoldable pub write_bytes : String → Bytes → Exec Files Error (Unit {0})
unfolding Dict.lookup Dict.insert
write_bytes path content fs = elim (Dict.lookup path fs) [
  | none ↦ (ok tt, Dict.insert path (record { content = content; immutable = false }) fs)
  | some f ↦
      if f.immutable
      then (err permission_error, fs)
      else (ok tt, Dict.insert path (record { content = content; immutable = false }) fs)
]

unfoldable pub path_exists : String → Files → Bool
unfolding Dict.lookup
path_exists path fs = elim (Dict.lookup path fs) [ none ↦ false | some f ↦ true ]

-- `struct.pack("<I", n)`
unfoldable pub pack_uint32 : ℕ → Option Bytes
unfolding le_bytes
pack_uint32 n = if ltb n (2 ^ 32) then some (le_bytes n) else none

unfoldable pub read_efivar : String → String → Exec Files Error Bytes
unfolding read_bytes
read_efivar name ns_guid = do content ← read_bytes (efivar_path name ns_guid); pure (drop 4 content)

-- The first byte of the data; an empty variable is an IndexError, a missing one means no.
unfoldable pub first_byte_is_1 : Bytes → Result Error Bool
first_byte_is_1 [] = err index_error
first_byte_is_1 (b ∷ _) = ok (b == 1)

unfoldable pub flag_of : Result Error Bytes → Result Error Bool
unfolding first_byte_is_1
flag_of (ok bytes) = first_byte_is_1 bytes
flag_of (err (file_not_found _)) = ok false
flag_of (err e) = err e

unfoldable pub is_secure_boot_enabled : Files → Result Error Bool
unfolding flag_of read_efivar
is_secure_boot_enabled fs = flag_of (read_efivar "SecureBoot" efi_ns_global fs).0

unfoldable pub is_setup_mode_enabled : Files → Result Error Bool
unfolding flag_of read_efivar
is_setup_mode_enabled fs = flag_of (read_efivar "SetupMode" efi_ns_global fs).0

unfoldable pub is_shim_system : Files → Bool
unfolding path_exists
is_shim_system = path_exists (efivar_path "MokListRT" efi_ns_shim)

-- `/usr/bin/chattr` with `-i` (false) or `+i` (true); `none` is a nonzero exit status.
abbrev pub Chattr : Type 0
Chattr = Bool → String → Files → Option Files

-- What its manual promises: the attribute of that file, and nothing else, is changed.
unfoldable pub mark : Bool → String → Files → Files
mark flag path [] = []
mark flag path ((p, f) ∷ fs) =
    let rest = mark flag path fs in
    if path == p then (p, record f { immutable = flag }) ∷ rest else (p, f) ∷ rest

abbrev pub IsChattr : Chattr → Type 0
IsChattr chattr =
    (flag : Bool) (path : String) (fs : Files)
    → (chattr flag path fs ≡ none) ⊎ (chattr flag path fs ≡ some (mark flag path fs))

module _ (chattr : Chattr) where
  unfoldable pub run_chattr : Bool → String → Exec Files Error (Unit {0})
  run_chattr flag path fs = elim (chattr flag path fs) [
    | none ↦ (err called_process_error, fs)
    | some fs' ↦ (ok tt, fs')
  ]

  unfoldable pub write_efi_bytes : String → String → ℕ → Bytes → Exec Files Error (Unit {0})
  unfolding pack_uint32 path_exists run_chattr write_bytes
  write_efi_bytes variable ns_guid attributes payload = do
    let path = efivar_path variable ns_guid
    attribute_bytes ← or_raise struct_error (pack_uint32 attributes)
    exists ← gets (path_exists path)
    when exists (run_chattr false path)
    write_bytes path (attribute_bytes ++ payload)
    run_chattr true path

pub lookup-mark :
    (j path : String) (flag : Bool) (fs : Files)
    → Dict.lookup j (mark flag path fs) ≡ (
        if path == j
        then elim (Dict.lookup j fs) [ none ↦ none | some f ↦ some (record f { immutable = flag }) ]
        else Dict.lookup j fs)
unfolding mark Dict.lookup
lookup-mark j path flag [] = ground arith
lookup-mark j path flag ((p, f) ∷ fs) =
    ground (arith, lookup-mark j path flag fs, eq_iff path j, eq_iff path p, eq_iff j p)

-- A write that returns leaves exactly the attributes and the payload, in an immutable file, and
-- every other variable as it was.
pub write_efi_bytes_stored :
    (chattr : Chattr)
    → IsChattr chattr
    → (variable ns_guid : String) (attributes : ℕ) (payload : Bytes) (fs fs' : Files)
    → write_efi_bytes chattr variable ns_guid attributes payload fs ≡ (ok tt, fs')
    → (Dict.lookup (efivar_path variable ns_guid) fs'
        ≡ some (record { content = le_bytes attributes ++ payload; immutable = true }))
      × ((j : String)
          → (efivar_path variable ns_guid == j) ≡ false
          → Dict.lookup j fs' ≡ Dict.lookup j fs)
unfolding write_efi_bytes
write_efi_bytes_stored chattr law variable ns attributes payload fs fs' h =
    let path = efivar_path variable ns in
    let file : File = record { content = le_bytes attributes ++ payload; immutable = false } in
    let over = Dict.insert path file (mark false path fs) in
    let new = Dict.insert path file fs in
    (
      ground (
        arith,
        law false path fs,
        law true path over,
        law true path new,
        lookup-mark path path false fs,
        lookup-mark path path true over,
        lookup-mark path path true new,
        lookup-insert path path file fs,
        lookup-insert path path file (mark false path fs),
        beq_self path,
      ),
      λ j ne. ground (
        arith,
        law false path fs,
        law true path over,
        law true path new,
        lookup-mark j path false fs,
        lookup-mark j path true over,
        lookup-mark j path true new,
        lookup-insert j path file fs,
        lookup-insert j path file (mark false path fs),
        eq_iff j path,
        eq_iff path j,
      ),
    )

pub write_efi_bytes_frame :
    (chattr : Chattr)
    → IsChattr chattr
    → (variable ns_guid : String) (attributes : ℕ) (payload : Bytes) (fs : Files) (j : String)
    → (efivar_path variable ns_guid == j) ≡ false
    → Dict.lookup j (write_efi_bytes chattr variable ns_guid attributes payload fs).1
      ≡ Dict.lookup j fs
unfolding write_efi_bytes
write_efi_bytes_frame chattr law variable ns attributes payload fs j ne =
    let path = efivar_path variable ns in
    let file : File = record { content = le_bytes attributes ++ payload; immutable = false } in
    let over = Dict.insert path file (mark false path fs) in
    let new = Dict.insert path file fs in
    ground (
      arith,
      law false path fs,
      law true path over,
      law true path new,
      lookup-mark j path false fs,
      lookup-mark j path true over,
      lookup-mark j path true new,
      lookup-insert j path file fs,
      lookup-insert j path file (mark false path fs),
      eq_iff j path,
      eq_iff path j,
    )

-- With a `chattr` that does not fail, a write returns.
pub write_efi_bytes_returns :
    (chattr : Chattr)
    → ((flag : Bool) (path : String) (fs : Files) → chattr flag path fs ≡ some (mark flag path fs))
    → (variable ns_guid : String) (attributes : ℕ) (payload : Bytes) (fs : Files)
    → attributes < 2 ^ 32
    → (write_efi_bytes chattr variable ns_guid attributes payload fs).0 ≡ ok tt
unfolding write_efi_bytes
write_efi_bytes_returns chattr law variable ns attributes payload fs h =
    let path = efivar_path variable ns in
    let file : File = record { content = le_bytes attributes ++ payload; immutable = false } in
    let over = Dict.insert path file (mark false path fs) in
    let new = Dict.insert path file fs in
    ground (
      arith,
      law false path fs,
      law true path over,
      law true path new,
      lookup-mark path path false fs,
      beq_self path,
    )

pub write_efi_bytes_content :
    (chattr : Chattr)
    → IsChattr chattr
    → (variable ns_guid : String) (attributes : ℕ) (payload : Bytes) (fs : Files)
    → let run = write_efi_bytes chattr variable ns_guid attributes payload fs in
      run.0 ≡ ok tt
      → Dict.lookup (efivar_path variable ns_guid) run.1
        ≡ some (record { content = le_bytes attributes ++ payload; immutable = true })
write_efi_bytes_content chattr law variable ns attributes payload fs h =
    let run = write_efi_bytes chattr variable ns attributes payload fs in
    (write_efi_bytes_stored chattr law variable ns attributes payload fs run.1
      (ap (λ r. (r, run.1)) h)).0
