-- ===== src/SecureBoot/Encoding.antt =====
-- Well-formed signature databases, their encoding, and where its fields stand.
use secureblue.Base.{ℕ, ◌+◌, ◌-◌, ◌*◌, ◌/◌, ◌%◌, ◌^◌, ◌<◌, arith}
use secureblue.Base.{◌≡◌, refl, ap, ◌∙◌}
use secureblue.Base.{Bool, ◌&&◌, ◌||◌, ltb}
use secureblue.Base.{List, [], ◌∷◌, ◌++◌}
use secureblue.Base.{◌==◌, nat_eq, string_eq, list_eq, list_beq}
use secureblue.Base.{
  length, take, drop, slice, any, length-append, drop-append, take-append, slice-middle,
}
use mathlib.Core.Path.{ap₂}
use native.Mathlib.Nat.{div-eq_of_lt-le}
use mathlib.Core.List.{append_assoc}
use secureblue.Base.{drop-append_le, length-drop}
use secureblue.SecureBoot.SignatureList.{Bytes, efi_type_x509, uint32_of, uint32_at, offsets, range}

-- `struct.pack("<I", n)` for an n below 2 ^ 32
unfoldable pub le_bytes : ℕ → Bytes
le_bytes n = n % 256 ∷ n / 256 % 256 ∷ n / 65536 % 256 ∷ n / 16777216 % 256 ∷ []

pub uint32_of-le_bytes : (n : ℕ) → n < 2 ^ 32 → uint32_of (le_bytes n) ≡ n
unfolding uint32_of le_bytes
uint32_of-le_bytes n h = omega arith

-- One EFI_SIGNATURE_LIST: each entry is an owner GUID with a certificate.
pub record SigList : Type 0 where
  pub signature_type : Bytes
  pub header : Bytes
  pub signature_size : ℕ
  pub entries : List Bytes

abbrev pub concat : List Bytes → Bytes
concat [] = []
concat (e ∷ es) = e ++ concat es

abbrev pub AllSized : ℕ → List Bytes → Type 0
AllSized n [] = Unit {0}
AllSized n (e ∷ es) = (length e ≡ n) × AllSized n es

abbrev pub list_size : SigList → ℕ
list_size l = 28 + length l.header + length (concat l.entries)

pub record IsWellFormed (l : SigList) : Type 0 where
  pub guid : length l.signature_type ≡ 16
  pub sized : AllSized l.signature_size l.entries
  pub fits : list_size l < 2 ^ 32
  pub size_fits : l.signature_size < 2 ^ 32

abbrev pub AllWellFormed : List SigList → Type 0
AllWellFormed [] = Unit {0}
AllWellFormed (l ∷ ls) = IsWellFormed l × AllWellFormed ls

-- The bytes behind the three size fields.
unfoldable pub body : SigList → Bytes
body l = l.header ++ concat l.entries

unfoldable pub encode : SigList → Bytes
unfolding body le_bytes
encode l =
    l.signature_type
    ++ (le_bytes (list_size l)
        ++ (le_bytes (length l.header) ++ (le_bytes l.signature_size ++ body l)))

unfoldable pub encode_all : List SigList → Bytes
unfolding encode
encode_all [] = []
encode_all (l ∷ ls) = encode l ++ encode_all ls

-- The abstract question: is `der` the certificate of an entry of an X.509 list?
unfoldable pub holds : Bytes → SigList → Bool
unfolding list_beq any
holds der l =
    (l.signature_type == efi_type_x509)
    && ltb 16 l.signature_size
    && any (λ e. drop 16 e == der) l.entries

pub length-concat : (n : ℕ) (es : List Bytes) → AllSized n es → length (concat es) ≡ length es * n
length-concat n [] h = omega arith
length-concat n (e ∷ es) h = grind (arith, length-append e (concat es), length-concat n es h.1)

pub length-le_bytes : (n : ℕ) → length (le_bytes n) ≡ 4
unfolding le_bytes
length-le_bytes n = refl

-- A number that stands at a known place is read back.
pub uint32_at-middle :
    (pre rest : Bytes) (n i : ℕ)
    → n < 2 ^ 32
    → i ≡ length pre
    → uint32_at (pre ++ (le_bytes n ++ rest)) i ≡ n
unfolding uint32_at
uint32_at-middle pre rest n i h e =
    ap uint32_of (slice-middle pre (le_bytes n) rest i (i + 4) e (omega (arith, length-le_bytes n)))
    ∙ uint32_of-le_bytes n h

pub slice-entry :
    (pre x rest : Bytes) (n start : ℕ)
    → length x ≡ n
    → 16 < n
    → start ≡ length pre
    → slice (pre ++ (x ++ rest)) (start + 16) (start + n) ≡ drop 16 x
unfolding slice
slice-entry pre x rest n start h p e =
    ap (take (start + n - (start + 16))) (
      drop-append pre (x ++ rest) (start + 16) 16 (omega arith)
      ∙ drop-append_le 16 x rest (omega arith))
    ∙ take-append (drop 16 x) rest _ (omega (arith, length-drop 16 x))

-- The entries lie at the offsets that the inner loop visits.
pub any-offsets :
    (der pre b : Bytes) (es : List Bytes) (rest : Bytes) (n start : ℕ)
    → AllSized n es
    → 16 < n
    → start ≡ length pre
    → b ≡ pre ++ (concat es ++ rest)
    → any (λ o. slice b (o + 16) (o + n) == der) (offsets (length es) start n)
      ≡ any (λ e. drop 16 e == der) es
unfolding any offsets
any-offsets der pre b [] rest n start h p e q = refl
any-offsets der pre b (x ∷ es) rest n start h p e q =
    let split : b ≡ pre ++ (x ++ (concat es ++ rest)) = q ∙ simp append_assoc in
    let here : slice b (start + 16) (start + n) ≡ drop 16 x =
      rw split (slice-entry pre x (concat es ++ rest) n start h.0 p e) in
    ap₂ (λ (s : Bytes) (r : Bool). (s == der) || r) here
      (any-offsets der (pre ++ x) b es rest n (start + n) h.1 p
        (omega (arith, length-append pre x, h.0)) (split ∙ simp append_assoc))

pub rounds_exact : (k n : ℕ) → 0 < n → (k * n + (n - 1)) / n ≡ k
rounds_exact k n h = div-eq_of_lt-le _ (omega arith) (grind arith)

pub range-entries :
    (l : SigList) (offset : ℕ)
    → IsWellFormed l
    → 16 < l.signature_size
    → range (offset + 28 + length l.header) (offset + list_size l) l.signature_size
      ≡ offsets (length l.entries) (offset + 28 + length l.header) l.signature_size
unfolding range
range-entries l offset w h =
    ap (λ k. offsets k (offset + 28 + length l.header) l.signature_size)
      (ap (λ t. (t + (l.signature_size - 1)) / l.signature_size)
          (omega (arith, length-concat l.signature_size l.entries w.sized))
        ∙ rounds_exact (length l.entries) l.signature_size (omega arith))

pub encode_type :
    (pre rest : Bytes) (l : SigList)
    → pre ++ (encode l ++ rest)
      ≡ pre
        ++ (l.signature_type
            ++ (le_bytes (list_size l)
                ++ (le_bytes (length l.header) ++ (le_bytes l.signature_size ++ (body l ++ rest)))))
unfolding encode
encode_type pre rest l = simp append_assoc

-- The entries of a list in a database, with all that stands before and behind them.
pub encode-entries :
    (pre rest : Bytes) (l : SigList)
    → pre ++ (encode l ++ rest)
      ≡ (pre
          ++ (l.signature_type
              ++ (le_bytes (list_size l)
                  ++ (le_bytes (length l.header) ++ (le_bytes l.signature_size ++ l.header)))))
        ++ (concat l.entries ++ rest)
unfolding encode
encode-entries pre rest l = simp append_assoc

pub type_slice :
    (pre rest : Bytes) (l : SigList)
    → IsWellFormed l
    → slice (pre ++ (encode l ++ rest)) (length pre) (length pre + 16) ≡ l.signature_type
type_slice pre rest l w =
    rw (encode_type pre rest l)
      (slice-middle pre l.signature_type _ _ _ refl (omega (arith, w.guid)))
