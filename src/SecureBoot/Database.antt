-- ===== src/SecureBoot/Database.antt =====
-- What an EFI_SIGNATURE_LIST database holds, and that the walk over its bytes finds exactly that.
use secureblue.Base.{ℕ, zero, suc, ◌+◌, ◌≤◌, ◌<◌, arith}
use secureblue.Base.{◌≡◌, refl, sym, ap, ◌∙◌, inl, inr}
use secureblue.Base.{Bool, true, ◌&&◌, if◌then◌else◌, ltb, Bool-cases}
use secureblue.Base.{some, List, [], ◌∷◌, ◌++◌}
use secureblue.Base.{◌==◌, nat_eq, string_eq, list_eq}
use secureblue.Base.{length, slice, any, length-append, drop-append}
use mathlib.Core.Path.{ap₂}
use mathlib.Core.List.{append_assoc}
use secureblue.Base.{ltb→lt, le→leb, lt→leb}
use secureblue.SecureBoot.SignatureList.{Bytes, efi_type_x509, uint32_at}
use secureblue.SecureBoot.SignatureList.{list_has_cert, scan_lists, is_cert_in_signature_list}
use secureblue.SecureBoot.SignatureList.{is_cert_in_signature_list_lem}
use secureblue.SecureBoot.Encoding.{
  le_bytes, SigList, list_size, IsWellFormed, AllWellFormed, body, encode, encode_all, holds,
  uint32_at-middle, any-offsets, range-entries, encode_type, encode-entries, type_slice,
}

-- One list in the middle of a database: the inner loop answers the abstract question.
list_has_cert-holds :
    (der pre rest : Bytes) (l : SigList)
    → IsWellFormed l
    → list_has_cert
        (pre ++ (encode l ++ rest))
        der
        (length pre)
        (list_size l)
        (length l.header)
        l.signature_size
      ≡ holds der l
unfolding list_has_cert holds encode
list_has_cert-holds der pre rest l w = elim (Bool-cases (ltb 16 l.signature_size)) [
  | inl big ↦ rw big (
      ap₂ (λ (s : Bytes) (r : Bool). (s == efi_type_x509) && true && r) (type_slice pre rest l w)
        (ap (any λ o. slice (pre ++ (encode l ++ rest)) (o + 16) (o + l.signature_size) == der)
            (range-entries l (length pre) w (ltb→lt _ _ big))
          ∙ any-offsets der _ _ l.entries rest l.signature_size _ w.sized (ltb→lt _ _ big)
              (omega (arith, length-append {0}, w.guid)) (encode-entries pre rest l)))
  | inr small ↦ rw small (ground (arith, type_slice pre rest l w))
]

-- The three numbers that the loop unpacks.
read_sizes :
    (pre rest : Bytes) (l : SigList)
    → IsWellFormed l
    → let b : Bytes = pre ++ (encode l ++ rest) in
      (uint32_at b (length pre + 16) ≡ list_size l)
      × (uint32_at b (length pre + 20) ≡ length l.header)
      × (uint32_at b (length pre + 24) ≡ l.signature_size)
unfolding le_bytes
read_sizes pre rest l w =
    let t = l.signature_type in
    let a = le_bytes (list_size l) in
    let c = le_bytes (length l.header) in
    let d = le_bytes l.signature_size in
    rw (encode_type pre rest l) (
      rw (sym (append_assoc pre t (a ++ (c ++ (d ++ (body l ++ rest)))))) (
          uint32_at-middle (pre ++ t) _ (list_size l) _ w.fits
            (omega (arith, length-append {0}, w.guid))),
      rw
          (
            sym (append_assoc pre t (a ++ (c ++ (d ++ (body l ++ rest))))),
            sym (append_assoc (pre ++ t) a (c ++ (d ++ (body l ++ rest)))),
          )
          (uint32_at-middle ((pre ++ t) ++ a) _ (length l.header) _ (omega (arith, w.fits))
            (omega (arith, length-append {0}, w.guid))),
      rw
          (
            sym (append_assoc pre t (a ++ (c ++ (d ++ (body l ++ rest))))),
            sym (append_assoc (pre ++ t) a (c ++ (d ++ (body l ++ rest)))),
            sym (append_assoc ((pre ++ t) ++ a) c (d ++ (body l ++ rest))),
          )
          (uint32_at-middle (((pre ++ t) ++ a) ++ c) _ l.signature_size _ w.size_fits
            (omega (arith, length-append {0}, w.guid))),
    )

length-encode : (l : SigList) → IsWellFormed l → length (encode l) ≡ list_size l
unfolding encode
length-encode l w = omega (arith, length-append {0}, w.guid)

-- One round of the loop, by the sizes that it reads.
scan-step :
    (fuel : ℕ) (b der : Bytes) (offset size header sig : ℕ)
    → offset + 28 ≤ length b
    → 0 < size
    → uint32_at b (offset + 16) ≡ size
    → uint32_at b (offset + 20) ≡ header
    → uint32_at b (offset + 24) ≡ sig
    → scan_lists (suc fuel) b der offset ≡ (
        if list_has_cert b der offset size header sig
        then some true
        else scan_lists fuel b der (offset + size))
unfolding scan_lists
scan-step fuel b der offset size header sig h p es eh en =
    rw (es, eh, en, le→leb (offset + 28) (length b) h) (ground arith)

scan_here :
    (fuel : ℕ) (der pre b junk : Bytes) (l : SigList) (ls : List SigList)
    → IsWellFormed l
    → scan_lists fuel b der (length (pre ++ encode l)) ≡ some (any (holds der) ls)
    → scan_lists fuel b der (length pre + list_size l) ≡ some (any (holds der) ls)
scan_here fuel der pre b junk l ls w h =
    let e : length (pre ++ encode l) ≡ length pre + list_size l =
      omega (arith, length-append pre (encode l), length-encode l w) in
    rw e at h

scan-holds :
    (fuel : ℕ) (der pre b junk : Bytes) (ls : List SigList)
    → 0 < fuel
    → length b < fuel + length pre
    → length junk < 28
    → AllWellFormed ls
    → b ≡ pre ++ (encode_all ls ++ junk)
    → scan_lists fuel b der (length pre) ≡ some (any (holds der) ls)
unfolding scan_lists encode_all any
scan-holds zero der pre b junk ls p h j w e = absurd (omega arith)
scan-holds (suc fuel) der pre b junk [] p h j w e =
    rw (lt→leb (length pre + 28) (length b) (omega (arith, ap length e, length-append pre junk)))
scan-holds (suc fuel) der pre b junk (l ∷ ls) p h j (w, ws) e =
    let rest = encode_all ls ++ junk in
    let split : b ≡ pre ++ (encode l ++ rest) = e ∙ simp append_assoc in
    let (es, eh, en) = read_sizes pre rest l w in
    let grown : length b ≡ length pre + (list_size l + length rest) =
      omega (arith, ap length split, length-append {0}, length-encode l w) in
    let found : list_has_cert b der (length pre) (list_size l) (length l.header) l.signature_size
        ≡ holds der l =
      rw split (list_has_cert-holds der pre rest l w) in
    ground (
      arith,
      scan-step fuel b der (length pre) (list_size l) (length l.header) l.signature_size
          (omega arith) (omega arith) (rw split es) (rw split eh) (rw split en),
      found,
      scan_here fuel der pre b junk l ls w (
          scan-holds fuel der (pre ++ encode l) b junk ls (omega arith)
            (omega (arith, length-append pre (encode l), length-encode l w)) j ws
            (split ∙ simp append_assoc)),
    )

-- Behind the four attribute bytes stands a database of well-formed lists, and less than a list's
-- header behind those: the search answers whether an X.509 list among them has an entry whose
-- certificate, which is all that follows the owner GUID, is `der_bytes`.
pub is_cert_in_signature_list-encode_all :
    (der_bytes attributes junk : Bytes) (ls : List SigList)
    → length attributes ≡ 4
    → length junk < 28
    → AllWellFormed ls
    → is_cert_in_signature_list der_bytes (attributes ++ (encode_all ls ++ junk))
      ≡ some (any (holds der_bytes) ls)
is_cert_in_signature_list-encode_all der attributes junk ls four short w =
    rw
      (
        is_cert_in_signature_list_lem,
        drop-append attributes (encode_all ls ++ junk) 4 0 (omega arith),
      )
      (scan-holds (suc (length (encode_all ls ++ junk))) der [] (encode_all ls ++ junk) junk ls
        (omega arith) (omega arith) short w refl)
