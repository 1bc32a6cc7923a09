-- ===== src/Utils/Segments.antt =====
-- What the parser of the kernel command line does with one argument that is printed.
use secureblue.Base.{arith}
use secureblue.Base.{◌≡◌, refl, ap, ◌∙◌}
use secureblue.Base.{true, false}
use secureblue.Base.{Option, none, some, List, [], ◌∷◌, ◌++◌}
use secureblue.Base.{◌==◌, nat_eq, string_eq, list_eq, list_beq}
use secureblue.Base.{all}
use mathlib.Core.List.{append_assoc}
use secureblue.Base.Dict.{lookup-insert}
use secureblue.Base.Dict
use secureblue.Base.Dict.{Dict}
use secureblue.Base.{Str, is_space}
use secureblue.Base.Words.{split_on, words, replace_char, lacks, no_space}
use secureblue.Base.Words.{split_on-append}
use secureblue.Utils.KernelCmdline.{Kargs, add_words}
use secureblue.Utils.KernelCmdline.{ends_with_equals, parse_segments}
use secureblue.Utils.Arguments.{
  flag, plain, quoted, is_printable, ends_with_equals-key, parse_karg-flag, parse_karg-plain,
  split_on-cons, split_on-prefix, after_word, segment-word, segment-space, insert-insert, words-key,
  no_space-append, lacks-append, add_words-one,
}

-- One round of the loop over a first segment that a quoted one follows.
pub parse_segments-quoted :
    (u q : Str) (rest : List Str) (st : Str × Kargs)
    → ends_with_equals u ≡ true
    → let (key, m) = add_words (words u) st in
      parse_segments true st (u ∷ q ∷ rest)
      ≡ parse_segments false (key, Dict.insert key (some q) m) rest
unfolding parse_segments
parse_segments-quoted u q rest (key, m) h = rw h refl

-- The segment before an opening quote, which is the key and its `=`, and the quoted one.
pub segment-quoted :
    (k v s : Str) (ss : List Str) (st : Str × Kargs)
    → no_space k ≡ true
    → lacks b'=' k ≡ true
    → (k == []) ≡ false
    → parse_segments true st ((k ++ (b'=' ∷ [])) ∷ v ∷ (32 ∷ s) ∷ ss)
      ≡ parse_segments true
          (replace_char b'-' b'_' k, Dict.insert (replace_char b'-' b'_' k) (some v) st.1)
          (s ∷ ss)
segment-quoted k v s ss st h e ne =
    let w = k ++ (b'=' ∷ []) in
    let n = replace_char b'-' b'_' k in
    let h' : no_space w ≡ true =
      no_space-append k (b'=' ∷ []) ∙ rw h (unfold no_space all is_space in refl) in
    let word : add_words (words w) st ≡ (n, Dict.insert n (some []) st.1) =
      ap (λ ws. add_words ws st) (words-key w h' (key-equals k))
      ∙ (add_words-one w st
          ∙ ap (λ (p : Str × Option Str). (p.0, Dict.insert p.0 p.1 st.1))
              (parse_karg-plain k [] e)) in
    parse_segments-quoted w v ((32 ∷ s) ∷ ss) st (ends_with_equals-key k)
    ∙ (ap
          (λ (p : Str × Kargs).
            parse_segments false (p.0, Dict.insert p.0 (some v) p.1) ((32 ∷ s) ∷ ss))
          word
        ∙ (ap (λ m. parse_segments false (n, m) ((32 ∷ s) ∷ ss))
              (insert-insert n (some v) (some []) st.1)
            ∙ segment-space s ss _))
  where
    key-equals : (j : Str) → (j ++ (b'=' ∷ []) == []) ≡ false
    key-equals [] = unfold list_beq in refl
    key-equals (c ∷ j) = unfold list_beq in refl

pub split_on-space :
    (w t s : Str) (ss : List Str)
    → lacks b'"' w ≡ true
    → split_on b'"' t ≡ s ∷ ss
    → split_on b'"' (w ++ (32 ∷ t)) ≡ (w ++ (32 ∷ s)) ∷ ss
split_on-space w t s ss q e =
    split_on-prefix b'"' w (32 ∷ t) (32 ∷ s) ss q
      (split_on-prefix b'"' (32 ∷ []) t s ss (unfold lacks all in refl) e)

pub segments-word :
    (w t : Str) (st : Str × Kargs)
    → no_space w ≡ true
    → (w == []) ≡ false
    → lacks b'"' w ≡ true
    → parse_segments true st (split_on b'"' (w ++ (32 ∷ t)))
      ≡ parse_segments true (after_word w st) (split_on b'"' t)
segments-word w t st h ne q =
    let (s, ss, e) = split_on-cons b'"' t in
    rw (split_on-space w t s ss q e, e) (segment-word w s ss st h ne)

abbrev pub set_key : Str → Option Str → Str × Kargs → Str × Kargs
set_key k v st = (replace_char b'-' b'_' k, Dict.insert (replace_char b'-' b'_' k) v st.1)

pub split_on-quoted :
    (k v t s : Str) (ss : List Str)
    → lacks b'"' k ≡ true
    → lacks b'"' v ≡ true
    → split_on b'"' t ≡ s ∷ ss
    → split_on b'"' ((k ++ (b'=' ∷ b'"' ∷ v ++ (b'"' ∷ []))) ++ (32 ∷ t))
      ≡ (k ++ (b'=' ∷ [])) ∷ v ∷ (32 ∷ s) ∷ ss
split_on-quoted k v t s ss hk hv e =
    let shape : (k ++ (b'=' ∷ b'"' ∷ v ++ (b'"' ∷ []))) ++ (32 ∷ t)
        ≡ (k ++ (b'=' ∷ [])) ++ (b'"' ∷ (v ++ (b'"' ∷ (32 ∷ t)))) =
      simp append_assoc in
    let left : lacks b'"' (k ++ (b'=' ∷ [])) ≡ true =
      lacks-append b'"' k (b'=' ∷ []) ∙ rw hk (unfold lacks all in refl) in
    ap (split_on b'"') shape
    ∙ (split_on-append b'"' (k ++ (b'=' ∷ [])) (v ++ (b'"' ∷ (32 ∷ t))) left
        ∙ ap (λ r. (k ++ (b'=' ∷ [])) ∷ r)
            (split_on-append b'"' v (32 ∷ t) hv
              ∙ ap (λ r. v ∷ r) (split_on-space [] t s ss (unfold lacks all in refl) e)))

pub segments-quoted :
    (k v t : Str) (st : Str × Kargs)
    → is_printable (quoted k v) ≡ true
    → parse_segments true st (split_on b'"' ((k ++ (b'=' ∷ b'"' ∷ v ++ (b'"' ∷ []))) ++ (32 ∷ t)))
      ≡ parse_segments true (set_key k (some v) st) (split_on b'"' t)
segments-quoted k v t st h =
    let (s, ss, e) = split_on-cons b'"' t in
    rw (split_on-quoted k v t s ss (ground arith) (ground arith) e, e)
      (segment-quoted k v s ss st (ground arith) (ground arith) (ground arith))

pub segments-flag :
    (k t : Str) (st : Str × Kargs)
    → is_printable (flag k) ≡ true
    → parse_segments true st (split_on b'"' (k ++ (32 ∷ t)))
      ≡ parse_segments true (set_key k none st) (split_on b'"' t)
segments-flag k t st h =
    segments-word k t st (ground arith) (ground arith) (ground arith)
    ∙ ap
        (λ (p : Str × Option Str).
          parse_segments true (p.0, Dict.insert p.0 p.1 st.1) (split_on b'"' t))
        (parse_karg-flag k (ground arith))

pub segments-plain :
    (k v t : Str) (st : Str × Kargs)
    → is_printable (plain k v) ≡ true
    → parse_segments true st (split_on b'"' ((k ++ (b'=' ∷ v)) ++ (32 ∷ t)))
      ≡ parse_segments true (set_key k (some v) st) (split_on b'"' t)
segments-plain k v t st h =
    let spaces : no_space (k ++ (b'=' ∷ v)) ≡ true =
      no_space-append k (b'=' ∷ v) ∙ unfold no_space all is_space in ground arith in
    let quotes : lacks b'"' (k ++ (b'=' ∷ v)) ≡ true =
      lacks-append b'"' k (b'=' ∷ v) ∙ unfold lacks all in ground arith in
    segments-word (k ++ (b'=' ∷ v)) t st spaces (non_empty k v) quotes
    ∙ ap
        (λ (p : Str × Option Str).
          parse_segments true (p.0, Dict.insert p.0 p.1 st.1) (split_on b'"' t))
        (parse_karg-plain k v (ground arith))
  where
    non_empty : (j w : Str) → (j ++ (b'=' ∷ w) == []) ≡ false
    non_empty [] w = unfold list_beq in refl
    non_empty (c ∷ j) w = unfold list_beq in refl
