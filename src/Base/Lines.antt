-- ===== src/Base/Lines.antt =====
-- Lines that a program prints, read back by `stdout.strip()` and `splitlines`.
use secureblue.Base.{arith, ℕ, ◌≡◌, refl, ap, ◌∙◌}
use secureblue.Base.{Bool, true, false, not, ◌&&◌, ◌||◌}
use secureblue.Base.{List, [], ◌∷◌, ◌++◌}
use secureblue.Base.{◌==◌, nat_eq, list_eq, list_beq, list_beq_iff, all, Str, is_space}
use secureblue.Base.{lstrip, rstrip, strip, split_lines}

-- What `print` writes for each line.
unfoldable pub unlines : List Str → Str
unlines [] = []
unlines (l ∷ ls) = l ++ (10 ∷ unlines ls)

-- The characters at which `splitlines` ends a line.
abbrev pub is_break : ℕ → Bool
is_break c =
    c == 10
    || (c == 11
        || (c == 12
            || (c == 13
                || (c == 28 || (c == 29 || (c == 30 || (c == 133 || (c == 8232 || c == 8233))))))))

abbrev pub no_break : Str → Bool
no_break s = all (λ c. not (is_break c)) s

-- One line, not empty and with no blanks at its end.
abbrev pub is_line : Str → Bool
is_line l = not (l == []) && (no_break l && rstrip l == l)

split_lines-append :
    (l s : Str) → no_break l ≡ true → split_lines (l ++ (10 ∷ s)) ≡ l ∷ split_lines s
unfolding split_lines all
split_lines-append [] s h = refl
split_lines-append (c ∷ l) s h =
    let ih = split_lines-append l s (ground arith) in
    let ne : (c == 10) ≡ false = ground (arith, h) in rw (ih, ne) refl

split_lines-line : (c : ℕ) (l : Str) → no_break (c ∷ l) ≡ true → split_lines (c ∷ l) ≡ (c ∷ l) ∷ []
unfolding split_lines all
split_lines-line c [] h = let ne : (c == 10) ≡ false = ground (arith, h) in rw ne refl
split_lines-line c (d ∷ l) h =
    let ih = split_lines-line d l (ground arith) in
    let ne : (c == 10) ≡ false = ground (arith, h) in rw (ih, ne) refl

rstrip-append : (s t : Str) → (rstrip t == []) ≡ false → rstrip (s ++ t) ≡ s ++ rstrip t
unfolding rstrip list_beq
rstrip-append [] t h = refl
rstrip-append (c ∷ []) t h = rw h refl
rstrip-append (c ∷ d ∷ s) t h = rw (rstrip-append (d ∷ s) t h) refl

rstrip-newline : (s : Str) → rstrip (s ++ (10 ∷ [])) ≡ rstrip s
unfolding rstrip
rstrip-newline [] = unfold is_space list_beq in refl
rstrip-newline (c ∷ s) = rw (rstrip-newline s) refl

rstrip-after-newline :
    (t : Str)
    → (rstrip t == []) ≡ false
    → (rstrip (10 ∷ t) ≡ 10 ∷ rstrip t) × ((rstrip (10 ∷ t) == []) ≡ false)
unfolding rstrip
rstrip-after-newline t h = rw h (refl, unfold list_beq in refl)

-- The lines are what `splitlines` finds in the text without its trailing blanks.
split_lines-rstrip :
    (l : Str) (ls : List Str)
    → all is_line (l ∷ ls) ≡ true
    → (split_lines (rstrip (unlines (l ∷ ls))) ≡ l ∷ ls)
      × ((rstrip (unlines (l ∷ ls)) == []) ≡ false)
unfolding unlines all
split_lines-rstrip [] ls h = absurd (unfold list_beq all in ground (arith, h))
split_lines-rstrip (c ∷ l) [] h =
    let e : rstrip (c ∷ l) ≡ c ∷ l =
      (list_beq_iff (rstrip (c ∷ l)) (c ∷ l)).0 (ground (arith, h)) in
    rw (rstrip-newline (c ∷ l), e)
      (split_lines-line c l (ground (arith, h)), unfold list_beq in refl)
split_lines-rstrip (c ∷ l) (m ∷ ms) h =
    let t = unlines (m ∷ ms) in
    let (found, more) = split_lines-rstrip m ms (ground (arith, h)) in
    let (e, ne) = rstrip-after-newline t more in
    let shown : rstrip ((c ∷ l) ++ (10 ∷ t)) ≡ (c ∷ l) ++ (10 ∷ rstrip t) =
      rstrip-append (c ∷ l) (10 ∷ t) ne ∙ ap (λ r. (c ∷ l) ++ r) e in
    rw shown (
      split_lines-append (c ∷ l) (rstrip t) (ground (arith, h)) ∙ ap (λ r. (c ∷ l) ∷ r) found,
      unfold list_beq in refl,
    )

lstrip-text : (c : ℕ) (s : Str) → is_space c ≡ false → lstrip (c ∷ s) ≡ c ∷ s
unfolding lstrip
lstrip-text c s e = rw (e, lstrip) refl

-- Lines that a program prints, the first of which starts with no blank, are read back.
pub split_lines-strip :
    (c : ℕ) (l : Str) (ls : List Str)
    → is_space c ≡ false
    → all is_line ((c ∷ l) ∷ ls) ≡ true
    → split_lines (strip (unlines ((c ∷ l) ∷ ls))) ≡ (c ∷ l) ∷ ls
unfolding strip unlines
split_lines-strip c l ls e h =
    ap (λ s. split_lines (rstrip s)) (lstrip-text c (l ++ (10 ∷ unlines ls)) e)
    ∙ (split_lines-rstrip (c ∷ l) ls h).0
