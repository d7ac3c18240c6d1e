-- ===== src/Fat/Disk/Cells.antt =====
-- The bytes of a volume from a place on, as a list.
use operating_system_fa_maf.Common.{
  ℕ, zero, suc, ◌+◌, ◌<◌, ◌≡◌, refl, sym, ap, ◌∙◌, List, [], ◌∷◌, ◌++◌, length, get_or, arith,
}

pub list-ext :
    (xs ys : List ℕ)
    → length xs ≡ length ys
    → ((j : ℕ) → j < length xs → get_or xs j 0 ≡ get_or ys j 0)
    → xs ≡ ys
list-ext [] [] e h = refl
list-ext [] (y ∷ ys) e h = absurd (omega (arith, e))
list-ext (x ∷ xs) [] e h = absurd (omega (arith, e))
list-ext (x ∷ xs) (y ∷ ys) e h =
    let head : x ≡ y = h 0 (omega arith) in
    let tail : xs ≡ ys = list-ext xs ys (omega (arith, e)) (λ j lt. h (suc j) (omega arith)) in
    rw (head, tail) refl

-- `n` bytes from a place on.
abbrev pub cells : (ℕ → ℕ) → (n offset : ℕ) → List ℕ
cells w zero offset = []
cells w (suc n) offset = w offset ∷ cells w n (suc offset)

pub length-cells : (w : ℕ → ℕ) (n offset : ℕ) → length (cells w n offset) ≡ n
length-cells w zero offset = refl
length-cells w (suc n) offset = omega (arith, length-cells w n (suc offset))

pub get_or-cells :
    (w : ℕ → ℕ) (n offset j : ℕ) → j < n → get_or (cells w n offset) j 0 ≡ w (offset + j)
get_or-cells w zero offset j lt = absurd (omega arith)
get_or-cells w (suc n) offset zero lt = ap w (omega arith)
get_or-cells w (suc n) offset (suc j) lt =
    get_or-cells w n (suc offset) j (omega arith) ∙ ap w (omega arith)

pub cells-ext :
    (w w' : ℕ → ℕ) (n offset : ℕ)
    → ((j : ℕ) → j < n → w' (offset + j) ≡ w (offset + j))
    → cells w' n offset ≡ cells w n offset
cells-ext w w' zero offset same = refl
cells-ext w w' (suc n) offset same =
    let zero_on : offset + 0 ≡ offset = omega arith in
    let first : w' offset ≡ w offset = ap w' (omega arith) ∙ same 0 (omega arith) ∙ ap w zero_on in
    let rest =
      cells-ext w w' n (suc offset)
        (λ j lt. ap w' (omega arith) ∙ same (suc j) (omega arith) ∙ ap w (omega arith)) in
    rw (first, rest) refl

pub cells-append :
    (w : ℕ → ℕ) (m n offset : ℕ)
    → cells w (m + n) offset ≡ cells w m offset ++ cells w n (offset + m)
cells-append w zero n offset =
    let zero_and : 0 + n ≡ n = omega arith in
    let zero_on : offset + 0 ≡ offset = omega arith in rw (zero_and, zero_on) refl
cells-append w (suc m) n offset =
    let one_and : suc m + n ≡ suc (m + n) = omega arith in
    let on : offset + suc m ≡ suc offset + m = omega arith in
    rw (one_and, on) (ap (λ xs. w offset ∷ xs) (cells-append w m n (suc offset)))

-- A list that has the bytes of a volume from a place on.
pub cells-of :
    (w : ℕ → ℕ) (offset : ℕ) (xs : List ℕ)
    → ((j : ℕ) → j < length xs → get_or xs j 0 ≡ w (offset + j))
    → xs ≡ cells w (length xs) offset
cells-of w offset xs h =
    list-ext xs (cells w (length xs) offset) (sym (length-cells w (length xs) offset))
      (λ j lt. h j lt ∙ sym (get_or-cells w (length xs) offset j lt))
