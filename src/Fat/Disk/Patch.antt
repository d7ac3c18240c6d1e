-- ===== src/Fat/Disk/Patch.antt =====
-- The bytes of lists that are cut and joined, and those inside and outside of a patch.
use operating_system_fa_maf.Common.{
  ℕ, zero, suc, ◌+◌, ◌-◌, ◌≤◌, ◌<◌, ◌≡◌, refl, sym, inl, inr, ◌∙◌, true, false, List, [], ◌∷◌, ◌++◌,
  arith, ltb, leb, if◌then◌else◌, Bool-cases, length, take, drop, get_or, ltb→lt, ltb→le, ap,
  lt→ltb, le→ltb,
}
use operating_system_fa_maf.Fat.Disk.{patch}

pub get_or-drop : (n j : ℕ) (xs : List ℕ) → get_or (drop n xs) j 0 ≡ get_or xs (n + j) 0
get_or-drop zero j xs = ap (λ k. get_or xs k 0) (omega arith)
get_or-drop (suc n) j [] = refl
get_or-drop (suc n) j (x ∷ xs) =
    let step : suc n + j ≡ suc (n + j) = omega arith in rw step (get_or-drop n j xs)

pub get_or-take : (n j : ℕ) (xs : List ℕ) → j < n → get_or (take n xs) j 0 ≡ get_or xs j 0
get_or-take zero j xs h = absurd (omega arith)
get_or-take (suc n) j [] h = refl
get_or-take (suc n) zero (x ∷ xs) h = refl
get_or-take (suc n) (suc j) (x ∷ xs) h = get_or-take n j xs (omega arith)

pub get_or-append :
    (xs ys : List ℕ) (j : ℕ)
    → get_or (xs ++ ys) j 0
      ≡ (if ltb j (length xs) then get_or xs j 0 else get_or ys (j - length xs) 0)
get_or-append [] ys j =
    let none_before : ltb j 0 ≡ false = le→ltb j 0 (omega arith) in
    let same : j - 0 ≡ j = omega arith in rw (none_before, same) refl
get_or-append (x ∷ xs) ys zero = rw (lt→ltb 0 (suc (length xs)) (omega arith)) refl
get_or-append (x ∷ xs) ys (suc j) = ground (arith, get_or-append xs ys j)

-- Inside and outside of a patch.
pub patch_inside :
    (disk : ℕ → ℕ) (offset n : ℕ) (new : ℕ → ℕ) (i : ℕ)
    → offset ≤ i
    → i < offset + n
    → patch disk offset n new i ≡ new (i - offset)
patch_inside disk offset n new i lo hi =
    let from : leb offset i ≡ true = ground arith in
    let to : ltb i (offset + n) ≡ true = lt→ltb i (offset + n) hi in rw (from, to) refl

pub patch_below :
    (disk : ℕ → ℕ) (offset n : ℕ) (new : ℕ → ℕ) (i : ℕ)
    → i < offset
    → patch disk offset n new i ≡ disk i
patch_below disk offset n new i lo = let from : leb offset i ≡ false = ground arith in rw from refl

pub patch_above :
    (disk : ℕ → ℕ) (offset n : ℕ) (new : ℕ → ℕ) (i : ℕ)
    → offset + n ≤ i
    → patch disk offset n new i ≡ disk i
patch_above disk offset n new i hi =
    let from : leb offset i ≡ true = ground arith in
    let to : ltb i (offset + n) ≡ false = le→ltb i (offset + n) hi in rw (from, to) refl

-- One patch behind another.
pub patch-patch :
    (disk d1 d2 : ℕ → ℕ) (offset m n : ℕ) (new1 new2 new : ℕ → ℕ) (i : ℕ)
    → m ≤ n
    → d1 i ≡ patch disk offset m new1 i
    → d2 i ≡ patch d1 (offset + m) (n - m) new2 i
    → ((j : ℕ) → j < m → new1 j ≡ new j)
    → ((j : ℕ) → new2 j ≡ new (m + j))
    → d2 i ≡ patch disk offset n new i
patch-patch disk d1 d2 offset m n new1 new2 new i le first second same1 same2 =
    elim (Bool-cases (ltb i offset)) [
      | inl before ↦
          let lo : i < offset = ltb→lt i offset before in
          second
          ∙ patch_below d1 (offset + m) (n - m) new2 i (omega arith)
          ∙ first
          ∙ patch_below disk offset m new1 i lo
          ∙ sym (patch_below disk offset n new i lo)
      | inr from ↦
          let lo : offset ≤ i = ltb→le i offset from in
          elim (Bool-cases (ltb i (offset + m))) [
            | inl inside ↦
                let hi : i < offset + m = ltb→lt i (offset + m) inside in
                second
                ∙ patch_below d1 (offset + m) (n - m) new2 i hi
                ∙ first
                ∙ patch_inside disk offset m new1 i lo hi
                ∙ same1 (i - offset) (omega arith)
                ∙ sym (patch_inside disk offset n new i lo (omega arith))
            | inr past ↦
                let hi : offset + m ≤ i = ltb→le i (offset + m) past in
                elim (Bool-cases (ltb i (offset + n))) [
                  | inl inside ↦
                      let end : i < offset + n = ltb→lt i (offset + n) inside in
                      second
                      ∙ patch_inside d1 (offset + m) (n - m) new2 i hi (omega arith)
                      ∙ same2 (i - (offset + m))
                      ∙ ap new (omega arith)
                      ∙ sym (patch_inside disk offset n new i lo end)
                  | inr beyond ↦
                      let end : offset + n ≤ i = ltb→le i (offset + n) beyond in
                      second
                      ∙ patch_above d1 (offset + m) (n - m) new2 i (omega arith)
                      ∙ first
                      ∙ patch_above disk offset m new1 i hi
                      ∙ sym (patch_above disk offset n new i end)
                ]
          ]
    ]

pub patch-new :
    (disk : ℕ → ℕ) (offset n : ℕ) (new new' : ℕ → ℕ) (i : ℕ)
    → ((j : ℕ) → new j ≡ new' j)
    → patch disk offset n new i ≡ patch disk offset n new' i
patch-new disk offset n new new' i same = rw (same (i - offset)) refl
