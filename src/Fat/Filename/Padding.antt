-- ===== src/Fat/Filename/Padding.antt =====
-- A name that is padded with blanks into the fields of an entry is spelled as it was.
use mathlib.Core.List.{append-nil}
use operating_system_fa_maf.Common.{
  ℕ, zero, suc, ◌+◌, ◌≤◌, ◌<◌, ◌≡◌, refl, ap, ◌∙◌, false, List, [], ◌∷◌, ◌++◌, ◌==◌, get_or, take,
  replicate, length, arith,
}
use operating_system_fa_maf.Fat.Filename.{is_blank, filename_len, build_filename}

get_or-append :
    (xs ys : List ℕ) (m j : ℕ) → m ≡ length xs + j → get_or (xs ++ ys) m 0 ≡ get_or ys j 0
get_or-append [] ys m j e = ap (λ (x : ℕ). get_or ys x 0) (omega (arith, e))
get_or-append (x ∷ xs) ys zero j e = absurd (omega arith)
get_or-append (x ∷ xs) ys (suc m) j e = get_or-append xs ys m j (omega arith)

get_or-replicate : (k j : ℕ) → j < k → get_or {A = ℕ} (replicate k b' ') j 0 ≡ b' '
get_or-replicate zero j h = absurd (omega arith)
get_or-replicate (suc k) zero h = refl
get_or-replicate (suc k) (suc j) h = get_or-replicate k j (omega arith)

take-append_all : (xs ys : List ℕ) → take (length xs) (xs ++ ys) ≡ xs
take-append_all [] ys = refl
take-append_all (x ∷ xs) ys = ap (λ t. x ∷ t) (take-append_all xs ys)

-- The blanks behind the last character that is none are not counted.
filename_len_pad :
    (ds : List ℕ) (c k j m : ℕ)
    → is_blank c ≡ false
    → j ≤ k
    → m ≡ length ds + j
    → filename_len (ds ++ c ∷ replicate k b' ') (suc m) ≡ suc (length ds)
unfolding filename_len
filename_len_pad ds c k zero m solid h e =
    let at : get_or (ds ++ c ∷ replicate k b' ') m 0 ≡ c =
      get_or-append ds (c ∷ replicate k b' ') m 0 e in
    rw (at, solid) (omega (arith, e))
filename_len_pad ds c k (suc j) zero solid h e = absurd (omega arith)
filename_len_pad ds c k (suc j) (suc m) solid h e =
    let at : get_or (ds ++ c ∷ replicate k b' ') (suc m) 0 ≡ b' ' =
      get_or-append ds (c ∷ replicate k b' ') (suc m) (suc j) e
      ∙ get_or-replicate k j (omega arith) in
    rw at (filename_len_pad ds c k j m solid (omega arith) (omega arith))

filename_len_blank : (k n : ℕ) → n ≤ k → filename_len (replicate k b' ') n ≡ 0
unfolding filename_len
filename_len_blank k zero h = refl
filename_len_blank k (suc n) h =
    rw (get_or-replicate k n (omega arith)) (filename_len_blank k n (omega arith))

take_pad :
    (ds : List ℕ) (c k : ℕ) → take (suc (length ds)) (ds ++ c ∷ replicate k b' ') ≡ ds ++ c ∷ []
take_pad [] c k = refl
take_pad (d ∷ ds) c k = ap (λ t. d ∷ t) (take_pad ds c k)

base_len :
    (ds : List ℕ) (c k : ℕ)
    → is_blank c ≡ false
    → length ds + suc k ≡ 8
    → filename_len (ds ++ c ∷ replicate k b' ') 8 ≡ suc (length ds)
base_len ds c k solid full = filename_len_pad ds c k k 7 solid (omega arith) (omega arith)

extension_len :
    (ds : List ℕ) (c k : ℕ)
    → is_blank c ≡ false
    → length ds + suc k ≡ 3
    → filename_len (ds ++ c ∷ replicate k b' ') 3 ≡ suc (length ds)
extension_len ds c k solid full = filename_len_pad ds c k k 2 solid (omega arith) (omega arith)

-- Padded with spaces to 8 and 3 bytes, a name and an extension that end in no blank are spelled
-- with a dot between them, and a name alone, with a blank extension, without.
pub build_filename_pad :
    (ds es : List ℕ) (c e k j : ℕ)
    → is_blank c ≡ false
    → is_blank e ≡ false
    → length ds + suc k ≡ 8
    → length es + suc j ≡ 3
    → (build_filename (ds ++ c ∷ replicate k b' ') (es ++ e ∷ replicate j b' ')
        ≡ (ds ++ c ∷ []) ++ b'.' ∷ (es ++ e ∷ []))
      × (build_filename (ds ++ c ∷ replicate k b' ') (replicate 3 b' ') ≡ ds ++ c ∷ [])
unfolding build_filename
build_filename_pad ds es c e k j solid solid_e full full_e =
    let some_name : (suc (length ds) == 0) ≡ false = ground arith in
    let some_extension : (suc (length es) == 0) ≡ false = ground arith in
    (
      rw (
        base_len ds c k solid full,
        extension_len es e j solid_e full_e,
        some_name,
        some_extension,
        take_pad ds c k,
        take_pad es e j,
      ),
      rw (
        base_len ds c k solid full,
        filename_len_blank 3 3 (omega arith),
        some_name,
        take_pad ds c k,
        append-nil,
      ),
    )
