-- ===== src/Fat/Filename/Paths.antt =====
-- What the code makes of a name with a dot in it.
use mathlib.Core.List.{append_assoc, append-nil}
use operating_system_fa_maf.Common.{
  ℕ, zero, suc, ◌+◌, ◌-◌, ◌<◌, ◌≤◌, min, ◌≡◌, refl, sym, ap, ◌∙◌, ◌⊎◌, inl, inr, Bool, true, false,
  ◌&&◌, not, Option, none, some, List, [], ◌∷◌, ◌++◌, ◌==◌, ltb, leb, length, length-append, take,
  drop, replicate, get_or, take-append, drop-append, arith, ==→eq, ==→ne, ne→==, lt→ltb, le→ltb,
  ltb→lt, ltb→le, Bool-cases, done,
}
use operating_system_fa_maf.Fat.Filename.{is_blank, filename_len}
use operating_system_fa_maf.Fat.Filename.Split.{
  strrchr, base_loop, extension_loop, fields, copy_extension, filename_from_path,
}

-- No character is a blank, a dot or the end.
abbrev pub is_plain : List ℕ → Bool
is_plain [] = true
is_plain (x ∷ xs) = not (is_blank x) && (not (x == b'.') && is_plain xs)

plain-head :
    (x : ℕ) (xs : List ℕ)
    → is_plain (x ∷ xs) ≡ true
    → (is_blank x ≡ false) × ((x == b'.') ≡ false) × ((x == 0) ≡ false) × (is_plain xs ≡ true)
plain-head x xs h = elim (Bool-cases (is_blank x)) [
  | inl e ↦ absurd (cc (e, h))
  | inr e ↦ elim (Bool-cases (x == b'.')) [
    | inl f ↦ absurd (cc (e, f, h))
    | inr f ↦ (e, f, ground arith, cc (e, f, h))
  ]
]

strrchr-plain :
    (xs ys : List ℕ) (i : ℕ) (seen : Option ℕ)
    → is_plain xs ≡ true
    → strrchr (xs ++ ys) b'.' i seen ≡ strrchr ys b'.' (i + length xs) seen
unfolding strrchr
strrchr-plain [] ys i seen h = let e : i + 0 ≡ i = omega arith in rw e refl
strrchr-plain (x ∷ xs) ys i seen h =
    let (blank, dot, null, later) = plain-head x xs h in
    let e : i + 1 + length xs ≡ i + suc (length xs) = omega arith in
    rw (dot, null) (strrchr-plain xs ys (i + 1) seen later ∙ ap (λ j. strrchr ys b'.' j seen) e)

filename_len-above :
    (name : List ℕ) (k max_len : ℕ)
    → k < max_len
    → is_blank (get_or name k 0) ≡ false
    → k < filename_len name max_len
unfolding filename_len
filename_len-above name k zero h char = absurd (omega arith)
filename_len-above name k (suc n) h char = elim (Bool-cases (is_blank (get_or name n 0))) [
  | inl e ↦ elim (Bool-cases (k == n)) [
    | inl same ↦ absurd (cc (ap (λ j. is_blank (get_or name j 0)) (==→eq k n same), e, char))
    | inr differ ↦ rw e (filename_len-above name k n (ground arith) char)
  ]
  | inr e ↦ rw e (omega arith)
]

filename_len-max : (name : List ℕ) (max_len : ℕ) → filename_len name max_len ≤ max_len
unfolding filename_len
filename_len-max name zero = omega arith
filename_len-max name (suc n) = elim (Bool-cases (is_blank (get_or name n 0))) [
  | inl e ↦ let h = filename_len-max name n in rw e (omega arith)
  | inr e ↦ rw e (omega arith)
]

base_loop_lem : (left i d : ℕ) → i ≤ d → base_loop left i (some d) ≡ min (i + left) d
unfolding base_loop
base_loop_lem zero i d h = omega arith
base_loop_lem (suc left) i d h = elim (Bool-cases (i == d)) [
  | inl e ↦ let same = ==→eq i d e in rw e (omega arith)
  | inr e ↦
      let differ = ==→ne i d e in
      let later = base_loop_lem left (i + 1) d (omega arith) in rw e (omega arith)
]

extension_loop-plain :
    (xs ys : List ℕ) → is_plain xs ≡ true → extension_loop (xs ++ 0 ∷ ys) ≡ done xs
unfolding extension_loop
extension_loop-plain [] ys h = refl
extension_loop-plain (x ∷ xs) ys h =
    let (blank, dot, null, later) = plain-head x xs h in
    rw (blank, extension_loop-plain xs ys later) refl

blank-byte : (x : ℕ) (xs : List ℕ) → is_plain (x ∷ xs) ≡ true → is_blank x ≡ false
blank-byte x xs h = (plain-head x xs h).0

get_or-append : (xs ys : List ℕ) (y : ℕ) → get_or (xs ++ y ∷ ys) (length xs) 0 ≡ y
get_or-append [] ys y = refl
get_or-append (x ∷ xs) ys y = get_or-append xs ys y

-- The last character of a name that is not empty is no blank.
last-plain :
    (xs ys : List ℕ) (n : ℕ)
    → is_plain xs ≡ true
    → length xs ≡ suc n
    → is_blank (get_or (xs ++ ys) n 0) ≡ false
last-plain [] ys n h len = absurd (omega (arith, len))
last-plain (x ∷ xs) ys zero h len = (plain-head x xs h).0
last-plain (x ∷ xs) ys (suc n) h len = last-plain xs ys n (plain-head x xs h).3 (omega (arith, len))

-- The memory of a name of a base name, a dot and an extension, with what follows it.
abbrev pub dotted : (base extension beyond : List ℕ) → List ℕ
dotted base extension beyond = base ++ b'.' ∷ (extension ++ 0 ∷ beyond)

strrchr-dotted :
    (base extension beyond : List ℕ)
    → is_plain base ≡ true
    → is_plain extension ≡ true
    → strrchr (dotted base extension beyond) b'.' 0 none ≡ done (some (length base))
unfolding strrchr
strrchr-dotted base extension beyond h k =
    strrchr-plain base (b'.' ∷ (extension ++ 0 ∷ beyond)) 0 none h
    ∙ strrchr-plain extension (0 ∷ beyond) (0 + length base + 1) (some (0 + length base)) k
    ∙ ap (λ n. done (some n)) (omega arith)

-- A name whose base name has one to eight characters and whose extension at most three, none of them
-- a blank or a dot, where eight bytes can be read from its start, the final zero and what stands
-- behind it included: with fewer than eight characters it is split at the dot and padded with zeros;
-- with eight the extension is lost.
pub filename_from_path_lem :
    (base extension beyond : List ℕ)
    → is_plain base ≡ true
    → is_plain extension ≡ true
    → 1 ≤ length base
    → length base ≤ 8
    → length extension ≤ 3
    → 8 ≤ length (dotted base extension beyond)
    → ((length base < 8)
        × (filename_from_path (dotted base extension beyond)
            ≡ done (base ++ replicate (8 - length base) 0, take 3 (extension ++ 0 ∷ 0 ∷ 0 ∷ []))))
      ⊎ ((length base ≡ 8)
          × (filename_from_path (dotted base extension beyond) ≡ done (base, 0 ∷ 0 ∷ 0 ∷ [])))
unfolding filename_from_path copy_extension fields
filename_from_path_lem base extension beyond h k some_base short short_ext long =
    let src = dotted base extension beyond in
    let n = length base in
    let dot = strrchr-dotted base extension beyond h k in
    let enough : ltb (length src) 8 ≡ false = le→ltb (length src) 8 long in
    let most = filename_len-max src 8 in
    let taken : take n src ≡ base = take-append base _ n refl in
    elim (Bool-cases (ltb n 8)) [
      | inl less ↦
          let under = ltb→lt n 8 less in
          let char : is_blank (get_or src n 0) ≡ false =
            ap is_blank (get_or-append base (extension ++ 0 ∷ beyond) b'.') in
          let above = filename_len-above src n 8 under char in
          let named : (filename_len src 8 == 0) ≡ false = ne→== _ _ (omega arith) in
          let stop : base_loop (filename_len src 8 - 1) 1 (some n) ≡ n =
            base_loop_lem (filename_len src 8 - 1) 1 n some_base ∙ omega arith in
          let within : ltb n (filename_len src 8) ≡ true = lt→ltb _ _ above in
          let behind : drop (n + 1) src ≡ extension ++ 0 ∷ beyond =
            ap (drop (n + 1)) (sym (append_assoc base (b'.' ∷ []) (extension ++ 0 ∷ beyond)))
            ∙ drop-append (base ++ b'.' ∷ []) _ (n + 1) (length-append base (b'.' ∷ [])) in
          let copied = extension_loop-plain extension beyond k in
          let fits : leb (length extension) 24 ≡ true = ground arith in
          inl (under, rw (enough, named, dot, stop, within, behind, copied, taken, fits) refl)
      | inr full ↦
          let eight : n ≡ 8 = omega (arith, ltb→le n 8 full) in
          let char = last-plain base (b'.' ∷ (extension ++ 0 ∷ beyond)) 7 h eight in
          let above = filename_len-above src 7 8 (omega arith) char in
          let named : (filename_len src 8 == 0) ≡ false = ne→== _ _ (omega arith) in
          let stop : base_loop (filename_len src 8 - 1) 1 (some n) ≡ n =
            base_loop_lem (filename_len src 8 - 1) 1 n some_base ∙ omega arith in
          let beyond_it : ltb n (filename_len src 8) ≡ false = le→ltb _ _ (omega arith) in
          let none_left : 8 - n ≡ 0 = omega (arith, eight) in
          let padded : base ++ replicate (8 - n) 0 ≡ base = rw none_left (append-nil base) in
          inr (eight, rw (enough, named, dot, stop, beyond_it, taken, padded) refl)
    ]
