-- ===== src/Fat/Filename.antt =====
-- lab4/esqueleto/fat_filename_util.c: which names are valid, and the name that the two fields of a
-- directory entry spell. A field is the list of its 8 or 3 bytes, a name that of its characters
-- without the zero at the end.
pub mod Padding
pub mod Split
pub mod Paths
mod Examples
use operating_system_fa_maf.Common.{
  ℕ, zero, suc, ◌+◌, ◌%◌, Bool, true, false, ◌&&◌, ◌||◌, List, [], ◌∷◌, ◌++◌, ◌==◌, leb,
  if◌then◌else◌, get_or, take,
}

abbrev pub between : ℕ → ℕ → ℕ → Bool
between a b c = leb a c && leb c b

abbrev pub one_of : List ℕ → ℕ → Bool
one_of [] c = false
one_of (x ∷ xs) c = (c == x) || one_of xs c

abbrev pub legal_signs : List ℕ
legal_signs =
    b' ' ∷ b'$' ∷ b'%' ∷ b'-' ∷ b'_' ∷ b'@' ∷ b'~' ∷ b'`' ∷ b'!' ∷ b'(' ∷ b')' ∷ b'{' ∷ b'}' ∷ b'^'
    ∷ b'#' ∷ b'&' ∷ []

-- The table of characters.
unfoldable pub fat_char_tab : ℕ → Bool
fat_char_tab c =
    between b'a' b'z' c
    || between b'A' b'Z' c
    || between b'0' b'9' c
    || between 128 255 c
    || one_of legal_signs c

unfoldable pub char_legal_in_filename : ℕ → Bool
char_legal_in_filename c = fat_char_tab (c % 256)

abbrev pub is_blank : ℕ → Bool
is_blank c = (c == b' ') || (c == 0)

-- The `do` loop of `file_basename_valid`, from a byte on.
unfoldable pub basename_loop : (c : ℕ) (rest : List ℕ) → Bool
basename_loop c [] = char_legal_in_filename c
basename_loop c (d ∷ ds) =
    let next = basename_loop d ds in
    if char_legal_in_filename c then if is_blank d then true else next else false

unfoldable pub file_basename_valid : List ℕ → Bool
file_basename_valid [] = false
file_basename_valid (c ∷ cs) =
    if (c == 0) || (c == b' ') || (c == 0xe5) then false else basename_loop c cs

unfoldable pub file_extension_valid : List ℕ → Bool
file_extension_valid [] = true
file_extension_valid (c ∷ cs) =
    let rest = file_extension_valid cs in
    if is_blank c then true else if char_legal_in_filename c then rest else false

unfoldable pub filename_len : List ℕ → (max_len : ℕ) → ℕ
filename_len name zero = zero
filename_len name (suc n) =
    let shorter = filename_len name n in if is_blank (get_or name n 0) then shorter else suc n

-- A slash and nothing else where the base name is blank.
unfoldable pub build_filename : (base extension : List ℕ) → List ℕ
build_filename base extension =
    let name_len = filename_len base 8 in
    let extension_len = filename_len extension 3 in
    if name_len == 0
    then b'/' ∷ []
    else take name_len base
      ++ (if extension_len == 0 then [] else b'.' ∷ take extension_len extension)
