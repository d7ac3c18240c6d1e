-- ===== src/Fat/Filename/Split.antt =====
-- `filename_from_path` of lab4/esqueleto/fat_filename_util.c. Its argument is the memory from the
-- first character of the name on, the zero at the end of the name and what follows it included; to
-- read past that is a fault. The result is the two fields of an entry that was all zeros. The name's
-- extension is copied whatever its length: what passes the field comes into the later members of the
-- entry, each of which the caller sets behind the call, so only the end of the entry is checked.
use operating_system_fa_maf.Common.{
  ℕ, zero, suc, ◌+◌, ◌-◌, Bool, Option, none, some, List, [], ◌∷◌, ◌++◌, ◌==◌, leb, ltb,
  if◌then◌else◌, length, take, drop, replicate, Run, done, fault, ◌>>=◌,
}
use operating_system_fa_maf.Fat.Filename.{is_blank, filename_len}

-- `strrchr`, from place `i` on, by the last place at which the character was seen.
unfoldable pub strrchr : List ℕ → (c i : ℕ) → (seen : Option ℕ) → Run (Option ℕ)
strrchr [] c i seen = fault
strrchr (x ∷ xs) c i seen =
    let rest = strrchr xs c (i + 1) (if x == c then some i else seen) in
    if x == 0 then done seen else rest

abbrev pub is_at : Option ℕ → ℕ → Bool
is_at none i = Bool.false
is_at (some d) i = i == d

-- The place at which the `do` loop ends, with `left` characters left in the name.
unfoldable pub base_loop : (left i : ℕ) → (dot_pos : Option ℕ) → ℕ
base_loop zero i dot_pos = i
base_loop (suc left) i dot_pos =
    let rest = base_loop left (i + 1) dot_pos in if is_at dot_pos i then i else rest

unfoldable pub extension_loop : List ℕ → Run (List ℕ)
extension_loop [] = fault
extension_loop (x ∷ xs) =
    let rest = extension_loop xs >>= λ cs. done (x ∷ cs) in if is_blank x then done [] else rest

-- Behind the extension, of an entry of 32 bytes of which the base name takes 8.
unfoldable pub fields : (base extension : List ℕ) → Run (List ℕ × List ℕ)
fields base extension =
    if leb (length extension) 24
    then done (base ++ replicate (8 - length base) 0, take 3 (extension ++ 0 ∷ 0 ∷ 0 ∷ []))
    else fault

-- The end of the base name, `i`, and the dot decide whether there is an extension.
unfoldable pub copy_extension :
    (src : List ℕ) → (name_len i : ℕ) → (dot_pos : Option ℕ) → Run (List ℕ × List ℕ)
unfolding extension_loop fields
copy_extension src name_len i none = fields (take i src) []
copy_extension src name_len i (some d) =
    let copied = extension_loop (drop (i + 1) src) >>= λ extension. fields (take i src) extension in
    if ltb i name_len then copied else fields (take i src) []

unfoldable pub filename_from_path : List ℕ → Run (List ℕ × List ℕ)
unfolding strrchr base_loop copy_extension
filename_from_path src =
    let name_len = filename_len src 8 in
    let copied = strrchr src b'.' 0 none >>= λ dot_pos.
    copy_extension src name_len (base_loop (name_len - 1) 1 dot_pos) dot_pos in
    if ltb (length src) 8
    then fault
    else if name_len == 0
    then done (replicate 8 0, replicate 3 0)
    else copied
