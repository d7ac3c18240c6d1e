-- ===== src/Fat/Fuse/Counters.antt =====
-- Opening a file counts on the way to the root, and closing counts back.
use operating_system_fa_maf.Common.{
  ℕ, zero, suc, ◌+◌, ◌-◌, ◌%◌, ◌^◌, ◌<◌, ◌≡◌, refl, ap, ◌∙◌, inl, inr, false, Option, none, some,
  List, [], ◌∷◌, ◌==◌, length, arith, ==→eq, Bool-cases, Option-cases, if◌then◌else◌, done,
}
use mathlib.Core.Option
use operating_system_fa_maf.Common.Int.{pos}
use operating_system_fa_maf.Fat.Table.Chain.{has}
use operating_system_fa_maf.Fat.Hierarchy.{HNode, Nodes, node_at, set_node, iterate_h_ancestors}
use operating_system_fa_maf.Fat.Handle.{
  Handle, fat_file_is_directory, fat_file_inc_num_times_opened, fat_file_dec_num_times_opened,
}
use operating_system_fa_maf.Fat.Fuse.{
  FatVolume, node_search, file_at, inc_num_times_opened, dec_num_times_opened,
}
use operating_system_fa_maf.Fat.Fuse.Lookup.{fuse_open, open_node, release}

-- From a pointer on, the ancestors are the distinct nodes of the list.
pub data Ancestors {A : Type 0} (nodes : Nodes A) : Option ℕ → List ℕ → Type 0 where
  root : {p : Option ℕ} → p ≡ none → Ancestors nodes p []
  above :
      {p : Option ℕ} {c : ℕ} {n : HNode A} {cs : List ℕ}
      → p ≡ some c
      → nodes c ≡ some n
      → has c cs ≡ false
      → Ancestors nodes n.h_parent cs
      → Ancestors nodes p (c ∷ cs)

module _ {A : Type 0} where
  abbrev pub touch : (A → A) → HNode A → HNode A
  touch f n = record n { content = f n.content }

  -- One store is another with a function applied to the data of the nodes of a list.
  abbrev pub IsTouched : (A → A) → List ℕ → Nodes A → Nodes A → Type 0
  IsTouched f cs nodes nodes' =
      (b : ℕ) → nodes' b ≡ (if has b cs then Option.map (touch f) (nodes b) else nodes b)

  Ancestors-IsTouched :
      (f : A → A) (ds : List ℕ) (nodes nodes' : Nodes A) (p : Option ℕ) (cs : List ℕ)
      → IsTouched f ds nodes nodes'
      → Ancestors nodes p cs
      → Ancestors nodes' p cs
  Ancestors-IsTouched f ds nodes nodes' p cs t (root e) = root e
  Ancestors-IsTouched f ds nodes nodes' p cs t (above {c = c} {n = n} {cs = later} q e new rest) =
      let more = Ancestors-IsTouched f ds nodes nodes' n.h_parent later t rest in
      elim (Bool-cases (has c ds)) [
        | inl on ↦
            let there : nodes' c ≡ some (touch f n) = t c ∙ rw (on, e) refl in
            above {n = touch f n} q there new more
        | inr off ↦ let there : nodes' c ≡ some n = t c ∙ rw (off, e) refl in above q there new more
      ]

  iterate-IsTouched :
      (fuel : ℕ) (f : A → A) (nodes : Nodes A) (p : Option ℕ) (cs : List ℕ)
      → Ancestors nodes p cs
      → length cs < fuel
      → (nodes' : Nodes A) × (iterate_h_ancestors fuel f nodes p ≡ done nodes')
        × IsTouched f cs nodes nodes'
  unfolding iterate_h_ancestors node_at set_node
  iterate-IsTouched zero f nodes p cs up enough = absurd (omega arith)
  iterate-IsTouched (suc fuel) f nodes p cs (root e) enough = (nodes, rw e refl, λ b. refl)
  iterate-IsTouched (suc fuel) f nodes p cs (above {c = c} {n = n} {cs = later} q e new rest)
        enough =
      let one = set_node nodes c (some (touch f n)) in
      let single : IsTouched f (c ∷ []) nodes one = λ b. elim (Bool-cases (b == c)) [
        | inl same ↦
            let there : nodes b ≡ some n = ap nodes (==→eq b c same) ∙ e in rw (same, there) refl
        | inr differ ↦ rw differ refl
      ] in
      let (nodes', run, t) =
        iterate-IsTouched fuel f one n.h_parent later
          (Ancestors-IsTouched f (c ∷ []) nodes one n.h_parent later single rest) (omega arith) in
      let touched : IsTouched f (c ∷ later) nodes nodes' = λ b. elim (Bool-cases (b == c)) [
        | inl same ↦
            let there : nodes b ≡ some n = ap nodes (==→eq b c same) ∙ e in
            let off : has b later ≡ false = ap (λ j. has j later) (==→eq b c same) ∙ new in
            t b ∙ rw (off, same, there) refl
        | inr differ ↦ t b ∙ rw differ refl
      ] in
      let ran : iterate_h_ancestors (suc fuel) f nodes p ≡ done nodes' = rw (q, e) run in
      (nodes', ran, touched)

dec-inc :
    (file : Handle)
    → file.num_times_opened < 2 ^ 31
    → fat_file_dec_num_times_opened (fat_file_inc_num_times_opened file) ≡ file
unfolding fat_file_dec_num_times_opened fat_file_inc_num_times_opened
dec-inc file small =
    let same : ((file.num_times_opened + 1) % 2 ^ 31 + 2 ^ 31 - 1) % 2 ^ 31
        ≡ file.num_times_opened =
      omega arith in
    ap (λ (k : ℕ). record file { num_times_opened = k }) same

-- Where a path leads to a file that is not a directory and has a way to the root, whose counters fit,
-- and with more fuel than nodes on that way, open returns 0 and the file's node and counts once on
-- each node of the way and nowhere else; closing the node returns 0 and leaves the nodes as they were
-- before it was opened.
pub release-fuse_open :
    {W : Type 0} (fuel : ℕ) (v : FatVolume W) (path : List ℕ) (a : ℕ) (n : HNode Handle)
    (cs : List ℕ)
    → node_search v path ≡ done (some a)
    → v.nodes a ≡ some n
    → fat_file_is_directory n.content ≡ false
    → Ancestors v.nodes (some a) cs
    → ((b : ℕ) (m : HNode Handle) → v.nodes b ≡ some m → m.content.num_times_opened < 2 ^ 31)
    → length cs < fuel
    → (v1 : FatVolume W) × (v2 : FatVolume W) × (fuse_open fuel v path ≡ done (pos 0, some a, v1))
      × IsTouched fat_file_inc_num_times_opened cs v.nodes v1.nodes
      × (release fuel v1 a ≡ done (pos 0, v2))
      × ((b : ℕ) → v2.nodes b ≡ v.nodes b)
      × (v2.file_tree ≡ v.file_tree)
      × (v2.mount ≡ v.mount)
unfolding fuse_open open_node release inc_num_times_opened dec_num_times_opened file_at node_at
release-fuse_open fuel v path a n cs leads at plain up small enough =
    let (nodes1, run1, t1) =
      iterate-IsTouched fuel fat_file_inc_num_times_opened v.nodes (some a) cs up enough in
    let up1 =
      Ancestors-IsTouched fat_file_inc_num_times_opened cs v.nodes nodes1 (some a) cs t1 up in
    let (nodes2, run2, t2) =
      iterate-IsTouched fuel fat_file_dec_num_times_opened nodes1 (some a) cs up1 enough in
    let back : (b : ℕ) → nodes2 b ≡ v.nodes b = λ b. elim (Bool-cases (has b cs)) [
      | inl on ↦ elim (Option-cases (v.nodes b)) [
        | inl gone ↦ t2 b ∙ rw (on, t1 b, on, gone) refl
        | inr (m, e) ↦
            t2 b
            ∙ rw (on, t1 b, on, e)
                (ap (λ (h : Handle). some (record m { content = h }))
                  (dec-inc m.content (small b m e)))
      ]
      | inr off ↦ t2 b ∙ rw (off, t1 b, off) refl
    ] in
    let v1 = record v { nodes = nodes1 } in
    (
      v1,
      record v1 { nodes = nodes2 },
      rw (leads, at, plain, run1) refl,
      t1,
      rw run2 refl,
      back,
      refl,
      refl,
    )
