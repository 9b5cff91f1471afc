-- ===== src/FileCache/Files.antt =====
-- The files that util/mem/cache/fileitem.go leaves behind where an item cannot be made.
use gocommon.Base.{
  ℕ, ◌≡◌, ◌∙◌, Bool, false, none, String, string_eq, ◌==◌, arith, inl, inr, Bool-cases, same_comm,
}
use gocommon.FileCache.{Os, FileItem, store_idx, create_and_store_to_file, new_file_item}

-- What the code relies on of the file system, by whether there is a file at a path.
pub record IsOs {D W : Type 0} (os : Os D W) (present : String → W → Bool) : Type 0 where
  pub dir_keeps : (p q : String) (w : W) → present q (os.make_dir p w) ≡ present q w
  pub create_failed :
      (p q : String) (w : W) → (os.create p w).0 ≡ false → present q (os.create p w).1 ≡ present q w
  pub create_other :
      (p q : String) (w : W) → (p == q) ≡ false → present q (os.create p w).1 ≡ present q w
  pub write_keeps : (p q : String) (d : D) (w : W) → present q (os.write p d w).1 ≡ present q w
  pub remove_gone : (p : String) (w : W) → present p (os.remove p w).1 ≡ false
  pub remove_other :
      (p q : String) (w : W) → (p == q) ≡ false → present q (os.remove p w).1 ≡ present q w

abbrev pub Absent : {W : Type 0} → (String → W → Bool) → String → String → W → Type 0
Absent present p q w = (present p w ≡ false) × (present q w ≡ false)

module _ {F D W : Type 0} (os : Os D W) (join : String → String → String)
    (with_idx : String → String) (present : String → W → Bool) (laws : IsOs os present) where
  store_idx-Absent :
      (item : FileItem F) (w : W)
      → (item.filepath == item.file_idx) ≡ false
      → present item.file_idx w ≡ false
      → (store_idx os join with_idx item w).0 ≡ false
      → Absent present item.filepath item.file_idx (store_idx os join with_idx item w).1
  unfolding store_idx
  store_idx-Absent item w ne a e = elim (Bool-cases (os.create item.file_idx w).0) [
    | inl c ↦
        elim (Bool-cases
          (os.write item.file_idx (os.marshal_text item.accessed_on)
            (os.create item.file_idx w).1).0) [
              | inl x ↦ ground (arith, c, x, e)
              | inr x ↦
                  rw (c, x)
                    (
                      laws.remove_other item.file_idx item.filepath _
                            (same_comm item.file_idx item.filepath ∙ ne)
                          ∙ laws.remove_gone item.filepath _,
                      laws.remove_gone item.file_idx _,
                    )
            ]
    | inr c ↦ rw (c) (
      laws.remove_gone item.filepath _,
      laws.remove_other item.filepath item.file_idx _ ne
          ∙ laws.create_failed item.file_idx item.file_idx w c
          ∙ a,
    )
  ]

  create_and_store-Absent :
      (d : D) (data_path : String) (item : FileItem F) (w : W)
      → (join data_path item.key == with_idx (join data_path item.key)) ≡ false
      → present (join data_path item.key) w ≡ false
      → present (with_idx (join data_path item.key)) w ≡ false
      → (create_and_store_to_file os join with_idx d data_path item w).0 ≡ false
      → Absent present
          (join data_path item.key)
          (with_idx (join data_path item.key))
          (create_and_store_to_file os join with_idx d data_path item w).2
  unfolding create_and_store_to_file
  create_and_store-Absent d data_path item w ne a b e =
      let p = join data_path item.key in
      let q = with_idx p in
      let w0 = os.make_dir data_path w in
      let w1 = (os.create p w0).1 in
      let w2 = (os.write p d w1).1 in
      let idx_absent : present q w2 ≡ false =
        laws.write_keeps p q d w1
        ∙ laws.create_other p q w0 ne
        ∙ laws.dir_keeps data_path q w
        ∙ b in
      elim (Bool-cases (os.create p w0).0) [
        | inl c ↦ elim (Bool-cases (os.write p d w1).0) [
          | inl x ↦
              rw (c, x)
                (store_idx-Absent (record item { filepath = p; file_idx = q }) w2 ne idx_absent
                  (ground (arith, c, x, e)))
          | inr x ↦ rw (c, x) (laws.remove_gone p w2, laws.remove_other p q w2 ne ∙ idx_absent)
        ]
        | inr c ↦ rw (c) (
          laws.create_failed p p w0 c ∙ laws.dir_keeps data_path p w ∙ a,
          laws.create_failed p q w0 c ∙ laws.dir_keeps data_path q w ∙ b,
        )
      ]

  -- Where `NewFileItem` returns nil, no file is left at the two paths of the item, if there was none
  -- before. The paths are different.
  pub new_file_item-Absent :
      (key data_path : String) (d : D) (span now : ℕ) (w : W)
      → (join data_path key == with_idx (join data_path key)) ≡ false
      → present (join data_path key) w ≡ false
      → present (with_idx (join data_path key)) w ≡ false
      → (new_file_item {F = F} os join with_idx key data_path d span now w).0 ≡ none
      → Absent present
          (join data_path key)
          (with_idx (join data_path key))
          (new_file_item {F = F} os join with_idx key data_path d span now w).1
  unfolding new_file_item
  new_file_item-Absent key data_path d span now w ne a b e =
      let blank : FileItem F = record {
        key = key;
        datapath = data_path;
        filepath = "";
        file_idx = "";
        life_span = span;
        created_on = now;
        accessed_on = now;
        access_size = os.size d;
        access_count = 0;
        about_to_expire = none;
        about_to_delete = none;
      } in
      let r = create_and_store_to_file os join with_idx d data_path blank w in
      elim (Bool-cases r.0) [
        | inl t ↦ ground (arith, t, e)
        | inr f ↦ rw (f) (create_and_store-Absent d data_path blank w ne a b f)
      ]
