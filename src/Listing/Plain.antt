-- ===== src/Listing/Plain.antt =====
-- src/list.rs, `print_plain`: a line about the archive and a line for each entry, with tabs.
pub mod Clean
pub mod Reads
use cryo.Base.{ℕ, Option, none, some, List, [], ◌∷◌, ◌++◌}
use cryo.Base.Int.{ℤ}
use cryo.Base.Tables.{tab, newline}
use cryo.Base.Text.{Text, codes, digits, decimal}
use cryo.Format.{FileEntry, Header, Index}
use cryo.Format.Sizes.{Floats, total_compressed_size}
use cryo.Listing.Columns.{algo_name, encryption_label, type_label, sizes_of}
use cryo.Listing.Permissions.{format_permissions}
use cryo.Printers.{Printers}

-- `\t{}` of the target, which only a symbolic link has, and the end of the line.
unfoldable pub target_column : Printers → FileEntry → Text
target_column pr f = elim f.symlink_target [
  | some target ↦ tab ∷ (pr.display target ++ (newline ∷ []))
  | none ↦ newline ∷ []
]

unfoldable pub plain_header : Header → Index → Text → Text
plain_header h idx archive_path =
    codes "# archive="
    ++ (archive_path
        ++ (codes "\tversion="
            ++ (digits h.version
                ++ (codes "\tencryption="
                    ++ (encryption_label h.encryption
                        ++ (codes "\tcompression="
                            ++ (algo_name h.compression
                                ++ (codes "\tcompression_level="
                                    ++ (decimal h.compression_level
                                        ++ (codes "\tblock_size="
                                            ++ (digits h.block_size
                                                ++ (codes "\ttotal_uncompressed="
                                                    ++ (digits idx.total_stream_size
                                                        ++ (codes "\ttotal_compressed="
                                                            ++ (digits (total_compressed_size idx)
                                                            ++ (newline ∷ []))))))))))))))))

module _ (pr : Printers) (fl : Floats) where
  unfoldable pub plain_entry : Index → FileEntry → Text
  unfolding target_column
  plain_entry idx f =
      let (size, compressed, ratio) = sizes_of fl idx f in
      type_label f.ftype
      ++ (tab
          ∷ (format_permissions f.permissions
              ++ (tab
                  ∷ (digits size
                      ++ (tab
                          ∷ (digits compressed
                              ++ (tab
                                  ∷ (digits ratio
                                      ++ (tab
                                          ∷ (digits f.timestamp
                                              ++ (tab
                                                  ∷ (pr.display f.path
                                                      ++ target_column pr f))))))))))))

  unfoldable pub plain_entries : Index → List FileEntry → Text
  unfolding plain_entry
  plain_entries idx [] = []
  plain_entries idx (f ∷ files) = plain_entry idx f ++ plain_entries idx files

  -- What goes to stdout.
  unfoldable pub print_plain : Header → Index → Text → Text
  unfolding plain_header plain_entries
  print_plain h idx archive_path = plain_header h idx archive_path ++ plain_entries idx idx.files
