-- ===== src/Listing/Document.antt =====
-- src/list.rs, `print_json`: the archive as a JSON document.
pub mod Grammar
pub mod Lines
pub mod Reads
use cryo.Base.{ℕ, Option, none, some, List, [], ◌∷◌, ◌++◌}
use cryo.Base.Int.{ℤ, pos}
use cryo.Base.Text.{Text, codes, digits, decimal}
use cryo.Format.{FileEntry, Header, Index}
use cryo.Format.Sizes.{Floats, total_compressed_size}
use cryo.Listing.Columns.{algo_name, encryption_label, type_label, sizes_of}
use cryo.Listing.Json.{js}
use cryo.Listing.Permissions.{format_permissions}
use cryo.Printers.{Printers}

-- A line that is a name, a value and a comma.
abbrev pub string_line : Text → Text → Text
string_line name s = name ++ (js s ++ codes ",\n")

abbrev pub integer_line : Text → ℤ → Text
integer_line name z = name ++ (decimal z ++ codes ",\n")

abbrev pub number_line : Text → ℕ → Text
number_line name n = integer_line name (pos n)

module _ (pr : Printers) (fl : Floats) where
  -- `target_field`, with the end of the line.
  unfoldable pub target_field : FileEntry → Text
  target_field f = elim f.symlink_target [
    | some t ↦ codes ",\n      \"target\": " ++ (js (pr.display t) ++ codes "\n")
    | none ↦ codes "\n"
  ]

  -- The lines of an entry, but for the comma behind the last.
  unfoldable pub json_entry : Index → FileEntry → Text
  unfolding target_field
  json_entry idx f =
      let (size, compressed, ratio) = sizes_of fl idx f in
      codes "    {\n"
      ++ (string_line (codes "      \"type\": ") (type_label f.ftype)
          ++ (string_line (codes "      \"path\": ") (pr.display f.path)
              ++ (string_line (codes "      \"permissions\": ") (format_permissions f.permissions)
                  ++ (number_line (codes "      \"size\": ") size
                      ++ (number_line (codes "      \"compressed\": ") compressed
                          ++ (number_line (codes "      \"ratio\": ") ratio
                              ++ (codes "      \"modified\": "
                                  ++ (digits f.timestamp
                                      ++ (target_field f ++ codes "    }")))))))))

  -- Each entry but the last has a comma behind it.
  unfoldable pub json_entries : Index → List FileEntry → Text
  unfolding json_entry
  json_entries idx [] = []
  json_entries idx (f ∷ []) = json_entry idx f ++ codes "\n"
  json_entries idx (f ∷ g ∷ files) =
      json_entry idx f ++ (codes ",\n" ++ json_entries idx (g ∷ files))

  -- What goes to stdout.
  unfoldable pub print_json : Header → Index → Text → Text
  unfolding json_entries
  print_json h idx archive_path =
      codes "{\n"
      ++ (string_line (codes "  \"archive\": ") archive_path
          ++ (number_line (codes "  \"version\": ") h.version
              ++ (string_line (codes "  \"encryption\": ") (encryption_label h.encryption)
                  ++ (string_line (codes "  \"compression\": ") (algo_name h.compression)
                      ++ (integer_line (codes "  \"compression_level\": ") h.compression_level
                          ++ (number_line (codes "  \"block_size\": ") h.block_size
                              ++ (number_line (codes "  \"total_uncompressed\": ")
                                    idx.total_stream_size
                                  ++ (number_line (codes "  \"total_compressed\": ")
                                        (total_compressed_size idx)
                                      ++ (codes "  \"files\": [\n"
                                          ++ (json_entries idx idx.files
                                              ++ codes "  ]\n}\n"))))))))))
