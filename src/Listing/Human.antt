-- ===== src/Listing/Human.antt =====
-- src/list.rs, `print_human`: the archive in lines, a table of its entries, and the totals.
use cryo.Base.{ℕ, ◌+◌, ◌-◌, ◌%◌, Option, none, some, List, [], ◌∷◌, ◌++◌, length, replicate}
use cryo.Base.Bytes.{u64_mod}
use cryo.Base.Text.{Text, codes, digits}
use cryo.Format.{FileType, FileEntry, Header, Index}
use cryo.Format.Sizes.{Floats, total_compressed_size, file_compressed_size}
use cryo.Listing.Columns.{compression_label, encryption_label, type_label, percent}
use cryo.Listing.Permissions.{format_permissions}
use cryo.Listing.Timestamp.{format_timestamp}
use cryo.Printers.{Printers}

-- `{:<width}` and `{:>width}`
abbrev align_left : ℕ → Text → Text
align_left width s = s ++ replicate (width - length s) b' '

abbrev align_right : ℕ → Text → Text
align_right width s = replicate (width - length s) b' ' ++ s

-- `\x1b[` with what follows it, and the end of the colours.
abbrev style : Text → Text
style s = 0x1b ∷ b'[' ∷ s

abbrev plain_style : Text
plain_style = style (codes "0m")

-- `println!`
abbrev line : Text → Text
line s = s ++ codes "\n"

-- A dim label with a value behind it.
abbrev fact : Text → Text → Text
fact label value = line (codes "  " ++ (style (codes "2m") ++ (label ++ (plain_style ++ value))))

abbrev ruler : Text
ruler = line (codes "  " ++ replicate 80 0x2500)

abbrev color : FileType → Text
color FileType.file = []
color FileType.dir = style (codes "34m")
color FileType.symlink = style (codes "36m")

-- The ratio behind the totals.
abbrev archive_ratio : Option ℕ → Text
archive_ratio (some r) = digits r ++ codes "%"
archive_ratio none = codes "--"

-- The names of the columns.
abbrev titles : Text
titles = line (
    codes "  "
    ++ (style (codes "2m")
        ++ (align_left 9 (codes "Perms")
            ++ (codes "  "
                ++ (align_left 4 (codes "Type")
                    ++ (codes "  "
                        ++ (align_right 10 (codes "Size")
                            ++ (codes "  "
                                ++ (align_right 5 (codes "Ratio")
                                    ++ (codes "  "
                                        ++ (align_left 19 (codes "Modified")
                                            ++ (codes "  Path" ++ plain_style))))))))))))

module _ (pr : Printers) (fl : Floats) where
  abbrev size_columns : Index → FileEntry → Text × Text
  size_columns idx f = elim f.ftype [
    | FileType.file ↦ (
      pr.byte_size_right f.size,
      elim (percent (file_compressed_size fl idx f) f.size) [
        | some r ↦ align_right 4 (digits r) ++ codes "%"
        | none ↦ codes "   --"
      ],
    )
    | other ↦ (align_right 10 (codes "---"), codes "   --")
  ]

  abbrev path_column : FileEntry → Text
  path_column f = elim f.symlink_target [
    | some target ↦
        color f.ftype
        ++ (pr.display f.path
            ++ (plain_style
                ++ (codes " "
                    ++ (style (codes "2m")
                        ++ (codes "->"
                            ++ (plain_style
                                ++ (codes " "
                                    ++ (color f.ftype ++ (pr.display target ++ plain_style)))))))))
    | none ↦ color f.ftype ++ (pr.display f.path ++ plain_style)
  ]

  unfoldable pub human_entry : Index → FileEntry → Text
  human_entry idx f =
      let (size, ratio) = size_columns idx f in
      line (
        codes "  "
        ++ (format_permissions f.permissions
            ++ (codes "  "
                ++ (color f.ftype
                    ++ (align_left 4 (type_label f.ftype)
                        ++ (plain_style
                            ++ (codes "  "
                                ++ (size
                                    ++ (codes "  "
                                        ++ (ratio
                                            ++ (codes "  "
                                                ++ (format_timestamp f.timestamp
                                                    ++ (codes "  " ++ path_column f)))))))))))))

  -- The lines of the entries, and `total_size` behind them.
  unfoldable pub human_entries : Index → ℕ → List FileEntry → Text × ℕ
  unfolding human_entry
  human_entries idx total_size [] = ([], total_size)
  human_entries idx total_size (f ∷ files) =
      let total : ℕ = elim f.ftype [
        | FileType.file ↦ (total_size + f.size) % u64_mod
        | other ↦ total_size
      ] in
      let (lines, end) = human_entries idx total files in (human_entry idx f ++ lines, end)

  abbrev human_totals : Index → ℕ → Text
  human_totals idx total_size =
      let total_compressed = total_compressed_size idx in
      line (
        codes "  "
        ++ (style (codes "1m")
            ++ (codes "Total:"
                ++ (plain_style
                    ++ (codes " "
                        ++ (pr.byte_size total_size
                            ++ (codes " uncompressed  "
                                ++ (pr.byte_size total_compressed
                                    ++ (codes " compressed  ("
                                        ++ (archive_ratio (percent total_compressed total_size)
                                            ++ (codes ")  ("
                                                ++ (digits (length idx.files)
                                                    ++ codes " entries)"))))))))))))

  abbrev human_facts : Header → Index → Text → Text
  human_facts h idx archive_path =
      line
        (style (codes "1m") ++ (codes "Archive:" ++ (plain_style ++ (codes "  " ++ archive_path))))
      ++ (fact (codes "version:") (codes "     " ++ digits h.version)
          ++ (fact (codes "encryption:") (codes "  " ++ encryption_label h.encryption)
              ++ (fact (codes "compression:") (codes " " ++ compression_label h)
                  ++ (fact (codes "block size:") (codes "  " ++ pr.byte_size h.block_size)
                      ++ (fact (codes "files:") (codes "       " ++ digits (length idx.files))
                          ++ line [])))))

  abbrev human_table : Index → Text
  human_table idx =
      let (lines, total_size) = human_entries idx 0 idx.files in
      titles ++ (ruler ++ (lines ++ (ruler ++ human_totals idx total_size)))

  -- What goes to stdout.
  unfoldable pub print_human : Header → Index → Text → Text
  unfolding human_entries
  print_human h idx archive_path =
      human_facts h idx archive_path
      ++ elim idx.files [ [] ↦ line (codes "  (empty archive)") | f ∷ files ↦ human_table idx ]
