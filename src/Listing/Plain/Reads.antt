-- ===== src/Listing/Plain/Reads.antt =====
-- A reader of what `print_plain` prints: the columns of the first line, and a row for each line
-- behind it.
use cryo.Base.{
  ℕ, ◌%◌, ◌≡◌, refl, sym, ap, ◌∙◌, Option, none, some, List, [], ◌∷◌, ◌++◌, map, All, arith,
  bytes_eq, if◌then◌else◌,
}
use mathlib.Core.Path.{subst}
use cryo.Base.Int.{pos}
use cryo.Base.Tables.{
  tab, newline, IsClean, IsClean-append, table, Fills, column, last_column, decimal-IsClean,
  table-nil, number_of, number_of-digits,
}
use cryo.Base.Text.{Text, codes, digits, decimal}
use cryo.Format.{FileType, FileEntry, Header, Index}
use cryo.Format.Sizes.{Floats, total_compressed_size}
use cryo.Listing.Columns.{algo_name, encryption_label, type_label, sizes_of}
use cryo.Listing.Permissions.{format_permissions, mode_of, mode_of-format_permissions}
use cryo.Printers.{Printers}
use cryo.Listing.Plain.{target_column, plain_entry, plain_entries, plain_header, print_plain}
use cryo.Listing.Plain.Clean.{
  number-IsClean, type_label-IsClean, encryption_label-IsClean, algo_name-IsClean,
  format_permissions-IsClean,
}

pub record Row : Type 0 where
  pub ftype : FileType
  pub mode : ℕ
  pub size : ℕ
  pub compressed : ℕ
  pub ratio : ℕ
  pub timestamp : ℕ
  pub path : Text
  pub target : Option Text

abbrev read_type : Text → Option FileType
read_type t =
    if bytes_eq t (codes "file")
    then some FileType.file
    else if bytes_eq t (codes "dir")
    then some FileType.dir
    else if bytes_eq t (codes "link")
    then some FileType.symlink
    else none

abbrev first : List Text → Option Text
first [] = none
first (t ∷ more) = some t

row : Option FileType → ℕ → ℕ → ℕ → ℕ → ℕ → Text → Option Text → Option Row
row none mode size compressed ratio timestamp path target = none
row (some ftype) mode size compressed ratio timestamp path target = some (record {
  ftype = ftype;
  mode = mode;
  size = size;
  compressed = compressed;
  ratio = ratio;
  timestamp = timestamp;
  path = path;
  target = target;
})

-- The columns of a line: six, the path, and a target that may follow.
read_row : List Text → Option Row
read_row (ty ∷ perms ∷ size ∷ compressed ∷ ratio ∷ time ∷ path ∷ more) =
    row (read_type ty) (mode_of 0 perms) (number_of 0 size) (number_of 0 compressed)
      (number_of 0 ratio) (number_of 0 time) path (first more)
read_row _ = none

-- The columns of the first line, and the rows behind it.
abbrev read_table : List (List Text) → Option (List Text × List (Option Row))
read_table [] = none
read_table (line ∷ lines) = some (line, map read_row lines)

pub read_plain : Text → Option (List Text × List (Option Row))
unfolding read_row
read_plain s = read_table (table s)

abbrev CleanTarget : Option Text → Type 0
CleanTarget none = Unit
CleanTarget (some t) = IsClean t

read_type-type_label : (t : FileType) → read_type (type_label t) ≡ some t
unfolding type_label bytes_eq
read_type-type_label FileType.file = refl
read_type-type_label FileType.dir = refl
read_type-type_label FileType.symlink = refl

module _ (pr : Printers) (fl : Floats) where
  abbrev displayed : FileEntry → Option Text
  displayed f = elim f.symlink_target [ none ↦ none | some t ↦ some (pr.display t) ]

  -- What an entry's line says.
  abbrev pub row_of : Index → FileEntry → Row
  row_of idx f =
      let (size, compressed, ratio) = sizes_of fl idx f in
      record {
        ftype = f.ftype;
        mode = f.permissions % 512;
        size = size;
        compressed = compressed;
        ratio = ratio;
        timestamp = f.timestamp;
        path = pr.display f.path;
        target = displayed f;
      }

  -- The columns of the first line.
  abbrev pub header_columns : Header → Index → Text → List Text
  header_columns h idx archive_path =
      (codes "# archive=" ++ archive_path)
      ∷ (codes "version=" ++ digits h.version)
      ∷ (codes "encryption=" ++ encryption_label h.encryption)
      ∷ (codes "compression=" ++ algo_name h.compression)
      ∷ (codes "compression_level=" ++ decimal h.compression_level)
      ∷ (codes "block_size=" ++ digits h.block_size)
      ∷ (codes "total_uncompressed=" ++ digits idx.total_stream_size)
      ∷ (codes "total_compressed=" ++ digits (total_compressed_size idx))
      ∷ []

  -- The paths of an entry have no tab and no line end.
  abbrev pub HasCleanPaths : FileEntry → Type 0
  HasCleanPaths f = IsClean (pr.display f.path) × CleanTarget (displayed f)

  abbrev path_columns : Text → Option Text → List Text
  path_columns path none = path ∷ []
  path_columns path (some t) = path ∷ t ∷ []

  abbrev entry_columns : Index → FileEntry → List Text
  entry_columns idx f =
      let (size, compressed, ratio) = sizes_of fl idx f in
      type_label f.ftype
      ∷ format_permissions f.permissions
      ∷ digits size
      ∷ digits compressed
      ∷ digits ratio
      ∷ digits f.timestamp
      ∷ path_columns (pr.display f.path) (displayed f)

  abbrev target_text : Option Text → Text
  target_text (some t) = tab ∷ (t ++ (newline ∷ []))
  target_text none = newline ∷ []

  paths-Fills :
      (path : Text) (o : Option Text)
      → IsClean path
      → CleanTarget o
      → Fills (path ++ target_text o) (λ rows. path_columns path o ∷ rows)
  paths-Fills path none p h = last_column path p
  paths-Fills path (some t) p h = column path p (last_column t h)

  target_column-displayed : (f : FileEntry) → target_column pr f ≡ target_text (displayed f)
  unfolding target_column
  target_column-displayed f = ground arith

  plain_entry-Fills :
      (idx : Index) (f : FileEntry)
      → HasCleanPaths f
      → Fills (plain_entry pr fl idx f) (λ rows. entry_columns idx f ∷ rows)
  unfolding plain_entry
  plain_entry-Fills idx f clean =
      let (size, compressed, ratio) = sizes_of fl idx f in
      column (type_label f.ftype) (type_label-IsClean f.ftype) (
        column (format_permissions f.permissions) (format_permissions-IsClean f.permissions) (
          column (digits size) (decimal-IsClean (pos size)) (
            column (digits compressed) (decimal-IsClean (pos compressed)) (
              column (digits ratio) (decimal-IsClean (pos ratio)) (
                column (digits f.timestamp) (decimal-IsClean (pos f.timestamp)) (
                  subst
                    (λ (s : Text).
                      Fills (pr.display f.path ++ s)
                        (λ rows. path_columns (pr.display f.path) (displayed f) ∷ rows))
                    (sym (target_column-displayed f))
                    (paths-Fills (pr.display f.path) (displayed f) clean.0 clean.1)))))))

  table-plain_entries :
      (idx : Index) (files : List FileEntry)
      → All HasCleanPaths files
      → table (plain_entries pr fl idx files) ≡ map (entry_columns idx) files
  unfolding plain_entries
  table-plain_entries idx [] clean = table-nil
  table-plain_entries idx (f ∷ files) clean =
      (plain_entry-Fills idx f clean.0).apply (plain_entries pr fl idx files)
      ∙ ap (λ (rows : List (List Text)). entry_columns idx f ∷ rows)
          (table-plain_entries idx files clean.1)

  row_eq :
      (f : FileEntry) (sizes : ℕ × ℕ × ℕ) (o : Option Text)
      → row
          (read_type (type_label f.ftype))
          (mode_of 0 (format_permissions f.permissions))
          (number_of 0 (digits sizes.0))
          (number_of 0 (digits sizes.1))
          (number_of 0 (digits sizes.2))
          (number_of 0 (digits f.timestamp))
          (pr.display f.path)
          o
        ≡ row
            (some f.ftype)
            (f.permissions % 512)
            sizes.0
            sizes.1
            sizes.2
            f.timestamp
            (pr.display f.path)
            o
  row_eq f sizes o = cc (
    read_type-type_label f.ftype,
    (mode_of-format_permissions f.permissions).0,
    number_of-digits sizes.0,
    number_of-digits sizes.1,
    number_of-digits sizes.2,
    number_of-digits f.timestamp,
  )

  read_row-entry_columns :
      (idx : Index) (f : FileEntry) → read_row (entry_columns idx f) ≡ some (row_of idx f)
  unfolding read_row row
  read_row-entry_columns idx f = on_target (displayed f)
    where
      on_target :
          (o : Option Text)
          → read_row (
              type_label f.ftype
              ∷ format_permissions f.permissions
              ∷ digits (sizes_of fl idx f).0
              ∷ digits (sizes_of fl idx f).1
              ∷ digits (sizes_of fl idx f).2
              ∷ digits f.timestamp
              ∷ path_columns (pr.display f.path) o)
            ≡ row
                (some f.ftype)
                (f.permissions % 512)
                (sizes_of fl idx f).0
                (sizes_of fl idx f).1
                (sizes_of fl idx f).2
                f.timestamp
                (pr.display f.path)
                o
      on_target none = row_eq f (sizes_of fl idx f) none
      on_target (some t) = row_eq f (sizes_of fl idx f) (some t)

  plain_header-Fills :
      (h : Header) (idx : Index) (archive_path : Text)
      → IsClean archive_path
      → Fills (plain_header h idx archive_path) (λ rows. header_columns h idx archive_path ∷ rows)
  unfolding plain_header
  plain_header-Fills h idx archive_path clean =
      column (codes "# archive=" ++ archive_path)
        (IsClean-append (codes "# archive=") archive_path (ground arith) clean)
        (column (codes "version=" ++ digits h.version)
          (number-IsClean (codes "version=") (pos h.version) (ground arith))
          (column (codes "encryption=" ++ encryption_label h.encryption)
            (IsClean-append (codes "encryption=") (encryption_label h.encryption) (ground arith)
              (encryption_label-IsClean h.encryption))
            (column (codes "compression=" ++ algo_name h.compression)
              (IsClean-append (codes "compression=") (algo_name h.compression) (ground arith)
                (algo_name-IsClean h.compression))
              (column (codes "compression_level=" ++ decimal h.compression_level)
                (number-IsClean (codes "compression_level=") h.compression_level (ground arith))
                (column (codes "block_size=" ++ digits h.block_size)
                  (number-IsClean (codes "block_size=") (pos h.block_size) (ground arith))
                  (column (codes "total_uncompressed=" ++ digits idx.total_stream_size)
                    (number-IsClean (codes "total_uncompressed=") (pos idx.total_stream_size)
                      (ground arith))
                    (last_column (codes "total_compressed=" ++ digits (total_compressed_size idx)) (
                      number-IsClean (codes "total_compressed=") (pos (total_compressed_size idx))
                        (ground arith)))))))))

  read_rows :
      (idx : Index) (files : List FileEntry)
      → map read_row (map (entry_columns idx) files) ≡ map (λ f. some (row_of idx f)) files
  read_rows idx [] = refl
  read_rows idx (f ∷ files) = cc (read_row-entry_columns idx f, read_rows idx files)

  -- Let no path that is shown have a tab or a line end. Then the rows and columns of what
  -- `list --format plain` prints are, in front, the archive's path, version, cipher, compressor,
  -- level, block size and totals, and behind them one row for each entry, in their order, that
  -- reads back as its type, its mode's lower nine bits, its sizes, ratio, time, path and target.
  pub read_plain-print_plain :
      (h : Header) (idx : Index) (archive_path : Text)
      → IsClean archive_path
      → All HasCleanPaths idx.files
      → read_plain (print_plain pr fl h idx archive_path)
        ≡ some (header_columns h idx archive_path, map (λ f. some (row_of idx f)) idx.files)
  unfolding read_plain print_plain
  read_plain-print_plain h idx archive_path clean paths =
      ap read_table (
        (plain_header-Fills h idx archive_path clean).apply (plain_entries pr fl idx idx.files)
        ∙ ap (λ (rows : List (List Text)). header_columns h idx archive_path ∷ rows)
            (table-plain_entries idx idx.files paths))
      ∙ ap (λ (rows : List (Option Row)). some (header_columns h idx archive_path, rows))
          (read_rows idx idx.files)
