-- ===== src/Listing/Document/Reads.antt =====
-- What `print_json` prints is the document of the archive.
use cryo.Base.{
  ◌≡◌, refl, sym, ap, ◌∙◌, Option, none, some, List, [], ◌∷◌, ◌++◌, append_assoc, append-nil, arith,
}
use cryo.Base.Int.{pos}
use cryo.Base.Text.{Text, codes}
use cryo.Format.{FileEntry, Header, Index}
use cryo.Format.Sizes.{Floats, total_compressed_size}
use cryo.Listing.Columns.{algo_name, encryption_label, type_label, sizes_of}
use cryo.Listing.Document.{target_field, json_entry, json_entries, print_json}
use cryo.Listing.Document.Grammar.{
  Value, Elements, Members, number, string, no_items, array, object, last_item, item, last_member,
  member, IsJson, field, target_member, shown_target, entry_object, entry_items, document, Json,
}
use cryo.Listing.Json.Spells.{Spells, ◌&◌}
use cryo.Listing.Json.Tokens.{
  Token, open_object, close_object, open_array, close_array, comma, colon, num, str, between, emit,
  step, emit-some, tokens,
}
use cryo.Listing.Permissions.{format_permissions}
use cryo.Printers.{Printers}
use mathlib.Core.Path.{subst}
use cryo.Listing.Document.Lines.{
  key, string_tokens, number_tokens, comma_line, newline_rest, spelt, target_tokens, target_text,
  last_line-Spells, string_line-Spells, decimal_line-Spells,
}

module _ (pr : Printers) (fl : Floats) where
  abbrev entry_tokens : Index → FileEntry → List Token
  entry_tokens idx f =
      let (size, compressed, ratio) = sizes_of fl idx f in
      (open_object ∷ [])
      ++ (string_tokens (codes "type") (type_label f.ftype)
          ++ (string_tokens (codes "path") (pr.display f.path)
              ++ (string_tokens (codes "permissions") (format_permissions f.permissions)
                  ++ (number_tokens (codes "size") (pos size)
                      ++ (number_tokens (codes "compressed") (pos compressed)
                          ++ (number_tokens (codes "ratio") (pos ratio)
                              ++ (key (codes "modified")
                                  ++ ((num (pos f.timestamp) ∷ target_tokens (shown_target pr fl f))
                                      ++ (close_object ∷ [])))))))))

  target_field-shown : (f : FileEntry) → target_field pr fl f ≡ target_text (shown_target pr fl f)
  unfolding target_field
  target_field-shown f = ground arith

  json_entry-Spells :
      (idx : Index) (f : FileEntry) → Spells (json_entry pr fl idx f) (entry_tokens idx f)
  unfolding json_entry tokens step
  json_entry-Spells idx f =
      let (size, compressed, ratio) = sizes_of fl idx f in
      spelt (codes "    {\n") (open_object ∷ []) (λ r. refl)
      & string_line-Spells (codes "      \"type\": ") (codes "type") (record { apply = λ r. refl })
          (type_label f.ftype)
      & string_line-Spells (codes "      \"path\": ") (codes "path") (record { apply = λ r. refl })
          (pr.display f.path)
      & string_line-Spells (codes "      \"permissions\": ") (codes "permissions")
          (record { apply = λ r. refl }) (format_permissions f.permissions)
      & decimal_line-Spells (codes "      \"size\": ") (codes "size") (record { apply = λ r. refl })
          (pos size)
      & decimal_line-Spells (codes "      \"compressed\": ") (codes "compressed")
          (record { apply = λ r. refl }) (pos compressed)
      & decimal_line-Spells (codes "      \"ratio\": ") (codes "ratio")
          (record { apply = λ r. refl }) (pos ratio)
      & spelt (codes "      \"modified\": ") (key (codes "modified")) (λ r. refl)
      & last_line-Spells f.timestamp (shown_target pr fl f) (target_field pr fl f)
          (target_field-shown f)

  abbrev entries_tokens : Index → List FileEntry → List Token
  entries_tokens idx [] = []
  entries_tokens idx (f ∷ []) = entry_tokens idx f ++ []
  entries_tokens idx (f ∷ g ∷ files) =
      entry_tokens idx f ++ ((comma ∷ []) ++ entries_tokens idx (g ∷ files))

  json_entries-Spells :
      (idx : Index) (files : List FileEntry)
      → Spells (json_entries pr fl idx files) (entries_tokens idx files)
  unfolding json_entries
  json_entries-Spells idx [] = spelt [] [] (λ r. refl)
  json_entries-Spells idx (f ∷ []) = json_entry-Spells idx f & newline_rest
  json_entries-Spells idx (f ∷ g ∷ files) =
      json_entry-Spells idx f & comma_line & json_entries-Spells idx (g ∷ files)

  abbrev document_tokens : Header → Index → Text → List Token
  document_tokens h idx archive_path =
      (open_object ∷ [])
      ++ (string_tokens (codes "archive") archive_path
          ++ (number_tokens (codes "version") (pos h.version)
              ++ (string_tokens (codes "encryption") (encryption_label h.encryption)
                  ++ (string_tokens (codes "compression") (algo_name h.compression)
                      ++ (number_tokens (codes "compression_level") h.compression_level
                          ++ (number_tokens (codes "block_size") (pos h.block_size)
                              ++ (number_tokens (codes "total_uncompressed")
                                    (pos idx.total_stream_size)
                                  ++ (number_tokens (codes "total_compressed")
                                        (pos (total_compressed_size idx))
                                      ++ ((str (codes "files") ∷ colon ∷ open_array ∷ [])
                                          ++ (entries_tokens idx idx.files
                                              ++ (close_array ∷ close_object ∷ [])))))))))))

  print_json-Spells :
      (h : Header) (idx : Index) (archive_path : Text)
      → Spells (print_json pr fl h idx archive_path) (document_tokens h idx archive_path)
  unfolding print_json tokens step
  print_json-Spells h idx archive_path =
      spelt (codes "{\n") (open_object ∷ []) (λ r. refl)
      & string_line-Spells (codes "  \"archive\": ") (codes "archive")
          (record { apply = λ r. refl }) archive_path
      & decimal_line-Spells (codes "  \"version\": ") (codes "version")
          (record { apply = λ r. refl }) (pos h.version)
      & string_line-Spells (codes "  \"encryption\": ") (codes "encryption")
          (record { apply = λ r. refl }) (encryption_label h.encryption)
      & string_line-Spells (codes "  \"compression\": ") (codes "compression")
          (record { apply = λ r. refl }) (algo_name h.compression)
      & decimal_line-Spells (codes "  \"compression_level\": ") (codes "compression_level")
          (record { apply = λ r. refl }) h.compression_level
      & decimal_line-Spells (codes "  \"block_size\": ") (codes "block_size")
          (record { apply = λ r. refl }) (pos h.block_size)
      & decimal_line-Spells (codes "  \"total_uncompressed\": ") (codes "total_uncompressed")
          (record { apply = λ r. refl }) (pos idx.total_stream_size)
      & decimal_line-Spells (codes "  \"total_compressed\": ") (codes "total_compressed")
          (record { apply = λ r. refl }) (pos (total_compressed_size idx))
      & spelt (codes "  \"files\": [\n") (str (codes "files") ∷ colon ∷ open_array ∷ []) (λ r. refl)
      & json_entries-Spells idx idx.files
      & spelt (codes "  ]\n}\n") (close_array ∷ close_object ∷ []) (λ r. refl)

  -- The entry's tokens spell its object.
  entry-Value :
      (idx : Index) (f : FileEntry) (us : List Token)
      → Value (entry_object pr fl idx f) (entry_tokens idx f ++ us) us
  entry-Value idx f us =
      let (size, compressed, ratio) = sizes_of fl idx f in
      object _ _ us (
        member _ _ _ _ _ us (string (type_label f.ftype) _) (
          member _ _ _ _ _ us (string (pr.display f.path) _) (
            member _ _ _ _ _ us (string (format_permissions f.permissions) _) (
              member _ _ _ _ _ us (number (pos size) _) (
                member _ _ _ _ _ us (number (pos compressed) _) (
                  member _ _ _ _ _ us (number (pos ratio) _)
                    (on_target (shown_target pr fl f))))))))
    where
      on_target :
          (o : Option Text)
          → Members
              (field (codes "modified") (Json.num (pos f.timestamp)) (target_member pr fl o))
              (key (codes "modified")
                ++ (((num (pos f.timestamp) ∷ target_tokens o) ++ (close_object ∷ [])) ++ us))
              us
      on_target none = last_member _ _ _ us (number (pos f.timestamp) _)
      on_target (some t) =
          member _ _ _ _ _ us (number (pos f.timestamp) _) (last_member _ _ _ us (string t _))

  entries-Elements :
      (idx : Index) (f : FileEntry) (files : List FileEntry) (us : List Token)
      → Elements
          (entry_items pr fl idx (f ∷ files))
          (entries_tokens idx (f ∷ files) ++ (close_array ∷ us))
          us
  entries-Elements idx f [] us = last_item _ _ us (
      subst (λ (ts : List Token). Value (entry_object pr fl idx f) ts (close_array ∷ us))
        (sym (append_assoc (entry_tokens idx f) [] (close_array ∷ us)))
        (entry-Value idx f (close_array ∷ us)))
  entries-Elements idx f (g ∷ files) us =
      let rest = entries_tokens idx (g ∷ files) ++ (close_array ∷ us) in
      item _ _ _ rest us
        (subst (λ (ts : List Token). Value (entry_object pr fl idx f) ts (comma ∷ rest))
          (sym (
            append_assoc (entry_tokens idx f) (comma ∷ entries_tokens idx (g ∷ files))
              (close_array ∷ us)))
          (entry-Value idx f (comma ∷ rest)))
        (entries-Elements idx g files us)

  entries-Value :
      (idx : Index) (files : List FileEntry) (us : List Token)
      → Value
          (Json.arr (entry_items pr fl idx files))
          (open_array ∷ (entries_tokens idx files ++ (close_array ∷ us)))
          us
  entries-Value idx [] us = no_items us
  entries-Value idx (f ∷ files) us = array _ _ us (entries-Elements idx f files us)

  document-Value :
      (h : Header) (idx : Index) (archive_path : Text)
      → Value (document pr fl h idx archive_path) (document_tokens h idx archive_path) []
  document-Value h idx archive_path = object _ _ [] (
      member _ _ _ _ _ [] (string archive_path _) (
        member _ _ _ _ _ [] (number (pos h.version) _) (
          member _ _ _ _ _ [] (string (encryption_label h.encryption) _) (
            member _ _ _ _ _ [] (string (algo_name h.compression) _) (
              member _ _ _ _ _ [] (number h.compression_level _) (
                member _ _ _ _ _ [] (number (pos h.block_size) _) (
                  member _ _ _ _ _ [] (number (pos idx.total_stream_size) _) (
                    member _ _ _ _ _ [] (number (pos (total_compressed_size idx)) _) (
                      last_member _ _ _ []
                        (entries-Value idx idx.files (close_object ∷ [])))))))))))

  -- What `list --format json` prints for an archive is one JSON document, with nothing beside it,
  -- whatever characters the paths have: an object with the archive's path, version, cipher,
  -- compressor, level, block size and totals, and with an array of one object for each entry, in
  -- their order, that has its type, path, permissions, sizes, ratio and time, and for a link its
  -- target.
  pub print_json-IsJson :
      (h : Header) (idx : Index) (archive_path : Text)
      → IsJson (print_json pr fl h idx archive_path) (document pr fl h idx archive_path)
  print_json-IsJson h idx archive_path =
      let ts = document_tokens h idx archive_path in
      let text = print_json pr fl h idx archive_path in
      (
        ts,
        ap (tokens between) (sym (append-nil text))
            ∙ (print_json-Spells h idx archive_path).apply []
            ∙ ap (emit ts) all_read
            ∙ emit-some ts []
            ∙ ap some (append-nil ts),
        document-Value h idx archive_path,
      )
    where
      all_read : tokens between [] ≡ some []
      all_read = unfold tokens in refl
