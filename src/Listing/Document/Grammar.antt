-- ===== src/Listing/Document/Grammar.antt =====
-- JSON documents, from RFC 8259, and the document that `list --format json` means.
use cryo.Base.{ℕ, Option, none, some, List, [], ◌∷◌, ◌≡◌}
use cryo.Base.Int.{ℤ, pos}
use cryo.Base.Text.{Text, codes}
use cryo.Format.{FileEntry, Header, Index}
use cryo.Format.Sizes.{Floats, total_compressed_size}
use cryo.Listing.Columns.{algo_name, encryption_label, type_label, sizes_of}
use cryo.Listing.Json.Tokens.{
  Token, open_object, close_object, open_array, close_array, comma, colon, between, tokens,
}
use cryo.Listing.Permissions.{format_permissions}
use cryo.Printers.{Printers}

mutual
  pub data Json : Type 0 where
    num : ℤ → Json
    str : Text → Json
    arr : Items → Json
    obj : Fields → Json

  pub data Items : Type 0 where
    nil : Items
    cons : Json → Items → Items

  pub data Fields : Type 0 where
    end : Fields
    field : Text → Json → Fields → Fields

-- `Value v ts us`: the tokens `ts` begin with a spelling of `v`, and `us` are left.
mutual
  pub data Value : Json → List Token → List Token → Type 0 where
    number : (z : ℤ) (us : List Token) → Value (num z) (Token.num z ∷ us) us
    string : (s : Text) (us : List Token) → Value (str s) (Token.str s ∷ us) us
    no_items : (us : List Token) → Value (arr nil) (open_array ∷ close_array ∷ us) us
    array :
        (xs : Items) (ts us : List Token) → Elements xs ts us → Value (arr xs) (open_array ∷ ts) us
    no_fields : (us : List Token) → Value (obj end) (open_object ∷ close_object ∷ us) us
    object :
        (fs : Fields) (ts us : List Token) → Members fs ts us → Value (obj fs) (open_object ∷ ts) us

  -- Behind the opening mark, up to the closing one.
  pub data Elements : Items → List Token → List Token → Type 0 where
    last_item :
        (v : Json) (ts us : List Token)
        → Value v ts (close_array ∷ us)
        → Elements (cons v nil) ts us
    item :
        (v : Json) (xs : Items) (ts more us : List Token)
        → Value v ts (comma ∷ more)
        → Elements xs more us
        → Elements (cons v xs) ts us

  pub data Members : Fields → List Token → List Token → Type 0 where
    last_member :
        (k : Text) (v : Json) (ts us : List Token)
        → Value v ts (close_object ∷ us)
        → Members (field k v end) (Token.str k ∷ colon ∷ ts) us
    member :
        (k : Text) (v : Json) (fs : Fields) (ts more us : List Token)
        → Value v ts (comma ∷ more)
        → Members fs more us
        → Members (field k v fs) (Token.str k ∷ colon ∷ ts) us

-- The text is the document `v` and nothing beside it.
abbrev pub IsJson : Text → Json → Type 0
IsJson s v = (ts : List Token) × (tokens between s ≡ some ts) × Value v ts []

-- What a listing says, as a document.
module _ (pr : Printers) (fl : Floats) where
  abbrev pub target_member : Option (List ℕ) → Fields
  target_member none = end
  target_member (some t) = field (codes "target") (str t) end

  abbrev pub shown_target : FileEntry → Option Text
  shown_target f = elim f.symlink_target [ none ↦ none | some t ↦ some (pr.display t) ]

  abbrev pub entry_object : Index → FileEntry → Json
  entry_object idx f =
      let (size, compressed, ratio) = sizes_of fl idx f in
      obj (
        field (codes "type") (str (type_label f.ftype)) (
          field (codes "path") (str (pr.display f.path)) (
            field (codes "permissions") (str (format_permissions f.permissions)) (
              field (codes "size") (num (pos size)) (
                field (codes "compressed") (num (pos compressed)) (
                  field (codes "ratio") (num (pos ratio)) (
                    field (codes "modified") (num (pos f.timestamp))
                      (target_member (shown_target f)))))))))

  abbrev pub entry_items : Index → List FileEntry → Items
  entry_items idx [] = nil
  entry_items idx (f ∷ files) = cons (entry_object idx f) (entry_items idx files)

  abbrev pub document : Header → Index → Text → Json
  document h idx archive_path = obj (
      field (codes "archive") (str archive_path) (
        field (codes "version") (num (pos h.version)) (
          field (codes "encryption") (str (encryption_label h.encryption)) (
            field (codes "compression") (str (algo_name h.compression)) (
              field (codes "compression_level") (num h.compression_level) (
                field (codes "block_size") (num (pos h.block_size)) (
                  field (codes "total_uncompressed") (num (pos idx.total_stream_size)) (
                    field (codes "total_compressed") (num (pos (total_compressed_size idx)))
                      (field (codes "files") (arr (entry_items idx idx.files)) end)))))))))
