-- ===== src/Listing/Plain/Clean.antt =====
-- What `print_plain` prints beside the paths has no tab and no line end.
use cryo.Base.{ℕ, ap, ◌∙◌, [], ◌∷◌, ◌++◌, ◌==◌, arith, inl, inr}
use cryo.Base.Int.{ℤ}
use cryo.Base.Tables.{tab, newline, Lacks, IsClean, IsClean-append, decimal-IsClean}
use cryo.Base.Text.{Text, codes, decimal}
use cryo.Engine.Algo.{Compressor}
use cryo.Format.{FileType, EncryptionType}
use cryo.Listing.Columns.{algo_name, encryption_label, type_label}
use cryo.Listing.Permissions.{format_permissions, mode_of-format_permissions, InColumns}

pub number-IsClean : (s : Text) (z : ℤ) → IsClean s → IsClean (s ++ decimal z)
number-IsClean s z h = IsClean-append s (decimal z) h (decimal-IsClean z)

pub type_label-IsClean : (t : FileType) → IsClean (type_label t)
unfolding type_label
type_label-IsClean FileType.file = ground arith
type_label-IsClean FileType.dir = ground arith
type_label-IsClean FileType.symlink = ground arith

pub encryption_label-IsClean : (e : EncryptionType) → IsClean (encryption_label e)
unfolding encryption_label
encryption_label-IsClean EncryptionType.aes = ground arith
encryption_label-IsClean EncryptionType.cha_cha = ground arith
encryption_label-IsClean EncryptionType.none = ground arith

pub algo_name-IsClean : (c : Compressor) → IsClean (algo_name c)
unfolding algo_name
algo_name-IsClean Compressor.zstd = ground arith
algo_name-IsClean Compressor.xz = ground arith
algo_name-IsClean Compressor.deflate = ground arith
algo_name-IsClean Compressor.none = ground arith

InColumns-Lacks :
    (mark : ℕ) (s letters : Text) → InColumns s letters → Lacks mark (b'-' ∷ letters) → Lacks mark s
InColumns-Lacks mark [] [] h lacks = tt
InColumns-Lacks mark (c ∷ s) (l ∷ letters) h lacks = (
  elim h.0 [
    | inl e ↦ ap (λ (x : ℕ). x == mark) e ∙ lacks.0
    | inr e ↦ ap (λ (x : ℕ). x == mark) e ∙ lacks.1.0
  ],
  InColumns-Lacks mark s letters h.1 (lacks.0, lacks.1.1),
)
InColumns-Lacks mark [] (l ∷ letters) h lacks = absurd h
InColumns-Lacks mark (c ∷ s) [] h lacks = absurd h

pub format_permissions-IsClean : (perms : ℕ) → IsClean (format_permissions perms)
format_permissions-IsClean perms =
    let h = (mode_of-format_permissions perms).1 in
    let s = format_permissions perms in
    (
      InColumns-Lacks tab s (codes "rwxrwxrwx") h (ground arith),
      InColumns-Lacks newline s (codes "rwxrwxrwx") h (ground arith),
    )
