-- ===== src/Tests/Scan.antt =====
-- A small directory tree.
use cryo.Base.{◌≡◌, refl, true, some, List, [], ◌∷◌, arith, if◌then◌else◌, inr, inl}
use cryo.Create.Scan.{DirReader, directory, regular, special, retrieve_all_files}
use cryo.Create.Scan.Trees.{Forest, bare, grow, listing, walk, count}
use cryo.Create.Scan.Whole.{retrieve_all_files-walk}
use cryo.Errors.{ok, os_error}
use cryo.FilePath.{FilePath, root_dir, normal, path_eq, component_eq}

abbrev inner : Forest
inner = grow "x" regular bare (grow "pipe" special bare bare)

abbrev tree : Forest
tree = grow "d" directory inner (grow "b" regular bare bare)

abbrev root : FilePath
root = root_dir ∷ normal "in" ∷ []

abbrev reader : DirReader
reader = record {
  read_dir = λ p.
      if path_eq p root
      then inr (listing tree)
      else if path_eq p (root_dir ∷ normal "in" ∷ normal "d" ∷ [])
      then inr (listing inner)
      else inl (os_error 2);
  name_le = λ a b. true;
}

retrieve_all_files-walk_example :
    (found : List FilePath) × (retrieve_all_files reader 3 root ≡ some (ok found))
    × ((p : FilePath) → count p found ≡ count p (walk root tree))
unfolding path_eq component_eq
retrieve_all_files-walk_example =
    retrieve_all_files-walk reader 3 root tree refl (refl, tt, tt) (omega arith)
