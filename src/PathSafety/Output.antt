-- ===== src/PathSafety/Output.antt =====
-- Where `safe_output_path` lets an archive write.
use cryo.Base.{
  ◌≡◌, refl, sym, ap, ◌∙◌, true, not, Option, none, some, List, [], ◌∷◌, ◌++◌, arith, All, ◌⊎◌, inl,
  inr,
}
use mathlib.Core.Path.{subst}
use cryo.Errors.{
  ok, reject, or_err, unsafe_path, invalid_path, write_error, >>=-eq-ok, or_err-eq-ok, reject-eq-ok,
}
use cryo.FilePath.{
  FilePath, Component, prefix, root_dir, cur_dir, parent_dir, normal, component_eq_refl,
  starts_with, join, parent,
}
use cryo.PathSafety.{Change, made_dir, Directories, is_safe_path, check_parent, safe_output_path}

-- A name or `.`.
abbrev pub IsInside : Component → Type 0
IsInside (normal s) = Unit
IsInside cur_dir = Unit
IsInside c = ⊥

is_safe_path-IsInside : (p : FilePath) → is_safe_path p ≡ true → All IsInside p
unfolding is_safe_path
is_safe_path-IsInside [] h = tt
is_safe_path-IsInside (normal s ∷ p) h = (tt, is_safe_path-IsInside p h)
is_safe_path-IsInside (cur_dir ∷ p) h = (tt, is_safe_path-IsInside p h)
is_safe_path-IsInside (parent_dir ∷ p) h = cc
is_safe_path-IsInside (root_dir ∷ p) h = cc
is_safe_path-IsInside (prefix s ∷ p) h = cc

starts_with-append : (p q : FilePath) → starts_with (p ++ q) p ≡ true
unfolding starts_with
starts_with-append [] q = refl
starts_with-append (c ∷ p) q = ground (arith, component_eq_refl c, starts_with-append p q)

starts_with-nil : (p : FilePath) → starts_with p [] ≡ true
unfolding starts_with
starts_with-nil [] = refl
starts_with-nil (c ∷ p) = refl

-- What is safe to join stays below the base.
starts_with-join : (base p : FilePath) → All IsInside p → starts_with (join base p) base ≡ true
unfolding join
starts_with-join [] p h = starts_with-nil _
starts_with-join (c ∷ base) [] h = starts_with-append (c ∷ base) []
starts_with-join (c ∷ base) (normal s ∷ p) h = starts_with-append (c ∷ base) (normal s ∷ p)
starts_with-join (c ∷ base) (cur_dir ∷ p) h = starts_with-append (c ∷ base) p
starts_with-join (c ∷ base) (parent_dir ∷ p) h = absurd h.0
starts_with-join (c ∷ base) (root_dir ∷ p) h = absurd h.0
starts_with-join (c ∷ base) (prefix s ∷ p) h = absurd h.0

module _ (fs : Directories) where
  -- The canonical directory that `out` lies in, below the canonical root.
  pub record IsBelow (made made' : List Change) (root dir : FilePath) : Type 0 where
    pub canonical_root : FilePath
    pub canonical_parent : FilePath
    pub root_resolves : fs.canonicalize made root ≡ some canonical_root
    pub parent_resolves : fs.canonicalize made' dir ≡ some canonical_parent
    pub below : starts_with canonical_parent canonical_root ≡ true

  pub record Allowed (made made' : List Change) (root relative out : FilePath) : Type 0 where
    pub inside : All IsInside relative
    pub joined : out ≡ join root relative
    pub lexical : starts_with out root ≡ true
    pub grown :
        (made ≡ made')
        ⊎ ((dir : FilePath) × (parent out ≡ some dir) × (made ++ (made_dir dir ∷ []) ≡ made'))
    pub physical : (dir : FilePath) → parent out ≡ some dir → IsBelow made made' root dir

  check_parent-IsBelow :
      (made made' : List Change) (root canonical_root relative dir : FilePath)
      → fs.canonicalize made root ≡ some canonical_root
      → check_parent fs made canonical_root relative (some dir) ≡ ok made'
      → IsBelow made made' root dir
  unfolding check_parent
  check_parent-IsBelow made made' root canonical_root relative dir e h =
      let made1 = made ++ (made_dir dir ∷ []) in
      let (_, e1, h1) = >>=-eq-ok (reject (not (fs.create_dir_all made dir)) write_error) _ h in
      let (cp, e2, h2) =
        >>=-eq-ok (or_err (unsafe_path canonical_root) (fs.canonicalize made1 dir)) _ h1 in
      let (_, e3, h3) =
        >>=-eq-ok (reject (not (starts_with cp canonical_root)) (unsafe_path relative)) _ h2 in
      let same : made1 ≡ made' = cc in
      record {
        canonical_root = canonical_root;
        canonical_parent = cp;
        root_resolves = e;
        parent_resolves =
            ap (λ (m : List Change). fs.canonicalize m dir) (sym same) ∙ or_err-eq-ok _ _ e2;
        below = ground (arith, reject-eq-ok _ _ e3);
      }

  check_parent-grown :
      (made made' : List Change) (canonical_root relative : FilePath) (p : Option FilePath)
      → check_parent fs made canonical_root relative p ≡ ok made'
      → (made ≡ made') ⊎ ((dir : FilePath) × (p ≡ some dir) × (made ++ (made_dir dir ∷ []) ≡ made'))
  unfolding check_parent
  check_parent-grown made made' canonical_root relative none h = inl cc
  check_parent-grown made made' canonical_root relative (some dir) h =
      let made1 = made ++ (made_dir dir ∷ []) in
      let (_, _, h1) = >>=-eq-ok (reject (not (fs.create_dir_all made dir)) write_error) _ h in
      let (cp, _, h2) =
        >>=-eq-ok (or_err (unsafe_path canonical_root) (fs.canonicalize made1 dir)) _ h1 in
      let (_, _, h3) =
        >>=-eq-ok (reject (not (starts_with cp canonical_root)) (unsafe_path relative)) _ h2 in
      inr (dir, refl, cc)

  -- When `safe_output_path` gives a path, the entry's path has only names and `.`, the path given
  -- is its join with the root and lies lexically below the root, at most its parent directory has
  -- been made, and its parent resolves to a directory below the resolved root.
  pub safe_output_path-Allowed :
      (made made' : List Change) (root relative out : FilePath)
      → safe_output_path fs made root relative ≡ ok (out, made')
      → Allowed made made' root relative out
  unfolding safe_output_path
  safe_output_path-Allowed made made' root relative out h =
      let (_, e1, h1) =
        >>=-eq-ok (reject (not (is_safe_path relative)) (unsafe_path relative)) _ h in
      let (cr, e2, h2) = >>=-eq-ok (or_err invalid_path (fs.canonicalize made root)) _ h1 in
      let (m, e3, h3) =
        >>=-eq-ok (check_parent fs made cr relative (parent (join root relative))) _ h2 in
      let out_is : join root relative ≡ out = cc in
      let made_is : m ≡ made' = cc in
      let inside =
        is_safe_path-IsInside relative
          (ground (arith, reject-eq-ok (not (is_safe_path relative)) _ e1)) in
      record {
        inside = inside;
        joined = sym out_is;
        lexical =
            ap (λ (t : FilePath). starts_with t root) (sym out_is)
            ∙ starts_with-join root relative inside;
        grown =
            subst
              (λ (p : FilePath).
                (made ≡ made')
                ⊎ ((dir : FilePath) × (parent p ≡ some dir)
                    × (made ++ (made_dir dir ∷ []) ≡ made')))
              out_is
              (check_parent-grown made made' cr relative (parent (join root relative))
                (e3 ∙ ap ok made_is));
        physical = λ dir e.
            check_parent-IsBelow made made' root cr relative dir (or_err-eq-ok _ _ e2) (
              ap (check_parent fs made cr relative) (sym (ap parent out_is ∙ e))
              ∙ e3
              ∙ ap ok made_is);
      }
