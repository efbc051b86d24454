-- ===== src/PathSafety/Normalize.antt =====
-- `normalize` against the way the system resolves `..` lexically: at the root `..` is the root.
use mathlib.Core.List.{foldl}
use cryo.Base.{
  ◌≡◌, refl, sym, ap, ◌∙◌, true, String, List, [], ◌∷◌, ◌++◌, All, append_assoc, append-nil,
}
use cryo.FilePath.{
  FilePath, Component, prefix, root_dir, cur_dir, parent_dir, normal, component_eq, starts_with,
  join,
}
use cryo.PathSafety.{Stack, step, pop_or_push, collect, normalize}

-- A component that neither starts a path nor names a drive.
abbrev IsInner : Component → Type 0
IsInner root_dir = ⊥
IsInner (prefix s) = ⊥
IsInner c = Unit

-- What `normalize` keeps above the root.
abbrev IsKept : Component → Type 0
IsKept (normal s) = Unit
IsKept parent_dir = Unit
IsKept c = ⊥

abbrev IsNormal : Component → Type 0
IsNormal (normal s) = Unit
IsNormal c = ⊥

-- The system's way, below the root: `..` takes the last name off, and does nothing at the root.
abbrev up : List Component → List Component
up [] = []
up (c ∷ names) = names

abbrev resolve_step : List Component → Component → List Component
resolve_step names (normal s) = normal s ∷ names
resolve_step names parent_dir = up names
resolve_step names c = names

abbrev pub backwards : List Component → FilePath → FilePath
backwards [] rest = rest
backwards (c ∷ names) rest = backwards names (c ∷ rest)

pub resolve : FilePath → FilePath
resolve p = root_dir ∷ backwards (foldl resolve_step [] p) []

-- The stack of `normalize` either holds names above the root, as `resolve` does, or has gone above
-- the root once and keeps a `..` there.
abbrev AtRoot : Stack
AtRoot = root_dir ∷ []

data Shape (names : List Component) : Stack → Type 0 where
  clean : {stack : Stack} → All IsNormal names → stack ≡ names ++ AtRoot → Shape names stack
  climbed :
      {stack : Stack} (above : List Component)
      → All IsKept above
      → stack ≡ above ++ (parent_dir ∷ AtRoot)
      → Shape names stack

step-Shape :
    (c : Component) (names : List Component) (stack : Stack)
    → IsInner c
    → Shape names stack
    → Shape (resolve_step names c) (step stack c)
unfolding step
step-Shape root_dir names stack i s = absurd i
step-Shape (prefix t) names stack i s = absurd i
step-Shape cur_dir names stack i s = s
step-Shape (normal t) names stack i (clean n e) = clean (tt, n) (ap (λ (x : Stack). normal t ∷ x) e)
step-Shape (normal t) names stack i (climbed above n e) =
    climbed (normal t ∷ above) (tt, n) (ap (λ (x : Stack). normal t ∷ x) e)
step-Shape parent_dir [] stack i (clean n e) = climbed [] tt (ap pop_or_push e)
step-Shape parent_dir (normal t ∷ names) stack i (clean n e) = clean n.1 (ap pop_or_push e)
step-Shape parent_dir (root_dir ∷ names) stack i (clean n e) = absurd n.0
step-Shape parent_dir (prefix t ∷ names) stack i (clean n e) = absurd n.0
step-Shape parent_dir (cur_dir ∷ names) stack i (clean n e) = absurd n.0
step-Shape parent_dir (parent_dir ∷ names) stack i (clean n e) = absurd n.0
step-Shape parent_dir names stack i (climbed [] n e) =
    climbed (parent_dir ∷ []) (tt, tt) (ap pop_or_push e)
step-Shape parent_dir names stack i (climbed (normal t ∷ above) n e) =
    climbed above n.1 (ap pop_or_push e)
step-Shape parent_dir names stack i (climbed (root_dir ∷ above) n e) = absurd n.0
step-Shape parent_dir names stack i (climbed (prefix t ∷ above) n e) = absurd n.0
step-Shape parent_dir names stack i (climbed (cur_dir ∷ above) n e) = absurd n.0
step-Shape parent_dir names stack i (climbed (parent_dir ∷ above) n e) =
    climbed (parent_dir ∷ parent_dir ∷ above) (tt, n) (ap pop_or_push e)

foldl-Shape :
    (p : FilePath) (names : List Component) (stack : Stack)
    → All IsInner p
    → Shape names stack
    → Shape (foldl resolve_step names p) (foldl step stack p)
foldl-Shape [] names stack i s = s
foldl-Shape (c ∷ p) names stack (ic, i) s =
    foldl-Shape p (resolve_step names c) (step stack c) i (step-Shape c names stack ic s)

join-IsKept : (base : FilePath) (c : Component) → IsKept c → join base (c ∷ []) ≡ base ++ (c ∷ [])
unfolding join
join-IsKept base root_dir k = absurd k
join-IsKept base (prefix s) k = absurd k
join-IsKept base cur_dir k = absurd k
join-IsKept base parent_dir k = refl
join-IsKept base (normal s) k = refl

backwards-append :
    (names : List Component) (xs ys : FilePath)
    → backwards names (xs ++ ys) ≡ backwards names xs ++ ys
backwards-append [] xs ys = refl
backwards-append (c ∷ names) xs ys = backwards-append names (c ∷ xs) ys

-- Above a part that is collected, what is kept is appended.
collect-append :
    (above bottom : Stack)
    → All IsKept above
    → collect (above ++ bottom) ≡ collect bottom ++ backwards above []
unfolding collect
collect-append [] bottom k = sym (append-nil (collect bottom))
collect-append (c ∷ above) bottom (kc, k) =
    join-IsKept (collect (above ++ bottom)) c kc
    ∙ ap (λ (t : FilePath). t ++ (c ∷ [])) (collect-append above bottom k)
    ∙ append_assoc (collect bottom) (backwards above []) (c ∷ [])
    ∙ ap (λ (t : FilePath). collect bottom ++ t) (sym (backwards-append above [] (c ∷ [])))

IsNormal-IsKept : (names : List Component) → All IsNormal names → All IsKept names
IsNormal-IsKept [] n = tt
IsNormal-IsKept (normal s ∷ names) n = (tt, IsNormal-IsKept names n.1)
IsNormal-IsKept (root_dir ∷ names) n = absurd n.0
IsNormal-IsKept (prefix s ∷ names) n = absurd n.0
IsNormal-IsKept (cur_dir ∷ names) n = absurd n.0
IsNormal-IsKept (parent_dir ∷ names) n = absurd n.0

collect-Shape :
    (names : List Component) (stack : Stack) (name : String) (base : FilePath)
    → Shape names stack
    → starts_with (collect stack) (root_dir ∷ normal name ∷ base) ≡ true
    → collect stack ≡ root_dir ∷ backwards names []
unfolding starts_with join collect component_eq
collect-Shape names stack name base (clean n e) h =
    ap collect e ∙ collect-append names AtRoot (IsNormal-IsKept names n)
collect-Shape names stack name base (climbed above n e) h =
    let whole = ap collect e ∙ collect-append above (parent_dir ∷ AtRoot) n in
    let test = ap (λ (t : FilePath). starts_with t (root_dir ∷ normal name ∷ base)) whole in cc

-- If the normalized form of an absolute path begins with a root directory that is not `/`, then it
-- is what the system's lexical resolution gives, where `..` at `/` is `/`.
pub normalize-resolve :
    (p : FilePath) (name : String) (base : FilePath)
    → All IsInner p
    → starts_with (normalize (root_dir ∷ p)) (root_dir ∷ normal name ∷ base) ≡ true
    → normalize (root_dir ∷ p) ≡ resolve (root_dir ∷ p)
unfolding normalize resolve step
normalize-resolve p name base i h =
    collect-Shape (foldl resolve_step [] p) (foldl step AtRoot p) name base
      (foldl-Shape p [] AtRoot i (clean tt refl)) h
