-- ===== src/Create/Scan/Whole.antt =====
-- A directory tree that the system shows is found whole, each path as often as the tree has it.
use cryo.Base.{
  ℕ, zero, suc, ◌+◌, ◌≤◌, ◌<◌, ◌≡◌, refl, sym, ap, ◌∙◌, Option, some, List, [], ◌∷◌, ◌++◌, map,
  arith, All, inr, append_assoc, append-nil,
}
use cryo.Create.Scan.{
  FileKind, directory, regular, link, special, DirEntry, DirReader, dir_names, scan_one, scan_names,
  scan_loop, retrieve_all_files,
}
use cryo.Create.Scan.Sorted.{sort_items, sum-sort_items, sort_items-All, dir_names-listing}
use cryo.Create.Scan.Trees.{
  Forest, bare, grow, Item, items, below, shown, walk, entry_of, listing, directories, sum, count,
  deep, deep_of, shown_of, rounds_of, count-append, count-walk, directories-items,
}
use cryo.Errors.{Result, ok}
use cryo.FilePath.{FilePath}

module _ (sys : DirReader) where
  -- The system shows what is below a directory.
  abbrev pub Shown : FilePath → Forest → Type 0
  Shown dir bare = Unit
  Shown dir (grow n directory c rest) =
      (sys.read_dir (below dir n) ≡ inr (listing c)) × Shown (below dir n) c × Shown dir rest
  Shown dir (grow n k c rest) = Shown dir rest

  -- A directory that waits on the stack, with what is below it.
  abbrev Waiting : Type 0
  Waiting = FilePath × Forest

  abbrev paths : List Waiting → List FilePath
  paths = map (λ (w : Waiting). w.0)

  Ready : Waiting → Type 0
  Ready (dir, f) = (sys.read_dir dir ≡ inr (listing f)) × Shown dir f

  abbrev KindReady : FilePath → FileKind → Forest → Type 0
  KindReady path directory c = Ready (path, c)
  KindReady path regular c = Unit
  KindReady path link c = Unit
  KindReady path special c = Unit

  abbrev ItemReady : FilePath → Item → Type 0
  ItemReady dir i = KindReady (below dir i.name) i.kind i.contents

  Shown-ItemReady : (dir : FilePath) (f : Forest) → Shown dir f → All (ItemReady dir) (items f)
  unfolding Ready
  Shown-ItemReady dir bare h = tt
  Shown-ItemReady dir (grow n directory c rest) (e, h, hs) = ((e, h), Shown-ItemReady dir rest hs)
  Shown-ItemReady dir (grow n regular c rest) h = (tt, Shown-ItemReady dir rest h)
  Shown-ItemReady dir (grow n link c rest) h = (tt, Shown-ItemReady dir rest h)
  Shown-ItemReady dir (grow n special c rest) h = (tt, Shown-ItemReady dir rest h)

  abbrev push_one : FilePath → FileKind → Forest → List Waiting → List Waiting
  push_one path directory c ws = (path, c) ∷ ws
  push_one path regular c ws = ws
  push_one path link c ws = ws
  push_one path special c ws = ws

  abbrev push_item : FilePath → Item → List Waiting → List Waiting
  push_item dir i ws = push_one (below dir i.name) i.kind i.contents ws

  push_all : FilePath → List Item → List Waiting → List Waiting
  push_all dir [] ws = ws
  push_all dir (i ∷ is) ws = push_all dir is (push_item dir i ws)

  all_shown : FilePath → List Item → List FilePath
  all_shown dir [] = []
  all_shown dir (i ∷ is) = shown i.kind (below dir i.name) ++ all_shown dir is

  scan_one-push_one :
      (path : FilePath) (k : FileKind) (c : Forest) (ws : List Waiting) (out : List FilePath)
      → scan_one sys path k (paths ws, out) ≡ (paths (push_one path k c ws), out ++ shown k path)
  scan_one-push_one path directory c ws out = refl
  scan_one-push_one path regular c ws out = refl
  scan_one-push_one path link c ws out = refl
  scan_one-push_one path special c ws out =
      ap (λ (l : List FilePath). (paths ws, l)) (sym (append-nil out))

  scan_names-items :
      (dir : FilePath) (is : List Item) (ws : List Waiting) (out : List FilePath)
      → scan_names sys dir (map entry_of is) (paths ws, out)
        ≡ ok (paths (push_all dir is ws), out ++ all_shown dir is)
  unfolding scan_names push_all all_shown
  scan_names-items dir [] ws out =
      ap (λ (l : List FilePath). ok (paths ws, l)) (sym (append-nil out))
  scan_names-items dir (i ∷ is) ws out =
      ap (scan_names sys dir (map entry_of is))
        (scan_one-push_one (below dir i.name) i.kind i.contents ws out)
      ∙ scan_names-items dir is (push_item dir i ws) (out ++ shown i.kind (below dir i.name))
      ∙ ap (λ (l : List FilePath). ok (paths (push_all dir is (push_item dir i ws)), l))
          (append_assoc out (shown i.kind (below dir i.name)) (all_shown dir is))

  count-all_shown :
      (p dir : FilePath) (is : List Item) → count p (all_shown dir is) ≡ sum (shown_of p dir) is
  unfolding all_shown
  count-all_shown p dir [] = refl
  count-all_shown p dir (i ∷ is) =
      count-append p (shown i.kind (below dir i.name)) (all_shown dir is)
      ∙ ap (λ (n : ℕ). shown_of p dir i + n) (count-all_shown p dir is)

  -- What waits on the stack: paths, and rounds.
  waiting : FilePath → List Waiting → ℕ
  waiting p [] = 0
  waiting p ((dir, f) ∷ ws) = count p (walk dir f) + waiting p ws

  rounds_left : List Waiting → ℕ
  rounds_left [] = 0
  rounds_left ((dir, f) ∷ ws) = suc (directories f) + rounds_left ws

  waiting-push_one :
      (p path : FilePath) (k : FileKind) (c : Forest) (ws : List Waiting)
      → waiting p (push_one path k c ws) ≡ deep p path k c + waiting p ws
  unfolding waiting
  waiting-push_one p path directory c ws = refl
  waiting-push_one p path regular c ws = omega arith
  waiting-push_one p path link c ws = omega arith
  waiting-push_one p path special c ws = omega arith

  waiting-push_all :
      (p dir : FilePath) (is : List Item) (ws : List Waiting)
      → waiting p (push_all dir is ws) ≡ sum (deep_of p dir) is + waiting p ws
  unfolding push_all
  waiting-push_all p dir [] ws = omega arith
  waiting-push_all p dir (i ∷ is) ws = omega (
    arith,
    waiting-push_all p dir is (push_item dir i ws),
    waiting-push_one p (below dir i.name) i.kind i.contents ws,
  )

  rounds_left-push_item :
      (dir : FilePath) (i : Item) (ws : List Waiting)
      → rounds_left (push_item dir i ws) ≡ rounds_of i + rounds_left ws
  unfolding rounds_left
  rounds_left-push_item dir i ws = on_kind i.kind
    where
      on_kind :
          (k : FileKind)
          → rounds_left (push_one (below dir i.name) k i.contents ws)
            ≡ (elim k [ directory ↦ suc (directories i.contents) | other ↦ 0 ]) + rounds_left ws
      on_kind directory = refl
      on_kind regular = omega arith
      on_kind link = omega arith
      on_kind special = omega arith

  rounds_left-push_all :
      (dir : FilePath) (is : List Item) (ws : List Waiting)
      → rounds_left (push_all dir is ws) ≡ sum rounds_of is + rounds_left ws
  unfolding push_all
  rounds_left-push_all dir [] ws = omega arith
  rounds_left-push_all dir (i ∷ is) ws =
      omega
        (arith, rounds_left-push_all dir is (push_item dir i ws), rounds_left-push_item dir i ws)

  push_all-Ready :
      (dir : FilePath) (is : List Item) (ws : List Waiting)
      → All (ItemReady dir) is
      → All Ready ws
      → All Ready (push_all dir is ws)
  unfolding push_all
  push_all-Ready dir [] ws h hs = hs
  push_all-Ready dir (i ∷ is) ws (h, more) hs =
      push_all-Ready dir is (push_item dir i ws) more (on_kind i.kind h)
    where
      on_kind :
          (k : FileKind)
          → KindReady (below dir i.name) k i.contents
          → All Ready (push_one (below dir i.name) k i.contents ws)
      on_kind directory r = (r, hs)
      on_kind regular r = hs
      on_kind link r = hs
      on_kind special r = hs

  scan_loop-next :
      (rounds : ℕ) (dir : FilePath) (names : List DirEntry) (stack out : List FilePath)
      (next : List FilePath × List FilePath)
      → dir_names sys dir ≡ ok names
      → scan_names sys dir names (stack, out) ≡ ok next
      → scan_loop sys (suc rounds) (dir ∷ stack, out) ≡ scan_loop sys rounds next
  unfolding scan_loop
  scan_loop-next rounds dir names stack out next e1 e2 = rw (e1, scan_loop) (rw e2 refl)

  -- What the loop finds.
  record Found (ws : List Waiting) (out : List FilePath) (r : Option (Result (List FilePath)))
      : Type 0 where
    found : List FilePath
    returned : r ≡ some (ok found)
    counted : (p : FilePath) → count p found ≡ count p out + waiting p ws

  scan_loop-Found :
      (rounds : ℕ) (ws : List Waiting) (out : List FilePath)
      → All Ready ws
      → rounds_left ws ≤ rounds
      → Found ws out (scan_loop sys rounds (paths ws, out))
  unfolding scan_loop rounds_left waiting Ready
  scan_loop-Found rounds [] out ready enough = record {
    found = out;
    returned = refl;
    counted = λ p. omega arith;
  }
  scan_loop-Found zero ((dir, f) ∷ ws) out ready enough = absurd (omega arith)
  scan_loop-Found (suc rounds) ((dir, f) ∷ ws) out ((e, shown_below), ready) enough =
      let is = sort_items sys (items f) in
      let ws' = push_all dir is ws in
      let more =
        scan_loop-Found rounds ws' (out ++ all_shown dir is)
          (push_all-Ready dir is ws
            (sort_items-All sys (ItemReady dir) (items f) (Shown-ItemReady dir f shown_below))
            ready)
          (omega (
            arith,
            rounds_left-push_all dir is ws,
            sum-sort_items sys rounds_of (items f),
            directories-items f,
          )) in
      record {
        found = more.found;
        returned =
            scan_loop-next rounds dir (map entry_of is) (paths ws) out
              (paths ws', out ++ all_shown dir is) (dir_names-listing sys dir f e)
              (scan_names-items dir is ws out)
            ∙ more.returned;
        counted = λ p. omega (
          arith,
          more.counted p,
          count-append p out (all_shown dir is),
          count-all_shown p dir is,
          waiting-push_all p dir is ws,
          sum-sort_items sys (shown_of p dir) (items f),
          sum-sort_items sys (deep_of p dir) (items f),
          count-walk p dir f,
        );
      }

  -- Let the system show a finite directory tree, every entry with its kind, in whatever order it
  -- lists them. With more rounds than the tree has directories, `retrieve_all_files` ends without
  -- an error, and what it has found contains each path as often as the tree has it below the root,
  -- but for sockets, devices and pipes, which are left out.
  pub retrieve_all_files-walk :
      (rounds : ℕ) (root : FilePath) (f : Forest)
      → sys.read_dir root ≡ inr (listing f)
      → Shown root f
      → directories f < rounds
      → (found : List FilePath) × (retrieve_all_files sys rounds root ≡ some (ok found))
        × ((p : FilePath) → count p found ≡ count p (walk root f))
  unfolding retrieve_all_files
  retrieve_all_files-walk rounds root f e h enough =
      let r =
        scan_loop-Found rounds ((root, f) ∷ []) [] (unfold Ready in ((e, h), tt))
          (unfold rounds_left in omega arith) in
      (r.found, r.returned, λ p. unfold waiting in omega (arith, r.counted p))
