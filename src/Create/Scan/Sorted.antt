-- ===== src/Create/Scan/Sorted.antt =====
-- `sort_entries` on the items of a directory: the same items in another order.
use cryo.Base.{
  ℕ, ◌+◌, ◌≡◌, refl, sym, ap, ◌∙◌, Bool, true, false, List, [], ◌∷◌, map, arith, All, if◌then◌else◌,
  inr,
}
use cryo.Create.Scan.{DirEntry, DirReader, collect_entries, insert_entry, sort_entries, dir_names}
use cryo.Create.Scan.Trees.{Forest, Item, items, entry_of, listing, sum}
use cryo.Errors.{ok}
use cryo.FilePath.{FilePath}

module _ (sys : DirReader) where
  insert_item : Item → List Item → List Item
  insert_item i [] = i ∷ []
  insert_item i (x ∷ xs) =
      let rest = insert_item i xs in if sys.name_le i.name x.name then i ∷ x ∷ xs else x ∷ rest

  pub sort_items : List Item → List Item
  sort_items [] = []
  sort_items (i ∷ is) = insert_item i (sort_items is)

  insert_item-entries :
      (i : Item) (is : List Item)
      → map entry_of (insert_item i is) ≡ insert_entry sys (entry_of i) (map entry_of is)
  unfolding insert_item insert_entry
  insert_item-entries i [] = refl
  insert_item-entries i (x ∷ xs) = ground (arith, insert_item-entries i xs)

  sort_items-entries :
      (is : List Item) → map entry_of (sort_items is) ≡ sort_entries sys (map entry_of is)
  unfolding sort_items sort_entries
  sort_items-entries [] = refl
  sort_items-entries (i ∷ is) =
      insert_item-entries i (sort_items is)
      ∙ ap (insert_entry sys (entry_of i)) (sort_items-entries is)

  sum-insert_item :
      (f : Item → ℕ) (i : Item) (is : List Item) → sum f (insert_item i is) ≡ f i + sum f is
  unfolding insert_item
  sum-insert_item f i [] = refl
  sum-insert_item f i (x ∷ xs) = ground (arith, sum-insert_item f i xs)

  pub sum-sort_items : (f : Item → ℕ) (is : List Item) → sum f (sort_items is) ≡ sum f is
  unfolding sort_items
  sum-sort_items f [] = refl
  sum-sort_items f (i ∷ is) =
      sum-insert_item f i (sort_items is) ∙ ap (λ (n : ℕ). f i + n) (sum-sort_items f is)

  insert_item-All :
      (P : Item → Type 0) (i : Item) (is : List Item) → P i → All P is → All P (insert_item i is)
  unfolding insert_item
  insert_item-All P i [] h hs = (h, tt)
  insert_item-All P i (x ∷ xs) h (hx, hs) =
      on_order (sys.name_le i.name x.name) (insert_item-All P i xs h hs)
    where
      on_order :
          (b : Bool)
          → All P (insert_item i xs)
          → All P (if b then i ∷ x ∷ xs else x ∷ insert_item i xs)
      on_order true more = (h, (hx, hs))
      on_order false more = (hx, more)

  pub sort_items-All : (P : Item → Type 0) (is : List Item) → All P is → All P (sort_items is)
  unfolding sort_items
  sort_items-All P [] h = tt
  sort_items-All P (i ∷ is) (h, hs) = insert_item-All P i (sort_items is) h (sort_items-All P is hs)

  collect_entries-listing :
      (dir : FilePath) (es : List DirEntry) → collect_entries dir (map inr es) ≡ ok es
  unfolding collect_entries
  collect_entries-listing dir [] = refl
  collect_entries-listing dir (e ∷ es) = rw (collect_entries-listing dir es) refl

  pub dir_names-listing :
      (dir : FilePath) (f : Forest)
      → sys.read_dir dir ≡ inr (listing f)
      → dir_names sys dir ≡ ok (map entry_of (sort_items (items f)))
  unfolding dir_names
  dir_names-listing dir f e =
      rw (e, collect_entries-listing dir (map entry_of (items f)))
        (ap ok (sym (sort_items-entries (items f))))
