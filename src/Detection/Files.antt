-- ===== src/Detection/Files.antt =====
-- The search of packages/adapters-lang/src/detectors.ts finds exactly the readable files with one of
-- the names that no skipped directory hides, down to its depth.
use verify_agent.Prelude.{
  ℕ, zero, suc, String, Bool, true, false, ◌&&◌, List, [], ◌∷◌, ◌++◌, ◌≡◌, refl, ◌↔◌, ◌⊎◌, inl, inr,
  In, In-append_right, includes, is_some, is_empty, flat_map, if◌then◌else◌, In-flat_map,
  In-of_flat_map,
}
use verify_agent.Prelude.Sorting.{sort_by, str_le, In-sort_by, In-of_sort_by}
use verify_agent.Detection.{
  Context, visit, find_within, find_files, skipped_directories, child_path, max_detection_depth,
}

-- What a visit adds, over its four tests.
abbrev added : Bool → Bool → Bool → Bool → String → List String → List String
added skipped named readable empty found deeper =
    if skipped
    then []
    else (if named && readable then found ∷ [] else []) ++ (if empty then [] else deeper)

abbrev IsAdded : Bool → Bool → Bool → Bool → String → List String → String → Type 0
IsAdded skipped named readable empty found deeper path =
    (skipped ≡ false)
    × (((path ≡ found) × (named ≡ true) × (readable ≡ true)) ⊎ ((empty ≡ false) × In path deeper))

added-IsAdded :
    (s n r e : Bool) (found : String) (deeper : List String) (path : String)
    → In path (added s n r e found deeper)
    → IsAdded s n r e found deeper path
added-IsAdded true n r e found deeper path i = absurd i
added-IsAdded false true true e found deeper path (inl q) = (refl, inl (q, refl, refl))
added-IsAdded false true true true found deeper path (inr i) = absurd i
added-IsAdded false true true false found deeper path (inr i) = (refl, inr (refl, i))
added-IsAdded false true false true found deeper path i = absurd i
added-IsAdded false true false false found deeper path i = (refl, inr (refl, i))
added-IsAdded false false r true found deeper path i = absurd i
added-IsAdded false false r false found deeper path i = (refl, inr (refl, i))

IsAdded-added :
    (s n r e : Bool) (found : String) (deeper : List String) (path : String)
    → IsAdded s n r e found deeper path
    → In path (added s n r e found deeper)
IsAdded-added s n r e found deeper path (shown, inl (q, named, readable)) =
    rw (shown, named, readable) (inl q)
IsAdded-added s n r e found deeper path (shown, inr (full, i)) =
    rw (shown, full) (In-append_right path (if n && r then found ∷ [] else []) deeper i)

module _ (context : Context) (names : List String) where
  -- A file that is found `levels` levels below a directory, or less deep.
  pub data IsBelow : ℕ → String → String → Type 0 where
    here :
        {levels : ℕ} {directory path : String} (entry : String)
        → path ≡ child_path directory entry
        → In entry (context.list_directory directory)
        → includes skipped_directories entry ≡ false
        → includes names entry ≡ true
        → is_some (context.read_file (child_path directory entry)) ≡ true
        → IsBelow levels directory path
    under :
        {levels : ℕ} {directory path : String} (entry : String)
        → In entry (context.list_directory directory)
        → includes skipped_directories entry ≡ false
        → is_empty (context.list_directory (child_path directory entry)) ≡ false
        → IsBelow levels (child_path directory entry) path
        → IsBelow (suc levels) directory path

  abbrev IsVisited : (String → List String) → String → String → String → Type 0
  IsVisited deeper directory path entry =
      IsAdded (includes skipped_directories entry) (includes names entry)
        (is_some (context.read_file (child_path directory entry)))
        (is_empty (context.list_directory (child_path directory entry)))
        (child_path directory entry) (deeper (child_path directory entry)) path

  -- The entries of a directory, with a search below them.
  module _ (deeper : String → List String) (directory path : String) where
    In-of_found :
        In path (
          sort_by str_le
            (flat_map (visit context deeper names directory) (context.list_directory directory)))
        → (entry : String) × In entry (context.list_directory directory)
          × IsVisited deeper directory path entry
    unfolding visit
    In-of_found i =
        let (entry, m, v) =
          In-of_flat_map (visit context deeper names directory) path
            (context.list_directory directory) (In-of_sort_by str_le path _ i) in
        (
          entry,
          m,
          added-IsAdded (includes skipped_directories entry) (includes names entry)
              (is_some (context.read_file (child_path directory entry)))
              (is_empty (context.list_directory (child_path directory entry)))
              (child_path directory entry) (deeper (child_path directory entry)) path v,
        )

    In-found :
        (entry : String)
        → In entry (context.list_directory directory)
        → IsVisited deeper directory path entry
        → In path (
            sort_by str_le
              (flat_map (visit context deeper names directory) (context.list_directory directory)))
    unfolding visit
    In-found entry m a = In-sort_by str_le path _ (
        In-flat_map (visit context deeper names directory) entry path _ m (
          IsAdded-added (includes skipped_directories entry) (includes names entry)
            (is_some (context.read_file (child_path directory entry)))
            (is_empty (context.list_directory (child_path directory entry)))
            (child_path directory entry) (deeper (child_path directory entry)) path a))

  find_within-IsBelow :
      (levels : ℕ) (directory path : String)
      → In path (find_within context levels names directory)
      → IsBelow levels directory path
  unfolding find_within
  find_within-IsBelow zero directory path i =
      let (entry, m, (shown, which)) = In-of_found (λ _. []) directory path i in
      elim which [
        | inl (e, named, readable) ↦ here entry e m shown named readable
        | inr (full, j) ↦ absurd j
      ]
  find_within-IsBelow (suc levels) directory path i =
      let (entry, m, (shown, which)) =
        In-of_found (find_within context levels names) directory path i in
      elim which [
        | inl (e, named, readable) ↦ here entry e m shown named readable
        | inr (full, j) ↦
            under entry m shown full
              (find_within-IsBelow levels (child_path directory entry) path j)
      ]

  In-find_within :
      (levels : ℕ) (directory path : String)
      → IsBelow levels directory path
      → In path (find_within context levels names directory)
  unfolding find_within
  In-find_within zero directory path (here entry e m shown named readable) =
      In-found (λ _. []) directory path entry m (shown, inl (e, named, readable))
  In-find_within (suc levels) directory path (here entry e m shown named readable) =
      In-found (find_within context levels names) directory path entry m
        (shown, inl (e, named, readable))
  In-find_within (suc levels) directory path (under entry m shown full b) =
      In-found (find_within context levels names) directory path entry m
        (shown, inr (full, In-find_within levels (child_path directory entry) path b))

  -- A search finds a path exactly when it is that of a readable file with one of the names, in the
  -- root or in directories no more than eight levels below it, none of them skipped or empty.
  pub find_files-IsBelow :
      (path : String) → In path (find_files context names) ↔ IsBelow max_detection_depth "" path
  unfolding find_files
  find_files-IsBelow path =
      (find_within-IsBelow max_detection_depth "" path, In-find_within max_detection_depth "" path)
