-- ===== src/Core/UseCases/Files.antt =====
-- Which files the file finder of core/use_cases.py finds.
use aw_bot.Prelude.{
  ℕ, zero, suc, ◌≤◌, String, true, false, List, [], ◌∷◌, ◌++◌, All, All-append, In, length, take,
  ◌≡◌, refl, arith, Bool-cases, inl, inr, if◌then◌else◌,
}
use Prim.Native.String
use aw_bot.Prelude.Text.{contains, truthy}
use aw_bot.Core.Workspaces.{
  Node, directory, file, other, Tree, none_left, child, is_excluded, file_paths, node_paths,
}
use aw_bot.Core.UseCases.Operations.{matching, files_for}
use aw_bot.Core.UseCases.State.{Setting, UseCases, file_finder}
use aw_bot.Prelude.Action.{return, pure, get, ◌>>=◌}

-- `path` is the path of a file below a directory whose path and a slash are `prefix`, and no
-- directory between them is excluded.
pub data IsListed : String → Tree → String → Type 0 where
  is_file :
      (prefix name : String) (rest : Tree)
      → IsListed prefix (child name file rest) (String.◌++◌ prefix name)
  is_inside :
      (prefix name path : String) (tree rest : Tree)
      → is_excluded name ≡ false
      → IsListed (String.◌++◌ prefix (String.◌++◌ name "/")) tree path
      → IsListed prefix (child name (directory tree) rest) path
  is_later :
      (prefix name path : String) (node : Node) (rest : Tree)
      → IsListed prefix rest path
      → IsListed prefix (child name node rest) path

All-map :
    {A : Type 0} {P Q : A → Type 0} (xs : List A) → ((x : A) → P x → Q x) → All P xs → All Q xs
All-map [] f all = tt
All-map (x ∷ xs) f all = (f x all.0, All-map xs f all.1)

mutual
  unfolding file_paths

  file_paths-IsListed :
      (prefix : String) (tree : Tree) → All (IsListed prefix tree) (file_paths prefix tree)
  file_paths-IsListed prefix none_left = tt
  file_paths-IsListed prefix (child name node rest) =
      All-append (IsListed prefix (child name node rest)) (node_paths prefix name node)
        (file_paths prefix rest) (node_paths-IsListed prefix name node rest)
        (All-map (file_paths prefix rest) (λ path. is_later prefix name path node rest)
          (file_paths-IsListed prefix rest))

  node_paths-IsListed :
      (prefix name : String) (node : Node) (rest : Tree)
      → All (IsListed prefix (child name node rest)) (node_paths prefix name node)
  node_paths-IsListed prefix name (directory tree) rest = elim (Bool-cases (is_excluded name)) [
    | inl excluded ↦ rw excluded tt
    | inr entered ↦ rw entered (
        All-map (file_paths (String.◌++◌ prefix (String.◌++◌ name "/")) tree)
          (λ path. is_inside prefix name path tree rest entered)
          (file_paths-IsListed (String.◌++◌ prefix (String.◌++◌ name "/")) tree))
  ]
  node_paths-IsListed prefix name file rest = (is_file prefix name rest, tt)
  node_paths-IsListed prefix name other rest = tt

In-left : (x : String) (xs ys : List String) → In x xs → In x (xs ++ ys)
In-left x [] ys here = elim here [ ]
In-left x (y ∷ xs) ys (inl same) = inl same
In-left x (y ∷ xs) ys (inr later) = inr (In-left x xs ys later)

In-right : (x : String) (xs ys : List String) → In x ys → In x (xs ++ ys)
In-right x [] ys here = here
In-right x (y ∷ xs) ys here = inr (In-right x xs ys here)

IsListed-In :
    {prefix path : String} {tree : Tree}
    → IsListed prefix tree path
    → In path (file_paths prefix tree)
unfolding file_paths
IsListed-In (is_file prefix name rest) = inl refl
IsListed-In (is_inside prefix name path tree rest entered below) =
    In-left path
      (if is_excluded name then [] else file_paths (String.◌++◌ prefix (String.◌++◌ name "/")) tree)
      (file_paths prefix rest) (rw entered (IsListed-In below))
IsListed-In (is_later prefix name path node rest below) =
    In-right path (node_paths prefix name node) (file_paths prefix rest) (IsListed-In below)

matching-All :
    (P : String → Type 0) (query : String) (paths : List String)
    → All P paths
    → All (λ path. P path × (contains query path ≡ true)) (matching query paths)
matching-All P query [] all = tt
matching-All P query (path ∷ rest) all = elim (Bool-cases (contains query path)) [
  | inl has ↦ rw has ((all.0, has), matching-All P query rest all.1)
  | inr lacks ↦ rw lacks (matching-All P query rest all.1)
]

take-All : (P : String → Type 0) (n : ℕ) (xs : List String) → All P xs → All P (take n xs)
take-All P zero xs all = tt
take-All P (suc n) [] all = tt
take-All P (suc n) (x ∷ xs) all = (all.0, take-All P n xs all.1)

take-length : (n : ℕ) (xs : List String) → length (take n xs) ≤ n
take-length zero xs = omega arith
take-length (suc n) [] = omega arith
take-length (suc n) (x ∷ xs) = omega (arith, take-length n xs)

-- The file finder looks through exactly the files that no excluded directory hides: each path that
-- it goes through is one, and each one is among them.
pub file_paths-exact :
    (tree : Tree)
    → All (IsListed "" tree) (file_paths "" tree)
      × ((path : String) → IsListed "" tree path → In path (file_paths "" tree))
file_paths-exact tree = (file_paths-IsListed "" tree, λ path listed. IsListed-In listed)

-- `/files` answers with at most ten paths, and each contains the query and is the path of a file of
-- the workspace that no excluded directory hides.
pub files_for-IsFound :
    (setting : Setting) (query : String) (u : UseCases)
    → truthy query ≡ true
    → (found : List String) × (files_for setting query u ≡ (return (file_finder found), u))
      × (length found ≤ 10)
      × All
          (λ path.
            IsListed "" (setting.tree_of u.controller.workspace.path) path
            × (contains query path ≡ true))
          found
unfolding files_for ◌>>=◌ pure get
files_for-IsFound setting query u asked =
    let paths = file_paths "" (setting.tree_of u.controller.workspace.path) in
    (
      take 10 (matching query paths),
      rw asked refl,
      take-length 10 (matching query paths),
      take-All _ 10 (matching query paths) (
          matching-All (IsListed "" (setting.tree_of u.controller.workspace.path)) query paths
            (file_paths-IsListed "" (setting.tree_of u.controller.workspace.path))),
    )
