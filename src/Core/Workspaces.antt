-- ===== src/Core/Workspaces.antt =====
-- core/workspace.py's WorkspaceValidator, and the file finder of core/use_cases.py. What pathlib and
-- the operating system answer on a path is a parameter.
use aw_bot.Prelude.{
  String, Bool, false, ◌||◌, Option, none, some, List, [], ◌∷◌, ◌++◌, str_eq, if◌then◌else◌,
}
use Prim.Native.String
use aw_bot.Prelude.Action.{Result, return, raise}
use aw_bot.Prelude.Text.{after_prefix}
use aw_bot.Core.Types.{Workspace}

-- A path is its text. `join` is `/`, `child` the part after it.
pub record PathSystem : Type 0 where
  pub as_path : String → String
  pub join : String → String → String
  pub is_absolute : String → Bool
  pub is_dir : String → Bool
  pub resolve : String → String
  pub anchor : String → String

pub record WorkspaceValidator : Type 0 where
  pub home_directory : String
  pub temp_directory : String
  pub system_directories : List String

module _ (paths : PathSystem) (validator : WorkspaceValidator) where
  abbrev below_home : String → Option String → String
  below_home raw_path none = paths.as_path raw_path
  below_home raw_path (some rest) = paths.join validator.home_directory rest

  -- `_expand`
  unfoldable pub expand : String → String
  expand raw_path =
      if str_eq raw_path "~"
      then validator.home_directory
      else below_home raw_path (after_prefix "~/" raw_path)

  -- The loop over the system directories.
  unfoldable pub is_system_directory : String → List String → Bool
  is_system_directory path [] = false
  is_system_directory path (directory ∷ rest) =
      str_eq path (paths.resolve directory) || is_system_directory path rest

  -- The tests on the resolved path.
  unfoldable pub check_resolved : String → Result String Workspace
  check_resolved path =
      if str_eq path (paths.anchor path)
      then raise "workspace path cannot be the filesystem root"
      else if str_eq path (paths.resolve validator.home_directory)
      then raise "workspace path cannot be the home root"
      else if str_eq path (paths.resolve validator.temp_directory)
      then raise "workspace path cannot be the temporary directory root"
      else if is_system_directory path validator.system_directories
      then raise "workspace path cannot be a system directory"
      else return (record { path = path })

  -- A raised text is the message of a ValueError.
  unfoldable pub validate : String → Result String Workspace
  validate raw_path =
      let path = expand raw_path in
      if paths.is_absolute path
      then (if paths.is_dir path
          then check_resolved (paths.resolve path)
          else raise "workspace path must be an existing directory")
      else raise "workspace path must be absolute"

-- What is below a directory: each child with its name, sorted by name. A child that is neither a
-- directory nor a file is `other`. The listing of a directory is taken to raise nothing.
mutual
  pub data Node : Type 0 where
    directory : Tree → Node
    file other : Node

  pub data Tree : Type 0 where
    none_left : Tree
    child : (name : String) → Node → Tree → Tree

abbrev pub is_excluded : String → Bool
is_excluded name =
    str_eq name ".git"
    || str_eq name ".venv"
    || str_eq name "node_modules"
    || str_eq name ".data"
    || str_eq name ".cache"

-- `_workspace_relative_file_paths`, below a directory whose own path and a slash are `prefix`
unfoldable mutual
  pub file_paths : String → Tree → List String
  file_paths prefix none_left = []
  file_paths prefix (child name node rest) = node_paths prefix name node ++ file_paths prefix rest

  pub node_paths : String → String → Node → List String
  node_paths prefix name (directory tree) =
      let inside = file_paths (String.◌++◌ prefix (String.◌++◌ name "/")) tree in
      if is_excluded name then [] else inside
  node_paths prefix name file = String.◌++◌ prefix name ∷ []
  node_paths prefix name other = []
