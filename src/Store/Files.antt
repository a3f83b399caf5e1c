-- ===== src/Store/Files.antt =====
-- A directory of JSON files, with utils/atomic_file.py: what a path of it holds, in the order of
-- `glob`. Writing is atomic, so a file holds the whole record that was written last. A record stands
-- for its JSON form; names stand without their ending.
use aw_bot.Prelude.{
  String, false, Option, none, some, List, [], ◌∷◌, ◌≡◌, refl, ap, subst, str_eq, eq_iff, eq_refl,
  if◌then◌else◌, Bool-cases, inl, inr,
}

abbrev pub Directory : Type 0 → Type 0
Directory A = List (String × A)

module _ {A : Type 0} where
  -- `read_json(path)`, and `none` where the path does not exist
  unfoldable pub read_json : String → Directory A → Option A
  read_json name [] = none
  read_json name ((key, value) ∷ rest) = if str_eq name key then some value else read_json name rest

  unfoldable pub write_json_atomic : String → A → Directory A → Directory A
  write_json_atomic name value [] = (name, value) ∷ []
  write_json_atomic name value ((key, old) ∷ rest) =
      if str_eq name key
      then (key, value) ∷ rest
      else (key, old) ∷ write_json_atomic name value rest

  -- `path.unlink()`, where the path exists
  unfoldable pub unlink : String → Directory A → Directory A
  unlink name [] = []
  unlink name ((key, value) ∷ rest) =
      if str_eq name key then rest else (key, value) ∷ unlink name rest

  -- `[read_json(path) for path in directory.glob("*.json")]`
  unfoldable pub glob : Directory A → List A
  glob [] = []
  glob ((key, value) ∷ rest) = value ∷ glob rest

  pub read-write-same :
      (name : String) (value : A) (d : Directory A)
      → read_json name (write_json_atomic name value d) ≡ some value
  unfolding read_json write_json_atomic
  read-write-same name value [] = rw (eq_refl name) refl
  read-write-same name value ((key, old) ∷ rest) = elim (Bool-cases (str_eq name key)) [
    | inl same ↦ rw (same, read_json, same) refl
    | inr other ↦ rw (other, read_json, other) (read-write-same name value rest)
  ]

  pub read-write-other :
      (name name' : String) (value : A) (d : Directory A)
      → str_eq name' name ≡ false
      → read_json name' (write_json_atomic name value d) ≡ read_json name' d
  unfolding read_json write_json_atomic
  read-write-other name name' value [] other = rw other refl
  read-write-other name name' value ((key, old) ∷ rest) other =
      elim (Bool-cases (str_eq name key)) [
        | inl same ↦
            let apart : str_eq name' key ≡ false =
              subst (λ k. str_eq name' k ≡ false) ((eq_iff name key).0 same) other in
            rw (same, read_json, apart) refl
        | inr differ ↦
            rw (differ, read_json)
              (ap (λ o. if str_eq name' key then some old else o)
                (read-write-other name name' value rest other))
      ]
