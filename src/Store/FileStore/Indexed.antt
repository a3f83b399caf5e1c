-- ===== src/Store/FileStore/Indexed.antt =====
-- The run index and the run files after `save_run` of store/file_store.py.
use aw_bot.Prelude.{
  String, Bool, true, false, List, [], ◌∷◌, ◌++◌, ◌||◌, ◌≡◌, refl, ap, sym, ◌∙◌, subst, All,
  All-append, str_eq, eq_iff, Bool-cases, inl, inr, not,
}
use aw_bot.Store.Files.{read-write-same, read-write-other}
use aw_bot.Store.FileStore.{FileStore, filter, insert, sort, save_run}
use aw_bot.Store.FileStore.Recovery.{has, IsStored}
use aw_bot.Store.Models.{RunRef}

module _ {A : Type 0} (key : A → String) where
  has-append :
      (id : String) (xs ys : List A) → has key id (xs ++ ys) ≡ (has key id xs || has key id ys)
  has-append id [] ys = refl
  has-append id (x ∷ xs) ys =
      ap (λ b. str_eq id (key x) || b) (has-append id xs ys)
      ∙ or_assoc (str_eq id (key x)) (has key id xs) (has key id ys)
    where
      or_assoc : (a b c : Bool) → (a || (b || c)) ≡ ((a || b) || c)
      or_assoc true b c = refl
      or_assoc false b c = refl

  has-filter :
      (id name : String) (xs : List A)
      → str_eq id name ≡ false
      → has key id (filter (λ x. not (str_eq (key x) name)) xs) ≡ has key id xs
  unfolding filter
  has-filter id name [] other = refl
  has-filter id name (x ∷ xs) other = elim (Bool-cases (str_eq (key x) name)) [
    | inl same ↦ rw same (
        subst
          (λ k.
            has key id (filter (λ x. not (str_eq (key x) name)) xs)
            ≡ (str_eq id k || has key id xs))
          (sym ((eq_iff (key x) name).0 same)) (rw other (has-filter id name xs other)))
    | inr differ ↦ rw differ (ap (λ b. str_eq id (key x) || b) (has-filter id name xs other))
  ]

  All-filter :
      {P Q : A → Type 0} (p : A → Bool) (xs : List A)
      → ((x : A) → p x ≡ true → P x → Q x)
      → All P xs
      → All Q (filter p xs)
  unfolding filter
  All-filter p [] f all = tt
  All-filter p (x ∷ xs) f all = elim (Bool-cases (p x)) [
    | inl kept ↦ rw kept (f x kept all.0, All-filter p xs f all.1)
    | inr dropped ↦ rw dropped (All-filter p xs f all.1)
  ]

  module _ (later : String → String → Bool) (stamp : A → String) where
    All-insert :
        (P : A → Type 0) (x : A) (xs : List A) → P x → All P xs → All P (insert later stamp x xs)
    unfolding insert
    All-insert P x [] px all = (px, tt)
    All-insert P x (y ∷ ys) px all = elim (Bool-cases (later (stamp y) (stamp x))) [
      | inl after ↦ rw after (all.0, All-insert P x ys px all.1)
      | inr before ↦ rw before (px, all)
    ]

    All-sort : (P : A → Type 0) (xs : List A) → All P xs → All P (sort later stamp xs)
    unfolding sort
    All-sort P [] all = tt
    All-sort P (x ∷ xs) all = All-insert P x _ all.0 (All-sort P xs all.1)

    has-insert :
        (id : String) (x : A) (xs : List A)
        → has key id (insert later stamp x xs) ≡ has key id (x ∷ xs)
    unfolding insert
    has-insert id x [] = refl
    has-insert id x (y ∷ ys) = elim (Bool-cases (later (stamp y) (stamp x))) [
      | inl after ↦ rw after (
          ap (λ b. str_eq id (key y) || b) (has-insert id x ys)
          ∙ or_swap (str_eq id (key y)) (str_eq id (key x)) (has key id ys))
      | inr before ↦ rw before refl
    ]
      where
        or_swap : (a b c : Bool) → (a || (b || c)) ≡ (b || (a || c))
        or_swap true true c = refl
        or_swap true false c = refl
        or_swap false true c = refl
        or_swap false false c = refl

    has-sort : (id : String) (xs : List A) → has key id (sort later stamp xs) ≡ has key id xs
    unfolding sort
    has-sort id [] = refl
    has-sort id (x ∷ xs) =
        has-insert id x (sort later stamp xs) ∙ ap (λ b. str_eq id (key x) || b) (has-sort id xs)

-- The index that lists just the stored runs still does after a run is saved, new or not.
pub save_run-IsStored :
    (later : String → String → Bool) (run : RunRef) (store : FileStore)
    → IsStored (λ (item : RunRef). item.run_id) store.runs store.run_index
    → let after = save_run later run store in
      IsStored (λ (item : RunRef). item.run_id) after.runs after.run_index
unfolding save_run
save_run-IsStored later run store stored =
    let run_key = λ (item : RunRef). item.run_id in
    let kept = filter (λ (item : RunRef). not (str_eq item.run_id run.run_id)) store.run_index in
    let found = λ (id : String).
      has-sort run_key later (λ (item : RunRef). item.updated_at) id (kept ++ run ∷ [])
      ∙ has-append run_key id kept (run ∷ []) in
    record {
      listed = λ id v r. elim (Bool-cases (str_eq id run.run_id)) [
        | inl same ↦ found id ∙ in_last (has run_key id kept) (str_eq id run.run_id) same
        | inr other ↦
            found id
            ∙ in_rest (has run_key id kept) (str_eq id run.run_id || false) (
                has-filter run_key id run.run_id store.run_index other
                ∙ stored.listed id v
                    (sym (read-write-other run.run_id id run store.runs other) ∙ r))
      ];
      current =
          All-sort run_key later (λ (item : RunRef). item.updated_at) _ (kept ++ run ∷ [])
            (All-append _ kept (run ∷ [])
              (All-filter run_key _ store.run_index
                (λ item differs same.
                  read-write-other run.run_id item.run_id run store.runs (not_true _ differs)
                  ∙ same)
                stored.current)
              (read-write-same run.run_id run store.runs, tt));
    }
  where
    in_last : (a b : Bool) → b ≡ true → (a || (b || false)) ≡ true
    in_last true b e = refl
    in_last false b e = subst (λ c. (c || false) ≡ true) (sym e) refl

    in_rest : (a b : Bool) → a ≡ true → (a || b) ≡ true
    in_rest a b e = subst (λ c. (c || b) ≡ true) (sym e) refl

    not_true : (b : Bool) → not b ≡ true → b ≡ false
    not_true true e = sym e
    not_true false e = refl
