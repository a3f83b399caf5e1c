-- ===== src/Store/FileStore/Recovery.antt =====
-- `recover_incomplete` and `save_run` of store/file_store.py: which records are left.
use aw_bot.Prelude.{
  String, Bool, true, false, some, List, [], ◌∷◌, ◌||◌, ◌≡◌, refl, ap, sym, ◌∙◌, subst, All, str_eq,
  eq_iff, Bool-cases, inl, inr, ◌⊎◌,
}
use aw_bot.Store.Files.{
  Directory, read_json, write_json_atomic, glob, read-write-same, read-write-other,
}
use aw_bot.Store.FileStore.{
  FileStore, sweep, save_run, save_pending, save_card, recover_incomplete, is_incomplete, is_open,
  is_streaming, interrupted_at, cancelled_at, failed_at,
}
use aw_bot.Store.Models.{RunRef, PendingRef, StreamCardRef}

true≢false : {b : Bool} → b ≡ true → b ≡ false → ⊥
true≢false is isnt = cc

module _ {A : Type 0} (key : A → String) where
  -- Does a record of the list have this key?
  abbrev pub has : String → List A → Bool
  has id [] = false
  has id (x ∷ xs) = str_eq id (key x) || has id xs

  has-rest :
      (id : String) (x : A) (xs : List A)
      → str_eq id (key x) ≡ false
      → has id (x ∷ xs) ≡ true
      → has id xs ≡ true
  has-rest id x xs other h = subst (λ b. (b || has id xs) ≡ true) other h

  module _ {S : Type 0} (save : A → S → S) (dir : S → Directory A)
      (saves : (x : A) (s : S) → dir (save x s) ≡ write_json_atomic (key x) x (dir s)) where
    read-save :
        (id : String) (x : A) (s : S)
        → ((id ≡ key x) × (read_json id (dir (save x s)) ≡ some x))
          ⊎ ((str_eq id (key x) ≡ false) × (read_json id (dir (save x s)) ≡ read_json id (dir s)))
    read-save id x s = elim (Bool-cases (str_eq id (key x))) [
      | inl same ↦
          let eq = (eq_iff id (key x)).0 same in
          inl (
            eq,
            ap (read_json id) (saves x s)
                ∙ (ap (λ k. read_json k (write_json_atomic (key x) x (dir s))) eq
                    ∙ read-write-same (key x) x (dir s)),
          )
      | inr other ↦
          inr (other, ap (read_json id) (saves x s) ∙ read-write-other (key x) id x (dir s) other)
    ]

    module _ (due : A → Bool) (fix : A → A) (fixed : (x : A) → due (fix x) ≡ false)
        (same_key : (x : A) → key (fix x) ≡ key x) where
      -- Every stored record that is due is still to come.
      abbrev Left : List A → S → Type 0
      Left items s =
          (id : String) (v : A) → read_json id (dir s) ≡ some v → due v ≡ true → has id items ≡ true

      -- A record to come is what its file holds, unless the file is settled.
      abbrev Fresh : S → A → Type 0
      Fresh s x = (v : A) → read_json (key x) (dir s) ≡ some v → (v ≡ x) ⊎ (due v ≡ false)

      read-fixed :
          (id : String) (x v : A) (s : S)
          → read_json id (dir (save (fix x) s)) ≡ some v
          → (due v ≡ false) ⊎ ((str_eq id (key x) ≡ false) × (read_json id (dir s) ≡ some v))
      read-fixed id x v s r = elim (read-save id (fix x) s) [
        | inl p ↦
            let same : fix x ≡ v = some-injective (sym p.1 ∙ r) in
            inl (subst (λ w. due w ≡ false) same (fixed x))
        | inr p ↦ inr (subst (λ k. str_eq id k ≡ false) (same_key x) p.0, sym p.1 ∙ r)
      ]
        where
          some-injective : {a b : A} → some a ≡ some b → a ≡ b
          some-injective e = cc

      All-Fresh :
          (x : A) (s : S) (items : List A)
          → All (Fresh s) items
          → All (Fresh (save (fix x) s)) items
      All-Fresh x s [] fresh = tt
      All-Fresh x s (y ∷ rest) fresh = (
        λ v r. elim (read-fixed (key y) x v s r) [ inl done ↦ inr done | inr p ↦ fresh.0 v p.1 ],
        All-Fresh x s rest fresh.1,
      )

      pub sweep-settles :
          (items : List A) (s : S)
          → Left items s
          → All (Fresh s) items
          → (id : String) (v : A) → read_json id (dir (sweep due fix save items s)) ≡ some v
          → due v ≡ false
      unfolding sweep
      sweep-settles [] s left fresh = λ id v r. elim (Bool-cases (due v)) [
        | inl is_due ↦ absurd (true≢false (left id v r is_due) refl)
        | inr done ↦ done
      ]
      sweep-settles (x ∷ rest) s left fresh = elim (Bool-cases (due x)) [
        | inl is_due ↦ rw is_due (
            sweep-settles rest (save (fix x) s)
              (λ id v r dv. elim (read-fixed id x v s r) [
                | inl done ↦ absurd (true≢false dv done)
                | inr p ↦ has-rest id x rest p.0 (left id v p.1 dv)
              ])
              (All-Fresh x s rest fresh.1))
        | inr settled ↦ rw settled (
            sweep-settles rest s
              (λ id v r dv. elim (Bool-cases (str_eq id (key x))) [
                | inl same ↦
                    elim (fresh.0 v
                      (subst (λ k. read_json k (dir s) ≡ some v) ((eq_iff id (key x)).0 same) r)) [
                        | inl eq ↦
                            absurd (true≢false dv (subst (λ w. due w ≡ false) (sym eq) settled))
                        | inr done ↦ absurd (true≢false dv done)
                      ]
                | inr other ↦ has-rest id x rest other (left id v r dv)
              ])
              fresh.1)
      ]

  -- The records `items` are those of the directory, each in the file named for it.
  pub record IsStored (d : Directory A) (items : List A) : Type 0 where
    pub listed : (id : String) (v : A) → read_json id d ≡ some v → has id items ≡ true
    pub current : All (λ x. read_json (key x) d ≡ some x) items

  All-map :
      {P Q : A → Type 0} (f : (x : A) → P x → Q x) (items : List A) → All P items → All Q items
  All-map f [] all = tt
  All-map f (x ∷ rest) all = (f x all.0, All-map f rest all.1)

  pub sweep-IsStored-settles :
      {S : Type 0} (save : A → S → S) (dir : S → Directory A)
      (saves : (x : A) (s : S) → dir (save x s) ≡ write_json_atomic (key x) x (dir s))
      (due : A → Bool) (fix : A → A) (fixed : (x : A) → due (fix x) ≡ false)
      (same_key : (x : A) → key (fix x) ≡ key x) (items : List A) (s : S)
      → IsStored (dir s) items
      → (id : String) (v : A) → read_json id (dir (sweep due fix save items s)) ≡ some v
      → due v ≡ false
  sweep-IsStored-settles save dir saves due fix fixed same_key items s stored =
      sweep-settles save dir saves due fix fixed same_key items s
        (λ id v r is_due. stored.listed id v r)
        (All-map (λ x same v r. inl (held x v (sym same ∙ r))) items stored.current)
    where
      held : (x v : A) → some x ≡ some v → v ≡ x
      held x v e = cc

-- A sweep leaves what its saves leave.
pub sweep-keeps :
    {A S B : Type 0} (due : A → Bool) (fix : A → A) (save : A → S → S) (f : S → B)
    → ((x : A) (s : S) → f (save x s) ≡ f s)
    → (items : List A) (s : S) → f (sweep due fix save items s) ≡ f s
unfolding sweep
sweep-keeps due fix save f keeps [] s = refl
sweep-keeps due fix save f keeps (x ∷ rest) s = elim (Bool-cases (due x)) [
  | inl is_due ↦
      rw is_due (sweep-keeps due fix save f keeps rest (save (fix x) s) ∙ keeps (fix x) s)
  | inr settled ↦ rw settled (sweep-keeps due fix save f keeps rest s)
]

-- A store whose index lists just its runs, and whose files of pending requests and cards are named
-- for what they hold.
pub record IsSound (store : FileStore) : Type 0 where
  pub runs_stored : IsStored (λ (run : RunRef). run.run_id) store.runs store.run_index
  pub pending_stored :
      IsStored (λ (pending : PendingRef). pending.pending_id) store.pending (glob store.pending)
  pub cards_stored :
      IsStored (λ (card : StreamCardRef). card.card_id) store.cards (glob store.cards)

-- After `recover_incomplete` of a sound store no run of it is running or pending, no pending request
-- is open and no card is streaming.
pub recover_incomplete-settles :
    (later : String → String → Bool) (updated_at : String) (store : FileStore)
    → IsSound store
    → let after = recover_incomplete later updated_at store in
      ((id : String) (run : RunRef)
        → read_json id after.runs ≡ some run
        → is_incomplete run.status ≡ false)
      × (((id : String) (pending : PendingRef)
            → read_json id after.pending ≡ some pending
            → is_open pending.status ≡ false)
          × ((id : String) (card : StreamCardRef)
              → read_json id after.cards ≡ some card
              → is_streaming card.status ≡ false))
unfolding recover_incomplete save_run save_pending save_card
recover_incomplete-settles later updated_at store sound =
    let s1 =
      sweep (λ (run : RunRef). is_incomplete run.status) (interrupted_at updated_at)
        (save_run later) store.run_index store in
    let s2 =
      sweep (λ (pending : PendingRef). is_open pending.status) (cancelled_at updated_at)
        save_pending (glob s1.pending) s1 in
    let runs_kept : (recover_incomplete later updated_at store).runs ≡ s1.runs =
      sweep-keeps _ _ save_card (λ (s : FileStore). s.runs) (λ x s. refl) (glob s2.cards) s2
      ∙ sweep-keeps _ _ save_pending (λ (s : FileStore). s.runs) (λ x s. refl) (glob s1.pending)
          s1 in
    let pending_kept : (recover_incomplete later updated_at store).pending ≡ s2.pending =
      sweep-keeps _ _ save_card (λ (s : FileStore). s.pending) (λ x s. refl) (glob s2.cards) s2 in
    let pending_same : s1.pending ≡ store.pending =
      sweep-keeps _ _ (save_run later) (λ (s : FileStore). s.pending) (λ x s. refl) store.run_index
        store in
    let cards_same : s2.cards ≡ store.cards =
      sweep-keeps _ _ save_pending (λ (s : FileStore). s.cards) (λ x s. refl) (glob s1.pending) s1
      ∙ sweep-keeps _ _ (save_run later) (λ (s : FileStore). s.cards) (λ x s. refl) store.run_index
          store in
    (
      λ id run r.
          sweep-IsStored-settles (λ (run : RunRef). run.run_id) (save_run later)
            (λ (s : FileStore). s.runs) (λ x s. refl) (λ (run : RunRef). is_incomplete run.status)
            (interrupted_at updated_at) (λ x. refl) (λ x. refl) store.run_index store
            sound.runs_stored id run (subst (λ d. read_json id d ≡ some run) runs_kept r),
      (
        λ id pending r.
            sweep-IsStored-settles (λ (pending : PendingRef). pending.pending_id) save_pending
              (λ (s : FileStore). s.pending) (λ x s. refl)
              (λ (pending : PendingRef). is_open pending.status) (cancelled_at updated_at)
              (λ x. refl) (λ x. refl) (glob s1.pending) s1
              (subst (λ d. IsStored (λ (pending : PendingRef). pending.pending_id) d (glob d))
                (sym pending_same) sound.pending_stored)
              id pending (subst (λ d. read_json id d ≡ some pending) pending_kept r),
        λ id card r.
            sweep-IsStored-settles (λ (card : StreamCardRef). card.card_id) save_card
              (λ (s : FileStore). s.cards) (λ x s. refl)
              (λ (card : StreamCardRef). is_streaming card.status) (failed_at updated_at)
              (λ x. refl) (λ x. refl) (glob s2.cards) s2
              (subst (λ d. IsStored (λ (card : StreamCardRef). card.card_id) d (glob d))
                (sym cards_same) sound.cards_stored)
              id card r,
      ),
    )
