-- ===== src/Agent/Codex/Router/Requests.antt =====
-- Requests of the server that the router of agent/codex_app_server.py keeps until they are answered.
use aw_bot.Prelude.{
  String, Bool, true, false, ◌&&◌, none, some, List, [], ◌∷◌, str_eq, ◌≡◌, refl, sym, subst,
  Bool-cases, inl, inr, eq_refl,
}
use aw_bot.Prelude.Text.{eq_of_str_eq, str_eq_of_ne, ne_of_str_eq}
use aw_bot.Agent.Codex.Router.{Request, put_request, take_first, is_asked, is_id}

-- No key of the dict comes twice.
abbrev pub Lacks : String → List (String × Request) → Type 0
Lacks key [] = Unit
Lacks key ((k, old) ∷ rest) = (str_eq k key ≡ false) × Lacks key rest

abbrev pub IsDict : List (String × Request) → Type 0
IsDict [] = Unit
IsDict ((k, old) ∷ rest) = Lacks k rest × IsDict rest

-- What is asked for by its identifier alone, of a turn.
abbrev pub by_id : String → String → String → Request → Bool
by_id turn id = is_asked turn (some id) none

by_id-false :
    (turn id k : String) (request : Request) → str_eq k id ≡ false → by_id turn id k request ≡ false
unfolding is_asked
by_id-false turn id k request e = rw e (no_and (is_id turn request.turn_id))
  where
    no_and : (b : Bool) → ((b && false) && true) ≡ false
    no_and true = refl
    no_and false = refl

by_id-true :
    (turn id : String) (request : Request)
    → request.turn_id ≡ some turn
    → by_id turn id id request ≡ true
unfolding is_asked
by_id-true turn id request e = rw (e, eq_refl turn, eq_refl id) refl

pub take_first-Lacks :
    (turn id : String) (requests : List (String × Request))
    → Lacks id requests
    → take_first (by_id turn id) requests ≡ none
unfolding take_first
take_first-Lacks turn id [] lacks = refl
take_first-Lacks turn id ((k, old) ∷ rest) lacks =
    rw (by_id-false turn id k old lacks.0, take_first-Lacks turn id rest lacks.1) refl

-- A request that was kept is found, and what is left has none of its identifier.
pub take_first-put :
    (turn id : String) (request : Request) (requests : List (String × Request))
    → request.turn_id ≡ some turn
    → IsDict requests
    → (rest : List (String × Request)) × (take_first
          (by_id turn id)
          (put_request id request requests)
        ≡ some (request, rest))
      × Lacks id rest
unfolding take_first put_request
take_first-put turn id request [] e dict = ([], rw (by_id-true turn id request e) refl, tt)
take_first-put turn id request ((k, old) ∷ rest) e dict = elim (Bool-cases (str_eq k id)) [
  | inl same ↦ (
    rest,
    rw (same, by_id-true turn id request e) refl,
    subst (λ i. Lacks i rest) (eq_of_str_eq k id same) dict.0,
  )
  | inr other ↦
      let (left, found, lacks) = take_first-put turn id request rest e dict.1 in
      ((k, old) ∷ left, rw (other, by_id-false turn id k old other, found) refl, (other, lacks))
]

put_request-Lacks :
    (key id : String) (request : Request) (requests : List (String × Request))
    → str_eq id key ≡ false
    → Lacks key requests
    → Lacks key (put_request id request requests)
unfolding put_request
put_request-Lacks key id request [] ne lacks = (ne, tt)
put_request-Lacks key id request ((k, old) ∷ rest) ne lacks = elim (Bool-cases (str_eq k id)) [
  | inl same ↦ rw same (ne, lacks.1)
  | inr other ↦ rw other (lacks.0, put_request-Lacks key id request rest ne lacks.1)
]

pub put_request-IsDict :
    (id : String) (request : Request) (requests : List (String × Request))
    → IsDict requests
    → IsDict (put_request id request requests)
unfolding put_request
put_request-IsDict id request [] dict = (tt, tt)
put_request-IsDict id request ((k, old) ∷ rest) dict = elim (Bool-cases (str_eq k id)) [
  | inl same ↦ rw same (subst (λ i. Lacks i rest) (eq_of_str_eq k id same) dict.0, dict.1)
  | inr other ↦ rw other (
    put_request-Lacks k id request rest (other_way k id other) dict.0,
    put_request-IsDict id request rest dict.1,
  )
]
  where
    other_way : (a b : String) → str_eq a b ≡ false → str_eq b a ≡ false
    other_way a b e = str_eq_of_ne b a (λ same. ne_of_str_eq a b e (sym same))
