-- ===== src/Agent/OpenCode/Parts/Texts.antt =====
-- The texts of parts that OpenCodeEventRouter keeps, against the deltas that it lets through.
use Prim.Native.String
use text.Mathlib.TextLemmas.{
  append_assoc as text_append_assoc, append-nil as text_append-nil, nil-append,
}
use aw_bot.Prelude.{
  String, Bool, true, false, ◌&&◌, Option, none, some, List, [], ◌∷◌, str_eq, if◌then◌else◌, ◌≡◌,
  refl, sym, ap, ◌∙◌, subst, Bool-cases, inl, inr,
}
use aw_bot.Prelude.Json.{Json, str, obj, Fields, end, field}
use aw_bot.Prelude.Text.{after_prefix, eq_of_str_eq}
use aw_bot.Prelude.Text.Prefixes.{append-after_prefix}
use aw_bot.Agent.Payload.{lookup, get, not_none, set_field}
use aw_bot.Agent.OpenCode.Parts.{
  PartKey, same_key, Parts, dict_in, text_in, or_empty, properties_of, delta_of, remember_delta,
  remember_part_delta, update_in, extension, delta_from, update_part, enriched, with_delta,
  with_update, with_part_update_delta,
}

-- What `handle_event` makes of the event and of what is known of the parts.
unfoldable pub note_part : Fields → Parts → Fields × Parts
note_part raw p = with_part_update_delta raw (remember_part_delta raw p)

unfoldable pub note_parts : List Fields → Parts → Parts
note_parts [] p = p
note_parts (raw ∷ rest) p = note_parts rest (note_part raw p).1

-- The text of a part's delta, if the part is the one of a key.
abbrev pub text_for : PartKey → Option (PartKey × String) → String
text_for key none = ""
text_for key (some (k, text)) = if same_key k key then text else ""

abbrev pub delta_in : Option Fields → String
delta_in none = ""
delta_in (some properties) = or_empty (text_in (get properties "delta"))

-- The delta that an event carries after an update of the part of a key.
abbrev pub update_for : PartKey → Option (PartKey × String) → Fields → String
update_for key none raw = ""
update_for key (some (k, text)) raw =
    if same_key k key then delta_in (dict_in (get raw "properties")) else ""

abbrev pub updated : Option Fields → Option (PartKey × String)
updated none = none
updated (some properties) = update_in properties (dict_in (get properties "part"))

-- The text that an event lets through for a part, by a delta or by an update.
unfoldable pub sent_for : PartKey → Fields → Parts → String
sent_for key raw p =
    String.◌++◌ (text_for key (delta_of (properties_of "message.part.delta" raw)))
      (update_for key (updated (properties_of "message.part.updated" raw)) (note_part raw p).0)

unfoldable pub sent_by : PartKey → List Fields → Parts → String
sent_by key [] p = ""
sent_by key (raw ∷ rest) p = String.◌++◌ (sent_for key raw p) (sent_by key rest (note_part raw p).1)

abbrev text_at : PartKey → Parts → String
text_at key p = or_empty (p.part_texts key)

both_true : (a b : Bool) → a && b ≡ true → (a ≡ true) × (b ≡ true)
both_true true b e = (refl, e)
both_true false b e = cc

eq_of_same_key : (k key : PartKey) → same_key k key ≡ true → k ≡ key
eq_of_same_key (a, b, c) (x, y, z) e =
    let (ax, rest) = both_true (str_eq a x) (str_eq b y && str_eq c z) e in
    let (bY, cz) = both_true (str_eq b y) (str_eq c z) rest in
    rw (eq_of_str_eq a x ax, eq_of_str_eq b y bY, eq_of_str_eq c z cz) refl

lookup-set_field :
    (key : String) (v : Json) (fields : Fields)
    → str_eq key key ≡ true
    → lookup (set_field key v fields) key ≡ some v
unfolding lookup set_field
lookup-set_field key v end same = rw same refl
lookup-set_field key v (field k w rest) same = elim (Bool-cases (str_eq k key)) [
  | inl here ↦ rw (here, same) refl
  | inr other ↦ rw (other, other) (lookup-set_field key v rest same)
]

delta_in-enriched :
    (raw properties : Fields) (delta : String)
    → delta_in (dict_in (get (enriched raw properties delta) "properties")) ≡ delta
unfolding not_none
delta_in-enriched raw properties delta =
    rw
      (
        lookup-set_field "properties" (obj (set_field "delta" (str delta) properties)) raw refl,
        lookup-set_field "delta" (str delta) properties refl,
      )
      refl

delta_from-extends :
    (previous : Option String) (conflict : Bool) (text : String)
    → (delta_from previous conflict text).1 ≡ false
    → text ≡ String.◌++◌ (or_empty previous) (delta_from previous conflict text).0
unfolding delta_from
delta_from-extends none conflict text clear = sym (nil-append text)
delta_from-extends (some previous) true text clear = cc
delta_from-extends (some previous) false text clear =
    extends (after_prefix previous text) refl clear
  where
    extends :
        (rest : Option String)
        → after_prefix previous text ≡ rest
        → (extension rest).1 ≡ false
        → text ≡ String.◌++◌ previous (extension rest).0
    extends none e clear = cc
    extends (some rest) e clear = sym (append-after_prefix previous text rest e)

remember_delta-text :
    (key : PartKey) (delta : Option (PartKey × String)) (p : Parts)
    → p.part_conflicts key ≡ false
    → text_at key (remember_delta delta p) ≡ String.◌++◌ (text_at key p) (text_for key delta)
unfolding remember_delta
remember_delta-text key none p clear = sym (text_append-nil (text_at key p))
remember_delta-text key (some (k, text)) p clear = elim (Bool-cases (same_key k key)) [
  | inl same ↦
      rw (ap p.part_conflicts (eq_of_same_key k key same) ∙ clear, same)
        (ap (λ x. String.◌++◌ (text_at x p) text) (eq_of_same_key k key same))
  | inr other ↦ elim (Bool-cases (p.part_conflicts k)) [
    | inl conflict ↦ rw (conflict, other) (sym (text_append-nil (text_at key p)))
    | inr free ↦ rw (free, other) (sym (text_append-nil (text_at key p)))
  ]
]

remember_delta-conflicts :
    (delta : Option (PartKey × String)) (p : Parts)
    → (remember_delta delta p).part_conflicts ≡ p.part_conflicts
unfolding remember_delta
remember_delta-conflicts none p = refl
remember_delta-conflicts (some (k, text)) p = elim (Bool-cases (p.part_conflicts k)) [
  | inl conflict ↦ rw conflict refl
  | inr clear ↦ rw clear refl
]

delta_from-clear :
    (previous : Option String) (conflict : Bool) (text : String)
    → (delta_from previous conflict text).1 ≡ false
    → conflict ≡ false
unfolding delta_from
delta_from-clear none conflict text clear = clear
delta_from-clear (some previous) true text clear = cc
delta_from-clear (some previous) false text clear = refl

-- The conflict that an update of the part of a key leaves.
clear_of_same :
    (key k : PartKey) (text : String) (p : Parts)
    → same_key k key ≡ true
    → (update_part k text p).1.part_conflicts key ≡ false
    → (delta_from (p.part_texts k) (p.part_conflicts k) text).1 ≡ false
unfolding update_part
clear_of_same key k text p same clear =
    subst
      (λ b.
        (if b
          then (delta_from (p.part_texts k) (p.part_conflicts k) text).1
          else p.part_conflicts key)
        ≡ false)
      same clear

-- The update of a part: the text of a part that is not in conflict after it.
update_for-text :
    (key : PartKey) (raw properties : Fields) (update : Option (PartKey × String)) (p : Parts)
    → (with_delta raw properties update p).1.part_conflicts key ≡ false
    → text_at key (with_delta raw properties update p).1
      ≡ String.◌++◌ (text_at key p) (update_for key update (with_delta raw properties update p).0)
unfolding with_delta update_part
update_for-text key raw properties none p clear = sym (text_append-nil (text_at key p))
update_for-text key raw properties (some (k, text)) p clear = elim (Bool-cases (same_key k key)) [
  | inl same ↦
      let equal = eq_of_same_key k key same in
      let delta = (delta_from (p.part_texts k) (p.part_conflicts k) text).0 in
      rw (same, delta_in-enriched raw properties delta)
        (delta_from-extends (p.part_texts k) (p.part_conflicts k) text
            (clear_of_same key k text p same clear)
          ∙ ap (λ x. String.◌++◌ (text_at x p) delta) equal)
  | inr other ↦ rw (other) (sym (text_append-nil (text_at key p)))
]

-- A conflict stays.
with_delta-conflicts :
    (key : PartKey) (raw properties : Fields) (update : Option (PartKey × String)) (p : Parts)
    → (with_delta raw properties update p).1.part_conflicts key ≡ false
    → p.part_conflicts key ≡ false
unfolding with_delta update_part
with_delta-conflicts key raw properties none p clear = clear
with_delta-conflicts key raw properties (some (k, text)) p clear =
    elim (Bool-cases (same_key k key)) [
      | inl same ↦
          ap p.part_conflicts (sym (eq_of_same_key k key same))
          ∙ delta_from-clear (p.part_texts k) (p.part_conflicts k) text
              (clear_of_same key k text p same clear)
      | inr other ↦
          subst
            (λ b.
              (if b
                then (delta_from (p.part_texts k) (p.part_conflicts k) text).1
                else p.part_conflicts key)
              ≡ false)
            other clear
    ]

note_part-step :
    (key : PartKey) (raw : Fields) (p : Parts) (properties : Option Fields)
    → (with_update raw properties p).1.part_conflicts key ≡ false
    → (p.part_conflicts key ≡ false)
      × (text_at key (with_update raw properties p).1
          ≡ String.◌++◌
              (text_at key p)
              (update_for key (updated properties) (with_update raw properties p).0))
unfolding with_update
note_part-step key raw p none clear = (clear, sym (text_append-nil (text_at key p)))
note_part-step key raw p (some properties) clear =
    let update = update_in properties (dict_in (get properties "part")) in
    (
      with_delta-conflicts key raw properties update p clear,
      update_for-text key raw properties update p clear,
    )

note_part-text :
    (key : PartKey) (raw : Fields) (p : Parts)
    → (note_part raw p).1.part_conflicts key ≡ false
    → (p.part_conflicts key ≡ false)
      × (text_at key (note_part raw p).1 ≡ String.◌++◌ (text_at key p) (sent_for key raw p))
unfolding note_part sent_for with_part_update_delta remember_part_delta
note_part-text key raw p clear =
    let delta = delta_of (properties_of "message.part.delta" raw) in
    let (clear_between, text_after) =
      note_part-step key raw (remember_delta delta p) (properties_of "message.part.updated" raw)
        clear in
    let clear_before = ap (λ d. d key) (sym (remember_delta-conflicts delta p)) ∙ clear_between in
    (
      clear_before,
      text_after
          ∙ rw (remember_delta-text key delta p clear_before)
              (text_append_assoc (text_at key p) _ _),
    )

-- If the part of a key is not in conflict after some events, it was not before them, and its text is what it was
-- before, followed by the deltas that the events let through for it.
pub note_parts-text :
    (key : PartKey) (raws : List Fields) (p : Parts)
    → (note_parts raws p).part_conflicts key ≡ false
    → (p.part_conflicts key ≡ false)
      × (text_at key (note_parts raws p) ≡ String.◌++◌ (text_at key p) (sent_by key raws p))
unfolding note_parts sent_by
note_parts-text key [] p clear = (clear, sym (text_append-nil (text_at key p)))
note_parts-text key (raw ∷ rest) p clear =
    let (clear_after, text_rest) = note_parts-text key rest (note_part raw p).1 clear in
    let (clear_before, text_now) = note_part-text key raw p clear_after in
    (
      clear_before,
      text_rest
          ∙ rw text_now (
              text_append_assoc (text_at key p) (sent_for key raw p)
                (sent_by key rest (note_part raw p).1)),
    )
