-- ===== src/Agent/OpenCode/Parts.antt =====
-- What OpenCodeEventRouter of agent/opencode_server.py keeps about the parts of messages: their types,
-- their texts and the statuses of tools.
pub mod Texts
use aw_bot.Prelude.{
  String, Bool, true, false, ◌&&◌, Option, none, some, str_eq, is_some, if◌then◌else◌,
}
use Prim.Native.String
use aw_bot.Prelude.Json.{Json, str, obj, Fields}
use aw_bot.Prelude.Text.{truthy, after_prefix}
use aw_bot.Agent.Payload.{lookup, get, set_field}
use aw_bot.Agent.OpenCode.Translator.{or_inside, is_text, tool_part}

-- (session_id, message_id, part_id)
abbrev pub PartKey : Type 0
PartKey = String × String × String

abbrev pub same_key : PartKey → PartKey → Bool
same_key (a, b, c) (x, y, z) = str_eq a x && (str_eq b y && str_eq c z)

abbrev pub put_part : {V : Type 0} → PartKey → V → (PartKey → V) → PartKey → V
put_part key value d k = if same_key key k then value else d k

-- A set is the test of what is in it.
pub record Parts : Type 0 where
  pub part_types : PartKey → Option String
  pub part_texts : PartKey → Option String
  pub part_conflicts : PartKey → Bool
  pub tool_part_statuses : PartKey → Option String

abbrev pub no_parts : Parts
no_parts = record {
  part_types = λ k. none;
  part_texts = λ k. none;
  part_conflicts = λ k. false;
  tool_part_statuses = λ k. none;
}

-- `isinstance(value, str)` and `isinstance(value, dict)`
abbrev pub text_in : Option Json → Option String
text_in (some (str text)) = some text
text_in v = none

abbrev pub dict_in : Option Json → Option Fields
dict_in (some (obj fields)) = some fields
dict_in v = none

abbrev pub key_from : Option String → Option String → Option String → Option PartKey
key_from (some session) (some message) (some part) = some (session, message, part)
key_from session message part = none

abbrev pub with_text : Option PartKey → Option String → Option (PartKey × String)
with_text (some key) (some text) = some (key, text)
with_text key text = none

-- The properties of an event of a type.
unfoldable pub properties_of : String → Fields → Option Fields
properties_of type raw =
    if is_text type (get raw "type") then dict_in (get raw "properties") else none

abbrev pub or_empty : Option String → String
or_empty none = ""
or_empty (some text) = text

abbrev not_empty : Option String → Option String
not_empty none = none
not_empty (some text) = if truthy text then some text else none

-- The part and the text of a `message.part.delta`.
unfoldable pub delta_of : Option Fields → Option (PartKey × String)
delta_of none = none
delta_of (some properties) =
    with_text
      (key_from (text_in (get properties "sessionID"))
        (text_in (or_inside (get properties "messageID") (get properties "part") "messageID"))
        (text_in (or_inside (get properties "partID") (get properties "part") "id")))
      (not_empty (text_in (get properties "delta")))

unfoldable pub remember_delta : Option (PartKey × String) → Parts → Parts
remember_delta none p = p
remember_delta (some (key, text)) p = if p.part_conflicts key then p else record p {
  part_texts = put_part key (some (String.◌++◌ (or_empty (p.part_texts key)) text)) p.part_texts;
}

-- `_remember_part_delta`
unfoldable pub remember_part_delta : Fields → Parts → Parts
remember_part_delta raw p = remember_delta (delta_of (properties_of "message.part.delta" raw)) p

abbrev pub part_key : Fields → Fields → Option PartKey
part_key properties part =
    key_from (text_in (get properties "sessionID")) (text_in (get part "messageID"))
      (text_in (get part "id"))

unfoldable pub update_in : Fields → Option Fields → Option (PartKey × String)
update_in properties none = none
update_in properties (some part) = with_text (part_key properties part) (text_in (get part "text"))

abbrev pub extension : Option String → String × Bool
extension none = ("", true)
extension (some rest) = (rest, false)

-- The delta from the text that is known of a part, and whether the part is in conflict then.
unfoldable pub delta_from : Option String → Bool → String → String × Bool
delta_from none conflict text = (text, conflict)
delta_from (some previous) true text = ("", true)
delta_from (some previous) false text = extension (after_prefix previous text)

unfoldable pub update_part : PartKey → String → Parts → String × Parts
update_part key text p =
    let (delta, conflict) = delta_from (p.part_texts key) (p.part_conflicts key) text in
    (
      delta,
      record p {
        part_texts = put_part key (some text) p.part_texts;
        part_conflicts = put_part key conflict p.part_conflicts;
      },
    )

abbrev pub enriched : Fields → Fields → String → Fields
enriched raw properties delta =
    set_field "properties" (obj (set_field "delta" (str delta) properties)) raw

unfoldable pub with_delta : Fields → Fields → Option (PartKey × String) → Parts → Fields × Parts
with_delta raw properties none p = (raw, p)
with_delta raw properties (some (key, text)) p =
    let (delta, after) = update_part key text p in (enriched raw properties delta, after)

unfoldable pub with_update : Fields → Option Fields → Parts → Fields × Parts
with_update raw none p = (raw, p)
with_update raw (some properties) p =
    with_delta raw properties (update_in properties (dict_in (get properties "part"))) p

-- `_with_part_update_delta`
unfoldable pub with_part_update_delta : Fields → Parts → Fields × Parts
with_part_update_delta raw p = with_update raw (properties_of "message.part.updated" raw) p

abbrev state_status : Option Fields → Option String
state_status none = none
state_status (some state) = text_in (get state "status")

abbrev status_in : Fields → Option Fields → Option (PartKey × String)
status_in properties none = none
status_in properties (some part) =
    with_text (part_key properties part) (state_status (dict_in (get part "state")))

unfoldable pub status_of : Option Fields → Option (PartKey × String)
status_of none = none
status_of (some properties) = status_in properties (tool_part (get properties "part"))

abbrev has_status : String → Option String → Bool
has_status status none = false
has_status status (some old) = str_eq old status

unfoldable pub note_status : Option (PartKey × String) → Parts → Bool × Parts
note_status none p = (false, p)
note_status (some (key, status)) p =
    if has_status status (p.tool_part_statuses key)
    then (true, p)
    else (false, record p { tool_part_statuses = put_part key (some status) p.tool_part_statuses })

-- `_is_duplicate_tool_part_status`
unfoldable pub is_duplicate_tool_part_status : Fields → Parts → Bool × Parts
is_duplicate_tool_part_status raw p =
    note_status (status_of (properties_of "message.part.updated" raw)) p

abbrev type_in : Fields → Option Fields → Option (PartKey × String)
type_in properties none = none
type_in properties (some part) = with_text (part_key properties part) (text_in (get part "type"))

unfoldable pub note_type : Option (PartKey × String) → Parts → Parts
note_type none p = p
note_type (some (key, type)) p = record p { part_types = put_part key (some type) p.part_types }

-- What `_remember_message_context` does with a part.
unfoldable pub remember_part_type : Fields → Parts → Parts
remember_part_type properties p = note_type (type_in properties (dict_in (get properties "part"))) p

abbrev type_at : Option PartKey → Parts → Option String
type_at none p = none
type_at (some key) p = p.part_types key

unfoldable pub with_type : Fields → Fields → Option String → Fields
with_type raw properties none = raw
with_type raw properties (some type) =
    set_field "properties" (obj (set_field "_partType" (str type) properties)) raw

unfoldable pub with_type_of : Fields → Option Fields → Parts → Fields
with_type_of raw none p = raw
with_type_of raw (some properties) p =
    let key =
      key_from (text_in (get properties "sessionID")) (text_in (get properties "messageID"))
        (text_in (get properties "partID")) in
    if is_some (lookup properties "part") then raw else with_type raw properties (type_at key p)

-- `_with_known_part_type`
unfoldable pub with_known_part_type : Fields → Parts → Fields
with_known_part_type raw p = with_type_of raw (properties_of "message.part.delta" raw) p
