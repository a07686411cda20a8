-- ===== src/Core/ToolRuntime/Values.antt =====
-- Values of unknown type, as `args`, `parameters` and the results of tools are, and their digests.
use cere_worker.Prelude.{
  Text, codes, text_eq, Bool, false, not, ◌||◌, List, [], ◌∷◌, ◌++◌, map, any, filter,
  if◌then◌else◌, join,
}

-- A number is kept by the text that it prints as.
mutual
  pub data Value : Type 0 where
    undefined null : Value
    bool : Bool → Value
    num str : Text → Value
    arr : Values → Value
    obj : Fields → Value

  pub data Values : Type 0 where
    nil : Values
    cons : Value → Values → Values

  pub data Fields : Type 0 where
    end : Fields
    field : Text → Value → Fields → Fields

unfoldable pub elements : Values → List Value
elements nil = []
elements (cons v vs) = v ∷ elements vs

unfoldable pub entries : Fields → List (Text × Value)
entries end = []
entries (field k v fs) = (k, v) ∷ entries fs

-- `fields[key]` of an own property.
unfoldable pub get_field : Text → Fields → Value
unfolding text_eq
get_field key end = undefined
get_field key (field k v fs) = if text_eq k key then v else get_field key fs

unfoldable pub has_field : Text → Fields → Bool
unfolding text_eq
has_field key end = false
has_field key (field k v fs) = text_eq k key || has_field key fs

-- The properties that every plain object inherits.
abbrev pub prototype_keys : List Text
prototype_keys =
    codes "constructor"
    ∷ codes "__defineGetter__"
    ∷ codes "__defineSetter__"
    ∷ codes "hasOwnProperty"
    ∷ codes "__lookupGetter__"
    ∷ codes "__lookupSetter__"
    ∷ codes "isPrototypeOf"
    ∷ codes "propertyIsEnumerable"
    ∷ codes "toString"
    ∷ codes "valueOf"
    ∷ codes "__proto__"
    ∷ codes "toLocaleString"
    ∷ []

-- `key in fields`
unfoldable pub in_object : Text → Fields → Bool
unfolding has_field any text_eq
in_object key fs = has_field key fs || any (λ k. text_eq k key) prototype_keys

-- What the code calls of the engine and of node:crypto: `JSON.stringify` of a value that is no
-- object, and of one indented by two; `String`; `localeCompare` (whether the first text goes behind
-- the second); the digest.
pub record Engine : Type 0 where
  pub json : Value → Text
  pub json_pretty : Value → Text
  pub to_string : Value → Text
  pub goes_behind : Text → Text → Bool
  pub sha256_hex : Text → Text

module _ (engine : Engine) where
  open engine use {json, goes_behind, sha256_hex}

  -- A stable sort by key: an entry goes behind those that do not go behind it.
  unfoldable pub insert_entry : Text × Text → List (Text × Text) → List (Text × Text)
  insert_entry e [] = e ∷ []
  insert_entry e (x ∷ xs) = if goes_behind x.0 e.0 then e ∷ x ∷ xs else x ∷ insert_entry e xs

  unfoldable pub sort_entries : List (Text × Text) → List (Text × Text) → List (Text × Text)
  unfolding insert_entry
  sort_entries sorted [] = sorted
  sort_entries sorted (e ∷ es) = sort_entries (insert_entry e sorted) es

  abbrev pub print_entry : Text × Text → Text
  print_entry e = json (str e.0) ++ b':' ∷ e.1

  unfoldable mutual
    unfolding join sort_entries

    pub stable_stringify : Value → Text
    stable_stringify (arr vs) = b'[' ∷ join (codes ",") (stringify_all vs) ++ codes "]"
    stable_stringify (obj fs) =
        b'{' ∷ join (codes ",") (map print_entry (sort_entries [] (stringify_fields fs)))
        ++ codes "}"
    stable_stringify v = json v

    pub stringify_all : Values → List Text
    stringify_all nil = []
    stringify_all (cons v vs) = stable_stringify v ∷ stringify_all vs

    pub stringify_fields : Fields → List (Text × Text)
    stringify_fields end = []
    stringify_fields (field k v fs) = (k, stable_stringify v) ∷ stringify_fields fs

  unfoldable pub digest_stable : Value → Text
  unfolding stable_stringify
  digest_stable v = sha256_hex (stable_stringify v)

  unfoldable pub hash_tool_call : Text → Fields → Text
  unfolding digest_stable
  hash_tool_call tool_name args = tool_name ++ b':' ∷ digest_stable (obj args)

-- `v === true`
abbrev pub is_true : Value → Bool
is_true (bool b) = b
is_true _ = false

abbrev pub is_required : Value → Bool
is_required (obj fs) = is_true (get_field (codes "required") fs)
is_required _ = false

unfoldable pub strings_of : List Value → List Text
strings_of [] = []
strings_of (str s ∷ vs) = s ∷ strings_of vs
strings_of (_ ∷ vs) = strings_of vs

unfoldable pub required_keys : List (Text × Value) → List Text
unfolding get_field
required_keys [] = []
required_keys ((k, v) ∷ es) = if is_required v then k ∷ required_keys es else required_keys es

abbrev pub required_of : Fields → Value → List Text
required_of fs (arr vs) = strings_of (elements vs)
required_of fs _ = required_keys (entries fs)

unfoldable pub get_required_parameters : Value → List Text
unfolding strings_of required_keys elements entries get_field
get_required_parameters (obj fs) = required_of fs (get_field (codes "required") fs)
get_required_parameters _ = []

unfoldable pub get_missing_required_parameters : Value → Fields → List Text
unfolding get_required_parameters in_object filter
get_missing_required_parameters parameters args =
    filter (λ name. not (in_object name args)) (get_required_parameters parameters)

unfoldable pub format_missing_parameter_error : List Text → Text
unfolding join
format_missing_parameter_error (name ∷ []) = codes "Missing required parameter: " ++ name
format_missing_parameter_error missing =
    codes "Missing required parameters: " ++ join (codes ", ") missing
