-- ===== src/Engine.antt =====
-- What github.com/hashicorp/vault/sdk gives to a secrets engine plugin (logical and framework), as
-- far as the backends under plugins/ use it.
-- A storage is any behaviour whatever: its answers are a function of all that happened before.
pub mod Stored
use vault_secrets_broker.Prelude.{
  ℕ, String, Bool, true, false, Option, none, some, List, [], ◌∷◌, ◌++◌,
}
use vault_secrets_broker.Json.{Json, null, obj, Fields, Payload}
use vault_secrets_broker.Exec.{Error, decode, Result, ok, err, panic, Exec, pure, fail, crash}
use vault_secrets_broker.Vault.{lookup_field, as_string}
use vault_secrets_broker.Net.{
  Event, World, storage_read, stored, store_failed, record_event, set_token,
}

-- `logical.Storage`, and `logical.StorageEntryJSON`, which may refuse to encode a map.
pub record Storage : Type 0 where
  pub get : List Event → (key : String) → Result (Option Payload)
  pub put : List Event → (key : String) → Json → Option Error
  pub entry_error : (key : String) → Fields → Option Error

-- `*framework.FieldData`. GetOkErr gives the value, if it is there, and whether it was given.
-- Get gives the default of the field's schema, and panics on a field with no schema.
pub record FieldData : Type 0 where
  pub get_ok_err : String → Result (Option Json × Bool)
  pub get : String → Result (Option Json)

-- `*logical.Request`: the internal data of its Secret, if it has one.
pub record Request : Type 0 where
  pub internal_data : Option Fields

-- `*logical.Response`; an ErrorResponse has a text, and the error that its %v stands for.
pub data Response : Type 0 where
  nil_response : Response
  error_response : String → Option Error → Response
  data_response : Fields → Response
  secret_response : (secret_type : String) → (content internal : Fields) → Response

pub record Sdk : Type 0 where
  -- framework.LeaseExtend(backendIncrement, backendMax, systemView)
  pub lease_extend : (increment max : ℕ) → Request → FieldData → Exec World Response
  -- vaultapi.NewClient(vaultapi.DefaultConfig()): the token of the environment, VAULT_TOKEN
  pub new_client : List Event → Result String

-- `framework.FieldSchema`, without the description; each field is a framework.TypeString.
pub record FieldSchema : Type 0 where
  pub required : Bool
  pub default_value : Option String

pub data Operation : Type 0 where
  create_operation : Operation
  update_operation : Operation
  read_operation : Operation

abbrev pub Handler : Type 0
Handler = Request → FieldData → Exec World Response

-- `framework.PathOperation`; `forwarded` is both Forward flags.
pub record PathOperation : Type 0 where
  pub callback : Handler
  pub forwarded : Bool

abbrev pub required_text : FieldSchema
required_text = record { required = true; default_value = none }

abbrev pub plain_text : FieldSchema
plain_text = record { required = false; default_value = none }

abbrev pub text_with_default : String → FieldSchema
text_with_default s = record { required = false; default_value = some s }

abbrev pub here : Handler → PathOperation
here h = record { callback = h; forwarded = false }

abbrev pub forwarded : Handler → PathOperation
forwarded h = record { callback = h; forwarded = true }

-- A part of the regular expression of `framework.Path`.
pub data Segment : Type 0 where
  literal : String → Segment
  -- GenericNameRegex, and GenericNameWithAtRegex
  generic_name : String → Segment
  generic_name_with_at : String → Segment

-- `framework.Path`, without the texts of its help.
pub record EnginePath : Type 0 where
  pub pattern : List Segment
  pub fields : List (String × FieldSchema)
  pub existence_check : Option (Request → FieldData → Exec World Bool)
  pub operations : List (Operation × PathOperation)

abbrev pub storage_get : Storage → String → Exec World (Option Payload)
storage_get storage key w = (storage.get w.trace key, record_event (storage_read key) w)

abbrev pub storage_put : Storage → String → Json → Exec World Unit
storage_put storage key doc w = elim (storage.put w.trace key doc) [
  | none ↦ (ok tt, record_event (stored key doc) w)
  | some e ↦ (err e, record_event (store_failed key doc) w)
]

-- entry.DecodeJSON into a map: null is the nil map.
abbrev pub decode_map : Payload → Result (Option Fields)
decode_map (some (obj fs)) = ok (some fs)
decode_map (some null) = ok none
decode_map _ = err decode

abbrev pub storage_entry_json : Storage → String → Fields → Result Json
storage_entry_json storage key fs = elim (storage.entry_error key fs) [
  | none ↦ ok (obj fs)
  | some e ↦ err e
]

-- vaultapi.NewClient: the calls that follow carry the token of the environment.
abbrev pub new_client : Sdk → Exec World Unit
new_client sdk w = elim (sdk.new_client w.trace) [
  | ok token ↦ set_token token w
  | err e ↦ fail e w
  | panic p ↦ (panic p, w)
]

-- `framework.Secret`
pub record FrameworkSecret : Type 0 where
  pub secret_type : String
  pub fields : List (String × FieldSchema)
  pub default_duration : ℕ
  pub renew : Handler
  pub revoke : Handler

-- `framework.Backend`, without the text of its help; it is of type logical.TypeLogical.
pub record FrameworkBackend : Type 0 where
  pub paths : List EnginePath
  pub secrets : List FrameworkSecret
  pub seal_wrap_storage : List String
  pub running_version : String

unfoldable pub path_callbacks : List (Operation × PathOperation) → List Handler
path_callbacks [] = []
path_callbacks (o ∷ os) = o.1.callback ∷ path_callbacks os

-- The handlers that Vault calls: those of the paths, and those of the leases.
unfoldable pub path_handlers : List EnginePath → List Handler
unfolding path_callbacks
path_handlers [] = []
path_handlers (p ∷ ps) = path_callbacks p.operations ++ path_handlers ps

unfoldable pub lease_handlers : List FrameworkSecret → List Handler
lease_handlers [] = []
lease_handlers (s ∷ ss) = s.renew ∷ (s.revoke ∷ lease_handlers ss)

unfoldable pub handlers : FrameworkBackend → List Handler
handlers b = path_handlers b.paths ++ lease_handlers b.secrets

-- cfg[key], which is nil where there is no such key
unfoldable pub value_of : String → Fields → Json
unfolding lookup_field
value_of key cfg = elim (lookup_field key cfg) [ none ↦ null | some v ↦ v ]

-- s, _ := cfg[key].(string)
unfoldable pub text_of : String → Fields → String
unfolding lookup_field
text_of key cfg = as_string (lookup_field key cfg)

-- s, _ := d.Get(name).(string)
unfoldable pub get_string : FieldData → String → Exec World String
get_string d name = elim (d.get name) [
  | ok v ↦ pure (as_string v)
  | err e ↦ fail e
  | panic p ↦ crash p
]

abbrev pub rfc3339 : String
rfc3339 = "2006-01-02T15:04:05Z07:00"
