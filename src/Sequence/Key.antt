-- ===== src/Sequence/Key.antt =====
-- src/work_step/keys.rs: a Message's key in a Correlation, its values written out in full.
-- What a Message's promoted properties hold is a parameter, as `Promoted::get` answers.
use xmip_core_runtime.Base.{List, [], ◌∷◌, ◌++◌, Option, none, some, Text, length, decimal}
use xmip_core_runtime.Journey.{Journey, Received, GroupDelivery}

pub data JourneyValue : Type 0 where
  origin subscription previous : JourneyValue

pub data KeyWord : Type 0 where
  receive_location receive_port work_process send_port_group send_port : KeyWord
  context : Text → KeyWord
  journey : JourneyValue → KeyWord

pub record ResolvedSet : Type 0 where
  pub name : Text
  pub keys : List KeyWord

abbrev pub map_option {ℓ κ} : {A : Type ℓ} {B : Type κ} → (A → B) → Option A → Option B
map_option f none = none
map_option f (some a) = some (f a)

unfoldable pub journey_value : Journey → JourneyValue → Option Text
journey_value j origin = map_option (λ (r : Received). decimal r.origin) j.received
journey_value j subscription = j.subscription
journey_value j previous = map_option decimal j.previous_journey_id

-- The value a key word reads.
unfoldable pub key_value : Journey → (Text → Option Text) → Text → KeyWord → Option Text
key_value j promoted at receive_location = map_option (λ (r : Received). r.location) j.received
key_value j promoted at receive_port = map_option (λ (r : Received). r.port) j.received
key_value j promoted at work_process = some at
key_value j promoted at send_port_group = map_option (λ (g : GroupDelivery). g.name) j.group
key_value j promoted at send_port = j.send_port
key_value j promoted at (context name) = promoted name
key_value j promoted at (journey value) = journey_value j value

-- One value as the key writes it, `{length}:{value};`, before what follows.
unfoldable pub part : Text → Text → Text
part value rest = decimal (length value) ++ b':' ∷ (value ++ b';' ∷ rest)

-- `ResolvedSet::text`: `none` is the refusal that names the key part the Message lacks.
unfoldable pub text : Journey → (Text → Option Text) → Text → List KeyWord → Option Text
text j promoted at [] = some []
text j promoted at (k ∷ ks) = elim (key_value j promoted at k) [
  | none ↦ none
  | some value ↦ map_option (part value) (text j promoted at ks)
]

-- What the key is of: the value of each key word, in order.
unfoldable pub values : Journey → (Text → Option Text) → Text → List KeyWord → Option (List Text)
values j promoted at [] = some []
values j promoted at (k ∷ ks) = elim (key_value j promoted at k) [
  | none ↦ none
  | some value ↦ map_option (λ vs. value ∷ vs) (values j promoted at ks)
]
