-- ===== src/Sending/Defs.antt =====
-- src/sending.rs: Send Ports, Send Port Groups and Send Locations as this node sends through them.
use xmip_core_runtime.Base.{
  ℕ, Bool, true, false, not, ◌&&◌, List, [], ◌∷◌, ◌++◌, Option, none, some, Text, text_eq, ◌==◌,
  map, keep, any, all, find, contains, if◌then◌else◌, saturating_add32,
}
use xmip_core_runtime.Sequence.Point.{Point, PointKind}

-- `route::Subscriber`.
pub data Subscriber : Type 0 where
  send_port send_group work_process : Text → Subscriber

-- `configure`'s design of a Send Port and of a Send Port Group.
pub record Retry : Type 0 where
  pub attempts : ℕ
  pub backoff : Text

pub data Failover : Type 0 where
  next other : Failover

pub record DesignedSendPort : Type 0 where
  pub name : Text
  pub send_locations : List Text
  pub retry : Option Retry
  pub failover : Option Failover

pub record SendPortGroup : Type 0 where
  pub name : Text
  pub send_ports : List Text

pub record Sending : Type 0 where
  pub name : Text
  pub target : Text

pub record Port : Type 0 where
  pub name : Text
  pub locations : List Sending
  pub policy : Option DesignedSendPort
  pub points : List Point

abbrev pub bind_option {ℓ κ} : {A : Type ℓ} {B : Type κ} → Option A → (A → Option B) → Option B
bind_option none f = none
bind_option (some a) f = f a

unfoldable pub tries : Port → ℕ
tries p = elim (bind_option p.policy (λ d. d.retry)) [
  | none ↦ 1
  | some r ↦ saturating_add32 r.attempts 1
]

-- The backoff is read by `xcore::settings::duration`.
unfoldable pub backoff : (Text → Option ℕ) → Port → ℕ
backoff duration p =
    elim (bind_option (bind_option p.policy (λ d. d.retry)) (λ r. duration r.backoff)) [
      | none ↦ 0
      | some d ↦ d
    ]

unfoldable pub fails_over : Port → Bool
fails_over p = elim (bind_option p.policy (λ d. d.failover)) [
  | some next ↦ true
  | some other ↦ false
  | none ↦ false
]

pub data Destination : Type 0 where
  ports : List Port → Destination
  process : Destination
  nowhere : Destination

pub record Sends : Type 0 where
  pub locations : List Sending
  pub groups : List SendPortGroup
  pub ports : List DesignedSendPort
  pub points : List Point

unfoldable pub location : Sends → Text → Option Sending
location s name = find (λ l. l.name == name) s.locations

abbrev pub filter_map {ℓ κ} : {A : Type ℓ} {B : Type κ} → (A → Option B) → List A → List B
filter_map f [] = []
filter_map f (x ∷ xs) = let rest = filter_map f xs in elim (f x) [ none ↦ rest | some y ↦ y ∷ rest ]

-- The Send Locations a Port's design names, or the one named as the Port.
unfoldable pub named_by : Text → Option DesignedSendPort → List Text
named_by name none = name ∷ []
named_by name (some d) = elim d.send_locations [ [] ↦ name ∷ [] | l ∷ ls ↦ l ∷ ls ]

unfoldable pub passes : Text → List Text → Point → Bool
passes name named p = elim p.kind [
  | PointKind.send_port ↦ p.name == name
  | PointKind.send_location ↦ contains named p.name
  | _ ↦ false
]

unfoldable pub port : Sends → Text → Port
unfolding named_by passes location
port s name =
    let policy = find (λ (d : DesignedSendPort). d.name == name) s.ports in
    let named = named_by name policy in
    record {
      name = name;
      locations = filter_map (location s) named;
      policy = policy;
      points = keep (passes name named) s.points;
    }

-- `Sends::to`.
unfoldable pub to : Sends → Subscriber → Destination
to s (send_port name) = ports (port s name ∷ [])
to s (send_group name) = elim (find (λ (g : SendPortGroup). g.name == name) s.groups) [
  | none ↦ nowhere
  | some g ↦ ports (map (port s) g.send_ports)
]
to s (work_process name) = process

abbrev pub is_empty {ℓ} : {A : Type ℓ} → List A → Bool
is_empty [] = true
is_empty (x ∷ xs) = false

unfoldable pub served_ports : Destination → Bool
served_ports (ports ps) = not (is_empty ps) && all (λ (p : Port). not (is_empty p.locations)) ps
served_ports process = false
served_ports nowhere = false

unfoldable pub serves : Sends → Subscriber → Bool
unfolding served_ports
serves s sub = served_ports (to s sub)

-- The names `served` starts from: each design's, then each Location's that no design names or has.
unfoldable pub location_names : List DesignedSendPort → List Text → List Sending → List Text
location_names designs names [] = names
location_names designs names (l ∷ ls) =
    let known = contains names l.name in
    let named = any (λ (d : DesignedSendPort). contains d.send_locations l.name) designs in
    location_names designs (if not known && not named then names ++ l.name ∷ [] else names) ls

unfoldable pub served : Sends → List Subscriber
unfolding location_names
served s = keep (serves s) (
    map send_port
      (location_names s.ports (map (λ (d : DesignedSendPort). d.name) s.ports) s.locations))

-- `sequential` of src/send_step.rs.
unfoldable pub sequential_ports : Destination → Bool
sequential_ports (ports ps) = any (λ (p : Port). not (is_empty p.points)) ps
sequential_ports process = false
sequential_ports nowhere = false

unfoldable pub sequential : Sends → Subscriber → Bool
unfolding sequential_ports
sequential s sub = sequential_ports (to s sub)
