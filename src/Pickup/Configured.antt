-- ===== src/Pickup/Configured.antt =====
-- src/configured_subscription.rs: a Subscription as a node takes it up from its configuration, and the
-- Journeys a Publication opens of the Subscriptions that matched (src/ledger/publication.rs). The entry
-- as its file says it is `configure`'s to find.
use xmip_core_runtime.Base.{List, [], ◌∷◌, ◌++◌, Option, none, some, Text, text_eq, ◌==◌, map, find}
use xmip_core_runtime.Sending.Defs.{Subscriber, send_port, send_group, work_process, SendPortGroup}

-- `route::Subscription`, by the fields the node reads here.
pub record Subscription : Type 0 where
  pub id : Text
  pub destination : Subscriber

pub record ConfiguredSubscription : Type 0 where
  pub subscription : Subscription
  pub application : Text
  pub file : Text
  pub entry : Text
  pub ports : List Text

-- `configure::XmipApplication` and `crate::start::ApplicationFile`.
pub record XmipApplication : Type 0 where
  pub subscriptions : List Subscription
  pub send_port_groups : List SendPortGroup

pub record ApplicationFile : Type 0 where
  pub name : Text
  pub file : Text
  pub text : Text

unfoldable pub members : Option SendPortGroup → List Text
members none = []
members (some g) = g.send_ports

unfoldable pub reached : Subscriber → XmipApplication → List Text
unfolding members
reached (send_port port) a = port ∷ []
reached (send_group group) a =
    members (find (λ (g : SendPortGroup). g.name == group) a.send_port_groups)
reached (work_process p) a = []

unfoldable pub of_application :
    (entry_of : Text → Text → Text → Text)
    → XmipApplication
    → ApplicationFile
    → Subscription
    → ConfiguredSubscription
unfolding reached
of_application entry_of a f s = record {
  subscription = s;
  application = f.name;
  file = f.file;
  entry = entry_of f.text f.name s.id;
  ports = reached s.destination a;
}

-- `ConfiguredSubscription::of`; `zip` ends with the shorter list.
unfoldable pub of_all :
    (entry_of : Text → Text → Text → Text)
    → List XmipApplication
    → List ApplicationFile
    → List ConfiguredSubscription
unfolding of_application
of_all entry_of [] files = []
of_all entry_of (a ∷ applications) [] = []
of_all entry_of (a ∷ applications) (f ∷ files) =
    map (of_application entry_of a f) a.subscriptions ++ of_all entry_of applications files

unfoldable pub ports_to : Subscriber → List Text
ports_to (send_port port) = port ∷ []
ports_to (send_group g) = []
ports_to (work_process p) = []

unfoldable pub unfiled : Subscription → ConfiguredSubscription
unfolding ports_to
unfiled s = record {
  subscription = s;
  application = [];
  file = [];
  entry = [];
  ports = ports_to s.destination;
}

unfoldable pub name : ConfiguredSubscription → Text
name c = c.subscription.id
