-- ===== src/Sequence/Point.antt =====
-- src/sequence.rs: the points a Correlation governs, and the place a member takes in its key's
-- sequence. `named`, the name-based identifier of the crate `persist`, is a parameter.
use xmip_core_runtime.Base.{ℕ, Bool, true, false, [], ◌∷◌, ◌++◌, Option, none, some, Text, codes}
use xmip_core_runtime.Journey.{Journey}
use xmip_core_runtime.Sequence.Key.{ResolvedSet, KeyWord, map_option, text}

pub data PointKind : Type 0 where
  receive_location receive_port work_process send_port_group send_port send_location : PointKind

unfoldable pub word : PointKind → Text
word receive_location = codes "receive-location"
word receive_port = codes "receive-port"
word work_process = codes "work-process"
word send_port_group = codes "send-port-group"
word send_port = codes "send-port"
word send_location = codes "send-location"

unfoldable pub end_to_end : PointKind → Bool
end_to_end receive_location = true
end_to_end receive_port = true
end_to_end _ = false

pub data OnFailure : Type 0 where
  block skip : OnFailure

pub record Point : Type 0 where
  pub kind : PointKind
  pub name : Text
  pub set : ResolvedSet
  pub on_failure : OnFailure

-- `Point::receive_location`: a Receive Location's own sequence, keyed by its name.
unfoldable pub own_sequence : Text → Point
own_sequence name = record {
  kind = receive_location;
  name = name;
  set = record { name = name; keys = KeyWord.receive_location ∷ [] };
  on_failure = block;
}

-- The text a sequence is kept by, `{cluster}/sequence/{kind}/{name}/{set}/{key}`.
unfoldable pub queue_text : Point → Text → Text → Text
queue_text p cluster key =
    cluster ++ codes "/sequence/" ++ word p.kind ++ b'/' ∷ p.name ++ b'/' ∷ p.set.name ++ b'/' ∷ key

unfoldable pub queue : (Text → ℕ) → Point → Text → Text → ℕ × Text
queue named p cluster key = let t = queue_text p cluster key in (named t, t)

-- `persist::storage::Hold`.
pub record Hold : Type 0 where
  pub queue : ℕ
  pub journey : ℕ
  pub body : Text

unfoldable pub at_point : Point → Journey → Text
at_point p j = elim p.kind [ work_process ↦ p.name | _ ↦ or_empty j.current_work_process ]
  where
    or_empty : Option Text → Text
    or_empty none = []
    or_empty (some t) = t

-- `Point::place`: `none` where the Message lacks a key part.
unfoldable pub place : (Text → ℕ) → Point → Text → ℕ → Journey → (Text → Option Text) → Option Hold
unfolding queue at_point
place named p cluster member j promoted =
    map_option
      (λ key.
        let q = queue named p cluster key in record { queue = q.0; journey = member; body = q.1 })
      (text j promoted (at_point p j) p.set.keys)
