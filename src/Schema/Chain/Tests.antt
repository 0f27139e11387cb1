-- ===== src/Schema/Chain/Tests.antt =====
-- A path that one actor creates, another reads and writes again, listed out of order.
use minireplayer.Prelude.{
  ◌≡◌, refl, inl, inr, none, some, List, [], ◌∷◌, ok, raise, validation_error, length, lookup,
  lookup_or, insert, string_eq,
}
use minireplayer.Schema.Chain.{
  Event, create, write, read, in_order, place, key_leb, walk, validate_artifact_graph,
}
use minireplayer.Schema.Chain.Versions.{versions_of, count_from, validate_artifact_graph-versions}
use minireplayer.Schema.Chain.Producers.{Supplied, validate_artifact_graph-Supplied}

abbrev created : Event
created = record {
  event_id = "event-1";
  operation = create;
  logical_path = "/shared/plan";
  version = 1;
  bytes_sha256 = "sha-a";
  read_from = none;
  completed_at_ns = 10;
}

abbrev was_read : Event
was_read = record created {
  event_id = "event-2";
  operation = read;
  read_from = some "event-1";
  completed_at_ns = 20;
}

abbrev written : Event
written = record created {
  event_id = "event-3";
  operation = write;
  version = 2;
  bytes_sha256 = "sha-b";
  completed_at_ns = 30;
}

abbrev events : List Event
events = written ∷ was_read ∷ created ∷ []

accepted : validate_artifact_graph events ≡ ok tt
unfolding validate_artifact_graph in_order place key_leb walk lookup lookup_or insert
accepted = refl

read_first :
    validate_artifact_graph (record was_read { completed_at_ns = 5 } ∷ events)
    ≡ raise validation_error
unfolding validate_artifact_graph in_order place key_leb walk lookup lookup_or insert
read_first = refl

validate_artifact_graph-versions_example :
    versions_of "/shared/plan" (in_order events)
    ≡ count_from 1 (length (versions_of "/shared/plan" (in_order events)))
validate_artifact_graph-versions_example =
    validate_artifact_graph-versions events "/shared/plan" accepted

validate_artifact_graph-Supplied_example : Supplied events was_read
validate_artifact_graph-Supplied_example =
    validate_artifact_graph-Supplied events was_read accepted (inr (inl refl)) refl
