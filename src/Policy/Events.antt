-- ===== src/Policy/Events.antt =====
-- apps/worker/src/policy/feature-policy-store.ts: `InProcessFeaturePolicyEvents`. A revision's successor
-- stands for it in `seen` and `highestRevision`, so that 0 is -1. A stream has an identifier;
-- whether its controller takes an event is an argument, and one that does not closes.
use hyeboard.Prelude.{
  ℕ, suc, ◌-◌, max, ltb, leb, ◌==◌, Bool, not, ◌&&◌, Option, none, some, List, [], ◌∷◌, length,
  if◌then◌else◌,
}
use hyeboard.Policy.Runtime.{is_revision}

abbrev pub max_subscribers : ℕ
max_subscribers = 256

pub record RevisionStream : Type 0 where
  pub stream_id : ℕ
  pub seen_next : ℕ
  pub sent : List ℕ

pub record PolicyEvents : Type 0 where
  pub streams : List RevisionStream
  pub highest_next : ℕ
  pub active_streams : ℕ

abbrev pub new_events : PolicyEvents
new_events = record { streams = []; highest_next = 0; active_streams = 0 }

-- A stream is sent a revision that it has not seen; `sent` has the newest first.
unfoldable pub notify : ℕ → RevisionStream → RevisionStream
notify r s = if ltb r s.seen_next then s else record s { seen_next = suc r; sent = r ∷ s.sent }

abbrev pub refuses : (ℕ → Bool) → ℕ → RevisionStream → Bool
refuses broken r s = leb s.seen_next r && broken s.stream_id

-- The listeners of the streams, one after the other: `cleanup` of one that refuses the revision
-- takes it from the set and from the count.
unfoldable pub notify_all : (ℕ → Bool) → ℕ → List RevisionStream → ℕ → List RevisionStream × ℕ
notify_all broken r [] active = ([], active)
notify_all broken r (s ∷ ss) active =
    let (rest, left) = notify_all broken r ss (if refuses broken r s then active - 1 else active) in
    (if refuses broken r s then rest else notify r s ∷ rest, left)

-- `publish`
unfoldable pub publish_revision : (ℕ → Bool) → ℕ → PolicyEvents → PolicyEvents
publish_revision broken r e =
    if not (is_revision r)
    then e
    else let (streams, active) = notify_all broken r e.streams e.active_streams in
      record {
        streams = streams;
        highest_next = max e.highest_next (suc r);
        active_streams = active;
      }

abbrev pub seen_of : Option ℕ → ℕ
seen_of none = 0
seen_of (some r) = if is_revision r then suc r else 0

-- The stream as `start` leaves it; `current` is the successor of the revision, or 0 for none.
abbrev pub started : ℕ → Option ℕ → ℕ → RevisionStream
started id last current =
    if ltb (seen_of last) current && is_revision (current - 1)
    then record { stream_id = id; seen_next = current; sent = (current - 1) ∷ [] }
    else record { stream_id = id; seen_next = seen_of last; sent = [] }

-- `stream`, `none` for the error of too many streams. A signal that is aborted closes it at once.
unfoldable pub open_stream : ℕ → Option ℕ → ℕ → Bool → PolicyEvents → Option PolicyEvents
open_stream id last current aborted e =
    if not (ltb e.active_streams max_subscribers)
    then none
    else if aborted
    then some e
    else some (record e {
      streams = started id last (max current e.highest_next) ∷ e.streams;
      active_streams = suc e.active_streams;
    })

-- `cleanup` of a stream, if it is open, by its signal or its reader.
unfoldable pub end_stream : ℕ → List RevisionStream → ℕ → List RevisionStream × ℕ
end_stream id [] active = ([], active)
end_stream id (s ∷ ss) active =
    let (rest, left) = end_stream id ss active in
    if s.stream_id == id then (ss, active - 1) else (s ∷ rest, left)

pub data EventsCall : Type 0 where
  publishes : (ℕ → Bool) → ℕ → EventsCall
  opens : ℕ → Option ℕ → ℕ → Bool → EventsCall
  leaves : ℕ → EventsCall
  closes : EventsCall

abbrev pub opened_or : PolicyEvents → Option PolicyEvents → PolicyEvents
opened_or e none = e
opened_or e (some e') = e'

unfoldable pub call_events : PolicyEvents → EventsCall → PolicyEvents
call_events e (publishes broken r) = publish_revision broken r e
call_events e (opens id last current aborted) = opened_or e (open_stream id last current aborted e)
call_events e (leaves id) =
    let (streams, active) = end_stream id e.streams e.active_streams in
    record e { streams = streams; active_streams = active }
call_events e closes = record e {
  streams = [];
  active_streams = e.active_streams - length e.streams;
}

unfoldable pub run_events : PolicyEvents → List EventsCall → PolicyEvents
run_events e [] = e
run_events e (c ∷ cs) = run_events (call_events e c) cs
