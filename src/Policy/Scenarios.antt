-- ===== src/Policy/Scenarios.antt =====
-- A store that publishes three times, and the theorems at it.
use hyeboard.Prelude.{
  ℕ, ◌≤◌, ◌≡◌, refl, false, ◌==◌, none, some, List, [], ◌∷◌, ◌++◌, arith, length, Outcome, ok,
  throw, str_eq, inl, inr, if◌then◌else◌,
}
use hyeboard.Policy.Content.{Fault, unparsable, empty_policy}
use hyeboard.Policy.Store.{
  AdminActor, github, FeaturePolicyAuditEntry, PublishFeaturePolicyInput, MemoryFeaturePolicyStore,
  new_store, HistoryPage, parse_history_input, eligible, page_of, history, revision, publish,
  publish_all,
}
use hyeboard.Policy.History.{IsContiguous, new_store-IsContiguous, publish_all-IsContiguous}
use hyeboard.Policy.Pages.{after_page, history_page_rest}
use hyeboard.Policy.Runtime.{
  Event, notified, read, new_runtime, invalidate, remember, read_current, handle, handle_all,
  current, current_fallback_fresh,
}
use hyeboard.Policy.Audit.{publish_all-revision}
use hyeboard.Policy.Events.{
  new_events, notify, notify_all, publish_revision, open_stream, EventsCall, publishes, opens,
  call_events, run_events,
}
use hyeboard.Policy.Told.{AreTold, run_events_told}

-- A publication needs a reason.
abbrev parse : PublishFeaturePolicyInput → Outcome Fault PublishFeaturePolicyInput
parse i = if str_eq i.reason "" then throw unparsable else ok i

abbrev admin : AdminActor
admin = record { method = github; subject = "admin"; label = none }

abbrev input_on : ℕ → PublishFeaturePolicyInput
input_on base = record {
  base_revision = base;
  policy = empty_policy;
  reason = "term opens";
  actor = admin;
}

abbrev inputs : List (PublishFeaturePolicyInput × ℕ)
inputs = (input_on 0, 10) ∷ (input_on 0, 20) ∷ (input_on 1, 30) ∷ (input_on 2, 40) ∷ []

published : MemoryFeaturePolicyStore
unfolding new_store publish publish_all
published = publish_all parse new_store inputs

-- The second input was in conflict with the first.
three_published : published.snapshot.revision ≡ 3
unfolding published
three_published = refl

published-IsContiguous : IsContiguous published
unfolding published
published-IsContiguous = publish_all-IsContiguous parse new_store inputs new_store-IsContiguous

publish_all-IsContiguous_example : IsContiguous (publish_all parse new_store inputs)
publish_all-IsContiguous_example =
    publish_all-IsContiguous parse new_store inputs new_store-IsContiguous

abbrev no_page : HistoryPage
no_page = record { items = []; next_before_revision = none }

abbrev page_or_none : Outcome Fault HistoryPage → HistoryPage
page_or_none (ok p) = p
page_or_none (throw e) = no_page

first_page : HistoryPage
unfolding published history parse_history_input eligible page_of
first_page = page_or_none (history published none 2)

first_page_next : first_page.next_before_revision ≡ some 2
unfolding first_page
first_page_next = refl

history_page_rest_example :
    (length first_page.items ≤ 2)
    × (length first_page.items ≤ 100)
    × (first_page.items ++ after_page first_page.next_before_revision published.entries
        ≡ eligible none published.entries)
unfolding first_page
history_page_rest_example =
    history_page_rest published none 2 first_page published-IsContiguous refl

abbrev second_entry : FeaturePolicyAuditEntry
second_entry = record {
  revision = 2;
  base_revision = 1;
  actor = admin;
  reason = "term opens";
  published_at = 30;
  snapshot = record { content = empty_policy; revision = 2 };
}

publish_all-revision_example :
    revision (publish_all parse published ((input_on 3, 50) ∷ [])) 2 ≡ some second_entry
unfolding published revision
publish_all-revision_example =
    publish_all-revision parse published ((input_on 3, 50) ∷ []) 2 second_entry
      published-IsContiguous refl

abbrev events : List Event
events = notified 2 ∷ read (ok published.snapshot) ∷ notified 3 ∷ []

current_fallback_fresh_example : 3 ≤ published.snapshot.revision
unfolding published new_runtime invalidate remember read_current handle handle_all current
current_fallback_fresh_example =
    current_fallback_fresh events 3 unparsable published.snapshot tt (inr (inl refl)) (omega arith)
      refl

-- The first reader is gone when the revision 8 comes.
abbrev readers : List EventsCall
readers =
    opens 1 none 5 false
    ∷ opens 2 (some 6) 5 false
    ∷ publishes (λ id. false) 7
    ∷ publishes (λ id. id == 1) 8
    ∷ []

second_told :
    (run_events new_events readers).streams
    ≡ record { stream_id = 2; seen_next = 9; sent = 8 ∷ 7 ∷ [] } ∷ []
unfolding notify notify_all publish_revision open_stream call_events run_events
second_told = refl

run_events_told_example : AreTold (run_events new_events readers)
run_events_told_example = run_events_told readers (refl, (refl, (refl, (refl, tt))))
