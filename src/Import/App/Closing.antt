-- ===== src/Import/App/Closing.antt =====
-- How the events of a part of a request end (gcimport/src/gcimport/app.py).
use mathlib.Core.List.{append_assoc}
use mathlib.Core.Path.{refl, ap}
use topografisk_gdb_api.Prelude.{
  String, Bool, true, false, ◌||◌, ◌≡◌, none, some, List, [], ◌∷◌, ◌++◌, ◌==◌, if◌then◌else◌,
  Result, ok, err, All, All-append, is_some,
}
use topografisk_gdb_api.Jobs.Event.{ImportEvent}
use topografisk_gdb_api.Import.App.Answer.{
  ImportError, unknown_profile, upload_refused, uncaught, Ran, after, and_then,
}

-- Whether the event ends a run.
abbrev pub is_completed : ImportEvent → Bool
is_completed e = elim e.event [
  | none ↦ false
  | some name ↦ name == "import.completed.succeeded" || name == "import.completed.failed"
]

-- An event that gcjobs can record, with the base event's import id.
abbrev pub IsNamed : ImportEvent → ImportEvent → Type 0
IsNamed base e = (is_some e.event ≡ true) × (e.import_id ≡ base.import_id)

abbrev pub IsProgress : ImportEvent → ImportEvent → Type 0
IsProgress base e = (is_completed e ≡ false) × IsNamed base e

-- How the events of an answer are to end: no answer like it may be given, no event ends them, or the
-- named event does.
pub data Closing : Type 0 where
  never silent : Closing
  by : String → Closing

-- The refusals before an import starts may not be answered once it has; an exception that is not
-- caught publishes no event.
abbrev pub closing_error : ImportError → Closing
closing_error unknown_profile = never
closing_error (upload_refused e) = never
closing_error uncaught = silent
closing_error _ = by "import.completed.failed"

abbrev pub closing : {A : Type 0} → Closing → Result ImportError A → Closing
closing success (ok a) = success
closing success (err e) = closing_error e

-- The events are those of the middle, and then the one event of the name, where there is one.
abbrev pub IsClosedBy : ImportEvent → Closing → List ImportEvent → List ImportEvent → Type 0
IsClosedBy base never middle events = ⊥
IsClosedBy base silent middle events = events ≡ middle
IsClosedBy base (by name) middle events =
    (last : ImportEvent) × (last.event ≡ some name)
    × (last.import_id ≡ base.import_id)
    × (events ≡ middle ++ last ∷ [])

-- No event before the last one ends a run.
abbrev pub IsClosed : {A : Type 0} → ImportEvent → Closing → Ran A → Type 0
IsClosed base success m =
    (middle : List ImportEvent) × (All (IsProgress base) middle
      × IsClosedBy base (closing success m.outcome) middle m.events)

pub IsClosedBy-append :
    (base : ImportEvent) (name : Closing) (before middle events : List ImportEvent)
    → IsClosedBy base name middle events
    → IsClosedBy base name (before ++ middle) (before ++ events)
IsClosedBy-append base never before middle events h = absurd h
IsClosedBy-append base silent before middle events h = ap (λ es. before ++ es) h
IsClosedBy-append base (by name) before middle events (last, named, same, h) =
    (last, named, same, rw (h, append_assoc before middle (last ∷ [])) refl)

pub if-IsClosed :
    {A : Type 0} (base : ImportEvent) (success : Closing) (c : Bool) (m n : Ran A)
    → IsClosed base success m
    → IsClosed base success n
    → IsClosed base success (if c then m else n)
if-IsClosed base success true m n h k = h
if-IsClosed base success false m n h k = k

module _ {A B : Type 0} where
  after-IsClosed :
      (base : ImportEvent) (success : Closing) (middle events : List ImportEvent)
      (o : Result ImportError A) (f : A → Ran B)
      → All (IsProgress base) middle
      → IsClosedBy base (closing silent o) middle events
      → ((a : A) → IsClosed base success (f a))
      → IsClosed base success (after events o f)
  after-IsClosed base success middle events (err e) f h closed_by k = (middle, (h, closed_by))
  after-IsClosed base success middle events (ok a) f h closed_by k =
      let (later, (progress, closed)) = k a in
      (
        middle ++ later,
        (
          All-append (IsProgress base) middle later h progress,
          rw closed_by (
              IsClosedBy-append base (closing success (f a).outcome) middle later (f a).events
                closed),
        ),
      )

  -- A step that ends no run unless it raises, and what follows it.
  pub and_then-IsClosed :
      (base : ImportEvent) (success : Closing) (m : Ran A) (f : A → Ran B)
      → IsClosed base silent m
      → ((a : A) → IsClosed base success (f a))
      → IsClosed base success (and_then m f)
  and_then-IsClosed base success m f (middle, (h, closed_by)) k =
      after-IsClosed base success middle m.events m.outcome f h closed_by k
