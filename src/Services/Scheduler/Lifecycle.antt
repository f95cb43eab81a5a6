-- ===== src/Services/Scheduler/Lifecycle.antt =====
-- internal/services/feed_scheduler.go: Start and Stop, and the loops that they start and end.
use goread.Base.{
  ℕ, zero, suc, ◌+◌, ◌≡◌, refl, Bool, true, false, not, Option, none, some, List, [], ◌∷◌,
  if◌then◌else◌, arith, inl, inr, Option-cases,
}

-- `is_closed` says that `stopChan` was closed. `loops` counts the goroutines of `wg`.
pub record Lifecycle : Type 0 where
  pub is_running : Bool
  pub is_closed : Bool
  pub loops : ℕ

abbrev pub new_lifecycle : Lifecycle
new_lifecycle = record { is_running = false; is_closed = false; loops = 0 }

-- `none` is the error that the scheduler runs already.
unfoldable pub start : Lifecycle → Option Lifecycle
start s = if s.is_running then none else some (record s { is_running = true; loops = s.loops + 2 })

-- `none` is the panic of `close` on a closed channel. `wg.Wait` returns once each loop has seen the closed
-- channel.
unfoldable pub stop : Lifecycle → Option Lifecycle
stop s =
    if not s.is_running
    then some s
    else if s.is_closed
    then none
    else some (record { is_running = false; is_closed = true; loops = 0 })

-- A loop may return as soon as the channel is closed.
unfoldable pub loop_returns : Lifecycle → Option Lifecycle
loop_returns s = elim s.loops [
  | zero ↦ none
  | suc n ↦ if s.is_closed then some (record s { loops = n }) else none
]

pub data Event : Type 0 where
  start_event stop_event return_event : Event

-- One event; an event that the state does not allow, or that panics, has no next state.
unfoldable pub react : Lifecycle → Event → Option Lifecycle
react s start_event = start s
react s stop_event = stop s
react s return_event = loop_returns s

unfoldable pub react_all : Lifecycle → List Event → Option Lifecycle
react_all s [] = some s
react_all s (event ∷ events) = elim (react s event) [ none ↦ none | some s' ↦ react_all s' events ]

closed_stays :
    (s s' : Lifecycle) (event : Event)
    → s.is_closed ≡ true
    → react s event ≡ some s'
    → s'.is_closed ≡ true
unfolding react start stop loop_returns
closed_stays s s' start_event closed h = ground arith
closed_stays s s' stop_event closed h = ground arith
closed_stays s s' return_event closed h = ground arith

closed_forever :
    (s s' : Lifecycle) (events : List Event)
    → s.is_closed ≡ true
    → react_all s events ≡ some s'
    → s'.is_closed ≡ true
unfolding react_all
closed_forever s s' [] closed h = ground arith
closed_forever s s' (event ∷ events) closed h = elim (Option-cases (react s event)) [
  | inl fails ↦ ground (arith, fails)
  | inr (next, goes) ↦
      closed_forever next s' events (closed_stays s next event closed goes) (rest next goes h)
]
  where
    rest :
        (next : Lifecycle)
        → react s event ≡ some next
        → react_all s (event ∷ events) ≡ some s'
        → react_all next events ≡ some s'
    rest next goes h = ground (arith, goes)

stop-closes :
    (s s' : Lifecycle)
    → s.is_running ≡ true
    → stop s ≡ some s'
    → s' ≡ record { is_running = false; is_closed = true; loops = 0 }
unfolding stop
stop-closes s s' running h = ground arith

panics : (again : Lifecycle) → again.is_running ≡ true → again.is_closed ≡ true → stop again ≡ none
unfolding stop
panics again runs closed = ground arith

-- A scheduler that was stopped and is started again reports that it runs while both of its loops may
-- return at once, and whenever it runs again, after any events, `Stop` panics.
pub stop-restart :
    (s stopped again : Lifecycle) (events : List Event)
    → s.is_running ≡ true
    → stop s ≡ some stopped
    → react_all stopped events ≡ some again
    → again.is_running ≡ true
    → (react_all stopped (start_event ∷ return_event ∷ return_event ∷ [])
        ≡ some (record { is_running = true; is_closed = true; loops = 0 }))
      × (stop again ≡ none)
unfolding react_all react start loop_returns
stop-restart s stopped again events running done h runs =
    let closed = stop-closes s stopped running done in
    (rw closed refl, panics again runs (closed_forever stopped again events (rw closed refl) h))
