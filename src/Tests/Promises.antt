-- ===== src/Tests/Promises.antt =====
-- runtime/ejs-promise.c at a concrete realm.
use echo_js.Base.{ℕ, ◌≡◌, refl, [], ◌∷◌, Bool, true, inr, none, Outcome, ok, type_error, aborted}
use echo_js.Equality.{Memory}
use echo_js.Promise.{
  uninitialized, pending, rejected, Realm, reaction_task, store, enqueue_reactions, reject_promise,
  fulfill_promise, create_resolving_functions, promise_new, mark_resolved, reject, then_reactions,
}
use echo_js.Promise.Run.{Step, Steps}
use echo_js.Promise.Once.{settles_once}
use echo_js.Promise.Reactions.{tasks_after, then_reactions-settle}

-- every function that these runs call
unfoldable promising : Unit {0}
unfolding store enqueue_reactions reject_promise fulfill_promise create_resolving_functions
    promise_new mark_resolved reject then_reactions tasks_after
promising = tt

abbrev mem : Memory
mem p = none

abbrev callable : ℕ → Bool
callable f = true

abbrev start : Realm
start = record {
  promises = λ i. record {
    state = uninitialized;
    result = 0;
    fulfill_reactions = [];
    reject_reactions = [];
  };
  resolvers = [];
  resolving = [];
  tasks = [];
}

abbrev after : Outcome Realm → Realm
after (ok r) = r
after type_error = start
after aborted = start

-- The promise 5, listened to twice, with its first listener before it is rejected.
abbrev made : Realm
made = promise_new start 5

abbrev heard : Realm
heard = after (then_reactions made 5 1 2 3)

abbrev refused : Realm
refused = after (reject heard 0 77)

abbrev heard_again : Realm
heard_again = after (then_reactions refused 5 4 2 3)

before : Steps mem 99 callable start refused
unfolding promising
before =
    Steps.then_steps heard refused
      (Steps.then_steps made heard
        (Steps.then_steps start made Steps.stays (Step.constructs 5 refl refl))
        (Step.reacts 5 1 2 3 refl))
      (Step.rejects 0 77 refl)

later : Steps mem 99 callable refused heard_again
unfolding promising
later = Steps.then_steps refused heard_again Steps.stays (Step.reacts 5 4 2 3 refl)

refused_state : (refused.promises 5).state ≡ rejected
unfolding promising
refused_state = refl

settles_once_example :
    ((heard_again.promises 5).state ≡ (refused.promises 5).state)
    × ((heard_again.promises 5).result ≡ (refused.promises 5).result)
settles_once_example =
    settles_once mem 99 callable start refused heard_again refl refl refl before later 5
      (inr refused_state)

made_pending : (made.promises 5).state ≡ pending
unfolding promising
made_pending = refl

then_reactions-settle_example :
    (tasks_after (then_reactions made 5 1 2 3) (λ r. fulfill_promise r 5 7)
      ≡ tasks_after (then_reactions (fulfill_promise made 5 7) 5 1 2 3) (λ r. r))
    × (tasks_after (then_reactions made 5 1 2 3) (λ r. reject_promise r 5 7)
        ≡ tasks_after (then_reactions (reject_promise made 5 7) 5 1 2 3) (λ r. r))
then_reactions-settle_example = then_reactions-settle 5 1 2 3 7 made made_pending

-- The two reactions of the rejected promise, in the order of their registration.
tasks_test :
    heard_again.tasks
    ≡ reaction_task (record { capabilities = 1; handler = 3 }) 77
      ∷ reaction_task (record { capabilities = 4; handler = 3 }) 77
      ∷ []
unfolding promising
tasks_test = refl
