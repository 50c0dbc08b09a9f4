-- ===== src/Promise.antt =====
-- runtime/ejs-promise.c: the promises, the resolving functions, the reactions and the tasks.
-- A promise is named by its word, a pair of resolving functions by the index of the environment
-- they share. The order in which the run loop takes the tasks is left open (Promise/Run).
pub mod Licences
pub mod Run
pub mod Settled
pub mod Once
pub mod Reactions
use echo_js.Base.{
  ℕ, ◌+◌, List, [], ◌∷◌, ◌++◌, map, Bool, true, false, not, Option, none, some, Outcome, ok,
  type_error, aborted, ◌>>=◌, ◌==◌, if◌then◌else◌, get_elem?, set, length,
}
use echo_js.Ejsval.{is_object}
use echo_js.Equality.{Memory, same_value}

-- PromiseState
pub data PromiseState : Type 0 where
  uninitialized pending fulfilled rejected : PromiseState

-- EJSPromiseReaction
pub record PromiseReaction : Type 0 where
  pub capabilities : ℕ
  pub handler : ℕ

-- EJSPromise; `constructor` is read by Promise.resolve only, which is not modelled
pub record Promise : Type 0 where
  pub state : PromiseState
  pub result : ℕ
  pub fulfill_reactions : List PromiseReaction
  pub reject_reactions : List PromiseReaction

-- the environment that a pair of resolving functions shares: slot 1 and slot 0
pub record Resolver : Type 0 where
  pub promise : ℕ
  pub already_resolved : Bool

-- ReactionTaskArg and ResolveThenableTaskArg
pub data Task : Type 0 where
  reaction_task : PromiseReaction → ℕ → Task
  thenable_task : ℕ → ℕ → ℕ → Task

-- What the functions of the file share. `resolving` lists the resolve functions that wait for
-- `Get (resolution, "then")`, which may run JavaScript: the promise and the resolution of each.
pub record Realm : Type 0 where
  pub promises : ℕ → Promise
  pub resolvers : List Resolver
  pub resolving : List (ℕ × ℕ)
  pub tasks : List Task

-- a write to the promise at a word
unfoldable pub store : (ℕ → Promise) → ℕ → Promise → ℕ → Promise
store promises p q i = if i == p then q else promises i

-- EnqueuePromiseReactionTask, for each reaction in insertion order
unfoldable pub enqueue_reactions : List PromiseReaction → ℕ → List Task
enqueue_reactions [] value = []
enqueue_reactions (reaction ∷ rest) value =
    reaction_task reaction value ∷ enqueue_reactions rest value

-- RejectPromise: `fulfillReactions` is cleared twice, and `rejectReactions` not at all
unfoldable pub reject_promise : Realm → ℕ → ℕ → Realm
unfolding store enqueue_reactions
reject_promise r p reason =
    let q = r.promises p in
    record r {
      promises =
          store r.promises p
            (record q { state = rejected; result = reason; fulfill_reactions = [] });
      tasks = r.tasks ++ enqueue_reactions q.reject_reactions reason;
    }

-- FulfillPromise
unfoldable pub fulfill_promise : Realm → ℕ → ℕ → Realm
unfolding store enqueue_reactions
fulfill_promise r p value =
    let q = r.promises p in
    record r {
      promises =
          store r.promises p
            (record q { state = fulfilled; result = value; fulfill_reactions = [] });
      tasks = r.tasks ++ enqueue_reactions q.fulfill_reactions value;
    }

-- CreateResolvingFunctions, which makes the environment of index `length r.resolvers`
unfoldable pub create_resolving_functions : Realm → ℕ → Realm
create_resolving_functions r p = record r {
  resolvers = r.resolvers ++ record { promise = p; already_resolved = false } ∷ [];
}

-- steps 5 to 8 of _ejs_Promise_impl, for a newly allocated promise
unfoldable pub promise_new : Realm → ℕ → Realm
unfolding store create_resolving_functions
promise_new r p =
    let q = r.promises p in
    create_resolving_functions
      (record r {
        promises =
            store r.promises p
              (record q { state = pending; fulfill_reactions = []; reject_reactions = [] });
      })
      p

-- `alreadyResolved` set in the environment `e`
unfoldable pub mark_resolved : Realm → ℕ → Resolver → Realm
mark_resolved r e k = record r {
  resolvers = set r.resolvers e (record k { already_resolved = true });
}

-- the reject function of the environment `e`
unfoldable pub reject : Realm → ℕ → ℕ → Outcome Realm
unfolding mark_resolved reject_promise
reject r e reason = elim (get_elem? r.resolvers e) [
  | none ↦ aborted
  | some k ↦
      if k.already_resolved
      then ok r
      else ok (reject_promise (mark_resolved r e k) k.promise reason)
]

-- steps 6 to 8 of the resolve function, behind the test of `alreadyResolved`; `error` is the
-- TypeError made for a promise that is resolved with itself
unfoldable pub resolve_with : Memory → ℕ → Realm → ℕ → ℕ → Outcome Realm
unfolding reject_promise fulfill_promise
resolve_with mem error r p resolution = same_value mem resolution p >>= λ self.
    if self
    then ok (reject_promise r p error)
    else if not (is_object resolution)
    then ok (fulfill_promise r p resolution)
    else ok (record r { resolving = (p, resolution) ∷ r.resolving })

-- the resolve function of the environment `e`, up to the call of Get
unfoldable pub resolve : Memory → ℕ → Realm → ℕ → ℕ → Outcome Realm
unfolding mark_resolved resolve_with
resolve mem error r e resolution = elim (get_elem? r.resolvers e) [
  | none ↦ aborted
  | some k ↦
      if k.already_resolved
      then ok r
      else resolve_with mem error (mark_resolved r e k) k.promise resolution
]

-- steps 11 to 13, for the `then` that Get has returned, here `action`
unfoldable pub resolve_then : (ℕ → Bool) → Realm → ℕ → ℕ → ℕ → Realm
unfolding fulfill_promise
resolve_then is_callable r p resolution action =
    if not (is_callable action)
    then fulfill_promise r p resolution
    else record r { tasks = r.tasks ++ thenable_task p resolution action ∷ [] }

-- Promise.prototype.then from step 12 on, for handlers that are callable
unfoldable pub then_reactions : Realm → ℕ → ℕ → ℕ → ℕ → Outcome Realm
unfolding store
then_reactions r p capability on_fulfilled on_rejected =
    let q = r.promises p in
    let fulfill : PromiseReaction = record { capabilities = capability; handler = on_fulfilled } in
    let reject : PromiseReaction = record { capabilities = capability; handler = on_rejected } in
    elim q.state [
      | pending ↦ ok (record r {
        promises = store r.promises p (record q {
          fulfill_reactions = q.fulfill_reactions ++ fulfill ∷ [];
          reject_reactions = q.reject_reactions ++ reject ∷ [];
        });
      })
      | fulfilled ↦ ok (record r { tasks = r.tasks ++ reaction_task fulfill q.result ∷ [] })
      | rejected ↦ ok (record r { tasks = r.tasks ++ reaction_task reject q.result ∷ [] })
      | uninitialized ↦ type_error
    ]
