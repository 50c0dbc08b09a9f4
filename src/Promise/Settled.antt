-- ===== src/Promise/Settled.antt =====
-- What each function does to the licences and to the promises that are settled.
use echo_js.Base.{ℕ, ◌≡◌, ◌⊎◌, refl, ap, List, [], ◌∷◌, ◌++◌, false, some, get_elem?, arith}
use echo_js.Promise.{
  uninitialized, fulfilled, rejected, PromiseReaction, Resolver, Task, reaction_task, thenable_task,
  Realm, store, enqueue_reactions, reject_promise, fulfill_promise, create_resolving_functions,
  promise_new, mark_resolved,
}
use echo_js.Promise.Licences.{
  open_resolvers, waiting, thenables, licences, allowance, Licensed, Holding, thenables-append,
  thenables-enqueue_reactions, waiting-append, open_resolvers-append, open_resolvers-set,
}

-- No promise that is fulfilled or rejected has changed its state or its result.
abbrev pub Stable : Realm → Realm → Type 0
Stable r r' =
    (q : ℕ)
    → ((r.promises q).state ≡ fulfilled) ⊎ ((r.promises q).state ≡ rejected)
    → ((r'.promises q).state ≡ (r.promises q).state)
      × ((r'.promises q).result ≡ (r.promises q).result)

-- What a function that is given a licence does.
abbrev pub Sound : Realm → Realm → Type 0
Sound r r' = Licensed r' × Stable r r'

pub fulfill_promise-Sound :
    (r : Realm) (p value : ℕ) → Holding r p → Sound r (fulfill_promise r p value)
unfolding fulfill_promise store licences allowance
fulfill_promise-Sound r p value h = (
  λ (q : ℕ). ground (
    arith,
    h q,
    thenables-append q r.tasks (enqueue_reactions (r.promises p).fulfill_reactions value),
    thenables-enqueue_reactions q (r.promises p).fulfill_reactions value,
  ),
  λ (q : ℕ) (settled : ((r.promises q).state ≡ fulfilled) ⊎ ((r.promises q).state ≡ rejected)).
      ground (arith, h q),
)

pub reject_promise-Sound :
    (r : Realm) (p reason : ℕ) → Holding r p → Sound r (reject_promise r p reason)
unfolding reject_promise store licences allowance
reject_promise-Sound r p reason h = (
  λ (q : ℕ). ground (
    arith,
    h q,
    thenables-append q r.tasks (enqueue_reactions (r.promises p).reject_reactions reason),
    thenables-enqueue_reactions q (r.promises p).reject_reactions reason,
  ),
  λ (q : ℕ) (settled : ((r.promises q).state ≡ fulfilled) ⊎ ((r.promises q).state ≡ rejected)).
      ground (arith, h q),
)

-- A licence in hand becomes a new pair of resolving functions,
pub create_resolving_functions-Sound :
    (r : Realm) (p : ℕ) → Holding r p → Sound r (create_resolving_functions r p)
unfolding create_resolving_functions licences open_resolvers
create_resolving_functions-Sound r p h = (
  λ (q : ℕ). ground (
    arith,
    h q,
    open_resolvers-append q r.resolvers (record { promise = p; already_resolved = false } ∷ []),
  ),
  λ q settled. (refl, refl),
)

-- or waits for Get,
pub waits-Sound :
    (r : Realm) (p resolution : ℕ)
    → Holding r p
    → Sound r (record r { resolving = (p, resolution) ∷ r.resolving })
unfolding licences waiting
waits-Sound r p resolution h = (λ (q : ℕ). ground (arith, h q), λ q settled. (refl, refl))

-- or goes with a task.
pub enqueues-Sound :
    (r : Realm) (p resolution action : ℕ)
    → Holding r p
    → Sound r (record r { tasks = r.tasks ++ thenable_task p resolution action ∷ [] })
unfolding licences thenables
enqueues-Sound r p resolution action h = (
  λ (q : ℕ).
      ground (arith, h q, thenables-append q r.tasks (thenable_task p resolution action ∷ [])),
  λ q settled. (refl, refl),
)

-- The licence of the first call of a resolving function.
pub mark_resolved-Holding :
    (r : Realm) (e : ℕ) (k : Resolver)
    → Licensed r
    → get_elem? r.resolvers e ≡ some k
    → k.already_resolved ≡ false
    → Holding (mark_resolved r e k) k.promise
unfolding mark_resolved licences
mark_resolved-Holding r e k h found first =
    λ (q : ℕ). ground (arith, h q, open_resolvers-set q r.resolvers e k found first)

-- The licence of a resolve function for which Get has returned.
pub waiting-Holding :
    (r : Realm) (ws us : List (ℕ × ℕ)) (p resolution : ℕ)
    → Licensed r
    → r.resolving ≡ ws ++ (p, resolution) ∷ us
    → Holding (record r { resolving = ws ++ us }) p
unfolding licences waiting
waiting-Holding r ws us p resolution h e = λ (q : ℕ). ground (
  arith,
  h q,
  ap (waiting q) e,
  waiting-append q ws ((p, resolution) ∷ us),
  waiting-append q ws us,
)

-- The licence of a task that runs.
pub thenable-Holding :
    (r : Realm) (ts us : List Task) (p resolution action : ℕ)
    → Licensed r
    → r.tasks ≡ ts ++ thenable_task p resolution action ∷ us
    → Holding (record r { tasks = ts ++ us }) p
unfolding licences thenables
thenable-Holding r ts us p resolution action h e = λ (q : ℕ). ground (
  arith,
  h q,
  ap (thenables q) e,
  thenables-append q ts (thenable_task p resolution action ∷ us),
  thenables-append q ts us,
)

-- A reaction has no licence.
pub reaction-Sound :
    (r : Realm) (ts us : List Task) (reaction : PromiseReaction) (value : ℕ)
    → Licensed r
    → r.tasks ≡ ts ++ reaction_task reaction value ∷ us
    → Sound r (record r { tasks = ts ++ us })
unfolding licences thenables
reaction-Sound r ts us reaction value h e = (
  λ (q : ℕ). ground (
    arith,
    h q,
    ap (thenables q) e,
    thenables-append q ts (reaction_task reaction value ∷ us),
    thenables-append q ts us,
  ),
  λ q settled. (refl, refl),
)

-- A promise that nobody has seen has no licence, and gets its first.
pub promise_new-Sound :
    (r : Realm) (p : ℕ)
    → Licensed r
    → (r.promises p).state ≡ uninitialized
    → Sound r (promise_new r p)
unfolding promise_new create_resolving_functions store licences allowance open_resolvers
promise_new-Sound r p h e = (
  λ (q : ℕ). ground (
    arith,
    h q,
    open_resolvers-append q r.resolvers (record { promise = p; already_resolved = false } ∷ []),
  ),
  λ (q : ℕ) (settled : ((r.promises q).state ≡ fulfilled) ⊎ ((r.promises q).state ≡ rejected)).
      ground (arith, e),
)
