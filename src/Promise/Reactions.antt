-- ===== src/Promise/Reactions.antt =====
-- The reactions of a promise: a handler that is registered before the promise is settled is called
-- like one that is registered behind.
use echo_js.Base.{
  ℕ, ◌≡◌, refl, sym, ap, ◌∙◌, List, [], ◌∷◌, ◌++◌, Bool, Outcome, ok, type_error, ◌>>=◌, ==_refl,
  if◌then◌else◌,
}
use echo_js.Promise.{
  PromiseState, uninitialized, pending, fulfilled, rejected, Promise, PromiseReaction, Task,
  reaction_task, Realm, store, enqueue_reactions, reject_promise, fulfill_promise, then_reactions,
}

store_self : (promises : ℕ → Promise) (p : ℕ) (q : Promise) → store promises p q p ≡ q
unfolding store
store_self promises p q = ap (λ (b : Bool). if b then q else promises p) (==_refl p)

enqueue_reactions-append :
    (ks : List PromiseReaction) (k : PromiseReaction) (v : ℕ) (ts : List Task)
    → ts ++ enqueue_reactions (ks ++ k ∷ []) v
      ≡ (ts ++ enqueue_reactions ks v) ++ reaction_task k v ∷ []
unfolding enqueue_reactions
enqueue_reactions-append [] k v [] = refl
enqueue_reactions-append (l ∷ ks) k v [] =
    ap (reaction_task l v ∷◌) (enqueue_reactions-append ks k v [])
enqueue_reactions-append ks k v (t ∷ ts) = ap (t ∷◌) (enqueue_reactions-append ks k v ts)

-- The tasks of the realm that a call returns.
unfoldable pub tasks_after : Outcome Realm → (Realm → Realm) → Outcome (List Task)
tasks_after o f = o >>= λ r. ok (f r).tasks

module _ (p capability on_fulfilled on_rejected value : ℕ) where
  fulfill_reaction : PromiseReaction
  fulfill_reaction = record { capabilities = capability; handler = on_fulfilled }

  reject_reaction : PromiseReaction
  reject_reaction = record { capabilities = capability; handler = on_rejected }

  appended : Realm → Promise → Promise
  appended r q = record q {
    fulfill_reactions = q.fulfill_reactions ++ fulfill_reaction ∷ [];
    reject_reactions = q.reject_reactions ++ reject_reaction ∷ [];
  }

  reacting : Realm → Promise → PromiseState → Outcome Realm
  reacting r q pending = ok (record r { promises = store r.promises p (appended r q) })
  reacting r q fulfilled =
      ok (record r { tasks = r.tasks ++ reaction_task fulfill_reaction q.result ∷ [] })
  reacting r q rejected =
      ok (record r { tasks = r.tasks ++ reaction_task reject_reaction q.result ∷ [] })
  reacting r q uninitialized = type_error

  reacting-then_reactions :
      (r : Realm)
      → then_reactions r p capability on_fulfilled on_rejected
        ≡ reacting r (r.promises p) (r.promises p).state
  unfolding then_reactions reacting appended fulfill_reaction reject_reaction
  reacting-then_reactions r = refl

  module _ (r : Realm) (waits : (r.promises p).state ≡ pending) where
    reacts_pending :
        then_reactions r p capability on_fulfilled on_rejected
        ≡ ok (record r { promises = store r.promises p (appended r (r.promises p)) })
    unfolding reacting
    reacts_pending = reacting-then_reactions r ∙ ap (λ s. reacting r (r.promises p) s) waits

    -- A handler that is registered while the promise is pending, and one that is registered after
    -- it has been settled, leave the same tasks in the same order, with the same value; so do a
    -- fulfilment and a rejection.
    pub then_reactions-settle :
        (tasks_after
            (then_reactions r p capability on_fulfilled on_rejected)
            (λ r'. fulfill_promise r' p value)
          ≡ tasks_after
              (then_reactions (fulfill_promise r p value) p capability on_fulfilled on_rejected)
              (λ r'. r'))
        × (tasks_after
              (then_reactions r p capability on_fulfilled on_rejected)
              (λ r'. reject_promise r' p value)
            ≡ tasks_after
                (then_reactions (reject_promise r p value) p capability on_fulfilled on_rejected)
                (λ r'. r'))
    unfolding tasks_after fulfill_promise reject_promise appended reacting
    then_reactions-settle =
        let q = r.promises p in
        let q' = appended r q in
        let f : Promise = record q { state = fulfilled; result = value; fulfill_reactions = [] } in
        let g : Promise = record q { state = rejected; result = value; fulfill_reactions = [] } in
        (
          ap (λ o. tasks_after o (λ r'. fulfill_promise r' p value)) reacts_pending
              ∙ ap (λ (a : Promise). ok (r.tasks ++ enqueue_reactions a.fulfill_reactions value))
                  (store_self r.promises p q')
              ∙ ap ok (enqueue_reactions-append q.fulfill_reactions fulfill_reaction value r.tasks)
              ∙ sym (
                  ap (λ o. tasks_after o (λ r'. r'))
                    (reacting-then_reactions (fulfill_promise r p value)
                      ∙ ap (λ (a : Promise). reacting (fulfill_promise r p value) a a.state)
                          (store_self r.promises p f))),
          ap (λ o. tasks_after o (λ r'. reject_promise r' p value)) reacts_pending
              ∙ ap (λ (a : Promise). ok (r.tasks ++ enqueue_reactions a.reject_reactions value))
                  (store_self r.promises p q')
              ∙ ap ok (enqueue_reactions-append q.reject_reactions reject_reaction value r.tasks)
              ∙ sym (
                  ap (λ o. tasks_after o (λ r'. r'))
                    (reacting-then_reactions (reject_promise r p value)
                      ∙ ap (λ (a : Promise). reacting (reject_promise r p value) a a.state)
                          (store_self r.promises p g))),
        )
