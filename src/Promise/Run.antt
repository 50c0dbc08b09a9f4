-- ===== src/Promise/Run.antt =====
-- The runs of the functions of runtime/ejs-promise.c: what JavaScript and the run loop may do
-- next, in any order.
use echo_js.Base.{ℕ, ◌≡◌, List, ◌∷◌, ◌++◌, Bool, ok}
use echo_js.Equality.{Memory}
use echo_js.Promise.{
  uninitialized, PromiseReaction, Realm, reaction_task, thenable_task, create_resolving_functions,
  promise_new, reject, resolve, resolve_then, then_reactions,
}

module _ (mem : Memory) (error : ℕ) (is_callable : ℕ → Bool) where
  -- One step. A task is taken from anywhere among the pending ones; what the JavaScript that it
  -- calls does are further steps. So is what a getter of `then` does while a resolve function
  -- waits for it; the getter returns, or it throws, and the resolve function is abandoned.
  pub data Step (r r' : Realm) : Type 0 where
    constructs : (p : ℕ) → (r.promises p).state ≡ uninitialized → r' ≡ promise_new r p → Step r r'
    rejects : (e reason : ℕ) → reject r e reason ≡ ok r' → Step r r'
    resolves : (e resolution : ℕ) → resolve mem error r e resolution ≡ ok r' → Step r r'
    get_returns :
        (ws us : List (ℕ × ℕ)) (p resolution action : ℕ)
        → r.resolving ≡ ws ++ (p, resolution) ∷ us
        → r' ≡ resolve_then is_callable (record r { resolving = ws ++ us }) p resolution action
        → Step r r'
    get_throws :
        (ws us : List (ℕ × ℕ)) (p resolution : ℕ)
        → r.resolving ≡ ws ++ (p, resolution) ∷ us
        → r' ≡ record r { resolving = ws ++ us }
        → Step r r'
    reacts :
        (p capability on_fulfilled on_rejected : ℕ)
        → then_reactions r p capability on_fulfilled on_rejected ≡ ok r'
        → Step r r'
    runs_reaction :
        (ts us : List _) (reaction : PromiseReaction) (value : ℕ)
        → r.tasks ≡ ts ++ reaction_task reaction value ∷ us
        → r' ≡ record r { tasks = ts ++ us }
        → Step r r'
    runs_thenable :
        (ts us : List _) (p resolution action : ℕ)
        → r.tasks ≡ ts ++ thenable_task p resolution action ∷ us
        → r' ≡ create_resolving_functions (record r { tasks = ts ++ us }) p
        → Step r r'

  -- Any number of steps.
  pub data Steps (r : Realm) : Realm → Type 0 where
    stays : Steps r r
    then_steps : (r' r'' : Realm) → Steps r r' → Step r' r'' → Steps r r''
