-- ===== src/Promise/Once.antt =====
-- A promise is settled at most once, whatever order the steps come in.
use mathlib.Core.Path.{subst}
use echo_js.Base.{
  ℕ, ◌≡◌, ◌⊎◌, inl, inr, refl, sym, ap, ◌∙◌, List, [], ◌∷◌, ◌++◌, Bool, not, Option, none, some,
  Outcome, ok, type_error, aborted, ◌>>=◌, if◌then◌else◌, if-cases, get_elem?, aborted_ne_ok,
  type_error_ne_ok, ok-injective, arith,
}
use echo_js.Ejsval.{is_object}
use echo_js.Equality.{Memory, same_value}
use echo_js.Promise.{
  PromiseState, uninitialized, pending, fulfilled, rejected, PromiseReaction, Resolver,
  reaction_task, Realm, store, reject_promise, fulfill_promise, mark_resolved, reject, resolve,
  resolve_with, resolve_then, then_reactions,
}
use echo_js.Promise.Licences.{
  open_resolvers, waiting, licences, thenables, Licensed, Holding, thenables-append,
}
use echo_js.Promise.Settled.{
  Stable, Sound, fulfill_promise-Sound, reject_promise-Sound, create_resolving_functions-Sound,
  waits-Sound, enqueues-Sound, mark_resolved-Holding, waiting-Holding, thenable-Holding,
  reaction-Sound, promise_new-Sound,
}
use echo_js.Promise.Run.{Step, Steps}

-- What a function that may fail does to the realm.
SoundIfOk : Realm → Outcome Realm → Type 0
SoundIfOk r o = (r' : Realm) → o ≡ ok r' → Sound r r'

ok-Sound : (r r' : Realm) → Sound r r' → SoundIfOk r (ok r')
unfolding SoundIfOk
ok-Sound r r' s r'' e = subst (Sound r) (ok-injective r' r'' e) s

aborted-Sound : (r : Realm) → SoundIfOk r aborted
unfolding SoundIfOk
aborted-Sound r r' e = absurd (aborted_ne_ok r' e)

type_error-Sound : (r : Realm) → SoundIfOk r type_error
unfolding SoundIfOk
type_error-Sound r r' e = absurd (type_error_ne_ok r' e)

same-Sound : (r : Realm) → Licensed r → Sound r r
same-Sound r h = (h, λ q settled. (refl, refl))

module _ (r : Realm) (h : Licensed r) (e : ℕ) where
  reject_found : ℕ → Option Resolver → Outcome Realm
  reject_found reason none = aborted
  reject_found reason (some k) =
      if k.already_resolved
      then ok r
      else ok (reject_promise (mark_resolved r e k) k.promise reason)

  reject_found-Sound :
      (reason : ℕ) (found : Option Resolver)
      → get_elem? r.resolvers e ≡ found
      → SoundIfOk r (reject_found reason found)
  unfolding reject_found mark_resolved
  reject_found-Sound reason none f = aborted-Sound r
  reject_found-Sound reason (some k) f =
      if-cases (SoundIfOk r) k.already_resolved (λ a. ok-Sound r r (same-Sound r h))
        (λ a. ok-Sound r (reject_promise (mark_resolved r e k) k.promise reason) (
          reject_promise-Sound (mark_resolved r e k) k.promise reason
            (mark_resolved-Holding r e k h f a)))

  reject-Sound : (reason : ℕ) → SoundIfOk r (reject r e reason)
  unfolding reject reject_found
  reject-Sound reason = reject_found-Sound reason (get_elem? r.resolvers e) refl

  module _ (mem : Memory) (error resolution : ℕ) where
    resolve_same : Realm → ℕ → Outcome Bool → Outcome Realm
    resolve_same r' p self = self >>= λ s.
        if s
        then ok (reject_promise r' p error)
        else if not (is_object resolution)
        then ok (fulfill_promise r' p resolution)
        else ok (record r' { resolving = (p, resolution) ∷ r'.resolving })

    resolve_same-Sound :
        (r' : Realm) (p : ℕ) (self : Outcome Bool)
        → Holding r' p
        → SoundIfOk r' (resolve_same r' p self)
    unfolding resolve_same
    resolve_same-Sound r' p type_error held = type_error-Sound r'
    resolve_same-Sound r' p aborted held = aborted-Sound r'
    resolve_same-Sound r' p (ok s) held =
        if-cases (SoundIfOk r') s (λ a. ok-Sound r' _ (reject_promise-Sound r' p error held))
          (λ a.
            if-cases (SoundIfOk r') (not (is_object resolution))
              (λ b. ok-Sound r' _ (fulfill_promise-Sound r' p resolution held))
              (λ b. ok-Sound r' _ (waits-Sound r' p resolution held)))

    resolve_found : Option Resolver → Outcome Realm
    resolve_found none = aborted
    resolve_found (some k) =
        if k.already_resolved
        then ok r
        else resolve_with mem error (mark_resolved r e k) k.promise resolution

    resolve_found-Sound :
        (found : Option Resolver)
        → get_elem? r.resolvers e ≡ found
        → SoundIfOk r (resolve_found found)
    unfolding resolve_found resolve_with resolve_same mark_resolved same_value SoundIfOk
    resolve_found-Sound none f = aborted-Sound r
    resolve_found-Sound (some k) f =
        if-cases (SoundIfOk r) k.already_resolved (λ a. ok-Sound r r (same-Sound r h))
          (λ a.
            resolve_same-Sound (mark_resolved r e k) k.promise (same_value mem resolution k.promise)
              (mark_resolved-Holding r e k h f a))

    resolve-Sound : SoundIfOk r (resolve mem error r e resolution)
    unfolding resolve resolve_found
    resolve-Sound = resolve_found-Sound (get_elem? r.resolvers e) refl

resolve_then-Sound :
    (is_callable : ℕ → Bool) (r' : Realm) (p resolution action : ℕ)
    → Holding r' p
    → Sound r' (resolve_then is_callable r' p resolution action)
unfolding resolve_then
resolve_then-Sound is_callable r' p resolution action held =
    if-cases (Sound r') (not (is_callable action)) (λ a. fulfill_promise-Sound r' p resolution held)
      (λ a. enqueues-Sound r' p resolution action held)

module _ (r : Realm) (h : Licensed r) (p capability on_fulfilled on_rejected : ℕ) where
  fulfill_reaction : PromiseReaction
  fulfill_reaction = record { capabilities = capability; handler = on_fulfilled }

  reject_reaction : PromiseReaction
  reject_reaction = record { capabilities = capability; handler = on_rejected }

  appended : Realm
  appended =
      let q = r.promises p in
      record r {
        promises = store r.promises p (record q {
          fulfill_reactions = q.fulfill_reactions ++ fulfill_reaction ∷ [];
          reject_reactions = q.reject_reactions ++ reject_reaction ∷ [];
        });
      }

  appended-Sound : Sound r appended
  unfolding appended store licences
  appended-Sound = (
    λ (q : ℕ). ground (arith, h q),
    λ (q : ℕ) (settled : ((r.promises q).state ≡ fulfilled) ⊎ ((r.promises q).state ≡ rejected)).
        ground arith,
  )

  enqueued-Sound :
      (reaction : PromiseReaction) (value : ℕ)
      → Sound r (record r { tasks = r.tasks ++ reaction_task reaction value ∷ [] })
  unfolding licences thenables
  enqueued-Sound reaction value = (
    λ (q : ℕ). ground (arith, h q, thenables-append q r.tasks (reaction_task reaction value ∷ [])),
    λ q settled. (refl, refl),
  )

  reacting : PromiseState → Outcome Realm
  reacting pending = ok appended
  reacting fulfilled =
      ok (record r { tasks = r.tasks ++ reaction_task fulfill_reaction (r.promises p).result ∷ [] })
  reacting rejected =
      ok (record r { tasks = r.tasks ++ reaction_task reject_reaction (r.promises p).result ∷ [] })
  reacting uninitialized = type_error

  reacting-Sound : (s : PromiseState) → SoundIfOk r (reacting s)
  unfolding reacting
  reacting-Sound pending = ok-Sound r appended appended-Sound
  reacting-Sound fulfilled = ok-Sound r _ (enqueued-Sound fulfill_reaction (r.promises p).result)
  reacting-Sound rejected = ok-Sound r _ (enqueued-Sound reject_reaction (r.promises p).result)
  reacting-Sound uninitialized = type_error-Sound r

  then_reactions-Sound : SoundIfOk r (then_reactions r p capability on_fulfilled on_rejected)
  unfolding then_reactions reacting appended fulfill_reaction reject_reaction
  then_reactions-Sound = reacting-Sound (r.promises p).state

-- A resolve function that is abandoned takes its licence with it.
abandoned-Sound :
    (r : Realm) (ws us : List (ℕ × ℕ)) (p resolution : ℕ)
    → Licensed r
    → r.resolving ≡ ws ++ (p, resolution) ∷ us
    → Sound r (record r { resolving = ws ++ us })
abandoned-Sound r ws us p resolution h e = (
  λ (q : ℕ). omega (arith, waiting-Holding r ws us p resolution h e q),
  λ q settled. (refl, refl),
)

Stable-trans : (r r' r'' : Realm) → Stable r r' → Stable r' r'' → Stable r r''
Stable-trans r r' r'' f g =
    λ (q : ℕ) (settled : ((r.promises q).state ≡ fulfilled) ⊎ ((r.promises q).state ≡ rejected)).
      let (same, kept) = f q settled in
      let later = g q (elim settled [ inl e ↦ inl (same ∙ e) | inr e ↦ inr (same ∙ e) ]) in
      (later.0 ∙ same, later.1 ∙ kept)

module _ (mem : Memory) (error : ℕ) (is_callable : ℕ → Bool) where
  moved : (r r' r'' : Realm) → r' ≡ r'' → Sound r r'' → Sound r r'
  moved r r' r'' e s = subst (Sound r) (sym e) s

  Step-Sound : (r r' : Realm) → Licensed r → Step mem error is_callable r r' → Sound r r'
  unfolding SoundIfOk
  Step-Sound r r' h (Step.constructs p u e) = moved r r' _ e (promise_new-Sound r p h u)
  Step-Sound r r' h (Step.rejects e reason o) = reject-Sound r h e reason r' o
  Step-Sound r r' h (Step.resolves e resolution o) = resolve-Sound r h e mem error resolution r' o
  Step-Sound r r' h (Step.get_returns ws us p resolution action w e) =
      let held = waiting-Holding r ws us p resolution h w in
      moved r r' _ e (
        resolve_then-Sound is_callable (record r { resolving = ws ++ us }) p resolution action held)
  Step-Sound r r' h (Step.get_throws ws us p resolution w e) =
      moved r r' _ e (abandoned-Sound r ws us p resolution h w)
  Step-Sound r r' h (Step.reacts p capability f g o) =
      then_reactions-Sound r h p capability f g r' o
  Step-Sound r r' h (Step.runs_reaction ts us reaction value w e) =
      moved r r' _ e (reaction-Sound r ts us reaction value h w)
  Step-Sound r r' h (Step.runs_thenable ts us p resolution action w e) = moved r r' _ e (
      create_resolving_functions-Sound (record r { tasks = ts ++ us }) p
        (thenable-Holding r ts us p resolution action h w))

  Steps-Sound : (r r' : Realm) → Licensed r → Steps mem error is_callable r r' → Sound r r'
  Steps-Sound r _ h Steps.stays = same-Sound r h
  Steps-Sound r _ h (Steps.then_steps r' r'' before last) =
      let (h', stable) = Steps-Sound r r' h before in
      let (h'', stable') = Step-Sound r' r'' h' last in (h'', Stable-trans r r' r'' stable stable')

  start-Licensed : (r : Realm) → r.resolvers ≡ [] → r.resolving ≡ [] → r.tasks ≡ [] → Licensed r
  unfolding licences open_resolvers waiting thenables
  start-Licensed r e f g =
      λ (q : ℕ). ground (arith, ap (open_resolvers q) e, ap (waiting q) f, ap (thenables q) g)

  -- From a start without resolving functions and tasks, whatever is constructed, resolved,
  -- rejected, listened to and run, in whatever order: a promise that is fulfilled or rejected at
  -- some time has the same state and the same result at every later time.
  pub settles_once :
      (start r r' : Realm)
      → start.resolvers ≡ []
      → start.resolving ≡ []
      → start.tasks ≡ []
      → Steps mem error is_callable start r
      → Steps mem error is_callable r r'
      → (q : ℕ) → ((r.promises q).state ≡ fulfilled) ⊎ ((r.promises q).state ≡ rejected)
      → ((r'.promises q).state ≡ (r.promises q).state)
        × ((r'.promises q).result ≡ (r.promises q).result)
  settles_once start r r' e f g before after =
      let now = Steps-Sound start r (start-Licensed start e f g) before in
      (Steps-Sound r r' now.0 after).1
