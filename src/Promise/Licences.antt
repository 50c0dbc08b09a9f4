-- ===== src/Promise/Licences.antt =====
-- Who may still settle a promise: the resolving functions that nobody has called, the resolve
-- functions that wait for Get, and the tasks that will make a new pair.
use echo_js.Base.{
  ℕ, zero, suc, ◌+◌, ◌≤◌, ◌≡◌, refl, List, [], ◌∷◌, ◌++◌, true, false, not, ◌&&◌, some, ◌==◌,
  if◌then◌else◌, get_elem?, set, arith,
}
use echo_js.Promise.{
  PromiseState, uninitialized, pending, fulfilled, rejected, PromiseReaction, Resolver, Task,
  reaction_task, thenable_task, Realm, enqueue_reactions,
}

unfoldable pub open_resolvers : ℕ → List Resolver → ℕ
open_resolvers p [] = 0
open_resolvers p (k ∷ ks) =
    let rest = open_resolvers p ks in
    if not k.already_resolved && k.promise == p then rest + 1 else rest

unfoldable pub waiting : ℕ → List (ℕ × ℕ) → ℕ
waiting p [] = 0
waiting p ((q, v) ∷ ws) = let rest = waiting p ws in if q == p then rest + 1 else rest

unfoldable pub thenables : ℕ → List Task → ℕ
thenables p [] = 0
thenables p (reaction_task reaction v ∷ ts) = thenables p ts
thenables p (thenable_task q v action ∷ ts) =
    let rest = thenables p ts in if q == p then rest + 1 else rest

unfoldable pub licences : ℕ → Realm → ℕ
unfolding open_resolvers waiting thenables
licences p r = open_resolvers p r.resolvers + waiting p r.resolving + thenables p r.tasks

-- One for a pending promise, none for any other.
unfoldable pub allowance : PromiseState → ℕ
allowance pending = 1
allowance uninitialized = 0
allowance fulfilled = 0
allowance rejected = 0

-- No promise has more licences than its state allows.
abbrev pub Licensed : Realm → Type 0
Licensed r = (q : ℕ) → licences q r ≤ allowance (r.promises q).state

-- One licence of `p` has been taken from where it was, and is in hand.
abbrev pub Holding : Realm → ℕ → Type 0
Holding r p = (q : ℕ) → licences q r + (if q == p then 1 else 0) ≤ allowance (r.promises q).state

pub thenables-append :
    (p : ℕ) (ts us : List Task) → thenables p (ts ++ us) ≡ thenables p ts + thenables p us
unfolding thenables
thenables-append p [] us = omega arith
thenables-append p (reaction_task k v ∷ ts) us = thenables-append p ts us
thenables-append p (thenable_task q v action ∷ ts) us = ground (arith, thenables-append p ts us)

pub thenables-enqueue_reactions :
    (p : ℕ) (ks : List PromiseReaction) (v : ℕ) → thenables p (enqueue_reactions ks v) ≡ 0
unfolding thenables enqueue_reactions
thenables-enqueue_reactions p [] v = refl
thenables-enqueue_reactions p (k ∷ ks) v = thenables-enqueue_reactions p ks v

pub waiting-append :
    (p : ℕ) (ws us : List (ℕ × ℕ)) → waiting p (ws ++ us) ≡ waiting p ws + waiting p us
unfolding waiting
waiting-append p [] us = omega arith
waiting-append p ((q, v) ∷ ws) us = ground (arith, waiting-append p ws us)

pub open_resolvers-append :
    (p : ℕ) (ks ls : List Resolver)
    → open_resolvers p (ks ++ ls) ≡ open_resolvers p ks + open_resolvers p ls
unfolding open_resolvers
open_resolvers-append p [] ls = omega arith
open_resolvers-append p (k ∷ ks) ls = ground (arith, open_resolvers-append p ks ls)

pub open_resolvers-set :
    (p : ℕ) (ks : List Resolver) (e : ℕ) (k : Resolver)
    → get_elem? ks e ≡ some k
    → k.already_resolved ≡ false
    → open_resolvers p (set ks e (record k { already_resolved = true }))
        + (if k.promise == p then 1 else 0)
      ≡ open_resolvers p ks
unfolding open_resolvers
open_resolvers-set p [] e k h c = ground arith
open_resolvers-set p (l ∷ ks) zero k h c = ground arith
open_resolvers-set p (l ∷ ks) (suc e) k h c = ground (arith, open_resolvers-set p ks e k h c)
