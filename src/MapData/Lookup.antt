-- ===== src/MapData/Lookup.antt =====
-- Reading after writing.
use echo_js.Base.{
  ℕ, ◌+◌, ◌≡◌, refl, List, [], ◌∷◌, ◌++◌, Bool, true, false, Option, none, some, ok, arith,
  if◌then◌else◌, All,
}
use echo_js.Equality.{Memory}
use echo_js.Objects.{is_no_iter_value}
use echo_js.Ejsval.View.{View, encode, Fits}
use echo_js.Equality.Keys.{IsKey, same_value_zero-normalise, is_no_iter_value-normalise}
use echo_js.MapData.{
  Entry, normalise, is_live, matches, map_get, map_has, overwrite, map_set, keep, map_size,
}

-- The keys in insertion order, those of emptied entries included.
unfoldable pub keys : List Entry → List ℕ
keys [] = []
keys (p ∷ ps) = p.key ∷ keys ps

-- The number of live entries depends on the keys alone.
size-keys : (es ws : List Entry) → keys ws ≡ keys es → map_size ws ≡ map_size es
unfolding keys map_size is_live
size-keys [] [] h = refl
size-keys [] (w ∷ ws) h = ground arith
size-keys (e ∷ es) [] h = ground arith
size-keys (e ∷ es) (w ∷ ws) h = ground (arith, size-keys es ws)

size-append :
    (es : List Entry) (q : Entry)
    → is_no_iter_value q.key ≡ false
    → map_size (es ++ q ∷ []) ≡ map_size es + 1
unfolding map_size is_live
size-append [] q h = ground arith
size-append (e ∷ es) q h = ground (arith, size-append es q h)

keys-append : (es : List Entry) (q : Entry) → keys (es ++ q ∷ []) ≡ keys es ++ q.key ∷ []
unfolding keys
keys-append [] q = refl
keys-append (e ∷ es) q = ground (arith, keys-append es q)

keep_total :
    (p : Entry) (r : Option (List Entry)) → (q : Option (List Entry)) × (keep p (ok r) ≡ ok q)
keep_total p none = (none, refl)
keep_total p (some ws) = (some (p ∷ ws), refl)

module _ (mem : Memory) where
  -- the value of an entry takes no part in the test
  matches-value : (p : Entry) (v k : ℕ) → matches mem (record p { value = v }) k ≡ matches mem p k
  unfolding matches is_live
  matches-value p v k = refl

  get-overwrite :
      (es : List Entry) (k v : ℕ) (ws : List Entry)
      → overwrite mem es k v ≡ ok (some ws)
      → map_get mem ws k ≡ ok v
  unfolding overwrite map_get
  get-overwrite [] k v ws h = ground arith
  get-overwrite (p ∷ ps) k v [] h = ground arith
  get-overwrite (p ∷ ps) k v (w ∷ ws) h =
      ground (arith, matches-value p v k, get-overwrite ps k v ws)

  -- an entry that is passed over in one read is passed over in the other
  get-append :
      (es : List Entry) (k v : ℕ) (q : Entry)
      → overwrite mem es k v ≡ ok none
      → map_get mem (es ++ q ∷ []) k ≡ map_get mem (q ∷ []) k
  unfolding overwrite map_get
  get-append [] k v q h = refl
  get-append (p ∷ ps) k v q h = ground (arith, get-append ps k v q)

  has-overwrite :
      (es : List Entry) (k v : ℕ) (ws : List Entry)
      → overwrite mem es k v ≡ ok (some ws)
      → (map_has mem es k ≡ ok true) × (map_has mem ws k ≡ ok true)
  unfolding overwrite map_has
  has-overwrite [] k v ws h = ground arith
  has-overwrite (p ∷ ps) k v [] h = ground arith
  has-overwrite (p ∷ ps) k v (w ∷ ws) h =
      ground (arith, matches-value p v k, has-overwrite ps k v ws)

  has-append :
      (es : List Entry) (k v : ℕ) (q : Entry)
      → overwrite mem es k v ≡ ok none
      → (map_has mem es k ≡ ok false) × (map_has mem (es ++ q ∷ []) k ≡ map_has mem (q ∷ []) k)
  unfolding overwrite map_has
  has-append [] k v q h = (refl, refl)
  has-append (p ∷ ps) k v q h = ground (arith, has-append ps k v q)

  keys-overwrite :
      (es : List Entry) (k v : ℕ) (ws : List Entry)
      → overwrite mem es k v ≡ ok (some ws)
      → keys ws ≡ keys es
  unfolding overwrite keys
  keys-overwrite [] k v ws h = ground arith
  keys-overwrite (p ∷ ps) k v [] h = ground arith
  keys-overwrite (p ∷ ps) k v (w ∷ ws) h = ground (arith, keys-overwrite ps k v ws)

  -- `key` can be compared with every entry: no test of the loop aborts.
  abbrev pub Answers : ℕ → List Entry → Type 0
  Answers k = All (λ p. (b : Bool) × (matches mem p k ≡ ok b))

  overwrite_total :
      (es : List Entry) (k v : ℕ)
      → Answers k es
      → (r : Option (List Entry)) × (overwrite mem es k v ≡ ok r)
  unfolding overwrite
  overwrite_total [] k v h = (none, refl)
  overwrite_total (p ∷ ps) k v ((true, e), h) = (some (record p { value = v } ∷ ps), rw e)
  overwrite_total (p ∷ ps) k v ((false, e), h) =
      let (r, run) = overwrite_total ps k v h in rw (e, run) (keep_total p r)

  -- `ws` is what `_ejs_map_set` leaves of `es` for a key that it stores as `stored`: the key reads
  -- as the value, it is counted once, and no entry moves.
  pub record Stored (es : List Entry) (key stored value : ℕ) (ws : List Entry) : Type 0 where
    pub reads : map_get mem ws key ≡ ok value
    pub present : map_has mem ws key ≡ ok true
    pub before : Bool
    pub was : map_has mem es key ≡ ok before
    pub counted : map_size ws ≡ (if before then map_size es else map_size es + 1)
    pub order : keys ws ≡ (if before then keys es else keys es ++ stored ∷ [])

  Stored-over :
      (es : List Entry) (k v : ℕ) (ws : List Entry)
      → overwrite mem es k v ≡ ok (some ws)
      → Stored es k (normalise k) v ws
  Stored-over es k v ws h =
      let same = keys-overwrite es k v ws h in
      record {
        reads = get-overwrite es k v ws h;
        present = (has-overwrite es k v ws h).1;
        before = true;
        was = (has-overwrite es k v ws h).0;
        counted = size-keys es ws same;
        order = same;
      }

  Stored-behind :
      (es : List Entry) (v : ℕ) (w : View)
      → Fits w
      → IsKey mem w
      → overwrite mem es (encode w) v ≡ ok none
      → Stored es
          (encode w)
          (normalise (encode w))
          v
          (es ++ record { key = normalise (encode w); value = v } ∷ [])
  unfolding map_get map_has matches is_live
  Stored-behind es v w fits is_key h =
      let k = encode w in
      let q : Entry = record { key = normalise k; value = v } in
      let here = same_value_zero-normalise mem w fits is_key in
      let live = is_no_iter_value-normalise mem w fits is_key in
      record {
        reads = rw (get-append es k v q h, live, here);
        present = rw ((has-append es k v q h).1, live, here);
        before = false;
        was = (has-append es k v q h).0;
        counted = size-append es q live;
        order = keys-append es q;
      }

  -- Map.prototype.set, for a key in range, no symbol, that can be compared with every entry: it
  -- returns, and leaves the map with the value under the key, counted once, and every key that was
  -- there in its place, a new one behind them.
  pub map_set-Stored :
      (es : List Entry) (v : ℕ) (w : View)
      → Fits w
      → IsKey mem w
      → Answers (encode w) es
      → (ws : List Entry) × (map_set mem es (encode w) v ≡ ok ws)
        × Stored es (encode w) (normalise (encode w)) v ws
  unfolding map_set
  map_set-Stored es v w fits is_key answers =
      let (r, run) = overwrite_total es (encode w) v answers in finish r run
    where
      finish :
          (r : Option (List Entry))
          → overwrite mem es (encode w) v ≡ ok r
          → (ws : List Entry) × (map_set mem es (encode w) v ≡ ok ws)
            × Stored es (encode w) (normalise (encode w)) v ws
      finish none run = (_, rw run, Stored-behind es v w fits is_key run)
      finish (some ws) run = (ws, rw run, Stored-over es (encode w) v ws run)

  get-append_other :
      (es : List Entry) (j : ℕ) (q : Entry)
      → matches mem q j ≡ ok false
      → map_get mem (es ++ q ∷ []) j ≡ map_get mem es j
  unfolding map_get
  get-append_other [] j q h = ground arith
  get-append_other (p ∷ ps) j q h = ground (arith, get-append_other ps j q h)

  get-overwrite_other :
      (es : List Entry) (j k v : ℕ) (ws : List Entry)
      → All (λ p. matches mem p k ≡ ok true → matches mem p j ≡ ok false) es
      → overwrite mem es k v ≡ ok (some ws)
      → map_get mem ws j ≡ map_get mem es j
  unfolding overwrite map_get
  get-overwrite_other [] j k v ws apart h = ground arith
  get-overwrite_other (p ∷ ps) j k v [] apart h = ground arith
  get-overwrite_other (p ∷ ps) j k v (w ∷ ws) apart h =
      ground (arith, matches-value p v j, apart.0, get-overwrite_other ps j k v ws apart.1)

  -- Map.prototype.set leaves what any other key reads, where no entry, and not the stored key,
  -- answers to both keys.
  map_get-map_set_other :
      (es : List Entry) (j k v : ℕ) (ws : List Entry)
      → All (λ p. matches mem p k ≡ ok true → matches mem p j ≡ ok false) es
      → matches mem (record { key = normalise k; value = v }) j ≡ ok false
      → map_set mem es k v ≡ ok ws
      → map_get mem ws j ≡ map_get mem es j
  unfolding map_set
  map_get-map_set_other es j k v ws apart new h = ground (
    arith,
    get-append_other es j (record { key = normalise k; value = v }) new,
    get-overwrite_other es j k v ws apart,
  )
