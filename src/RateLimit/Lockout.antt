-- ===== src/RateLimit/Lockout.antt =====
-- What becomes of a key whose first EXPIRE failed.
use cyberlab_kali.Base.{
  ℕ, ◌≤◌, ◌<◌, ◌≡◌, ◌⊎◌, ◌∙◌, inl, inr, refl, sym, ◌==◌, Bool, true, false, Bool-cases, Option,
  none, some, List, [], ◌∷◌, Text, text_eq, text_eq→eq, ap, arith, subst,
}
use cyberlab_kali.RateLimit.{Redis, Settings, IsOn, Request, key_of, first_hit, counted, rate_limit}
use cyberlab_kali.RateLimit.Window.{passed, judged-state, rate_limit-count, rate_limit-passed}

-- What happens to the limiter: a request, or the passing of time.
pub data Event : Type 0 where
  request : Request → Event
  time : Event

module _ {S : Type 0} (redis : Redis S) (settings : Settings) where
  unfoldable pub happen : List Event → S → S
  happen [] s = s
  happen (request r ∷ rest) s = happen rest (rate_limit redis settings r s).1
  happen (time ∷ rest) s = happen rest (redis.lapse s)

  -- The key was counted, at least `n` times, and has no expiry.
  record IsHeld (n : ℕ) (key : Text) (s : S) : Type 0 where
    seen : 1 ≤ redis.count key s
    full : n ≤ redis.count key s
    unbounded : redis.has_expiry key s ≡ false

  first_hit-other :
      (key asked : Text) (o : Bool × S)
      → redis.has_expiry asked (first_hit redis settings key o).1 ≡ redis.has_expiry asked o.1
  unfolding first_hit
  first_hit-other key asked (false, s) = refl
  first_hit-other key asked (true, s) =
      ap (λ t. redis.has_expiry asked t) (judged-state redis settings key 1 s)

  -- A call sets no expiry on another key, and none on its own if the key was counted before.
  counted-expiry :
      (key asked : Text) (o : Option ℕ × S)
      → (text_eq key asked ≡ false) ⊎ ((n : ℕ) → o.0 ≡ some n → 1 < n)
      → redis.has_expiry asked (counted redis settings key o).1 ≡ redis.has_expiry asked o.1
  unfolding counted
  counted-expiry key asked (none, s) h = refl
  counted-expiry key asked (some current, s) h = elim (Bool-cases (current == 1)) [
    | inr e ↦ rw e (ap (λ t. redis.has_expiry asked t) (judged-state redis settings key current s))
    | inl e ↦ elim h [
      | inr later ↦ absurd (ground (arith, later current refl))
      | inl other ↦ rw e (
          first_hit-other key asked (redis.expire key settings.window s)
          ∙ redis.expire_other key asked settings.window s other)
    ]
  ]

  request-expiry :
      (r : Request) (key : Text) (s : S)
      → IsOn settings
      → 1 ≤ redis.count key s
      → redis.has_expiry key (rate_limit redis settings r s).1 ≡ redis.has_expiry key s
  unfolding rate_limit
  request-expiry r key s e seen =
      let call = redis.incr (key_of r) s in
      rw e.enabled (
        counted-expiry (key_of r) key call (elim (Bool-cases (text_eq (key_of r) key)) [
          | inr other ↦ inl other
          | inl here ↦
              let counts =
                subst (λ k. 1 ≤ redis.count k s) (sym (text_eq→eq (key_of r) key here)) seen in
              inr (λ n f. omega (arith, counts, (redis.incr_answer (key_of r) s n f).0))
        ])
        ∙ redis.incr_expiry (key_of r) key s)

  request-count :
      (r : Request) (key : Text) (s : S)
      → IsOn settings
      → redis.count key s ≤ redis.count key (rate_limit redis settings r s).1
  request-count r key s e =
      let after = rate_limit-count redis settings r key s e in
      elim (Bool-cases (text_eq (key_of r) key)) [
        | inr other ↦ omega (arith, after, redis.incr_other (key_of r) key s other)
        | inl here ↦
            let up =
              subst (λ k. redis.count k s ≤ redis.count k (redis.incr (key_of r) s).1)
                (text_eq→eq (key_of r) key here) (redis.incr_up (key_of r) s) in
            omega (arith, after, up)
      ]

  request-IsHeld :
      (n : ℕ) (r : Request) (key : Text) (s : S)
      → IsOn settings
      → IsHeld n key s
      → IsHeld n key (rate_limit redis settings r s).1
  request-IsHeld n r key s e h = record {
    seen = omega (arith, h.seen, request-count r key s e);
    full = omega (arith, h.full, request-count r key s e);
    unbounded = request-expiry r key s e h.seen ∙ h.unbounded;
  }

  lapse-IsHeld : (n : ℕ) (key : Text) (s : S) → IsHeld n key s → IsHeld n key (redis.lapse s)
  lapse-IsHeld n key s h =
      let kept = redis.lapse_kept key s h.unbounded in
      record {
        seen = omega (arith, h.seen, kept.0);
        full = omega (arith, h.full, kept.0);
        unbounded = kept.1;
      }

  happen-IsHeld :
      (n : ℕ) (key : Text) (events : List Event) (s : S)
      → IsOn settings
      → IsHeld n key s
      → IsHeld n key (happen events s)
  unfolding happen
  happen-IsHeld n key [] s e h = h
  happen-IsHeld n key (request r ∷ rest) s e h =
      happen-IsHeld n key rest (rate_limit redis settings r s).1 e (request-IsHeld n r key s e h)
  happen-IsHeld n key (time ∷ rest) s e h =
      happen-IsHeld n key rest (redis.lapse s) e (lapse-IsHeld n key s h)

  -- The first hit on a key leaves it counted and without an expiry if its EXPIRE sets none.
  first-IsHeld :
      (r : Request) (s : S)
      → IsOn settings
      → (redis.incr (key_of r) s).0 ≡ some 1
      → redis.has_expiry
          (key_of r)
          (redis.expire (key_of r) settings.window (redis.incr (key_of r) s).1).1
        ≡ false
      → IsHeld 0 (key_of r) (rate_limit redis settings r s).1
  unfolding rate_limit counted
  first-IsHeld r s e one lost =
      let key = key_of r in
      let count = rate_limit-count redis settings r key s e in
      let law = redis.incr_answer key s 1 one in
      record {
        seen = omega (arith, count, law.1);
        full = omega arith;
        unbounded = rw e.enabled (
            rw (one, counted)
              (first_hit-other key key (redis.expire key settings.window (redis.incr key s).1)
                ∙ lost));
      }

  held-refused :
      (r : Request) (s : S)
      → IsOn settings
      → IsHeld settings.max_requests (key_of r) s
      → passed (rate_limit redis settings r s).0 ≡ false
  held-refused r s e h = elim (Bool-cases (passed (rate_limit redis settings r s).0)) [
    | inr refused ↦ refused
    | inl through ↦
        let counts = rate_limit-passed redis settings r s e through in
        absurd (omega (arith, counts.1, h.full))
  ]

  -- Where the limiter is switched on with a window of at least a second, and the EXPIRE that follows
  -- the first hit on a key leaves the key without an expiry, as one that fails does: once the key is
  -- counted as far as the limit, every later request on it is refused, whatever other requests and
  -- however much time come between.
  pub rate_limit-locked :
      (first r : Request) (events later : List Event) (s : S)
      → IsOn settings
      → (redis.incr (key_of first) s).0 ≡ some 1
      → redis.has_expiry
          (key_of first)
          (redis.expire (key_of first) settings.window (redis.incr (key_of first) s).1).1
        ≡ false
      → settings.max_requests
        ≤ redis.count (key_of first) (happen events (rate_limit redis settings first s).1)
      → key_of r ≡ key_of first
      → passed
          (rate_limit redis settings r
            (happen later (happen events (rate_limit redis settings first s).1))).0
        ≡ false
  rate_limit-locked first r events later s e one lost full same =
      let key = key_of first in
      let reached = happen events (rate_limit redis settings first s).1 in
      let begun = happen-IsHeld 0 key events _ e (first-IsHeld first s e one lost) in
      let held : IsHeld settings.max_requests key reached = record {
        seen = begun.seen;
        full = full;
        unbounded = begun.unbounded;
      } in
      held-refused r (happen later reached) e (
        subst (λ k. IsHeld settings.max_requests k (happen later reached)) (sym same)
          (happen-IsHeld settings.max_requests key later reached e held))
