-- ===== src/RateLimit/Window.antt =====
-- Within one window, no key passes more often than the limit allows.
use cyberlab_kali.Base.{
  ℕ, suc, ◌-◌, ◌≤◌, ◌≡◌, ◌∙◌, inl, inr, refl, ◌==◌, ltb, if◌then◌else◌, Bool, true, false,
  Bool-cases, Option, none, some, Option-cases, List, [], ◌∷◌, Text, text_eq, text_eq→eq, ap,
  Result, ok, err, arith, subst,
}
use cyberlab_kali.RateLimit.{
  Redis, Settings, IsOn, LimitError, Request, key_of, judged, first_hit, counted, rate_limit,
}

abbrev pub passed : Result LimitError (Unit {0}) → Bool
passed (ok u) = true
passed (err e) = false

module _ {S : Type 0} (redis : Redis S) (settings : Settings) where
  pub judged-state :
      (key : Text) (current : ℕ) (s : S) → (judged redis settings key current s).1 ≡ s
  unfolding judged
  judged-state key current s = elim (Bool-cases (ltb settings.max_requests current)) [
    | inr e ↦ rw e refl
    | inl e ↦ elim (Option-cases (redis.ttl key s)) [
      | inl f ↦ rw e (rw (f, judged) refl)
      | inr (t, f) ↦ rw e (rw (f, judged) refl)
    ]
  ]

  judged-passed :
      (key : Text) (current : ℕ) (s : S)
      → passed (judged redis settings key current s).0 ≡ true
      → current ≤ settings.max_requests
  unfolding judged
  judged-passed key current s = elim (Bool-cases (ltb settings.max_requests current)) [
    | inr e ↦ λ h. ground arith
    | inl e ↦ elim (Option-cases (redis.ttl key s)) [
      | inl f ↦ rw e (rw (f, judged) (λ h. absurd (ground arith)))
      | inr (t, f) ↦ rw e (rw (f, judged) (λ h. absurd (ground arith)))
    ]
  ]

  -- The count that a call leaves under any key is the one that `incr` leaves.
  first_hit-count :
      (key asked : Text) (o : Bool × S)
      → redis.count asked (first_hit redis settings key o).1 ≡ redis.count asked o.1
  unfolding first_hit
  first_hit-count key asked (false, s) = refl
  first_hit-count key asked (true, s) = ap (λ t. redis.count asked t) (judged-state key 1 s)

  counted-count :
      (key asked : Text) (o : Option ℕ × S)
      → IsOn settings
      → redis.count asked (counted redis settings key o).1 ≡ redis.count asked o.1
  unfolding counted
  counted-count key asked (none, s) on = refl
  counted-count key asked (some current, s) on = elim (Bool-cases (current == 1)) [
    | inr e ↦ rw e (ap (λ t. redis.count asked t) (judged-state key current s))
    | inl e ↦ rw e (
        first_hit-count key asked (redis.expire key settings.window s)
        ∙ redis.expire_count key asked settings.window s on.lasts)
  ]

  first_hit-passed :
      (key : Text) (o : Bool × S)
      → passed (first_hit redis settings key o).0 ≡ true
      → 1 ≤ settings.max_requests
  unfolding first_hit
  first_hit-passed key (false, s) h = absurd (ground arith)
  first_hit-passed key (true, s) h = judged-passed key 1 s h

  -- A call that passes was answered by Redis, with a number within the limit.
  counted-passed :
      (key : Text) (o : Option ℕ × S)
      → passed (counted redis settings key o).0 ≡ true
      → (n : ℕ) × (o.0 ≡ some n) × (n ≤ settings.max_requests)
  unfolding counted
  counted-passed key (none, s) = λ h. absurd (ground arith)
  counted-passed key (some current, s) = elim (Bool-cases (current == 1)) [
    | inr e ↦ rw e (λ h. (current, refl, judged-passed key current s h))
    | inl e ↦ rw e (λ h.
        let one = first_hit-passed key (redis.expire key settings.window s) h in
        (current, refl, ground arith))
  ]

  -- How many of the requests on the key pass, one after the other.
  unfoldable pub passes : Text → List Request → S → ℕ
  passes key [] s = 0
  passes key (request ∷ rest) s =
      let call = rate_limit redis settings request s in
      let later = passes key rest call.1 in
      if text_eq (key_of request) key then (if passed call.0 then suc later else later) else later

  pub rate_limit-count :
      (request : Request) (asked : Text) (s : S)
      → IsOn settings
      → redis.count asked (rate_limit redis settings request s).1
        ≡ redis.count asked (redis.incr (key_of request) s).1
  unfolding rate_limit
  rate_limit-count request asked s e =
      rw e.enabled (counted-count (key_of request) asked (redis.incr (key_of request) s) e)

  pub rate_limit-passed :
      (request : Request) (s : S)
      → IsOn settings
      → passed (rate_limit redis settings request s).0 ≡ true
      → (redis.count (key_of request) (rate_limit redis settings request s).1
          ≡ suc (redis.count (key_of request) s))
        × (suc (redis.count (key_of request) s) ≤ settings.max_requests)
  unfolding rate_limit
  rate_limit-passed request s e = rw e.enabled (λ h.
      let key = key_of request in
      let (n, answer, within) = counted-passed key (redis.incr key s) h in
      let law = redis.incr_answer key s n answer in
      let count = counted-count key key (redis.incr key s) e in
      (omega (arith, count, law.0, law.1), omega (arith, law.0, within)))

  -- While no key expires, the limiter, switched on with a window of at least a second, lets no more requests of one bucket and client pass than are
  -- left of the limit, whatever requests of others come between, and whenever Redis fails to answer.
  pub passes-bounded :
      (key : Text) (requests : List Request) (s : S)
      → IsOn settings
      → passes key requests s ≤ settings.max_requests - redis.count key s
  unfolding passes
  passes-bounded key [] s e = omega arith
  passes-bounded key (request ∷ rest) s e =
      let after = (rate_limit redis settings request s).1 in
      let later = passes-bounded key rest after e in
      let count = rate_limit-count request key s e in
      elim (Bool-cases (text_eq (key_of request) key)) [
        | inr other ↦
            rw other (omega (arith, later, count, redis.incr_other (key_of request) key s other))
        | inl here ↦
            let same : key_of request ≡ key = text_eq→eq (key_of request) key here in
            elim (Bool-cases (passed (rate_limit redis settings request s).0)) [
              | inr refused ↦
                  let up =
                    subst (λ k. redis.count k s ≤ redis.count k (redis.incr (key_of request) s).1)
                      same (redis.incr_up (key_of request) s) in
                  rw here (rw refused (omega (arith, later, count, up)))
              | inl through ↦
                  let counts =
                    subst
                      (λ k.
                        (redis.count k after ≡ suc (redis.count k s))
                        × (suc (redis.count k s) ≤ settings.max_requests))
                      same (rate_limit-passed request s e through) in
                  rw here (rw through (omega (arith, later, counts.0, counts.1)))
            ]
      ]
