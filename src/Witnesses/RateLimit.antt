-- ===== src/Witnesses/RateLimit.antt =====
-- backend/app/core/rate_limit.py over a server that holds a counter for each key.
use cyberlab_kali.Base.{
  ℕ, suc, ◌-◌, ◌≤◌, ◌≡◌, refl, if◌then◌else◌, Bool, true, false, Option, none, some, [], ◌∷◌, Text,
  codes, text_eq, text_eq_refl, text_eq→eq, ap, arith, Bool-cases, inl, inr,
}
use cyberlab_kali.Tools.Schema.{pos}
use cyberlab_kali.RateLimit.{
  Redis, Settings, IsOn, Request, client_ip, key_of, judged, first_hit, counted, rate_limit,
}
use cyberlab_kali.RateLimit.Window.{passed, passes, passes-bounded}
use cyberlab_kali.RateLimit.Lockout.{request, time, happen, rate_limit-locked}

-- The counter under each key, and whether it has an expiry.
record Counter : Type 0 where
  hits : ℕ
  expires : Bool

abbrev Store : Type 0
Store = Text → Counter

abbrev write : Text → Counter → Store → Store
write key c s asked = if text_eq key asked then c else s asked

abbrev lapsed : Counter → Counter
lapsed c = if c.expires then record { hits = 0; expires = false } else c

store_incr_expiry :
    (key asked : Text) (s : Store)
    → (write key (record { hits = suc (s key).hits; expires = (s key).expires }) s asked).expires
      ≡ (s asked).expires
store_incr_expiry key asked s = elim (Bool-cases (text_eq key asked)) [
  | inr e ↦ rw e refl
  | inl e ↦ rw e (ap (λ k. (s k).expires) (text_eq→eq key asked e))
]

store_expire_count :
    (key asked : Text) (t : ℕ) (s : Store)
    → (write key (record { hits = (s key).hits; expires = true }) s asked).hits ≡ (s asked).hits
store_expire_count key asked t s = elim (Bool-cases (text_eq key asked)) [
  | inr e ↦ rw e refl
  | inl e ↦ rw e (ap (λ k. (s k).hits) (text_eq→eq key asked e))
]

abbrev hit : Text → Store → Store
hit key s = write key (record { hits = suc (s key).hits; expires = (s key).expires }) s

store_incr_answer :
    (key : Text) (s : Store) (n : ℕ)
    → ◌≡◌ {A = Option ℕ} (some (suc (s key).hits)) (some n)
    → (n ≡ suc (s key).hits) × ((hit key s key).hits ≡ n)
store_incr_answer key s n e = (ground arith, ground (arith, text_eq_refl key))

store_incr_up : (key : Text) (s : Store) → (s key).hits ≤ (hit key s key).hits
store_incr_up key s = ground (arith, text_eq_refl key)

write_other :
    (key asked : Text) (c : Counter) (s : Store)
    → text_eq key asked ≡ false
    → write key c s asked ≡ s asked
write_other key asked c s h = rw h refl

lapsed_kept :
    (asked : Text) (s : Store)
    → (s asked).expires ≡ false
    → ((lapsed (s asked)).hits ≡ (s asked).hits) × ((lapsed (s asked)).expires ≡ false)
lapsed_kept asked s h = (ground (arith, h), ground (arith, h))

abbrev server : Redis Store
server = record {
  incr = λ key s. (some (suc (s key).hits), hit key s);
  expire = λ key t s. (true, write key (record { hits = (s key).hits; expires = true }) s);
  ttl = λ key s. some (pos 0);
  lapse = λ s key. lapsed (s key);
  count = λ key s. (s key).hits;
  has_expiry = λ key s. (s key).expires;
  incr_answer = store_incr_answer;
  incr_up = store_incr_up;
  incr_other = λ key asked s h. ap (λ c. c.hits) (write_other key asked _ s h);
  incr_expiry = store_incr_expiry;
  expire_count = λ key asked t s h. store_expire_count key asked t s;
  expire_other = λ key asked t s h. ap (λ c. c.expires) (write_other key asked _ s h);
  lapse_kept = lapsed_kept;
}

abbrev settings : Settings
settings = record { enabled = true; max_requests = 2; window = 60 }

settings-IsOn : IsOn settings
settings-IsOn = record { enabled = refl; lasts = omega arith }

abbrev ask : Request
ask = record { bucket = codes "ai_call"; client = none }

abbrev empty : Store
empty key = record { hits = 0; expires = false }

two_pass : passes server settings (key_of ask) (ask ∷ ask ∷ ask ∷ []) empty ≡ 2
unfolding passes rate_limit counted first_hit judged key_of client_ip text_eq
two_pass = refl

passes-bounded_example :
    passes server settings (key_of ask) (ask ∷ ask ∷ ask ∷ []) empty
    ≤ 2 - server.count (key_of ask) empty
passes-bounded_example =
    passes-bounded server settings (key_of ask) (ask ∷ ask ∷ ask ∷ []) empty settings-IsOn

-- A server on which each EXPIRE fails.
abbrev failing : Redis Store
failing = record server {
  expire = λ key t s. (false, s);
  expire_count = λ key asked t s h. refl;
  expire_other = λ key asked t s h. refl;
}

lockout : Unit {0}
unfolding rate_limit counted first_hit judged happen key_of client_ip text_eq
lockout = tt

one_hit : (failing.incr (key_of ask) empty).0 ≡ some 1
one_hit = refl

no_expiry :
    failing.has_expiry
      (key_of ask)
      (failing.expire (key_of ask) 60 (failing.incr (key_of ask) empty).1).1
    ≡ false
unfolding lockout
no_expiry = refl

two_hits :
    2
    ≤ failing.count
        (key_of ask)
        (happen failing settings (request ask ∷ []) (rate_limit failing settings ask empty).1)
unfolding lockout
two_hits = omega arith

rate_limit-locked_example :
    passed
      (rate_limit failing settings ask (
        happen failing settings
          (time ∷ request ask ∷ [])
          (happen failing settings (request ask ∷ []) (rate_limit failing settings ask empty).1))).0
    ≡ false
rate_limit-locked_example =
    rate_limit-locked failing settings ask ask (request ask ∷ []) (time ∷ request ask ∷ []) empty
      settings-IsOn one_hit no_expiry two_hits refl
